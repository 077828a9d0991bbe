-- ===== src/Agents/Remote/Tests.antt =====
-- server/agents/remote.ts: a session that is pinned to one of two daemons of its user.
use agent_web_mvp.Prelude.{ℕ, ◌≡◌, ◌++◌, refl, String, true, false, [], ◌∷◌, none, some}
use agent_web_mvp.Prelude.Tally.{tally}
use agent_web_mvp.Prelude.JsMap.{get}
use agent_web_mvp.Types.{
  claude, assistant, ChatMessage, DaemonClientMessage, daemon_message, daemon_done,
}
use agent_web_mvp.Types.AuthDetect.{detect_auth_required}
use agent_web_mvp.Devices.{DeviceHello, Device, Registry, get_device, send_to_device}
use agent_web_mvp.Agents.Remote.{
  Remote, send_prompt, cleanup, remote_runner, pick_device, pick_for, owned_by, post, begin_run,
}
use agent_web_mvp.Agents.Remote.Pin.{Sends, send_prompt-Sends}
use agent_web_mvp.Agents.Remote.Events.{Ticket, handle_daemon_message, dispatch}
use agent_web_mvp.Agents.Remote.Replay.{stale_replay_orphaned}
use agent_web_mvp.Agents.Remote.Deletion.{late_message_throws}
use agent_web_mvp.Db.Sessions
use agent_web_mvp.Session.Operations.{cancel}
use agent_web_mvp.Session.Store.{SessionStore, delete, message_row}
use agent_web_mvp.Session.State.{
  insert_agent_message, message_added, Session, Env, construct, auth_hit, is_stale_resume_error,
}

abbrev hello : DeviceHello
hello = record {
  hostname = "box";
  display_name = none;
  os = "linux";
  arch = "arm64";
  version = "0.1.18";
  agents = [];
  pid = 1;
  codex_enabled = none;
}

abbrev device : (id : String) → (ws : ℕ) → Device
device id ws = record {
  id = id;
  user_id = "u1";
  connected_at = 1;
  remote_addr = "10.0.0.1";
  ws = ws;
  hello = hello;
}

abbrev registry : Registry
registry = record {
  devices = ("d1", device "d1" 10) ∷ ("d2", device "d2" 11) ∷ [];
  listeners = [];
  notified = [];
  net = record { is_open = λ _. true; frames = []; closes = [] };
}

abbrev pinned : Remote
pinned = record {
  user_id = "u1";
  agent = claude;
  cwd = "/work/app";
  preferred_device_id = some "d2";
  model = none;
  active_run_id = none;
  active_device_id = none;
  waiting = false;
  unsubscribe = none;
  subscriptions = [];
  drawn = 0;
  sent = [];
}

send_prompt-Sends_example : Sends registry tally "hi" none pinned
unfolding get
send_prompt-Sends_example =
    send_prompt-Sends registry tally "hi" none pinned
      (record { distinct = (refl, (refl, tt)); own_ids = (refl, (refl, tt)) })

abbrev env : Env Remote
env = record { runner = remote_runner registry tally; random_uuid = tally; now = 7 }

-- A run on "d2" of the prompt "a".
abbrev running_session : Session Remote Ticket
running_session =
    record (construct "x" 5
      (record {
        id = some "s1";
        user_id = "u1";
        agent = claude;
        cwd = "/work/app";
        title = none;
        created_at = none;
        resume_token = some "r0";
        preferred_device_id = some "d2";
        model = none;
        history = none;
      })
      (send_prompt registry tally "a" (some "r0") pinned).0) {
        busy = true;
        in_flight_prompt = some "a";
      }

abbrev gone : String
gone = "No conversation found with session ID: r0"

stale_replay_orphaned_example :
    let t = handle_daemon_message env (daemon_done "" none (some gone)) running_session in
    (t.runner ≡ cleanup (send_prompt registry tally "a" none running_session.runner).0)
    × (t.busy ≡ false)
    × (t.in_flight_prompt ≡ none)
    × ((dev : String) (msg : DaemonClientMessage) → dispatch env dev msg t ≡ t)
unfolding construct send_prompt pick_device pick_for owned_by get_device get post send_to_device
    begin_run auth_hit detect_auth_required is_stale_resume_error
stale_replay_orphaned_example =
    stale_replay_orphaned env "" gone "a" running_session
      (send_prompt registry tally "a" none running_session.runner).0 refl refl refl refl refl refl
      refl refl refl

abbrev store : SessionStore Remote Ticket
store = record {
  sessions = ("s1", running_session) ∷ [];
  db = record { users = "u1" ∷ []; agent_sessions = []; agent_messages = [] };
}

late_message_throws_example :
    let out = delete env "s1" store in
    let dead = cancel env running_session in
    (out.1 ≡ some dead)
    × ((m : ChatMessage) × ((dispatch env "d2"
            (daemon_message "" assistant "late" none)
            dead).effects
          ≡ dead.effects ++ insert_agent_message m ∷ message_added m ∷ [])
        × (agent_web_mvp.Db.Sessions.insert_agent_message (message_row (λ j. "{}") m) out.0.db
            ≡ none))
unfolding construct send_prompt pick_device pick_for owned_by get_device get post send_to_device
    begin_run
late_message_throws_example =
    late_message_throws registry tally 7 (λ j. "{}") "s1" "d2" "" "late" running_session store refl
      refl refl refl
