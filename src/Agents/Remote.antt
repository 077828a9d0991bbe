-- ===== src/Agents/Remote.antt =====
-- server/agents/remote.ts: the runner that hands a session's prompts to a connected daemon. A
-- subscription to the registry is known by the run that it was made for. The frames that
-- sendToDevice takes are kept in `sent`; the registry itself does not change within a step.
pub mod Events
pub mod Pin
pub mod Replay
pub mod Deletion
pub mod Tests
use agent_web_mvp.Prelude.{
  ℕ, suc, String, Bool, true, false, not, List, [], ◌∷◌, ◌++◌, Option, none, some, if◌then◌else◌,
  ◌==◌, keep, truthy, is_some,
}
use agent_web_mvp.Types.{AgentKind, DaemonServerMessage, daemon_run_prompt, daemon_cancel}
use agent_web_mvp.Devices.{Device, Registry, get_device, pick_runner, send_to_device}
use agent_web_mvp.Agents.{SendResult, started, refused, AgentRunner}

pub record Remote : Type 0 where
  pub user_id : String
  pub agent : AgentKind
  pub cwd : String
  pub preferred_device_id : Option String
  pub model : Option String
  pub active_run_id : Option String
  pub active_device_id : Option String
  -- `donePromise` is there and not yet resolved.
  pub waiting : Bool
  -- The run whose subscription `unsubscribe` removes.
  pub unsubscribe : Option String
  pub subscriptions : List String
  -- How many values of randomUUID the runner has used.
  pub drawn : ℕ
  pub sent : List (String × DaemonServerMessage)

unfoldable pub owned_by : String → Option Device → Option Device
owned_by user_id none = none
owned_by user_id (some preferred) = if preferred.user_id == user_id then some preferred else none

-- The pin is strict: no other device stands in for the one that is preferred.
unfoldable pub pick_for : Registry → Remote → Option String → Option Device
pick_for registry r none = pick_runner registry r.user_id
pick_for registry r (some id) = owned_by r.user_id (get_device registry id)

unfoldable pub pick_device : Registry → Remote → Option Device
unfolding pick_for
pick_device registry r = pick_for registry r (truthy r.preferred_device_id)

-- `registry.sendToDevice`, as the runner calls it.
unfoldable pub post : Registry → String → DaemonServerMessage → Remote → Remote × Bool
post registry id msg r =
    if (send_to_device registry id msg).1
    then (record r { sent = r.sent ++ (id, msg) ∷ [] }, true)
    else (r, false)

remove_subscription : Option String → List String → List String
remove_subscription none runs = runs
remove_subscription (some run) runs = keep (λ i. not (i == run)) runs

unfoldable pub cleanup : Remote → Remote
unfolding remove_subscription
cleanup r = record r {
  subscriptions = remove_subscription r.unsubscribe r.subscriptions;
  unsubscribe = none;
  active_run_id = none;
  active_device_id = none;
  waiting = false;
}

abbrev pub offline_message : Remote → String
offline_message r =
    if is_some (truthy r.preferred_device_id)
    then "The device this session is pinned to is offline. Start the daemon on that machine and retry, or create a new session here."
    else "No daemon connected. Run `vvibe login` and `vvibe install` on your machine."

-- The run is under way, and its subscription made, before the frame is sent.
unfoldable pub begin_run : String → Device → Remote → Remote
begin_run run_id device r = record r {
  active_device_id = some device.id;
  active_run_id = some run_id;
  waiting = true;
  unsubscribe = some run_id;
  subscriptions = r.subscriptions ++ run_id ∷ [];
  drawn = suc r.drawn;
}

unfoldable pub run_frame : String → String → Option String → Remote → DaemonServerMessage
run_frame run_id prompt resume_token r =
    daemon_run_prompt run_id run_id r.agent r.cwd prompt resume_token r.model

unfoldable pub after_post : Remote × Bool → Remote × SendResult
after_post (r, true) = (r, started)
after_post (r, false) = (cleanup r, refused "Daemon disconnected before run could start.")

module _ (registry : Registry) (random_uuid : ℕ → String) where
  unfoldable pub send_prompt : String → Option String → Remote → Remote × SendResult
  unfolding after_post
  send_prompt prompt resume_token r = elim (pick_device registry r) [
    | none ↦ (r, refused (offline_message r))
    | some device ↦
        let run_id = random_uuid r.drawn in
        after_post (
          post registry device.id (run_frame run_id prompt resume_token r)
            (begin_run run_id device r))
  ]

  -- `sendToDevice` may fail here too; the answer is not looked at.
  unfoldable pub cancel_run : Option String → Option String → Remote → Remote
  cancel_run (some run_id) (some device_id) r = (post registry device_id (daemon_cancel run_id) r).0
  cancel_run _ _ r = r

  unfoldable pub cancel : Remote → Remote
  unfolding cancel_run
  cancel r = cancel_run r.active_run_id r.active_device_id r

  abbrev pub remote_runner : AgentRunner Remote
  remote_runner = record { send = send_prompt; cancel = cancel }
