-- ===== src/Web/Tests.antt =====
-- web/src/App.tsx and web/src/ws.ts: a view of one session, and a client that reconnects.
use agent_web_mvp.Prelude.{ℕ, ◌≡◌, refl, String, true, List, [], ◌∷◌, ◌++◌, none, some, map}
use agent_web_mvp.Prelude.JsMap.{get}
use agent_web_mvp.Types.{claude, user, ChatMessage, list_sessions, send_prompt, assistant}
use agent_web_mvp.Wire.{to_browser}
use agent_web_mvp.Session.State.{Session, Env, construct, meta}
use agent_web_mvp.Session.Store.{list_for_user}
use agent_web_mvp.Server.{Server}
use agent_web_mvp.Server.Opening.{on_connection}
use agent_web_mvp.Web.{App, initial, handle_all}
use agent_web_mvp.Web.Opening.{shown}
use agent_web_mvp.Web.Reconnect.{opening, IsListed, opening_shows, reopening_doubles}
use agent_web_mvp.Web.Live.{Shows, update, view_follows}
use agent_web_mvp.Hub.Subscribed.{received, IsSubscribed}
use agent_web_mvp.Prelude.Tally.{tally}
use agent_web_mvp.Agents.{started, on_message, on_done}
use agent_web_mvp.Session.History.{Input, prompt, agent, run as run_session}
use agent_web_mvp.Server.{act}
use agent_web_mvp.Web.Socket.{connecting, sends, opens, closes, reconnects, run}
use agent_web_mvp.Web.Queue.{IsQueued, run-IsQueued}

abbrev said : (id text : String) → ChatMessage
said id text = record { id = id; session_id = "s1"; ts = 5; role = user; text = text; meta = none }

abbrev session : Session (List String) ℕ
session =
    record (construct "s1" 5
      (record {
        id = some "s1";
        user_id = "u1";
        agent = claude;
        cwd = "/work/app";
        title = some "work";
        created_at = none;
        resume_token = none;
        preferred_device_id = none;
        model = none;
        history = some (said "m1" "hello" ∷ said "m2" "again" ∷ []);
      })
      []) { pending = ("q1", 3) ∷ [] }

abbrev server : Server (List String) ℕ
server = record {
  hub = record {
    registry = record {
      devices = [];
      listeners = [];
      notified = [];
      net = record { is_open = λ _. true; frames = []; closes = [] };
    };
    browsers = [];
    pending_dir_listings = [];
    pending_codex_enables = [];
  };
  store = record {
    sessions = ("s1", session) ∷ [];
    db = record { users = []; agent_sessions = []; agent_messages = [] };
  };
  buckets = [];
  tokens = record { pairing_codes = []; device_tokens = [] };
}

session-IsListed : IsListed "/work" 20 "u1" server session [] []
unfolding list_for_user construct
session-IsListed = record {
  listed = refl;
  own_before = tt;
  own = (refl, (refl, tt));
  own_after = tt;
  apart_before = tt;
  apart_after = tt;
}

opening_shows_example :
    ((on_connection "/work" 20 "u1" server).hub.registry.net.frames
      ≡ [] ++ map (λ m. (20, to_browser m)) (opening "/work" 20 "u1" server))
    × (shown session.id (handle_all (opening "/work" 20 "u1" server) initial) ≡ session.history)
opening_shows_example = opening_shows "/work" 20 "u1" server session [] [] refl session-IsListed

abbrev shown_once : App
shown_once = handle_all (opening "/work" 20 "u1" server) initial

reopening_doubles_example :
    shown session.id (handle_all (opening "/work" 20 "u1" server) shown_once)
    ≡ session.history ++ session.history
reopening_doubles_example =
    reopening_doubles "/work" 20 "u1" server session [] [] shown_once session-IsListed
      (opening_shows "/work" 20 "u1" server session [] [] refl session-IsListed).1

run-IsQueued_example : IsQueued (list_sessions ∷ send_prompt "s1" "hi" ∷ []) (
    run
      (sends list_sessions ∷ opens ∷ closes ∷ sends (send_prompt "s1" "hi") ∷ reconnects ∷ [])
      connecting)
run-IsQueued_example =
    run-IsQueued
      (sends list_sessions ∷ opens ∷ closes ∷ sends (send_prompt "s1" "hi") ∷ reconnects ∷ [])

abbrev env : Env (List String)
env = record {
  runner = record { send = λ p t r. (r ++ p ∷ [], started); cancel = λ r. r };
  random_uuid = tally;
  now = 7;
}

abbrev inputs : List (Env (List String) × Input ℕ)
inputs =
    (env, prompt "more") ∷ (env, agent (on_message assistant "hi" none)) ∷ (env, agent on_done) ∷ []

abbrev watched : Server (List String) ℕ
watched = record server { hub = record server.hub { browsers = ("u1", 20 ∷ []) ∷ [] } }

abbrev view : App
view = record initial {
  sessions = ("s1", meta session) ∷ [];
  messages = ("s1", said "m1" "hello" ∷ said "m2" "again" ∷ []) ∷ [];
}

view_follows_example :
    (received 20 (act (run_session inputs) session.id session watched).hub.registry.net.frames
      ≡ received 20 watched.hub.registry.net.frames
        ++ map to_browser (update 20 watched inputs session))
    × Shows
        (run_session inputs (record session { effects = [] }))
        (handle_all (update 20 watched inputs session) view)
    × IsSubscribed 20 session.user_id (act (run_session inputs) session.id session watched).hub
unfolding construct get meta
view_follows_example =
    view_follows 20 watched inputs session view
      (record {
        is_open = refl;
        before = [];
        after = [];
        sockets = refl;
        not_before = tt;
        not_after = tt;
      })
      (record { messages = refl; status = refl })
