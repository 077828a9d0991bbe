-- ===== src/Server/Tests.antt =====
-- server/index.ts: two users with a session each; one tries to delete the session of the other.
use agent_web_mvp.Prelude.{ℕ, ◌≡◌, refl, String, true, false, List, [], ◌∷◌, ◌++◌, none, some}
use agent_web_mvp.Prelude.Tally.{tally}
use agent_web_mvp.Prelude.JsMap.{get}
use agent_web_mvp.Types.{claude, delete_session}
use agent_web_mvp.Agents.{started}
use agent_web_mvp.Session.State.{Session, construct}
use agent_web_mvp.Server.{Server}
use agent_web_mvp.Server.Messages.{World, handle_client_message}
use agent_web_mvp.Server.Isolation.{foreign_session_kept}

abbrev world : World (List String)
world = record {
  env = record {
    runner = record { send = λ p t r. (r ++ p ∷ [], started); cancel = λ r. r };
    random_uuid = tally;
    now = 7;
  };
  trust_codex = false;
  is_valid_cwd = λ _. true;
  local = λ path. record { path = path; parent = none; entries = []; error = none };
  make_runner = λ _. [];
  new_id = "s3";
  database_error = "UNIQUE constraint failed";
}

abbrev session : (id user_id : String) → Session (List String) ℕ
session id user_id =
    construct id 5
      (record {
        id = some id;
        user_id = user_id;
        agent = claude;
        cwd = "/work/app";
        title = none;
        created_at = none;
        resume_token = none;
        preferred_device_id = none;
        model = none;
        history = none;
      })
      []

abbrev server : Server (List String) ℕ
server = record {
  hub = record {
    registry = record {
      devices = [];
      listeners = [];
      notified = [];
      net = record { is_open = λ _. true; frames = []; closes = [] };
    };
    browsers = [];
    pending_dir_listings = [];
    pending_codex_enables = [];
  };
  store = record {
    sessions = ("s1", session "s1" "u1") ∷ ("s2", session "s2" "u2") ∷ [];
    db = record { users = []; agent_sessions = []; agent_messages = [] };
  };
  buckets = [];
  tokens = record { pairing_codes = []; device_tokens = [] };
}

foreign_session_kept_example :
    get "s1" (handle_client_message world 21 "u2" (delete_session "s1") server).store.sessions
    ≡ some (session "s1" "u1")
unfolding get construct
foreign_session_kept_example =
    foreign_session_kept "s1" (session "s1" "u1") world 21 "u2" (delete_session "s1") server
      (refl, (refl, tt)) refl refl refl
