-- ===== src/Web.antt =====
-- web/src/App.tsx: the state of the browser's main view, what each message of the server does to it, and
-- what the view shows of it. A setter with a function applies it to the state as it then is.
pub mod Socket
pub mod Queue
pub mod Opening
pub mod Reconnect
pub mod Heard
pub mod Live
pub mod Dialog
pub mod Picker
pub mod Tests
use agent_web_mvp.Prelude.{
  ℕ, ◌+◌, String, Bool, true, false, not, ◌||◌, List, [], ◌∷◌, ◌++◌, Option, none, some, keep, map,
  head?, length, if◌then◌else◌, ◌==◌, nat_eq, leb, or_else, same_option,
}
use agent_web_mvp.Prelude.JsMap.{JsMap, get, set, remove, values}
use agent_web_mvp.Types.{
  SessionMeta, SessionStatus, running, awaiting_permission, ChatMessage, PermissionRequest,
  AuthRequiredInfo, DeviceInfo, ClientMessage, retry_last, create_session, AgentKind, ServerMessage,
  hello, sessions, session_created, session_updated, session_deleted, message, permission_request,
  permission_resolved, auth_required, devices, cancel_all_ack, dir_listing, codex_enable_result,
}
use agent_web_mvp.Db.Sessions.{sort_by}
use agent_web_mvp.Session.State.{same_status}

pub record App : Type 0 where
  pub default_cwd : String
  pub sessions : JsMap SessionMeta
  pub messages : JsMap (List ChatMessage)
  pub active_id : Option String
  pub pending_permissions : List PermissionRequest
  pub auth_required : JsMap AuthRequiredInfo
  pub show_new : Bool
  pub devices : List DeviceInfo
  pub server_errors : List (ℕ × String)
  pub error_id : ℕ

abbrev pub initial : App
initial = record {
  default_cwd = "";
  sessions = [];
  messages = [];
  active_id = none;
  pending_permissions = [];
  auth_required = [];
  show_new = false;
  devices = [];
  server_errors = [];
  error_id = 0;
}

-- Object.fromEntries, from the entries that are there.
unfoldable pub add_all : List SessionMeta → JsMap SessionMeta → JsMap SessionMeta
add_all [] m = m
add_all (s ∷ ss) m = add_all ss (set s.id s m)

abbrev pub or_first : Option String → List SessionMeta → Option String
or_first (some id) ss = some id
or_first none [] = none
or_first none (s ∷ ss) = some s.id

unfoldable pub append_message : ChatMessage → JsMap (List ChatMessage) → JsMap (List ChatMessage)
append_message m ms = set m.session_id (or_else (get m.session_id ms) [] ++ m ∷ []) ms

unfoldable pub handle_server_message : ServerMessage → App → App
unfolding add_all append_message
handle_server_message (hello default_cwd) app = record app { default_cwd = default_cwd }
handle_server_message (ServerMessage.sessions ss) app = record app {
  sessions = add_all ss [];
  active_id = or_first app.active_id ss;
}
handle_server_message (session_created s) app = record app {
  sessions = set s.id s app.sessions;
  active_id = some s.id;
}
handle_server_message (session_updated s) app = record app { sessions = set s.id s app.sessions }
handle_server_message (session_deleted id) app = record app {
  sessions = remove id app.sessions;
  messages = remove id app.messages;
  active_id = if same_option app.active_id (some id) then none else app.active_id;
}
handle_server_message (message m) app = record app { messages = append_message m app.messages }
handle_server_message (permission_request r) app = record app {
  pending_permissions = app.pending_permissions ++ r ∷ [];
}
handle_server_message (permission_resolved session_id request_id) app = record app {
  pending_permissions = keep (λ p. not (p.request_id == request_id)) app.pending_permissions;
}
handle_server_message (ServerMessage.auth_required session_id info) app = record app {
  auth_required = set session_id info app.auth_required;
}
handle_server_message (ServerMessage.devices ds) app = record app { devices = ds }
handle_server_message (ServerMessage.error session_id text) app = record app {
  error_id = app.error_id + 1;
  server_errors = app.server_errors ++ (app.error_id + 1, text) ∷ [];
}
handle_server_message (cancel_all_ack cancelled) app = app
handle_server_message (dir_listing request_id path parent entries error) app = app
handle_server_message (codex_enable_result device_id success error) app = app

unfoldable pub handle_all : List ServerMessage → App → App
unfolding handle_server_message
handle_all [] app = app
handle_all (m ∷ ms) app = handle_all ms (handle_server_message m app)

-- What is shown.
unfoldable pub session_list : App → List SessionMeta
session_list app = sort_by (λ a b. leb a.created_at b.created_at) (values app.sessions)

unfoldable pub running_count : App → ℕ
unfolding session_list
running_count app = length (
    keep (λ s. same_status s.status running || same_status s.status awaiting_permission)
      (session_list app))

unfoldable pub active_messages : App → List ChatMessage
active_messages app = elim app.active_id [ none ↦ [] | some id ↦ or_else (get id app.messages) [] ]

unfoldable pub active_permission : App → Option PermissionRequest
active_permission app =
    head? (keep (λ p. same_option (some p.session_id) app.active_id) app.pending_permissions)

-- What the user does in the view.
unfoldable pub dismiss_error : ℕ → App → App
dismiss_error id app = record app {
  server_errors = keep (λ e. not (nat_eq e.0 id)) app.server_errors;
}

unfoldable pub dismiss_auth : String → App → App
dismiss_auth id app = record app { auth_required = remove id app.auth_required }

unfoldable pub retry_auth : String → App → App × ClientMessage
retry_auth id app = (record app { auth_required = remove id app.auth_required }, retry_last id)

unfoldable pub create :
    AgentKind → (cwd : String) (title device_id model : Option String) → App → App × ClientMessage
create agent cwd title device_id model app =
    (record app { show_new = false }, create_session agent cwd title device_id model)
