-- ===== src/Session/Store.antt =====
-- server/sessions.ts: class SessionStore. A statement that throws, throws out of the method: the
-- result is `none` then, and nothing has changed.
use agent_web_mvp.Prelude.{
  ℕ, String, List, [], ◌∷◌, Option, none, some, truthy, map, if◌then◌else◌, ◌==◌, leb, keep,
}
use agent_web_mvp.Prelude.JsMap.{JsMap, get, set, remove, values}
use agent_web_mvp.Types.{ChatMessage}
use agent_web_mvp.Types.Values.{Json}
use agent_web_mvp.Db.Sessions.{
  AgentSessionRow, AgentMessageRow, SessionTables, sort_by, insert_agent_session,
  delete_agent_session, list_agent_sessions, list_agent_messages_by_session,
}
use agent_web_mvp.Session.State.{Session, SessionOptions, Env, construct, meta, meta_changed, emit}
use agent_web_mvp.Session.Operations.{cancel}

pub record SessionStore (R K : Type 0) : Type 0 where
  pub sessions : JsMap (Session R K)
  pub db : SessionTables

abbrev pub meta_text : (json_stringify : Json → String) → Option Json → Option String
meta_text json_stringify none = none
meta_text json_stringify (some v) = some (json_stringify v)

-- What is inserted for a message; `json_stringify` is JSON.stringify.
unfoldable pub message_row : (json_stringify : Json → String) → ChatMessage → AgentMessageRow
message_row json_stringify m = record {
  id = m.id;
  session_id = m.session_id;
  role = m.role;
  text = m.text;
  meta = meta_text json_stringify m.meta;
  ts = m.ts;
}

abbrev pub parse_meta : (json_parse : String → Option Json) → Option String → Option Json
parse_meta json_parse none = none
parse_meta json_parse (some text) = json_parse text

-- A message as it is read back. `json_parse` is JSON.parse, none where it throws; meta that is no
-- JSON is dropped.
unfoldable pub message_of : (json_parse : String → Option Json) → AgentMessageRow → ChatMessage
message_of json_parse m = record {
  id = m.id;
  session_id = m.session_id;
  ts = m.ts;
  role = m.role;
  text = m.text;
  meta = parse_meta json_parse (truthy m.meta);
}

unfoldable pub options_of : AgentSessionRow → List ChatMessage → SessionOptions
options_of row history = record {
  id = some row.id;
  user_id = row.user_id;
  agent = row.agent;
  cwd = row.cwd;
  title = some row.title;
  created_at = some row.created_at;
  resume_token = row.resume_token;
  preferred_device_id = row.preferred_device_id;
  model = row.model;
  history = some history;
}

module _ {R K : Type 0} where
  unfoldable pub list : SessionStore R K → List (Session R K)
  list store = sort_by (λ a b. leb a.created_at b.created_at) (values store.sessions)

  unfoldable pub list_for_user : String → SessionStore R K → List (Session R K)
  unfolding list
  list_for_user user_id store = keep (λ s. s.user_id == user_id) (list store)

  abbrev pub owned : String → Option (Session R K) → Option (Session R K)
  owned user_id none = none
  owned user_id (some s) = if s.user_id == user_id then some s else none

  unfoldable pub get_for_user : (id user_id : String) → SessionStore R K → Option (Session R K)
  get_for_user id user_id store = owned user_id (get id store.sessions)

  -- What `create` writes; resume_token is left to its default, NULL.
  unfoldable pub row_of : Session R K → AgentSessionRow
  row_of s = record {
    id = s.id;
    user_id = s.user_id;
    agent = s.agent;
    cwd = s.cwd;
    title = s.title;
    resume_token = none;
    preferred_device_id = s.preferred_device_id;
    model = s.model;
    created_at = s.created_at;
  }

  abbrev pub committed :
      Session R K
      → SessionStore R K
      → Option SessionTables
      → Option (SessionStore R K × Session R K)
  committed s store none = none
  committed s store (some db) =
      let told = emit (meta_changed (meta s)) s in
      some (record { sessions = set s.id told store.sessions; db = db }, told)

  -- `opts` has neither an id nor a time, a token or a history.
  unfoldable pub create :
      (new_id : String)
      → (now : ℕ) → SessionOptions
      → R
      → SessionStore R K
      → Option (SessionStore R K × Session R K)
  unfolding row_of
  create new_id now opts runner store =
      let s = construct new_id now opts runner in
      committed s store (insert_agent_session (row_of s) store.db)

  -- The session that is dropped is in the answer, with what its cancellation did.
  unfoldable pub delete :
      Env R → String → SessionStore R K → SessionStore R K × Option (Session R K)
  delete env id store = elim (get id store.sessions) [
    | none ↦ (store, none)
    | some s ↦ (
      record { sessions = remove id store.sessions; db = delete_agent_session id store.db },
      some (cancel env s),
    )
  ]

  -- `runner` makes the runner of a session.
  unfoldable pub restore :
      (SessionOptions → R)
      → (json_parse : String → Option Json) → SessionTables
      → AgentSessionRow
      → Session R K
  unfolding options_of message_of
  restore runner json_parse db row =
      let history = map (message_of json_parse) (list_agent_messages_by_session row.id db) in
      let opts = options_of row history in construct "" 0 opts (runner opts)

  unfoldable pub add_rows :
      (SessionOptions → R)
      → (json_parse : String → Option Json) → SessionTables
      → List AgentSessionRow
      → JsMap (Session R K)
      → JsMap (Session R K)
  unfolding restore
  add_rows runner json_parse db [] sessions = sessions
  add_rows runner json_parse db (row ∷ rows) sessions =
      add_rows runner json_parse db rows (set row.id (restore runner json_parse db row) sessions)

  unfoldable pub rehydrate :
      (SessionOptions → R)
      → (json_parse : String → Option Json) → SessionStore R K
      → SessionStore R K
  unfolding add_rows
  rehydrate runner json_parse store = record {
    sessions = add_rows runner json_parse store.db (list_agent_sessions store.db) store.sessions;
    db = store.db;
  }
