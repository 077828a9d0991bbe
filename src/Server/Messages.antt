-- ===== src/Server/Messages.antt =====
-- server/index.ts: handleClientMessage.
use agent_web_mvp.Prelude.{
  ℕ, suc, String, Bool, true, false, not, ◌&&◌, ◌||◌, List, [], ◌∷◌, map, Option, none, some,
  if◌then◌else◌, ◌==◌, ◌<>◌, truthy, leb,
}
use agent_web_mvp.Prelude.JsMap.{JsMap}
use agent_web_mvp.Types.{
  AgentKind, claude, codex, SessionStatus, running, awaiting_permission, ClientMessage,
  list_sessions, create_session, send_prompt, retry_last, permission_response, cancel_all,
  delete_session, ServerMessage,
}
use agent_web_mvp.Types.Models.{is_allowed_claude_model, is_allowed_codex_model}
use agent_web_mvp.Devices.{Device, Registry, get_device}
use agent_web_mvp.Devices
use agent_web_mvp.Hub.{broadcast_to_user}
use agent_web_mvp.Hub.Listings.{LocalListing, list_dir}
use agent_web_mvp.Hub.Codex.{enable_codex_on_device}
use agent_web_mvp.Db.Sessions.{sort_by}
use agent_web_mvp.RateLimit.{check_prompt_rate, drop_prompt_bucket}
use agent_web_mvp.Session.State.{
  Session, Env, SessionOptions, meta, same_status, resolve_permission, deny_all,
}
use agent_web_mvp.Session.Operations.{enqueue_prompt, retry_last_user_prompt, cancel}
use agent_web_mvp.Session.Store.{SessionStore, create, delete, get_for_user, list_for_user}
use agent_web_mvp.Server.{Server, reply, act, must_session, with_device, publish_all}

-- What surrounds a message: the session's surroundings, the environment of the process, the file
-- system, the maker of runners, and the randomUUID that is drawn.
pub record World (R : Type 0) : Type 0 where
  pub env : Env R
  pub trust_codex : Bool
  pub is_valid_cwd : String → Bool
  pub local : String → LocalListing
  pub make_runner : SessionOptions → R
  pub new_id : String
  -- The text of what a failed INSERT throws.
  pub database_error : String

abbrev pub too_many : String → ServerMessage
too_many id = ServerMessage.error (some id) "Too many prompts on this session; slow down (10/min)."

-- The model, if the agent's list has it.
abbrev pub allowed_model : AgentKind → Option String → Option String
allowed_model claude model = if is_allowed_claude_model model then model else none
allowed_model codex model = if is_allowed_codex_model model then model else none

abbrev pub new_options :
    (user_id : String)
    → AgentKind
    → (cwd : String) → (title device_id model : Option String) → SessionOptions
new_options user_id agent cwd title device_id model = record {
  id = none;
  user_id = user_id;
  agent = agent;
  cwd = cwd;
  title = title;
  created_at = none;
  resume_token = none;
  preferred_device_id = truthy device_id;
  model = allowed_model agent model;
  history = none;
}

abbrev pub is_codex : AgentKind → Bool
is_codex codex = true
is_codex claude = false

abbrev pub is_none : List Device → Bool
is_none [] = true
is_none (d ∷ ds) = false

-- The pin of a new session: none, an own device, or an error.
abbrev pub own_device : String → Option Device → Bool
own_device user_id none = false
own_device user_id (some d) = d.user_id == user_id

unfoldable pub is_known_pin : Registry → String → Option String → Bool
is_known_pin registry user_id device_id = elim (truthy device_id) [
  | none ↦ true
  | some id ↦ own_device user_id (get_device registry id)
]

-- The sessions that `cancel_all` cancels.
abbrev pub is_active : SessionStatus → Bool
is_active st = same_status st running || same_status st awaiting_permission

module _ {R K : Type 0} (world : World R) where
  -- A prompt or a retry, under the limit of the rate.
  unfoldable pub limited :
      (ws : ℕ) → (user_id id : String) → (Server R K → Server R K) → Server R K → Server R K
  limited ws user_id id k server =
      let (buckets, passed) = check_prompt_rate world.env.now user_id id server.buckets in
      let counted = record server { buckets = buckets } in
      if passed then k counted else reply ws (too_many id) counted

  unfoldable pub retry_with : (ws : ℕ) → (id : String) → Session R K → Server R K → Server R K
  retry_with ws id s server =
      let retried = act (λ t. (retry_last_user_prompt world.env t).0) id s server in
      if (retry_last_user_prompt world.env s).1
      then retried
      else reply ws
          (ServerMessage.error (some id)
            "Nothing to retry — this session has no previous user message.")
          retried

  abbrev pub created : (ws : ℕ) → Server R K → Option (SessionStore R K × Session R K) → Server R K
  created ws server none = reply ws (ServerMessage.error none world.database_error) server
  created ws server (some (store, s)) =
      let stored = record server { store = store } in
      let told = record stored { hub = publish_all s.user_id server.tokens s.effects server.hub } in
      reply ws (ServerMessage.session_created (with_device told.hub server.tokens (meta s))) told

  unfoldable pub create_with : (ws : ℕ) → SessionOptions → Server R K → Server R K
  create_with ws opts server =
      created ws server
        (create world.new_id world.env.now opts (world.make_runner opts) server.store)

  unfoldable pub create_session_for :
      (ws : ℕ)
      → (user_id : String) → AgentKind
      → (cwd : String) → (title device_id model : Option String) → Server R K
      → Server R K
  create_session_for ws user_id agent cwd title device_id model server =
      if is_codex agent && not world.trust_codex
      then reply ws
          (ServerMessage.error none
            "Codex agent is disabled by default. The operator must configure CODEX_ARGS on the daemon and set CODEX_TRUST_DEFAULTS=1 on the server to opt in. See README.")
          server
      else if is_none (agent_web_mvp.Devices.list_for_user server.hub.registry user_id)
          && not (world.is_valid_cwd cwd)
      then reply ws (ServerMessage.error none ("Directory does not exist: " <> cwd)) server
      else if is_known_pin server.hub.registry user_id device_id
      then create_with ws (new_options user_id agent cwd title device_id model) server
      else reply ws (ServerMessage.error none "Unknown device.") server

  -- The sessions in the order of `list`, each with its key.
  abbrev pub by_age : JsMap (Session R K) → JsMap (Session R K)
  by_age = sort_by (λ a b. leb a.1.created_at b.1.created_at)

  -- The loop of `cancel_all` over the user's sessions, with the number cancelled so far.
  unfoldable pub cancel_each :
      (user_id : String) → JsMap (Session R K) → ℕ → Server R K → Server R K × ℕ
  cancel_each user_id [] n server = (server, n)
  cancel_each user_id ((id, s) ∷ entries) n server =
      if s.user_id == user_id && is_active s.status
      then cancel_each user_id entries (suc n) (act (cancel world.env) id s server)
      else cancel_each user_id entries n server

  -- What `delete` answers; the callbacks of the cancellation come before the session is dropped.
  abbrev pub deleted :
      (user_id id : String)
      → Session R K
      → SessionStore R K × Option (Session R K)
      → Server R K
      → Server R K
  deleted user_id id s (store, none) server = server
  deleted user_id id s (store, some dead) server = record server {
    store = store;
    buckets = drop_prompt_bucket user_id id server.buckets;
    hub =
        broadcast_to_user user_id (ServerMessage.session_deleted id)
          (publish_all s.user_id server.tokens (deny_all s.id s.pending) server.hub);
  }

  unfoldable pub delete_owned :
      (user_id id : String) → Option (Session R K) → Server R K → Server R K
  delete_owned user_id id none server = server
  delete_owned user_id id (some s) server =
      deleted user_id id s (delete world.env id server.store) server

  unfoldable pub handle_client_message :
      (ws : ℕ) → (user_id : String) → ClientMessage → Server R K → Server R K
  handle_client_message ws user_id list_sessions server =
      reply ws
        (ServerMessage.sessions (
          map (λ s. with_device server.hub server.tokens (meta s))
            (list_for_user user_id server.store)))
        server
  handle_client_message ws user_id (create_session agent cwd title device_id model) server =
      create_session_for ws user_id agent cwd title device_id model server
  handle_client_message ws user_id (send_prompt id prompt) server =
      must_session ws user_id id
        (λ s. limited ws user_id id (act (enqueue_prompt world.env prompt) id s)) server
  handle_client_message ws user_id (retry_last id) server =
      must_session ws user_id id (λ s. limited ws user_id id (retry_with ws id s)) server
  handle_client_message ws user_id (permission_response id request_id allow) server =
      must_session ws user_id id (act (resolve_permission request_id allow) id) server
  handle_client_message ws user_id (ClientMessage.cancel id) server =
      must_session ws user_id id (act (cancel world.env) id) server
  handle_client_message ws user_id cancel_all server =
      let (done, n) = cancel_each user_id (by_age server.store.sessions) 0 server in
      reply ws (ServerMessage.cancel_all_ack n) done
  handle_client_message ws user_id (delete_session id) server =
      delete_owned user_id id (get_for_user id user_id server.store) server
  handle_client_message ws user_id (ClientMessage.list_dir request_id device_id path) server =
      record server {
        hub = list_dir world.local world.env.now ws user_id request_id device_id path server.hub;
      }
  handle_client_message ws user_id (ClientMessage.enable_codex_on_device device_id mode) server =
      record server {
        hub =
            enable_codex_on_device world.env.now ws user_id device_id mode world.new_id server.hub;
      }
