-- ===== src/Session/State.antt =====
-- server/sessions.ts: the fields of class Session, its constructor, and the parts of its methods
-- that need neither the runner nor a clock.
use agent_web_mvp.Prelude.{
  ℕ, ◌+◌, String, Bool, true, false, not, ◌&&◌, List, [], ◌∷◌, ◌++◌, Option, none, some,
  if◌then◌else◌, ◌==◌, ◌<>◌, or_else, is_some, length, same_option,
}
use agent_web_mvp.Prelude.JsMap.{JsMap, get, remove}
use agent_web_mvp.Types.{
  AgentKind, claude, codex, SessionStatus, idle, running, awaiting_permission, ChatMessage,
  SessionMeta, PermissionRequest, AuthRequiredInfo, this_machine, daemon_machine,
}
use agent_web_mvp.Types.AuthDetect.{AuthHit, word, codes, test, detect_auth_required}
use agent_web_mvp.Agents.{AgentRunner}
use agent_web_mvp.Session.Title.{title_of}

pub data Effect (K : Type 0) : Type 0 where
  meta_changed : SessionMeta → Effect K
  message_added : ChatMessage → Effect K
  permission_requested : PermissionRequest → Effect K
  permission_resolved : (session_id request_id : String) → Effect K
  error_raised : (session_id error : String) → Effect K
  auth_required : (session_id : String) → AuthRequiredInfo → Effect K
  insert_agent_message : ChatMessage → Effect K
  update_resume_token : (token : Option String) (id : String) → Effect K
  settle : K → (allow : Bool) → Effect K

pub record Session (R K : Type 0) : Type 0 where
  pub id : String
  pub user_id : String
  pub agent : AgentKind
  pub cwd : String
  pub title : String
  pub status : SessionStatus
  pub created_at : ℕ
  pub history : List ChatMessage
  pub resume_token : Option String
  pub preferred_device_id : Option String
  pub model : Option String
  pub runner : R
  pub pending : JsMap K
  pub queue : List String
  pub busy : Bool
  pub cancelling : Bool
  pub in_flight_prompt : Option String
  pub stale_resume_retried : Bool
  pub auth_alerted_this_turn : Bool
  -- How many values of randomUUID the session has used.
  pub drawn : ℕ
  pub effects : List (Effect K)

-- What surrounds the session in one step of the event loop.
pub record Env (R : Type 0) : Type 0 where
  pub runner : AgentRunner R
  pub random_uuid : ℕ → String
  pub now : ℕ

pub record SessionOptions : Type 0 where
  pub id : Option String
  pub user_id : String
  pub agent : AgentKind
  pub cwd : String
  pub title : Option String
  pub created_at : Option ℕ
  pub resume_token : Option String
  pub preferred_device_id : Option String
  pub model : Option String
  pub history : Option (List ChatMessage)

abbrev pub same_status : SessionStatus → SessionStatus → Bool
same_status idle idle = true
same_status running running = true
same_status awaiting_permission awaiting_permission = true
same_status SessionStatus.error SessionStatus.error = true
same_status SessionStatus.ended SessionStatus.ended = true
same_status _ _ = false

unfoldable pub is_stale_resume_error : String → Bool
is_stale_resume_error message =
    test (word "no conversation found with session id" ∷ []) (codes message)

abbrev pub agent_name : AgentKind → String
agent_name claude = "claude"
agent_name codex = "codex"

abbrev pub stale_notice : String
stale_notice =
    "Claude couldn't find this conversation on this device anymore. Re-running your last prompt from scratch — earlier messages above are kept for your reference but won't be in Claude's context."

module _ {K : Type 0} where
  unfoldable pub is_empty : JsMap K → Bool
  is_empty [] = true
  is_empty (_ ∷ _) = false

  -- Every promise that is pending is answered with `false`.
  unfoldable pub deny_all : String → JsMap K → List (Effect K)
  deny_all session_id [] = []
  deny_all session_id ((request_id, p) ∷ pending) =
      settle p false ∷ permission_resolved session_id request_id ∷ deny_all session_id pending

module _ {R K : Type 0} where
  -- The constructor. `new_id` is the randomUUID that it draws if no id is given.
  unfoldable pub construct : (new_id : String) (now : ℕ) → SessionOptions → R → Session R K
  construct new_id now opts runner = record {
    id = or_else opts.id new_id;
    user_id = opts.user_id;
    agent = opts.agent;
    cwd = opts.cwd;
    title = title_of opts.title (agent_name opts.agent) opts.cwd;
    status = idle;
    created_at = or_else opts.created_at now;
    history = or_else opts.history [];
    resume_token = opts.resume_token;
    preferred_device_id = opts.preferred_device_id;
    model = opts.model;
    runner = runner;
    pending = [];
    queue = [];
    busy = false;
    cancelling = false;
    in_flight_prompt = none;
    stale_resume_retried = false;
    auth_alerted_this_turn = false;
    drawn = 0;
    effects = [];
  }

  unfoldable pub meta : Session R K → SessionMeta
  meta s = record {
    id = s.id;
    agent = s.agent;
    cwd = s.cwd;
    title = s.title;
    status = s.status;
    created_at = s.created_at;
    preferred_device_id = s.preferred_device_id;
    preferred_device_label = none;
    model = s.model;
  }

  abbrev pub emit : Effect K → Session R K → Session R K
  emit e s = record s { effects = s.effects ++ e ∷ [] }

  unfoldable pub set_status : SessionStatus → Session R K → Session R K
  unfolding meta
  set_status st s =
      if same_status s.status st
      then s
      else let changed = record s { status = st } in emit (meta_changed (meta changed)) changed

  unfoldable pub emit_auth_required : AuthHit → Session R K → Session R K
  emit_auth_required hit s =
      let forgotten =
        if is_some s.resume_token
        then emit (update_resume_token none s.id) (record s { resume_token = none })
        else s in
      emit
        (auth_required s.id (record {
          agent = hit.agent;
          fix_command = hit.fix_command;
          context = if s.user_id == "anon" then this_machine else daemon_machine;
          raw_error = hit.raw_error;
        }))
        forgotten

  unfoldable pub not_signed_in : Session R K → AuthHit → String
  not_signed_in s hit =
      agent_name s.agent
      <> " CLI is not signed in "
      <> (if s.user_id == "anon" then "on this machine" else "on the daemon machine")
      <> ". Run `"
      <> hit.fix_command
      <> "` there and retry."

  unfoldable pub auth_hit : String → Session R K → Option AuthHit
  auth_hit text s = if s.auth_alerted_this_turn then none else detect_auth_required text s.agent

  -- The prompt to run again, if the error calls for it.
  unfoldable pub replay_of : String → Session R K → Option String
  replay_of message s =
      if not s.stale_resume_retried && is_stale_resume_error message
      then s.in_flight_prompt
      else none

  -- What onDone does before it drains the queue.
  unfoldable pub settle_down : Session R K → Session R K
  settle_down s =
      let rested = if same_status s.status SessionStatus.error then s else set_status idle s in
      record rested { busy = false; cancelling = false; in_flight_prompt = none }

  unfoldable pub done_event : (Session R K → Session R K) → Session R K → Session R K
  done_event drain s = drain (settle_down s)

  unfoldable pub token_event : String → Session R K → Session R K
  token_event token s =
      let happy = record s { stale_resume_retried = false } in
      if same_option (some token) s.resume_token
      then happy
      else emit (update_resume_token (some token) s.id) (record happy { resume_token = some token })

  unfoldable pub answered : String → Bool → K → Session R K → Session R K
  answered request_id allow p s =
      emit (permission_resolved s.id request_id)
        (emit (settle p allow) (record s { pending = remove request_id s.pending }))

  unfoldable pub back_to_running : Session R K → Session R K
  unfolding is_empty
  back_to_running s =
      if is_empty s.pending && same_status s.status awaiting_permission
      then set_status running s
      else s

  unfoldable pub resolve_permission : String → Bool → Session R K → Session R K
  resolve_permission request_id allow s = elim (get request_id s.pending) [
    | none ↦ s
    | some p ↦ back_to_running (answered request_id allow p s)
  ]

  -- Each round takes a prompt off the queue, and at most one is put back.
  abbrev pub rounds : Session R K → ℕ
  rounds s = length s.queue + (if s.stale_resume_retried then 0 else 1)
