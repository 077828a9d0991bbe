-- ===== src/Types.antt =====
-- shared/types.ts: the messages on the two WebSockets and the records that they carry. Optional
-- fields are `Option`; texts are native strings; times are milliseconds.
pub mod Values
pub mod Models
pub mod AuthDetect
pub mod Schemas
use agent_web_mvp.Prelude.{ℕ, String, Bool, List, Option}
use Values.{Json}

pub data AgentKind : Type 0 where
  claude codex : AgentKind

pub data SessionStatus : Type 0 where
  idle running awaiting_permission error ended : SessionStatus

pub data Role : Type 0 where
  user assistant system tool_use tool_result : Role

pub record SessionMeta : Type 0 where
  pub id : String
  pub agent : AgentKind
  pub cwd : String
  pub title : String
  pub status : SessionStatus
  pub created_at : ℕ
  pub preferred_device_id : Option String
  pub preferred_device_label : Option String
  pub model : Option String

pub record ChatMessage : Type 0 where
  pub id : String
  pub session_id : String
  pub ts : ℕ
  pub role : Role
  pub text : String
  pub meta : Option Json

pub record PermissionRequest : Type 0 where
  pub request_id : String
  pub session_id : String
  pub tool_name : String
  pub input : Json

pub data Context : Type 0 where
  this_machine daemon_machine : Context

pub record AuthRequiredInfo : Type 0 where
  pub agent : AgentKind
  pub fix_command : String
  pub context : Context
  pub raw_error : String

pub record AgentPath : Type 0 where
  pub name : String
  pub path : String

pub record DeviceInfo : Type 0 where
  pub id : String
  pub hostname : String
  pub display_name : Option String
  pub os : String
  pub arch : String
  pub version : String
  pub agents : List AgentPath
  pub connected_at : ℕ
  pub codex_enabled : Bool

pub record DirEntry : Type 0 where
  pub name : String
  pub is_dir : Bool

-- What a browser sends. The sandbox mode is the text on the wire: the server tests it.
pub data ClientMessage : Type 0 where
  list_sessions : ClientMessage
  create_session :
      (agent : AgentKind) (cwd : String) (title device_id model : Option String) → ClientMessage
  send_prompt : (session_id prompt : String) → ClientMessage
  retry_last : (session_id : String) → ClientMessage
  permission_response : (session_id request_id : String) (allow : Bool) → ClientMessage
  cancel : (session_id : String) → ClientMessage
  cancel_all : ClientMessage
  delete_session : (session_id : String) → ClientMessage
  list_dir : (request_id : String) (device_id : Option String) (path : String) → ClientMessage
  enable_codex_on_device : (device_id sandbox_mode : String) → ClientMessage

-- What the server sends to a browser.
pub data ServerMessage : Type 0 where
  hello : (default_cwd : String) → ServerMessage
  sessions : List SessionMeta → ServerMessage
  session_created : SessionMeta → ServerMessage
  session_updated : SessionMeta → ServerMessage
  session_deleted : (session_id : String) → ServerMessage
  message : ChatMessage → ServerMessage
  permission_request : PermissionRequest → ServerMessage
  permission_resolved : (session_id request_id : String) → ServerMessage
  auth_required : (session_id : String) → AuthRequiredInfo → ServerMessage
  devices : List DeviceInfo → ServerMessage
  cancel_all_ack : (cancelled : ℕ) → ServerMessage
  dir_listing :
      (request_id path : String) (parent : Option String) (entries : List DirEntry)
      (error : Option String)
      → ServerMessage
  codex_enable_result :
      (device_id : String) (success : Bool) (error : Option String) → ServerMessage
  error : (session_id : Option String) (error : String) → ServerMessage

-- What the server sends to a daemon.
pub data DaemonServerMessage : Type 0 where
  daemon_run_prompt :
      (run_id session_id : String) (agent : AgentKind) (cwd prompt : String)
      (resume_token model : Option String)
      → DaemonServerMessage
  daemon_cancel : (run_id : String) → DaemonServerMessage
  daemon_permission_response : (run_id request_id : String) (allow : Bool) → DaemonServerMessage
  daemon_list_dir : (request_id path : String) → DaemonServerMessage
  daemon_enable_codex : (request_id sandbox_args : String) → DaemonServerMessage

-- What a daemon sends after its hello.
pub data DaemonClientMessage : Type 0 where
  daemon_message :
      (run_id : String) (role : Role) (text : String) (meta : Option Json) → DaemonClientMessage
  daemon_permission_request :
      (run_id request_id tool_name : String) (input : Json) → DaemonClientMessage
  daemon_done : (run_id : String) (resume_token error : Option String) → DaemonClientMessage
  daemon_dir_listing :
      (request_id path : String) (parent : Option String) (entries : List DirEntry)
      (error : Option String)
      → DaemonClientMessage
  daemon_codex_enable_ack :
      (request_id : String) (success : Bool) (error : Option String) → DaemonClientMessage
