-- ===== src/Agents/Remote/Events.antt =====
-- server/agents/remote.ts: what a message of the daemon does to the session of the runner, whose
-- callbacks are those of class Session.
use agent_web_mvp.Prelude.{
  String, Bool, ◌&&◌, List, [], ◌∷◌, Option, none, some, if◌then◌else◌, truthy, same_option,
}
use agent_web_mvp.Types.{
  DaemonServerMessage, daemon_permission_response, DaemonClientMessage, daemon_message,
  daemon_permission_request, daemon_done, daemon_dir_listing, daemon_codex_enable_ack,
}
use agent_web_mvp.Agents.{on_message, on_permission_request, on_error, on_done, on_resume_token}
use agent_web_mvp.Agents.Remote.{Remote, cleanup}
use agent_web_mvp.Session.State.{Session, Env}
use agent_web_mvp.Session.Operations.{handle_event}

-- What the continuation of onPermissionRequest's promise has captured.
pub record Ticket : Type 0 where
  pub device_id : String
  pub run_id : String
  pub request_id : String

-- The frame that the continuation sends, and to which device.
unfoldable pub answer : Ticket → (allow : Bool) → String × DaemonServerMessage
answer t allow = (t.device_id, daemon_permission_response t.run_id t.request_id allow)

abbrev pub run_of : DaemonClientMessage → Option String
run_of (daemon_message run_id role text meta) = some run_id
run_of (daemon_permission_request run_id request_id tool_name input) = some run_id
run_of (daemon_done run_id resume_token error) = some run_id
run_of (daemon_dir_listing request_id path parent entries error) = none
run_of (daemon_codex_enable_ack request_id success error) = none

module _ (env : Env Remote) where
  unfoldable pub take_token : Option String → Session Remote Ticket → Session Remote Ticket
  take_token none s = s
  take_token (some token) s = handle_event env (on_resume_token token) s

  unfoldable pub take_error : Option String → Session Remote Ticket → Session Remote Ticket
  take_error none s = s
  take_error (some message) s = handle_event env (on_error message) s

  unfoldable pub ask :
      Option String → DaemonClientMessage → Session Remote Ticket → Session Remote Ticket
  ask (some device_id) (daemon_permission_request run_id request_id tool_name input) s =
      handle_event env
        (on_permission_request tool_name input
          (record { device_id = device_id; run_id = run_id; request_id = request_id }))
        s
  ask _ _ s = s

  unfoldable pub handle_daemon_message :
      DaemonClientMessage → Session Remote Ticket → Session Remote Ticket
  unfolding take_token take_error ask
  handle_daemon_message (daemon_message run_id role text meta) s =
      handle_event env (on_message role text meta) s
  handle_daemon_message (daemon_permission_request run_id request_id tool_name input) s =
      ask s.runner.active_device_id (daemon_permission_request run_id request_id tool_name input) s
  handle_daemon_message (daemon_done run_id resume_token error) s =
      let told = take_error (truthy error) (take_token (truthy resume_token) s) in
      handle_event env on_done (record told { runner = cleanup told.runner })
  handle_daemon_message _ s = s

  -- The callback that `send` gives to onDaemonMessage for one run.
  unfoldable pub hear :
      String → DaemonClientMessage → String → Session Remote Ticket → Session Remote Ticket
  hear device_id msg run_id s =
      if same_option (some device_id) s.runner.active_device_id
        && same_option (run_of msg) (some run_id)
      then handle_daemon_message msg s
      else s

  unfoldable pub hear_all :
      String → DaemonClientMessage → List String → Session Remote Ticket → Session Remote Ticket
  unfolding hear
  hear_all device_id msg [] s = s
  hear_all device_id msg (run_id ∷ runs) s =
      hear_all device_id msg runs (hear device_id msg run_id s)

  -- dispatchDaemonMessage, for the callbacks of one session. A callback that is added or removed
  -- on the way belongs to another run than the message, and would do nothing.
  unfoldable pub dispatch :
      String → DaemonClientMessage → Session Remote Ticket → Session Remote Ticket
  unfolding hear_all
  dispatch device_id msg s = hear_all device_id msg s.runner.subscriptions s
