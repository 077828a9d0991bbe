-- ===== src/Server/System.antt =====
-- server/index.ts, sessions.ts and agents/remote.ts: the server as a whole, one step of the event loop
-- at a time. A daemon's message about a run goes to the sessions, each of which looks whether the run
-- is its own; at most one does something, so that the order of the sessions does not matter.
use agent_web_mvp.Prelude.{ℕ, String, false, List, [], ◌∷◌, none}
use agent_web_mvp.Prelude.JsMap.{JsMap}
use agent_web_mvp.Types.{ClientMessage, DaemonClientMessage}
use agent_web_mvp.Agents.Remote.{Remote}
use agent_web_mvp.Agents.Remote.Events.{Ticket, dispatch}
use agent_web_mvp.Hub.Events
use agent_web_mvp.Session.State.{Session, Env, SessionOptions}
use agent_web_mvp.Server.{Server, act}
use agent_web_mvp.Server.Messages.{World, handle_client_message}
use agent_web_mvp.Server.Opening.{on_connection}

-- The runner of a signed-in user's session.
abbrev pub remote_of : SessionOptions → Remote
remote_of opts = record {
  user_id = opts.user_id;
  agent = opts.agent;
  cwd = opts.cwd;
  preferred_device_id = opts.preferred_device_id;
  model = opts.model;
  active_run_id = none;
  active_device_id = none;
  waiting = false;
  unsubscribe = none;
  subscriptions = [];
  drawn = 0;
  sent = [];
}

module _ (env : Env Remote) (device_id : String) (msg : DaemonClientMessage) where
  unfoldable pub deliver_each :
      JsMap (Session Remote Ticket) → Server Remote Ticket → Server Remote Ticket
  deliver_each [] server = server
  deliver_each ((id, s) ∷ entries) server =
      deliver_each entries (act (dispatch env device_id msg) id s server)

  -- dispatchDaemonMessage, over all sessions.
  unfoldable pub deliver : Server Remote Ticket → Server Remote Ticket
  unfolding deliver_each
  deliver server = deliver_each server.store.sessions server

pub data Event : Type 0 where
  browser_opens : (default_cwd : String) (ws : ℕ) (user_id : String) → Event
  browser_says : World Remote → (ws : ℕ) (user_id : String) → ClientMessage → Event
  daemon_says : Env Remote → (device_id : String) → DaemonClientMessage → Event
  -- What is forwarded between browsers and daemons, the closing of sockets, and the timers.
  forwards : agent_web_mvp.Hub.Events.Event → Event

unfoldable pub step : Event → Server Remote Ticket → Server Remote Ticket
step (browser_opens default_cwd ws user_id) server = on_connection default_cwd ws user_id server
step (browser_says world ws user_id msg) server = handle_client_message world ws user_id msg server
step (daemon_says env device_id msg) server = deliver env device_id msg server
step (forwards e) server = record server { hub = agent_web_mvp.Hub.Events.step e server.hub }

unfoldable pub run : List Event → Server Remote Ticket → Server Remote Ticket
run [] server = server
run (e ∷ es) server = run es (step e server)
