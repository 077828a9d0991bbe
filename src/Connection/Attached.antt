-- ===== src/Connection/Attached.antt =====
-- server/index.ts: the connection of one daemon in the server as a whole. What it hands to the
-- registry's message handlers is delivered to the sessions at once.
use agent_web_mvp.Prelude.{String, List, [], ◌∷◌, Option}
use agent_web_mvp.Types.Values.{Json}
use agent_web_mvp.Types.{DaemonClientMessage}
use agent_web_mvp.Types.Schemas.{Zod}
use agent_web_mvp.Agents.Remote.{Remote}
use agent_web_mvp.Agents.Remote.Events.{Ticket}
use agent_web_mvp.Session.State.{Env}
use agent_web_mvp.Server.{Server}
use agent_web_mvp.Server.System.{deliver}
use agent_web_mvp.Server.System
use agent_web_mvp.Connection.{Peer, Connection, Happening}
use agent_web_mvp.Connection

-- A step of the connection, or of the rest of the server.
pub data Turn : Type 0 where
  own : Env Remote → Happening → Turn
  others : System.Event → Turn

unfoldable pub deliver_all :
    Env Remote → List (String × DaemonClientMessage) → Server Remote Ticket → Server Remote Ticket
deliver_all env [] server = server
deliver_all env ((device_id, msg) ∷ ds) server =
    deliver_all env ds (deliver env device_id msg server)

module _ (z : Zod) (json_parse : String → Option Json) (peer : Peer) where
  -- The hub of the connection is the server's.
  unfoldable pub attend :
      Env Remote → Happening → Connection → Server Remote Ticket → Connection × Server Remote Ticket
  unfolding deliver_all
  attend env h c server =
      let after =
        Connection.step z json_parse peer h (record c { hub = server.hub; dispatched = [] }) in
      (after, deliver_all env after.dispatched (record server { hub = after.hub }))

  unfoldable pub take : Turn → Connection × Server Remote Ticket → Connection × Server Remote Ticket
  take (own env h) (c, server) = attend env h c server
  take (others e) (c, server) = (c, System.step e server)

  unfoldable pub take_all :
      List Turn → Connection × Server Remote Ticket → Connection × Server Remote Ticket
  take_all [] x = x
  take_all (t ∷ ts) x = take_all ts (take t x)
