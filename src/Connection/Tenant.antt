-- ===== src/Connection/Tenant.antt =====
-- server/index.ts: what the frames of one daemon can cause in the server as a whole.
use agent_web_mvp.Prelude.{ℕ, ◌≡◌, ap, ◌∙◌, String, List, [], ◌∷◌, Option, All}
use agent_web_mvp.Types.Values.{Json}
use agent_web_mvp.Types.{DaemonClientMessage}
use agent_web_mvp.Types.Schemas.{Zod}
use agent_web_mvp.Hub.Frames.{SendsTo}
use agent_web_mvp.Agents.Remote.{Remote}
use agent_web_mvp.Agents.Remote.Events.{Ticket}
use agent_web_mvp.Session.State.{Env}
use agent_web_mvp.Server.{Server}
use agent_web_mvp.Server.System.{deliver}
use agent_web_mvp.Server.System
use agent_web_mvp.Server.Holding.{IsEnv}
use agent_web_mvp.Server.Sending.{IsSafe, Serves, Serves-refl, Serves-both, hub-Serves}
use agent_web_mvp.Server.Hearing.{deliver-Serves}
use agent_web_mvp.Server.Tenants.{IsGenuine, step-IsSafe}
use agent_web_mvp.Connection.{Peer, Connection, Happening, opened}
use agent_web_mvp.Connection
use agent_web_mvp.Connection.Isolation.{own-Acts, Acts-SendsTo, Acts-IsOwned, IsOwnHappening}
use agent_web_mvp.Connection.Named.{IsNamed, step-IsOwnSpeech}
use agent_web_mvp.Connection.Attached.{Turn, own, others, deliver_all, attend, take, take_all}

module _ (owner : ℕ → String) (tenant : String → String) (peer : Peer)
    (t : tenant peer.device_token_id ≡ peer.user_id) where
  delivered-Serves :
      (env : Env Remote) (ds : List (String × DaemonClientMessage)) (a : Server Remote Ticket)
      → IsEnv tenant env
      → All (λ d. d.0 ≡ peer.device_token_id) ds
      → IsSafe owner tenant a
      → Serves owner tenant peer.user_id a (deliver_all env ds a)
  unfolding deliver_all
  delivered-Serves env [] a w h v = Serves-refl owner tenant peer.user_id a v
  delivered-Serves env ((id, msg) ∷ ds) a w (e, h) v =
      let g = deliver-Serves owner tenant peer.user_id env w id msg (ap tenant e ∙ t) a v in
      Serves-both owner tenant peer.user_id a (deliver env id msg a) _ g
        (delivered-Serves env ds (deliver env id msg a) w h g.safe)

  module _ (z : Zod) (json_parse : String → Option Json) where
    abbrev State : Type 0
    State = Connection × Server Remote Ticket

    attend-Serves :
        (env : Env Remote) (h : Happening) (c : Connection) (a : Server Remote Ticket)
        → IsEnv tenant env
        → IsOwnHappening owner peer z json_parse h
        → IsNamed peer c.device_id
        → IsSafe owner tenant a
        → Serves owner tenant peer.user_id a (attend z json_parse peer env h c a).1
          × IsNamed peer (attend z json_parse peer env h c a).0.device_id
    unfolding attend
    attend-Serves env h c a w o n v =
        let before = record c { hub = a.hub; dispatched = [] } in
        let after = Connection.step z json_parse peer h before in
        let acts = own-Acts owner peer z json_parse h before o in
        let said =
          step-IsOwnSpeech peer z json_parse h before (record { device = n; spoken = tt }) in
        let g = hub-Serves owner tenant peer.user_id a after.hub v (record {
          sends = Acts-SendsTo owner peer.user_id a.hub after.hub v.owned acts;
          owned = Acts-IsOwned owner peer.user_id a.hub after.hub v.owned acts;
        }) in
        (
          Serves-both owner tenant peer.user_id a (record a { hub = after.hub }) _ g
              (delivered-Serves env after.dispatched (record a { hub = after.hub }) w said.spoken
                g.safe),
          said.device,
        )

    abbrev pub IsFairTurn : Turn → Type 0
    IsFairTurn (own env h) = IsEnv tenant env × IsOwnHappening owner peer z json_parse h
    IsFairTurn (others e) = IsGenuine owner tenant e

    take_all-IsSafe :
        (ts : List Turn) (x : State)
        → All IsFairTurn ts
        → IsNamed peer x.0.device_id
        → IsSafe owner tenant x.1
        → IsNamed peer (take_all z json_parse peer ts x).0.device_id
          × IsSafe owner tenant (take_all z json_parse peer ts x).1
    unfolding take_all take
    take_all-IsSafe [] x f n v = (n, v)
    take_all-IsSafe (own env h ∷ ts) (c, a) ((w, o), fs) n v =
        let (g, n') = attend-Serves env h c a w o n v in
        take_all-IsSafe ts (attend z json_parse peer env h c a) fs n' g.safe
    take_all-IsSafe (others e ∷ ts) (c, a) (f, fs) n v =
        take_all-IsSafe ts (c, System.step e a) fs n (step-IsSafe owner tenant e a f v)

    -- After any history of a daemon's connection, from its opening, and of the rest of the server:
    -- whatever text the daemon sends, whether its time for a hello runs out or it closes, frames go to
    -- browsers of the user whose token it presented and to daemons, and to no other browser, those
    -- included that the sessions send which hear the daemon's messages. It holds where the token was
    -- given to that user, where each browser's socket is used for the user whose cookie opened it,
    -- where the registry in which a runner looks for a device has each device once, under its id and
    -- for the user to whom its token was given, where the runner made for a new session is one of the
    -- session's user, on no device or on one of that user, and where at the start each pending request
    -- is of its socket's user and each session's run is on a device of its user.
    pub connection_isolated :
        (ts : List Turn) (env : Env Remote) (h : Happening) (a : Server Remote Ticket)
        → IsSafe owner tenant a
        → All IsFairTurn ts
        → IsFairTurn (own env h)
        → SendsTo owner peer.user_id
            (take_all z json_parse peer ts (opened a.hub, a)).1.hub
            (take z json_parse peer
              (own env h)
              (take_all z json_parse peer ts (opened a.hub, a))).1.hub
    unfolding take
    connection_isolated ts env h a v fs (w, o) =
        let (n, safe) = take_all-IsSafe ts (opened a.hub, a) fs tt v in
        let x = take_all z json_parse peer ts (opened a.hub, a) in
        (attend-Serves env h x.0 x.1 w o n safe).0.sends
