-- ===== src/Server/Opening.antt =====
-- server/index.ts: the connection of a browser on /ws, up to its first message.
use agent_web_mvp.Prelude.{ℕ, String, List, [], ◌∷◌, ◌++◌, map}
use agent_web_mvp.Types.{ServerMessage, hello, message}
use agent_web_mvp.Db.{Db}
use agent_web_mvp.Hub.{Hub, tell, add_browser, device_info}
use agent_web_mvp.Session.State.{Session, meta}
use agent_web_mvp.Session.Store.{list_for_user}
use agent_web_mvp.Server.{Server, with_device}

unfoldable pub tell_list : ℕ → List ServerMessage → Hub → Hub
tell_list ws [] hub = hub
tell_list ws (m ∷ ms) hub = tell_list ws ms (tell ws m hub)

module _ {R K : Type 0} where
  unfoldable pub histories : List (Session R K) → List ServerMessage
  histories [] = []
  histories (s ∷ ss) = map message s.history ++ histories ss

  -- The frames that a new browser is sent, in order.
  unfoldable pub greeting :
      (default_cwd user_id : String) → List (Session R K) → Db → Hub → List ServerMessage
  unfolding histories with_device
  greeting default_cwd user_id ss tokens hub =
      hello default_cwd
      ∷ ServerMessage.devices (device_info user_id hub)
      ∷ ServerMessage.sessions (map (λ s. with_device hub tokens (meta s)) ss)
      ∷ histories ss

  unfoldable pub on_connection :
      (default_cwd : String) (ws : ℕ) (user_id : String) → Server R K → Server R K
  unfolding tell_list greeting
  on_connection default_cwd ws user_id server =
      let hub = add_browser user_id ws server.hub in
      let ss = list_for_user user_id server.store in
      record server { hub = tell_list ws (greeting default_cwd user_id ss server.tokens hub) hub }
