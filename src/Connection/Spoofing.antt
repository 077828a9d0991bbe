-- ===== src/Connection/Spoofing.antt =====
-- server/index.ts and server/sessions.ts: a daemon's message with the role of the user.
use agent_web_mvp.Prelude.{
  ℕ, ◌≡◌, refl, ap, ◌∙◌, String, true, List, [], ◌∷◌, ◌++◌, Option, none, some, ◌&&◌, if◌then◌else◌,
  eq_refl, same_option, ◌==◌,
}
use agent_web_mvp.Types.Values.{Json}
use agent_web_mvp.Types.{user, ChatMessage, daemon_message}
use agent_web_mvp.Types.Schemas.{Zod, daemon_client_message_schema}
use agent_web_mvp.Types.Schemas.Bounds.{IsWithin}
use agent_web_mvp.Types.Schemas.RoundTrip.{encode, schema-encode}
use agent_web_mvp.Agents.Remote.{Remote}
use agent_web_mvp.Agents.Remote.Events.{Ticket, hear, hear_all, dispatch, handle_daemon_message}
use agent_web_mvp.Session.State.{Session, Env}
use agent_web_mvp.Session.Steps.{record_message, message_event}
use agent_web_mvp.Session.Operations.{last_user, handle_event}
use agent_web_mvp.Connection.{Peer, Connection, route, heed, on_parsed, on_message}
use agent_web_mvp.Connection.Handshake.{after_hello}

last_user-append :
    (ms : List ChatMessage) (m : ChatMessage)
    → m.role ≡ user
    → last_user (ms ++ m ∷ []) ≡ some m.text
unfolding last_user
last_user-append [] m e = rw (e, last_user) refl
last_user-append (k ∷ ms) m e = rw (last_user-append ms m e, last_user) refl

module _ (env : Env Remote) where
  -- The subscription of a run takes a message of that run from the device that it is on.
  heard :
      (device_id run_id text : String) (s : Session Remote Ticket)
      → s.runner.active_device_id ≡ some device_id
      → hear env device_id (daemon_message run_id user text none) run_id s
        ≡ record_message env user text none s
  unfolding hear handle_daemon_message handle_event message_event
  heard device_id run_id text s a =
      let told = record_message env user text none s in
      ap (λ o. if same_option (some device_id) o && (run_id == run_id) then told else s) a
      ∙ ap (λ b. if b && (run_id == run_id) then told else s) (eq_refl device_id)
      ∙ ap (λ b. if b then told else s) (eq_refl run_id)

  recorded :
      (device_id run_id text : String) (s : Session Remote Ticket)
      → s.runner.active_device_id ≡ some device_id
      → s.runner.subscriptions ≡ run_id ∷ []
      → last_user (dispatch env device_id (daemon_message run_id user text none) s).history
        ≡ some text
  unfolding dispatch hear_all record_message
  recorded device_id run_id text s a r =
      let msg = daemon_message run_id user text none in
      ap (λ runs. last_user (hear_all env device_id msg runs s).history) r
      ∙ ap (λ t. last_user t.history) (heard device_id run_id text s a)
      ∙ last_user-append s.history _ refl

module _ (z : Zod) (json_parse : String → Option Json) (peer : Peer) where
  let_through :
      (now : ℕ) (device_id run_id text raw : String) (c : Connection)
      → json_parse raw ≡ some (encode (daemon_message run_id user text none))
      → IsWithin (daemon_message run_id user text none)
      → c.hello_received ≡ true
      → c.device_id ≡ some device_id
      → on_message z json_parse peer now raw c
        ≡ route peer device_id (daemon_message run_id user text none) c
  unfolding on_message on_parsed heed
  let_through now device_id run_id text raw c p w h d =
      let msg = daemon_message run_id user text none in
      ap (λ o. on_parsed z json_parse peer now o c) p
      ∙ after_hello z json_parse peer now (encode msg) c h
      ∙ ap (λ id. heed peer id (daemon_client_message_schema z (encode msg)) c) d
      ∙ ap (λ o. heed peer (some device_id) o c) (schema-encode z msg w)

module _ (z : Zod) (json_parse : String → Option Json) (peer : Peer) (env : Env Remote) where
  -- A daemon whose run is on sends a message with the role `user`, within the bounds. It is let through
  -- like any other, and the session records it as the user's own: what a retry would send to the agent
  -- is then the daemon's text.
  pub spoofed_user_retried :
      (now : ℕ) (device_id run_id text raw : String) (c : Connection) (s : Session Remote Ticket)
      → json_parse raw ≡ some (encode (daemon_message run_id user text none))
      → IsWithin (daemon_message run_id user text none)
      → c.hello_received ≡ true
      → c.device_id ≡ some device_id
      → s.runner.active_device_id ≡ some device_id
      → s.runner.subscriptions ≡ run_id ∷ []
      → ((on_message z json_parse peer now raw c).dispatched
          ≡ c.dispatched ++ (device_id, daemon_message run_id user text none) ∷ [])
        × (last_user (dispatch env device_id (daemon_message run_id user text none) s).history
            ≡ some text)
  unfolding route
  spoofed_user_retried now device_id run_id text raw c s p w h d a r = (
    ap (λ e. e.dispatched) (let_through z json_parse peer now device_id run_id text raw c p w h d),
    recorded env device_id run_id text s a r,
  )
