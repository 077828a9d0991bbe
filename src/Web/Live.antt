-- ===== src/Web/Live.antt =====
-- server/sessions.ts, server/index.ts and web/src/App.tsx together: a view whose connection stays open.
use agent_web_mvp.Prelude.{
  ℕ, ◌≡◌, refl, sym, subst, ap, ◌∙◌, String, List, [], ◌∷◌, ◌++◌, Option, none, some, map, All,
  append_assoc, append-nil, eq_refl, ◌==◌,
}
use agent_web_mvp.Prelude.JsMap.{JsMap, get, set, get-set}
use agent_web_mvp.Types.{SessionMeta, SessionStatus, ServerMessage}
use agent_web_mvp.Wire.{to_browser}
use agent_web_mvp.Db.{Db}
use agent_web_mvp.Hub.{Hub}
use agent_web_mvp.Session.State.{
  Effect, meta_changed, message_added, permission_requested, permission_resolved, error_raised,
  auth_required, Session, Env,
}
use agent_web_mvp.Session.History.{Input, run}
use agent_web_mvp.Session.Growth.{added, changes, latest, Grows}
use agent_web_mvp.Session.Growing.{run-Grows}
use agent_web_mvp.Server.{Server, with_device, act}
use agent_web_mvp.Web.{App, handle_server_message, handle_all}
use agent_web_mvp.Web.Opening.{shown, appended, kept_own}
use agent_web_mvp.Hub.Subscribed.{received, IsSubscribed}
use agent_web_mvp.Web.Heard.{told, heard-publish_all, publish_all-IsSubscribed}

-- The status of a session as the view has it.
abbrev status_in : Option SessionMeta → Option SessionStatus
status_in none = none
status_in (some m) = some m.status

abbrev pub shown_status : String → App → Option SessionStatus
shown_status id app = status_in (get id app.sessions)

-- The view shows the session's history and status.
pub record Shows {R K : Type 0} (s : Session R K) (app : App) : Type 0 where
  pub messages : shown s.id app ≡ s.history
  pub status : shown_status s.id app ≡ some s.status

changed :
    (id : String) (m : SessionMeta) (ms : JsMap SessionMeta)
    → m.id ≡ id
    → status_in (get id (set m.id m ms)) ≡ some m.status
changed id m ms e = rw (get-set m.id id m ms, ap (λ k. k == id) e ∙ eq_refl id) refl

module _ {K : Type 0} (hub : Hub) (tokens : Db) (id : String) where
  shown-told :
      (es : List (Effect K)) (app : App)
      → All (λ m. m.session_id ≡ id) (added es)
      → shown id (handle_all (told hub tokens es) app) ≡ shown id app ++ added es
  unfolding handle_all handle_server_message
  shown-told [] app h = sym (append-nil (shown id app))
  shown-told (message_added m ∷ es) app (e, h) =
      shown-told es (handle_server_message (ServerMessage.message m) app) h
      ∙ ap (λ l. l ++ added es)
          (appended id m app.messages ∙ ap (λ l. shown id app ++ l) (kept_own id (m ∷ []) (e, tt)))
      ∙ append_assoc (shown id app) (m ∷ []) (added es)
  shown-told (meta_changed m ∷ es) app h = shown-told es _ h
  shown-told (permission_requested r ∷ es) app h = shown-told es _ h
  shown-told (permission_resolved s r ∷ es) app h = shown-told es _ h
  shown-told (error_raised s error ∷ es) app h = shown-told es _ h
  shown-told (auth_required s info ∷ es) app h = shown-told es _ h
  shown-told (_ ∷ es) app h = shown-told es app h

  status-told :
      (es : List (Effect K)) (st : SessionStatus) (app : App)
      → All (λ m. m.id ≡ id) (changes es)
      → shown_status id app ≡ some st
      → shown_status id (handle_all (told hub tokens es) app) ≡ some (latest st (changes es))
  unfolding handle_all handle_server_message with_device
  status-told [] st app h v = v
  status-told (meta_changed m ∷ es) st app (e, h) v =
      status-told es m.status _ h (changed id (with_device hub tokens m) app.sessions e)
  status-told (message_added m ∷ es) st app h v = status-told es st _ h v
  status-told (permission_requested r ∷ es) st app h v = status-told es st _ h v
  status-told (permission_resolved s r ∷ es) st app h v = status-told es st _ h v
  status-told (error_raised s error ∷ es) st app h v = status-told es st _ h v
  status-told (auth_required s info ∷ es) st app h v = status-told es st _ h v
  status-told (_ ∷ es) st app h v = status-told es st app h v

Grows-Shows :
    {R K : Type 0} (hub : Hub) (tokens : Db) (s t : Session R K) (app : App)
    → s.effects ≡ []
    → Grows s t
    → Shows s app
    → Shows t (handle_all (told hub tokens t.effects) app)
Grows-Shows hub tokens s t app n g w =
    let e : t.effects ≡ g.did = g.effects ∙ ap (λ es. es ++ g.did) n in
    record {
      messages =
          ap (λ i. shown i (handle_all (told hub tokens t.effects) app)) g.same_id
          ∙ ap (λ es. shown s.id (handle_all (told hub tokens es) app)) e
          ∙ shown-told hub tokens s.id g.did app
              (subst (All (λ m. m.session_id ≡ s.id)) (sym g.told) g.own)
          ∙ ap (λ l. l ++ added g.did) w.messages
          ∙ ap (λ l. s.history ++ l) g.told
          ∙ sym g.history;
      status =
          ap (λ i. shown_status i (handle_all (told hub tokens t.effects) app)) g.same_id
          ∙ ap (λ es. shown_status s.id (handle_all (told hub tokens es) app)) e
          ∙ status-told hub tokens s.id g.did s.status app g.own_metas w.status
          ∙ ap some (sym g.status);
    }

module _ {R K : Type 0} (ws : ℕ) (server : Server R K) where
  -- What methods of a session lead the server to send to a browser.
  abbrev pub update : List (Env R × Input K) → Session R K → List ServerMessage
  update is s = told server.hub server.tokens (run is (record s { effects = [] })).effects

  -- A browser's socket stands in its user's set, and its view shows the history and the status of a session of
  -- that user. Whatever then happens to the session (prompts, retries, answers, cancellations and
  -- the callbacks of its runner, in any order and number): the server sends that socket the messages
  -- of the callbacks and nothing else, and the view that has read them shows the history and the status that the
  -- session then has; the socket stands in the set as before.
  pub view_follows :
      (is : List (Env R × Input K)) (s : Session R K) (app : App)
      → IsSubscribed ws s.user_id server.hub
      → Shows s app
      → (received ws (act (run is) s.id s server).hub.registry.net.frames
          ≡ received ws server.hub.registry.net.frames ++ map to_browser (update is s))
        × Shows (run is (record s { effects = [] })) (handle_all (update is s) app)
        × IsSubscribed ws s.user_id (act (run is) s.id s server).hub
  unfolding act
  view_follows is s app v w = (
    heard-publish_all ws s.user_id server.tokens (run is (record s { effects = [] })).effects
        server.hub v,
    Grows-Shows server.hub server.tokens (record s { effects = [] }) _ app refl
        (run-Grows is (record s { effects = [] }))
        (record { messages = w.messages; status = w.status }),
    publish_all-IsSubscribed ws s.user_id server.tokens (run is (record s { effects = [] })).effects
        server.hub v,
  )
