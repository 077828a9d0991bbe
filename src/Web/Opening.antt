-- ===== src/Web/Opening.antt =====
-- web/src/App.tsx and server/index.ts: what the view shows of the frames that a connection starts with.
use agent_web_mvp.Prelude.{
  ◌≡◌, inl, inr, refl, sym, ap, ◌∙◌, String, Bool, false, List, [], ◌∷◌, ◌++◌, map, keep,
  keep-append, append_assoc, append-nil, All, ◌==◌, eq_iff, eq_refl, or_else, Bool-cases,
}
use agent_web_mvp.Prelude.JsMap.{JsMap, get, get-set}
use agent_web_mvp.Types.{ChatMessage, ServerMessage, message}
use agent_web_mvp.Db.{Db}
use agent_web_mvp.Hub.{Hub}
use agent_web_mvp.Session.State.{Session}
use agent_web_mvp.Server.Opening.{histories, greeting}
use agent_web_mvp.Web.{App, append_message, handle_server_message, handle_all}

-- The messages of a session as the view has them.
abbrev pub shown : String → App → List ChatMessage
shown id app = or_else (get id app.messages) []

abbrev pub is_of : String → ChatMessage → Bool
is_of id m = m.session_id == id

pub appended :
    (id : String) (m : ChatMessage) (ms : JsMap (List ChatMessage))
    → or_else (get id (append_message m ms)) [] ≡ or_else (get id ms) [] ++ keep (is_of id) (m ∷ [])
unfolding append_message
appended id m ms = elim (Bool-cases (m.session_id == id)) [
  | inl e ↦
      rw (get-set m.session_id id _ ms, e)
        (ap (λ k. or_else (get k ms) [] ++ m ∷ []) ((eq_iff m.session_id id).0 e))
  | inr e ↦ rw (get-set m.session_id id _ ms, e) (sym (append-nil (or_else (get id ms) [])))
]

handle_all-append :
    (ms ns : List ServerMessage) (app : App)
    → handle_all (ms ++ ns) app ≡ handle_all ns (handle_all ms app)
unfolding handle_all
handle_all-append [] ns app = refl
handle_all-append (m ∷ ms) ns app = handle_all-append ms ns (handle_server_message m app)

-- Messages go behind what is shown of their session.
shown-messages :
    (id : String) (ms : List ChatMessage) (app : App)
    → shown id (handle_all (map message ms) app) ≡ shown id app ++ keep (is_of id) ms
unfolding handle_all handle_server_message
shown-messages id [] app = sym (append-nil (shown id app))
shown-messages id (m ∷ ms) app =
    shown-messages id ms (handle_server_message (message m) app)
    ∙ ap (λ l. l ++ keep (is_of id) ms) (appended id m app.messages)
    ∙ append_assoc (shown id app) (keep (is_of id) (m ∷ [])) (keep (is_of id) ms)
    ∙ ap (λ l. shown id app ++ l) (sym (keep-append (is_of id) (m ∷ []) ms))

pub kept_own :
    (id : String) (ms : List ChatMessage)
    → All (λ m. m.session_id ≡ id) ms
    → keep (is_of id) ms ≡ ms
kept_own id [] h = refl
kept_own id (m ∷ ms) (e, h) = rw (ap (λ k. k == id) e ∙ eq_refl id) (ap (◌∷◌ m) (kept_own id ms h))

kept_other :
    (id other : String) (ms : List ChatMessage)
    → (other == id) ≡ false
    → All (λ m. m.session_id ≡ other) ms
    → keep (is_of id) ms ≡ []
kept_other id other [] n h = refl
kept_other id other (m ∷ ms) n (e, h) = rw (ap (λ k. k == id) e ∙ n) (kept_other id other ms n h)

nothing : (app : App) → handle_all [] app ≡ app
unfolding handle_all
nothing app = refl

module _ {R K : Type 0} where
  -- The messages of a session carry its id, as record_message writes it.
  abbrev pub IsOwnHistory : Session R K → Type 0
  IsOwnHistory s = All (λ m. m.session_id ≡ s.id) s.history

  -- No other session has this one's id.
  abbrev pub Apart : String → List (Session R K) → Type 0
  Apart id = All (λ t. (t.id == id) ≡ false)

  shown-histories_other :
      (id : String) (ss : List (Session R K)) (app : App)
      → All IsOwnHistory ss
      → Apart id ss
      → shown id (handle_all (histories ss) app) ≡ shown id app
  unfolding histories
  shown-histories_other id [] app h a = ap (shown id) (nothing app)
  shown-histories_other id (s ∷ ss) app (h, hs) (n, a) =
      ap (shown id) (handle_all-append (map message s.history) (histories ss) app)
      ∙ shown-histories_other id ss (handle_all (map message s.history) app) hs a
      ∙ shown-messages id s.history app
      ∙ ap (λ l. shown id app ++ l) (kept_other id s.id s.history n h)
      ∙ append-nil (shown id app)

  shown-histories :
      (s : Session R K) (before after : List (Session R K)) (app : App)
      → All IsOwnHistory before
      → IsOwnHistory s
      → All IsOwnHistory after
      → Apart s.id before
      → Apart s.id after
      → shown s.id (handle_all (histories (before ++ s ∷ after)) app) ≡ shown s.id app ++ s.history
  unfolding histories
  shown-histories s [] after app hb h ha ab aa =
      ap (shown s.id) (handle_all-append (map message s.history) (histories after) app)
      ∙ shown-histories_other s.id after (handle_all (map message s.history) app) ha aa
      ∙ shown-messages s.id s.history app
      ∙ ap (λ l. shown s.id app ++ l) (kept_own s.id s.history h)
  shown-histories s (b ∷ before) after app (hb, hbs) h ha (n, ab) aa =
      ap (shown s.id)
        (handle_all-append (map message b.history) (histories (before ++ s ∷ after)) app)
      ∙ shown-histories s before after (handle_all (map message b.history) app) hbs h ha ab aa
      ∙ ap (λ l. l ++ s.history)
          (shown-messages s.id b.history app
            ∙ ap (λ l. shown s.id app ++ l) (kept_other s.id b.id b.history n hb)
            ∙ append-nil (shown s.id app))

kept-messages :
    (ms : List ChatMessage) (app : App)
    → (handle_all (map message ms) app).pending_permissions ≡ app.pending_permissions
unfolding handle_all handle_server_message
kept-messages [] app = refl
kept-messages (m ∷ ms) app = kept-messages ms (handle_server_message (message m) app)

module _ {R K : Type 0} where
  kept-histories :
      (ss : List (Session R K)) (app : App)
      → (handle_all (histories ss) app).pending_permissions ≡ app.pending_permissions
  unfolding histories
  kept-histories [] app = ap (λ a. a.pending_permissions) (nothing app)
  kept-histories (s ∷ ss) app =
      ap (λ a. a.pending_permissions) (handle_all-append (map message s.history) (histories ss) app)
      ∙ kept-histories ss (handle_all (map message s.history) app)
      ∙ kept-messages s.history app

  -- What a connection starts with appends each session's history to what is shown of it, and leaves the
  -- pending permission requests alone.
  pub shown-opening :
      (default_cwd user_id : String) (s : Session R K) (before after : List (Session R K))
      (tokens : Db) (hub : Hub) (app : App)
      → All IsOwnHistory before
      → IsOwnHistory s
      → All IsOwnHistory after
      → Apart s.id before
      → Apart s.id after
      → shown s.id (handle_all (greeting default_cwd user_id (before ++ s ∷ after) tokens hub) app)
        ≡ shown s.id app ++ s.history
  unfolding greeting handle_all handle_server_message
  shown-opening default_cwd user_id s before after tokens hub app hb h ha ab aa =
      shown-histories s before after _ hb h ha ab aa

  pub kept-opening :
      (default_cwd user_id : String) (ss : List (Session R K)) (tokens : Db) (hub : Hub) (app : App)
      → (handle_all (greeting default_cwd user_id ss tokens hub) app).pending_permissions
        ≡ app.pending_permissions
  unfolding greeting handle_all handle_server_message
  kept-opening default_cwd user_id ss tokens hub app = kept-histories ss _
