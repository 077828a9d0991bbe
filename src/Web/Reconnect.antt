-- ===== src/Web/Reconnect.antt =====
-- web/src/App.tsx and server/index.ts: a view that is opened, and one whose socket was opened again.
use agent_web_mvp.Prelude.{
  ℕ, ◌≡◌, sym, ap, ◌∙◌, String, true, List, [], ◌∷◌, ◌++◌, none, some, map, head?, keep,
  append_assoc, append-nil, All, if◌then◌else◌, same_option,
}
use agent_web_mvp.Prelude.JsMap.{get}
use agent_web_mvp.Types.{ServerMessage}
use agent_web_mvp.Wire.{to_browser, send}
use agent_web_mvp.Hub.{Hub, tell, add_browser}
use agent_web_mvp.Session.State.{Session}
use agent_web_mvp.Session.Store.{list_for_user}
use agent_web_mvp.Server.{Server}
use agent_web_mvp.Server.Opening.{tell_list, greeting, on_connection}
use agent_web_mvp.Web.{App, initial, handle_all, active_permission}
use agent_web_mvp.Web.Opening.{shown, IsOwnHistory, Apart, shown-opening, kept-opening}

tell_open :
    (ws : ℕ) (m : ServerMessage) (hub : Hub)
    → hub.registry.net.is_open ws ≡ true
    → (tell ws m hub).registry.net
      ≡ record hub.registry.net { frames = hub.registry.net.frames ++ (ws, to_browser m) ∷ [] }
unfolding tell send
tell_open ws m hub = ap (λ b.
    if b
    then record hub.registry.net { frames = hub.registry.net.frames ++ (ws, to_browser m) ∷ [] }
    else hub.registry.net)

frames-tell_list :
    (ws : ℕ) (ms : List ServerMessage) (hub : Hub)
    → hub.registry.net.is_open ws ≡ true
    → (tell_list ws ms hub).registry.net.frames
      ≡ hub.registry.net.frames ++ map (λ m. (ws, to_browser m)) ms
unfolding tell_list
frames-tell_list ws [] hub o = sym (append-nil hub.registry.net.frames)
frames-tell_list ws (m ∷ ms) hub o =
    frames-tell_list ws ms (tell ws m hub) (ap (λ n. n.is_open ws) (tell_open ws m hub o) ∙ o)
    ∙ ap (λ n. n.frames ++ map (λ k. (ws, to_browser k)) ms) (tell_open ws m hub o)
    ∙ append_assoc hub.registry.net.frames _ (map (λ k. (ws, to_browser k)) ms)

module _ {R K : Type 0} (default_cwd : String) (ws : ℕ) (user_id : String)
    (server : Server R K) where
  -- What the server sends to a new socket of the user.
  abbrev pub opening : List ServerMessage
  opening =
      greeting default_cwd user_id (list_for_user user_id server.store) server.tokens
        (add_browser user_id ws server.hub)

  -- The sessions of the user are these, each with its own messages, and no other has the id of `s`.
  pub record IsListed (s : Session R K) (before after : List (Session R K)) : Type 0 where
    pub listed : list_for_user user_id server.store ≡ before ++ s ∷ after
    pub own_before : All IsOwnHistory before
    pub own : IsOwnHistory s
    pub own_after : All IsOwnHistory after
    pub apart_before : Apart s.id before
    pub apart_after : Apart s.id after

  after_opening :
      (s : Session R K) (before after : List (Session R K)) (app : App)
      → IsListed s before after
      → shown s.id (handle_all opening app) ≡ shown s.id app ++ s.history
  after_opening s before after app v =
      let hub = add_browser user_id ws server.hub in
      ap (λ ss. shown s.id (handle_all (greeting default_cwd user_id ss server.tokens hub) app))
        v.listed
      ∙ shown-opening default_cwd user_id s before after server.tokens hub app v.own_before v.own
          v.own_after v.apart_before v.apart_after

  -- A browser that connects is sent the opening, in order, and a view that has nothing yet then shows
  -- each session of the user with exactly its history.
  pub opening_shows :
      (s : Session R K) (before after : List (Session R K))
      → server.hub.registry.net.is_open ws ≡ true
      → IsListed s before after
      → ((on_connection default_cwd ws user_id server).hub.registry.net.frames
          ≡ server.hub.registry.net.frames ++ map (λ m. (ws, to_browser m)) opening)
        × (shown s.id (handle_all opening initial) ≡ s.history)
  unfolding on_connection add_browser get
  opening_shows s before after o v = (
    frames-tell_list ws opening (add_browser user_id ws server.hub) o,
    after_opening s before after initial v,
  )

  -- A view that shows a session's history, and whose socket is opened again: it then shows every message
  -- twice.
  pub reopening_doubles :
      (s : Session R K) (before after : List (Session R K)) (app : App)
      → IsListed s before after
      → shown s.id app ≡ s.history
      → shown s.id (handle_all opening app) ≡ s.history ++ s.history
  reopening_doubles s before after app v e =
      after_opening s before after app v ∙ ap (λ h. h ++ s.history) e

  -- Whatever permission requests are pending in the user's sessions: a view that is opened is told of
  -- none of them, and shows no request.
  opening_hides_requests : active_permission (handle_all opening initial) ≡ none
  unfolding active_permission
  opening_hides_requests =
      ap
        (λ ps.
          head?
            (keep (λ p. same_option (some p.session_id) (handle_all opening initial).active_id) ps))
        (kept-opening default_cwd user_id (list_for_user user_id server.store) server.tokens
          (add_browser user_id ws server.hub) initial)
