-- ===== src/Server/Hearing.antt =====
-- server/index.ts: a daemon's messages about runs, and the opening of a browser, send frames to
-- browsers of one user.
use agent_web_mvp.Prelude.{
  ℕ, ◌≡◌, sym, ◌∙◌, subst, String, [], ◌∷◌, some, All, Bool-cases, inl, inr, same_option,
  same_option-eq,
}
use agent_web_mvp.Prelude.JsMap.{JsMap}
use agent_web_mvp.Types.{DaemonClientMessage}
use agent_web_mvp.Hub.{add_browser}
use agent_web_mvp.Hub.Owned.{add_browser-IsOwned}
use agent_web_mvp.Agents.Remote.{Remote}
use agent_web_mvp.Agents.Remote.Events.{Ticket, dispatch}
use agent_web_mvp.Session.State.{Session, Env}
use agent_web_mvp.Session.Store.{list_for_user}
use agent_web_mvp.Server.{Server, act}
use agent_web_mvp.Server.Opening.{greeting, on_connection}
use agent_web_mvp.Server.System.{deliver_each, deliver}
use agent_web_mvp.Server.Held.{IsHeld, IsDeviceOf}
use agent_web_mvp.Server.Holding.{IsEnv, dispatch-IsHeld, dispatch_deaf}
use agent_web_mvp.Server.Sending.{
  IsSafe, Serves, tell_list-Tells, Serves-refl, Serves-both, hub-Serves, act-Serves, quiet-Serves,
}

module _ (owner : ℕ → String) (tenant : String → String) where
  module _ (u : String) (env : Env Remote) (w : IsEnv tenant env) (dev : String)
      (msg : DaemonClientMessage) (t : tenant dev ≡ u) where
    -- A session hears a device only if its run is on it, and then it is one of the device's user.
    hears-Serves :
        (id : String) (s : Session Remote Ticket) (a : Server Remote Ticket)
        → IsHeld tenant s.user_id s
        → IsSafe owner tenant a
        → Serves owner tenant u a (act (dispatch env dev msg) id s a)
    hears-Serves id s a h v = elim (Bool-cases (same_option (some dev) s.runner.active_device_id)) [
      | inl e ↦
          let at = same_option-eq (some dev) s.runner.active_device_id e in
          let own = subst (IsDeviceOf tenant s.user_id) (sym at) h.runner.device in
          act-Serves owner tenant u (dispatch env dev msg) id s a
            (dispatch-IsHeld tenant u env w dev msg)
            (subst (λ x. IsHeld tenant x s) (sym own ∙ t) h) v
      | inr e ↦
          quiet-Serves owner tenant u (dispatch env dev msg) id s a
            (dispatch_deaf env dev msg (record s { effects = [] }) e) h v
    ]

    each-Serves :
        (es : JsMap (Session Remote Ticket)) (a : Server Remote Ticket)
        → All (λ e. IsHeld tenant e.1.user_id e.1) es
        → IsSafe owner tenant a
        → Serves owner tenant u a (deliver_each env dev msg es a)
    unfolding deliver_each
    each-Serves [] a h v = Serves-refl owner tenant u a v
    each-Serves ((id, s) ∷ es) a (h, hs) v =
        let g = hears-Serves id s a h v in
        Serves-both owner tenant u a (act (dispatch env dev msg) id s a) _ g
          (each-Serves es (act (dispatch env dev msg) id s a) hs g.safe)

    pub deliver-Serves :
        (a : Server Remote Ticket)
        → IsSafe owner tenant a
        → Serves owner tenant u a (deliver env dev msg a)
    unfolding deliver
    deliver-Serves a v = each-Serves a.store.sessions a v.held v

  pub opening-Serves :
      (cwd : String) (ws : ℕ) (u : String) (a : Server Remote Ticket)
      → owner ws ≡ u
      → IsSafe owner tenant a
      → Serves owner tenant u a (on_connection cwd ws u a)
  unfolding on_connection add_browser
  opening-Serves cwd ws u a o v =
      let hub = add_browser u ws a.hub in
      let g =
        tell_list-Tells owner tenant u ws (greeting cwd u (list_for_user u a.store) a.tokens hub)
          hub o (add_browser-IsOwned owner u ws a.hub o v.owned) in
      hub-Serves owner tenant u a _ v (record { sends = g.sends; owned = g.owned })
