-- ===== src/Hub/Frames.antt =====
-- server/index.ts: which frames sending to browsers and daemons adds to what was sent before.
use agent_web_mvp.Prelude.{
  ℕ, ◌≡◌, refl, sym, ap, ◌∙◌, String, Bool, List, [], ◌∷◌, ◌++◌, Option, arith, All, All-append,
  append_assoc, append-nil, or_else, Option-cases, Bool-cases, inl, inr,
}
use agent_web_mvp.Prelude.JsMap.{get}
use agent_web_mvp.Types.{ServerMessage, DaemonServerMessage}
use agent_web_mvp.Wire.{Frame, to_browser, to_daemon, send, close}
use agent_web_mvp.Devices.{
  Registry, DeviceHello, send_to_device, set_codex_enabled, notify, register, unregister, terminate,
  evict,
}
use agent_web_mvp.Hub.Owned.{IsOwn, IsOwned, IsOwn-sockets}
use agent_web_mvp.Hub.{Hub, tell, tell_all, broadcast_to_user, broadcast_devices}

abbrev pub frames : Hub → List (ℕ × Frame)
frames hub = hub.registry.net.frames

pub register-frames :
    (r : Registry) (id : String) (ws : ℕ) (u : String) (h : DeviceHello) (addr : String) (now : ℕ)
    → (register r id ws u h addr now).0.net.frames ≡ r.net.frames
unfolding register evict notify close
register-frames r id ws u h addr now = elim (Option-cases (get id r.devices)) [
  | inl e ↦ rw e refl
  | inr (d, e) ↦ rw e (ground arith)
]

pub terminate-frames : (r : Registry) (id : String) → (terminate r id).0.net.frames ≡ r.net.frames
unfolding terminate notify close
terminate-frames r id = elim (Option-cases (get id r.devices)) [
  | inl e ↦ rw (e, terminate) refl
  | inr (d, e) ↦ rw (e, terminate) refl
]

pub unregister-frames :
    (r : Registry) (id : String) (ws : Option ℕ) → (unregister r id ws).net.frames ≡ r.net.frames
unfolding unregister notify
unregister-frames r id ws = elim (Option-cases (get id r.devices)) [
  | inl e ↦ rw (e, unregister) refl
  | inr (d, e) ↦ rw (e, unregister) (ground arith)
]

pub codex-frames :
    (r : Registry) (id : String) (b : Bool) → (set_codex_enabled r id b).0.net.frames ≡ r.net.frames
unfolding set_codex_enabled notify
codex-frames r id b = elim (Option-cases (get id r.devices)) [
  | inl e ↦ rw (e, set_codex_enabled) refl
  | inr (d, e) ↦ rw (e, set_codex_enabled) (ground arith)
]

module _ (owner : ℕ → String) where
  -- A frame for a browser of the user, or for a daemon.
  abbrev pub IsFor : String → ℕ × Frame → Type 0
  IsFor user_id (ws, to_browser msg) = owner ws ≡ user_id
  IsFor user_id (ws, to_daemon msg) = Unit {0}

  -- The second list is the first and frames for the browsers of one user, or for daemons.
  abbrev pub Adds : String → List (ℕ × Frame) → List (ℕ × Frame) → Type 0
  Adds user_id xs ys = (new : List (ℕ × Frame)) × (ys ≡ xs ++ new) × All (IsFor user_id) new

  -- What is sent between the two states goes to browsers of one user only, and to daemons.
  abbrev pub SendsTo : String → Hub → Hub → Type 0
  SendsTo user_id a b = Adds user_id a.registry.net.frames b.registry.net.frames

  pub none_new : (user_id : String) (xs ys : List (ℕ × Frame)) → ys ≡ xs → Adds user_id xs ys
  none_new user_id xs ys e = ([], e ∙ sym (append-nil xs), tt)

  pub one_new :
      (user_id : String) (xs : List (ℕ × Frame)) (f : ℕ × Frame)
      → IsFor user_id f
      → Adds user_id xs (xs ++ f ∷ [])
  one_new user_id xs f h = (f ∷ [], refl, (h, tt))

  pub both :
      (user_id : String) (xs ys zs : List (ℕ × Frame))
      → Adds user_id xs ys
      → Adds user_id ys zs
      → Adds user_id xs zs
  both user_id xs ys zs (m, e, h) (n, f, k) =
      (m ++ n, f ∙ ap (λ x. x ++ n) e ∙ append_assoc xs m n, All-append _ m n h k)

  pub tell-SendsTo :
      (u : String) (ws : ℕ) (msg : ServerMessage) (hub : Hub)
      → owner ws ≡ u
      → SendsTo u hub (tell ws msg hub)
  unfolding tell send
  tell-SendsTo u ws msg hub o = elim (Bool-cases (hub.registry.net.is_open ws)) [
    | inl e ↦ rw e (one_new u (frames hub) (ws, to_browser msg) o)
    | inr e ↦ rw e (none_new u (frames hub) (frames hub) refl)
  ]

  pub tell_all-SendsTo :
      (u : String) (sockets : List ℕ) (msg : ServerMessage) (hub : Hub)
      → IsOwn owner u sockets
      → SendsTo u hub (tell_all sockets msg hub)
  unfolding tell_all
  tell_all-SendsTo u [] msg hub h = none_new u (frames hub) (frames hub) refl
  tell_all-SendsTo u (ws ∷ sockets) msg hub (o, h) =
      both u (frames hub) (frames (tell ws msg hub))
        (frames (tell_all sockets msg (tell ws msg hub))) (tell-SendsTo u ws msg hub o)
        (tell_all-SendsTo u sockets msg (tell ws msg hub) h)

  pub broadcast-SendsTo :
      (u : String) (registry : Registry) (hub : Hub)
      → registry.net.frames ≡ frames hub
      → IsOwned owner hub
      → SendsTo u hub (broadcast_devices u (record hub { registry = registry }))
  unfolding broadcast_devices broadcast_to_user
  broadcast-SendsTo u registry hub e v =
      both u (frames hub) registry.net.frames _ (none_new u (frames hub) registry.net.frames e) (
        tell_all-SendsTo u (or_else (get u hub.browsers) []) _ (record hub { registry = registry })
          (IsOwn-sockets owner u hub v))

  pub device-Adds :
      (u : String) (r : Registry) (id : String) (msg : DaemonServerMessage)
      → Adds u r.net.frames (send_to_device r id msg).0.net.frames
  unfolding send_to_device send
  device-Adds u r id msg = elim (Option-cases (get id r.devices)) [
    | inl e ↦ rw (e, send_to_device) (none_new u r.net.frames r.net.frames refl)
    | inr (d, e) ↦ elim (Bool-cases (r.net.is_open d.ws)) [
      | inl o ↦ rw (e, send_to_device, o) (one_new u r.net.frames (d.ws, to_daemon msg) tt)
      | inr o ↦ rw (e, send_to_device, o) (none_new u r.net.frames r.net.frames refl)
    ]
  ]
