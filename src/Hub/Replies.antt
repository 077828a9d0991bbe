-- ===== src/Hub/Replies.antt =====
-- server/index.ts: the requests of one user, and the answers to them, are told to that user's browsers.
use agent_web_mvp.Prelude.{
  ℕ, ◌≡◌, refl, ◌∙◌, String, Bool, true, false, List, Option, none, some, if◌then◌else◌, ◌==◌,
  eq_iff, Bool-cases, inl, inr, nat_eq,
}
use agent_web_mvp.Prelude.JsMap.{get, remove, All-get}
use agent_web_mvp.Types.{DirEntry, daemon_list_dir, daemon_enable_codex}
use agent_web_mvp.Devices.{Device, Registry, send_to_device, set_codex_enabled, terminate}
use agent_web_mvp.Db.{Db, delete_device_token_for_user}
use agent_web_mvp.Hub.Events.{revoke_device}
use agent_web_mvp.Hub.Owned.{IsOwned, drop_enable-IsOwned}
use agent_web_mvp.Hub.{PendingDirListing, PendingCodexEnable, Hub}
use agent_web_mvp.Hub.Listings.{
  after_forward, forward, expect_listing, route_dir, LocalListing, resolve_listing, failed,
}
use agent_web_mvp.Hub.Codex.{
  after_request, request_codex, expect_codex, sandbox_args, enable_with, enable_on, enabled_on,
  resolve_ack,
}
use agent_web_mvp.Hub.Frames.{
  frames, terminate-frames, codex-frames, Adds, SendsTo, none_new, both, tell-SendsTo,
  broadcast-SendsTo, device-Adds,
}

module _ (owner : ℕ → String) where
  pub after_forward-SendsTo :
      (u : String) (ws : ℕ) (id path : String) (hub : Hub) (out : Registry × Bool)
      → owner ws ≡ u
      → Adds owner u (frames hub) out.0.net.frames
      → SendsTo owner u hub (after_forward ws id path hub out)
  after_forward-SendsTo u ws id path hub (r, true) o a = a
  after_forward-SendsTo u ws id path hub (r, false) o a =
      tell-SendsTo owner u ws (failed id path "Daemon disconnected.")
        (record hub { pending_dir_listings = remove id hub.pending_dir_listings }) o

  pub forward-SendsTo :
      (now ws : ℕ) (u id path : String) (d : Device) (hub : Hub)
      → owner ws ≡ u
      → SendsTo owner u hub (forward now ws u id path d hub)
  unfolding forward
  forward-SendsTo now ws u id path d hub o =
      after_forward-SendsTo u ws id path (expect_listing now ws u id path hub)
        (send_to_device hub.registry d.id (daemon_list_dir id path)) o
        (device-Adds owner u hub.registry d.id (daemon_list_dir id path))

  pub route-SendsTo :
      (local : String → LocalListing) (now ws : ℕ) (u id path : String) (b : Bool)
      (t : Option Device) (hub : Hub)
      → owner ws ≡ u
      → SendsTo owner u hub (route_dir local now ws u id path b t hub)
  unfolding route_dir
  route-SendsTo local now ws u id path true none hub o = tell-SendsTo owner u ws _ hub o
  route-SendsTo local now ws u id path true (some d) hub o = elim (Bool-cases (d.user_id == u)) [
    | inl e ↦ rw e (forward-SendsTo now ws u id path d hub o)
    | inr e ↦ rw e (tell-SendsTo owner u ws _ hub o)
  ]
  route-SendsTo local now ws u id path false (some d) hub o =
      forward-SendsTo now ws u id path d hub o
  route-SendsTo local now ws u id path false none hub o = elim (Bool-cases (u == "anon")) [
    | inl e ↦ rw e (tell-SendsTo owner u ws _ hub o)
    | inr e ↦ rw e (tell-SendsTo owner u ws _ hub o)
  ]

  pub after_request-SendsTo :
      (u : String) (ws : ℕ) (dev id : String) (hub : Hub) (out : Registry × Bool)
      → owner ws ≡ u
      → Adds owner u (frames hub) out.0.net.frames
      → SendsTo owner u hub (after_request ws dev id hub out)
  after_request-SendsTo u ws dev id hub (r, true) o a = a
  after_request-SendsTo u ws dev id hub (r, false) o a =
      tell-SendsTo owner u ws _
        (record hub { pending_codex_enables = remove id hub.pending_codex_enables }) o

  pub with_args-SendsTo :
      (now ws : ℕ) (u dev mode id : String) (d : Device) (a : Option String) (hub : Hub)
      → owner ws ≡ u
      → SendsTo owner u hub (enable_with now ws u dev mode id d a hub)
  unfolding enable_with request_codex
  with_args-SendsTo now ws u dev mode id d none hub o = tell-SendsTo owner u ws _ hub o
  with_args-SendsTo now ws u dev mode id d (some args) hub o =
      after_request-SendsTo u ws dev id (expect_codex now ws u dev id hub)
        (send_to_device hub.registry d.id (daemon_enable_codex id args)) o
        (device-Adds owner u hub.registry d.id (daemon_enable_codex id args))

  pub enable-SendsTo :
      (now ws : ℕ) (u dev mode id : String) (t : Option Device) (hub : Hub)
      → owner ws ≡ u
      → SendsTo owner u hub (enable_on now ws u dev mode id t hub)
  unfolding enable_on
  enable-SendsTo now ws u dev mode id none hub o = tell-SendsTo owner u ws _ hub o
  enable-SendsTo now ws u dev mode id (some d) hub o = elim (Bool-cases (d.user_id == u)) [
    | inl e ↦ rw e (with_args-SendsTo now ws u dev mode id d (sandbox_args mode) hub o)
    | inr e ↦ rw e (tell-SendsTo owner u ws _ hub o)
  ]

  pub resolve-SendsTo :
      (u id path : String) (parent : Option String) (entries : List DirEntry)
      (error : Option String) (o : Option PendingDirListing) (hub : Hub)
      → get id hub.pending_dir_listings ≡ o
      → IsOwned owner hub
      → SendsTo owner u hub (resolve_listing u id path parent entries error o hub)
  unfolding resolve_listing
  resolve-SendsTo u id path parent entries error none hub e v =
      none_new owner u (frames hub) (frames hub) refl
  resolve-SendsTo u id path parent entries error (some p) hub e v =
      elim (Bool-cases (p.user_id == u)) [
        | inl c ↦ rw c (
            tell-SendsTo owner u p.ws _
              (record hub { pending_dir_listings = remove id hub.pending_dir_listings })
              (All-get _ id p hub.pending_dir_listings v.listings e ∙ (eq_iff p.user_id u).0 c))
        | inr c ↦ rw c (none_new owner u (frames hub) (frames hub) refl)
      ]

  pub enabled-SendsTo :
      (dev u : String) (b : Bool) (hub : Hub)
      → IsOwned owner hub
      → SendsTo owner u hub (if b then enabled_on dev u hub else hub)
  unfolding enabled_on
  enabled-SendsTo dev u true hub v =
      broadcast-SendsTo owner u (set_codex_enabled hub.registry dev true).0 hub
        (codex-frames hub.registry dev true) v
  enabled-SendsTo dev u false hub v = none_new owner u (frames hub) (frames hub) refl

  pub ack-SendsTo :
      (u id : String) (b : Bool) (error : Option String) (o : Option PendingCodexEnable) (hub : Hub)
      → get id hub.pending_codex_enables ≡ o
      → IsOwned owner hub
      → SendsTo owner u hub (resolve_ack u id b error o hub)
  unfolding resolve_ack
  ack-SendsTo u id b error none hub e v = none_new owner u (frames hub) (frames hub) refl
  ack-SendsTo u id b error (some p) hub e v = elim (Bool-cases (p.user_id == u)) [
    | inl c ↦ rw c (
        let taken = record hub { pending_codex_enables = remove id hub.pending_codex_enables } in
        let told = if b then enabled_on p.device_id u taken else taken in
        both owner u (frames hub) (frames told) _
          (enabled-SendsTo p.device_id u b taken (drop_enable-IsOwned owner id hub v))
          (tell-SendsTo owner u p.ws _ told
            (All-get _ id p hub.pending_codex_enables v.enables e ∙ (eq_iff p.user_id u).0 c)))
    | inr c ↦ rw c (none_new owner u (frames hub) (frames hub) refl)
  ]

  pub revoke-SendsTo :
      (u id : String) (db : Db) (hub : Hub)
      → IsOwned owner hub
      → SendsTo owner u hub (revoke_device u id db hub).1
  unfolding revoke_device
  revoke-SendsTo u id db hub v = elim (Bool-cases (id == "")) [
    | inl e ↦ rw e (none_new owner u (frames hub) (frames hub) refl)
    | inr e ↦ elim (Bool-cases (nat_eq (delete_device_token_for_user id u db).1 0)) [
      | inl f ↦ rw (e, f) (none_new owner u (frames hub) (frames hub) refl)
      | inr f ↦
          rw (e, f)
            (broadcast-SendsTo owner u (terminate hub.registry id).0 hub
              (terminate-frames hub.registry id) v)
    ]
  ]
