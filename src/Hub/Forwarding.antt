-- ===== src/Hub/Forwarding.antt =====
-- server/index.ts: every step of the forwarding part keeps the sockets with their users.
use agent_web_mvp.Prelude.{
  ℕ, ◌+◌, ◌≡◌, refl, String, Bool, true, false, List, [], ◌∷◌, Option, none, some, if◌then◌else◌,
  ◌==◌, Bool-cases, inl, inr, nat_eq, ltb, is_some, truthy,
}
use agent_web_mvp.Prelude.JsMap.{JsMap, All-set}
use agent_web_mvp.Types.{DirEntry, daemon_list_dir, daemon_enable_codex}
use agent_web_mvp.Devices.{Device, Registry, send_to_device}
use agent_web_mvp.Db.{Db, delete_device_token_for_user}
use agent_web_mvp.Hub.{PendingDirListing, PendingCodexEnable, Hub}
use agent_web_mvp.Hub.Listings.{
  after_forward, forward, expect_listing, dir_listing_ttl_ms, route_dir, list_dir, target_of,
  LocalListing, resolve_listing, listing_arrives, sweep_entries, sweep_dir_listings,
}
use agent_web_mvp.Hub.Codex.{
  after_request, request_codex, expect_codex, codex_enable_ttl_ms, enable_with, enable_on,
  enable_codex_on_device, sandbox_args, enabled_on, resolve_ack, codex_ack, sweep_enables,
  sweep_codex_enables,
}
use agent_web_mvp.Hub.Events.{
  Event, browser_opens, browser_closes, asks_dir, asks_codex, daemon_hello, daemon_closes,
  daemon_lists, daemon_acks, revokes, sweeps_dirs, sweeps_codex, hello_arrives, daemon_gone,
  revoke_device, step,
}
use agent_web_mvp.Hub.Owned.{
  IsOwned, Same-IsOwned, tell-IsOwned, broadcast-IsOwned, drop_listing-IsOwned, drop_enable-IsOwned,
  add_browser-IsOwned, remove_browser-IsOwned,
}

module _ (owner : ℕ → String) where
  after_forward-IsOwned :
      (ws : ℕ) (id path : String) (hub : Hub) (out : Registry × Bool)
      → IsOwned owner hub
      → IsOwned owner (after_forward ws id path hub out)
  after_forward-IsOwned ws id path hub (r, true) v =
      Same-IsOwned owner hub (record hub { registry = r })
        (record { browsers = refl; listings = refl; enables = refl }) v
  after_forward-IsOwned ws id path hub (r, false) v =
      tell-IsOwned owner ws _ _ (drop_listing-IsOwned owner id hub v)

  expect_listing-IsOwned :
      (now ws : ℕ) (u id path : String) (hub : Hub)
      → owner ws ≡ u
      → IsOwned owner hub
      → IsOwned owner (expect_listing now ws u id path hub)
  expect_listing-IsOwned now ws u id path hub o v = record {
    browsers = v.browsers;
    listings =
        All-set _ id
          (record { ws = ws; user_id = u; path = path; expires_at = now + dir_listing_ttl_ms })
          hub.pending_dir_listings v.listings o;
    enables = v.enables;
  }

  forward-IsOwned :
      (now ws : ℕ) (u id path : String) (d : Device) (hub : Hub)
      → owner ws ≡ u
      → IsOwned owner hub
      → IsOwned owner (forward now ws u id path d hub)
  unfolding forward
  forward-IsOwned now ws u id path d hub o v =
      after_forward-IsOwned ws id path (expect_listing now ws u id path hub)
        (send_to_device hub.registry d.id (daemon_list_dir id path))
        (expect_listing-IsOwned now ws u id path hub o v)

  route-IsOwned :
      (local : String → LocalListing) (now ws : ℕ) (u id path : String) (b : Bool)
      (t : Option Device) (hub : Hub)
      → owner ws ≡ u
      → IsOwned owner hub
      → IsOwned owner (route_dir local now ws u id path b t hub)
  unfolding route_dir
  route-IsOwned local now ws u id path true none hub o v = tell-IsOwned owner ws _ hub v
  route-IsOwned local now ws u id path true (some d) hub o v = elim (Bool-cases (d.user_id == u)) [
    | inl e ↦ rw e (forward-IsOwned now ws u id path d hub o v)
    | inr e ↦ rw e (tell-IsOwned owner ws _ hub v)
  ]
  route-IsOwned local now ws u id path false (some d) hub o v =
      forward-IsOwned now ws u id path d hub o v
  route-IsOwned local now ws u id path false none hub o v = elim (Bool-cases (u == "anon")) [
    | inl e ↦ rw e (tell-IsOwned owner ws _ hub v)
    | inr e ↦ rw e (tell-IsOwned owner ws _ hub v)
  ]

  after_request-IsOwned :
      (ws : ℕ) (dev id : String) (hub : Hub) (out : Registry × Bool)
      → IsOwned owner hub
      → IsOwned owner (after_request ws dev id hub out)
  after_request-IsOwned ws dev id hub (r, true) v =
      Same-IsOwned owner hub (record hub { registry = r })
        (record { browsers = refl; listings = refl; enables = refl }) v
  after_request-IsOwned ws dev id hub (r, false) v =
      tell-IsOwned owner ws _ _ (drop_enable-IsOwned owner id hub v)

  expect_codex-IsOwned :
      (now ws : ℕ) (u dev id : String) (hub : Hub)
      → owner ws ≡ u
      → IsOwned owner hub
      → IsOwned owner (expect_codex now ws u dev id hub)
  expect_codex-IsOwned now ws u dev id hub o v = record {
    browsers = v.browsers;
    listings = v.listings;
    enables =
        All-set _ id
          (record { ws = ws; user_id = u; device_id = dev; expires_at = now + codex_enable_ttl_ms })
          hub.pending_codex_enables v.enables o;
  }

  request-IsOwned :
      (now ws : ℕ) (u dev id args : String) (d : Device) (hub : Hub)
      → owner ws ≡ u
      → IsOwned owner hub
      → IsOwned owner (request_codex now ws u dev id args d hub)
  unfolding request_codex
  request-IsOwned now ws u dev id args d hub o v =
      after_request-IsOwned ws dev id (expect_codex now ws u dev id hub)
        (send_to_device hub.registry d.id (daemon_enable_codex id args))
        (expect_codex-IsOwned now ws u dev id hub o v)

  with_args-IsOwned :
      (now ws : ℕ) (u dev mode id : String) (d : Device) (a : Option String) (hub : Hub)
      → owner ws ≡ u
      → IsOwned owner hub
      → IsOwned owner (enable_with now ws u dev mode id d a hub)
  unfolding enable_with
  with_args-IsOwned now ws u dev mode id d none hub o v = tell-IsOwned owner ws _ hub v
  with_args-IsOwned now ws u dev mode id d (some args) hub o v =
      request-IsOwned now ws u dev id args d hub o v

  enable-IsOwned :
      (now ws : ℕ) (u dev mode id : String) (t : Option Device) (hub : Hub)
      → owner ws ≡ u
      → IsOwned owner hub
      → IsOwned owner (enable_on now ws u dev mode id t hub)
  unfolding enable_on
  enable-IsOwned now ws u dev mode id none hub o v = tell-IsOwned owner ws _ hub v
  enable-IsOwned now ws u dev mode id (some d) hub o v = elim (Bool-cases (d.user_id == u)) [
    | inl e ↦ rw e (with_args-IsOwned now ws u dev mode id d (sandbox_args mode) hub o v)
    | inr e ↦ rw e (tell-IsOwned owner ws _ hub v)
  ]

  resolve-IsOwned :
      (u id path : String) (parent : Option String) (entries : List DirEntry)
      (error : Option String) (o : Option PendingDirListing) (hub : Hub)
      → IsOwned owner hub
      → IsOwned owner (resolve_listing u id path parent entries error o hub)
  unfolding resolve_listing
  resolve-IsOwned u id path parent entries error none hub v = v
  resolve-IsOwned u id path parent entries error (some p) hub v =
      elim (Bool-cases (p.user_id == u)) [
        | inl e ↦ rw e (tell-IsOwned owner p.ws _ _ (drop_listing-IsOwned owner id hub v))
        | inr e ↦ rw e v
      ]

  enabled-IsOwned :
      (dev u : String) (b : Bool) (hub : Hub)
      → IsOwned owner hub
      → IsOwned owner (if b then enabled_on dev u hub else hub)
  unfolding enabled_on
  enabled-IsOwned dev u true hub v = broadcast-IsOwned owner u _ hub v
  enabled-IsOwned dev u false hub v = v

  ack-IsOwned :
      (u id : String) (b : Bool) (error : Option String) (o : Option PendingCodexEnable) (hub : Hub)
      → IsOwned owner hub
      → IsOwned owner (resolve_ack u id b error o hub)
  unfolding resolve_ack
  ack-IsOwned u id b error none hub v = v
  ack-IsOwned u id b error (some p) hub v = elim (Bool-cases (p.user_id == u)) [
    | inl e ↦ rw e (
        tell-IsOwned owner p.ws _ _
          (enabled-IsOwned p.device_id u b _ (drop_enable-IsOwned owner id hub v)))
    | inr e ↦ rw e v
  ]

  sweep-IsOwned :
      (now : ℕ) (es : JsMap PendingDirListing) (hub : Hub)
      → IsOwned owner hub
      → IsOwned owner (sweep_entries now es hub)
  unfolding sweep_entries
  sweep-IsOwned now [] hub v = v
  sweep-IsOwned now ((id, p) ∷ es) hub v = elim (Bool-cases (ltb p.expires_at now)) [
    | inl e ↦
        rw e (
          sweep-IsOwned now es _
            (tell-IsOwned owner p.ws _ _ (drop_listing-IsOwned owner id hub v)))
    | inr e ↦ rw e (sweep-IsOwned now es hub v)
  ]

  sweep_enables-IsOwned :
      (now : ℕ) (es : JsMap PendingCodexEnable) (hub : Hub)
      → IsOwned owner hub
      → IsOwned owner (sweep_enables now es hub)
  unfolding sweep_enables
  sweep_enables-IsOwned now [] hub v = v
  sweep_enables-IsOwned now ((id, p) ∷ es) hub v = elim (Bool-cases (ltb p.expires_at now)) [
    | inl e ↦ rw e (
        sweep_enables-IsOwned now es _
          (tell-IsOwned owner p.ws _ _ (drop_enable-IsOwned owner id hub v)))
    | inr e ↦ rw e (sweep_enables-IsOwned now es hub v)
  ]

  revoke-IsOwned :
      (u id : String) (db : Db) (hub : Hub)
      → IsOwned owner hub
      → IsOwned owner (revoke_device u id db hub).1
  unfolding revoke_device
  revoke-IsOwned u id db hub v = elim (Bool-cases (id == "")) [
    | inl e ↦ rw e v
    | inr e ↦ elim (Bool-cases (nat_eq (delete_device_token_for_user id u db).1 0)) [
      | inl f ↦ rw (e, f) v
      | inr f ↦ rw (e, f) (broadcast-IsOwned owner u _ hub v)
    ]
  ]

  -- A browser's socket is used for the user whose cookie opened it.
  abbrev pub IsGenuine : Event → Type 0
  IsGenuine (browser_opens u ws) = owner ws ≡ u
  IsGenuine (asks_dir local now ws u id dev path) = owner ws ≡ u
  IsGenuine (asks_codex now ws u dev mode id) = owner ws ≡ u
  IsGenuine _ = Unit {0}

  pub step-IsOwned :
      (e : Event) (hub : Hub) → IsGenuine e → IsOwned owner hub → IsOwned owner (step e hub)
  unfolding step list_dir listing_arrives sweep_dir_listings enable_codex_on_device codex_ack
      sweep_codex_enables hello_arrives daemon_gone
  step-IsOwned (browser_opens u ws) hub g v = add_browser-IsOwned owner u ws hub g v
  step-IsOwned (browser_closes u ws) hub g v = remove_browser-IsOwned owner u ws hub v
  step-IsOwned (asks_dir local now ws u id dev path) hub g v =
      route-IsOwned local now ws u id path (is_some (truthy dev))
        (target_of hub.registry u (truthy dev)) hub g v
  step-IsOwned (asks_codex now ws u dev mode id) hub g v =
      enable-IsOwned now ws u dev mode id _ hub g v
  step-IsOwned (daemon_hello id ws u hello addr now) hub g v = broadcast-IsOwned owner u _ hub v
  step-IsOwned (daemon_closes id u ws) hub g v = broadcast-IsOwned owner u _ hub v
  step-IsOwned (daemon_lists u id path parent entries error) hub g v =
      resolve-IsOwned u id path parent entries error _ hub v
  step-IsOwned (daemon_acks u id success error) hub g v = ack-IsOwned u id success error _ hub v
  step-IsOwned (revokes u id db) hub g v = revoke-IsOwned u id db hub v
  step-IsOwned (sweeps_dirs now) hub g v = sweep-IsOwned now hub.pending_dir_listings hub v
  step-IsOwned (sweeps_codex now) hub g v =
      sweep_enables-IsOwned now hub.pending_codex_enables hub v
