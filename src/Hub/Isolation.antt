-- ===== src/Hub/Isolation.antt =====
-- server/index.ts: what a user's daemons and browsers cause in the forwarding part of the server is
-- seen by that user's browsers alone.
use agent_web_mvp.Prelude.{ℕ, ◌≡◌, refl, ◌∙◌, String, some, Option-cases, inl, inr, is_some, truthy}
use agent_web_mvp.Prelude.JsMap.{get}
use agent_web_mvp.Hub.Events.{
  Event, browser_opens, browser_closes, asks_dir, asks_codex, daemon_hello, daemon_closes,
  daemon_lists, daemon_acks, revokes, sweeps_dirs, sweeps_codex, hello_arrives, daemon_gone, step,
}
use agent_web_mvp.Hub.Owned.{IsOwned}
use agent_web_mvp.Hub.Forwarding.{IsGenuine}
use agent_web_mvp.Hub.{Hub, add_browser, remove_browser}
use agent_web_mvp.Hub.Listings.{list_dir, target_of, listing_arrives}
use agent_web_mvp.Hub.Codex.{enable_codex_on_device, codex_ack}
use agent_web_mvp.Hub.Frames.{
  frames, register-frames, unregister-frames, SendsTo, none_new, broadcast-SendsTo,
}
use agent_web_mvp.Hub.Replies.{
  route-SendsTo, enable-SendsTo, resolve-SendsTo, ack-SendsTo, revoke-SendsTo,
}

module _ (owner : ℕ → String) where
  -- Whose doing an event is; the timers are nobody's.
  abbrev pub IsBy : String → Event → Type 0
  IsBy u (browser_opens v ws) = v ≡ u
  IsBy u (browser_closes v ws) = v ≡ u
  IsBy u (asks_dir local now ws v id dev path) = v ≡ u
  IsBy u (asks_codex now ws v dev mode id) = v ≡ u
  IsBy u (daemon_hello id ws v hello addr now) = v ≡ u
  IsBy u (daemon_closes id v ws) = v ≡ u
  IsBy u (daemon_lists v id path parent entries error) = v ≡ u
  IsBy u (daemon_acks v id success error) = v ≡ u
  IsBy u (revokes v id db) = v ≡ u
  IsBy u (sweeps_dirs now) = ⊥
  IsBy u (sweeps_codex now) = ⊥

  remove_browser-SendsTo :
      (u : String) (ws : ℕ) (hub : Hub) → SendsTo owner u hub (remove_browser u ws hub)
  unfolding remove_browser
  remove_browser-SendsTo u ws hub = elim (Option-cases (get u hub.browsers)) [
    | inl e ↦ rw (e, remove_browser) (none_new owner u (frames hub) (frames hub) refl)
    | inr (s, e) ↦ rw (e, remove_browser) (none_new owner u (frames hub) (frames hub) refl)
  ]

  pub by-SendsTo :
      (e : Event) (u : String) (hub : Hub)
      → IsBy u e
      → IsGenuine owner e
      → IsOwned owner hub
      → SendsTo owner u hub (step e hub)
  unfolding step add_browser list_dir listing_arrives enable_codex_on_device codex_ack hello_arrives
      daemon_gone
  by-SendsTo (browser_opens w ws) u hub b g v = none_new owner u (frames hub) (frames hub) refl
  by-SendsTo (browser_closes w ws) u hub b g v = rw b (remove_browser-SendsTo u ws hub)
  by-SendsTo (asks_dir local now ws w id dev path) u hub b g v = rw b (
      route-SendsTo owner local now ws u id path (is_some (truthy dev))
        (target_of hub.registry u (truthy dev)) hub (g ∙ b))
  by-SendsTo (asks_codex now ws w dev mode id) u hub b g v =
      rw b (enable-SendsTo owner now ws u dev mode id _ hub (g ∙ b))
  by-SendsTo (daemon_hello id ws w hello addr now) u hub b g v =
      rw b (broadcast-SendsTo owner u _ hub (register-frames hub.registry id ws u hello addr now) v)
  by-SendsTo (daemon_closes id w ws) u hub b g v =
      rw b (broadcast-SendsTo owner u _ hub (unregister-frames hub.registry id (some ws)) v)
  by-SendsTo (daemon_lists w id path parent entries error) u hub b g v = rw b (
      resolve-SendsTo owner u id path parent entries error (get id hub.pending_dir_listings) hub
        refl v)
  by-SendsTo (daemon_acks w id success error) u hub b g v =
      rw b (ack-SendsTo owner u id success error (get id hub.pending_codex_enables) hub refl v)
  by-SendsTo (revokes w id db) u hub b g v = rw b (revoke-SendsTo owner u id db hub v)
  by-SendsTo (sweeps_dirs now) u hub b g v = absurd b
  by-SendsTo (sweeps_codex now) u hub b g v = absurd b
