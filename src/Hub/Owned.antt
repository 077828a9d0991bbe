-- ===== src/Hub/Owned.antt =====
-- server/index.ts: the sockets that the server keeps for a user are sockets of that user.
use agent_web_mvp.Prelude.{
  ℕ, ◌≡◌, refl, String, Bool, List, [], ◌∷◌, arith, All, All-append, or_else, Option-cases,
  Bool-cases, inl, inr, keep, nat_eq, any,
}
use agent_web_mvp.Prelude.JsMap.{JsMap, get, remove, All-set, All-remove, All-get}
use agent_web_mvp.Types.{ServerMessage}
use agent_web_mvp.Devices.{Registry}
use agent_web_mvp.Hub.{
  Hub, tell, add_to, add_browser, without, remove_browser, tell_all, broadcast_to_user,
  broadcast_devices,
}

-- `owner` is the user whose cookie opened a browser's socket.
module _ (owner : ℕ → String) where
  abbrev pub IsOwn : String → List ℕ → Type 0
  IsOwn user_id sockets = All (λ ws. owner ws ≡ user_id) sockets

  pub record IsOwned (hub : Hub) : Type 0 where
    pub browsers : All (λ e. IsOwn e.0 e.1) hub.browsers
    pub listings : All (λ e. owner e.1.ws ≡ e.1.user_id) hub.pending_dir_listings
    pub enables : All (λ e. owner e.1.ws ≡ e.1.user_id) hub.pending_codex_enables

  -- The three maps are as before.
  pub record Same (a b : Hub) : Type 0 where
    pub browsers : b.browsers ≡ a.browsers
    pub listings : b.pending_dir_listings ≡ a.pending_dir_listings
    pub enables : b.pending_codex_enables ≡ a.pending_codex_enables

  pub Same-IsOwned : (a b : Hub) → Same a b → IsOwned a → IsOwned b
  Same-IsOwned a b s v = record {
    browsers = rw s.browsers v.browsers;
    listings = rw s.listings v.listings;
    enables = rw s.enables v.enables;
  }

  tell-Same : (ws : ℕ) (msg : ServerMessage) (hub : Hub) → Same hub (tell ws msg hub)
  unfolding tell
  tell-Same ws msg hub = record { browsers = refl; listings = refl; enables = refl }

  pub tell-IsOwned :
      (ws : ℕ) (msg : ServerMessage) (hub : Hub) → IsOwned hub → IsOwned (tell ws msg hub)
  tell-IsOwned ws msg hub = Same-IsOwned hub (tell ws msg hub) (tell-Same ws msg hub)

  pub tell_all-IsOwned :
      (sockets : List ℕ) (msg : ServerMessage) (hub : Hub)
      → IsOwned hub
      → IsOwned (tell_all sockets msg hub)
  unfolding tell_all
  tell_all-IsOwned [] msg hub v = v
  tell_all-IsOwned (ws ∷ sockets) msg hub v =
      tell_all-IsOwned sockets msg (tell ws msg hub) (tell-IsOwned ws msg hub v)

  pub broadcast-IsOwned :
      (user_id : String) (registry : Registry) (hub : Hub)
      → IsOwned hub
      → IsOwned (broadcast_devices user_id (record hub { registry = registry }))
  unfolding broadcast_devices broadcast_to_user
  broadcast-IsOwned user_id registry hub v =
      tell_all-IsOwned (or_else (get user_id hub.browsers) []) _
        (record hub { registry = registry })
        (Same-IsOwned hub (record hub { registry = registry })
          (record { browsers = refl; listings = refl; enables = refl }) v)

  pub drop_listing-IsOwned :
      (id : String) (hub : Hub)
      → IsOwned hub
      → IsOwned (record hub { pending_dir_listings = remove id hub.pending_dir_listings })
  drop_listing-IsOwned id hub v = record {
    browsers = v.browsers;
    listings = All-remove _ id hub.pending_dir_listings v.listings;
    enables = v.enables;
  }

  pub drop_enable-IsOwned :
      (id : String) (hub : Hub)
      → IsOwned hub
      → IsOwned (record hub { pending_codex_enables = remove id hub.pending_codex_enables })
  drop_enable-IsOwned id hub v = record {
    browsers = v.browsers;
    listings = v.listings;
    enables = All-remove _ id hub.pending_codex_enables v.enables;
  }

  IsOwn-add :
      (user_id : String) (ws : ℕ) (sockets : List ℕ)
      → owner ws ≡ user_id
      → IsOwn user_id sockets
      → IsOwn user_id (add_to ws sockets)
  unfolding add_to
  IsOwn-add user_id ws sockets o h = elim (Bool-cases (any (nat_eq ws) sockets)) [
    | inl e ↦ rw e h
    | inr e ↦ rw e (All-append _ sockets (ws ∷ []) h (o, tt))
  ]

  IsOwn-keep :
      (p : ℕ → Bool) (user_id : String) (sockets : List ℕ)
      → IsOwn user_id sockets
      → IsOwn user_id (keep p sockets)
  IsOwn-keep p user_id [] h = tt
  IsOwn-keep p user_id (ws ∷ sockets) (o, h) = ground (arith, IsOwn-keep p user_id sockets h)

  pub IsOwn-sockets :
      (user_id : String) (hub : Hub)
      → IsOwned hub
      → IsOwn user_id (or_else (get user_id hub.browsers) [])
  IsOwn-sockets user_id hub v = elim (Option-cases (get user_id hub.browsers)) [
    | inl e ↦ rw e tt
    | inr (s, e) ↦ rw e (All-get _ user_id s hub.browsers v.browsers e)
  ]

  pub add_browser-IsOwned :
      (user_id : String) (ws : ℕ) (hub : Hub)
      → owner ws ≡ user_id
      → IsOwned hub
      → IsOwned (add_browser user_id ws hub)
  unfolding add_browser
  add_browser-IsOwned user_id ws hub o v = record {
    browsers =
        All-set _ user_id _ hub.browsers v.browsers
          (IsOwn-add user_id ws _ o (IsOwn-sockets user_id hub v));
    listings = v.listings;
    enables = v.enables;
  }

  without-IsOwn :
      (user_id : String) (sockets : List ℕ) (m : JsMap (List ℕ))
      → IsOwn user_id sockets
      → All (λ e. IsOwn e.0 e.1) m
      → All (λ e. IsOwn e.0 e.1) (without user_id sockets m)
  unfolding without
  without-IsOwn user_id [] m h v = All-remove _ user_id m v
  without-IsOwn user_id (ws ∷ rest) m h v = All-set _ user_id (ws ∷ rest) m v h

  pub remove_browser-IsOwned :
      (user_id : String) (ws : ℕ) (hub : Hub)
      → IsOwned hub
      → IsOwned (remove_browser user_id ws hub)
  unfolding remove_browser
  remove_browser-IsOwned user_id ws hub v = elim (Option-cases (get user_id hub.browsers)) [
    | inl e ↦ rw (e, remove_browser) v
    | inr (s, e) ↦
        rw (e, remove_browser)
          (record {
            browsers =
                without-IsOwn user_id _ hub.browsers
                  (IsOwn-keep _ user_id s (All-get _ user_id s hub.browsers v.browsers e))
                  v.browsers;
            listings = v.listings;
            enables = v.enables;
          })
  ]
