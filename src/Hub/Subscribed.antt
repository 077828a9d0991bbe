-- ===== src/Hub/Subscribed.antt =====
-- server/index.ts: what one of a user's browsers is sent by the functions that send.
use agent_web_mvp.Prelude.{
  ℕ, ◌≡◌, refl, ap, ◌∙◌, String, true, false, List, [], ◌∷◌, ◌++◌, or_else, append-nil, nat_eq,
  if◌then◌else◌, All, arith, Bool-cases, inl, inr,
}
use agent_web_mvp.Prelude.JsMap.{get}
use agent_web_mvp.Types.{ServerMessage}
use agent_web_mvp.Wire.{Frame, to_browser, send}
use agent_web_mvp.Hub.{Hub, tell, tell_all, broadcast_to_user}

-- The frames that were sent on a socket.
abbrev pub received : ℕ → List (ℕ × Frame) → List Frame
received ws [] = []
received ws ((i, f) ∷ fs) = if nat_eq i ws then f ∷ received ws fs else received ws fs

received-append :
    (ws : ℕ) (fs gs : List (ℕ × Frame)) → received ws (fs ++ gs) ≡ received ws fs ++ received ws gs
received-append ws [] gs = refl
received-append ws ((i, f) ∷ fs) gs = elim (Bool-cases (nat_eq i ws)) [
  | inl e ↦ rw e (ap (◌∷◌ f) (received-append ws fs gs))
  | inr e ↦ rw e (received-append ws fs gs)
]

-- The socket is open, and it is one of the user's, once.
pub record IsSubscribed (ws : ℕ) (user_id : String) (hub : Hub) : Type 0 where
  pub is_open : hub.registry.net.is_open ws ≡ true
  pub before : List ℕ
  pub after : List ℕ
  pub sockets : or_else (get user_id hub.browsers) [] ≡ before ++ ws ∷ after
  pub not_before : All (λ i. nat_eq i ws ≡ false) before
  pub not_after : All (λ i. nat_eq i ws ≡ false) after

-- What a frame leaves as it is.
pub record Same (h k : Hub) : Type 0 where
  pub is_open : k.registry.net.is_open ≡ h.registry.net.is_open
  pub browsers : k.browsers ≡ h.browsers
  pub devices : k.registry.devices ≡ h.registry.devices

Same-trans : (g h k : Hub) → Same g h → Same h k → Same g k
Same-trans g h k v w = record {
  is_open = w.is_open ∙ v.is_open;
  browsers = w.browsers ∙ v.browsers;
  devices = w.devices ∙ v.devices;
}

tell-Same : (ws : ℕ) (m : ServerMessage) (hub : Hub) → Same hub (tell ws m hub)
unfolding tell send
tell-Same ws m hub = elim (Bool-cases (hub.registry.net.is_open ws)) [
  | inl e ↦ rw e (record { is_open = refl; browsers = refl; devices = refl })
  | inr e ↦ rw e (record { is_open = refl; browsers = refl; devices = refl })
]

tell_all-Same :
    (sockets : List ℕ) (m : ServerMessage) (hub : Hub) → Same hub (tell_all sockets m hub)
unfolding tell_all
tell_all-Same [] m hub = record { is_open = refl; browsers = refl; devices = refl }
tell_all-Same (ws ∷ rest) m hub =
    Same-trans hub (tell ws m hub) _ (tell-Same ws m hub) (tell_all-Same rest m (tell ws m hub))

abbrev pub frames_of : ℕ → Hub → List Frame
frames_of ws hub = received ws hub.registry.net.frames

nat_eq_refl : (n : ℕ) → nat_eq n n ≡ true
nat_eq_refl n = ground arith

tell_self :
    (ws : ℕ) (m : ServerMessage) (hub : Hub)
    → hub.registry.net.is_open ws ≡ true
    → nat_eq ws ws ≡ true
    → frames_of ws (tell ws m hub) ≡ frames_of ws hub ++ to_browser m ∷ []
unfolding tell send
tell_self ws m hub o e = rw o (
    received-append ws hub.registry.net.frames ((ws, to_browser m) ∷ [])
    ∙ ap (λ b. frames_of ws hub ++ (if b then to_browser m ∷ [] else [])) e)

tell_other :
    (ws i : ℕ) (m : ServerMessage) (hub : Hub)
    → nat_eq i ws ≡ false
    → frames_of ws (tell i m hub) ≡ frames_of ws hub
unfolding tell send
tell_other ws i m hub e = elim (Bool-cases (hub.registry.net.is_open i)) [
  | inl o ↦ rw o (
      received-append ws hub.registry.net.frames ((i, to_browser m) ∷ [])
      ∙ ap (λ b. frames_of ws hub ++ (if b then to_browser m ∷ [] else [])) e
      ∙ append-nil (frames_of ws hub))
  | inr o ↦ rw o refl
]

tell_others :
    (ws : ℕ) (sockets : List ℕ) (m : ServerMessage) (hub : Hub)
    → All (λ i. nat_eq i ws ≡ false) sockets
    → frames_of ws (tell_all sockets m hub) ≡ frames_of ws hub
unfolding tell_all
tell_others ws [] m hub h = refl
tell_others ws (i ∷ rest) m hub (e, h) =
    tell_others ws rest m (tell i m hub) h ∙ tell_other ws i m hub e

tell_one :
    (ws : ℕ) (before after : List ℕ) (m : ServerMessage) (hub : Hub)
    → hub.registry.net.is_open ws ≡ true
    → All (λ i. nat_eq i ws ≡ false) before
    → All (λ i. nat_eq i ws ≡ false) after
    → frames_of ws (tell_all (before ++ ws ∷ after) m hub) ≡ frames_of ws hub ++ to_browser m ∷ []
unfolding tell_all
tell_one ws [] after m hub o b a =
    tell_others ws after m (tell ws m hub) a ∙ tell_self ws m hub o (nat_eq_refl ws)
tell_one ws (i ∷ before) after m hub o (e, b) a =
    tell_one ws before after m (tell i m hub) (ap (λ f. f ws) (tell-Same i m hub).is_open ∙ o) b a
    ∙ ap (λ fs. fs ++ to_browser m ∷ []) (tell_other ws i m hub e)

module _ (ws : ℕ) (user_id : String) (m : ServerMessage) (hub : Hub)
    (v : IsSubscribed ws user_id hub) where
  pub heard-broadcast :
      frames_of ws (broadcast_to_user user_id m hub) ≡ frames_of ws hub ++ to_browser m ∷ []
  unfolding broadcast_to_user
  heard-broadcast =
      ap (λ sockets. frames_of ws (tell_all sockets m hub)) v.sockets
      ∙ tell_one ws v.before v.after m hub v.is_open v.not_before v.not_after

  pub broadcast-IsSubscribed : IsSubscribed ws user_id (broadcast_to_user user_id m hub)
  unfolding broadcast_to_user
  broadcast-IsSubscribed =
      let k = tell_all-Same (or_else (get user_id hub.browsers) []) m hub in
      record {
        is_open = ap (λ f. f ws) k.is_open ∙ v.is_open;
        before = v.before;
        after = v.after;
        sockets = ap (λ b. or_else (get user_id b) []) k.browsers ∙ v.sockets;
        not_before = v.not_before;
        not_after = v.not_after;
      }

pub broadcast-Same :
    (user_id : String) (m : ServerMessage) (hub : Hub) → Same hub (broadcast_to_user user_id m hub)
unfolding broadcast_to_user
broadcast-Same user_id m hub = tell_all-Same _ m hub
