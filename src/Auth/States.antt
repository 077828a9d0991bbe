-- ===== src/Auth/States.antt =====
-- server/auth.ts: how long a state of the sign-in can be used, and how often.
use agent_web_mvp.Prelude.{
  ℕ, ◌+◌, ◌≡◌, refl, String, Bool, true, false, not, List, [], ◌∷◌, Option, none, some, arith, All,
  keep, ltb, truthy, if◌then◌else◌, eq_iff, Option-cases, Bool-cases, inl, inr, ◌⊎◌, ◌≢◌,
}
use agent_web_mvp.Prelude.JsMap.{
  JsMap, get, set, get-set, get-set_self, get-remove_self, get-remove,
}
use agent_web_mvp.Prelude.JsMap.Distinct.{IsMap, IsMap-set}
use agent_web_mvp.Auth.{
  PendingOauth, Auth, Answer, plain, Github, cleanup_pending_oauth, safe_return_to,
  start_oauth_login, take_state, exchange, logout, oauth_ttl_ms, admit,
}

module _ {V : Type 0} where
  get-set_other :
      (k j : String) (v : V) (m : JsMap V) → k ≢ j → get j m ≡ none → get j (set k v m) ≡ none
  get-set_other k j v m o h = ground (arith, eq_iff k j, get-set k j v m)

module _ {V : Type 0} (p : String × V → Bool) where
  get-keep-none : (k : String) (m : JsMap V) → get k m ≡ none → get k (keep p m) ≡ none
  unfolding get
  get-keep-none k [] h = refl
  get-keep-none k ((i, w) ∷ m) h = ground (arith, get-keep-none k m)

  get-keep-some :
      (k : String) (v : V) (m : JsMap V)
      → IsMap m
      → get k m ≡ some v
      → get k (keep p m) ≡ (if p (k, v) then some v else none)
  unfolding get
  get-keep-some k v [] h e = cc
  get-keep-some k v ((i, w) ∷ m) (g, h) e =
      ground (arith, eq_iff i k, get-keep-some k v m h, get-keep-none k m)

  IsMap-keep : (m : JsMap V) → IsMap m → IsMap (keep p m)
  IsMap-keep [] h = tt
  IsMap-keep ((i, w) ∷ m) (g, h) = elim (Bool-cases (p (i, w))) [
    | inl e ↦ rw e (get-keep-none i m g, IsMap-keep m h)
    | inr e ↦ rw e (IsMap-keep m h)
  ]

-- The requests of the sign-in, and the second half of a callback.
pub data Visit : Type 0 where
  logs_in : (enabled : Bool) (now : ℕ) (state : String) (return_to : Option String) → Visit
  calls_back : (now : ℕ) (code state : Option String) → Visit
  exchanged : Github → (user_id sid : String) (now : ℕ) (code : String) → PendingOauth → Visit
  logs_out : (sid : Option String) → Visit

unfoldable pub visit : Visit → Auth → Auth
visit (logs_in enabled now state return_to) auth =
    (start_oauth_login enabled now state return_to auth).0
visit (calls_back now code state) auth = (take_state now code state auth).0
visit (exchanged github user_id sid now code pending) auth =
    (exchange github user_id sid now code pending auth).0
visit (logs_out sid) auth = (logout sid auth).0

unfoldable pub visits : List Visit → Auth → Auth
unfolding visit
visits [] auth = auth
visits (v ∷ vs) auth = visits vs (visit v auth)

-- The visit does not draw this state.
abbrev pub IsOther : String → Visit → Type 0
IsOther s (logs_in enabled now state return_to) = state ≢ s
IsOther s (calls_back now code state) = Unit {0}
IsOther s (exchanged github user_id sid now code pending) = Unit {0}
IsOther s (logs_out sid) = Unit {0}

exchange-pending :
    (github : Github) (user_id sid : String) (now : ℕ) (code : String) (pending : PendingOauth)
    (auth : Auth)
    → (exchange github user_id sid now code pending auth).0.pending_oauth ≡ auth.pending_oauth
unfolding exchange admit
exchange-pending github user_id sid now code pending auth = ground arith

invalid : Answer ⊎ String × PendingOauth
invalid = inl (plain 400 "Invalid or expired state")

take-gone :
    (s : String) (now : ℕ) (code state : Option String) (auth : Auth)
    → get s auth.pending_oauth ≡ none
    → get s (take_state now code state auth).0.pending_oauth ≡ none
unfolding take_state cleanup_pending_oauth
take-gone s now code state auth h =
    let swept = cleanup_pending_oauth now auth.pending_oauth in
    let gone = get-keep-none (λ e. not (ltb e.1.expires_at now)) s auth.pending_oauth h in
    elim (Option-cases (truthy code)) [
      | inl e ↦ rw (e, take_state) gone
      | inr (c, e) ↦ elim (Option-cases (truthy state)) [
        | inl f ↦ rw (e, take_state, f) gone
        | inr (t, f) ↦ elim (Option-cases (get t swept)) [
          | inl g ↦ rw (e, take_state, f, g) gone
          | inr (p, g) ↦ rw (e, take_state, f, g) (ground (arith, get-remove t s swept))
        ]
      ]
    ]

-- A callback with a code leaves its state out of the table, whether it was there or not.
take-removes :
    (s c : String) (now : ℕ) (code state : Option String) (auth : Auth)
    → truthy code ≡ some c
    → truthy state ≡ some s
    → get s (take_state now code state auth).0.pending_oauth ≡ none
unfolding take_state cleanup_pending_oauth
take-removes s c now code state auth e f =
    let swept = cleanup_pending_oauth now auth.pending_oauth in
    elim (Option-cases (get s swept)) [
      | inl g ↦ rw (e, take_state, f, g) g
      | inr (p, g) ↦ rw (e, take_state, f, g) (get-remove_self s swept)
    ]

take-absent :
    (s c : String) (now : ℕ) (code state : Option String) (auth : Auth)
    → truthy code ≡ some c
    → truthy state ≡ some s
    → get s auth.pending_oauth ≡ none
    → (take_state now code state auth).1 ≡ invalid
unfolding take_state cleanup_pending_oauth invalid
take-absent s c now code state auth e f h =
    rw (e, take_state, f, get-keep-none (λ e. not (ltb e.1.expires_at now)) s auth.pending_oauth h)
      refl

visit-gone :
    (v : Visit) (s : String) (auth : Auth)
    → IsOther s v
    → get s auth.pending_oauth ≡ none
    → get s (visit v auth).pending_oauth ≡ none
unfolding visit start_oauth_login cleanup_pending_oauth logout
visit-gone (logs_in false now state return_to) s auth o h = h
visit-gone (logs_in true now state return_to) s auth o h =
    get-set_other state s _ (keep (λ e. not (ltb e.1.expires_at now)) auth.pending_oauth) o
      (get-keep-none (λ e. not (ltb e.1.expires_at now)) s auth.pending_oauth h)
visit-gone (calls_back now code state) s auth o h = take-gone s now code state auth h
visit-gone (exchanged github user_id sid now code pending) s auth o h =
    rw (exchange-pending github user_id sid now code pending auth) h
visit-gone (logs_out sid) s auth o h = ground arith

visits-gone :
    (vs : List Visit) (s : String) (auth : Auth)
    → All (IsOther s) vs
    → get s auth.pending_oauth ≡ none
    → get s (visits vs auth).pending_oauth ≡ none
unfolding visits
visits-gone [] s auth os h = h
visits-gone (v ∷ vs) s auth (o, os) h = visits-gone vs s (visit v auth) os (visit-gone v s auth o h)

-- A callback with a code uses its state up: whatever requests follow, as long as no login draws the
-- same state again, a later callback with that state and a code is refused with 400.
pub state_used_once :
    (s c d : String) (now later : ℕ) (code again state : Option String) (vs : List Visit)
    (auth : Auth)
    → truthy state ≡ some s
    → truthy code ≡ some c
    → truthy again ≡ some d
    → All (IsOther s) vs
    → (take_state later again state (visits vs (take_state now code state auth).0)).1
      ≡ inl (plain 400 "Invalid or expired state")
unfolding invalid
state_used_once s c d now later code again state vs auth e f g os =
    take-absent s d later again state (visits vs (take_state now code state auth).0) g e (
      visits-gone vs s (take_state now code state auth).0 os
        (take-removes s c now code state auth f e))

-- Where the table's keys are distinct, the state of a login is accepted by the callback that comes
-- next, with the safe form of the place to return to, if no more than ten minutes have passed; after
-- that the callback is refused with 400.
state_lives :
    (s c : String) (now later : ℕ) (code state return_to : Option String) (auth : Auth)
    → truthy state ≡ some s
    → truthy code ≡ some c
    → IsMap auth.pending_oauth
    → (take_state later code state (start_oauth_login true now s return_to auth).0).1 ≡ (
        if ltb (now + oauth_ttl_ms) later
        then inl (plain 400 "Invalid or expired state")
        else inr
            (c, record { return_to = safe_return_to return_to; expires_at = now + oauth_ttl_ms }))
unfolding take_state start_oauth_login cleanup_pending_oauth
state_lives s c now later code state return_to auth e f m =
    let entry : PendingOauth = record {
      return_to = safe_return_to return_to;
      expires_at = now + oauth_ttl_ms;
    } in
    let fresh = keep (λ e. not (ltb e.1.expires_at now)) auth.pending_oauth in
    let distinct = IsMap-set s entry fresh (IsMap-keep (λ e. not (ltb e.1.expires_at now)) _ m) in
    let found =
      get-keep-some (λ e. not (ltb e.1.expires_at later)) s entry (set s entry fresh) distinct
        (get-set_self s entry fresh) in
    elim (Bool-cases (ltb (now + oauth_ttl_ms) later)) [
      | inl l ↦ rw (f, take_state, e, found, l) refl
      | inr l ↦ rw (f, take_state, e, found, l) refl
    ]
