-- ===== src/Session/Balanced.antt =====
-- server/sessions.ts: the count of permission requests made, answered and pending.
use agent_web_mvp.Prelude.{
  ℕ, ◌+◌, ◌<◌, ◌≤◌, ◌≡◌, refl, sym, ◌∙◌, String, List, [], ◌∷◌, ◌++◌, none, arith, Bool-cases, inl,
  inr, is_some, All, length, append_assoc, ◌==◌, eq_iff,
}
use agent_web_mvp.Prelude.JsMap.{JsMap, get}
use agent_web_mvp.Prelude.JsMap.Distinct.{IsMap}
use agent_web_mvp.Types.{SessionStatus}
use agent_web_mvp.Types.AuthDetect.{AuthHit}
use agent_web_mvp.Session.State.{Effect, Session, emit_auth_required, same_status, set_status}
use agent_web_mvp.Session.Permissions.{asks, answers, asks-append, answers-append}

module _ {K : Type 0} (uuid : ℕ → String) where
  -- The ids of a map were drawn, and before the n-th draw.
  abbrev pub DrawnBelow : ℕ → JsMap K → Type 0
  DrawnBelow n p = All (λ e. (i : ℕ) × (e.0 ≡ uuid i) × (i < n)) p

  pub weaken : (m n : ℕ) (p : JsMap K) → m ≤ n → DrawnBelow m p → DrawnBelow n p
  weaken m n [] h a = tt
  weaken m n (e ∷ p) h ((i, q, l), a) = ((i, q, omega arith), weaken m n p h a)

  -- A new id is not among those that are pending.
  pub unused :
      (n : ℕ) (p : JsMap K)
      → ((i j : ℕ) → uuid i ≡ uuid j → i ≡ j)
      → DrawnBelow n p
      → get (uuid n) p ≡ none
  unfolding get
  unused n [] inj a = refl
  unused n ((k, v) ∷ p) inj ((i, q, l), a) = elim (Bool-cases (k == uuid n)) [
    | inl c ↦ absurd (omega (arith, inj i n (sym q ∙ (eq_iff k (uuid n)).0 c)))
    | inr c ↦ rw c (unused n p inj a)
  ]

module _ {R K : Type 0} (uuid : ℕ → String) where
  -- The requests that are pending have distinct ids, drawn before; and every request that was made is
  -- answered or pending.
  pub record IsBalanced (s : Session R K) : Type 0 where
    pub drawn_ids : DrawnBelow uuid s.drawn s.pending
    pub distinct : IsMap s.pending
    pub balance : answers s.effects + length s.pending ≡ asks s.effects

  -- A step that leaves the requests alone.
  pub other-IsBalanced :
      (s t : Session R K)
      → t.pending ≡ s.pending
      → s.drawn ≤ t.drawn
      → (es : List (Effect K)) → t.effects ≡ s.effects ++ es
      → asks es ≡ 0
      → answers es ≡ 0
      → IsBalanced s
      → IsBalanced t
  other-IsBalanced s t p d es e a b v = record {
    drawn_ids = rw p (weaken uuid s.drawn t.drawn s.pending d v.drawn_ids);
    distinct = rw p v.distinct;
    balance =
        rw (p, e) (omega (arith, v.balance, asks-append s.effects es, answers-append s.effects es));
  }

  pub back-IsBalanced :
      (st : SessionStatus) (s : Session R K) → IsBalanced s → IsBalanced (set_status st s)
  unfolding set_status
  back-IsBalanced st s v = elim (Bool-cases (same_status s.status st)) [
    | inl c ↦ rw c v
    | inr c ↦ rw c (other-IsBalanced s _ refl (omega arith) _ refl refl refl v)
  ]

  pub emit_auth-IsBalanced :
      (hit : AuthHit) (s : Session R K) → IsBalanced s → IsBalanced (emit_auth_required hit s)
  unfolding emit_auth_required
  emit_auth-IsBalanced hit s v = elim (Bool-cases (is_some s.resume_token)) [
    | inl c ↦
        rw c (other-IsBalanced s _ refl (omega arith) _ (append_assoc s.effects _ _) refl refl v)
    | inr c ↦ rw c (other-IsBalanced s _ refl (omega arith) _ refl refl refl v)
  ]

  -- Nothing but a field that the balance does not read has changed.
  pub same-IsBalanced :
      (s t : Session R K)
      → t.pending ≡ s.pending
      → t.drawn ≡ s.drawn
      → t.effects ≡ s.effects
      → IsBalanced s
      → IsBalanced t
  same-IsBalanced s t p d e v = record {
    drawn_ids = rw (p, d) v.drawn_ids;
    distinct = rw p v.distinct;
    balance = rw (p, e) v.balance;
  }
