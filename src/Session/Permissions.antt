-- ===== src/Session/Permissions.antt =====
-- server/sessions.ts: the permission requests that are pending, and the promises behind them.
use agent_web_mvp.Prelude.{
  ℕ, suc, ◌+◌, ◌≡◌, refl, ap, sym, ◌∙◌, String, Bool, List, [], ◌∷◌, ◌++◌, none, some, arith,
  Option-cases, inl, inr, length,
}
use agent_web_mvp.Prelude.JsMap.{JsMap, get, get-remove_self}
use agent_web_mvp.Session.State.{
  Effect, permission_requested, settle, Session, set_status, answered, back_to_running,
  resolve_permission, deny_all,
}

abbrev pub asks : {K : Type 0} → List (Effect K) → ℕ
asks [] = 0
asks (permission_requested r ∷ es) = suc (asks es)
asks (_ ∷ es) = asks es

abbrev pub answers : {K : Type 0} → List (Effect K) → ℕ
answers [] = 0
answers (settle k allow ∷ es) = suc (answers es)
answers (_ ∷ es) = answers es

module _ {K : Type 0} where
  pub asks-append : (es fs : List (Effect K)) → asks (es ++ fs) ≡ asks es + asks fs
  asks-append [] fs = omega arith
  asks-append (permission_requested r ∷ es) fs = omega (arith, asks-append es fs)
  asks-append (_ ∷ es) fs = omega (arith, asks-append es fs)

  pub answers-append : (es fs : List (Effect K)) → answers (es ++ fs) ≡ answers es + answers fs
  answers-append [] fs = omega arith
  answers-append (settle k allow ∷ es) fs = omega (arith, answers-append es fs)
  answers-append (_ ∷ es) fs = omega (arith, answers-append es fs)

  pub asks-deny_all : (id : String) (p : JsMap K) → asks (deny_all id p) ≡ 0
  unfolding deny_all
  asks-deny_all id [] = refl
  asks-deny_all id ((r, k) ∷ p) = asks-deny_all id p

  pub answers-deny_all : (id : String) (p : JsMap K) → answers (deny_all id p) ≡ length p
  unfolding deny_all
  answers-deny_all id [] = refl
  answers-deny_all id ((r, k) ∷ p) = ap suc (answers-deny_all id p)

-- Once a request is answered, a second answer to it changes nothing.
module _ {R K : Type 0} where
  pending-back : (s : Session R K) → (back_to_running s).pending ≡ s.pending
  unfolding back_to_running set_status
  pending-back s = ground arith

  pub answer_unknown :
      (id : String) (allow : Bool) (s : Session R K)
      → get id s.pending ≡ none
      → resolve_permission id allow s ≡ s
  unfolding resolve_permission
  answer_unknown id allow s e = rw (e, resolve_permission)

  pub resolve-pending :
      (id : String) (allow : Bool) (s : Session R K) (p : K)
      → get id s.pending ≡ some p
      → resolve_permission id allow s ≡ back_to_running (answered id allow p s)
  unfolding resolve_permission
  resolve-pending id allow s p e = rw (e, resolve_permission)

  gone :
      (id : String) (allow : Bool) (s : Session R K) (p : K)
      → get id s.pending ≡ some p
      → get id (resolve_permission id allow s).pending ≡ none
  unfolding answered
  gone id allow s p e =
      ap (λ t. get id t.pending) (resolve-pending id allow s p e)
      ∙ ap (get id) (pending-back (answered id allow p s))
      ∙ get-remove_self id s.pending

  -- A browser's second answer to a permission request, whatever it says, changes nothing: the promise
  -- is settled by the first answer alone, and no event goes out again.
  second_answer_ignored :
      (id : String) (first second : Bool) (s : Session R K)
      → resolve_permission id second (resolve_permission id first s) ≡ resolve_permission id first s
  second_answer_ignored id first second s = elim (Option-cases (get id s.pending)) [
    | inl e ↦
        ap (resolve_permission id second) (answer_unknown id first s e)
        ∙ answer_unknown id second s e
        ∙ sym (answer_unknown id first s e)
    | inr (p, e) ↦ answer_unknown id second (resolve_permission id first s) (gone id first s p e)
  ]
