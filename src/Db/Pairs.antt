-- ===== src/Db/Pairs.antt =====
-- server/db.ts: how the statements on pairing_codes and device_tokens read back.
use agent_web_mvp.Prelude.{
  ◌≡◌, ◌≢◌, refl, Bool, true, false, ◌&&◌, List, [], ◌∷◌, ◌++◌, map, Option, none, some, arith,
  if◌then◌else◌, any,
}
use agent_web_mvp.Db.{first, update_row, changes}

abbrev pub on_row {ℓ} : {A : Type ℓ} → (A → A) → Option A → Option A
on_row f none = none
on_row f (some r) = some (f r)

module _ {ℓ} {A : Type ℓ} where
  -- A change of the rows that keeps the test reads back as the change of the row.
  pub first-map :
      (p : A → Bool) (f : A → A) (rs : List A)
      → ((r : A) → p (f r) ≡ p r)
      → first p (map f rs) ≡ on_row f (first p rs)
  unfolding first
  first-map p f [] h = refl
  first-map p f (r ∷ rs) h = ground (arith, h r, first-map p f rs h)

  pub first-append :
      (p : A → Bool) (rs : List A) (r : A)
      → first p rs ≡ none
      → first p (rs ++ r ∷ []) ≡ (if p r then some r else none)
  unfolding first
  first-append p [] r e = refl
  first-append p (x ∷ xs) r e = ground (arith, first-append p xs r)

  pub first-append_old :
      (p : A → Bool) (rs : List A) (r x : A) → first p rs ≡ some x → first p (rs ++ r ∷ []) ≡ some x
  unfolding first
  first-append_old p [] r x e = cc
  first-append_old p (y ∷ ys) r x e = ground (arith, first-append_old p ys r x)

  pub first-any : (p : A → Bool) (rs : List A) → any p rs ≡ false → first p rs ≡ none
  unfolding first
  first-any p [] e = refl
  first-any p (r ∷ rs) e = ground (arith, first-any p rs)

  -- A row that is found is one that the test takes.
  pub first-test : (p : A → Bool) (rs : List A) (r : A) → first p rs ≡ some r → p r ≡ true
  unfolding first
  first-test p [] r e = cc
  first-test p (x ∷ xs) r e = ground (arith, first-test p xs r)

  pub changes_of_first :
      (p q : A → Bool) (rs : List A) (r : A)
      → first p rs ≡ some r
      → q r ≡ true
      → changes (λ x. p x && q x) rs ≢ 0
  unfolding first
  changes_of_first p q [] r e h = cc
  changes_of_first p q (x ∷ xs) r e h = ground (arith, changes_of_first p q xs r)

  -- What an UPDATE of the row with a key makes of the row, if the row meets the rest of the WHERE.
  pub first-update :
      (p q : A → Bool) (f : A → A) (rs : List A) (r : A)
      → ((x : A) → p (f x) ≡ p x)
      → first p rs ≡ some r
      → q r ≡ true
      → first p (map (update_row (λ x. p x && q x) f) rs) ≡ some (f r)
  unfolding first
  first-update p q f [] r h e t = cc
  first-update p q f (x ∷ xs) r h e t = ground (arith, h x, first-update p q f xs r h)

  pub first-any-none : (p : A → Bool) (rs : List A) → first p rs ≡ none → any p rs ≡ false
  unfolding first
  first-any-none p [] e = refl
  first-any-none p (r ∷ rs) e = ground (arith, first-any-none p rs)
