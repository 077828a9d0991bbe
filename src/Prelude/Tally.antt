-- ===== src/Prelude/Tally.antt =====
-- Distinct texts, which stand for the values of randomUUID in the examples.
use Prim.Native.Char.{code}
use Prim.Native.Nat.{ℕ, zero, suc, ◌+◌}
use Prim.Native.String.{String, [], ◌∷◌}
use mathlib.Core.Path.{◌≡◌, refl, ap, ap₂, ◌∙◌}
use mathlib.Core.List.{List}
use agent_web_mvp.Prelude.Tests.{nat_eq, if◌then◌else◌}
use native.Mathlib.Omega.{arith}

abbrev pub tally : ℕ → String
tally zero = ""
tally (suc n) = "a" ∷ tally n

pub tally-inj : (i j : ℕ) → tally i ≡ tally j → i ≡ j
tally-inj zero zero e = refl
tally-inj zero (suc j) e = cc
tally-inj (suc i) zero e = cc
tally-inj (suc i) (suc j) e = ground (arith, tally-inj i j)

-- A number before a text, in ones, and the numbers back: a stand-in for the hex encoding.
abbrev pub ones : ℕ → String → String
ones zero s = "b" ∷ s
ones (suc n) s = "a" ∷ ones n s

abbrev pub unary : List ℕ → String
unary List.[] = ""
unary (List.◌∷◌ n ns) = ones n (unary ns)

abbrev pub counted : ℕ → String → List ℕ
counted k [] = List.[]
counted k (c ∷ s) =
    let more = counted (suc k) s in
    let next = List.◌∷◌ k (counted 0 s) in if nat_eq (code c) b'a' then more else next

counted-ones : (k n : ℕ) (s : String) → counted k (ones n s) ≡ List.◌∷◌ (k + n) (counted 0 s)
counted-ones k zero s = ap (λ j. List.◌∷◌ j (counted 0 s)) (omega arith)
counted-ones k (suc n) s =
    counted-ones (suc k) n s ∙ ap (λ j. List.◌∷◌ j (counted 0 s)) (omega arith)

pub counted-unary : (ns : List ℕ) → counted 0 (unary ns) ≡ ns
counted-unary List.[] = refl
counted-unary (List.◌∷◌ n ns) =
    counted-ones 0 n (unary ns) ∙ ap₂ (λ j js. List.◌∷◌ j js) (omega arith) (counted-unary ns)

-- The codes of a text, as its digest.
abbrev pub points : String → List ℕ
points [] = List.[]
points (c ∷ s) = List.◌∷◌ (code c) (points s)
