-- ===== src/Prelude/JsMap/Distinct.antt =====
-- The keys of a map are distinct, and its size follows from that.
use Prim.Native.Nat.{suc, ◌+◌}
use Prim.Native.String.{String}
use mathlib.Core.Path.{◌≡◌, refl}
use mathlib.Core.List.{[], ◌∷◌}
use mathlib.Core.Option.{none, some}
use native.Mathlib.Omega.{arith}
use text.Mathlib.TextEquality.{eq_iff}
use agent_web_mvp.Prelude.Lists.{length}
use agent_web_mvp.Prelude.JsMap.{JsMap, get, set, remove, get-set, get-remove, remove_absent}

module _ {ℓ} {V : Type ℓ} where
  abbrev pub IsMap : JsMap V → Type ℓ
  IsMap [] = Unit
  IsMap ((k, v) ∷ m) = (get k m ≡ none) × IsMap m

  pub IsMap-set : (k : String) (v : V) (m : JsMap V) → IsMap m → IsMap (set k v m)
  unfolding set get
  IsMap-set k v [] h = (refl, tt)
  IsMap-set k v ((i, w) ∷ m) (e, h) =
      ground (arith, eq_iff i k, eq_iff k i, get-set k i v m, IsMap-set k v m h)

  pub IsMap-remove : (k : String) (m : JsMap V) → IsMap m → IsMap (remove k m)
  unfolding remove
  IsMap-remove k [] h = tt
  IsMap-remove k ((i, w) ∷ m) (e, h) = ground (arith, get-remove k i m, IsMap-remove k m h)

  pub length-set_absent :
      (k : String) (v : V) (m : JsMap V) → get k m ≡ none → length (set k v m) ≡ suc (length m)
  unfolding get set
  length-set_absent k v [] e = refl
  length-set_absent k v ((i, w) ∷ m) e = ground (arith, length-set_absent k v m)

  pub length-remove :
      (k : String) (v : V) (m : JsMap V)
      → IsMap m
      → get k m ≡ some v
      → length (remove k m) + 1 ≡ length m
  unfolding get remove
  length-remove k v [] h e = cc
  length-remove k v ((i, w) ∷ m) (g, h) e =
      ground (arith, eq_iff i k, remove_absent k m, length-remove k v m h)
