-- ===== src/Prelude/JsMap.antt =====
-- A JavaScript `Map` with text keys: its entries in the order of insertion, each key at most once.
-- `set` on a key that is present keeps the entry's place.
pub mod Distinct
use Prim.Native.String.{String}
use mathlib.Core.Path.{◌≡◌, refl}
use mathlib.Core.List.{List, [], ◌∷◌, map}
use mathlib.Core.Option.{Option, none, some}
use native.Mathlib.Omega.{arith}
use text.Mathlib.Text.{◌==◌}
use text.Mathlib.TextEquality.{eq_iff}
use text.Mathlib.TextPositions.{eq_refl}
use agent_web_mvp.Prelude.Tests.{if◌then◌else◌}
use agent_web_mvp.Prelude.Lists.{All}

abbrev pub JsMap {ℓ} : Type ℓ → Type ℓ
JsMap V = List (String × V)

module _ {ℓ} {V : Type ℓ} where
  unfoldable pub get : String → JsMap V → Option V
  get k [] = none
  get k ((j, v) ∷ m) = if j == k then some v else get k m

  unfoldable pub set : String → V → JsMap V → JsMap V
  set k v [] = (k, v) ∷ []
  set k v ((j, w) ∷ m) = if j == k then (k, v) ∷ m else (j, w) ∷ set k v m

  unfoldable pub remove : String → JsMap V → JsMap V
  remove k [] = []
  remove k ((j, v) ∷ m) = if j == k then remove k m else (j, v) ∷ remove k m

  abbrev pub values : JsMap V → List V
  values = map (λ e. e.1)

  abbrev pub keys : JsMap V → List String
  keys = map (λ e. e.0)

  pub get-set :
      (k j : String) (v : V) (m : JsMap V)
      → get j (set k v m) ≡ (if k == j then some v else get j m)
  unfolding get set
  get-set k j v [] = refl
  get-set k j v ((i, w) ∷ m) = ground (arith, eq_iff k j, eq_iff i k, eq_iff i j, get-set k j v m)

  pub get-set_self : (k : String) (v : V) (m : JsMap V) → get k (set k v m) ≡ some v
  get-set_self k v m = simp (get-set, eq_refl)

  pub get-remove :
      (k j : String) (m : JsMap V) → get j (remove k m) ≡ (if k == j then none else get j m)
  unfolding get remove
  get-remove k j [] = ground arith
  get-remove k j ((i, w) ∷ m) = ground (arith, eq_iff k j, eq_iff i k, eq_iff i j, get-remove k j m)

  pub get-remove_self : (k : String) (m : JsMap V) → get k (remove k m) ≡ none
  get-remove_self k m = simp (get-remove, eq_refl)

  pub remove_absent : (k : String) (m : JsMap V) → get k m ≡ none → remove k m ≡ m
  unfolding get remove
  remove_absent k [] h = refl
  remove_absent k ((i, w) ∷ m) h = ground (arith, remove_absent k m)

  -- A write replaces the entry that is there, so a read and a write of the same value change nothing.
  pub set-get : (k : String) (v : V) (m : JsMap V) → get k m ≡ some v → set k v m ≡ m
  unfolding get set
  set-get k v [] h = cc
  set-get k v ((i, w) ∷ m) h = ground (arith, eq_iff i k, set-get k v m)

-- What holds of every entry.
module _ {ℓ κ} {V : Type ℓ} (P : String × V → Type κ) where
  pub All-set : (k : String) (v : V) (m : JsMap V) → All P m → P (k, v) → All P (set k v m)
  unfolding set
  All-set k v [] h p = (p, tt)
  All-set k v ((i, w) ∷ m) h p = ground (arith, All-set k v m h.1 p)

  pub All-remove : (k : String) (m : JsMap V) → All P m → All P (remove k m)
  unfolding remove
  All-remove k [] h = tt
  All-remove k ((i, w) ∷ m) h = ground (arith, All-remove k m h.1)

  pub All-get : (k : String) (v : V) (m : JsMap V) → All P m → get k m ≡ some v → P (k, v)
  unfolding get
  All-get k v [] h e = cc
  All-get k v ((i, w) ∷ m) h e = ground (arith, eq_iff i k, All-get k v m h.1)
