-- ===== src/Types/Schemas/Checks.antt =====
-- shared/types.ts: the checks of zod as functions, which shows that the parameter can be had.
use agent_web_mvp.Prelude.{
  ℕ, ◌≤◌, ◌≡◌, refl, ◌↔◌, String, Bool, ◌&&◌, List, Option, none, some, leb, length, arith,
  if◌then◌else◌, ap, ◌∙◌,
}
use agent_web_mvp.Prelude.JsMap.{get}
use agent_web_mvp.Types.Values.{
  Json, null, boolean, natural, other_number, string, array, object, Items, Fields,
}
use agent_web_mvp.Types.AuthDetect.{js_length}
use agent_web_mvp.Types.Schemas.{Zod, HasLength, each}

abbrev text_check : (min max : ℕ) → Json → Option String
text_check min max (string s) =
    if leb min (js_length s) && leb (js_length s) max then some s else none
text_check min max _ = none

abbrev boolean_check : Json → Option Bool
boolean_check (boolean b) = some b
boolean_check _ = none

abbrev int_check : (min : ℕ) → Json → Option ℕ
int_check min (natural n) = if leb min n then some n else none
int_check min _ = none

abbrev enum_check : (A : Type 0) → List (String × A) → Json → Option A
enum_check A names (string s) = get s names
enum_check A names _ = none

abbrev bounded : {A : Type 0} → ℕ → Option (List A) → Option (List A)
bounded max none = none
bounded max (some xs) = if leb (length xs) max then some xs else none

abbrev array_check : (A : Type 0) (max : ℕ) → (Json → Option A) → Json → Option (List A)
array_check A max check (array js) = bounded max (each check js)
array_check A max check _ = none

abbrev record_check : Json → Option Json
record_check (object fs) = some (object fs)
record_check _ = none

text_check_lem :
    (min max : ℕ) (j : Json) (s : String)
    → (text_check min max j ≡ some s) ↔ ((j ≡ string s) × HasLength min max s)
text_check_lem min max (string t) s = (λ h. ground arith, λ h. ground arith)
text_check_lem min max null s = (λ h. cc, λ h. cc)
text_check_lem min max (boolean b) s = (λ h. cc, λ h. cc)
text_check_lem min max (natural n) s = (λ h. cc, λ h. cc)
text_check_lem min max other_number s = (λ h. cc, λ h. cc)
text_check_lem min max (array js) s = (λ h. cc, λ h. cc)
text_check_lem min max (object fs) s = (λ h. cc, λ h. cc)

boolean_check_lem : (j : Json) (b : Bool) → (boolean_check j ≡ some b) ↔ (j ≡ boolean b)
boolean_check_lem (boolean c) b = (λ h. cc, λ h. cc)
boolean_check_lem null b = (λ h. cc, λ h. cc)
boolean_check_lem (string s) b = (λ h. cc, λ h. cc)
boolean_check_lem (natural n) b = (λ h. cc, λ h. cc)
boolean_check_lem other_number b = (λ h. cc, λ h. cc)
boolean_check_lem (array js) b = (λ h. cc, λ h. cc)
boolean_check_lem (object fs) b = (λ h. cc, λ h. cc)

int_check_lem :
    (min : ℕ) (j : Json) (n : ℕ) → (int_check min j ≡ some n) ↔ ((j ≡ natural n) × (min ≤ n))
int_check_lem min (natural m) n = (λ h. ground arith, λ h. ground arith)
int_check_lem min null n = (λ h. cc, λ h. cc)
int_check_lem min (boolean b) n = (λ h. cc, λ h. cc)
int_check_lem min (string s) n = (λ h. cc, λ h. cc)
int_check_lem min other_number n = (λ h. cc, λ h. cc)
int_check_lem min (array js) n = (λ h. cc, λ h. cc)
int_check_lem min (object fs) n = (λ h. cc, λ h. cc)

enum_check_lem :
    (A : Type 0) (names : List (String × A)) (j : Json) (a : A)
    → (enum_check A names j ≡ some a) ↔ ((s : String) × (j ≡ string s) × (get s names ≡ some a))
enum_check_lem A names (string t) a =
    (λ h. (t, refl, h), λ (s, e, h). ap (enum_check A names) e ∙ h)
enum_check_lem A names null a = (λ h. cc, λ (s, e, h). cc)
enum_check_lem A names (boolean b) a = (λ h. cc, λ (s, e, h). cc)
enum_check_lem A names (natural n) a = (λ h. cc, λ (s, e, h). cc)
enum_check_lem A names other_number a = (λ h. cc, λ (s, e, h). cc)
enum_check_lem A names (array js) a = (λ h. cc, λ (s, e, h). cc)
enum_check_lem A names (object fs) a = (λ h. cc, λ (s, e, h). cc)

pub bounded_lem :
    {A : Type 0} (max : ℕ) (o : Option (List A)) (xs : List A)
    → (bounded max o ≡ some xs) ↔ ((o ≡ some xs) × (length xs ≤ max))
bounded_lem max none xs = (λ h. cc, λ h. cc)
bounded_lem max (some ys) xs = (λ h. ground arith, λ h. ground arith)

array_check_lem :
    (A : Type 0) (max : ℕ) (check : Json → Option A) (j : Json) (xs : List A)
    → (array_check A max check j ≡ some xs)
      ↔ ((js : Items) × (j ≡ array js) × (each check js ≡ some xs) × (length xs ≤ max))
array_check_lem A max check (array js) xs = (
  λ h. let (e, l) = (bounded_lem max (each check js) xs).0 h in (js, refl, e, l),
  λ (ks, e, h, l). ap (array_check A max check) e ∙ (bounded_lem max (each check ks) xs).1 (h, l),
)
array_check_lem A max check null xs = (λ h. cc, λ (ks, e, h, l). cc)
array_check_lem A max check (boolean b) xs = (λ h. cc, λ (ks, e, h, l). cc)
array_check_lem A max check (natural n) xs = (λ h. cc, λ (ks, e, h, l). cc)
array_check_lem A max check other_number xs = (λ h. cc, λ (ks, e, h, l). cc)
array_check_lem A max check (string s) xs = (λ h. cc, λ (ks, e, h, l). cc)
array_check_lem A max check (object fs) xs = (λ h. cc, λ (ks, e, h, l). cc)

record_check_lem :
    (j v : Json) → (record_check j ≡ some v) ↔ ((v ≡ j) × ((fs : Fields) × (j ≡ object fs)))
record_check_lem (object fs) v = (λ h. (cc, (fs, refl)), λ (e, (gs, f)). cc)
record_check_lem null v = (λ h. cc, λ (e, (gs, f)). cc)
record_check_lem (boolean b) v = (λ h. cc, λ (e, (gs, f)). cc)
record_check_lem (natural n) v = (λ h. cc, λ (e, (gs, f)). cc)
record_check_lem other_number v = (λ h. cc, λ (e, (gs, f)). cc)
record_check_lem (string s) v = (λ h. cc, λ (e, (gs, f)). cc)
record_check_lem (array js) v = (λ h. cc, λ (e, (gs, f)). cc)

-- A key with z.unknown() may be missing; there is no `undefined` here, and null stands for it.
unknown_check : Option Json → Option Json
unknown_check none = some null
unknown_check (some j) = some j

unknown_check_lem : (j : Json) → unknown_check (some j) ≡ some j
unfolding unknown_check
unknown_check_lem j = refl

-- The parameter can be had.
unfoldable pub zod : Zod
unfolding unknown_check text_check_lem boolean_check_lem int_check_lem enum_check_lem
    array_check_lem record_check_lem unknown_check_lem
zod = record {
  string_of = text_check;
  string_of_iff = text_check_lem;
  boolean_of = boolean_check;
  boolean_of_iff = boolean_check_lem;
  int_of = int_check;
  int_of_iff = int_check_lem;
  enum_of = enum_check;
  enum_of_iff = enum_check_lem;
  array_of = array_check;
  array_of_iff = array_check_lem;
  record_of = record_check;
  record_of_iff = record_check_lem;
  unknown_of = unknown_check;
  unknown_of_lem = unknown_check_lem;
}
