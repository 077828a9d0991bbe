-- ===== src/Pairing/Token.antt =====
-- server/pairing.ts: the parts of a bearer token "<id>.<secret>", by its first dot.
use Prim.Native.Char.{Char, code}
use Prim.Native.String.{String, [], ◌∷◌}
use mathlib.Core.Path.{◌≡◌}
use mathlib.Core.Logic.{◌≢◌}
use mathlib.Core.Option.{Option, none, some}
use native.Mathlib.Omega.{arith}
use text.Mathlib.TextLemmas.{nil-append, cons-append}
use agent_web_mvp.Prelude.{nat_eq, if◌then◌else◌, ◌<>◌}

abbrev pub put_front : Char → Option (String × String) → Option (String × String)
put_front c none = none
put_front c (some (a, b)) = some (c ∷ a, b)

-- indexOf('.'), and the two slices around it.
unfoldable pub split_dot : String → Option (String × String)
split_dot [] = none
split_dot (c ∷ s) =
    let rest = put_front c (split_dot s) in if nat_eq (code c) b'.' then some ([], s) else rest

abbrev pub NoDot : String → Type 0
NoDot [] = Unit {0}
NoDot (c ∷ s) = (code c ≢ b'.') × NoDot s

-- A token splits into the id and the secret that it was made of, if the id has no dot.
pub split_dot-join :
    (id secret : String) → NoDot id → split_dot (id <> "." <> secret) ≡ some (id, secret)
unfolding split_dot ◌<>◌
split_dot-join [] secret h = rw (nil-append, cons-append, nil-append)
split_dot-join (c ∷ id) secret (n, h) =
    simp (cons-append) (ground (arith, split_dot-join id secret h))
