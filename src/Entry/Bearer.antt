-- ===== src/Entry/Bearer.antt =====
-- server/index.ts: /^Bearer\s+(.+)$/i on the header `authorization`, which holds no line breaks.
use Prim.Native.Char.{Char, code}
use agent_web_mvp.Prelude.{
  ℕ, String, List, [], ◌∷◌, Option, none, some, if◌then◌else◌, nat_eq, ◌>>=◌,
}
use agent_web_mvp.Types.AuthDetect.{codes, fold_case, is_space}

-- The rest of a text behind a word in lower case.
unfoldable pub strip_word : List ℕ → String → Option String
unfolding fold_case
strip_word [] s = some s
strip_word (c ∷ w) String.[] = none
strip_word (c ∷ w) (String.◌∷◌ d s) =
    let rest = strip_word w s in if nat_eq c (fold_case (code d)) then rest else none

-- `\s+` takes all the blanks and gives the last one back if nothing else is left for `.+`; the first
-- one it keeps.
unfoldable pub group : (spare : Option Char) → String → Option String
unfolding is_space
group spare String.[] = spare >>= λ c. some (String.◌∷◌ c String.[])
group spare (String.◌∷◌ c s) =
    let more = group (some c) s in if is_space (code c) then more else some (String.◌∷◌ c s)

unfoldable pub after_word : String → Option String
unfolding is_space group
after_word String.[] = none
after_word (String.◌∷◌ c s) = let rest = group none s in if is_space (code c) then rest else none

unfoldable pub bearer_token : String → Option String
unfolding strip_word after_word codes
bearer_token header = strip_word (codes "bearer") header >>= after_word
