-- ===== src/Types/AuthDetect.antt =====
-- shared/types.ts: detectAuthRequired, with the part of JavaScript's regular expressions that it
-- uses: characters without regard to case, `\s+`, `\s*`, one optional character, and alternatives.
use Prim.Native.Char.{code}
use agent_web_mvp.Prelude.{
  ℕ, zero, suc, ◌+◌, String, Bool, true, false, ◌&&◌, ◌||◌, List, [], ◌∷◌, Option, none, some, any,
  leb, ltb, nat_eq, if◌then◌else◌, ◌==◌, ◌<>◌,
}
use agent_web_mvp.Types.{AgentKind, claude, codex}

-- The code points of a text.
unfoldable pub codes : String → List ℕ
codes String.[] = []
codes (String.◌∷◌ c s) = code c ∷ codes s

-- `/i` on the ASCII letters, which are all that the patterns hold. (Of the two characters beyond
-- ASCII that fold to one, /i without /u takes neither.)
unfoldable pub fold_case : ℕ → ℕ
fold_case c = if leb b'A' c && leb c b'Z' then c + 32 else c

-- `\s`: the ASCII blanks, U+00A0, U+FEFF and the separators of Unicode.
unfoldable pub is_space : ℕ → Bool
is_space c =
    nat_eq c 32
    || (leb 9 c && leb c 13)
    || any (nat_eq c) (0xa0 ∷ 0xfeff ∷ 0x1680 ∷ 0x2028 ∷ 0x2029 ∷ 0x202f ∷ 0x205f ∷ 0x3000 ∷ [])
    || (leb 0x2000 c && leb c 0x200a)

pub data Item : Type 0 where
  word : String → Item
  spaces : Item
  blanks : Item
  optional : ℕ → Item

-- The rests of a text behind a leading word.
strip : List ℕ → List ℕ → Option (List ℕ)
strip [] s = some s
strip (c ∷ w) [] = none
strip (c ∷ w) (d ∷ s) = let rest = strip w s in if nat_eq c (fold_case d) then rest else none

-- Every way to take blanks, the shortest first.
unfoldable pub skip_blanks : List ℕ → List (List ℕ)
unfolding is_space
skip_blanks [] = [] ∷ []
skip_blanks (c ∷ s) = let more = skip_blanks s in (c ∷ s) ∷ (if is_space c then more else [])

skip_spaces : List ℕ → List (List ℕ)
unfolding is_space
skip_spaces [] = []
skip_spaces (c ∷ s) = if is_space c then skip_blanks s else []

-- Does the pattern match at the start of the text?
unfoldable pub matches : List Item → List ℕ → Bool
unfolding strip fold_case codes skip_blanks skip_spaces
matches [] s = true
matches (word w ∷ p) s = elim (strip (codes w) s) [ none ↦ false | some rest ↦ matches p rest ]
matches (spaces ∷ p) s = any (matches p) (skip_spaces s)
matches (blanks ∷ p) s = any (matches p) (skip_blanks s)
matches (optional c ∷ p) [] = matches p []
matches (optional c ∷ p) (d ∷ s) = (nat_eq c (fold_case d) && matches p s) || matches p (d ∷ s)

-- `RegExp.test`: at some place of the text.
unfoldable pub test : List Item → List ℕ → Bool
unfolding matches
test p [] = matches p []
test p (c ∷ s) = matches p (c ∷ s) || test p s

abbrev claude_patterns : List (List Item)
claude_patterns =
    (word "not" ∷ spaces ∷ word "logged" ∷ spaces ∷ word "in" ∷ [])
    ∷ (word "please" ∷ spaces ∷ word "run" ∷ spaces ∷ optional b'/' ∷ word "login" ∷ [])
    ∷ (word "please"
        ∷ spaces
        ∷ word "run"
        ∷ spaces
        ∷ word "claude"
        ∷ spaces
        ∷ optional b'/'
        ∷ word "login"
        ∷ [])
    ∷ (word "invalid" ∷ spaces ∷ word "api" ∷ spaces ∷ word "key" ∷ [])
    ∷ (word "authentication" ∷ spaces ∷ word "failed" ∷ [])
    ∷ []

-- The alternatives of a group are written out, one pattern for each.
abbrev codex_patterns : List (List Item)
codex_patterns =
    (word "please" ∷ spaces ∷ word "sign" ∷ blanks ∷ word "in" ∷ [])
    ∷ (word "please" ∷ spaces ∷ word "log" ∷ blanks ∷ word "in" ∷ [])
    ∷ (word "run" ∷ spaces ∷ word "codex" ∷ spaces ∷ word "login" ∷ [])
    ∷ (word "not" ∷ spaces ∷ word "authenticated" ∷ [])
    ∷ (word "not" ∷ spaces ∷ word "signed" ∷ spaces ∷ word "in" ∷ [])
    ∷ (word "not" ∷ spaces ∷ word "logged" ∷ spaces ∷ word "in" ∷ [])
    ∷ (word "no" ∷ spaces ∷ word "openai" ∷ spaces ∷ word "api" ∷ spaces ∷ word "key" ∷ [])
    ∷ (word "missing" ∷ spaces ∷ word "openai_api_key" ∷ [])
    ∷ []

-- `text.length`: a code point beyond the first plane counts twice.
unfoldable pub js_length : String → ℕ
js_length String.[] = 0
js_length (String.◌∷◌ c s) = (if ltb (code c) 0x10000 then 1 else 2) + js_length s

-- `text.slice(0, n)`. A character that the cut would halve is left out whole.
unfoldable pub slice_to : ℕ → String → String
slice_to n String.[] = String.[]
slice_to zero (String.◌∷◌ c s) = String.[]
slice_to (suc zero) (String.◌∷◌ c s) =
    if ltb (code c) 0x10000 then String.◌∷◌ c String.[] else String.[]
slice_to (suc (suc n)) (String.◌∷◌ c s) =
    let narrow = slice_to (suc n) s in
    let wide = slice_to n s in String.◌∷◌ c (if ltb (code c) 0x10000 then narrow else wide)

pub record AuthHit : Type 0 where
  pub agent : AgentKind
  pub fix_command : String
  pub raw_error : String

unfoldable pub raw_error_of : String → String
unfolding js_length slice_to ◌<>◌
raw_error_of text = if ltb 1000 (js_length text) then slice_to 1000 text <> "…" else text

unfoldable pub detect_auth_required : String → AgentKind → Option AuthHit
unfolding test raw_error_of
detect_auth_required text claude =
    if text == ""
    then none
    else if any (λ p. test p (codes text)) claude_patterns
    then some
        (record { agent = claude; fix_command = "claude /login"; raw_error = raw_error_of text })
    else none
detect_auth_required text codex =
    if text == ""
    then none
    else if any (λ p. test p (codes text)) codex_patterns
    then some (record { agent = codex; fix_command = "codex login"; raw_error = raw_error_of text })
    else none
