-- ===== src/Entry/Crash.antt =====
-- server/index.ts and server/auth.ts: a cookie that cannot be decoded.
use Prim.Native.Char.{code}
use agent_web_mvp.Prelude.{
  ℕ, ◌≡◌, ◌≢◌, refl, ◌∙◌, ap, String, true, false, List, [], ◌∷◌, Option, none, some, ◌==◌, arith,
  eq_iff, Bool-cases, inl, inr,
}
use agent_web_mvp.Pairing.{Crypto}
use agent_web_mvp.Db.{Db}
use agent_web_mvp.Auth.{Auth}
use agent_web_mvp.Auth.Cookies.{parts, value_in, parse_cookie_value, user_id_from_cookie}
use agent_web_mvp.Entry.{
  Request, thrown, is_allowed_origin, browser_outcome, upgrade_browser, upgrade,
}

abbrev pub NoSemicolon : String → Type 0
NoSemicolon String.[] = Unit {0}
NoSemicolon (String.◌∷◌ c s) = (code c ≢ b';') × NoSemicolon s

one_part : (s : String) → NoSemicolon s → parts false s ≡ s ∷ []
unfolding parts
one_part String.[] h = refl
one_part (String.◌∷◌ c s) (n, h) = ground (arith, one_part s h)

-- The header `sid=<value>`.
abbrev pub sid_header : String → String
sid_header v = String.◌∷◌ "s" (String.◌∷◌ "i" (String.◌∷◌ "d" (String.◌∷◌ "=" v)))

header_part : (v : String) → NoSemicolon v → parts false (sid_header v) ≡ sid_header v ∷ []
header_part v h =
    one_part (sid_header v) (omega arith, (omega arith, (omega arith, (omega arith, h))))

header-ne-empty : (v : String) → (sid_header v == "") ≡ false
header-ne-empty v = elim (Bool-cases (sid_header v == "")) [
  | inl e ↦ let k : sid_header v ≡ "" = (eq_iff (sid_header v) "").0 e in cc
  | inr e ↦ e
]

header_value :
    (decode : String → Option String) (v : String)
    → NoSemicolon v
    → decode v ≡ none
    → parse_cookie_value decode (sid_header v) "sid" ≡ none
unfolding parse_cookie_value value_in
header_value decode v h e = ap (value_in decode "sid") (header_part v h) ∙ rw (e, value_in) refl

user_throws :
    (decode : String → Option String) (v : String) (auth : Auth)
    → NoSemicolon v
    → decode v ≡ none
    → user_id_from_cookie decode true (some (sid_header v)) auth ≡ none
unfolding user_id_from_cookie
user_throws decode v auth n e =
    rw (header-ne-empty v, user_id_from_cookie, header_value decode v n e) refl

-- With sign-in on, a request for /ws from an allowed origin, by anyone, whose cookie `sid` is a text that
-- decodeURIComponent cannot decode: the exception leaves the listener of `upgrade`, where nothing
-- catches it.
pub undecodable_cookie_throws :
    (allowed : List String) (decode : String → Option String) (crypto : Crypto) (now : ℕ)
    (v : String) (req : Request) (auth : Auth) (db : Db)
    → req.url ≡ some "/ws"
    → is_allowed_origin allowed req.origin ≡ true
    → req.cookie ≡ some (sid_header v)
    → NoSemicolon v
    → decode v ≡ none
    → upgrade true allowed decode crypto now req auth db ≡ (db, thrown)
unfolding upgrade upgrade_browser browser_outcome
undecodable_cookie_throws allowed decode crypto now v req auth db u a c n e =
    rw (u, a, c, user_throws decode v auth n e) refl
