-- ===== src/Auth/Cookies.antt =====
-- server/auth.ts: the cookie of the sign-in, as the upgrade reads it from the header and as express has
-- parsed it, and who a request's user is. decodeURIComponent is a parameter: it has no value where
-- it throws a URIError.
use Prim.Native.Char.{Char, code}
use agent_web_mvp.Prelude.{
  ℕ, String, Bool, true, false, ◌&&◌, List, [], ◌∷◌, Option, none, some, if◌then◌else◌, ◌==◌,
  nat_eq, truthy, ◌>>=◌,
}
use agent_web_mvp.Types.AuthDetect.{is_space}
use agent_web_mvp.Pairing.Token.{put_front}
use agent_web_mvp.Db.Identity.{
  UserRow, find_user_id_by_session_id, find_user_by_id, touch_browser_session,
}
use agent_web_mvp.Auth.{Auth, user_of_sid}

abbrev pub put_first : Char → List String → List String
put_first c [] = []
put_first c (p ∷ ps) = String.◌∷◌ c p ∷ ps

-- header.split(/;\s*/): `skipping` is whether what stands before was a semicolon and blanks.
unfoldable pub parts : (skipping : Bool) → String → List String
unfolding is_space
parts skipping String.[] = "" ∷ []
parts skipping (String.◌∷◌ c s) =
    let behind = parts true s in
    let within = parts false s in
    if skipping && is_space (code c)
    then behind
    else if nat_eq (code c) b';'
    then "" ∷ behind
    else put_first c within

-- indexOf('='), and the two slices around it.
unfoldable pub split_equals : String → Option (String × String)
split_equals String.[] = none
split_equals (String.◌∷◌ c s) =
    let rest = put_front c (split_equals s) in if nat_eq (code c) b'=' then some ("", s) else rest

module _ (decode : String → Option String) where
  -- None, where the decoding throws.
  abbrev pub decoded : String → Option (Option String)
  decoded v = decode v >>= λ d. some (some d)

  unfoldable pub value_in : (name : String) → List String → Option (Option String)
  value_in name [] = some none
  value_in name (p ∷ ps) =
      let rest = value_in name ps in
      elim (split_equals p) [ none ↦ rest | some (k, v) ↦ if k == name then decoded v else rest ]

  unfoldable pub parse_cookie_value : (header name : String) → Option (Option String)
  unfolding parts value_in split_equals
  parse_cookie_value header name = value_in name (parts false header)

  unfoldable pub user_id_from_cookie :
      (enabled : Bool) (header : Option String) → Auth → Option (Option String)
  user_id_from_cookie false header auth = some (some "anon")
  user_id_from_cookie true header auth = elim (truthy header) [
    | none ↦ some none
    | some h ↦ parse_cookie_value h "sid" >>= λ sid. some (user_of_sid sid auth)
  ]

abbrev pub anon_user : UserRow
anon_user = record {
  id = "anon";
  github_id = 0;
  github_login = "anonymous";
  email = none;
  name = some "Anonymous (dev)";
  avatar_url = none;
  created_at = 0;
}

-- `sid` is what cookie-parser has found. A user who is found has the session's row touched.
unfoldable pub load_user :
    (enabled : Bool) (now : ℕ) (sid : Option String) → Auth → Auth × Option UserRow
load_user false now sid auth = (auth, some anon_user)
load_user true now sid auth = elim (truthy sid) [
  | none ↦ (auth, none)
  | some s ↦ elim (find_user_id_by_session_id s auth.tables) [
    | none ↦ (auth, none)
    | some user_id ↦ elim (find_user_by_id user_id auth.tables) [
      | none ↦ (auth, none)
      | some user ↦ (record auth { tables = touch_browser_session now s auth.tables }, some user)
    ]
  ]
]

pub data Me : Type 0 where
  nobody : (auth_enabled : Bool) → Me
  somebody : (auth_enabled : Bool) (id login : String) (name email avatar_url : Option String) → Me

unfoldable pub who_am_i : (enabled : Bool) → Option UserRow → Me
who_am_i enabled none = nobody enabled
who_am_i enabled (some u) = somebody enabled u.id u.github_login u.name u.email u.avatar_url
