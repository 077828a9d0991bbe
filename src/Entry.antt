-- ===== src/Entry.antt =====
-- server/index.ts: what comes in from outside: the origins that are allowed, the check at the start of
-- the server and that of state-changing requests, and the upgrade of a socket.
pub mod Bearer
pub mod Admission
pub mod Crash
pub mod Tests
use Prim.Native.Char.{code}
use agent_web_mvp.Prelude.{
  ℕ, String, Bool, true, false, not, ◌&&◌, ◌||◌, List, [], ◌∷◌, Option, none, some, keep, any, map,
  if◌then◌else◌, ◌==◌, ◌<>◌, nat_eq, or_else, truthy,
}
use agent_web_mvp.Types.AuthDetect.{codes}
use agent_web_mvp.Session.Title.{trim}
use agent_web_mvp.Db.{Db, DeviceTokenRow, touch_device_token}
use agent_web_mvp.Pairing.{Crypto, verify_device_token}
use agent_web_mvp.Auth.{Auth, starts_with}
use agent_web_mvp.Auth.Cookies.{put_first, user_id_from_cookie}
use Bearer.{bearer_token}

-- s.split(',')
unfoldable pub split_commas : String → List String
split_commas String.[] = "" ∷ []
split_commas (String.◌∷◌ c s) =
    let rest = split_commas s in if nat_eq (code c) b',' then "" ∷ rest else put_first c rest

unfoldable pub allowed_origins : (configured : Option String) (public_url : String) → List String
unfolding split_commas trim ◌<>◌
allowed_origins configured public_url =
    keep (λ s. not (s == ""))
      (map trim (
        split_commas
          (or_else configured (public_url <> ",http://localhost:5173,http://127.0.0.1:5173"))))

unfoldable pub is_allowed_origin : (allowed : List String) → Option String → Bool
is_allowed_origin allowed origin = elim (truthy origin) [
  | none ↦ false
  | some o ↦ any (λ a. a == o) allowed
]

-- Is the server started? `allow_anon` is the variable ALLOW_ANON.
unfoldable pub starts :
    (enabled : Bool) (host public_url : String) (allow_anon : Option String) → Bool
unfolding codes
starts enabled host public_url allow_anon =
    let looks_public = host == "0.0.0.0" || starts_with (codes "https://") (codes public_url) in
    let refused = looks_public && not (or_else allow_anon "" == "1") in
    if enabled then true else not refused

-- The middleware before all routes: does the request pass?
unfoldable pub passes_origin_check :
    (allowed : List String) (method : String) (origin : Option String) → Bool
unfolding is_allowed_origin
passes_origin_check allowed method origin =
    if method == "GET" || method == "HEAD" || method == "OPTIONS"
    then true
    else elim (truthy origin) [ none ↦ true | some o ↦ is_allowed_origin allowed origin ]

pub record Request : Type 0 where
  pub url : Option String
  pub origin : Option String
  pub cookie : Option String
  pub authorization : Option String

-- What becomes of the socket. `thrown` is an exception that leaves the listener of `upgrade`.
pub data Outcome : Type 0 where
  browser : (user_id : String) → Outcome
  daemon : (user_id device_token_id : String) → Outcome
  rejected : (status : ℕ) → Outcome
  destroyed : Outcome
  thrown : Outcome

abbrev pub is_path : String → String → Bool
is_path path url = url == path || starts_with (codes (path <> "?")) (codes url)

unfoldable pub browser_outcome : Option (Option String) → Outcome
browser_outcome none = thrown
browser_outcome (some none) = rejected 401
browser_outcome (some (some user_id)) = if user_id == "" then rejected 401 else browser user_id

unfoldable pub upgrade_browser :
    (enabled : Bool) (allowed : List String) (decode : String → Option String)
    → Request
    → Auth
    → Outcome
unfolding browser_outcome
upgrade_browser enabled allowed decode req auth =
    if is_allowed_origin allowed req.origin
    then browser_outcome (user_id_from_cookie decode enabled req.cookie auth)
    else rejected 403

-- The row's columns are not null; an empty one would count as missing.
unfoldable pub daemon_outcome : (user_id device_token_id : String) → Outcome
daemon_outcome user_id device_token_id =
    if user_id == "" || device_token_id == "" then rejected 401 else daemon user_id device_token_id

unfoldable pub admit_row : (now : ℕ) → Option DeviceTokenRow → Db → Db × Outcome
unfolding daemon_outcome
admit_row now none db = (db, rejected 401)
admit_row now (some row) db = (touch_device_token now row.id db, daemon_outcome row.user_id row.id)

unfoldable pub upgrade_daemon : (enabled : Bool) → Crypto → (now : ℕ) → Request → Db → Db × Outcome
unfolding admit_row bearer_token
upgrade_daemon false crypto now req db = (db, daemon "anon" "anon-default")
upgrade_daemon true crypto now req db = elim (bearer_token (or_else req.authorization "")) [
  | none ↦ (db, rejected 401)
  | some token ↦ admit_row now (verify_device_token crypto token db) db
]

unfoldable pub upgrade :
    (enabled : Bool) (allowed : List String) (decode : String → Option String)
    → Crypto
    → (now : ℕ) → Request
    → Auth
    → Db
    → Db × Outcome
unfolding upgrade_browser upgrade_daemon codes ◌<>◌
upgrade enabled allowed decode crypto now req auth db =
    let url = or_else req.url "" in
    if is_path "/ws" url
    then (db, upgrade_browser enabled allowed decode req auth)
    else if is_path "/client" url
    then upgrade_daemon enabled crypto now req db
    else (db, destroyed)
