-- ===== src/Pairing.antt =====
-- server/pairing.ts: the handlers of the pairing of a daemon, and the check of its bearer token. What
-- node:crypto gives is a parameter: the random values are arguments of the handlers, and sha256 and
-- the hex encoding are operations of `Crypto`. An answer is its status and what its body holds. A
-- statement that throws is answered by express with 500.
pub mod Token
pub mod Secret
pub mod Once
pub mod Stages
pub mod Flow
pub mod Refusals
pub mod Tests
use agent_web_mvp.Prelude.{
  ℕ, ◌+◌, ◌*◌, String, Bool, true, false, ◌&&◌, ◌||◌, List, [], ◌∷◌, Option, none, some,
  if◌then◌else◌, ◌==◌, ◌<>◌, nat_eq, length, is_some,
}
use agent_web_mvp.Db.{
  PairStatus, pending, approved, PairingCodeRow, DeviceTokenRow, Db, is_pending, is_approved,
  insert_pairing_code, find_pairing_code, approve_pairing_code, claim_pairing_code,
  expire_old_pairing_codes, insert_device_token, find_device_token_by_id,
}
use Token.{split_dot}

abbrev pub pair_ttl_ms : ℕ
pair_ttl_ms = 10 * 60 * 1000

-- sha256 of a text; a digest in hex, and back.
pub record Crypto : Type 0 where
  pub sha256 : String → List ℕ
  pub hex : List ℕ → String
  pub from_hex : String → List ℕ

abbrev pub same_bytes : List ℕ → List ℕ → Bool
same_bytes [] [] = true
same_bytes (a ∷ xs) (b ∷ ys) = nat_eq a b && same_bytes xs ys
same_bytes _ _ = false

unfoldable pub check_secret : Crypto → String → Option DeviceTokenRow → Option DeviceTokenRow
check_secret crypto secret none = none
check_secret crypto secret (some row) =
    if nat_eq (length (crypto.sha256 secret)) (length (crypto.from_hex row.secret_hash))
      && same_bytes (crypto.sha256 secret) (crypto.from_hex row.secret_hash)
    then some row
    else none

unfoldable pub verify_device_token : Crypto → String → Db → Option DeviceTokenRow
verify_device_token crypto presented db = elim (split_dot presented) [
  | none ↦ none
  | some (id, secret) ↦
      if id == "" || secret == ""
      then none
      else check_secret crypto secret (find_device_token_by_id id db)
]

-- The two random values of newDeviceToken, in hex.
pub record TokenDraw : Type 0 where
  pub id : String
  pub secret : String

abbrev pub token_of : TokenDraw → String
token_of t = t.id <> "." <> t.secret

pub data Response : Type 0 where
  -- 200
  initiated : (code : String) (poll_interval expires_in : ℕ) → Response
  status_is : PairStatus → Response
  already_claimed : Response
  handed_out : (token display_name : Option String) → Response
  ok : Response
  found : (code : String) → PairStatus → (device_name : Option String) → Response
  -- 400, 401, 404, 409 (twice), 500
  missing_code : Response
  auth_required : Response
  unknown_code : Response
  code_is : PairStatus → Response
  no_longer_pending : Response
  internal_error : Response

abbrev pub committed : Db → Option Db → Response → Db × Response
committed db none answer = (db, internal_error)
committed db (some db') answer = (db', answer)

unfoldable pub pair_init :
    (code : String) → (display_name : Option String) → (now : ℕ) → Db → Db × Response
pair_init code display_name now db =
    committed db (insert_pairing_code code pending display_name now (now + pair_ttl_ms) db)
      (initiated code 2 600)

-- pairStatus behind the lookup of the row.
unfoldable pub status_of_row : String → Db → Option PairingCodeRow → Db × Response
status_of_row code db none = (db, unknown_code)
status_of_row code db (some row) =
    if is_approved row.status
    then (let (db', changed) = claim_pairing_code code db in
        if nat_eq changed 0
        then (db', already_claimed)
        else (db', handed_out row.device_token row.device_name))
    else (db, status_is row.status)

unfoldable pub pair_status : (code : String) → (now : ℕ) → Db → Db × Response
unfolding status_of_row
pair_status code now db =
    if code == ""
    then (db, missing_code)
    else (let swept = expire_old_pairing_codes now db in
        status_of_row code swept (find_pairing_code code swept))

unfoldable pub approve_row :
    Crypto
    → (user_id code : String) → TokenDraw
    → (now : ℕ) → Db
    → Option PairingCodeRow
    → Db × Response
approve_row crypto user_id code t now db none = (db, unknown_code)
approve_row crypto user_id code t now db (some row) =
    if is_pending row.status
    then (let (db', changed) = approve_pairing_code user_id (token_of t) code db in
        if nat_eq changed 0
        then (db', no_longer_pending)
        else committed db'
            (insert_device_token t.id (crypto.hex (crypto.sha256 t.secret)) user_id row.device_name
              now db')
            ok)
    else (db, code_is row.status)

-- `user` is `req.user`.
unfoldable pub pair_approve :
    Crypto → (user : Option String) → (code : String) → TokenDraw → (now : ℕ) → Db → Db × Response
unfolding approve_row
pair_approve crypto none code t now db = (db, auth_required)
pair_approve crypto (some user_id) code t now db =
    if code == ""
    then (db, missing_code)
    else (let swept = expire_old_pairing_codes now db in
        approve_row crypto user_id code t now swept (find_pairing_code code swept))

unfoldable pub lookup_row : Option PairingCodeRow → Response
lookup_row none = unknown_code
lookup_row (some row) = found row.code row.status row.device_name

unfoldable pub pair_lookup :
    (user : Option String) → (code : String) → (now : ℕ) → Db → Db × Response
unfolding lookup_row
pair_lookup none code now db = (db, auth_required)
pair_lookup (some user_id) code now db =
    if code == ""
    then (db, missing_code)
    else (let swept = expire_old_pairing_codes now db in
        (swept, lookup_row (find_pairing_code code swept)))

-- The requests that reach these handlers.
pub data Request : Type 0 where
  init : (code : String) (display_name : Option String) (now : ℕ) → Request
  poll : (code : String) (now : ℕ) → Request
  approve : (user : Option String) (code : String) → TokenDraw → (now : ℕ) → Request
  look : (user : Option String) (code : String) (now : ℕ) → Request

unfoldable pub serve : Crypto → Request → Db → Db × Response
serve crypto (init code display_name now) db = pair_init code display_name now db
serve crypto (poll code now) db = pair_status code now db
serve crypto (approve user code t now) db = pair_approve crypto user code t now db
serve crypto (look user code now) db = pair_lookup user code now db

unfoldable pub serve_all : Crypto → List Request → Db → Db
serve_all crypto [] db = db
serve_all crypto (q ∷ qs) db = serve_all crypto qs (serve crypto q db).0
