-- ===== src/Pairing/Refusals.antt =====
-- server/pairing.ts: the pairings and the tokens that are refused.
use agent_web_mvp.Prelude.{
  ℕ, ◌<◌, ◌≡◌, refl, ap, ◌∙◌, String, true, false, ◌||◌, List, [], ◌∷◌, Option, none, some, arith,
  if◌then◌else◌, ◌==◌,
}
use agent_web_mvp.Db.{
  expired, PairingCodeRow, DeviceTokenRow, Db, is_pending, find_pairing_code, expire_row,
  expire_old_pairing_codes, find_device_token_by_id,
}
use agent_web_mvp.Db.Pairs.{on_row, first-test}
use agent_web_mvp.Pairing.{
  Crypto, TokenDraw, status_is, code_is, status_of_row, pair_status, approve_row, pair_approve,
  same_bytes, check_secret, verify_device_token,
}
use agent_web_mvp.Pairing.Token.{split_dot}
use agent_web_mvp.Pairing.Stages.{find-expire}

-- A presented token, cut at its first dot, is the row's: its first part is the row's key, and the digest of its
-- second part is the one stored.
abbrev pub IsTokenOf : Crypto → Db → DeviceTokenRow → Option (String × String) → Type 0
IsTokenOf crypto db row none = ⊥
IsTokenOf crypto db row (some (id, secret)) =
    (find_device_token_by_id id db ≡ some row)
    × ((row.id == id) ≡ true)
    × (crypto.sha256 secret ≡ crypto.from_hex row.secret_hash)

same_cons : (x y : ℕ) (xs ys : List ℕ) → x ≡ y → xs ≡ ys → Path (List ℕ) (x ∷ xs) (y ∷ ys)
same_cons x y xs ys e f = rw (e, f) refl

same_bytes_eq : (xs ys : List ℕ) → same_bytes xs ys ≡ true → xs ≡ ys
same_bytes_eq [] [] h = refl
same_bytes_eq [] (y ∷ ys) h = cc
same_bytes_eq (x ∷ xs) [] h = cc
same_bytes_eq (x ∷ xs) (y ∷ ys) h = ground (arith, same_bytes_eq xs ys, same_cons x y xs ys)

check_sound :
    (crypto : Crypto) (id secret : String) (db : Db) (row : DeviceTokenRow)
    (o : Option DeviceTokenRow)
    → find_device_token_by_id id db ≡ o
    → check_secret crypto secret o ≡ some row
    → IsTokenOf crypto db row (some (id, secret))
unfolding check_secret find_device_token_by_id
check_sound crypto id secret db row none e h = cc
check_sound crypto id secret db row (some r) e h = ground (
  arith,
  same_bytes_eq (crypto.sha256 secret) (crypto.from_hex r.secret_hash),
  first-test (λ r. r.id == id) db.device_tokens r e,
)

cut_sound :
    (crypto : Crypto) (db : Db) (row : DeviceTokenRow) (cut : Option (String × String))
    → (elim cut [
      | none ↦ none
      | some (id, secret) ↦
          if id == "" || secret == ""
          then none
          else check_secret crypto secret (find_device_token_by_id id db)
    ])
      ≡ some row
    → IsTokenOf crypto db row cut
cut_sound crypto db row none h = cc
cut_sound crypto db row (some (id, secret)) h =
    ground (arith, check_sound crypto id secret db row (find_device_token_by_id id db) refl)

-- A token is accepted as a device only if, cut at its first dot, it names that device's row and its second
-- part has the digest that the row stores.
pub verify_sound :
    (crypto : Crypto) (presented : String) (db : Db) (row : DeviceTokenRow)
    → verify_device_token crypto presented db ≡ some row
    → IsTokenOf crypto db row (split_dot presented)
unfolding verify_device_token
verify_sound crypto presented db row = cut_sound crypto db row (split_dot presented)

late :
    (now : ℕ) (row : PairingCodeRow)
    → is_pending row.status ≡ true
    → row.expires_at < now
    → expire_row now row ≡ record row { status = expired; device_token = none }
unfolding expire_row
late now row p h = ground arith

find-late :
    (now : ℕ) (code : String) (db : Db) (row : PairingCodeRow)
    → find_pairing_code code db ≡ some row
    → is_pending row.status ≡ true
    → row.expires_at < now
    → find_pairing_code code (expire_old_pairing_codes now db)
      ≡ some (record row { status = expired; device_token = none })
find-late now code db row e p h =
    find-expire now code db ∙ ap (on_row (expire_row now)) e ∙ ap some (late now row p h)

abbrev expired_row : PairingCodeRow → PairingCodeRow
expired_row r = record r { status = expired; device_token = none }

expired-swept :
    (code : String) (now : ℕ) (db : Db) (row : PairingCodeRow)
    → find_pairing_code code db ≡ some (expired_row row)
    → find_pairing_code code (expire_old_pairing_codes now db) ≡ some (expired_row row)
unfolding expire_row
expired-swept code now db row e = find-expire now code db ∙ ap (on_row (expire_row now)) e

poll_expired :
    (code : String) (now : ℕ) (db : Db) (row : PairingCodeRow)
    → (code == "") ≡ false
    → find_pairing_code code db ≡ some (expired_row row)
    → (pair_status code now db).1 ≡ status_is expired
unfolding pair_status status_of_row
poll_expired code now db row c e = rw (c, expired-swept code now db row e) refl

sweep-tokens :
    (now : ℕ) (db : Db) → (expire_old_pairing_codes now db).device_tokens ≡ db.device_tokens
unfolding expire_old_pairing_codes
sweep-tokens now db = refl

-- A pending code that has run out is not approved: the answer is a conflict that names the status
-- `expired`, no device token is stored, and a daemon that polls the code afterwards, at any time, is
-- told `expired`.
late_approval_refused :
    (crypto : Crypto) (user code : String) (d : TokenDraw) (now later : ℕ) (db : Db)
    (row : PairingCodeRow)
    → (code == "") ≡ false
    → find_pairing_code code db ≡ some row
    → is_pending row.status ≡ true
    → row.expires_at < now
    → let out = pair_approve crypto (some user) code d now db in
      (out.1 ≡ code_is expired)
      × (out.0.device_tokens ≡ db.device_tokens)
      × ((pair_status code later out.0).1 ≡ status_is expired)
unfolding pair_approve approve_row
late_approval_refused crypto user code d now later db row c e p h =
    rw (c, find-late now code db row e p h)
      (
        refl,
        sweep-tokens now db,
        poll_expired code later (expire_old_pairing_codes now db) row c
            (find-late now code db row e p h),
      )
