-- ===== src/Pairing/Stages.antt =====
-- server/pairing.ts: what each request of a pairing leaves in the tables.
use agent_web_mvp.Prelude.{
  ℕ, ◌+◌, ◌*◌, ◌≤◌, ◌≡◌, ◌≢◌, refl, ap, ◌∙◌, String, true, false, List, [], ◌∷◌, Option, none, some,
  arith, ◌==◌, eq_refl, nat_eq,
}
use agent_web_mvp.Db.{
  pending, approved, claimed, PairingCodeRow, DeviceTokenRow, Db, first, is_pending, is_approved,
  find_pairing_code, insert_pairing_code, approve_pairing_code, claim_pairing_code, expire_row,
  expire_old_pairing_codes, insert_device_token, find_device_token_by_id,
}
use agent_web_mvp.Db.Pairs.{
  on_row, first-map, first-append, changes_of_first, first-update, first-any-none,
}
use agent_web_mvp.Pairing.{
  Crypto, TokenDraw, token_of, Response, status_is, handed_out, ok, committed, pair_init,
  status_of_row, pair_status, approve_row, pair_approve, same_bytes, check_secret,
  verify_device_token,
}
use agent_web_mvp.Pairing.Token.{NoDot, split_dot-join}

pub find-expire :
    (now : ℕ) (code : String) (db : Db)
    → find_pairing_code code (expire_old_pairing_codes now db)
      ≡ on_row (expire_row now) (find_pairing_code code db)
unfolding find_pairing_code expire_old_pairing_codes expire_row
find-expire now code db =
    first-map (λ r. r.code == code) (expire_row now) db.pairing_codes (λ r. ground arith)

unexpired : (now : ℕ) (row : PairingCodeRow) → now ≤ row.expires_at → expire_row now row ≡ row
unfolding expire_row
unexpired now row h = ground arith

-- A row that has not run out is found after the sweep as before.
find-sweep :
    (now : ℕ) (code : String) (db : Db) (row : PairingCodeRow)
    → find_pairing_code code db ≡ some row
    → now ≤ row.expires_at
    → find_pairing_code code (expire_old_pairing_codes now db) ≡ some row
find-sweep now code db row e h =
    find-expire now code db ∙ ap (on_row (expire_row now)) e ∙ ap some (unexpired now row h)

abbrev pub approved_row : (user token : String) → PairingCodeRow → PairingCodeRow
approved_row user token r = record r {
  status = approved;
  user_id = some user;
  device_token = some token;
}

abbrev pub claimed_row : PairingCodeRow → PairingCodeRow
claimed_row r = record r { status = claimed; device_token = none }

find-approve :
    (user token code : String) (db : Db) (row : PairingCodeRow)
    → find_pairing_code code db ≡ some row
    → is_pending row.status ≡ true
    → (find_pairing_code code (approve_pairing_code user token code db).0
        ≡ some (approved_row user token row))
      × ((approve_pairing_code user token code db).1 ≢ 0)
unfolding find_pairing_code approve_pairing_code
find-approve user token code db row e p = (
  first-update (λ r. r.code == code) (λ r. is_pending r.status) (approved_row user token)
      db.pairing_codes row (λ r. refl) e p,
  changes_of_first (λ r. r.code == code) (λ r. is_pending r.status) db.pairing_codes row e p,
)

find-claim :
    (code : String) (db : Db) (row : PairingCodeRow)
    → find_pairing_code code db ≡ some row
    → is_approved row.status ≡ true
    → (find_pairing_code code (claim_pairing_code code db).0 ≡ some (claimed_row row))
      × ((claim_pairing_code code db).1 ≢ 0)
unfolding find_pairing_code claim_pairing_code
find-claim code db row e p = (
  first-update (λ r. r.code == code) (λ r. is_approved r.status) claimed_row db.pairing_codes row
      (λ r. refl) e p,
  changes_of_first (λ r. r.code == code) (λ r. is_approved r.status) db.pairing_codes row e p,
)

abbrev pub new_row : (code : String) (name : Option String) (now : ℕ) → PairingCodeRow
new_row code name now = record {
  code = code;
  status = pending;
  user_id = none;
  device_token = none;
  device_name = name;
  created_at = now;
  expires_at = now + 10 * 60 * 1000;
}

pub after_init :
    (code : String) (name : Option String) (now : ℕ) (db : Db)
    → find_pairing_code code db ≡ none
    → (find_pairing_code code (pair_init code name now db).0 ≡ some (new_row code name now))
      × ((pair_init code name now db).0.device_tokens ≡ db.device_tokens)
unfolding find_pairing_code pair_init insert_pairing_code
after_init code name now db e =
    rw (first-any-none (λ r. r.code == code) db.pairing_codes e)
      (first-append (λ r. r.code == code) db.pairing_codes _ e ∙ rw (eq_refl code) refl, refl)

after_claim :
    (code : String) (db : Db) (row : PairingCodeRow)
    → find_pairing_code code db ≡ some row
    → is_approved row.status ≡ true
    → ((status_of_row code db (some row)).1 ≡ handed_out row.device_token row.device_name)
      × (find_pairing_code code (status_of_row code db (some row)).0 ≡ some (claimed_row row))
      × ((status_of_row code db (some row)).0.device_tokens ≡ db.device_tokens)
unfolding status_of_row claim_pairing_code
after_claim code db row e a = ground (arith, find-claim code db row e a)

pub after_poll :
    (code : String) (now : ℕ) (db : Db) (row : PairingCodeRow)
    → (code == "") ≡ false
    → find_pairing_code code db ≡ some row
    → is_approved row.status ≡ true
    → now ≤ row.expires_at
    → ((pair_status code now db).1 ≡ handed_out row.device_token row.device_name)
      × (find_pairing_code code (pair_status code now db).0 ≡ some (claimed_row row))
      × ((pair_status code now db).0.device_tokens ≡ db.device_tokens)
unfolding pair_status expire_old_pairing_codes
after_poll code now db row c e a h =
    rw (c, find-sweep now code db row e h)
      (after_claim code (expire_old_pairing_codes now db) row (find-sweep now code db row e h) a)

abbrev pub token_row :
    Crypto → (user : String) → TokenDraw → (name : Option String) → (now : ℕ) → DeviceTokenRow
token_row crypto user d name now = record {
  id = d.id;
  secret_hash = crypto.hex (crypto.sha256 d.secret);
  user_id = user;
  display_name = name;
  created_at = now;
  last_seen_at = none;
}

-- What stands in the tables after the approval of a row.
abbrev IsApproved :
    Crypto → (user code : String) → TokenDraw → (now : ℕ) → PairingCodeRow → Db × Response → Type 0
IsApproved crypto user code d now row out =
    (out.1 ≡ ok)
    × (find_pairing_code code out.0 ≡ some (approved_row user (token_of d) row))
    × (find_device_token_by_id d.id out.0 ≡ some (token_row crypto user d row.device_name now))

after_insert :
    (crypto : Crypto) (user code : String) (d : TokenDraw) (now : ℕ) (db : Db)
    (row : PairingCodeRow)
    → find_pairing_code code db ≡ some (approved_row user (token_of d) row)
    → find_device_token_by_id d.id db ≡ none
    → IsApproved crypto user code d now row (
        committed db
          (insert_device_token d.id
            (crypto.hex (crypto.sha256 d.secret))
            user
            row.device_name
            now
            db)
          ok)
unfolding insert_device_token find_device_token_by_id find_pairing_code
after_insert crypto user code d now db row e f =
    rw (first-any-none (λ r. r.id == d.id) db.device_tokens f)
      (refl, e, first-append (λ r. r.id == d.id) db.device_tokens _ f ∙ rw (eq_refl d.id) refl)

nat_eq-false : (n : ℕ) → n ≢ 0 → nat_eq n 0 ≡ false
nat_eq-false n h = ground arith

find-after_approve :
    (id user token code : String) (db : Db)
    → find_device_token_by_id id (approve_pairing_code user token code db).0
      ≡ find_device_token_by_id id db
unfolding find_device_token_by_id approve_pairing_code
find-after_approve id user token code db = refl

find-after_expire :
    (id : String) (now : ℕ) (db : Db)
    → find_device_token_by_id id (expire_old_pairing_codes now db) ≡ find_device_token_by_id id db
unfolding find_device_token_by_id expire_old_pairing_codes
find-after_expire id now db = refl

after_approve_row :
    (crypto : Crypto) (user code : String) (d : TokenDraw) (now : ℕ) (db : Db)
    (row : PairingCodeRow)
    → find_pairing_code code db ≡ some row
    → is_pending row.status ≡ true
    → find_device_token_by_id d.id db ≡ none
    → IsApproved crypto user code d now row (approve_row crypto user code d now db (some row))
unfolding approve_row
after_approve_row crypto user code d now db row e p f =
    let (found_row, changed) = find-approve user (token_of d) code db row e p in
    rw (p, nat_eq-false _ changed)
      (after_insert crypto user code d now (approve_pairing_code user (token_of d) code db).0 row
        found_row (find-after_approve d.id user (token_of d) code db ∙ f))

pub after_approve :
    (crypto : Crypto) (user code : String) (d : TokenDraw) (now : ℕ) (db : Db)
    (row : PairingCodeRow)
    → (code == "") ≡ false
    → find_pairing_code code db ≡ some row
    → is_pending row.status ≡ true
    → now ≤ row.expires_at
    → find_device_token_by_id d.id db ≡ none
    → IsApproved crypto user code d now row (pair_approve crypto (some user) code d now db)
unfolding pair_approve
after_approve crypto user code d now db row c e p h f =
    rw (c, find-sweep now code db row e h)
      (after_approve_row crypto user code d now (expire_old_pairing_codes now db) row
        (find-sweep now code db row e h) p (find-after_expire d.id now db ∙ f))

same_bytes_refl : (xs : List ℕ) → same_bytes xs xs ≡ true
same_bytes_refl [] = refl
same_bytes_refl (x ∷ xs) = ground (arith, same_bytes_refl xs)

-- The token that was made of a draw is the one that its row accepts.
pub after_check :
    (crypto : Crypto) (user : String) (d : TokenDraw) (name : Option String) (now : ℕ) (db : Db)
    → ((b : List ℕ) → crypto.from_hex (crypto.hex b) ≡ b)
    → NoDot d.id
    → (d.id == "") ≡ false
    → (d.secret == "") ≡ false
    → find_device_token_by_id d.id db ≡ some (token_row crypto user d name now)
    → verify_device_token crypto (token_of d) db ≡ some (token_row crypto user d name now)
unfolding verify_device_token check_secret
after_check crypto user d name now db law dot i s e =
    rw
      (
        verify_device_token,
        split_dot-join d.id d.secret dot,
        i,
        s,
        e,
        check_secret,
        law (crypto.sha256 d.secret),
      )
      (ground (arith, same_bytes_refl (crypto.sha256 d.secret)))

pub find-tokens :
    (id : String) (a b : Db)
    → a.device_tokens ≡ b.device_tokens
    → find_device_token_by_id id a ≡ find_device_token_by_id id b
unfolding find_device_token_by_id
find-tokens id a b e = ap (first (λ r. r.id == id)) e

claimed-swept :
    (code : String) (now : ℕ) (db : Db) (row : PairingCodeRow)
    → find_pairing_code code db ≡ some (claimed_row row)
    → find_pairing_code code (expire_old_pairing_codes now db) ≡ some (claimed_row row)
unfolding expire_row
claimed-swept code now db row e = find-expire now code db ∙ ap (on_row (expire_row now)) e

pub after_claimed :
    (code : String) (now : ℕ) (db : Db) (row : PairingCodeRow)
    → (code == "") ≡ false
    → find_pairing_code code db ≡ some (claimed_row row)
    → (pair_status code now db).1 ≡ status_is claimed
unfolding pair_status status_of_row
after_claimed code now db row c e = rw (c, claimed-swept code now db row e) refl
