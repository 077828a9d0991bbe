-- ===== src/Pairing/Secret.antt =====
-- server/pairing.ts: where the plaintext of a device token stands in the database.
use agent_web_mvp.Prelude.{
  ℕ, ◌≡◌, ◌⊎◌, refl, String, true, List, [], ◌∷◌, map, Option, none, some, arith, ◌==◌, any, All,
  All-append, Bool-cases, inl, inr,
}
use agent_web_mvp.Db.{
  PairingCodeRow, Db, is_approved, find_pairing_code, insert_pairing_code, approve_pairing_code,
  claim_pairing_code, expire_row, expire_old_pairing_codes, insert_device_token,
}
use agent_web_mvp.Pairing.{
  Crypto, TokenDraw, token_of, pair_init, status_of_row, pair_status, approve_row, pair_approve,
  pair_lookup, Request, init, poll, approve, look, serve, serve_all,
}

-- A row has a token only while it is approved.
abbrev pub KeepsSecret : PairingCodeRow → Type 0
KeepsSecret r = (is_approved r.status ≡ true) ⊎ (r.device_token ≡ none)

abbrev pub IsTight : Db → Type 0
IsTight db = All KeepsSecret db.pairing_codes

All-map :
    (f : PairingCodeRow → PairingCodeRow) (rs : List PairingCodeRow)
    → ((r : PairingCodeRow) → KeepsSecret r → KeepsSecret (f r))
    → All KeepsSecret rs
    → All KeepsSecret (map f rs)
All-map f [] h a = tt
All-map f (r ∷ rs) h (k, a) = (h r k, All-map f rs h a)

expire-IsTight : (now : ℕ) (db : Db) → IsTight db → IsTight (expire_old_pairing_codes now db)
unfolding expire_old_pairing_codes expire_row
expire-IsTight now db = All-map (expire_row now) db.pairing_codes (λ r k. ground arith)

claim-IsTight : (code : String) (db : Db) → IsTight db → IsTight (claim_pairing_code code db).0
unfolding claim_pairing_code
claim-IsTight code db = All-map _ db.pairing_codes (λ r k. ground arith)

approve-IsTight :
    (user token code : String) (db : Db)
    → IsTight db
    → IsTight (approve_pairing_code user token code db).0
unfolding approve_pairing_code
approve-IsTight user token code db = All-map _ db.pairing_codes (λ r k. ground arith)

init-IsTight :
    (code : String) (name : Option String) (now : ℕ) (db : Db)
    → IsTight db
    → IsTight (pair_init code name now db).0
unfolding pair_init insert_pairing_code
init-IsTight code name now db t = elim (Bool-cases (any (λ r. r.code == code) db.pairing_codes)) [
  | inl c ↦ rw c t
  | inr c ↦ rw c (All-append KeepsSecret db.pairing_codes _ t (inr refl, tt))
]

status_of_row-IsTight :
    (code : String) (db : Db) (o : Option PairingCodeRow)
    → IsTight db
    → IsTight (status_of_row code db o).0
unfolding status_of_row
status_of_row-IsTight code db none t = t
status_of_row-IsTight code db (some row) t = ground (arith, claim-IsTight code db t)

approve_row-IsTight :
    (crypto : Crypto) (user code : String) (d : TokenDraw) (now : ℕ) (db : Db)
    (o : Option PairingCodeRow)
    → IsTight db
    → IsTight (approve_row crypto user code d now db o).0
unfolding approve_row insert_device_token
approve_row-IsTight crypto user code d now db none t = t
approve_row-IsTight crypto user code d now db (some row) t =
    ground (arith, approve-IsTight user (token_of d) code db t)

serve-IsTight :
    (crypto : Crypto) (q : Request) (db : Db) → IsTight db → IsTight (serve crypto q db).0
unfolding serve pair_status pair_approve pair_lookup
serve-IsTight crypto (init code name now) db t = init-IsTight code name now db t
serve-IsTight crypto (poll code now) db t = ground (
  arith,
  status_of_row-IsTight code (expire_old_pairing_codes now db)
      (find_pairing_code code (expire_old_pairing_codes now db)) (expire-IsTight now db t),
)
serve-IsTight crypto (approve none code d now) db t = t
serve-IsTight crypto (approve (some user) code d now) db t = ground (
  arith,
  approve_row-IsTight crypto user code d now (expire_old_pairing_codes now db)
      (find_pairing_code code (expire_old_pairing_codes now db)) (expire-IsTight now db t),
)
serve-IsTight crypto (look none code now) db t = t
serve-IsTight crypto (look (some user) code now) db t = ground (arith, expire-IsTight now db t)

-- Whatever requests are served, the plaintext of a device token stands in the pairing_codes table
-- only in a row whose status is `approved`: no row that is pending, claimed, denied or expired has one.
pub serve_all-IsTight :
    (crypto : Crypto) (qs : List Request) (db : Db) → IsTight db → IsTight (serve_all crypto qs db)
unfolding serve_all
serve_all-IsTight crypto [] db t = t
serve_all-IsTight crypto (q ∷ qs) db t =
    serve_all-IsTight crypto qs (serve crypto q db).0 (serve-IsTight crypto q db t)
