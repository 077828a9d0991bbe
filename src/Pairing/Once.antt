-- ===== src/Pairing/Once.antt =====
-- server/pairing.ts: how often the token of a pairing code is handed out.
use agent_web_mvp.Prelude.{
  ℕ, ◌+◌, ◌≤◌, ◌≡◌, refl, sym, String, true, ◌&&◌, List, [], ◌∷◌, ◌++◌, map, Option, none, some,
  arith, if◌then◌else◌, ◌==◌, eq_iff, any, Bool-cases, inl, inr,
}
use agent_web_mvp.Db.{
  claimed, PairingCodeRow, Db, first, update_row, is_pending, is_approved, find_pairing_code,
  insert_pairing_code, approve_pairing_code, claim_pairing_code, expire_row,
  expire_old_pairing_codes, insert_device_token,
}
use agent_web_mvp.Pairing.{
  Crypto, TokenDraw, token_of, Response, handed_out, pair_init, status_of_row, pair_status,
  approve_row, pair_approve, pair_lookup, Request, init, poll, approve, look, serve,
}

-- 1 if the request got the token of this code.
abbrev pub hands : String → Request → Response → ℕ
hands code (poll c now) (handed_out token name) = if c == code then 1 else 0
hands code _ _ = 0

unfoldable pub hand_outs : Crypto → String → List Request → Db → ℕ
hand_outs crypto code [] db = 0
hand_outs crypto code (q ∷ qs) db =
    hands code q (serve crypto q db).1 + hand_outs crypto code qs (serve crypto q db).0

-- The hand-outs that a code has left.
abbrev pub left : Option PairingCodeRow → ℕ
left none = 1
left (some r) = if is_pending r.status then 1 else if is_approved r.status then 1 else 0

abbrev pub left_in : String → Db → ℕ
left_in code db = left (first (λ r. r.code == code) db.pairing_codes)

left_le : (o : Option PairingCodeRow) → left o ≤ 1
left_le none = omega arith
left_le (some r) = ground arith

left-map :
    (code : String) (f : PairingCodeRow → PairingCodeRow) (rs : List PairingCodeRow)
    → ((r : PairingCodeRow) → (f r).code ≡ r.code)
    → ((r : PairingCodeRow) → left (some (f r)) ≤ left (some r))
    → left (first (λ r. r.code == code) (map f rs)) ≤ left (first (λ r. r.code == code) rs)
unfolding first
left-map code f [] h g = omega arith
left-map code f (r ∷ rs) h g = rw h (elim (Bool-cases (r.code == code)) [
  | inl e ↦ rw e (g r)
  | inr e ↦ rw e (left-map code f rs h g)
])

expire-left :
    (now : ℕ) (code : String) (db : Db)
    → left_in code (expire_old_pairing_codes now db) ≤ left_in code db
unfolding expire_old_pairing_codes expire_row
expire-left now code db =
    left-map code (expire_row now) db.pairing_codes (λ r. ground arith) (λ r. ground arith)

claim-left :
    (c code : String) (db : Db) → left_in code (claim_pairing_code c db).0 ≤ left_in code db
unfolding claim_pairing_code
claim-left c code db = left-map code _ db.pairing_codes (λ r. ground arith) (λ r. ground arith)

approve-left :
    (user token c code : String) (db : Db)
    → left_in code (approve_pairing_code user token c db).0 ≤ left_in code db
unfolding approve_pairing_code
approve-left user token c code db =
    left-map code _ db.pairing_codes (λ r. ground arith) (λ r. ground arith)

left-append :
    (code : String) (rs : List PairingCodeRow) (x : PairingCodeRow)
    → left (first (λ r. r.code == code) (rs ++ x ∷ [])) ≤ left (first (λ r. r.code == code) rs)
unfolding first
left-append code [] x = ground arith
left-append code (r ∷ rs) x = ground (arith, left-append code rs x)

init-left :
    (c : String) (name : Option String) (now : ℕ) (code : String) (db : Db)
    → left_in code (pair_init c name now db).0 ≤ left_in code db
unfolding pair_init insert_pairing_code
init-left c name now code db = elim (Bool-cases (any (λ r. r.code == c) db.pairing_codes)) [
  | inl e ↦ rw e (omega arith)
  | inr e ↦ rw e (left-append code db.pairing_codes _)
]

approve_row-left :
    (crypto : Crypto) (user c : String) (d : TokenDraw) (now : ℕ) (code : String) (db : Db)
    (o : Option PairingCodeRow)
    → left_in code (approve_row crypto user c d now db o).0 ≤ left_in code db
unfolding approve_row insert_device_token
approve_row-left crypto user c d now code db none = omega arith
approve_row-left crypto user c d now code db (some row) =
    ground (arith, approve-left user (token_of d) c code db)

-- After the claim nothing is left of the code.
claim-spends :
    (code : String) (rs : List PairingCodeRow) (row : PairingCodeRow)
    → first (λ r. r.code == code) rs ≡ some row
    → is_approved row.status ≡ true
    → 1
        + left (
            first
              (λ r. r.code == code)
              (map
                (update_row
                  (λ r. r.code == code && is_approved r.status)
                  (λ r. record r { status = claimed; device_token = none }))
                rs))
      ≤ left (first (λ r. r.code == code) rs)
unfolding first
claim-spends code [] row e a = cc
claim-spends code (r ∷ rs) row e a = ground (arith, claim-spends code rs row)

claim_left :
    (c : String) (now : ℕ) (code : String) (db : Db) (row : PairingCodeRow)
    → find_pairing_code c db ≡ some row
    → is_approved row.status ≡ true
    → (if c == code then 1 else 0) + left_in code (claim_pairing_code c db).0 ≤ left_in code db
unfolding find_pairing_code claim_pairing_code
claim_left c now code db row e a = elim (Bool-cases (c == code)) [
  | inl h ↦ rw (h, sym ((eq_iff c code).0 h)) (claim-spends c db.pairing_codes row e a)
  | inr h ↦ rw h (omega (arith, claim-left c code db))
]

poll-left :
    (c : String) (now : ℕ) (code : String) (db : Db) (o : Option PairingCodeRow)
    → find_pairing_code c db ≡ o
    → hands code (poll c now) (status_of_row c db o).1 + left_in code (status_of_row c db o).0
      ≤ left_in code db
unfolding status_of_row
poll-left c now code db none e = omega arith
poll-left c now code db (some row) e =
    ground (arith, claim_left c now code db row, claim-left c code db)

serve-left :
    (crypto : Crypto) (q : Request) (code : String) (db : Db)
    → hands code q (serve crypto q db).1 + left_in code (serve crypto q db).0 ≤ left_in code db
unfolding serve pair_status pair_approve pair_lookup
serve-left crypto (init c name now) code db = omega (arith, init-left c name now code db)
serve-left crypto (poll c now) code db =
    let swept = expire_old_pairing_codes now db in
    ground
      (arith, poll-left c now code swept (find_pairing_code c swept) refl, expire-left now code db)
serve-left crypto (approve none c d now) code db = omega arith
serve-left crypto (approve (some user) c d now) code db =
    let swept = expire_old_pairing_codes now db in
    ground (
      arith,
      approve_row-left crypto user c d now code swept (find_pairing_code c swept),
      expire-left now code db,
    )
serve-left crypto (look none c now) code db = omega arith
serve-left crypto (look (some user) c now) code db = ground (arith, expire-left now code db)

hand_outs-left :
    (crypto : Crypto) (code : String) (qs : List Request) (db : Db)
    → hand_outs crypto code qs db ≤ left_in code db
unfolding hand_outs
hand_outs-left crypto code [] db = omega arith
hand_outs-left crypto code (q ∷ qs) db =
    omega (arith, serve-left crypto q code db, hand_outs-left crypto code qs (serve crypto q db).0)

-- Whatever list of requests is served, from whatever tables, at most one poll of a pairing code is
-- answered with a device token.
pub handed_out_once :
    (crypto : Crypto) (code : String) (qs : List Request) (db : Db)
    → hand_outs crypto code qs db ≤ 1
handed_out_once crypto code qs db = ground (
  arith,
  hand_outs-left crypto code qs db,
  left_le (first (λ r. r.code == code) db.pairing_codes),
)
