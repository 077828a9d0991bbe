-- ===== src/Db.antt =====
-- server/db.ts: the rows of the tables and the prepared statements that the modelled code runs. A
-- table is the list of its rows. An UPDATE answers with the number of rows that it changed; an
-- INSERT that breaks the primary key throws, and is `none`.
pub mod Pairs
pub mod Sessions
pub mod Identity
use agent_web_mvp.Prelude.{
  ℕ, String, Bool, true, false, ◌&&◌, ◌||◌, List, [], ◌∷◌, ◌++◌, map, Option, none, some, ltb,
  if◌then◌else◌, ◌==◌, keep, any, length,
}
use agent_web_mvp.Types.{ChatMessage, Role}
use agent_web_mvp.Types.Values.{Json}

pub data PairStatus : Type 0 where
  pending approved claimed denied expired : PairStatus

pub record PairingCodeRow : Type 0 where
  pub code : String
  pub status : PairStatus
  pub user_id : Option String
  pub device_token : Option String
  pub device_name : Option String
  pub created_at : ℕ
  pub expires_at : ℕ

pub record DeviceTokenRow : Type 0 where
  pub id : String
  pub secret_hash : String
  pub user_id : String
  pub display_name : Option String
  pub created_at : ℕ
  pub last_seen_at : Option ℕ

pub record Db : Type 0 where
  pub pairing_codes : List PairingCodeRow
  pub device_tokens : List DeviceTokenRow

module _ {ℓ} {A : Type ℓ} where
  -- SELECT … WHERE, for a key.
  unfoldable pub first : (A → Bool) → List A → Option A
  first p [] = none
  first p (r ∷ rs) = if p r then some r else first p rs

  -- What an UPDATE … SET … WHERE makes of a row.
  abbrev pub update_row : (A → Bool) → (A → A) → A → A
  update_row p f r = if p r then f r else r

  abbrev pub changes : (A → Bool) → List A → ℕ
  changes p rs = length (keep p rs)

-- WHERE status = …
abbrev pub is_pending : PairStatus → Bool
is_pending pending = true
is_pending _ = false

abbrev pub is_approved : PairStatus → Bool
is_approved approved = true
is_approved _ = false

unfoldable pub insert_pairing_code :
    String
    → PairStatus
    → (device_name : Option String) → (created_at expires_at : ℕ) → Db
    → Option Db
insert_pairing_code code status device_name created_at expires_at db =
    if any (λ r. r.code == code) db.pairing_codes
    then none
    else some (record db {
      pairing_codes =
          db.pairing_codes
          ++ record {
            code = code;
            status = status;
            user_id = none;
            device_token = none;
            device_name = device_name;
            created_at = created_at;
            expires_at = expires_at;
          }
            ∷ [];
    })

unfoldable pub find_pairing_code : String → Db → Option PairingCodeRow
find_pairing_code code db = first (λ r. r.code == code) db.pairing_codes

unfoldable pub approve_pairing_code : (user_id token code : String) → Db → Db × ℕ
approve_pairing_code user_id token code db = (
  record db {
    pairing_codes =
        map
          (update_row (λ r. r.code == code && is_pending r.status)
            (λ r. record r {
              status = approved;
              user_id = some user_id;
              device_token = some token;
            }))
          db.pairing_codes;
  },
  changes (λ r. r.code == code && is_pending r.status) db.pairing_codes,
)

unfoldable pub claim_pairing_code : String → Db → Db × ℕ
claim_pairing_code code db = (
  record db {
    pairing_codes =
        map
          (update_row (λ r. r.code == code && is_approved r.status)
            (λ r. record r { status = claimed; device_token = none }))
          db.pairing_codes;
  },
  changes (λ r. r.code == code && is_approved r.status) db.pairing_codes,
)

unfoldable pub expire_row : ℕ → PairingCodeRow → PairingCodeRow
expire_row now =
    update_row (λ r. (is_pending r.status || is_approved r.status) && ltb r.expires_at now)
      (λ r. record r { status = expired; device_token = none })

unfoldable pub expire_old_pairing_codes : ℕ → Db → Db
expire_old_pairing_codes now db = record db {
  pairing_codes = map (expire_row now) db.pairing_codes;
}

unfoldable pub insert_device_token :
    (id secret_hash user_id : String)
    → (display_name : Option String) → (created_at : ℕ) → Db
    → Option Db
insert_device_token id secret_hash user_id display_name created_at db =
    if any (λ r. r.id == id) db.device_tokens
    then none
    else some (record db {
      device_tokens =
          db.device_tokens
          ++ record {
            id = id;
            secret_hash = secret_hash;
            user_id = user_id;
            display_name = display_name;
            created_at = created_at;
            last_seen_at = none;
          }
            ∷ [];
    })

unfoldable pub find_device_token_by_id : String → Db → Option DeviceTokenRow
find_device_token_by_id id db = first (λ r. r.id == id) db.device_tokens

-- SELECT display_name FROM device_tokens WHERE id = ?
unfoldable pub find_device_label_by_id : String → Db → Option (Option String)
unfolding find_device_token_by_id
find_device_label_by_id id db = elim (find_device_token_by_id id db) [
  | none ↦ none
  | some row ↦ some row.display_name
]

unfoldable pub touch_device_token : ℕ → String → Db → Db
touch_device_token now id db = record db {
  device_tokens =
      map (update_row (λ r. r.id == id) (λ r. record r { last_seen_at = some now }))
        db.device_tokens;
}

unfoldable pub delete_device_token_for_user : (id user_id : String) → Db → Db × ℕ
delete_device_token_for_user id user_id db = (
  record db {
    device_tokens =
        keep (λ r. if r.id == id && r.user_id == user_id then false else true) db.device_tokens;
  },
  changes (λ r. r.id == id && r.user_id == user_id) db.device_tokens,
)
