-- ===== src/Db/Identity.antt =====
-- server/db.ts: the statements on users and browser_sessions.
use agent_web_mvp.Prelude.{
  ℕ, String, not, ◌||◌, List, [], ◌∷◌, ◌++◌, Option, none, some, any, keep, map, head?, nat_eq,
  if◌then◌else◌, ◌==◌,
}
use agent_web_mvp.Db.{update_row}

pub record UserRow : Type 0 where
  pub id : String
  pub github_id : ℕ
  pub github_login : String
  pub email : Option String
  pub name : Option String
  pub avatar_url : Option String
  pub created_at : ℕ

pub record BrowserSessionRow : Type 0 where
  pub id : String
  pub user_id : String
  pub created_at : ℕ
  pub last_seen_at : ℕ

pub record IdentityTables : Type 0 where
  pub users : List UserRow
  pub browser_sessions : List BrowserSessionRow

-- A user who signs in again keeps the id and the time of the first time.
unfoldable pub renewed : UserRow → UserRow → UserRow
renewed row old = record old {
  github_login = row.github_login;
  email = row.email;
  name = row.name;
  avatar_url = row.avatar_url;
}

abbrev pub of_github : ℕ → List UserRow → Option UserRow
of_github n rows = head? (keep (λ r. nat_eq r.github_id n) rows)

-- None, if a new user's id is taken. The row that is written is returned.
unfoldable pub upsert_user : UserRow → IdentityTables → Option (UserRow × IdentityTables)
unfolding renewed
upsert_user row db = elim (of_github row.github_id db.users) [
  | some old ↦ some (
    renewed row old,
    record db {
      users = map (update_row (λ r. nat_eq r.github_id row.github_id) (renewed row)) db.users;
    },
  )
  | none ↦
      if any (λ r. r.id == row.id) db.users
      then none
      else some (row, record db { users = db.users ++ row ∷ [] })
]

-- None, if the id is taken or the user is unknown.
unfoldable pub create_browser_session :
    (id user_id : String) (now : ℕ) → IdentityTables → Option IdentityTables
create_browser_session id user_id now db =
    let row : BrowserSessionRow = record {
      id = id;
      user_id = user_id;
      created_at = now;
      last_seen_at = now;
    } in
    if any (λ r. r.id == id) db.browser_sessions || not (any (λ u. u.id == user_id) db.users)
    then none
    else some (record db { browser_sessions = db.browser_sessions ++ row ∷ [] })

unfoldable pub find_user_id_by_session_id : String → IdentityTables → Option String
find_user_id_by_session_id id db =
    head? (map (λ r. r.user_id) (keep (λ r. r.id == id) db.browser_sessions))

unfoldable pub delete_browser_session : String → IdentityTables → IdentityTables
delete_browser_session id db = record db {
  browser_sessions = keep (λ r. not (r.id == id)) db.browser_sessions;
}

unfoldable pub find_user_by_id : String → IdentityTables → Option UserRow
find_user_by_id id db = head? (keep (λ r. r.id == id) db.users)

unfoldable pub touch_browser_session : (now : ℕ) → String → IdentityTables → IdentityTables
touch_browser_session now id db = record db {
  browser_sessions =
      map (update_row (λ r. r.id == id) (λ r. record r { last_seen_at = now })) db.browser_sessions;
}
