-- ===== src/Db/Sessions.antt =====
-- server/db.ts: the statements on agent_sessions and agent_messages.
use agent_web_mvp.Prelude.{
  ℕ, String, Bool, true, false, not, ◌||◌, List, [], ◌∷◌, ◌++◌, Option, none, some, any, keep, map,
  ltb, leb, nat_eq, if◌then◌else◌, ◌==◌,
}
use agent_web_mvp.Types.{AgentKind, Role}
use agent_web_mvp.Types.AuthDetect.{codes}
use agent_web_mvp.Db.{update_row}

pub record AgentSessionRow : Type 0 where
  pub id : String
  pub user_id : String
  pub agent : AgentKind
  pub cwd : String
  pub title : String
  pub resume_token : Option String
  pub preferred_device_id : Option String
  pub model : Option String
  pub created_at : ℕ

-- The meta of a message is kept as the text of its JSON, or NULL.
pub record AgentMessageRow : Type 0 where
  pub id : String
  pub session_id : String
  pub role : Role
  pub text : String
  pub meta : Option String
  pub ts : ℕ

pub record SessionTables : Type 0 where
  pub users : List String
  pub agent_sessions : List AgentSessionRow
  pub agent_messages : List AgentMessageRow

-- ORDER BY: rows that the order does not tell apart stay as they are in the table.
abbrev pub insert_by {ℓ} : {A : Type ℓ} → (A → A → Bool) → A → List A → List A
insert_by le x [] = x ∷ []
insert_by le x (y ∷ ys) = if le x y then x ∷ y ∷ ys else y ∷ insert_by le x ys

abbrev pub sort_by {ℓ} : {A : Type ℓ} → (A → A → Bool) → List A → List A
sort_by le [] = []
sort_by le (x ∷ xs) = insert_by le x (sort_by le xs)

-- The order of texts in the database, by their bytes, which is that of the code points.
abbrev pub codes_le : List ℕ → List ℕ → Bool
codes_le [] ys = true
codes_le (x ∷ xs) [] = false
codes_le (x ∷ xs) (y ∷ ys) = let rest = codes_le xs ys in if nat_eq x y then rest else ltb x y

unfoldable pub text_le : String → String → Bool
unfolding codes
text_le a b = codes_le (codes a) (codes b)

unfoldable pub message_le : AgentMessageRow → AgentMessageRow → Bool
unfolding text_le
message_le a b = if nat_eq a.ts b.ts then text_le a.id b.id else ltb a.ts b.ts

-- None, if the id is taken or the user is unknown.
unfoldable pub insert_agent_session : AgentSessionRow → SessionTables → Option SessionTables
insert_agent_session row db =
    if any (λ r. r.id == row.id) db.agent_sessions || not (any (λ u. u == row.user_id) db.users)
    then none
    else some (record db { agent_sessions = db.agent_sessions ++ row ∷ [] })

unfoldable pub update_agent_session_resume_token :
    Option String → String → SessionTables → SessionTables
update_agent_session_resume_token token id db = record db {
  agent_sessions =
      map (update_row (λ r. r.id == id) (λ r. record r { resume_token = token })) db.agent_sessions;
}

-- The messages go with the session (ON DELETE CASCADE).
unfoldable pub delete_agent_session : String → SessionTables → SessionTables
delete_agent_session id db = record db {
  agent_sessions = keep (λ r. not (r.id == id)) db.agent_sessions;
  agent_messages = keep (λ m. not (m.session_id == id)) db.agent_messages;
}

-- None, if the id is taken or there is no such session (REFERENCES agent_sessions).
unfoldable pub insert_agent_message : AgentMessageRow → SessionTables → Option SessionTables
insert_agent_message m db =
    if any (λ r. r.id == m.id) db.agent_messages
      || not (any (λ r. r.id == m.session_id) db.agent_sessions)
    then none
    else some (record db { agent_messages = db.agent_messages ++ m ∷ [] })

unfoldable pub list_agent_sessions : SessionTables → List AgentSessionRow
list_agent_sessions db = sort_by (λ a b. leb a.created_at b.created_at) db.agent_sessions

unfoldable pub list_agent_messages_by_session : String → SessionTables → List AgentMessageRow
unfolding message_le
list_agent_messages_by_session id db =
    sort_by message_le (keep (λ m. m.session_id == id) db.agent_messages)
