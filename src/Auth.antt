-- ===== src/Auth.antt =====
-- server/auth.ts: the sign-in with GitHub. GitHub's answers are a parameter, and the random values and
-- the times are arguments of the handlers.
pub mod States
pub mod SignIn
pub mod Cookies
pub mod Tests
use agent_web_mvp.Prelude.{
  ℕ, ◌+◌, ◌*◌, String, Bool, true, false, not, ◌&&◌, List, [], ◌∷◌, Option, none, some, keep, head?,
  ltb, nat_eq, or_else, truthy, if◌then◌else◌, ◌<>◌, ◌⊎◌, inl, inr,
}
use agent_web_mvp.Prelude.JsMap.{JsMap, get, set, remove}
use agent_web_mvp.Types.AuthDetect.{codes}
use agent_web_mvp.Db.Identity.{
  UserRow, IdentityTables, upsert_user, create_browser_session, find_user_id_by_session_id,
  delete_browser_session,
}

pub record PendingOauth : Type 0 where
  pub return_to : String
  pub expires_at : ℕ

pub record Auth : Type 0 where
  pub pending_oauth : JsMap PendingOauth
  pub tables : IdentityTables

abbrev pub oauth_ttl_ms : ℕ
oauth_ttl_ms = 10 * 60 * 1000

unfoldable pub cleanup_pending_oauth : (now : ℕ) → JsMap PendingOauth → JsMap PendingOauth
cleanup_pending_oauth now = keep (λ e. not (ltb e.1.expires_at now))

-- String.startsWith, on code points.
abbrev pub starts_with : List ℕ → List ℕ → Bool
starts_with [] s = true
starts_with (c ∷ w) [] = false
starts_with (c ∷ w) (d ∷ s) = nat_eq c d && starts_with w s

-- None is an input that is not a string.
unfoldable pub safe_return_to : Option String → String
unfolding codes
safe_return_to none = "/"
safe_return_to (some s) =
    if not (starts_with (codes "/") (codes s))
    then "/"
    else if starts_with (codes "//") (codes s)
    then "/"
    else if starts_with (b'/' ∷ 92 ∷ []) (codes s)
    then "/"
    else s

-- What a request is answered: a status and a text; a redirect to GitHub with a state; a redirect with
-- the cookie `sid`, and one that clears it. The cookie's attributes are left out.
pub data Answer : Type 0 where
  plain : (status : ℕ) (body : String) → Answer
  to_github : (state : String) → Answer
  signed_in : (sid location : String) → Answer
  signed_out : (location : String) → Answer

unfoldable pub start_oauth_login :
    (enabled : Bool) (now : ℕ) (state : String) (return_to : Option String) → Auth → Auth × Answer
unfolding cleanup_pending_oauth
start_oauth_login false now state return_to auth = (
  auth,
  plain 503 "GitHub OAuth is not configured. Set GITHUB_CLIENT_ID and GITHUB_CLIENT_SECRET.",
)
start_oauth_login true now state return_to auth =
    let entry : PendingOauth = record {
      return_to = safe_return_to return_to;
      expires_at = now + oauth_ttl_ms;
    } in
    (
      record auth {
        pending_oauth = set state entry (cleanup_pending_oauth now auth.pending_oauth);
      },
      to_github state,
    )

pub record TokenBody : Type 0 where
  pub access_token : Option String
  pub error : Option String

pub record Profile : Type 0 where
  pub id : ℕ
  pub login : String
  pub email : Option String
  pub name : Option String
  pub avatar_url : Option String

pub record EmailEntry : Type 0 where
  pub email : String
  pub primary : Bool
  pub verified : Bool

-- The three endpoints. None is a request that throws, or an answer that cannot be read.
pub record Github : Type 0 where
  pub token : (code : String) → Option TokenBody
  pub user : (access_token : String) → Option Profile
  pub emails : (access_token : String) → Option (List EmailEntry)

unfoldable pub best_email : List EmailEntry → Option String
best_email entries = elim (head? (keep (λ e. e.primary && e.verified) entries)) [
  | some e ↦ some e.email
  | none ↦ elim (head? (keep (λ e. e.verified) entries)) [ some e ↦ some e.email | none ↦ none ]
]

unfoldable pub email_of : Github → String → Profile → Option String
email_of github access_token gh = elim (truthy gh.email) [
  | some e ↦ gh.email
  | none ↦ elim (github.emails access_token) [ some entries ↦ best_email entries | none ↦ gh.email ]
]

abbrev pub authentication_failed : Answer
authentication_failed = plain 500 "Authentication failed"

-- The callback up to its first await: the state is taken out of the table.
unfoldable pub take_state :
    (now : ℕ) (code state : Option String) → Auth → Auth × (Answer ⊎ String × PendingOauth)
take_state now code state auth =
    let swept = record auth { pending_oauth = cleanup_pending_oauth now auth.pending_oauth } in
    elim (truthy code) [
      | none ↦ (swept, inl (plain 400 "Missing code or state"))
      | some c ↦ elim (truthy state) [
        | none ↦ (swept, inl (plain 400 "Missing code or state"))
        | some s ↦ elim (get s swept.pending_oauth) [
          | none ↦ (swept, inl (plain 400 "Invalid or expired state"))
          | some pending ↦
              (record swept { pending_oauth = remove s swept.pending_oauth }, inr (c, pending))
        ]
      ]
    ]

-- The user's row is written, then the browser's session.
unfoldable pub admit :
    (user_id sid : String) (now : ℕ) (gh : Profile) (email : Option String) (return_to : String)
    → Auth
    → Auth × Answer
admit user_id sid now gh email return_to auth =
    let row : UserRow = record {
      id = user_id;
      github_id = gh.id;
      github_login = gh.login;
      email = email;
      name = gh.name;
      avatar_url = gh.avatar_url;
      created_at = now;
    } in
    elim (upsert_user row auth.tables) [
      | none ↦ (auth, authentication_failed)
      | some (user, tables) ↦ elim (create_browser_session sid user.id now tables) [
        | none ↦ (record auth { tables = tables }, authentication_failed)
        | some opened ↦
            (record auth { tables = opened }, signed_in sid (safe_return_to (some return_to)))
      ]
    ]

-- The callback after the state is taken.
unfoldable pub exchange :
    Github → (user_id sid : String) (now : ℕ) (code : String) → PendingOauth → Auth → Auth × Answer
exchange github user_id sid now code pending auth = elim (github.token code) [
  | none ↦ (auth, authentication_failed)
  | some body ↦ elim (truthy body.access_token) [
    | none ↦ (auth, plain 400 ("GitHub error: " <> or_else body.error "no access_token"))
    | some access_token ↦ elim (github.user access_token) [
      | none ↦ (auth, authentication_failed)
      | some gh ↦ admit user_id sid now gh (email_of github access_token gh) pending.return_to auth
    ]
  ]
]

-- Whose session the value of the cookie names.
unfoldable pub user_of_sid : (sid : Option String) → Auth → Option String
user_of_sid sid auth = elim (truthy sid) [
  | none ↦ none
  | some s ↦ find_user_id_by_session_id s auth.tables
]

unfoldable pub logout : (sid : Option String) → Auth → Auth × Answer
logout sid auth = elim (truthy sid) [
  | none ↦ (auth, signed_out "/")
  | some s ↦ (record auth { tables = delete_browser_session s auth.tables }, signed_out "/")
]
