-- ===== src/Auth/SignIn.antt =====
-- server/auth.ts: whom a callback signs in, and where the browser is sent.
use agent_web_mvp.Prelude.{
  ℕ, ◌≡◌, refl, ap, sym, ◌∙◌, String, true, false, List, [], ◌∷◌, ◌++◌, Option, none, some, arith,
  any, keep, map, head?, nat_eq, truthy, if◌then◌else◌, ◌==◌, eq_iff, eq_refl, Option-cases,
  Bool-cases, inl, inr,
}
use agent_web_mvp.Types.AuthDetect.{codes}
use agent_web_mvp.Db.Identity.{
  UserRow, BrowserSessionRow, IdentityTables, renewed, upsert_user, create_browser_session,
  find_user_id_by_session_id, of_github,
}
use agent_web_mvp.Auth.{
  PendingOauth, Auth, Answer, signed_in, TokenBody, Profile, Github, starts_with, safe_return_to,
  exchange, admit, email_of, user_of_sid,
}

-- A path of this origin: one slash, and no other slash or backslash behind it.
abbrev IsLocal : String → Type 0
IsLocal s =
    (starts_with (codes "/") (codes s) ≡ true)
    × (starts_with (codes "//") (codes s) ≡ false)
    × (starts_with (b'/' ∷ 92 ∷ []) (codes s) ≡ false)

return-IsLocal : (input : Option String) → IsLocal (safe_return_to input)
unfolding safe_return_to codes
return-IsLocal none = (refl, refl, refl)
return-IsLocal (some s) = elim (Bool-cases (starts_with (codes "/") (codes s))) [
  | inr a ↦ rw a (refl, refl, refl)
  | inl a ↦ elim (Bool-cases (starts_with (codes "//") (codes s))) [
    | inl b ↦ rw (a, b) (refl, refl, refl)
    | inr b ↦ elim (Bool-cases (starts_with (b'/' ∷ 92 ∷ []) (codes s))) [
      | inl c ↦ rw (a, b, c) (refl, refl, refl)
      | inr c ↦ rw (a, b, c) (a, b, c)
    ]
  ]
]

-- What safeReturnTo returns is a local path, whatever the input; and a local path is returned as it is.
safe_return_to_lem :
    (input : Option String) (s : String)
    → IsLocal s
    → IsLocal (safe_return_to input) × (safe_return_to (some s) ≡ s)
unfolding safe_return_to codes
safe_return_to_lem input s l = (return-IsLocal input, rw (l.0, l.1, l.2) refl)

module _ (n : ℕ) where
  found-append :
      (rows : List UserRow) (row : UserRow)
      → row.github_id ≡ n
      → of_github n rows ≡ none
      → of_github n (rows ++ row ∷ []) ≡ some row
  found-append [] row e h = ground (arith, e)
  found-append (r ∷ rows) row e h = elim (Bool-cases (nat_eq r.github_id n)) [
    | inl c ↦ absurd (ground (arith, h, c))
    | inr c ↦ rw c (found-append rows row e (ground (arith, h, c)))
  ]

  renew : UserRow → UserRow → UserRow
  renew row r = if nat_eq r.github_id n then renewed row r else r

  found-renewed :
      (rows : List UserRow) (row old : UserRow)
      → of_github n rows ≡ some old
      → of_github n (map (renew row) rows) ≡ some (renewed row old)
  unfolding renew renewed
  found-renewed [] row old h = cc
  found-renewed (r ∷ rows) row old h = elim (Bool-cases (nat_eq r.github_id n)) [
    | inl c ↦ rw (c, renew, c) (ground (arith, h, c))
    | inr c ↦ rw (c, renew, c) (found-renewed rows row old (ground (arith, h, c)))
  ]

  kept-id :
      (rows : List UserRow) (row old : UserRow)
      → of_github n rows ≡ some old
      → any (λ r. r.id == old.id) (map (renew row) rows) ≡ true
  unfolding renew renewed
  kept-id [] row old h = cc
  kept-id (r ∷ rows) row old h = elim (Bool-cases (nat_eq r.github_id n)) [
    | inl c ↦ rw (c, renew) (ground (arith, h, c, eq_iff r.id old.id))
    | inr c ↦ rw (c, renew) (ground (arith, kept-id rows row old (ground (arith, h, c))))
  ]

any-last :
    (rows : List UserRow) (row : UserRow) → any (λ r. r.id == row.id) (rows ++ row ∷ []) ≡ true
any-last [] row = ground (arith, eq_refl row.id)
any-last (r ∷ rows) row = ground (arith, any-last rows row)

find-last :
    (sid : String) (rows : List BrowserSessionRow) (row : BrowserSessionRow)
    → row.id ≡ sid
    → any (λ r. r.id == sid) rows ≡ false
    → head? (map (λ r. r.user_id) (keep (λ r. r.id == sid) (rows ++ row ∷ []))) ≡ some row.user_id
find-last sid [] row e h = ground (arith, eq_iff row.id sid)
find-last sid (r ∷ rows) row e h = elim (Bool-cases (r.id == sid)) [
  | inl c ↦ absurd (ground (arith, h, c))
  | inr c ↦ rw c (find-last sid rows row e (ground (arith, h, c)))
]

-- The id of the user who signs in: that of the row that is there, or else a new one.
abbrev pub id_of : String → Option UserRow → String
id_of user_id none = user_id
id_of user_id (some old) = old.id

-- The user with a GitHub account is in the tables, and a user who was there keeps the id.
pub record IsKnown (user_id : String) (n : ℕ) (u : UserRow) (before after : IdentityTables)
    : Type 0 where
  pub listed : of_github n after.users ≡ some u
  pub same_id : u.id ≡ id_of user_id (of_github n before.users)

upsert-IsKnown :
    (row : UserRow) (db : IdentityTables)
    → any (λ r. r.id == row.id) db.users ≡ false
    → (u : UserRow) × (after : IdentityTables) × (upsert_user row db ≡ some (u, after))
      × IsKnown row.id row.github_id u db after
      × (any (λ r. r.id == u.id) after.users ≡ true)
      × (after.browser_sessions ≡ db.browser_sessions)
unfolding upsert_user renewed renew
upsert-IsKnown row db h = elim (Option-cases (of_github row.github_id db.users)) [
  | inl e ↦ (
    row,
    record db { users = db.users ++ row ∷ [] },
    rw (e, upsert_user, h) refl,
    record {
      listed = found-append row.github_id db.users row refl e;
      same_id = sym (ap (id_of row.id) e);
    },
    any-last db.users row,
    refl,
  )
  | inr (old, e) ↦ (
    renewed row old,
    record db { users = map (renew row.github_id row) db.users },
    rw (e, upsert_user) refl,
    record {
      listed = found-renewed row.github_id db.users row old e;
      same_id = sym (ap (id_of row.id) e);
    },
    kept-id row.github_id db.users row old e,
    refl,
  )
]

create-finds :
    (sid user_id : String) (now : ℕ) (db : IdentityTables)
    → any (λ r. r.id == sid) db.browser_sessions ≡ false
    → any (λ r. r.id == user_id) db.users ≡ true
    → (after : IdentityTables) × (create_browser_session sid user_id now db ≡ some after)
      × (after.users ≡ db.users)
      × (find_user_id_by_session_id sid after ≡ some user_id)
unfolding create_browser_session find_user_id_by_session_id
create-finds sid user_id now db h k =
    let row : BrowserSessionRow = record {
      id = sid;
      user_id = user_id;
      created_at = now;
      last_seen_at = now;
    } in
    (
      record db { browser_sessions = db.browser_sessions ++ row ∷ [] },
      rw (h, k) refl,
      refl,
      find-last sid db.browser_sessions row refl h,
    )

module _ (github : Github) (user_id sid : String) (now : ℕ) (auth : Auth) where
  -- The cookie's value names the user of the GitHub account in the tables.
  abbrev pub IsSignedIn : Profile → Auth × Answer → String → Type 0
  IsSignedIn gh out location =
      (out.1 ≡ signed_in sid location)
      × ((u : UserRow) × IsKnown user_id gh.id u auth.tables out.0.tables
          × (user_of_sid (some sid) out.0 ≡ some u.id))

  admit-IsSignedIn :
      (gh : Profile) (email : Option String) (return_to : String)
      → truthy (some sid) ≡ some sid
      → any (λ r. r.id == sid) auth.tables.browser_sessions ≡ false
      → any (λ r. r.id == user_id) auth.tables.users ≡ false
      → IsSignedIn gh
          (admit user_id sid now gh email return_to auth)
          (safe_return_to (some return_to))
  unfolding admit user_of_sid
  admit-IsSignedIn gh email return_to n h k =
      let row : UserRow = record {
        id = user_id;
        github_id = gh.id;
        github_login = gh.login;
        email = email;
        name = gh.name;
        avatar_url = gh.avatar_url;
        created_at = now;
      } in
      let (u, db, e, known, there, same) = upsert-IsKnown row auth.tables k in
      let (after, f, users, found) =
        create-finds sid u.id now db (ap (any (λ r. r.id == sid)) same ∙ h) there in
      rw (e, admit, f)
        (
          refl,
          (
            u,
            record { listed = ap (of_github gh.id) users ∙ known.listed; same_id = known.same_id },
            rw (n, user_of_sid) found,
          ),
        )

  -- A callback to which GitHub gives a token and a profile, with a new cookie value and a new user
  -- id: the browser is sent to the safe form of where it came from, and the cookie names the user of
  -- that GitHub account, who keeps the id that an earlier sign-in gave.
  pub callback_signs_in :
      (code access_token : String) (pending : PendingOauth) (body : TokenBody) (gh : Profile)
      → github.token code ≡ some body
      → truthy body.access_token ≡ some access_token
      → github.user access_token ≡ some gh
      → truthy (some sid) ≡ some sid
      → any (λ r. r.id == sid) auth.tables.browser_sessions ≡ false
      → any (λ r. r.id == user_id) auth.tables.users ≡ false
      → IsSignedIn gh
          (exchange github user_id sid now code pending auth)
          (safe_return_to (some pending.return_to))
  unfolding exchange
  callback_signs_in code access_token pending body gh a b c n h k =
      rw (a, exchange, b, c)
        (admit-IsSignedIn gh (email_of github access_token gh) pending.return_to n h k)
