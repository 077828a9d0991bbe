-- ===== src/Entry/Admission.antt =====
-- server/index.ts: who gets a WebSocket.
use agent_web_mvp.Prelude.{
  ℕ, ◌≡◌, refl, ◌∙◌, ap, ◌⊎◌, String, Bool, true, false, ◌||◌, List, Option, none, some, ◌==◌,
  Bool-cases, Option-cases, inl, inr, truthy, any, or_else, ◌>>=◌, >>=-eq-some,
}
use agent_web_mvp.Db.{Db, DeviceTokenRow}
use agent_web_mvp.Db.Identity.{find_user_id_by_session_id}
use agent_web_mvp.Pairing.{Crypto, verify_device_token}
use agent_web_mvp.Pairing.Token.{split_dot}
use agent_web_mvp.Pairing.Refusals.{IsTokenOf, verify_sound}
use agent_web_mvp.Auth.{Auth, user_of_sid}
use agent_web_mvp.Auth.Cookies.{parse_cookie_value, user_id_from_cookie}
use agent_web_mvp.Entry.{
  Request, Outcome, browser, daemon, rejected, destroyed, thrown, is_allowed_origin,
  browser_outcome, upgrade_browser, daemon_outcome, admit_row, upgrade_daemon, upgrade, is_path,
}
use agent_web_mvp.Entry.Bearer.{bearer_token}

-- The cookie header holds, under `sid`, the id of a row of this user.
pub record IsSignedIn (decode : String → Option String) (auth : Auth) (cookie : Option String)
    (user_id : String) : Type 0 where
  pub header : String
  pub given : cookie ≡ some header
  pub sid : String
  pub read : parse_cookie_value decode header "sid" ≡ some (some sid)
  pub row : find_user_id_by_session_id sid auth.tables ≡ some user_id

-- The bearer token is that of a row of this user.
pub record IsPaired (crypto : Crypto) (db : Db) (req : Request) (user_id id : String) : Type 0 where
  pub token : String
  pub presented : bearer_token (or_else req.authorization "") ≡ some token
  pub row : DeviceTokenRow
  pub matches : IsTokenOf crypto db row (split_dot token)
  pub user : row.user_id ≡ user_id
  pub key : row.id ≡ id

truthy_inv : (o : Option String) (s : String) → truthy o ≡ some s → o ≡ some s
truthy_inv none s h = h
truthy_inv (some t) s h = elim (Bool-cases (t == "")) [
  | inl e ↦ let k : Path (Option String) none (some s) = rw e at h in cc
  | inr e ↦ rw e at h
]

origin_there :
    (allowed : List String) (o : Option String)
    → is_allowed_origin allowed o ≡ true
    → (origin : String) × (o ≡ some origin) × (any (λ a. a == origin) allowed ≡ true)
unfolding is_allowed_origin
origin_there allowed o h = elim (Option-cases (truthy o)) [
  | inl e ↦ let k : Path Bool false true = rw (e, is_allowed_origin) at h in cc
  | inr (s, e) ↦ (s, truthy_inv o s e, rw (e, is_allowed_origin) at h)
]

sid_names :
    (decode : String → Option String) (auth : Auth) (cookie : Option String) (header : String)
    (sid : Option String) (user_id : String)
    → cookie ≡ some header
    → parse_cookie_value decode header "sid" ≡ some sid
    → user_of_sid sid auth ≡ some user_id
    → IsSignedIn decode auth cookie user_id
unfolding user_of_sid
sid_names decode auth cookie header sid user_id c p h = elim (Option-cases (truthy sid)) [
  | inl e ↦ let k : Path (Option String) none (some user_id) = rw (e, user_of_sid) at h in cc
  | inr (s, e) ↦ record {
    header = header;
    given = c;
    sid = s;
    read = p ∙ ap some (truthy_inv sid s e);
    row = rw (e, user_of_sid) at h;
  }
]

cookie_names :
    (enabled : Bool) (decode : String → Option String) (auth : Auth) (cookie : Option String)
    (user_id : String)
    → user_id_from_cookie decode enabled cookie auth ≡ some (some user_id)
    → ((enabled ≡ false) × (user_id ≡ "anon")) ⊎ IsSignedIn decode auth cookie user_id
unfolding user_id_from_cookie
cookie_names false decode auth cookie user_id h = inl (refl, cc)
cookie_names true decode auth cookie user_id h = elim (Option-cases (truthy cookie)) [
  | inl e ↦
      let k : Path (Option (Option String)) (some none) (some (some user_id)) =
        rw (e, user_id_from_cookie) at h in
      cc
  | inr (header, e) ↦
      let k : (parse_cookie_value decode header "sid" >>= λ sid. some (user_of_sid sid auth))
          ≡ some (some user_id) =
        rw (e, user_id_from_cookie) at h in
      let (sid, p, q) = >>=-eq-some (parse_cookie_value decode header "sid") _ k in
      inr (sid_names decode auth cookie header sid user_id (truthy_inv cookie header e) p (cc q))
]

module _ (enabled : Bool) (allowed : List String) (decode : String → Option String)
    (crypto : Crypto) where
  -- What an outcome asserts of the request.
  abbrev pub IsAdmitted : Request → Auth → Db → Outcome → Type 0
  IsAdmitted req auth db (browser user_id) =
      ((origin : String) × (req.origin ≡ some origin) × (any (λ a. a == origin) allowed ≡ true))
      × (((enabled ≡ false) × (user_id ≡ "anon")) ⊎ IsSignedIn decode auth req.cookie user_id)
  IsAdmitted req auth db (daemon user_id id) =
      ((enabled ≡ false) × (user_id ≡ "anon") × (id ≡ "anon-default"))
      ⊎ IsPaired crypto db req user_id id
  IsAdmitted req auth db (rejected status) = Unit {0}
  IsAdmitted req auth db destroyed = Unit {0}
  IsAdmitted req auth db thrown = Unit {0}

  named-IsAdmitted :
      (req : Request) (auth : Auth) (db : Db) (o : Option (Option String))
      → user_id_from_cookie decode enabled req.cookie auth ≡ o
      → is_allowed_origin allowed req.origin ≡ true
      → IsAdmitted req auth db (browser_outcome o)
  unfolding browser_outcome
  named-IsAdmitted req auth db none e a = tt
  named-IsAdmitted req auth db (some none) e a = tt
  named-IsAdmitted req auth db (some (some u)) e a = elim (Bool-cases (u == "")) [
    | inl f ↦ rw f tt
    | inr f ↦
        rw f (origin_there allowed req.origin a, cookie_names enabled decode auth req.cookie u e)
  ]

  browser-IsAdmitted :
      (req : Request) (auth : Auth) (db : Db)
      → IsAdmitted req auth db (upgrade_browser enabled allowed decode req auth)
  unfolding upgrade_browser
  browser-IsAdmitted req auth db = elim (Bool-cases (is_allowed_origin allowed req.origin)) [
    | inl a ↦ rw a (named-IsAdmitted req auth db _ refl a)
    | inr a ↦ rw a tt
  ]

  row-IsAdmitted :
      (now : ℕ) (token : String) (req : Request) (auth : Auth) (db : Db) (o : Option DeviceTokenRow)
      → bearer_token (or_else req.authorization "") ≡ some token
      → verify_device_token crypto token db ≡ o
      → IsAdmitted req auth db (admit_row now o db).1
  unfolding admit_row daemon_outcome
  row-IsAdmitted now token req auth db none b v = tt
  row-IsAdmitted now token req auth db (some row) b v =
      elim (Bool-cases (row.user_id == "" || row.id == "")) [
        | inl f ↦ rw f tt
        | inr f ↦ rw f (
            inr (record {
              token = token;
              presented = b;
              row = row;
              matches = verify_sound crypto token db row v;
              user = refl;
              key = refl;
            }))
      ]

  daemon-IsAdmitted :
      (b : Bool) (now : ℕ) (req : Request) (auth : Auth) (db : Db)
      → enabled ≡ b
      → IsAdmitted req auth db (upgrade_daemon b crypto now req db).1
  unfolding upgrade_daemon
  daemon-IsAdmitted false now req auth db e = inl (e, refl, refl)
  daemon-IsAdmitted true now req auth db e =
      elim (Option-cases (bearer_token (or_else req.authorization ""))) [
        | inl f ↦ rw (f, upgrade_daemon) tt
        | inr (token, f) ↦
            rw (f, upgrade_daemon)
              (row-IsAdmitted now token req auth db (verify_device_token crypto token db) f refl)
      ]

  -- Whatever request asks for an upgrade: where it becomes a browser's socket, its origin is one of
  -- those allowed, and the user is that of the session that its cookie names, or the anonymous one
  -- where sign-in is off; where it becomes a daemon's, its bearer token is that of the device whose id
  -- and user the socket gets, or, where sign-in is off, these are the fixed ones.
  pub upgrade-IsAdmitted :
      (now : ℕ) (req : Request) (auth : Auth) (db : Db)
      → IsAdmitted req auth db (upgrade enabled allowed decode crypto now req auth db).1
  unfolding upgrade
  upgrade-IsAdmitted now req auth db = elim (Bool-cases (is_path "/ws" (or_else req.url ""))) [
    | inl e ↦ rw e (browser-IsAdmitted req auth db)
    | inr e ↦ elim (Bool-cases (is_path "/client" (or_else req.url ""))) [
      | inl f ↦ rw (e, f) (daemon-IsAdmitted enabled now req auth db refl)
      | inr f ↦ rw (e, f) tt
    ]
  ]
