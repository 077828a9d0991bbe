-- ===== src/Entry/Tests.antt =====
-- server/index.ts: upgrades, run.
use agent_web_mvp.Prelude.{
  ◌≡◌, refl, String, Bool, true, false, List, [], ◌∷◌, Option, none, some, if◌then◌else◌, ◌==◌,
  arith,
}
use agent_web_mvp.Db.{Db}
use agent_web_mvp.Pairing.{Crypto}
use agent_web_mvp.Auth.{Auth}
use agent_web_mvp.Auth.Cookies.{parse_cookie_value}
use agent_web_mvp.Entry.{
  Request, browser, thrown, allowed_origins, is_allowed_origin, starts, upgrade,
}
use agent_web_mvp.Entry.Bearer.{bearer_token}
use agent_web_mvp.Entry.Admission.{IsAdmitted, upgrade-IsAdmitted}
use agent_web_mvp.Entry.Crash.{sid_header, undecodable_cookie_throws}

-- Of the escapes only the one that stands alone throws here.
abbrev decode : String → Option String
decode s = if s == "%" then none else some s

abbrev crypto : Crypto
crypto = record { sha256 = λ s. []; hex = λ bs. ""; from_hex = λ s. [] }

abbrev auth : Auth
auth = record {
  pending_oauth = [];
  tables = record {
    users =
        record {
          id = "u1";
          github_id = 7;
          github_login = "ada";
          email = none;
          name = none;
          avatar_url = none;
          created_at = 1;
        }
        ∷ [];
    browser_sessions = record { id = "s1"; user_id = "u1"; created_at = 1; last_seen_at = 1 } ∷ [];
  };
}

abbrev db : Db
db = record { pairing_codes = []; device_tokens = [] }

abbrev origins : List String
origins = "https://app.example" ∷ []

abbrev request : Request
request = record {
  url = some "/ws?v=1";
  origin = some "https://app.example";
  cookie = some "theme=dark;  sid=s1";
  authorization = none;
}

upgraded : (upgrade true origins decode crypto 5 request auth db).1 ≡ browser "u1"
unfolding upgrade is_allowed_origin parse_cookie_value
    agent_web_mvp.Auth.Cookies.user_id_from_cookie agent_web_mvp.Auth.user_of_sid
    agent_web_mvp.Db.Identity.find_user_id_by_session_id
upgraded = refl

upgrade-IsAdmitted_example :
    IsAdmitted true origins decode crypto request auth db
      (upgrade true origins decode crypto 5 request auth db).1
upgrade-IsAdmitted_example = upgrade-IsAdmitted true origins decode crypto 5 request auth db

undecodable_cookie_throws_example :
    upgrade true origins decode crypto 5
      (record request { url = some "/ws"; cookie = some (sid_header "%") })
      auth
      db
    ≡ (db, thrown)
unfolding is_allowed_origin
undecodable_cookie_throws_example =
    undecodable_cookie_throws origins decode crypto 5 "%"
      (record request { url = some "/ws"; cookie = some (sid_header "%") }) auth db refl refl refl
      (omega arith, tt) refl

origins_split :
    allowed_origins (some "https://a.example, https://b.example,,") "x"
    ≡ "https://a.example" ∷ "https://b.example" ∷ []
unfolding allowed_origins
origins_split = refl

bearers :
    Path
      (List (Option String))
      (bearer_token "bearer   d1.x" ∷ bearer_token "Bearer" ∷ bearer_token "Basic d1.x" ∷ [])
      (some "d1.x" ∷ none ∷ none ∷ [])
unfolding bearer_token
bearers = refl

-- A server that looks public does not start without sign-in, unless it is told to.
public_start :
    Path
      (List Bool)
      (starts false "0.0.0.0" "http://x" none
        ∷ starts false "0.0.0.0" "http://x" (some "1")
        ∷ starts true "0.0.0.0" "https://x" none
        ∷ [])
      (false ∷ true ∷ true ∷ [])
unfolding starts
public_start = refl
