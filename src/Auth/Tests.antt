-- ===== src/Auth/Tests.antt =====
-- server/auth.ts: the sign-in, run on one login and its callback.
use agent_web_mvp.Prelude.{◌≡◌, refl, ◌≢◌, String, true, [], ◌∷◌, none, some, arith, eq_iff, inl}
use agent_web_mvp.Auth.{
  PendingOauth, Auth, plain, TokenBody, Profile, Github, start_oauth_login, take_state, exchange,
  safe_return_to,
}
use agent_web_mvp.Auth.States.{logs_in, logs_out, visits, state_used_once}
use agent_web_mvp.Auth.SignIn.{IsSignedIn, callback_signs_in}

abbrev body : TokenBody
body = record { access_token = some "gho"; error = none }

abbrev profile : Profile
profile = record { id = 7; login = "ada"; email = none; name = some "Ada"; avatar_url = none }

abbrev github : Github
github = record {
  token = λ code. some body;
  user = λ access_token. some profile;
  emails = λ access_token. none;
}

abbrev empty : Auth
empty = record { pending_oauth = []; tables = record { users = []; browser_sessions = [] } }

abbrev pending : PendingOauth
pending = record { return_to = "/pair?code=ABC"; expires_at = 600005 }

logged_in : Auth
logged_in = (start_oauth_login true 5 "s1" (some "/pair") empty).0

other_state : ◌≢◌ {A = String} "s2" "s1"
other_state e = absurd (ground (arith, (eq_iff "s2" "s1").1 e))

state_used_once_example :
    (take_state 20 (some "c2") (some "s1") (
      visits
        (logs_in true 15 "s2" none ∷ logs_out none ∷ [])
        (take_state 10 (some "c1") (some "s1") logged_in).0)).1
    ≡ inl (plain 400 "Invalid or expired state")
state_used_once_example =
    state_used_once "s1" "c1" "c2" 10 20 (some "c1") (some "c2") (some "s1")
      (logs_in true 15 "s2" none ∷ logs_out none ∷ []) logged_in refl refl refl
      (other_state, (tt, tt))

callback_signs_in_example :
    IsSignedIn github "u1" "sid1" 10 empty profile
      (exchange github "u1" "sid1" 10 "c1" pending empty)
      (safe_return_to (some "/pair?code=ABC"))
callback_signs_in_example =
    callback_signs_in github "u1" "sid1" 10 empty "c1" "gho" pending body profile refl refl refl
      refl refl refl
