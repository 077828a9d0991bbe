-- ===== src/RateLimit/Tests.antt =====
-- server/index.ts: twelve prompts at once, and three in good time.
use agent_web_mvp.Prelude.{ℕ, ◌*◌, ◌+◌, ◌-◌, ◌≤◌, ◌≡◌, refl, List, [], ◌∷◌, arith, ◌<>◌}
use agent_web_mvp.RateLimit.{token, prompt_bucket_capacity, check_prompt_rate, consume}
use agent_web_mvp.Prelude.JsMap.{get, set}
use agent_web_mvp.RateLimit.Bounds.{Call, granted, granted_bounded, paced_granted}

abbrev at : ℕ → Call
at t = record { user_id = "u1"; session_id = "s1"; at = t }

abbrev burst : List Call
burst = at 5 ∷ at 5 ∷ at 6 ∷ at 6 ∷ at 7 ∷ at 8 ∷ at 8 ∷ at 8 ∷ at 9 ∷ at 9 ∷ at 9 ∷ at 9 ∷ []

granted-burst : granted "u1:s1" burst [] ≡ 10
unfolding granted ◌<>◌ check_prompt_rate consume get set
granted-burst = refl

abbrev hurried : List Call
hurried = at 5 ∷ at 5 ∷ at 7000 ∷ []

granted_bounded_example : token * granted "u1:s1" hurried [] ≤ prompt_bucket_capacity + (7000 - 5)
granted_bounded_example =
    granted_bounded "u1:s1" hurried [] 5 7000
      (omega arith, (omega arith, (omega arith, omega arith)))

abbrev paced : List Call
paced = at 7000 ∷ at 13000 ∷ at 20000 ∷ []

paced_granted_example :
    granted "u1:s1" paced (("u1:s1", record { tokens = 0; last_refill = 1000 }) ∷ []) ≡ 3
unfolding get ◌<>◌
paced_granted_example =
    paced_granted "u1:s1" paced (("u1:s1", record { tokens = 0; last_refill = 1000 }) ∷ []) 1000
      (omega arith) ((refl, omega arith, (refl, omega arith, (refl, omega arith, tt))))
