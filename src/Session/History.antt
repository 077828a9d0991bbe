-- ===== src/Session/History.antt =====
-- server/sessions.ts: everything that can happen to a session, one step of the event loop at a time.
-- Each step has surroundings of its own: the clock moves, and so does what the runner answers.
use agent_web_mvp.Prelude.{String, Bool, List, [], ◌∷◌}
use agent_web_mvp.Agents.{AgentEvent}
use agent_web_mvp.Session.State.{Session, Env, resolve_permission}
use agent_web_mvp.Session.Operations.{enqueue_prompt, retry_last_user_prompt, cancel, handle_event}

pub data Input (K : Type 0) : Type 0 where
  agent : AgentEvent K → Input K
  prompt : String → Input K
  retry : Input K
  permission : (request_id : String) (allow : Bool) → Input K
  stop : Input K

module _ {R K : Type 0} where
  unfoldable pub step : Env R → Input K → Session R K → Session R K
  step env (agent e) s = handle_event env e s
  step env (prompt p) s = enqueue_prompt env p s
  step env retry s = (retry_last_user_prompt env s).0
  step env (permission request_id allow) s = resolve_permission request_id allow s
  step env stop s = cancel env s

  unfoldable pub run : List (Env R × Input K) → Session R K → Session R K
  unfolding step
  run [] s = s
  run ((env, i) ∷ is) s = run is (step env i s)

  -- What every step keeps, a whole history keeps.
  pub run-keeps {ℓ} :
      (P : Session R K → Type ℓ)
      → ((env : Env R) (i : Input K) (s : Session R K) → P s → P (step env i s))
      → (is : List (Env R × Input K)) (s : Session R K) → P s
      → P (run is s)
  unfolding run
  run-keeps P h [] s p = p
  run-keeps P h ((env, i) ∷ is) s p = run-keeps P h is (step env i s) (h env i s p)
