-- ===== src/Session/Turns.antt =====
-- server/sessions.ts: a session is busy exactly while it remembers the prompt that runs; and what an
-- empty prompt does to the queue.
use agent_web_mvp.Prelude.{
  ◌≡◌, refl, String, Bool, true, false, List, ◌∷◌, Option, arith, is_some, Option-cases, inl, inr,
}
use agent_web_mvp.Types.{Role}
use agent_web_mvp.Types.Values.{Json}
use agent_web_mvp.Types.AuthDetect.{AuthHit}
use agent_web_mvp.Session.State.{
  Session, Env, emit_auth_required, set_status, settle_down, done_event, token_event, answered,
  back_to_running, resolve_permission,
}
use agent_web_mvp.Session.Steps.{
  record_message, start, ask_permission, forget_and_requeue, plain_error, signed_out, drain_with,
  drain_step,
}
use agent_web_mvp.Session.Operations.{
  drain, enqueue_prompt, last_user, retry_last_user_prompt, cancel,
}
use agent_web_mvp.Session.History.{
  Input, agent, prompt, retry, permission, stop, step, run, run-keeps,
}
use agent_web_mvp.Session.Keeps.{EventKeeps, drain-keeps, handle_event-keeps}
use agent_web_mvp.Session.Drain.{drain-eq-drain_step}

-- `inFlightPrompt` is null exactly when `busy` is false.
abbrev pub IsTurn : {R K : Type 0} → Session R K → Type 0
IsTurn s = is_some s.in_flight_prompt ≡ s.busy

module _ {R K : Type 0} (env : Env R) where
  start-IsTurn :
      (next : String) (rest : List String) (s : Session R K) → IsTurn (start env next rest s).0
  unfolding start set_status
  start-IsTurn next rest s = ground arith

  sign_out-IsTurn : (hit : AuthHit) (s : Session R K) → IsTurn s → IsTurn (signed_out env hit s)
  unfolding signed_out record_message emit_auth_required set_status
  sign_out-IsTurn hit s v = ground arith

  fail-IsTurn : (m : String) (s : Session R K) → IsTurn s → IsTurn (plain_error env m s)
  unfolding plain_error record_message set_status
  fail-IsTurn m s v = ground arith

  rest-IsTurn : (s : Session R K) → IsTurn (settle_down s)
  unfolding settle_down
  rest-IsTurn s = refl

  ask-IsTurn :
      (tool : String) (input : Json) (k : K) (s : Session R K)
      → IsTurn s
      → IsTurn (ask_permission env tool input k s)
  unfolding ask_permission set_status
  ask-IsTurn tool input k s v = ground arith

  token-IsTurn : (t : String) (s : Session R K) → IsTurn s → IsTurn (token_event t s)
  unfolding token_event
  token-IsTurn t s v = ground arith

  alert-IsTurn :
      (hit : AuthHit) (s : Session R K)
      → IsTurn s
      → IsTurn (emit_auth_required hit (record s { auth_alerted_this_turn = true }))
  unfolding emit_auth_required
  alert-IsTurn hit s v = ground arith

  say-IsTurn :
      (role : Role) (text : String) (m : Option Json) (s : Session R K)
      → IsTurn s
      → IsTurn (record_message env role text m s)
  unfolding record_message
  say-IsTurn role text m s v = v

  requeue-IsTurn : (replay : String) (s : Session R K) → IsTurn (forget_and_requeue env replay s)
  unfolding forget_and_requeue
  requeue-IsTurn replay s = refl

  keeps : EventKeeps {K = K} env IsTurn
  keeps = record {
    steps = record {
      shift = λ rest s v. v;
      start = λ next rest s _ _. start-IsTurn next rest s;
      say = say-IsTurn;
      sign_out = λ m hit s _ v. sign_out-IsTurn hit s v;
      requeue = λ m replay s _ _. requeue-IsTurn replay s;
      fail = fail-IsTurn;
      rest = λ s _. rest-IsTurn s;
    };
    alert = λ m hit s _ v. alert-IsTurn hit s v;
    ask = ask-IsTurn;
    token = token-IsTurn;
  }

  retry-IsTurn : (s : Session R K) → IsTurn s → IsTurn (retry_last_user_prompt env s).0
  unfolding retry_last_user_prompt
  retry-IsTurn s v = elim (Option-cases (last_user s.history)) [
    | inl e ↦ rw (e, retry_last_user_prompt) v
    | inr (text, e) ↦ rw (e, retry_last_user_prompt) (drain-keeps env keeps.steps _ v)
  ]

  resolve-IsTurn :
      (id : String) (allow : Bool) (s : Session R K)
      → IsTurn s
      → IsTurn (resolve_permission id allow s)
  unfolding resolve_permission answered back_to_running set_status
  resolve-IsTurn id allow s v = ground arith

  step-IsTurn : (i : Input K) (s : Session R K) → IsTurn s → IsTurn (step env i s)
  unfolding step enqueue_prompt record_message cancel
  step-IsTurn (agent e) s v = handle_event-keeps env keeps e s v
  step-IsTurn (prompt p) s v = drain-keeps env keeps.steps _ v
  step-IsTurn retry s v = retry-IsTurn s v
  step-IsTurn (permission id allow) s v = resolve-IsTurn id allow s v
  step-IsTurn stop s v = v

  -- The bug of the empty prompt: it is taken off the queue as if the queue were empty. When a run ends
  -- and an empty prompt is next, the session rests, not busy, with all the prompts behind it waiting.
  pub empty_prompt_stalls :
      (rest : List String) (s : Session R K)
      → s.queue ≡ "" ∷ rest
      → ((done_event (drain env) s).queue ≡ rest) × ((done_event (drain env) s).busy ≡ false)
  unfolding done_event settle_down set_status drain_step drain_with
  empty_prompt_stalls rest s q = rw (drain-eq-drain_step env (settle_down s)) (ground (arith))

module _ {R K : Type 0} where
  -- Whatever happens to a session that is busy exactly if it remembers a prompt in flight: it is so
  -- ever after.
  run-IsTurn : (is : List (Env R × Input K)) (s : Session R K) → IsTurn s → IsTurn (run is s)
  run-IsTurn = run-keeps IsTurn step-IsTurn
