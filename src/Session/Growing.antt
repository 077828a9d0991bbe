-- ===== src/Session/Growing.antt =====
-- server/sessions.ts: every step of a session makes it grow with its effects.
use agent_web_mvp.Prelude.{
  suc, ◌≡◌, refl, sym, String, Bool, true, false, ◌&&◌, List, none, some, append_assoc, same_option,
  Option-cases, Bool-cases, inl, inr,
}
use agent_web_mvp.Prelude.JsMap.{get, set}
use agent_web_mvp.Types.{SessionStatus, idle, running, awaiting_permission, user, system}
use agent_web_mvp.Types.Values.{Json}
use agent_web_mvp.Types.AuthDetect.{AuthHit}
use agent_web_mvp.Session.State.{
  error_raised, update_resume_token, Session, Env, emit, stale_notice, emit_auth_required,
  same_status, set_status, replay_of, auth_hit, settle_down, token_event, is_empty, answered,
  back_to_running, resolve_permission, deny_all,
}
use agent_web_mvp.Session.Steps.{
  record_message, start, ask_permission, forget_and_requeue, plain_error, signed_out,
}
use agent_web_mvp.Session.Operations.{enqueue_prompt, last_user, retry_last_user_prompt, cancel}
use agent_web_mvp.Session.History.{
  Input, agent, prompt, retry, permission, stop, step, run, run-keeps,
}
use agent_web_mvp.Session.Keeps.{EventKeeps, drain-keeps, handle_event-keeps}
use agent_web_mvp.Session.Growth.{
  Grows, none-Grows, quiet-Grows, same-Grows, say-Grows, set_status-Grows, emit_auth_required-Grows,
  inserted-deny_all, stored-deny_all, added-deny_all, changes-deny_all,
}

module _ {R K : Type 0} (env : Env R) (s₀ : Session R K) where
  start-Grows :
      (next : String) (rest : List String) (s : Session R K)
      → s.busy ≡ false
      → Grows s₀ s
      → Grows s₀ (start env next rest s).0
  unfolding start
  start-Grows next rest s b v =
      let t = record s { queue = rest; busy = true } in
      same-Grows s₀ (set_status running t) _
        (set_status-Grows s₀ t (same-Grows s₀ s t v refl refl refl refl refl) running) refl refl
        refl refl refl

  sign_out-Grows :
      (m : String) (hit : AuthHit) (s : Session R K)
      → auth_hit m s ≡ some hit
      → Grows s₀ s
      → Grows s₀ (signed_out env hit s)
  unfolding signed_out
  sign_out-Grows m hit s _ v =
      let alerted = record s { auth_alerted_this_turn = true } in
      let red = set_status SessionStatus.error alerted in
      say-Grows s₀ (emit_auth_required hit red)
        (emit_auth_required-Grows s₀ red
          (set_status-Grows s₀ alerted (same-Grows s₀ s alerted v refl refl refl refl refl)
            SessionStatus.error)
          hit)
        env system _ none

  requeue-Grows :
      (m replay : String) (s : Session R K)
      → replay_of m s ≡ some replay
      → Grows s₀ s
      → Grows s₀ (forget_and_requeue env replay s)
  unfolding forget_and_requeue
  requeue-Grows m replay s _ v =
      let forgotten =
        emit (update_resume_token none s.id)
          (record s { stale_resume_retried = true; resume_token = none }) in
      same-Grows s₀ (record_message env system stale_notice none forgotten) _
        (say-Grows s₀ forgotten
          (quiet-Grows s₀ s forgotten _ v refl refl refl refl refl refl refl refl) env system
          stale_notice none)
        refl refl refl refl refl

  fail-Grows : (m : String) (s : Session R K) → Grows s₀ s → Grows s₀ (plain_error env m s)
  unfolding plain_error
  fail-Grows m s v =
      let red = set_status SessionStatus.error s in
      let told = emit (error_raised s.id m) red in
      say-Grows s₀ told
        (quiet-Grows s₀ red told _ (set_status-Grows s₀ s v SessionStatus.error) refl refl refl refl
          refl refl refl refl)
        env system _ none

  rest-Grows : (s : Session R K) → Grows s₀ s → Grows s₀ (settle_down s)
  unfolding settle_down
  rest-Grows s v = elim (Bool-cases (same_status s.status SessionStatus.error)) [
    | inl c ↦ rw c (same-Grows s₀ s _ v refl refl refl refl refl)
    | inr c ↦ rw c (
        same-Grows s₀ (set_status idle s) _ (set_status-Grows s₀ s v idle) refl refl refl refl refl)
  ]

  ask-Grows :
      (tool : String) (input : Json) (k : K) (s : Session R K)
      → Grows s₀ s
      → Grows s₀ (ask_permission env tool input k s)
  unfolding ask_permission
  ask-Grows tool input k s v =
      let t = record s {
        pending = set (env.random_uuid s.drawn) k s.pending;
        drawn = suc s.drawn;
      } in
      quiet-Grows s₀ (set_status awaiting_permission t) _ _
        (set_status-Grows s₀ t (same-Grows s₀ s t v refl refl refl refl refl) awaiting_permission)
        refl refl refl refl refl refl refl refl

  token-Grows : (t : String) (s : Session R K) → Grows s₀ s → Grows s₀ (token_event t s)
  unfolding token_event
  token-Grows t s v = elim (Bool-cases (same_option (some t) s.resume_token)) [
    | inl c ↦ rw c (same-Grows s₀ s _ v refl refl refl refl refl)
    | inr c ↦ rw c (quiet-Grows s₀ s _ _ v refl refl refl refl refl refl refl refl)
  ]

  keeps : EventKeeps {K = K} env (Grows s₀)
  keeps = record {
    steps = record {
      shift = λ rest s v. same-Grows s₀ s _ v refl refl refl refl refl;
      start = start-Grows;
      say = λ role text m s v. say-Grows s₀ s v env role text m;
      sign_out = sign_out-Grows;
      requeue = requeue-Grows;
      fail = fail-Grows;
      rest = rest-Grows;
    };
    alert = λ m hit s _ v.
        emit_auth_required-Grows s₀ (record s { auth_alerted_this_turn = true })
          (same-Grows s₀ s _ v refl refl refl refl refl) hit;
    ask = ask-Grows;
    token = token-Grows;
  }

  enqueue_prompt-Grows :
      (p : String) (s : Session R K) → Grows s₀ s → Grows s₀ (enqueue_prompt env p s)
  unfolding enqueue_prompt
  enqueue_prompt-Grows p s v =
      let fresh = record s { auth_alerted_this_turn = false } in
      let said = record_message env user p none fresh in
      drain-keeps env keeps.steps _ (
        same-Grows s₀ said _
          (say-Grows s₀ fresh (same-Grows s₀ s fresh v refl refl refl refl refl) env user p none)
          refl refl refl refl refl)

  cancel-Grows : (s : Session R K) → Grows s₀ s → Grows s₀ (cancel env s)
  unfolding cancel
  cancel-Grows s v =
      quiet-Grows s₀ s _ (deny_all s.id s.pending) v refl refl refl
        (sym (stored-deny_all s.resume_token s.id s.pending)) refl
        (inserted-deny_all s.id s.pending) (added-deny_all s.id s.pending)
        (changes-deny_all s.id s.pending)

  retry_last_user_prompt-Grows :
      (s : Session R K) → Grows s₀ s → Grows s₀ (retry_last_user_prompt env s).0
  unfolding retry_last_user_prompt
  retry_last_user_prompt-Grows s v = elim (Option-cases (last_user s.history)) [
    | inl e ↦ rw (e, retry_last_user_prompt) v
    | inr (text, e) ↦
        rw (e, retry_last_user_prompt)
          (drain-keeps env keeps.steps _ (same-Grows s₀ s _ v refl refl refl refl refl))
  ]

  back_to_running-Grows : (s : Session R K) → Grows s₀ s → Grows s₀ (back_to_running s)
  unfolding back_to_running
  back_to_running-Grows s v =
      elim (Bool-cases (is_empty s.pending && same_status s.status awaiting_permission)) [
        | inl c ↦ rw c (set_status-Grows s₀ s v running)
        | inr c ↦ rw c v
      ]

  resolve_permission-Grows :
      (id : String) (allow : Bool) (s : Session R K)
      → Grows s₀ s
      → Grows s₀ (resolve_permission id allow s)
  unfolding resolve_permission answered
  resolve_permission-Grows id allow s v = elim (Option-cases (get id s.pending)) [
    | inl e ↦ rw (e, resolve_permission) v
    | inr (p, e) ↦
        rw (e, resolve_permission)
          (back_to_running-Grows (answered id allow p s) (
            quiet-Grows s₀ s _ _ v refl refl (append_assoc s.effects _ _) refl refl refl refl refl))
  ]

  step-Grows : (i : Input K) (s : Session R K) → Grows s₀ s → Grows s₀ (step env i s)
  unfolding step
  step-Grows (agent e) s v = handle_event-keeps env keeps e s v
  step-Grows (prompt p) s v = enqueue_prompt-Grows p s v
  step-Grows retry s v = retry_last_user_prompt-Grows s v
  step-Grows (permission id allow) s v = resolve_permission-Grows id allow s v
  step-Grows stop s v = cancel-Grows s v

pub run-Grows : {R K : Type 0} (is : List (Env R × Input K)) (s : Session R K) → Grows s (run is s)
run-Grows is s = run-keeps (Grows s) (λ env. step-Grows env s) is s (none-Grows s)
