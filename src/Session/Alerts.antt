-- ===== src/Session/Alerts.antt =====
-- server/sessions.ts: the latch `authAlertedThisTurn`.
use agent_web_mvp.Prelude.{
  ℕ, suc, ◌+◌, ◌≤◌, ◌≡◌, refl, ap, ◌∙◌, String, Bool, true, false, ◌&&◌, List, [], ◌∷◌, ◌++◌,
  Option, none, some, arith, if◌then◌else◌, Bool-cases, Option-cases, inl, inr, is_some,
  same_option, All,
}
use agent_web_mvp.Prelude.JsMap.{get, set}
use agent_web_mvp.Types.{SessionStatus, idle, running, awaiting_permission, system, Role}
use agent_web_mvp.Types.Values.{Json}
use agent_web_mvp.Types.AuthDetect.{AuthHit}
use agent_web_mvp.Session.State.{
  Effect, error_raised, auth_required, Session, Env, emit, emit_auth_required, same_status,
  set_status, auth_hit, settle_down, token_event, is_empty, answered, back_to_running,
  resolve_permission, deny_all,
}
use agent_web_mvp.Session.Steps.{
  record_message, start, ask_permission, forget_and_requeue, plain_error, signed_out,
}
use agent_web_mvp.Session.Operations.{cancel}
use agent_web_mvp.Session.History.{Input, agent, prompt, retry, permission, stop, step, run}
use agent_web_mvp.Session.Keeps.{EventKeeps, handle_event-keeps}

-- How many effects tell the browser that a login is needed.
abbrev pub alerts : {K : Type 0} → List (Effect K) → ℕ
alerts [] = 0
alerts (auth_required id info ∷ es) = suc (alerts es)
alerts (_ ∷ es) = alerts es

-- The alerts so far, and the one that the latch still allows in this turn.
abbrev pub budget : {R K : Type 0} → Session R K → ℕ
budget s = alerts s.effects + (if s.auth_alerted_this_turn then 0 else 1)

module _ {K : Type 0} where
  alerts-append : (es fs : List (Effect K)) → alerts (es ++ fs) ≡ alerts es + alerts fs
  alerts-append [] fs = omega arith
  alerts-append (auth_required id info ∷ es) fs = omega (arith, alerts-append es fs)
  alerts-append (_ ∷ es) fs = omega (arith, alerts-append es fs)

  alerts-deny_all : (id : String) (p : List (String × K)) → alerts (deny_all id p) ≡ 0
  unfolding deny_all
  alerts-deny_all id [] = refl
  alerts-deny_all id ((r, k) ∷ p) = alerts-deny_all id p

module _ {R K : Type 0} where
  budget-set_status : (st : SessionStatus) (s : Session R K) → budget (set_status st s) ≡ budget s
  unfolding set_status
  budget-set_status st s = elim (Bool-cases (same_status s.status st)) [
    | inl c ↦ rw c
    | inr c ↦ rw c (omega (arith, alerts-append s.effects))
  ]

  emit_alert :
      (hit : AuthHit) (s : Session R K)
      → (alerts (emit_auth_required hit s).effects ≡ suc (alerts s.effects))
        × ((emit_auth_required hit s).auth_alerted_this_turn ≡ s.auth_alerted_this_turn)
  unfolding emit_auth_required
  emit_alert hit s = elim (Bool-cases (is_some s.resume_token)) [
    | inl c ↦ rw c (omega (arith, alerts-append), refl)
    | inr c ↦ rw c (omega (arith, alerts-append), refl)
  ]

  auth_hit-latch :
      (m : String) (s : Session R K) (hit : AuthHit)
      → auth_hit m s ≡ some hit
      → s.auth_alerted_this_turn ≡ false
  unfolding auth_hit
  auth_hit-latch m s hit e = ground arith

module _ {R K : Type 0} (env : Env R) where
  budget-say :
      (role : Role) (text : String) (m : Option Json) (s : Session R K)
      → budget (record_message env role text m s) ≡ budget s
  unfolding record_message
  budget-say role text m s = omega (arith, alerts-append s.effects)

  budget-start :
      (next : String) (rest : List String) (s : Session R K)
      → budget (start env next rest s).0 ≡ budget s
  unfolding start
  budget-start next rest s =
      omega (arith, budget-set_status running (record s { queue = rest; busy = true }))

  emit_budget :
      (hit : AuthHit) (s : Session R K)
      → s.auth_alerted_this_turn ≡ true
      → budget (emit_auth_required hit s) ≡ suc (budget s)
  emit_budget hit s e = ground (arith, emit_alert hit s)

  latch-set_status :
      (st : SessionStatus) (s : Session R K)
      → (set_status st s).auth_alerted_this_turn ≡ s.auth_alerted_this_turn
  unfolding set_status
  latch-set_status st s = ground arith

  budget-sign_out :
      (m : String) (hit : AuthHit) (s : Session R K)
      → auth_hit m s ≡ some hit
      → budget (signed_out env hit s) ≡ budget s
  unfolding signed_out
  budget-sign_out m hit s e =
      let alerted = record s { auth_alerted_this_turn = true } in
      let red = set_status SessionStatus.error alerted in
      budget-say system _ none (emit_auth_required hit red)
      ∙ emit_budget hit red (latch-set_status SessionStatus.error alerted)
      ∙ ap suc (budget-set_status SessionStatus.error alerted)
      ∙ ground (arith, auth_hit-latch m s hit e)

  budget-requeue :
      (replay : String) (s : Session R K) → budget (forget_and_requeue env replay s) ≡ budget s
  unfolding forget_and_requeue record_message
  budget-requeue replay s = omega (arith, alerts-append)

  budget-fail : (m : String) (s : Session R K) → budget (plain_error env m s) ≡ budget s
  unfolding plain_error
  budget-fail m s =
      let red = set_status SessionStatus.error s in
      budget-say system _ none (emit (error_raised s.id m) red)
      ∙ omega (arith, alerts-append red.effects, budget-set_status SessionStatus.error s)

  budget-rest : (s : Session R K) → budget (settle_down s) ≡ budget s
  unfolding settle_down
  budget-rest s = elim (Bool-cases (same_status s.status SessionStatus.error)) [
    | inl c ↦ rw c
    | inr c ↦ rw c (budget-set_status idle s)
  ]

  budget-alert :
      (m : String) (hit : AuthHit) (s : Session R K)
      → auth_hit m s ≡ some hit
      → budget (emit_auth_required hit (record s { auth_alerted_this_turn = true })) ≡ budget s
  budget-alert m hit s e =
      emit_budget hit (record s { auth_alerted_this_turn = true }) refl
      ∙ ground (arith, auth_hit-latch m s hit e)

  budget-ask :
      (tool : String) (input : Json) (k : K) (s : Session R K)
      → budget (ask_permission env tool input k s) ≡ budget s
  unfolding ask_permission
  budget-ask tool input k s =
      let t = record s {
        pending = set (env.random_uuid s.drawn) k s.pending;
        drawn = suc s.drawn;
      } in
      omega (
        arith,
        alerts-append (set_status awaiting_permission t).effects,
        budget-set_status awaiting_permission t,
      )

  budget-token : (t : String) (s : Session R K) → budget (token_event t s) ≡ budget s
  unfolding token_event
  budget-token t s = elim (Bool-cases (same_option (some t) s.resume_token)) [
    | inl c ↦ rw c
    | inr c ↦ rw c (omega (arith, alerts-append s.effects))
  ]

  keeps : (b : ℕ) → EventKeeps {K = K} env (λ s. budget s ≡ b)
  keeps b = record {
    steps = record {
      shift = λ rest s e. e;
      start = λ next rest s _ e. budget-start next rest s ∙ e;
      say = λ role text m s e. budget-say role text m s ∙ e;
      sign_out = λ m hit s h e. budget-sign_out m hit s h ∙ e;
      requeue = λ m replay s _ e. budget-requeue replay s ∙ e;
      fail = λ m s e. budget-fail m s ∙ e;
      rest = λ s e. budget-rest s ∙ e;
    };
    alert = λ m hit s h e. budget-alert m hit s h ∙ e;
    ask = λ tool input k s e. budget-ask tool input k s ∙ e;
    token = λ t s e. budget-token t s ∙ e;
  }

  budget-back : (s : Session R K) → budget (back_to_running s) ≡ budget s
  unfolding back_to_running
  budget-back s =
      elim (Bool-cases (is_empty s.pending && same_status s.status awaiting_permission)) [
        | inl c ↦ rw c (budget-set_status running s)
        | inr c ↦ rw c
      ]

  budget-resolve :
      (id : String) (allow : Bool) (s : Session R K)
      → budget (resolve_permission id allow s) ≡ budget s
  unfolding resolve_permission answered
  budget-resolve id allow s = elim (Option-cases (get id s.pending)) [
    | inl e ↦ rw (e, resolve_permission)
    | inr (p, e) ↦
        rw (e, resolve_permission)
          (budget-back (answered id allow p s) ∙ omega (arith, alerts-append))
  ]

  budget-cancel : (s : Session R K) → budget (cancel env s) ≡ budget s
  unfolding cancel
  budget-cancel s = omega (arith, alerts-append s.effects, alerts-deny_all s.id s.pending)

-- Neither a prompt nor a retry: what happens within one turn.
abbrev pub InTurn : {K : Type 0} → Input K → Type 0
InTurn (agent e) = Unit {0}
InTurn (prompt p) = ⊥
InTurn retry = ⊥
InTurn (permission id allow) = Unit {0}
InTurn stop = Unit {0}

module _ {R K : Type 0} where
  step-budget :
      (env : Env R) (i : Input K) (s : Session R K) → InTurn i → budget (step env i s) ≡ budget s
  unfolding step
  step-budget env (agent e) s _ = handle_event-keeps env (keeps env (budget s)) e s refl
  step-budget env (prompt p) s t = absurd t
  step-budget env retry s t = absurd t
  step-budget env (permission id allow) s _ = budget-resolve env id allow s
  step-budget env stop s _ = budget-cancel env s

  run-budget :
      (is : List (Env R × Input K)) (s : Session R K)
      → All (λ i. InTurn i.1) is
      → budget (run is s) ≡ budget s
  unfolding run
  run-budget [] s t = refl
  run-budget ((env, i) ∷ is) s (t, ts) = run-budget is (step env i s) ts ∙ step-budget env i s t

  -- Between one prompt or retry and the next the browser is told at most once that a login is needed,
  -- and not at all if it was told before in the same turn, whatever the runner reports, whatever the
  -- user answers or cancels, and however often the queue is drained meanwhile.
  one_alert_per_turn :
      (is : List (Env R × Input K)) (s : Session R K)
      → All (λ i. InTurn i.1) is
      → alerts (run is s).effects ≤ alerts s.effects + (if s.auth_alerted_this_turn then 0 else 1)
  one_alert_per_turn is s t = omega (arith, run-budget is s t)
