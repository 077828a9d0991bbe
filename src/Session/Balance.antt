-- ===== src/Session/Balance.antt =====
-- server/sessions.ts: every permission request is answered or pending, and none is answered twice.
use agent_web_mvp.Prelude.{
  ℕ, suc, ◌≡◌, refl, ap, ◌∙◌, String, Bool, true, false, ◌&&◌, List, [], ◌∷◌, Option, none, some,
  arith, Bool-cases, Option-cases, inl, inr, same_option, All, length, append_assoc,
}
use agent_web_mvp.Prelude.JsMap.{get, set, All-set, All-remove}
use agent_web_mvp.Prelude.JsMap.Distinct.{IsMap-set, IsMap-remove, length-set_absent, length-remove}
use agent_web_mvp.Types.{SessionStatus, idle, running, awaiting_permission, user, system, Role}
use agent_web_mvp.Types.Values.{Json}
use agent_web_mvp.Types.AuthDetect.{AuthHit}
use agent_web_mvp.Session.State.{
  error_raised, Session, Env, emit, emit_auth_required, same_status, set_status, auth_hit,
  replay_of, settle_down, token_event, is_empty, answered, back_to_running, deny_all,
}
use agent_web_mvp.Session.Steps.{
  record_message, start, ask_permission, forget_and_requeue, plain_error, signed_out,
}
use agent_web_mvp.Session.Operations.{enqueue_prompt, last_user, retry_last_user_prompt, cancel}
use agent_web_mvp.Session.History.{Input, agent, prompt, retry, permission, stop, step, run}
use agent_web_mvp.Session.Keeps.{EventKeeps, drain-keeps, handle_event-keeps}
use agent_web_mvp.Session.Permissions.{
  asks, answers, asks-append, answers-append, asks-deny_all, answers-deny_all, answer_unknown,
  resolve-pending,
}
use agent_web_mvp.Session.Balanced.{
  weaken, unused, other-IsBalanced, back-IsBalanced, emit_auth-IsBalanced, same-IsBalanced,
  IsBalanced,
}

module _ {R K : Type 0} (uuid : ℕ → String) where
  module _ (env : Env R) (same_uuid : env.random_uuid ≡ uuid)
      (inj : (i j : ℕ) → uuid i ≡ uuid j → i ≡ j) where
    say-IsBalanced :
        (role : Role) (text : String) (m : Option Json) (s : Session R K)
        → IsBalanced uuid s
        → IsBalanced uuid (record_message env role text m s)
    unfolding record_message
    say-IsBalanced role text m s v = other-IsBalanced uuid s _ refl (omega arith) _ refl refl refl v

    start-IsBalanced :
        (next : String) (rest : List String) (s : Session R K)
        → s.busy ≡ false
        → IsBalanced uuid s
        → IsBalanced uuid (start env next rest s).0
    unfolding start
    start-IsBalanced next rest s b v =
        let t = record s { queue = rest; busy = true } in
        same-IsBalanced uuid (set_status running t) _ refl refl refl
          (back-IsBalanced uuid running t (same-IsBalanced uuid s t refl refl refl v))

    sign_out-IsBalanced :
        (m : String) (hit : AuthHit) (s : Session R K)
        → auth_hit m s ≡ some hit
        → IsBalanced uuid s
        → IsBalanced uuid (signed_out env hit s)
    unfolding signed_out
    sign_out-IsBalanced m hit s _ v =
        let alerted = record s { auth_alerted_this_turn = true } in
        let red = set_status SessionStatus.error alerted in
        say-IsBalanced system _ none (emit_auth_required hit red) (
          emit_auth-IsBalanced uuid hit red (
            back-IsBalanced uuid SessionStatus.error alerted
              (same-IsBalanced uuid s alerted refl refl refl v)))

    requeue-IsBalanced :
        (m replay : String) (s : Session R K)
        → replay_of m s ≡ some replay
        → IsBalanced uuid s
        → IsBalanced uuid (forget_and_requeue env replay s)
    unfolding forget_and_requeue record_message
    requeue-IsBalanced m replay s _ v =
        other-IsBalanced uuid s _ refl (omega arith) _ (append_assoc s.effects _ _) refl refl v

    fail-IsBalanced :
        (m : String) (s : Session R K) → IsBalanced uuid s → IsBalanced uuid (plain_error env m s)
    unfolding plain_error
    fail-IsBalanced m s v =
        let red = set_status SessionStatus.error s in
        say-IsBalanced system _ none (emit (error_raised s.id m) red) (
          other-IsBalanced uuid red _ refl (omega arith) _ refl refl refl
            (back-IsBalanced uuid SessionStatus.error s v))

    rest-IsBalanced : (s : Session R K) → IsBalanced uuid s → IsBalanced uuid (settle_down s)
    unfolding settle_down
    rest-IsBalanced s v = elim (Bool-cases (same_status s.status SessionStatus.error)) [
      | inl c ↦ rw c (same-IsBalanced uuid s _ refl refl refl v)
      | inr c ↦ rw c (
          same-IsBalanced uuid (set_status idle s) _ refl refl refl (back-IsBalanced uuid idle s v))
    ]

    token-IsBalanced :
        (t : String) (s : Session R K) → IsBalanced uuid s → IsBalanced uuid (token_event t s)
    unfolding token_event
    token-IsBalanced t s v = elim (Bool-cases (same_option (some t) s.resume_token)) [
      | inl c ↦ rw c (same-IsBalanced uuid s _ refl refl refl v)
      | inr c ↦ rw c (other-IsBalanced uuid s _ refl (omega arith) _ refl refl refl v)
    ]

    set_status_counts :
        (st : SessionStatus) (s : Session R K)
        → ((set_status st s).pending ≡ s.pending)
          × ((set_status st s).drawn ≡ s.drawn)
          × (asks (set_status st s).effects ≡ asks s.effects)
          × (answers (set_status st s).effects ≡ answers s.effects)
    unfolding set_status
    set_status_counts st s = elim (Bool-cases (same_status s.status st)) [
      | inl c ↦ rw c (refl, refl, refl, refl)
      | inr c ↦ rw c (
        refl,
        refl,
        omega (arith, asks-append s.effects),
        omega (arith, answers-append s.effects),
      )
    ]

    asked-IsBalanced :
        (s t : Session R K) (k : K)
        → t.pending ≡ set (uuid s.drawn) k s.pending
        → t.drawn ≡ suc s.drawn
        → asks t.effects ≡ suc (asks s.effects)
        → answers t.effects ≡ answers s.effects
        → IsBalanced uuid s
        → IsBalanced uuid t
    asked-IsBalanced s t k p d a b v = record {
      drawn_ids =
          rw (p, d)
            (All-set _ (uuid s.drawn) k s.pending
              (weaken uuid s.drawn (suc s.drawn) s.pending (omega arith) v.drawn_ids)
              (s.drawn, refl, omega arith));
      distinct = rw p (IsMap-set (uuid s.drawn) k s.pending v.distinct);
      balance = omega (
        arith,
        ap length p,
        length-set_absent (uuid s.drawn) k s.pending
            (unused uuid s.drawn s.pending inj v.drawn_ids),
        v.balance,
        a,
        b,
      );
    }

    ask-IsBalanced :
        (tool : String) (input : Json) (k : K) (s : Session R K)
        → IsBalanced uuid s
        → IsBalanced uuid (ask_permission env tool input k s)
    unfolding ask_permission
    ask-IsBalanced tool input k s v =
        let t = record s {
          pending = set (env.random_uuid s.drawn) k s.pending;
          drawn = suc s.drawn;
        } in
        let (p, d, a, b) = set_status_counts awaiting_permission t in
        asked-IsBalanced s _ k (p ∙ ap (λ f. set (f s.drawn) k s.pending) same_uuid) d
          (omega (arith, asks-append (set_status awaiting_permission t).effects, a))
          (omega (arith, answers-append (set_status awaiting_permission t).effects, b)) v

    keeps : EventKeeps {K = K} env (IsBalanced uuid)
    keeps = record {
      steps = record {
        shift = λ rest s v. same-IsBalanced uuid s _ refl refl refl v;
        start = start-IsBalanced;
        say = say-IsBalanced;
        sign_out = sign_out-IsBalanced;
        requeue = requeue-IsBalanced;
        fail = fail-IsBalanced;
        rest = rest-IsBalanced;
      };
      alert = λ m hit s _ v.
          emit_auth-IsBalanced uuid hit (record s { auth_alerted_this_turn = true })
            (same-IsBalanced uuid s _ refl refl refl v);
      ask = ask-IsBalanced;
      token = token-IsBalanced;
    }

    answered-IsBalanced :
        (id : String) (allow : Bool) (k : K) (s : Session R K)
        → get id s.pending ≡ some k
        → IsBalanced uuid s
        → IsBalanced uuid (answered id allow k s)
    unfolding answered
    answered-IsBalanced id allow k s e v = record {
      drawn_ids = All-remove _ id s.pending v.drawn_ids;
      distinct = IsMap-remove id s.pending v.distinct;
      balance = omega (
        arith,
        length-remove id k s.pending v.distinct e,
        v.balance,
        asks-append,
        answers-append,
      );
    }

    resumed : (s : Session R K) → IsBalanced uuid s → IsBalanced uuid (back_to_running s)
    unfolding back_to_running
    resumed s v =
        elim (Bool-cases (is_empty s.pending && same_status s.status awaiting_permission)) [
          | inl c ↦ rw c (back-IsBalanced uuid running s v)
          | inr c ↦ rw c v
        ]

    retry-IsBalanced :
        (s : Session R K) → IsBalanced uuid s → IsBalanced uuid (retry_last_user_prompt env s).0
    unfolding retry_last_user_prompt
    retry-IsBalanced s v = elim (Option-cases (last_user s.history)) [
      | inl e ↦ rw (e, retry_last_user_prompt) v
      | inr (text, e) ↦
          rw (e, retry_last_user_prompt)
            (drain-keeps env keeps.steps _ (same-IsBalanced uuid s _ refl refl refl v))
    ]

    step-IsBalanced :
        (i : Input K) (s : Session R K) → IsBalanced uuid s → IsBalanced uuid (step env i s)
    unfolding step enqueue_prompt cancel
    step-IsBalanced (agent e) s v = handle_event-keeps env keeps e s v
    step-IsBalanced (prompt p) s v =
        let fresh = record s { auth_alerted_this_turn = false } in
        let said = record_message env user p none fresh in
        drain-keeps env keeps.steps _ (
          same-IsBalanced uuid said _ refl refl refl
            (say-IsBalanced user p none fresh (same-IsBalanced uuid s fresh refl refl refl v)))
    step-IsBalanced retry s v = retry-IsBalanced s v
    step-IsBalanced (permission id allow) s v = elim (Option-cases (get id s.pending)) [
      | inl e ↦ rw (answer_unknown id allow s e) v
      | inr (k, e) ↦
          rw (resolve-pending id allow s k e)
            (resumed (answered id allow k s) (answered-IsBalanced id allow k s e v))
    ]
    step-IsBalanced stop s v = record {
      drawn_ids = tt;
      distinct = tt;
      balance = omega (
        arith,
        v.balance,
        asks-append s.effects (deny_all s.id s.pending),
        answers-append s.effects (deny_all s.id s.pending),
        asks-deny_all s.id s.pending,
        answers-deny_all s.id s.pending,
      );
    }

  -- Whatever happens to a balanced session, if randomUUID does not repeat itself: the answers that its
  -- permission promises have had and the requests that are still pending make up the number of the
  -- requests made, and the pending ids are distinct and were drawn before.
  pub run-IsBalanced :
      ((i j : ℕ) → uuid i ≡ uuid j → i ≡ j)
      → (is : List (Env R × Input K)) (s : Session R K) → All (λ i. i.0.random_uuid ≡ uuid) is
      → IsBalanced uuid s
      → IsBalanced uuid (run is s)
  unfolding run
  run-IsBalanced inj [] s u v = v
  run-IsBalanced inj ((env, i) ∷ is) s (u, us) v =
      run-IsBalanced inj is (step env i s) us (step-IsBalanced env u inj i s v)
