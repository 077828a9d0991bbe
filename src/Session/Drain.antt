-- ===== src/Session/Drain.antt =====
-- server/sessions.ts: drainQueue terminates. The fuel of the model is enough: the model satisfies the
-- recursive equation of the code, whatever the runner does.
use agent_web_mvp.Prelude.{
  ℕ, zero, suc, ◌≤◌, ◌<◌, ◌≡◌, refl, String, Bool, true, false, List, [], ◌∷◌, Option, none, some,
  arith, ◌==◌, if◌then◌else◌, length, ap, ◌∙◌,
}
use agent_web_mvp.Types.{system}
use agent_web_mvp.Types.AuthDetect.{AuthHit}
use agent_web_mvp.Agents.{SendResult, started, refused}
use agent_web_mvp.Session.State.{
  Session, Env, settle_down, done_event, rounds, set_status, emit_auth_required, replay_of,
  auth_hit,
}
use agent_web_mvp.Session.Steps.{
  record_message, start, forget_and_requeue, plain_error, signed_out, error_with, error_event,
  after_send, drain_with, drain_step,
}
use agent_web_mvp.Session.Operations.{drain_queue, drain}

module _ {R K : Type 0} (env : Env R) where
  start-rounds :
      (next : String) (rest : List String) (s : Session R K)
      → s.queue ≡ next ∷ rest
      → rounds (start env next rest s).0 < rounds s
  unfolding start set_status
  start-rounds next rest s e = ground (arith, ap length e)

  settle_down-rounds : (s : Session R K) → rounds (settle_down s) ≡ rounds s
  unfolding settle_down set_status
  settle_down-rounds s = ground arith

  signed_out-rounds : (hit : _) (s : Session R K) → rounds (signed_out env hit s) ≡ rounds s
  unfolding signed_out set_status record_message emit_auth_required
  signed_out-rounds hit s = ground arith

  plain_error-rounds : (m : String) (s : Session R K) → rounds (plain_error env m s) ≡ rounds s
  unfolding plain_error set_status record_message
  plain_error-rounds m s = ground arith

  cancelled-rounds :
      (m : String) (s : Session R K) → rounds (record_message env system m none s) ≡ rounds s
  unfolding record_message
  cancelled-rounds m s = ground arith

  forget-rounds :
      (m replay : String) (s : Session R K)
      → replay_of m s ≡ some replay
      → rounds (forget_and_requeue env replay s) ≡ rounds s
  unfolding forget_and_requeue record_message replay_of
  forget-rounds m replay s e = ground arith

  -- The four ways in which onError ends, as a rule for what holds of its result.
  pub error_with_cases {ℓ} :
      (P : Session R K → Type ℓ) (d : Session R K → Session R K) (m : String) (s : Session R K)
      (c : Bool) (o : Option AuthHit) (p : Option String)
      → (c ≡ true → P (record_message env system "Cancelled." none s))
      → ((hit : AuthHit) → c ≡ false → o ≡ some hit → P (signed_out env hit s))
      → ((replay : String)
          → c ≡ false
          → o ≡ none
          → p ≡ some replay
          → P (d (forget_and_requeue env replay s)))
      → (c ≡ false → o ≡ none → p ≡ none → P (plain_error env m s))
      → P (error_with env d m s c o p)
  unfolding error_with
  error_with_cases P d m s true o p cancelled signed replayed plain = cancelled refl
  error_with_cases P d m s false (some hit) p cancelled signed replayed plain = signed hit refl refl
  error_with_cases P d m s false none (some replay) cancelled signed replayed plain =
      replayed replay refl refl refl
  error_with_cases P d m s false none none cancelled signed replayed plain = plain refl refl refl

  error_event-rounds :
      (d : Session R K → Session R K) (m : String) (s : Session R K)
      → ((t : Session R K) → rounds (d t) ≤ rounds t)
      → rounds (error_event env d m s) ≤ rounds s
  unfolding error_event
  error_event-rounds d m s h =
      error_with_cases (λ t. rounds t ≤ rounds s) d m s s.cancelling (auth_hit m s) (replay_of m s)
        (λ _. omega (arith, cancelled-rounds "Cancelled." s))
        (λ hit _ _. omega (arith, signed_out-rounds hit s))
        (λ replay _ _ f.
          omega (arith, h (forget_and_requeue env replay s), forget-rounds m replay s f))
        (λ _ _ _. omega (arith, plain_error-rounds m s))

  error_with-cong :
      (d d' : Session R K → Session R K) (m : String) (s : Session R K) (c : Bool)
      (o : Option AuthHit) (p : Option String)
      → ((replay : String)
          → p ≡ some replay
          → d (forget_and_requeue env replay s) ≡ d' (forget_and_requeue env replay s))
      → error_with env d m s c o p ≡ error_with env d' m s c o p
  unfolding error_with
  error_with-cong d d' m s true o p h = refl
  error_with-cong d d' m s false (some hit) p h = refl
  error_with-cong d d' m s false none (some replay) h = h replay refl
  error_with-cong d d' m s false none none h = refl

  error_event-cong :
      (d d' : Session R K → Session R K) (m : String) (s : Session R K)
      → ((t : Session R K) → rounds t ≤ rounds s → d t ≡ d' t)
      → error_event env d m s ≡ error_event env d' m s
  unfolding error_event
  error_event-cong d d' m s h =
      error_with-cong d d' m s s.cancelling (auth_hit m s) (replay_of m s) (λ replay f.
        h (forget_and_requeue env replay s) (omega (arith, forget-rounds m replay s f)))

  after_send-rounds :
      (d : Session R K → Session R K) (r : Session R K × SendResult)
      → ((t : Session R K) → rounds (d t) ≤ rounds t)
      → rounds (after_send env d r) ≤ rounds r.0
  unfolding after_send done_event
  after_send-rounds d (s, started) h = omega arith
  after_send-rounds d (s, refused m) h = omega (
    arith,
    error_event-rounds d m s h,
    settle_down-rounds (error_event env d m s),
    h (settle_down (error_event env d m s)),
  )

  after_send-cong :
      (d d' : Session R K → Session R K) (r : Session R K × SendResult)
      → ((t : Session R K) → rounds (d t) ≤ rounds t)
      → ((t : Session R K) → rounds t ≤ rounds r.0 → d t ≡ d' t)
      → after_send env d r ≡ after_send env d' r
  unfolding after_send done_event
  after_send-cong d d' (s, started) falls h = refl
  after_send-cong d d' (s, refused m) falls h =
      h (settle_down (error_event env d m s))
        (omega (arith, error_event-rounds d m s falls, settle_down-rounds (error_event env d m s)))
      ∙ ap (λ t. d' (settle_down t)) (error_event-cong d d' m s h)

  drain_with-rounds :
      (d : Session R K → Session R K) (s : Session R K) (b : Bool) (q : List String)
      → s.queue ≡ q
      → ((t : Session R K) → rounds (d t) ≤ rounds t)
      → rounds (drain_with env d s b q) ≤ rounds s
  unfolding drain_with
  drain_with-rounds d s true q e h = omega arith
  drain_with-rounds d s false [] e h = omega arith
  drain_with-rounds d s false (next ∷ rest) e h = ground (
    arith,
    ap length e,
    start-rounds next rest s e,
    after_send-rounds d (start env next rest s) h,
  )

  drain_with-cong :
      (d d' : Session R K → Session R K) (s : Session R K) (b : Bool) (q : List String)
      → s.queue ≡ q
      → ((t : Session R K) → rounds (d t) ≤ rounds t)
      → ((t : Session R K) → rounds t < rounds s → d t ≡ d' t)
      → drain_with env d s b q ≡ drain_with env d' s b q
  unfolding drain_with
  drain_with-cong d d' s true q e falls h = refl
  drain_with-cong d d' s false [] e falls h = refl
  drain_with-cong d d' s false (next ∷ rest) e falls h =
      ap (λ t. if next == "" then record s { queue = rest } else t)
        (after_send-cong d d' (start env next rest s) falls
          (λ t le. h t (omega (arith, start-rounds next rest s e))))

  drain_queue-rounds : (f : ℕ) (s : Session R K) → rounds (drain_queue env f s) ≤ rounds s
  unfolding drain_queue drain_step
  drain_queue-rounds zero s = omega arith
  drain_queue-rounds (suc f) s =
      drain_with-rounds (drain_queue env f) s s.busy s.queue refl (drain_queue-rounds f)

  -- More fuel than rounds changes nothing.
  drain_queue-fuel :
      (f g : ℕ) (s : Session R K)
      → rounds s < f
      → rounds s < g
      → drain_queue env f s ≡ drain_queue env g s
  unfolding drain_queue drain_step
  drain_queue-fuel zero g s hf hg = absurd (omega arith)
  drain_queue-fuel (suc f) zero s hf hg = absurd (omega arith)
  drain_queue-fuel (suc f) (suc g) s hf hg =
      drain_with-cong (drain_queue env f) (drain_queue env g) s s.busy s.queue refl
        (drain_queue-rounds f) (λ t lt. drain_queue-fuel f g t (omega arith) (omega arith))

  -- `drain` satisfies the equation by which the source defines drainQueue: its body, with calls of
  -- itself inside. So the fuel never runs out, whatever the runner answers.
  pub drain-eq-drain_step : (s : Session R K) → drain env s ≡ drain_step env (drain env) s
  unfolding drain drain_queue drain_step
  drain-eq-drain_step s =
      drain_with-cong (drain_queue env (rounds s)) (drain env) s s.busy s.queue refl
        (drain_queue-rounds (rounds s))
        (λ t lt. drain_queue-fuel (rounds s) (suc (rounds t)) t lt (omega arith))

  pub drain-rounds : (s : Session R K) → rounds (drain env s) ≤ rounds s
  unfolding drain
  drain-rounds s = drain_queue-rounds (suc (rounds s)) s
