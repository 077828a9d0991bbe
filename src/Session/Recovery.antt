-- ===== src/Session/Recovery.antt =====
-- server/sessions.ts: the branches of onError.
use agent_web_mvp.Prelude.{
  ◌≡◌, refl, ◌∙◌, ap, ap₂, String, Bool, true, false, List, [], ◌∷◌, ◌++◌, Option, none, some,
  arith, ◌==◌,
}
use agent_web_mvp.Types.{SessionStatus, running, user, system}
use agent_web_mvp.Types.AuthDetect.{AuthHit}
use agent_web_mvp.Agents.{SendResult, started, refused}
use agent_web_mvp.Session.State.{
  Session, Env, set_status, replay_of, auth_hit, is_stale_resume_error,
}
use agent_web_mvp.Session.Steps.{
  record_message, start, forget_and_requeue, plain_error, error_with, error_event, after_send,
  drain_with, drain_step,
}
use agent_web_mvp.Session.Operations.{drain, enqueue_prompt, cancel}
use agent_web_mvp.Session.Drain.{drain-eq-drain_step}

module _ {R K : Type 0} (env : Env R) where
  pub start_result :
      (s : Session R K) (next : String) (rest : List String) (r : R) (x : SendResult)
      → env.runner.send next s.resume_token s.runner ≡ (r, x)
      → ((start env next rest s).1 ≡ x)
        × ((start env next rest s).0.runner ≡ r)
        × ((start env next rest s).0.in_flight_prompt ≡ some next)
        × ((start env next rest s).0.busy ≡ true)
        × ((start env next rest s).0.queue ≡ rest)
        × ((start env next rest s).0.resume_token ≡ s.resume_token)
        × ((start env next rest s).0.stale_resume_retried ≡ s.stale_resume_retried)
        × ((start env next rest s).0.cancelling ≡ s.cancelling)
        × ((start env next rest s).0.status ≡ running)
  unfolding start set_status
  start_result s next rest r x a = ground arith

  after_send-started :
      (d : Session R K → Session R K) (p : Session R K × SendResult)
      → p.1 ≡ started
      → after_send env d p ≡ p.0
  unfolding after_send
  after_send-started d (s, started) e = refl
  after_send-started d (s, refused m) e = cc

  drain_with-start :
      (d : Session R K → Session R K) (s : Session R K) (next : String) (rest : List String)
      → (next == "") ≡ false
      → (start env next rest s).1 ≡ started
      → drain_with env d s false (next ∷ rest) ≡ (start env next rest s).0
  unfolding drain_with
  drain_with-start d s next rest n e = rw n (after_send-started d (start env next rest s) e)

  -- One round of drainQueue on an idle session whose runner accepts.
  pub drain-start :
      (s : Session R K) (next : String) (rest : List String) (r : R)
      → s.busy ≡ false
      → s.queue ≡ next ∷ rest
      → (next == "") ≡ false
      → env.runner.send next s.resume_token s.runner ≡ (r, started)
      → drain env s ≡ (start env next rest s).0
  unfolding drain_step
  drain-start s next rest r b q n a =
      drain-eq-drain_step env s
      ∙ ap (λ c. drain_with env (drain env) s c s.queue) b
      ∙ ap (λ c. drain_with env (drain env) s false c) q
      ∙ drain_with-start (drain env) s next rest n (start_result s next rest r started a).0

  pub drain-busy : (s : Session R K) → s.busy ≡ true → drain env s ≡ s
  unfolding drain_step drain_with
  drain-busy s b = drain-eq-drain_step env s ∙ ap (λ c. drain_with env (drain env) s c s.queue) b

  pub drain_empty : (s : Session R K) → s.busy ≡ false → s.queue ≡ [] → drain env s ≡ s
  unfolding drain_step drain_with
  drain_empty s b q =
      drain-eq-drain_step env s
      ∙ ap (λ c. drain_with env (drain env) s c s.queue) b
      ∙ ap (λ c. drain_with env (drain env) s false c) q

  requeue_fields :
      (p : String) (s : Session R K)
      → ((forget_and_requeue env p s).busy ≡ false)
        × ((forget_and_requeue env p s).queue ≡ p ∷ s.queue)
        × ((forget_and_requeue env p s).runner ≡ s.runner)
        × ((forget_and_requeue env p s).resume_token ≡ none)
        × ((forget_and_requeue env p s).stale_resume_retried ≡ true)
  unfolding forget_and_requeue record_message
  requeue_fields p s = (refl, refl, refl, refl, refl)

  replay_of-some :
      (m p : String) (s : Session R K)
      → is_stale_resume_error m ≡ true
      → s.stale_resume_retried ≡ false
      → s.in_flight_prompt ≡ some p
      → replay_of m s ≡ some p
  unfolding replay_of
  replay_of-some m p s st u i = ground arith

  error_with-replay :
      (d : Session R K → Session R K) (m p : String) (s : Session R K) (c : Bool)
      (o : Option AuthHit) (q : Option String)
      → c ≡ false
      → o ≡ none
      → q ≡ some p
      → error_with env d m s c o q ≡ d (forget_and_requeue env p s)
  unfolding error_with
  error_with-replay d m p s c o q e f g = ground arith

  error_event-replay :
      (m p : String) (s : Session R K) (r : R)
      → s.cancelling ≡ false
      → auth_hit m s ≡ none
      → replay_of m s ≡ some p
      → (p == "") ≡ false
      → env.runner.send p none s.runner ≡ (r, started)
      → error_event env (drain env) m s ≡ (start env p s.queue (forget_and_requeue env p s)).0
  unfolding error_event
  error_event-replay m p s r c h e n a =
      let (resting, queued, same, forgot, _) = requeue_fields p s in
      error_with-replay (drain env) m p s s.cancelling (auth_hit m s) (replay_of m s) c h e
      ∙ drain-start (forget_and_requeue env p s) p s.queue r resting queued n
          (ap₂ (env.runner.send p) forgot same ∙ a)

  -- A run that was not cancelled, whose prompt is not empty, reports an error that says that the
  -- conversation is gone and does not ask for a login, and the recovery was not used before. If the
  -- runner then starts the same prompt without a token, the session is busy with it, the other prompts
  -- stay queued, the token is dropped and the recovery is used up.
  pub stale_error_replays :
      (m p : String) (s : Session R K) (r : R)
      → s.cancelling ≡ false
      → auth_hit m s ≡ none
      → is_stale_resume_error m ≡ true
      → s.stale_resume_retried ≡ false
      → s.in_flight_prompt ≡ some p
      → (p == "") ≡ false
      → env.runner.send p none s.runner ≡ (r, started)
      → let t = error_event env (drain env) m s in
        (t.in_flight_prompt ≡ some p)
        × (t.busy ≡ true)
        × (t.queue ≡ s.queue)
        × (t.runner ≡ r)
        × (t.resume_token ≡ none)
        × (t.stale_resume_retried ≡ true)
  stale_error_replays m p s r c h st u i n a =
      let f = forget_and_requeue env p s in
      let (resting, queued, same, forgot, used) = requeue_fields p s in
      let (_, run, flight, busy, queue, token, latch, _, _) =
        start_result f p s.queue r started (ap₂ (env.runner.send p) forgot same ∙ a) in
      rw (error_event-replay m p s r c h (replay_of-some m p s st u i) n a)
        (flight, busy, queue, run, token ∙ forgot, latch ∙ used)

  -- The recovery happens at most once for a token: a second stale error starts no run. The session
  -- goes into the status `error` and its queue and its runner stay as they are.
  second_stale_error :
      (m : String) (s : Session R K)
      → s.cancelling ≡ false
      → auth_hit m s ≡ none
      → s.stale_resume_retried ≡ true
      → let t = error_event env (drain env) m s in
        (t.status ≡ SessionStatus.error)
        × (t.queue ≡ s.queue)
        × (t.runner ≡ s.runner)
        × (t.busy ≡ s.busy)
        × (t.resume_token ≡ s.resume_token)
  unfolding error_event error_with replay_of plain_error set_status record_message
  second_stale_error m s c h u = ground arith

  error_with-cancelled :
      (d : Session R K → Session R K) (m : String) (s : Session R K) (c : Bool) (o : Option AuthHit)
      (q : Option String)
      → c ≡ true
      → error_with env d m s c o q ≡ record_message env system "Cancelled." none s
  unfolding error_with
  error_with-cancelled d m s true o q e = refl
  error_with-cancelled d m s false o q e = cc

  -- The session just before enqueuePrompt drains the queue, behind a cancel().
  prepared : String → Session R K → Session R K
  prepared p s =
      let said =
        record_message env user p none (record (cancel env s) { auth_alerted_this_turn = false }) in
      record said { queue = said.queue ++ p ∷ [] }

  prepared_fields :
      (p : String) (s : Session R K)
      → s.busy ≡ false
      → ((prepared p s).busy ≡ false)
        × ((prepared p s).queue ≡ p ∷ [])
        × ((prepared p s).cancelling ≡ true)
  unfolding prepared record_message cancel
  prepared_fields p s b = (b, refl, refl)

  prepared_send :
      (p : String) (s : Session R K) (r : R)
      → env.runner.send p s.resume_token (env.runner.cancel s.runner) ≡ (r, started)
      → env.runner.send p (prepared p s).resume_token (prepared p s).runner ≡ (r, started)
  unfolding prepared record_message cancel
  prepared_send p s r a = a

  -- The bug of `cancelling`: cancel() on a session that runs nothing leaves the flag set, and
  -- nothing but the end of the next run clears it. So the next prompt runs as if it were being
  -- cancelled: an error of that run is not reported, and the status stays `running`.
  pub cancel_idle_hides_error :
      (m p : String) (s : Session R K) (r : R)
      → s.busy ≡ false
      → (p == "") ≡ false
      → env.runner.send p s.resume_token (env.runner.cancel s.runner) ≡ (r, started)
      → let t = enqueue_prompt env p (cancel env s) in
        (t.in_flight_prompt ≡ some p)
        × (t.status ≡ running)
        × (error_event env (drain env) m t ≡ record_message env system "Cancelled." none t)
  unfolding error_event enqueue_prompt prepared
  cancel_idle_hides_error m p s r b n a =
      let q = prepared p s in
      let (_, _, flight, _, _, _, _, latch, status) =
        start_result q p [] r started (prepared_send p s r a) in
      rw
        (drain-start q p [] r (prepared_fields p s b).0 (prepared_fields p s b).1 n
          (prepared_send p s r a))
        (
          flight,
          status,
          error_with-cancelled (drain env) m _ _ _ _ (latch ∙ (prepared_fields p s b).2),
        )
