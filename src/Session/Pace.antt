-- ===== src/Session/Pace.antt =====
-- server/sessions.ts: one run at a time, by count: a run is started only while none is on, and only
-- the end of a run makes room for another.
use agent_web_mvp.Prelude.{
  ℕ, suc, ◌+◌, ◌≡◌, ◌≤◌, refl, sym, ap, ap₂, ◌∙◌, String, Bool, true, false, List, [], ◌∷◌, ◌++◌,
  arith, All, All-append,
}
use agent_web_mvp.Prelude.{length, length-append}
use agent_web_mvp.Agents.{on_message, on_permission_request, on_error, on_done, on_resume_token}
use agent_web_mvp.Session.State.{Session, Env, set_status, settle_down, done_event}
use agent_web_mvp.Session.Steps.{record_message}
use agent_web_mvp.Session.Operations.{drain, enqueue_prompt, handle_event}
use agent_web_mvp.Session.History.{Input, agent, prompt, retry, permission, stop, step}
use agent_web_mvp.Session.Line.{
  Accepts, IsPrompt, InOrder, IsOrderly, Same, message-Same, ask-Same, token-Same, resolve-Same,
}
use agent_web_mvp.Session.Recovery.{drain-busy, drain-start, drain_empty, start_result}

-- The ends of runs in a history.
abbrev pub ends : {R K : Type 0} → List (Env R × Input K) → ℕ
ends [] = 0
ends ((env, agent on_done) ∷ is) = suc (ends is)
ends ((env, _) ∷ is) = ends is

-- One, if no run is on.
abbrev pub room : Bool → ℕ
room true = 0
room false = 1

at_most : {x y : ℕ} → x ≡ y → x ≤ y + 0
at_most e = omega (arith, e)

module _ {R K : Type 0} (log : R → List String) where
  -- The runs that were started, and the one for which there is room.
  abbrev pub pace : Session R K → ℕ
  pace s = length (log s.runner) + room s.busy

  module _ (env : Env R) (a : Accepts log env) where
    drain-pace :
        (s : Session R K) (b : Bool) (q : List String)
        → s.busy ≡ b
        → s.queue ≡ q
        → All IsPrompt q
        → pace (drain env s) ≡ pace s
    drain-pace s true q e f h = rw (drain-busy env s e) refl
    drain-pace s false [] e f h = rw (drain_empty env s e f) refl
    drain-pace s false (next ∷ rest) e f (n, h) =
        let r = (env.runner.send next s.resume_token s.runner).0 in
        let (_, run, _, busy, _, _, _, _, _) = start_result env s next rest _ _ refl in
        let l = a.logs next s.resume_token s.runner in
        let k = length-append (log s.runner) (next ∷ []) in
        rw
          (drain-start env s next rest r e f n
            (ap (λ x. (r, x)) (a.starts next s.resume_token s.runner)))
          (ap₂ (λ x b. length (log x) + room b) run busy
            ∙ ap (λ x. length x + 0) l
            ∙ ap (λ x. x + 0) k
            ∙ sym (ap (λ b. length (log s.runner) + room b) e ∙ omega arith))

    Same-pace : (s t : Session R K) → Same log env a s t → pace t ≤ pace s + 0
    Same-pace s t m = rw (m.runner, m.busy) (omega arith)

    settle-pace : (s : Session R K) → pace (settle_down s) ≤ pace s + 1
    unfolding settle_down set_status
    settle-pace s = ground arith

    settle_queue : (s : Session R K) → (settle_down s).queue ≡ s.queue
    unfolding settle_down set_status
    settle_queue s = ground arith

    done-pace : (s : Session R K) → IsOrderly log s → pace (done_event (drain env) s) ≤ pace s + 1
    unfolding done_event
    done-pace s o =
        let e = drain-pace (settle_down s) _ s.queue refl (settle_queue s) o.real in
        rw e (settle-pace s)

    prompt-pace :
        (p : String) (s : Session R K)
        → IsPrompt p
        → IsOrderly log s
        → pace (enqueue_prompt env p s) ≤ pace s + 0
    unfolding enqueue_prompt record_message
    prompt-pace p s n o = at_most (
        drain-pace _ _ (s.queue ++ p ∷ []) refl refl
          (All-append IsPrompt s.queue (p ∷ []) o.real (n, tt)))

    pub step-pace :
        (i : Input K) (s : Session R K)
        → InOrder i
        → IsOrderly log s
        → pace (step env i s) ≤ pace s + ends ((env, i) ∷ [])
    unfolding step handle_event
    step-pace (agent (on_message role text m)) s h o =
        Same-pace s _ (message-Same log env a role text m s)
    step-pace (agent (on_permission_request tool input k)) s h o =
        Same-pace s _ (ask-Same log env a tool input k s)
    step-pace (agent (on_error m)) s h o = absurd h
    step-pace (agent on_done) s h o = done-pace s o
    step-pace (agent (on_resume_token t)) s h o = Same-pace s _ (token-Same log env a t s)
    step-pace (prompt p) s h o = prompt-pace p s h o
    step-pace retry s h o = absurd h
    step-pace (permission id allow) s h o = Same-pace s _ (resolve-Same log env a id allow s)
    step-pace stop s h o = absurd h

  pub ends-cons :
      (env : Env R) (i : Input K) (is : List (Env R × Input K))
      → ends ((env, i) ∷ is) ≡ ends ((env, i) ∷ []) + ends is
  ends-cons env (agent (on_message role text m)) is = omega arith
  ends-cons env (agent (on_permission_request tool input k)) is = omega arith
  ends-cons env (agent (on_error m)) is = omega arith
  ends-cons env (agent on_done) is = omega arith
  ends-cons env (agent (on_resume_token t)) is = omega arith
  ends-cons env (prompt p) is = omega arith
  ends-cons env retry is = omega arith
  ends-cons env (permission id allow) is = omega arith
  ends-cons env stop is = omega arith
