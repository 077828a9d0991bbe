-- ===== src/Session/Line.antt =====
-- server/sessions.ts: what the runner has been sent and what waits, as one line of prompts, over
-- histories without an error, a retry or a cancellation.
use agent_web_mvp.Prelude.{
  ◌≡◌, ◌⊎◌, refl, sym, ap, ap₂, ◌∙◌, String, Bool, true, false, List, [], ◌∷◌, ◌++◌, Option, arith,
  ◌==◌, inl, inr, All, All-append, append_assoc, append-nil,
}
use agent_web_mvp.Types.{Role}
use agent_web_mvp.Types.Values.{Json}
use agent_web_mvp.Agents.{
  started, on_message, on_permission_request, on_error, on_done, on_resume_token,
}
use agent_web_mvp.Session.State.{
  Session, Env, emit_auth_required, set_status, settle_down, done_event, token_event, answered,
  back_to_running, resolve_permission,
}
use agent_web_mvp.Session.Steps.{record_message, start, message_event, ask_permission}
use agent_web_mvp.Session.Operations.{drain, enqueue_prompt, handle_event}
use agent_web_mvp.Session.History.{Input, agent, prompt, retry, permission, stop, step, run}
use agent_web_mvp.Session.Recovery.{drain-busy, drain-start, drain_empty, start_result}

abbrev pub IsPrompt : String → Type 0
IsPrompt p = (p == "") ≡ false

-- Prompts, and what the runner reports of a run but an error; no retry and no cancellation.
abbrev pub InOrder : {K : Type 0} → Input K → Type 0
InOrder (agent (on_message role text meta)) = Unit {0}
InOrder (agent (on_permission_request tool input k)) = Unit {0}
InOrder (agent (on_error m)) = ⊥
InOrder (agent on_done) = Unit {0}
InOrder (agent (on_resume_token t)) = Unit {0}
InOrder (prompt p) = IsPrompt p
InOrder retry = ⊥
InOrder (permission id allow) = Unit {0}
InOrder stop = ⊥

abbrev pub prompts : {R K : Type 0} → List (Env R × Input K) → List String
prompts [] = []
prompts ((env, prompt p) ∷ is) = p ∷ prompts is
prompts ((env, _) ∷ is) = prompts is

-- A runner that starts every run, and whose state knows the prompts that it was sent.
pub record Accepts {R : Type 0} (log : R → List String) (env : Env R) : Type 0 where
  pub starts : (p : String) (t : Option String) (r : R) → (env.runner.send p t r).1 ≡ started
  pub logs :
      (p : String) (t : Option String) (r : R) → log (env.runner.send p t r).0 ≡ log r ++ p ∷ []

module _ {R K : Type 0} (log : R → List String) where
  -- What was sent, and what waits.
  abbrev pub line : Session R K → List String
  line s = log s.runner ++ s.queue

  -- No empty prompt waits, and none waits while nothing runs.
  pub record IsOrderly (s : Session R K) : Type 0 where
    pub real : All IsPrompt s.queue
    pub prompt_served : (s.busy ≡ true) ⊎ (s.queue ≡ [])

  module _ (env : Env R) (a : Accepts log env) where
    start_line :
        (next : String) (rest : List String) (s : Session R K)
        → All IsPrompt rest
        → (line (start env next rest s).0 ≡ log s.runner ++ next ∷ rest)
          × IsOrderly (start env next rest s).0
    start_line next rest s h =
        let (_, run, _, busy, queue, _, _, _, _) = start_result env s next rest _ _ refl in
        (
          ap₂ (λ r q. log r ++ q) run queue
              ∙ ap (λ l. l ++ rest) (a.logs next s.resume_token s.runner)
              ∙ append_assoc (log s.runner) (next ∷ []) rest,
          record { real = rw queue h; prompt_served = inl busy },
        )

    drain-line :
        (s : Session R K) (b : Bool) (q : List String)
        → s.busy ≡ b
        → s.queue ≡ q
        → All IsPrompt q
        → (line (drain env s) ≡ line s) × IsOrderly (drain env s)
    drain-line s true q e f h =
        rw (drain-busy env s e) (refl, record { real = rw f h; prompt_served = inl e })
    drain-line s false [] e f h =
        rw (drain_empty env s e f) (refl, record { real = rw f tt; prompt_served = inr f })
    drain-line s false (next ∷ rest) e f (n, h) =
        let r = (env.runner.send next s.resume_token s.runner).0 in
        let (l, o) = start_line next rest s h in
        rw
          (drain-start env s next rest r e f n
            (ap (λ x. (r, x)) (a.starts next s.resume_token s.runner)))
          (l ∙ ap (λ q. log s.runner ++ q) (sym f), o)

    -- What the other callbacks leave alone.
    pub record Same (s t : Session R K) : Type 0 where
      pub runner : t.runner ≡ s.runner
      pub queue : t.queue ≡ s.queue
      pub busy : t.busy ≡ s.busy

    Same-IsOrderly : (s t : Session R K) → Same s t → IsOrderly s → (line t ≡ line s) × IsOrderly t
    Same-IsOrderly s t m o = (
      ap₂ (λ r q. log r ++ q) m.runner m.queue,
      record { real = rw m.queue o.real; prompt_served = rw (m.busy, m.queue) o.prompt_served },
    )

    still : (s t : Session R K) → Same s t → IsOrderly s → (line t ≡ line s ++ []) × IsOrderly t
    still s t m o = let (l, o') = Same-IsOrderly s t m o in (l ∙ sym (append-nil _), o')

    pub say-Same :
        (role : Role) (text : String) (m : Option Json) (s : Session R K)
        → Same s (record_message env role text m s)
    unfolding record_message
    say-Same role text m s = record { runner = refl; queue = refl; busy = refl }

    pub message-Same :
        (role : Role) (text : String) (m : Option Json) (s : Session R K)
        → Same s (message_event env role text m s)
    unfolding message_event record_message emit_auth_required
    message-Same role text m s = record {
      runner = ground arith;
      queue = ground arith;
      busy = ground arith;
    }

    pub ask-Same :
        (tool : String) (input : Json) (k : K) (s : Session R K)
        → Same s (ask_permission env tool input k s)
    unfolding ask_permission set_status
    ask-Same tool input k s = record {
      runner = ground arith;
      queue = ground arith;
      busy = ground arith;
    }

    pub token-Same : (t : String) (s : Session R K) → Same s (token_event t s)
    unfolding token_event
    token-Same t s = record { runner = ground arith; queue = ground arith; busy = ground arith }

    pub resolve-Same :
        (id : String) (allow : Bool) (s : Session R K) → Same s (resolve_permission id allow s)
    unfolding resolve_permission answered back_to_running set_status
    resolve-Same id allow s = record {
      runner = ground arith;
      queue = ground arith;
      busy = ground arith;
    }

    settle_fields :
        (s : Session R K) → ((settle_down s).runner ≡ s.runner) × ((settle_down s).queue ≡ s.queue)
    unfolding settle_down set_status
    settle_fields s = ground arith

    done_line :
        (s : Session R K)
        → IsOrderly s
        → (line (done_event (drain env) s) ≡ line s) × IsOrderly (done_event (drain env) s)
    unfolding done_event
    done_line s o =
        let (r, q) = settle_fields s in
        let (l, o') = drain-line (settle_down s) _ s.queue refl q o.real in
        (l ∙ ap₂ (λ a b. log a ++ b) r q, o')

    prompt_line :
        (p : String) (s : Session R K)
        → IsPrompt p
        → IsOrderly s
        → (line (enqueue_prompt env p s) ≡ line s ++ p ∷ []) × IsOrderly (enqueue_prompt env p s)
    unfolding enqueue_prompt record_message
    prompt_line p s n o =
        let (l, o') =
          drain-line _ _ (s.queue ++ p ∷ []) refl refl
            (All-append IsPrompt s.queue (p ∷ []) o.real (n, tt)) in
        (l ∙ sym (append_assoc (log s.runner) s.queue (p ∷ [])), o')

    pub step-line :
        (i : Input K) (s : Session R K)
        → InOrder i
        → IsOrderly s
        → (line (step env i s) ≡ line s ++ prompts ((env, i) ∷ [])) × IsOrderly (step env i s)
    unfolding step handle_event
    step-line (agent (on_message role text m)) s h o = still s _ (message-Same role text m s) o
    step-line (agent (on_permission_request tool input k)) s h o =
        still s _ (ask-Same tool input k s) o
    step-line (agent (on_error m)) s h o = absurd h
    step-line (agent on_done) s h o = let (l, o') = done_line s o in (l ∙ sym (append-nil _), o')
    step-line (agent (on_resume_token t)) s h o = still s _ (token-Same t s) o
    step-line (prompt p) s h o = prompt_line p s h o
    step-line retry s h o = absurd h
    step-line (permission id allow) s h o = still s _ (resolve-Same id allow s) o
    step-line stop s h o = absurd h

  pub prompts-cons :
      (env : Env R) (i : Input K) (is : List (Env R × Input K))
      → prompts ((env, i) ∷ is) ≡ prompts ((env, i) ∷ []) ++ prompts is
  prompts-cons env (agent e) is = refl
  prompts-cons env (prompt p) is = refl
  prompts-cons env retry is = refl
  prompts-cons env (permission id allow) is = refl
  prompts-cons env stop is = refl
