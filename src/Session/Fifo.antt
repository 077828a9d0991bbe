-- ===== src/Session/Fifo.antt =====
-- server/sessions.ts: the queue of prompts against its specification.
use agent_web_mvp.Prelude.{
  ◌+◌, ◌≡◌, ◌≤◌, ◌⊎◌, sym, ap, ◌∙◌, String, true, List, [], ◌∷◌, ◌++◌, All, arith, append_assoc,
  append-nil,
}
use agent_web_mvp.Prelude.{length}
use agent_web_mvp.Session.State.{Session, Env}
use agent_web_mvp.Session.History.{Input, step, run}
use agent_web_mvp.Session.Line.{Accepts, InOrder, IsOrderly, prompts, line, step-line, prompts-cons}
use agent_web_mvp.Session.Pace.{ends, room, step-pace, ends-cons}

module _ {R K : Type 0} (log : R → List String) where
  -- Prompts run in the order in which they came, and one at a time. It holds for histories of prompts
  -- that are not empty, of answers to permission requests and of all that a runner reports but an
  -- error, with no retry and no cancellation, where the runner starts every run, no empty prompt waits
  -- at the start, and none waits there while nothing runs. What the runner was sent before, followed by
  -- what waited and by what was entered, is what it has been sent at the end followed by what still
  -- waits. It has been sent at most one prompt for each end of a run (onDone), and one more if nothing
  -- ran at the start and something runs at the end. If nothing runs at the end, nothing waits.
  pub prompts_fifo :
      (is : List (Env R × Input K)) (s : Session R K)
      → All (λ i. Accepts log i.0) is
      → All (λ i. InOrder i.1) is
      → IsOrderly log s
      → (log (run is s).runner ++ (run is s).queue ≡ (log s.runner ++ s.queue) ++ prompts is)
        × (length (log (run is s).runner) + room (run is s).busy
            ≤ (length (log s.runner) + room s.busy) + ends is)
        × (((run is s).busy ≡ true) ⊎ ((run is s).queue ≡ []))
  unfolding run
  prompts_fifo [] s a h o = (sym (append-nil _), omega arith, o.prompt_served)
  prompts_fifo ((env, i) ∷ is) s (a, b) (h, hs) o =
      let (l, o') = step-line log env a i s h o in
      let (ls, ps, d) = prompts_fifo is (step env i s) b hs o' in
      (
        ls
            ∙ ap (λ x. x ++ prompts is) l
            ∙ append_assoc (line log s) (prompts ((env, i) ∷ [])) (prompts is)
            ∙ ap (λ x. line log s ++ x) (sym (prompts-cons log env i is)),
        omega (arith, ps, step-pace log env a i s h o, ends-cons log env i is),
        d,
      )
