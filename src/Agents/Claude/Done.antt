-- ===== src/Agents/Claude/Done.antt =====
-- client-go/helpers/claude-bridge.mjs: one process handles one prompt and then exits.
use agent_web_mvp.Prelude.{◌≡◌, Bool, true, false, String, List, [], ◌∷◌, ◌++◌, Option, All}
use agent_web_mvp.Agents.Claude
use agent_web_mvp.Agents.Claude.Bridge.{Line, message, permission_request, done, Bridge}

abbrev pub is_done : Line → Bool
is_done (message r t meta) = false
is_done (permission_request id tool input) = false
is_done (done token error) = true

abbrev pub IsSaid : List Line → Type 0
IsSaid = All (λ l. is_done l ≡ false)

-- How far a process is: it waits for a prompt, it runs one, it has written its `done`, or its
-- stdin was closed before a prompt.
pub data Stage (b : Bridge) : Type 0 where
  waiting : b.exited ≡ false → b.initial_prompt ≡ false → b.written ≡ [] → Stage b
  running : b.exited ≡ false → b.initial_prompt ≡ true → IsSaid b.written → Stage b
  finished :
      (ls : List Line) (token error : Option String)
      → b.exited ≡ true
      → b.initial_prompt ≡ true
      → IsSaid ls
      → b.written ≡ ls ++ done token error ∷ []
      → Stage b
  unused : b.exited ≡ true → b.initial_prompt ≡ false → b.written ≡ [] → Stage b
