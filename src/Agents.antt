-- ===== src/Agents.antt =====
-- server/agents/base.ts: what a session asks of the program that runs its prompts, and what that
-- program reports back.
pub mod Remote
pub mod Claude
pub mod Codex
pub mod Runs
use agent_web_mvp.Prelude.{String, Option}
use agent_web_mvp.Types.{Role}
use agent_web_mvp.Types.Values.{Json}

-- A call of `send` starts a run, whose events come later; or it calls onError and then onDone
-- before it returns.
pub data SendResult : Type 0 where
  started : SendResult
  refused : (error : String) → SendResult

-- `R` is the runner's own state.
pub record AgentRunner (R : Type 0) : Type 0 where
  pub send : (prompt : String) (resume_token : Option String) → R → R × SendResult
  pub cancel : R → R

-- The callbacks of AgentEvents. `K` is what waits for the answer to a permission request.
pub data AgentEvent (K : Type 0) : Type 0 where
  on_message : Role → (text : String) (meta : Option Json) → AgentEvent K
  on_permission_request : (tool_name : String) (input : Json) → K → AgentEvent K
  on_error : (message : String) → AgentEvent K
  on_done : AgentEvent K
  on_resume_token : (token : String) → AgentEvent K
