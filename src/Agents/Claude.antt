-- ===== src/Agents/Claude.antt =====
-- server/agents/claude.ts: class ClaudeRunner, which runs a prompt by the agent SDK. The SDK is not in the
-- repository: what its query yields is a list of messages, read as the code reads them, and at the
-- end it may throw. A field that is missing is `none`.
pub mod Bridge
pub mod Says
pub mod Translation
pub mod Agreement
pub mod Done
pub mod Answers
pub mod Tests
use agent_web_mvp.Prelude.{
  ℕ, String, Bool, true, false, List, [], ◌∷◌, ◌++◌, Option, none, some, or_else, truthy, ◌<>◌,
  if◌then◌else◌,
}
use agent_web_mvp.Types.{Role}
use agent_web_mvp.Types.Values.{Json, string, boolean, object, end, field}
use agent_web_mvp.Types.AuthDetect.{slice_to}
use agent_web_mvp.Agents.{
  AgentEvent, on_message, on_permission_request, on_error, on_done, on_resume_token,
}

-- The content of a tool's result: a text, or an array, in which an item of another type than `text` is
-- `none`.
pub data Content : Type 0 where
  plain : String → Content
  items : List (Option String) → Content
  missing : Content

pub data Block : Type 0 where
  text : (text : Option String) → Block
  tool_use : (name : String) (input : Json) (id : String) → Block
  tool_result : Content → (tool_use_id : String) (is_error : Bool) → Block
  other : Block

pub data SdkMessage : Type 0 where
  system : (session_id : Option String) (is_init : Bool) (model : Option String) → SdkMessage
  assistant : List Block → SdkMessage
  user : List Block → SdkMessage
  result : (session_id : Option String) (is_error : Bool) (result : Option String) → SdkMessage
  other : SdkMessage

-- What the SDK does while it runs a prompt: it yields a message, or it calls canUseTool, where `K`
-- is what waits for the answer.
pub data SdkStep (K : Type 0) : Type 0 where
  yields : SdkMessage → SdkStep K
  asks : (tool_name : String) (input : Json) → K → SdkStep K

unfoldable pub join : List (Option String) → String
unfolding ◌<>◌
join [] = ""
join (none ∷ cs) = join cs
join (some t ∷ cs) = t <> join cs

unfoldable pub result_text : Content → String
unfolding join slice_to
result_text (plain t) = slice_to 4000 t
result_text (items cs) = slice_to 4000 (join cs)
result_text missing = ""

abbrev pub ready_text : Option String → String
ready_text model = "Session ready (model: " <> or_else model "unknown" <> ")"

abbrev pub use_meta : (name : String) → Json → (id : String) → Json
use_meta name input id =
    object (field "name" (string name) (field "input" input (field "id" (string id) end)))

abbrev pub result_meta : (tool_use_id : String) (is_error : Bool) → Json
result_meta tool_use_id is_error =
    object (field "tool_use_id" (string tool_use_id) (field "is_error" (boolean is_error) end))

module _ {K : Type 0} where
  abbrev pub tokens : Option String → List (AgentEvent K)
  tokens none = []
  tokens (some id) = on_resume_token id ∷ []

  abbrev pub texts : Option String → List (AgentEvent K)
  texts none = []
  texts (some t) = on_message Role.assistant t none ∷ []

  unfoldable pub assistant_block : Block → List (AgentEvent K)
  assistant_block (text t) = texts (truthy t)
  assistant_block (tool_use name input id) =
      on_message Role.tool_use ("→ " <> name) (some (use_meta name input id)) ∷ []
  assistant_block (tool_result content id is_error) = []
  assistant_block Block.other = []

  unfoldable pub user_block : Block → List (AgentEvent K)
  unfolding result_text
  user_block (tool_result content id is_error) =
      on_message Role.tool_result (result_text content) (some (result_meta id is_error)) ∷ []
  user_block (text t) = []
  user_block (tool_use name input id) = []
  user_block Block.other = []

  unfoldable pub blocks : (Block → List (AgentEvent K)) → List Block → List (AgentEvent K)
  blocks f [] = []
  blocks f (b ∷ bs) = f b ++ blocks f bs

  -- The callbacks that one message of the SDK leads to, in order.
  unfoldable pub handle_sdk_message : SdkMessage → List (AgentEvent K)
  unfolding blocks assistant_block user_block
  handle_sdk_message (system session_id is_init model) =
      tokens (truthy session_id)
      ++ (if is_init then on_message Role.system (ready_text model) none ∷ [] else [])
  handle_sdk_message (assistant bs) = blocks assistant_block bs
  handle_sdk_message (user bs) = blocks user_block bs
  handle_sdk_message (result session_id is_error said) =
      tokens (truthy session_id)
      ++ (if is_error then on_error (or_else said "Agent reported an error") ∷ [] else [])
  handle_sdk_message SdkMessage.other = []

  unfoldable pub on_sdk_step : SdkStep K → List (AgentEvent K)
  unfolding handle_sdk_message
  on_sdk_step (yields m) = handle_sdk_message m
  on_sdk_step (asks tool input k) = on_permission_request tool input k ∷ []

  unfoldable pub on_sdk_steps : List (SdkStep K) → List (AgentEvent K)
  unfolding on_sdk_step
  on_sdk_steps [] = []
  on_sdk_steps (s ∷ ss) = on_sdk_step s ++ on_sdk_steps ss

  abbrev pub failed : Option String → List (AgentEvent K)
  failed none = []
  failed (some message) = on_error message ∷ []

  -- The callbacks of one `send`: `failure` is what the query throws after its last step.
  unfoldable pub send :
      (installed : Bool) → List (SdkStep K) → (failure : Option String) → List (AgentEvent K)
  unfolding on_sdk_steps
  send false steps failure =
      on_error "@anthropic-ai/claude-agent-sdk is not installed. Run `npm install` first."
      ∷ on_done
      ∷ []
  send true steps failure = on_sdk_steps steps ++ (failed failure ++ on_done ∷ [])

-- What canUseTool resolves to.
pub data ToolAnswer : Type 0 where
  allow : (updated_input : Json) → ToolAnswer
  deny : (message : String) → ToolAnswer

unfoldable pub can_use_tool : (allowed : Bool) → Json → ToolAnswer
can_use_tool true input = allow input
can_use_tool false input = deny "User denied permission via web UI."
