-- ===== src/Agents/Claude/Bridge.antt =====
-- client-go/helpers/claude-bridge.mjs: the process that runs one prompt for the daemon, between the lines
-- of its stdin, the lines that it writes, and the agent SDK.
use agent_web_mvp.Prelude.{
  String, Bool, true, false, List, [], ◌∷◌, ◌++◌, Option, none, some, or_else, truthy, ◌<>◌,
  if◌then◌else◌,
}
use agent_web_mvp.Prelude.JsMap.{JsMap, get, set, remove}
use agent_web_mvp.Types.{Role}
use agent_web_mvp.Types.Values.{Json}
use agent_web_mvp.Agents.Claude.{
  Block, text, tool_use, tool_result, SdkMessage, system, assistant, user, result, result_text,
  ready_text, use_meta, result_meta, ToolAnswer, can_use_tool,
}

pub data Line : Type 0 where
  message : Role → (text : String) (meta : Option Json) → Line
  permission_request : (request_id tool_name : String) (input : Json) → Line
  done : (resume_token error : Option String) → Line

-- A line of stdin that is JSON.
pub data Inbound : Type 0 where
  prompt : (prompt cwd : String) (resume model : Option String) → Inbound
  permission_response : (request_id : String) (allow : Bool) → Inbound
  cancel : Inbound
  other : Inbound

pub record Bridge : Type 0 where
  pub initial_prompt : Bool
  pub sdk_session_id : Option String
  -- The input of each tool call that waits for its answer.
  pub pending_permissions : JsMap Json
  pub aborted : Bool
  pub written : List Line
  -- What the promises of canUseTool were resolved to.
  pub answers : List (String × ToolAnswer)
  pub exited : Bool

abbrev pub started : Bridge
started = record {
  initial_prompt = false;
  sdk_session_id = none;
  pending_permissions = [];
  aborted = false;
  written = [];
  answers = [];
  exited = false;
}

abbrev pub write : Line → Bridge → Bridge
write line b = record b { written = b.written ++ line ∷ [] }

unfoldable pub exit : Bridge → Bridge
exit b = record b { exited = true }

unfoldable pub fail : String → Bridge → Bridge
unfolding exit
fail error b = exit (write (done none (some error)) b)

-- The handler of a `permission_response`, given the entry of the map.
abbrev pub answer : (request_id : String) (allow : Bool) → Option Json → Bridge → Bridge
answer id allow none b = b
answer id allow (some input) b = record b {
  pending_permissions = remove id b.pending_permissions;
  answers = b.answers ++ (id, can_use_tool allow input) ∷ [];
}

unfoldable pub on_line : Option Inbound → Bridge → Bridge
unfolding can_use_tool
on_line none b = b
on_line (some (prompt words cwd resume model)) b =
    if b.initial_prompt
    then b
    else record b { initial_prompt = true; sdk_session_id = truthy resume }
on_line (some (permission_response id allow)) b = answer id allow (get id b.pending_permissions) b
on_line (some cancel) b = record b { aborted = true }
on_line (some Inbound.other) b = b

unfoldable pub on_stdin_close : Bridge → Bridge
unfolding exit
on_stdin_close b = if b.initial_prompt then b else exit b

unfoldable pub ask_permission : (request_id tool_name : String) → Json → Bridge → Bridge
ask_permission id tool input b =
    write (permission_request id tool input)
      (record b { pending_permissions = set id input b.pending_permissions })

abbrev pub texts : Option String → List Line
texts none = []
texts (some t) = message Role.assistant t none ∷ []

unfoldable pub assistant_block : Block → List Line
assistant_block (text t) = texts (truthy t)
assistant_block (tool_use name input id) =
    message Role.tool_use ("→ " <> name) (some (use_meta name input id)) ∷ []
assistant_block (tool_result content id is_error) = []
assistant_block Block.other = []

unfoldable pub user_block : Block → List Line
unfolding result_text
user_block (tool_result content id is_error) =
    message Role.tool_result (result_text content) (some (result_meta id is_error)) ∷ []
user_block (text t) = []
user_block (tool_use name input id) = []
user_block Block.other = []

unfoldable pub blocks : (Block → List Line) → List Block → List Line
blocks f [] = []
blocks f (x ∷ xs) = f x ++ blocks f xs

abbrev pub newer : Option String → Option String → Option String
newer none old = old
newer (some id) old = some id

abbrev pub said : List Line → Bridge → Bridge
said lines b = record b { written = b.written ++ lines }

unfoldable pub handle_sdk_message : SdkMessage → Bridge → Bridge
unfolding blocks assistant_block user_block
handle_sdk_message (system session_id is_init model) b =
    said (if is_init then message Role.system (ready_text model) none ∷ [] else [])
      (record b { sdk_session_id = newer (truthy session_id) b.sdk_session_id })
handle_sdk_message (assistant bs) b = said (blocks assistant_block bs) b
handle_sdk_message (user bs) b = said (blocks user_block bs) b
handle_sdk_message (result session_id is_error words) b =
    said
      (if is_error
        then message Role.system (or_else words "Agent reported an error") none ∷ []
        else [])
      (record b { sdk_session_id = newer (truthy session_id) b.sdk_session_id })
handle_sdk_message SdkMessage.other b = b

-- The end of the query's loop, and its exception.
unfoldable pub on_end : Bridge → Bridge
unfolding exit
on_end b = exit (write (done b.sdk_session_id none) b)

unfoldable pub on_throw : String → Bridge → Bridge
unfolding exit
on_throw error b =
    exit (write (done b.sdk_session_id (some (if b.aborted then "cancelled" else error))) b)

-- The SDK does something only after the prompt; nothing happens in a process that has exited.
pub data Happening : Type 0 where
  reads : Option Inbound → Happening
  stdin_closes : Happening
  sdk_missing : (error : String) → Happening
  sdk_yields : SdkMessage → Happening
  sdk_asks : (request_id tool_name : String) → Json → Happening
  sdk_ends : Happening
  sdk_throws : (error : String) → Happening

unfoldable pub act : Happening → Bridge → Bridge
unfolding on_line on_stdin_close fail handle_sdk_message ask_permission on_end on_throw
act (reads line) b = on_line line b
act stdin_closes b = on_stdin_close b
act (sdk_missing error) b = if b.initial_prompt then fail error b else b
act (sdk_yields m) b = if b.initial_prompt then handle_sdk_message m b else b
act (sdk_asks id tool input) b = if b.initial_prompt then ask_permission id tool input b else b
act sdk_ends b = if b.initial_prompt then on_end b else b
act (sdk_throws error) b = if b.initial_prompt then on_throw error b else b

unfoldable pub step : Happening → Bridge → Bridge
unfolding act
step h b = if b.exited then b else act h b

unfoldable pub run : List Happening → Bridge → Bridge
unfolding step
run [] b = b
run (h ∷ hs) b = run hs (step h b)
