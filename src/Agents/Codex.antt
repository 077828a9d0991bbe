-- ===== src/Agents/Codex.antt =====
-- server/agents/codex.ts: class CodexRunner, which runs a prompt by the command `codex exec`. The child process is
-- what it does: the chunks on its two streams, an error of the process, and its end. The texts of the
-- chunks, which TextDecoder gives, are parameters.
pub mod Tests
use agent_web_mvp.Prelude.{
  ℕ, String, Bool, true, false, not, List, [], ◌∷◌, ◌++◌, Option, none, some, ◌==◌, ◌<>◌,
  if◌then◌else◌, keep, nat_eq,
}
use agent_web_mvp.Types.{assistant, system}
use agent_web_mvp.Agents.{AgentEvent, on_message, on_error, on_done}

-- The label of the decoder for stderr on Windows, from the code page that chcp reports.
abbrev pub decoder_label : (code_page : ℕ) → String
decoder_label cp =
    if nat_eq cp 950
    then "big5"
    else if nat_eq cp 932
    then "shift_jis"
    else if nat_eq cp 936
    then "gbk"
    else if nat_eq cp 949
    then "euc-kr"
    else if nat_eq cp 1252
    then "windows-1252"
    else "utf-8"

-- CODEX_EXTRA_ARGS, from the parts between the spaces of CODEX_ARGS.
abbrev pub args_of : (parts : List String) (prompt : String) → List String
args_of parts prompt = "exec" ∷ keep (λ p. not (p == "")) parts ++ prompt ∷ []

pub data ProcessError : Type 0 where
  enoent : ProcessError
  other : (message : String) → ProcessError

pub data Output : Type 0 where
  stdout : (text : String) → Output
  stderr : (text : String) → Output
  error : ProcessError → Output

-- How `spawn` goes: it throws, or the process does something and closes, with an exit code or, after a signal,
-- with none; `code` is its text if it is not 0.
pub data Spawned : Type 0 where
  throws : (message : String) → Spawned
  process : List Output → (failure_code : Option String) → Spawned

abbrev pub error_text : (codex_bin : String) → ProcessError → String
error_text codex_bin enoent =
    "Cannot find \"" <> codex_bin <> "\" on PATH. Install the Codex CLI or set CODEX_BIN."
error_text codex_bin (other message) = message

unfoldable pub on_close : {K : Type 0} → Option String → List (AgentEvent K)
on_close none = on_done ∷ []
on_close (some code) =
    on_message system ("[codex exited with code " <> code <> "]") none ∷ on_done ∷ []

module _ {K : Type 0} (codex_bin : String) where
  unfoldable pub on_output : Output → AgentEvent K
  on_output (stdout text) = on_message assistant text none
  on_output (stderr text) = on_message system text none
  on_output (error e) = on_error (error_text codex_bin e)

  unfoldable pub on_outputs : List Output → List (AgentEvent K)
  unfolding on_output
  on_outputs [] = []
  on_outputs (o ∷ os) = on_output o ∷ on_outputs os

  -- The callbacks of one `send`.
  unfoldable pub send : Spawned → List (AgentEvent K)
  unfolding on_outputs on_close
  send (throws message) = on_error message ∷ on_done ∷ []
  send (process os failure_code) = on_outputs os ++ on_close failure_code

-- `current`, with its `killed`: whether the process is killed now, and what is left.
unfoldable pub cancel : Option Bool → Bool × Option Bool
cancel none = (false, none)
cancel (some true) = (false, some true)
cancel (some false) = (true, some true)
