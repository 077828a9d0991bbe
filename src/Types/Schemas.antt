-- ===== src/Types/Schemas.antt =====
-- shared/types.ts: the zod schemas of what arrives from a daemon, with their bounds. The package zod
-- is the parameter `Zod`: its checks of one value, with what its documentation says of them. An
-- object schema reads the keys that it names and drops the rest.
pub mod Bounds
pub mod RoundTrip
pub mod Checks
pub mod Tests
use agent_web_mvp.Prelude.{
  ℕ, ◌≤◌, ◌≡◌, ◌↔◌, String, Bool, List, [], ◌∷◌, Option, none, some, ◌>>=◌, length, ◌==◌,
  if◌then◌else◌,
}
use agent_web_mvp.Prelude.JsMap.{get}
use agent_web_mvp.Types.Values.{
  Json, string, boolean, natural, array, object, Items, nil, cons, Fields, end, field,
}
use agent_web_mvp.Types.AuthDetect.{js_length}
use agent_web_mvp.Types.{
  Role, user, assistant, system, tool_use, tool_result, DirEntry, AgentPath, DaemonClientMessage,
  daemon_message, daemon_permission_request, daemon_done, daemon_dir_listing,
  daemon_codex_enable_ack,
}
use agent_web_mvp.Devices.{DeviceHello}

abbrev pub run_id_max : ℕ
run_id_max = 200

abbrev pub request_id_max : ℕ
request_id_max = 200

abbrev pub text_max : ℕ
text_max = 524288

abbrev pub tool_name_max : ℕ
tool_name_max = 200

abbrev pub path_max : ℕ
path_max = 4096

abbrev pub token_max : ℕ
token_max = 8192

abbrev pub error_max : ℕ
error_max = 4096

abbrev pub entries_max : ℕ
entries_max = 10000

abbrev pub entry_name_max : ℕ
entry_name_max = 512

abbrev pub hostname_max : ℕ
hostname_max = 255

abbrev pub short_str_max : ℕ
short_str_max = 200

-- A check applied to each item of an array.
abbrev pub each : {A : Type 0} → (Json → Option A) → Items → Option (List A)
each check nil = some []
each check (cons j js) = check j >>= λ a. each check js >>= λ as'. some (a ∷ as')

abbrev pub HasLength : ℕ → ℕ → String → Type 0
HasLength min max s = (min ≤ js_length s) × (js_length s ≤ max)

pub record Zod : Type 1 where
  -- z.string().min(min).max(max)
  pub string_of : (min max : ℕ) → Json → Option String
  pub string_of_iff :
      (min max : ℕ) (j : Json) (s : String)
      → (string_of min max j ≡ some s) ↔ ((j ≡ string s) × HasLength min max s)
  -- z.boolean()
  pub boolean_of : Json → Option Bool
  pub boolean_of_iff : (j : Json) (b : Bool) → (boolean_of j ≡ some b) ↔ (j ≡ boolean b)
  -- z.number().int().min(min)
  pub int_of : (min : ℕ) → Json → Option ℕ
  pub int_of_iff :
      (min : ℕ) (j : Json) (n : ℕ) → (int_of min j ≡ some n) ↔ ((j ≡ natural n) × (min ≤ n))
  -- z.enum(names)
  pub enum_of : (A : Type 0) → List (String × A) → Json → Option A
  pub enum_of_iff :
      (A : Type 0) (names : List (String × A)) (j : Json) (a : A)
      → (enum_of A names j ≡ some a) ↔ ((s : String) × (j ≡ string s) × (get s names ≡ some a))
  -- z.array(check).max(max)
  pub array_of : (A : Type 0) (max : ℕ) → (Json → Option A) → Json → Option (List A)
  pub array_of_iff :
      (A : Type 0) (max : ℕ) (check : Json → Option A) (j : Json) (xs : List A)
      → (array_of A max check j ≡ some xs)
        ↔ ((js : Items) × (j ≡ array js) × (each check js ≡ some xs) × (length xs ≤ max))
  -- z.record(z.string(), z.unknown())
  pub record_of : Json → Option Json
  pub record_of_iff :
      (j v : Json) → (record_of j ≡ some v) ↔ ((v ≡ j) × ((fs : Fields) × (j ≡ object fs)))
  -- z.unknown(), also where the key is missing
  pub unknown_of : Option Json → Option Json
  pub unknown_of_lem : (j : Json) → unknown_of (some j) ≡ some j

unfoldable pub lookup : String → Fields → Option Json
lookup k end = none
lookup k (field key j fs) = if key == k then some j else lookup k fs

abbrev pub fields_of : Json → Option Fields
fields_of (object fs) = some fs
fields_of _ = none

-- A key that has to be there, and one that may be left out.
abbrev pub required : {A : Type 0} → String → (Json → Option A) → Fields → Option A
required k check fs = lookup k fs >>= check

abbrev pub if_there : {A : Type 0} → (Json → Option A) → Option Json → Option (Option A)
if_there check none = some none
if_there check (some j) = check j >>= λ a. some (some a)

abbrev pub optional : {A : Type 0} → String → (Json → Option A) → Fields → Option (Option A)
optional k check fs = if_there check (lookup k fs)

abbrev pub roles : List (String × Role)
roles =
    ("user", user)
    ∷ ("assistant", assistant)
    ∷ ("system", system)
    ∷ ("tool_use", tool_use)
    ∷ ("tool_result", tool_result)
    ∷ []

module _ (z : Zod) where
  unfoldable pub dir_entry_schema : Json → Option DirEntry
  dir_entry_schema j = do
    fs ← fields_of j
    name ← required "name" (z.string_of 0 entry_name_max) fs
    is_dir ← required "isDir" z.boolean_of fs
    some (record { name = name; is_dir = is_dir })

  unfoldable pub message_schema : Fields → Option DaemonClientMessage
  message_schema fs = do
    run_id ← required "runId" (z.string_of 1 run_id_max) fs
    role ← required "role" (z.enum_of Role roles) fs
    text ← required "text" (z.string_of 0 text_max) fs
    meta ← optional "meta" z.record_of fs
    some (daemon_message run_id role text meta)

  unfoldable pub permission_request_schema : Fields → Option DaemonClientMessage
  permission_request_schema fs = do
    run_id ← required "runId" (z.string_of 1 run_id_max) fs
    request_id ← required "requestId" (z.string_of 1 request_id_max) fs
    tool_name ← required "toolName" (z.string_of 1 tool_name_max) fs
    input ← z.unknown_of (lookup "input" fs)
    some (daemon_permission_request run_id request_id tool_name input)

  unfoldable pub done_schema : Fields → Option DaemonClientMessage
  done_schema fs = do
    run_id ← required "runId" (z.string_of 1 run_id_max) fs
    resume_token ← optional "resumeToken" (z.string_of 0 token_max) fs
    error ← optional "error" (z.string_of 0 error_max) fs
    some (daemon_done run_id resume_token error)

  unfoldable pub dir_listing_schema : Fields → Option DaemonClientMessage
  dir_listing_schema fs = do
    request_id ← required "requestId" (z.string_of 1 request_id_max) fs
    path ← required "path" (z.string_of 0 path_max) fs
    parent ← optional "parent" (z.string_of 0 path_max) fs
    entries ← required "entries" (z.array_of DirEntry entries_max dir_entry_schema) fs
    error ← optional "error" (z.string_of 0 error_max) fs
    some (daemon_dir_listing request_id path parent entries error)

  unfoldable pub codex_enable_ack_schema : Fields → Option DaemonClientMessage
  codex_enable_ack_schema fs = do
    request_id ← required "requestId" (z.string_of 1 request_id_max) fs
    success ← required "success" z.boolean_of fs
    error ← optional "error" (z.string_of 0 error_max) fs
    some (daemon_codex_enable_ack request_id success error)

  -- The member of the union that the key `type` names.
  unfoldable pub union_member : Fields → Option Json → Option DaemonClientMessage
  union_member fs (some (string t)) =
      if t == "daemon_message"
      then message_schema fs
      else if t == "daemon_permission_request"
      then permission_request_schema fs
      else if t == "daemon_done"
      then done_schema fs
      else if t == "daemon_dir_listing"
      then dir_listing_schema fs
      else if t == "daemon_codex_enable_ack"
      then codex_enable_ack_schema fs
      else none
  union_member fs _ = none

  unfoldable pub daemon_client_message_schema : Json → Option DaemonClientMessage
  unfolding union_member
  daemon_client_message_schema j = do fs ← fields_of j; union_member fs (lookup "type" fs)

  unfoldable pub agent_schema : Json → Option AgentPath
  agent_schema j = do
    fs ← fields_of j
    name ← required "name" (z.string_of 1 short_str_max) fs
    path ← required "path" (z.string_of 0 path_max) fs
    some (record { name = name; path = path })

  abbrev is_hello : Json → Option (Unit {0})
  is_hello (string t) = if t == "hello" then some tt else none
  is_hello _ = none

  unfoldable pub device_hello_message_schema : Json → Option DeviceHello
  device_hello_message_schema j = do
    fs ← fields_of j
    type ← required "type" is_hello fs
    hostname ← required "hostname" (z.string_of 1 hostname_max) fs
    display_name ← optional "displayName" (z.string_of 0 short_str_max) fs
    os ← required "os" (z.string_of 1 short_str_max) fs
    arch ← required "arch" (z.string_of 1 short_str_max) fs
    version ← required "version" (z.string_of 1 short_str_max) fs
    agents ← required "agents" (z.array_of AgentPath 50 agent_schema) fs
    pid ← required "pid" (z.int_of 0) fs
    codex_enabled ← optional "codexEnabled" z.boolean_of fs
    some (record {
      hostname = hostname;
      display_name = display_name;
      os = os;
      arch = arch;
      version = version;
      agents = agents;
      pid = pid;
      codex_enabled = codex_enabled;
    })
