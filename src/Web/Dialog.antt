-- ===== src/Web/Dialog.antt =====
-- web/src/components/NewSessionDialog.tsx: the state of the dialog, from its opening to its end. A step is what
-- one event does, with the effects that React runs after it. `closed` is set by the parent's onCreate and
-- onCancel, which take the dialog away. A field that the form hides can be changed here as well.
pub mod Choices
pub mod Tests
use agent_web_mvp.Prelude.{
  String, Bool, true, false, ◌&&◌, ◌||◌, not, List, [], ◌∷◌, ◌++◌, Option, none, some, any, keep,
  head?, truthy, or_else, if◌then◌else◌, ◌==◌, same_option, is_some,
}
use agent_web_mvp.Types.{
  AgentKind, claude, codex, DeviceInfo, AgentPath, ClientMessage, create_session,
  enable_codex_on_device, ServerMessage, codex_enable_result,
}
use agent_web_mvp.Types.Models.{is_allowed_claude_model, is_allowed_codex_model}
use agent_web_mvp.Session.Title.{trim}
use agent_web_mvp.Session.State.{agent_name}

pub record Form : Type 0 where
  pub cwd : String
  pub title : String
  pub device_id : String
  pub model : String

pub record Dialog : Type 0 where
  pub devices : List DeviceInfo
  pub agent : AgentKind
  pub model : String
  pub cwd : String
  pub title : String
  pub device_id : String
  pub sandbox_mode : String
  pub enabling : Bool
  pub enable_error : Option String
  pub pending_enable_device_id : Option String
  pub enable_then_create : Option Form
  pub sent : List ClientMessage
  pub created : List ClientMessage
  pub closed : Bool

abbrev pub same_agent : AgentKind → AgentKind → Bool
same_agent claude claude = true
same_agent codex codex = true
same_agent _ _ = false

abbrev pub has_agent : AgentKind → DeviceInfo → Bool
has_agent a device = any (λ p. p.name == agent_name a) device.agents

-- agentsAvailable.has.
unfoldable pub is_available : AgentKind → Dialog → Bool
is_available a d =
    any (has_agent a)
      (if d.device_id == "" then d.devices else keep (λ v. v.id == d.device_id) d.devices)

abbrev pub is_empty : List DeviceInfo → Bool
is_empty [] = true
is_empty (_ ∷ _) = false

unfoldable pub is_disabled : AgentKind → Dialog → Bool
is_disabled a d = not (is_empty d.devices) && not (is_available a d)

-- The agent that the first effect flips to.
unfoldable pub flipped : Dialog → AgentKind
flipped d =
    if is_empty d.devices || is_available d.agent d
    then d.agent
    else if is_available claude d
    then claude
    else if is_available codex d
    then codex
    else d.agent

abbrev pub set_agent : AgentKind → Dialog → Dialog
set_agent a d = if same_agent a d.agent then d else record d { agent = a; model = "" }

-- The effects after a step: a change of the agent clears the model, and so does the flip.
unfoldable pub after_render : Dialog → Dialog
unfolding flipped
after_render d = set_agent (flipped d) d

unfoldable pub codex_candidate_device : Dialog → Option DeviceInfo
codex_candidate_device d =
    if d.device_id == ""
    then head? (keep (has_agent codex) d.devices)
    else head? (keep (λ v. v.id == d.device_id) d.devices)

abbrev pub not_enabled : Option DeviceInfo → Option DeviceInfo
not_enabled none = none
not_enabled (some v) = if v.codex_enabled then none else some v

-- codexNeedsEnable, with the device.
unfoldable pub codex_needs_enable : Dialog → Option DeviceInfo
unfolding codex_candidate_device
codex_needs_enable d =
    if same_agent d.agent codex && not (is_empty d.devices)
    then not_enabled (codex_candidate_device d)
    else none

-- onCreate, with the `|| undefined` of its callers.
unfoldable pub create : AgentKind → Form → Dialog → Dialog
create agent f d = record d {
  created =
      d.created
      ++ create_session agent f.cwd (truthy (some f.title)) (truthy (some f.device_id))
          (truthy (some f.model))
        ∷ [];
  closed = true;
}

abbrev pub form : Dialog → Form
form d = record { cwd = trim d.cwd; title = trim d.title; device_id = d.device_id; model = d.model }

abbrev pub submit_with : Option DeviceInfo → Dialog → Dialog
submit_with none d = create d.agent (form d) d
submit_with (some v) d = record d {
  enable_error = none;
  enabling = true;
  pending_enable_device_id = some v.id;
  enable_then_create = some (form d);
  sent = d.sent ++ enable_codex_on_device v.id d.sandbox_mode ∷ [];
}

-- The button that submits is disabled without the agent and while codex is being enabled.
unfoldable pub submit : Dialog → Dialog
unfolding is_disabled codex_needs_enable create
submit d =
    if is_disabled d.agent d || (d.enabling || trim d.cwd == "")
    then d
    else submit_with (codex_needs_enable d) d

abbrev pub replay : Option Form → Dialog → Dialog
replay none d = d
replay (some f) d = create codex f d

unfoldable pub on_enable_result : (success : Bool) (error : Option String) → Dialog → Dialog
on_enable_result success error d =
    let settled = record d {
      enabling = false;
      pending_enable_device_id = none;
      enable_then_create = none;
    } in
    if success
    then replay d.enable_then_create settled
    else record settled { enable_error = some (or_else error "Daemon refused to enable codex.") }

unfoldable pub on_message : ServerMessage → Dialog → Dialog
unfolding on_enable_result
on_message (codex_enable_result device_id success error) d =
    if same_option (some device_id) d.pending_enable_device_id
    then on_enable_result success error d
    else d
on_message _ d = d

-- What the dialog's select offers.
unfoldable pub is_offered : AgentKind → String → Bool
is_offered claude m = m == "" || is_allowed_claude_model (some m)
is_offered codex m = m == "" || is_allowed_codex_model (some m)

pub data Happening : Type 0 where
  picks_agent : AgentKind → Happening
  picks_model : String → Happening
  picks_device : String → Happening
  types_cwd : String → Happening
  types_title : String → Happening
  picks_mode : String → Happening
  submits : Happening
  cancels : Happening
  devices_change : List DeviceInfo → Happening
  hears : ServerMessage → Happening

unfoldable pub act : Happening → Dialog → Dialog
unfolding is_disabled is_offered submit on_message
act (picks_agent a) d = if is_disabled a d then d else set_agent a d
act (picks_model m) d = if is_offered d.agent m then record d { model = m } else d
act (picks_device id) d = record d { device_id = id }
act (types_cwd cwd) d = record d { cwd = cwd }
act (types_title title) d = record d { title = title }
act (picks_mode mode) d = if d.enabling then d else record d { sandbox_mode = mode }
act submits d = submit d
act cancels d = record d { closed = true }
act (devices_change devices) d = record d { devices = devices }
act (hears m) d = on_message m d

unfoldable pub step : Happening → Dialog → Dialog
unfolding act after_render
step h d = if d.closed then d else after_render (act h d)

unfoldable pub run : List Happening → Dialog → Dialog
unfolding step
run [] d = d
run (h ∷ hs) d = run hs (step h d)

abbrev pub blank : (default_cwd : String) → List DeviceInfo → Dialog
blank default_cwd devices = record {
  devices = devices;
  agent = claude;
  model = "";
  cwd = if is_empty devices then default_cwd else "";
  title = "";
  device_id = "";
  sandbox_mode = "workspace-write";
  enabling = false;
  enable_error = none;
  pending_enable_device_id = none;
  enable_then_create = none;
  sent = [];
  created = [];
  closed = false;
}

unfoldable pub opened : (default_cwd : String) → List DeviceInfo → Dialog
unfolding after_render
opened default_cwd devices = after_render (blank default_cwd devices)
