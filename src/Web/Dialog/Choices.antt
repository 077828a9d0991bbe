-- ===== src/Web/Dialog/Choices.antt =====
-- web/src/components/NewSessionDialog.tsx and server/index.ts: what a dialog creates, and what it waits for.
use agent_web_mvp.Prelude.{
  ◌≡◌, refl, sym, subst, ap, ◌∙◌, Bool, true, false, ◌&&◌, ◌||◌, String, List, [], ◌∷◌, ◌++◌,
  Option, none, some, truthy, is_some, if◌then◌else◌, ◌==◌, Bool-cases, inl, inr, same_option,
}
use agent_web_mvp.Types.{
  AgentKind, claude, codex, DeviceInfo, ClientMessage, create_session, ServerMessage,
  codex_enable_result,
}
use agent_web_mvp.Types.Models.{is_allowed_claude_model, is_allowed_codex_model}
use agent_web_mvp.Session.Title.{trim}
use agent_web_mvp.Server.Messages.{allowed_model}
use agent_web_mvp.Web.Dialog

-- A session with a working directory, and with no model or one that the server's allowlist of the agent has.
abbrev pub IsProper : ClientMessage → Type 0
IsProper (create_session agent cwd title device_id model) =
    ((cwd == "") ≡ false) × (allowed_model agent model ≡ model)
IsProper _ = true ≡ false

abbrev pub IsAtMostOne : List ClientMessage → Type 0
IsAtMostOne [] = true ≡ true
IsAtMostOne (m ∷ []) = IsProper m
IsAtMostOne (_ ∷ _ ∷ _) = true ≡ false

abbrev pub IsCaptured : Option Dialog.Form → Type 0
IsCaptured none = true ≡ true
IsCaptured (some f) = (Dialog.is_offered codex f.model ≡ true) × ((f.cwd == "") ≡ false)

-- What holds of a dialog at any time.
pub record IsSound (d : Dialog.Dialog) : Type 0 where
  pub waits : d.enabling ≡ is_some d.pending_enable_device_id
  pub replays : is_some d.enable_then_create ≡ is_some d.pending_enable_device_id
  pub offered : Dialog.is_offered d.agent d.model ≡ true
  pub captured : IsCaptured d.enable_then_create
  pub still_open : d.closed ≡ false → d.created ≡ []
  pub one : IsAtMostOne d.created

allowed_or_none :
    (f : Option String → Bool) (b : Bool) (m : String)
    → f none ≡ false
    → (b || f (some m)) ≡ true
    → (if f (if b then none else some m) then if b then none else some m else none)
      ≡ (if b then none else some m)
allowed_or_none f true m n h = rw n refl
allowed_or_none f false m n h = rw h refl

offered-allowed :
    (a : AgentKind) (m : String)
    → Dialog.is_offered a m ≡ true
    → allowed_model a (truthy (some m)) ≡ truthy (some m)
unfolding Dialog.is_offered is_allowed_claude_model is_allowed_codex_model
offered-allowed claude m h = allowed_or_none is_allowed_claude_model (m == "") m refl h
offered-allowed codex m h = allowed_or_none is_allowed_codex_model (m == "") m refl h

default-offered : (a : AgentKind) → Dialog.is_offered a "" ≡ true
unfolding Dialog.is_offered
default-offered claude = refl
default-offered codex = refl

set_agent-IsSound : (a : AgentKind) (d : Dialog.Dialog) → IsSound d → IsSound (Dialog.set_agent a d)
set_agent-IsSound a d v = elim (Bool-cases (Dialog.same_agent a d.agent)) [
  | inl e ↦ rw e v
  | inr e ↦ rw e (record {
    waits = v.waits;
    replays = v.replays;
    offered = default-offered a;
    captured = v.captured;
    still_open = v.still_open;
    one = v.one;
  })
]

create-IsSound :
    (a : AgentKind) (f : Dialog.Form) (d : Dialog.Dialog)
    → d.created ≡ []
    → Dialog.is_offered a f.model ≡ true
    → (f.cwd == "") ≡ false
    → IsSound d
    → IsSound (Dialog.create a f d)
unfolding Dialog.create
create-IsSound a f d n o c v = record {
  waits = v.waits;
  replays = v.replays;
  offered = v.offered;
  captured = v.captured;
  still_open = λ e. cc;
  one =
      subst
        (λ l. IsAtMostOne (
          l
          ++ create_session a f.cwd (truthy (some f.title)) (truthy (some f.device_id))
              (truthy (some f.model))
            ∷ []))
        (sym n) (c, offered-allowed a f.model o);
}

third : (a b c : Bool) → (a || (b || c)) ≡ false → c ≡ false
third true b c e = cc
third false true c e = cc
third false false c e = e

only_codex :
    (a : AgentKind) (b : Bool) (o : Option DeviceInfo) (v : DeviceInfo)
    → (if Dialog.same_agent a codex && b then o else none) ≡ some v
    → a ≡ codex
only_codex claude b o v e = cc
only_codex codex b o v e = refl

needs_codex :
    (d : Dialog.Dialog) (v : DeviceInfo) → Dialog.codex_needs_enable d ≡ some v → d.agent ≡ codex
unfolding Dialog.codex_needs_enable
needs_codex d v e = only_codex d.agent _ _ v e

submit_with-IsSound :
    (o : Option DeviceInfo) (d : Dialog.Dialog)
    → d.closed ≡ false
    → Dialog.codex_needs_enable d ≡ o
    → (trim d.cwd == "") ≡ false
    → IsSound d
    → IsSound (Dialog.submit_with o d)
submit_with-IsSound none d z e c v =
    create-IsSound d.agent (Dialog.form d) d (v.still_open z) v.offered c v
submit_with-IsSound (some w) d z e c v = record {
  waits = refl;
  replays = refl;
  offered = v.offered;
  captured = (ap (λ a. Dialog.is_offered a d.model) (sym (needs_codex d w e)) ∙ v.offered, c);
  still_open = v.still_open;
  one = v.one;
}

submit-IsSound : (d : Dialog.Dialog) → d.closed ≡ false → IsSound d → IsSound (Dialog.submit d)
unfolding Dialog.submit
submit-IsSound d z v =
    elim (Bool-cases (Dialog.is_disabled d.agent d || (d.enabling || trim d.cwd == ""))) [
      | inl e ↦ rw e v
      | inr e ↦ rw e (
          submit_with-IsSound (Dialog.codex_needs_enable d) d z refl
            (third (Dialog.is_disabled d.agent d) d.enabling (trim d.cwd == "") e) v)
    ]

replay-IsSound :
    (o : Option Dialog.Form) (d : Dialog.Dialog)
    → d.created ≡ []
    → IsCaptured o
    → IsSound d
    → IsSound (Dialog.replay o d)
replay-IsSound none d n c v = v
replay-IsSound (some f) d n c v = create-IsSound codex f d n c.0 c.1 v

result-IsSound :
    (success : Bool) (error : Option String) (d : Dialog.Dialog)
    → d.closed ≡ false
    → IsSound d
    → IsSound (Dialog.on_enable_result success error d)
unfolding Dialog.on_enable_result
result-IsSound true error d z v =
    replay-IsSound d.enable_then_create
      (record d { enabling = false; pending_enable_device_id = none; enable_then_create = none })
      (v.still_open z) v.captured
      (record {
        waits = refl;
        replays = refl;
        offered = v.offered;
        captured = refl;
        still_open = v.still_open;
        one = v.one;
      })
result-IsSound false error d z v = record {
  waits = refl;
  replays = refl;
  offered = v.offered;
  captured = refl;
  still_open = v.still_open;
  one = v.one;
}

message-IsSound :
    (m : ServerMessage) (d : Dialog.Dialog)
    → d.closed ≡ false
    → IsSound d
    → IsSound (Dialog.on_message m d)
unfolding Dialog.on_message
message-IsSound (codex_enable_result device_id success error) d z v =
    elim (Bool-cases (same_option (some device_id) d.pending_enable_device_id)) [
      | inl e ↦ rw e (result-IsSound success error d z v)
      | inr e ↦ rw e v
    ]
message-IsSound _ d z v = v

-- A step that leaves the fields of the property as they are.
other-IsSound :
    (d c : Dialog.Dialog)
    → IsSound d
    → c ≡ record d {
      devices = c.devices;
      cwd = c.cwd;
      title = c.title;
      device_id = c.device_id;
      sandbox_mode = c.sandbox_mode;
    }
    → IsSound c
other-IsSound d c v e = subst IsSound (sym e) (record {
  waits = v.waits;
  replays = v.replays;
  offered = v.offered;
  captured = v.captured;
  still_open = v.still_open;
  one = v.one;
})

act-IsSound :
    (h : Dialog.Happening) (d : Dialog.Dialog)
    → d.closed ≡ false
    → IsSound d
    → IsSound (Dialog.act h d)
unfolding Dialog.act
act-IsSound (Dialog.picks_agent a) d z v = elim (Bool-cases (Dialog.is_disabled a d)) [
  | inl e ↦ rw e v
  | inr e ↦ rw e (set_agent-IsSound a d v)
]
act-IsSound (Dialog.picks_model m) d z v = elim (Bool-cases (Dialog.is_offered d.agent m)) [
  | inl e ↦ rw e (record {
    waits = v.waits;
    replays = v.replays;
    offered = e;
    captured = v.captured;
    still_open = v.still_open;
    one = v.one;
  })
  | inr e ↦ rw e v
]
act-IsSound (Dialog.picks_device id) d z v = other-IsSound d _ v refl
act-IsSound (Dialog.types_cwd cwd) d z v = other-IsSound d _ v refl
act-IsSound (Dialog.types_title title) d z v = other-IsSound d _ v refl
act-IsSound (Dialog.picks_mode mode) d z v =
    elim d.enabling as (λ b. IsSound (if b then d else record d { sandbox_mode = mode })) [
      | true ↦ v
      | false ↦ other-IsSound d (record d { sandbox_mode = mode }) v refl
    ]
act-IsSound Dialog.submits d z v = submit-IsSound d z v
act-IsSound Dialog.cancels d z v = record {
  waits = v.waits;
  replays = v.replays;
  offered = v.offered;
  captured = v.captured;
  still_open = λ e. v.still_open z;
  one = v.one;
}
act-IsSound (Dialog.devices_change devices) d z v = other-IsSound d _ v refl
act-IsSound (Dialog.hears m) d z v = message-IsSound m d z v

render-IsSound : (d : Dialog.Dialog) → IsSound d → IsSound (Dialog.after_render d)
unfolding Dialog.after_render
render-IsSound d v = set_agent-IsSound (Dialog.flipped d) d v

step-IsSound : (h : Dialog.Happening) (d : Dialog.Dialog) → IsSound d → IsSound (Dialog.step h d)
unfolding Dialog.step
step-IsSound h d v = elim (Bool-cases d.closed) [
  | inl e ↦
      subst IsSound (sym (ap (λ b. if b then d else Dialog.after_render (Dialog.act h d)) e)) v
  | inr e ↦
      subst IsSound (sym (ap (λ b. if b then d else Dialog.after_render (Dialog.act h d)) e))
        (render-IsSound (Dialog.act h d) (act-IsSound h d e v))
]

runs-IsSound :
    (hs : List Dialog.Happening) (d : Dialog.Dialog) → IsSound d → IsSound (Dialog.run hs d)
unfolding Dialog.run
runs-IsSound [] d v = v
runs-IsSound (h ∷ hs) d v = runs-IsSound hs (Dialog.step h d) (step-IsSound h d v)

-- Whatever the user does in a dialog, whatever devices come and go and whatever messages arrive, in any order: it
-- creates at most one session, with a directory that is not blank and with no model or one that
-- handleClientMessage accepts for the agent, so that the server never drops the choice; and the dialog is
-- `enabling` exactly while it remembers the device that was asked and the form that it will send.
pub run-IsSound :
    (hs : List Dialog.Happening) (default_cwd : String) (devices : List DeviceInfo)
    → IsSound (Dialog.run hs (Dialog.opened default_cwd devices))
unfolding Dialog.opened
run-IsSound hs default_cwd devices = runs-IsSound hs (Dialog.opened default_cwd devices) (
    render-IsSound (Dialog.blank default_cwd devices) (record {
      waits = refl;
      replays = refl;
      offered = default-offered claude;
      captured = refl;
      still_open = λ e. refl;
      one = refl;
    }))
