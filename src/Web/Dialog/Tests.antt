-- ===== src/Web/Dialog/Tests.antt =====
-- web/src/components/NewSessionDialog.tsx: codex is enabled on a device and the session is then created.
use agent_web_mvp.Prelude.{◌≡◌, refl, true, false, List, [], ◌∷◌, none, some}
use agent_web_mvp.Types.{
  codex, DeviceInfo, create_session, enable_codex_on_device, codex_enable_result, hello,
}
use agent_web_mvp.Types.Models.{is_allowed_codex_model}
use agent_web_mvp.Session.Title.{trim}
use agent_web_mvp.Web.Dialog.{
  Happening, picks_model, types_cwd, submits, hears, run, opened, is_available,
}
use agent_web_mvp.Web.Dialog.Choices.{IsSound, run-IsSound}

abbrev laptop : DeviceInfo
laptop = record {
  id = "d1";
  hostname = "laptop";
  display_name = none;
  os = "linux";
  arch = "x64";
  version = "1.0";
  agents = record { name = "codex"; path = "/bin/codex" } ∷ [];
  connected_at = 3;
  codex_enabled = false;
}

abbrev happenings : List Happening
happenings =
    picks_model "gpt-5.5"
    ∷ types_cwd " /work "
    ∷ submits
    ∷ hears (hello "/srv")
    ∷ types_cwd "/other"
    ∷ submits
    ∷ hears (codex_enable_result "d1" true none)
    ∷ submits
    ∷ []

run-IsSound_example : IsSound (run happenings (opened "/srv" (laptop ∷ [])))
run-IsSound_example = run-IsSound happenings "/srv" (laptop ∷ [])

created_once :
    (run happenings (opened "/srv" (laptop ∷ []))).created
    ≡ create_session codex "/work" none none (some "gpt-5.5") ∷ []
unfolding run opened is_available is_allowed_codex_model trim
created_once = refl

asked_once :
    (run happenings (opened "/srv" (laptop ∷ []))).sent
    ≡ enable_codex_on_device "d1" "workspace-write" ∷ []
unfolding run opened is_available is_allowed_codex_model trim
asked_once = refl
