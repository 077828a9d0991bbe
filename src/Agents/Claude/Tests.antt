-- ===== src/Agents/Claude/Tests.antt =====
-- server/agents/claude.ts and client-go/helpers/claude-bridge.mjs: a run with a tool call.
use agent_web_mvp.Prelude.{◌≡◌, refl, String, true, false, List, [], ◌∷◌, ◌++◌, none, some, truthy}
use agent_web_mvp.Types.Values.{object, end, field, string}
use agent_web_mvp.Agents.{on_done}
use agent_web_mvp.Agents.Claude
use agent_web_mvp.Agents.Claude.{SdkStep, yields, asks, on_sdk_steps, send, failed}
use agent_web_mvp.Agents.Claude.Bridge.{
  started, done, prompt, permission_response, run, Happening, reads, stdin_closes, sdk_yields,
  sdk_asks, sdk_ends,
}
use agent_web_mvp.Agents.Claude.Says.{spoken_all, resumes}
use agent_web_mvp.Agents.Claude.Agreement.{whole_run, bridge_agrees}
use agent_web_mvp.Agents.Claude.Answers.{IsCounted, run-IsCounted}

abbrev steps : List (SdkStep String)
steps =
    yields (Claude.system (some "t1") true (some "opus"))
    ∷ asks "Bash" (object (field "command" (string "ls") end)) "q1"
    ∷ yields (Claude.user (Claude.tool_result (Claude.plain "README.md") "u1" false ∷ []))
    ∷ yields (Claude.assistant (Claude.text (some "done") ∷ Claude.text (some "") ∷ []))
    ∷ yields (Claude.result (some "t2") true none)
    ∷ []

bridge_agrees_example :
    ((whole_run "list" "/work" (some "t0") none steps none).written
      ≡ spoken_all (on_sdk_steps steps)
        ++ done (resumes (truthy (some "t0")) (on_sdk_steps steps)) none ∷ [])
    × (send true steps none ≡ on_sdk_steps steps ++ (failed none ++ on_done ∷ []))
bridge_agrees_example = bridge_agrees "list" "/work" (some "t0") none steps none

resumes_last : resumes (truthy (some "t0")) (on_sdk_steps steps) ≡ some "t2"
unfolding resumes on_sdk_steps
resumes_last = refl

abbrev happenings : List Happening
happenings =
    reads (some (prompt "list" "/work" none none))
    ∷ reads none
    ∷ sdk_asks "q1" "Bash" (string "ls")
    ∷ reads (some (permission_response "q1" true))
    ∷ reads (some (permission_response "q1" true))
    ∷ stdin_closes
    ∷ sdk_yields (Claude.result (some "t2") false none)
    ∷ sdk_ends
    ∷ sdk_ends
    ∷ []

run-IsCounted_example : IsCounted "q1" (run happenings started)
run-IsCounted_example = run-IsCounted happenings "q1"
