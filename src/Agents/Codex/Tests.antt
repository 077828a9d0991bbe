-- ===== src/Agents/Codex/Tests.antt =====
-- server/agents/codex.ts and server/agents/claude.ts: runs that fail.
use agent_web_mvp.Prelude.{String, true, [], ◌∷◌, some}
use agent_web_mvp.Agents.Claude.{system, yields, send}
use agent_web_mvp.Agents.Codex
use agent_web_mvp.Agents.Codex.{process, stdout, error, enoent}
use agent_web_mvp.Agents.Runs.{IsRun, runs_end_once}

runs_end_once_example :
    IsRun {K = String}
      (send true (yields (system (some "t1") true (some "opus")) ∷ []) (some "aborted"))
    × IsRun {K = String}
        (Codex.send "codex" (process (stdout "hi" ∷ error enoent ∷ []) (some "-2")))
runs_end_once_example =
    runs_end_once true (yields (system (some "t1") true (some "opus")) ∷ []) (some "aborted")
      "codex" (process (stdout "hi" ∷ error enoent ∷ []) (some "-2"))
