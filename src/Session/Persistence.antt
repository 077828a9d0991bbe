-- ===== src/Session/Persistence.antt =====
-- server/sessions.ts: what a session has in memory is what it has written to the database.
use agent_web_mvp.Prelude.{String, List, Option}
use agent_web_mvp.Types.{ChatMessage}
use agent_web_mvp.Session.State.{Session, Env}
use agent_web_mvp.Session.History.{Input, run}
use agent_web_mvp.Session.Growing.{run-Grows}
use agent_web_mvp.Session.Saved.{IsSaved, Grows-IsSaved}

module _ {R K : Type 0} (h₀ : List ChatMessage) (t₀ : Option String) where
  -- Whatever happens to a session, and in whatever surroundings: its history is the history that it
  -- was built from followed by the messages that it has inserted into agent_messages, in order; and
  -- its resume token is what the resume_token column holds.
  pub run-IsSaved :
      (is : List (Env R × Input K)) (s : Session R K) → IsSaved h₀ t₀ s → IsSaved h₀ t₀ (run is s)
  run-IsSaved is s v = Grows-IsSaved h₀ t₀ s (run is s) (run-Grows is s) v
