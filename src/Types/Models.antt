-- ===== src/Types/Models.antt =====
-- shared/types.ts: the model allowlists.
use agent_web_mvp.Prelude.{String, Bool, false, List, [], ◌∷◌, Option, none, some, any, ◌==◌}

abbrev pub claude_models : List String
claude_models = "claude-opus-4-7" ∷ "claude-sonnet-4-6" ∷ "claude-haiku-4-5-20251001" ∷ []

abbrev pub codex_models : List String
codex_models = "gpt-5.5" ∷ []

-- `m` is the `model` of a message: a text, or missing.
unfoldable pub is_allowed_claude_model : Option String → Bool
is_allowed_claude_model none = false
is_allowed_claude_model (some m) = any (λ id. id == m) claude_models

unfoldable pub is_allowed_codex_model : Option String → Bool
is_allowed_codex_model none = false
is_allowed_codex_model (some m) = any (λ id. id == m) codex_models
