-- ===== src/Agents/Runs.antt =====
-- server/agents/base.ts: what every runner of the server promises of the callbacks of one run.
use agent_web_mvp.Prelude.{
  ◌≡◌, refl, sym, String, Bool, true, false, List, [], ◌∷◌, ◌++◌, Option, none, some, All,
  All-append, append_assoc, truthy,
}
use agent_web_mvp.Agents.{AgentEvent, on_message, on_error, on_done}
use agent_web_mvp.Agents.Claude
use agent_web_mvp.Agents.Codex

abbrev pub is_done : {K : Type 0} → AgentEvent K → Bool
is_done on_done = true
is_done _ = false

-- One onDone, at the end.
pub record IsRun {K : Type 0} (es : List (AgentEvent K)) : Type 0 where
  pub before : List (AgentEvent K)
  pub ends : es ≡ before ++ on_done ∷ []
  pub open_before : All (λ e. is_done e ≡ false) before

module _ (K : Type 0) where
  abbrev IsOpen : List (AgentEvent K) → Type 0
  IsOpen = All (λ e. is_done e ≡ false)

  both : (es fs : List (AgentEvent K)) → IsOpen es → IsOpen fs → IsOpen (es ++ fs)
  both = All-append (λ e. is_done e ≡ false)

  blocks-IsOpen :
      (f : Claude.Block → List (AgentEvent K))
      → ((b : Claude.Block) → IsOpen (f b))
      → (bs : List Claude.Block) → IsOpen (Claude.blocks f bs)
  unfolding Claude.blocks
  blocks-IsOpen f h [] = tt
  blocks-IsOpen f h (b ∷ bs) = both (f b) (Claude.blocks f bs) (h b) (blocks-IsOpen f h bs)

  texts-IsOpen : (o : Option String) → IsOpen (Claude.texts o)
  texts-IsOpen none = tt
  texts-IsOpen (some t) = (refl, tt)

  assistant-IsOpen : (b : Claude.Block) → IsOpen (Claude.assistant_block b)
  unfolding Claude.assistant_block
  assistant-IsOpen (Claude.text t) = texts-IsOpen (truthy t)
  assistant-IsOpen (Claude.tool_use name input id) = (refl, tt)
  assistant-IsOpen (Claude.tool_result content id is_error) = tt
  assistant-IsOpen Claude.Block.other = tt

  user-IsOpen : (b : Claude.Block) → IsOpen (Claude.user_block b)
  unfolding Claude.user_block
  user-IsOpen (Claude.text t) = tt
  user-IsOpen (Claude.tool_use name input id) = tt
  user-IsOpen (Claude.tool_result content id is_error) = (refl, tt)
  user-IsOpen Claude.Block.other = tt

  tokens-IsOpen : (o : Option String) → IsOpen (Claude.tokens o)
  tokens-IsOpen none = tt
  tokens-IsOpen (some t) = (refl, tt)

  message-IsOpen : (m : Claude.SdkMessage) → IsOpen (Claude.handle_sdk_message m)
  unfolding Claude.handle_sdk_message
  message-IsOpen (Claude.system session_id true model) =
      both (Claude.tokens (truthy session_id)) _ (tokens-IsOpen (truthy session_id)) (refl, tt)
  message-IsOpen (Claude.system session_id false model) =
      both (Claude.tokens (truthy session_id)) [] (tokens-IsOpen (truthy session_id)) tt
  message-IsOpen (Claude.assistant bs) = blocks-IsOpen Claude.assistant_block assistant-IsOpen bs
  message-IsOpen (Claude.user bs) = blocks-IsOpen Claude.user_block user-IsOpen bs
  message-IsOpen (Claude.result session_id true words) =
      both (Claude.tokens (truthy session_id)) _ (tokens-IsOpen (truthy session_id)) (refl, tt)
  message-IsOpen (Claude.result session_id false words) =
      both (Claude.tokens (truthy session_id)) [] (tokens-IsOpen (truthy session_id)) tt
  message-IsOpen Claude.SdkMessage.other = tt

  steps-IsOpen : (ss : List (Claude.SdkStep K)) → IsOpen (Claude.on_sdk_steps ss)
  unfolding Claude.on_sdk_steps Claude.on_sdk_step
  steps-IsOpen [] = tt
  steps-IsOpen (Claude.yields m ∷ ss) =
      both (Claude.handle_sdk_message m) _ (message-IsOpen m) (steps-IsOpen ss)
  steps-IsOpen (Claude.asks tool input k ∷ ss) = (refl, steps-IsOpen ss)

  failed-IsOpen : (failure : Option String) → IsOpen (Claude.failed failure)
  failed-IsOpen none = tt
  failed-IsOpen (some m) = (refl, tt)

  claude-IsRun :
      (installed : Bool) (ss : List (Claude.SdkStep K)) (failure : Option String)
      → IsRun (Claude.send installed ss failure)
  unfolding Claude.send
  claude-IsRun false ss failure = record {
    before = on_error _ ∷ [];
    ends = refl;
    open_before = (refl, tt);
  }
  claude-IsRun true ss failure = record {
    before = Claude.on_sdk_steps ss ++ Claude.failed failure;
    ends = sym (append_assoc (Claude.on_sdk_steps ss) (Claude.failed failure) (on_done ∷ []));
    open_before = both (Claude.on_sdk_steps ss) _ (steps-IsOpen ss) (failed-IsOpen failure);
  }

  outputs-IsOpen : (bin : String) (os : List Codex.Output) → IsOpen (Codex.on_outputs bin os)
  unfolding Codex.on_outputs Codex.on_output
  outputs-IsOpen bin [] = tt
  outputs-IsOpen bin (Codex.stdout t ∷ os) = (refl, outputs-IsOpen bin os)
  outputs-IsOpen bin (Codex.stderr t ∷ os) = (refl, outputs-IsOpen bin os)
  outputs-IsOpen bin (Codex.error e ∷ os) = (refl, outputs-IsOpen bin os)

  codex-IsRun : (bin : String) (p : Codex.Spawned) → IsRun (Codex.send {K = K} bin p)
  unfolding Codex.send Codex.on_close
  codex-IsRun bin (Codex.throws m) = record {
    before = on_error m ∷ [];
    ends = refl;
    open_before = (refl, tt);
  }
  codex-IsRun bin (Codex.process os none) = record {
    before = Codex.on_outputs bin os;
    ends = refl;
    open_before = outputs-IsOpen bin os;
  }
  codex-IsRun bin (Codex.process os (some code)) = record {
    before = Codex.on_outputs bin os ++ on_message _ _ none ∷ [];
    ends = sym (append_assoc (Codex.on_outputs bin os) _ (on_done ∷ []));
    open_before = both (Codex.on_outputs bin os) _ (outputs-IsOpen bin os) (refl, tt);
  }

-- Whatever the agent SDK does in a run of ClaudeRunner, and whatever the codex process does before it closes in a run of
-- CodexRunner, missing programs and exceptions included: the session gets exactly one onDone, as the last callback.
pub runs_end_once :
    {K : Type 0} (installed : Bool) (ss : List (Claude.SdkStep K)) (failure : Option String)
    (codex_bin : String) (spawned : Codex.Spawned)
    → IsRun (Claude.send installed ss failure) × IsRun (Codex.send {K = K} codex_bin spawned)
runs_end_once installed ss failure bin p =
    (claude-IsRun _ installed ss failure, codex-IsRun _ bin p)
