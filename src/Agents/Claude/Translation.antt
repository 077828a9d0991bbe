-- ===== src/Agents/Claude/Translation.antt =====
-- server/agents/claude.ts beside client-go/helpers/claude-bridge.mjs: what a callback of the one says is written by
-- the other.
use agent_web_mvp.Prelude.{
  ◌≡◌, refl, sym, ap, ◌∙◌, String, true, false, List, [], ◌∷◌, ◌++◌, Option, none, some, truthy,
  append-nil,
}
use agent_web_mvp.Agents.{AgentEvent}
use agent_web_mvp.Agents.Claude
use agent_web_mvp.Agents.Claude.{
  Block, text, tool_use, tool_result, SdkMessage, system, assistant, user, result, tokens, SdkStep,
  yields, asks, on_sdk_step, on_sdk_steps,
}
use agent_web_mvp.Agents.Claude.Bridge.{
  Line, message, permission_request, done, Inbound, prompt, Bridge, started, newer, said, step, run,
  Happening, reads, sdk_yields, sdk_asks, sdk_ends, sdk_throws,
}
use agent_web_mvp.Agents.Claude.Says.{
  spoken_all, resumes, happening, happenings, spoken_all-append, resumes-append, Says, Says-none,
  Says-append, Says-lines,
}

spoken_all-blocks :
    (f : Block → List (AgentEvent String)) (g : Block → List Line)
    → ((x : Block) → spoken_all (f x) ≡ g x)
    → (xs : List Block) → spoken_all (Claude.blocks f xs) ≡ Claude.Bridge.blocks g xs
unfolding spoken_all Claude.blocks Claude.Bridge.blocks
spoken_all-blocks f g h [] = refl
spoken_all-blocks f g h (x ∷ xs) =
    spoken_all-append (f x) (Claude.blocks f xs)
    ∙ ap (λ l. l ++ spoken_all (Claude.blocks f xs)) (h x)
    ∙ ap (λ l. g x ++ l) (spoken_all-blocks f g h xs)

resumes-blocks :
    (f : Block → List (AgentEvent String))
    → ((old : Option String) (x : Block) → resumes old (f x) ≡ old)
    → (xs : List Block) (old : Option String) → resumes old (Claude.blocks f xs) ≡ old
unfolding resumes Claude.blocks
resumes-blocks f h [] old = refl
resumes-blocks f h (x ∷ xs) old =
    resumes-append old (f x) (Claude.blocks f xs)
    ∙ ap (λ o. resumes o (Claude.blocks f xs)) (h old x)
    ∙ resumes-blocks f h xs old

Says-blocks :
    (f : Block → List (AgentEvent String)) (g : Block → List Line)
    → ((x : Block) → spoken_all (f x) ≡ g x)
    → ((old : Option String) (x : Block) → resumes old (f x) ≡ old)
    → (xs : List Block) (b : Bridge)
    → Says (Claude.blocks f xs) b (said (Claude.Bridge.blocks g xs) b)
Says-blocks f g h k xs b =
    Says-lines (Claude.blocks f xs) (Claude.Bridge.blocks g xs) b (spoken_all-blocks f g h xs)
      (resumes-blocks f k xs)

texts-spoken : (o : Option String) → spoken_all (Claude.texts o) ≡ Claude.Bridge.texts o
unfolding spoken_all
texts-spoken none = refl
texts-spoken (some t) = refl

texts-resumes : (old : Option String) (o : Option String) → resumes old (Claude.texts o) ≡ old
unfolding resumes
texts-resumes old none = refl
texts-resumes old (some t) = refl

assistant-spoken :
    (x : Block) → spoken_all (Claude.assistant_block x) ≡ Claude.Bridge.assistant_block x
unfolding spoken_all Claude.assistant_block Claude.Bridge.assistant_block
assistant-spoken (text t) = texts-spoken (truthy t)
assistant-spoken (tool_use name input id) = refl
assistant-spoken (tool_result content id is_error) = refl
assistant-spoken Block.other = refl

assistant-resumes : (old : Option String) (x : Block) → resumes old (Claude.assistant_block x) ≡ old
unfolding resumes Claude.assistant_block
assistant-resumes old (text t) = texts-resumes old (truthy t)
assistant-resumes old (tool_use name input id) = refl
assistant-resumes old (tool_result content id is_error) = refl
assistant-resumes old Block.other = refl

user-spoken : (x : Block) → spoken_all (Claude.user_block x) ≡ Claude.Bridge.user_block x
unfolding spoken_all Claude.user_block Claude.Bridge.user_block
user-spoken (text t) = refl
user-spoken (tool_use name input id) = refl
user-spoken (tool_result content id is_error) = refl
user-spoken Block.other = refl

user-resumes : (old : Option String) (x : Block) → resumes old (Claude.user_block x) ≡ old
unfolding resumes Claude.user_block
user-resumes old (text t) = refl
user-resumes old (tool_use name input id) = refl
user-resumes old (tool_result content id is_error) = refl
user-resumes old Block.other = refl

newer-Says :
    (o : Option String) (b : Bridge)
    → Says (tokens o) b (record b { sdk_session_id = newer o b.sdk_session_id })
unfolding spoken_all resumes
newer-Says none b = Says-none b
newer-Says (some id) b = record {
  writes = sym (append-nil _);
  session = refl;
  prompted = refl;
  runs = refl;
  goes_on = refl;
}

pub message-Says :
    (m : SdkMessage) (b : Bridge)
    → Says (Claude.handle_sdk_message m) b (Claude.Bridge.handle_sdk_message m b)
unfolding Claude.handle_sdk_message Claude.Bridge.handle_sdk_message spoken_all resumes
message-Says (system session_id true model) b =
    Says-append (tokens (truthy session_id)) _ b _ _ (newer-Says (truthy session_id) b)
      (Says-lines _ _ _ refl (λ old. refl))
message-Says (system session_id false model) b =
    Says-append (tokens (truthy session_id)) _ b _ _ (newer-Says (truthy session_id) b)
      (Says-lines _ _ _ refl (λ old. refl))
message-Says (assistant xs) b =
    Says-blocks Claude.assistant_block Claude.Bridge.assistant_block assistant-spoken
      assistant-resumes xs b
message-Says (user xs) b =
    Says-blocks Claude.user_block Claude.Bridge.user_block user-spoken user-resumes xs b
message-Says (result session_id true words) b =
    Says-append (tokens (truthy session_id)) _ b _ _ (newer-Says (truthy session_id) b)
      (Says-lines _ _ _ refl (λ old. refl))
message-Says (result session_id false words) b =
    Says-append (tokens (truthy session_id)) _ b _ _ (newer-Says (truthy session_id) b)
      (Says-lines _ _ _ refl (λ old. refl))
message-Says SdkMessage.other b = Says-none b

step-Says :
    (s : SdkStep String) (b : Bridge)
    → b.initial_prompt ≡ true
    → b.exited ≡ false
    → Says (on_sdk_step s) b (step (happening s) b)
unfolding on_sdk_step step Claude.Bridge.act Claude.Bridge.ask_permission spoken_all resumes
step-Says (yields m) b p x =
    rw x (rw p (message-Says m (record b { initial_prompt = true; exited = false })))
step-Says (asks tool input id) b p x =
    rw x (
      rw p (record { writes = refl; session = refl; prompted = refl; runs = refl; goes_on = refl }))

pub steps-say :
    (ss : List (SdkStep String)) (b : Bridge)
    → b.initial_prompt ≡ true
    → b.exited ≡ false
    → Says (on_sdk_steps ss) b (run (happenings ss) b)
unfolding on_sdk_steps run
steps-say [] b p x = Says-none b
steps-say (s ∷ ss) b p x =
    let h = step-Says s b p x in
    Says-append (on_sdk_step s) (on_sdk_steps ss) b (step (happening s) b) _ h
      (steps-say ss (step (happening s) b) (h.prompted ∙ p) (h.runs ∙ x))
