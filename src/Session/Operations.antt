-- ===== src/Session/Operations.antt =====
-- server/sessions.ts: drainQueue, and the methods of Session that the server calls.
use agent_web_mvp.Prelude.{
  ℕ, zero, suc, String, Bool, true, false, List, [], ◌∷◌, ◌++◌, Option, none, some,
}
use agent_web_mvp.Types.{user, ChatMessage}
use agent_web_mvp.Agents.{
  AgentEvent, on_message, on_permission_request, on_error, on_done, on_resume_token,
}
use agent_web_mvp.Session.State.{Session, Env, deny_all, token_event, rounds, done_event}
use agent_web_mvp.Session.Steps.{
  record_message, message_event, ask_permission, error_event, drain_step,
}

-- The last message of the user, if there is one.
unfoldable pub last_user : List ChatMessage → Option String
last_user [] = none
last_user (m ∷ ms) = elim (last_user ms) [
  | some text ↦ some text
  | none ↦ elim m.role [ user ↦ some m.text | _ ↦ none ]
]

module _ {R K : Type 0} (env : Env R) where
  unfoldable pub drain_queue : ℕ → Session R K → Session R K
  drain_queue zero s = s
  drain_queue (suc fuel) s = drain_step env (drain_queue fuel) s

  unfoldable pub drain : Session R K → Session R K
  drain s = drain_queue (suc (rounds s)) s

  unfoldable pub enqueue_prompt : String → Session R K → Session R K
  enqueue_prompt prompt s =
      let said =
        record_message env user prompt none (record s { auth_alerted_this_turn = false }) in
      drain (record said { queue = said.queue ++ prompt ∷ [] })

  unfoldable pub retry_last_user_prompt : Session R K → Session R K × Bool
  retry_last_user_prompt s = elim (last_user s.history) [
    | none ↦ (s, false)
    | some text ↦
        (drain (record s { auth_alerted_this_turn = false; queue = text ∷ s.queue }), true)
  ]

  unfoldable pub cancel : Session R K → Session R K
  unfolding deny_all
  cancel s = record s {
    cancelling = true;
    runner = env.runner.cancel s.runner;
    effects = s.effects ++ deny_all s.id s.pending;
    pending = [];
    queue = [];
  }

  unfoldable pub handle_event : AgentEvent K → Session R K → Session R K
  handle_event (on_message role text extra) s = message_event env role text extra s
  handle_event (on_permission_request tool_name input k) s = ask_permission env tool_name input k s
  handle_event (on_error message) s = error_event env drain message s
  handle_event on_done s = done_event drain s
  handle_event (on_resume_token token) s = token_event token s
