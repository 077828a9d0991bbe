-- ===== src/Session/Steps.antt =====
-- server/sessions.ts: the methods of Session that record messages and ask for permissions, the
-- callbacks that the runner is given, and one round of drainQueue.
use agent_web_mvp.Prelude.{
  suc, String, Bool, true, false, List, [], ◌∷◌, ◌++◌, Option, none, some, if◌then◌else◌, ◌==◌,
  ◌<>◌,
}
use agent_web_mvp.Prelude.JsMap.{set}
use agent_web_mvp.Types.{SessionStatus, running, awaiting_permission, Role, system, ChatMessage}
use agent_web_mvp.Types.Values.{Json}
use agent_web_mvp.Types.AuthDetect.{AuthHit}
use agent_web_mvp.Agents.{SendResult, started, refused}
use agent_web_mvp.Session.State.{
  message_added, permission_requested, error_raised, insert_agent_message, update_resume_token,
  Session, Env, stale_notice, meta, emit, set_status, emit_auth_required, not_signed_in, auth_hit,
  replay_of, done_event,
}

module _ {R K : Type 0} (env : Env R) where
  unfoldable pub record_message : Role → String → Option Json → Session R K → Session R K
  record_message role text meta s =
      let full : ChatMessage = record {
        id = env.random_uuid s.drawn;
        session_id = s.id;
        ts = env.now;
        role = role;
        text = text;
        meta = meta;
      } in
      record s {
        history = s.history ++ full ∷ [];
        drawn = suc s.drawn;
        effects = s.effects ++ insert_agent_message full ∷ message_added full ∷ [];
      }

  -- The part of drainQueue behind its tests, up to the first event of the runner.
  unfoldable pub start : String → List String → Session R K → Session R K × SendResult
  unfolding set_status
  start next rest s =
      let going = set_status running (record s { queue = rest; busy = true }) in
      let (runner, result) = env.runner.send next going.resume_token going.runner in
      (record going { in_flight_prompt = some next; runner = runner }, result)

  unfoldable pub message_event : Role → String → Option Json → Session R K → Session R K
  unfolding auth_hit
  message_event system text meta s = record_message system text meta (elim (auth_hit text s) [
    | none ↦ s
    | some hit ↦ emit_auth_required hit (record s { auth_alerted_this_turn = true })
  ])
  message_event role text meta s = record_message role text meta s

  unfoldable pub ask_permission : String → Json → K → Session R K → Session R K
  ask_permission tool_name input resolve s =
      let request_id = env.random_uuid s.drawn in
      emit
        (permission_requested (record {
          request_id = request_id;
          session_id = s.id;
          tool_name = tool_name;
          input = input;
        }))
        (set_status awaiting_permission
          (record s { pending = set request_id resolve s.pending; drawn = suc s.drawn }))

  -- What the recovery from a stale token does before it drains the queue.
  unfoldable pub forget_and_requeue : String → Session R K → Session R K
  forget_and_requeue replay s =
      let told = record_message system stale_notice none (
        emit (update_resume_token none s.id)
          (record s { stale_resume_retried = true; resume_token = none })) in
      record told { in_flight_prompt = none; busy = false; queue = replay ∷ told.queue }

  unfoldable pub plain_error : String → Session R K → Session R K
  plain_error message s =
      record_message system ("Error: " <> message) none
        (emit (error_raised s.id message) (set_status SessionStatus.error s))

  unfoldable pub signed_out : AuthHit → Session R K → Session R K
  unfolding not_signed_in
  signed_out hit s = record_message system (not_signed_in s hit) none (
      emit_auth_required hit
        (set_status SessionStatus.error (record s { auth_alerted_this_turn = true })))

  -- onError and onDone call drainQueue, which is handed to them. The three last arguments are the
  -- tests of onError, in their order: is the run cancelled, does the text ask for a login, and
  -- which prompt is to run again.
  unfoldable pub error_with :
      (Session R K → Session R K)
      → String
      → Session R K
      → (cancelling : Bool) (hit : Option AuthHit) (replay : Option String) → Session R K
  error_with drain message s true hit replay = record_message system "Cancelled." none s
  error_with drain message s false (some hit) replay = signed_out hit s
  error_with drain message s false none (some replay) = drain (forget_and_requeue replay s)
  error_with drain message s false none none = plain_error message s

  unfoldable pub error_event : (Session R K → Session R K) → String → Session R K → Session R K
  unfolding error_with
  error_event drain message s =
      error_with drain message s s.cancelling (auth_hit message s) (replay_of message s)

  -- A runner that refuses reports the error and the end of the run before `send` returns.
  unfoldable pub after_send : (Session R K → Session R K) → Session R K × SendResult → Session R K
  after_send drain (s, started) = s
  after_send drain (s, refused message) = done_event drain (error_event drain message s)

  -- The body of drainQueue, by the tests `busy` and `queue.shift()`. An empty prompt is falsy: it
  -- is taken off the queue and not run.
  unfoldable pub drain_with :
      (Session R K → Session R K) → Session R K → (busy : Bool) (queue : List String) → Session R K
  drain_with drain s true queue = s
  drain_with drain s false [] = s
  drain_with drain s false (next ∷ rest) =
      if next == "" then record s { queue = rest } else after_send drain (start next rest s)

  unfoldable pub drain_step : (Session R K → Session R K) → Session R K → Session R K
  unfolding drain_with
  drain_step drain s = drain_with drain s s.busy s.queue
