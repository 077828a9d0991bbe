-- ===== src/Session/Keeps.antt =====
-- server/sessions.ts: what has to be checked of a property for every callback of the runner, and
-- every method that the server calls, to keep it.
use agent_web_mvp.Prelude.{
  ℕ, zero, suc, ◌≡◌, refl, String, Bool, true, false, List, [], ◌∷◌, Option, none, some, ◌==◌,
  Bool-cases, inl, inr,
}
use agent_web_mvp.Types.{Role, user, assistant, system, tool_use, tool_result}
use agent_web_mvp.Types.Values.{Json}
use agent_web_mvp.Types.AuthDetect.{AuthHit}
use agent_web_mvp.Agents.{
  SendResult, started, refused, AgentEvent, on_message, on_permission_request, on_error, on_done,
  on_resume_token,
}
use agent_web_mvp.Session.State.{
  Session, Env, emit_auth_required, replay_of, auth_hit, settle_down, done_event, token_event,
}
use agent_web_mvp.Session.Steps.{
  record_message, start, message_event, ask_permission, forget_and_requeue, plain_error, signed_out,
  error_event, after_send, drain_with, drain_step,
}
use agent_web_mvp.Session.Operations.{drain_queue, drain, handle_event}
use agent_web_mvp.Session.Drain.{error_with_cases}

module _ {R K : Type 0} (env : Env R) where
  -- The steps of which drainQueue is made.
  pub record DrainKeeps {ℓ} (P : Session R K → Type ℓ) : Type ℓ where
    pub shift : (rest : List String) (s : Session R K) → P s → P (record s { queue = rest })
    pub start :
        (next : String) (rest : List String) (s : Session R K)
        → s.busy ≡ false
        → P s
        → P (start env next rest s).0
    pub say :
        (role : Role) (text : String) (m : Option Json) (s : Session R K)
        → P s
        → P (record_message env role text m s)
    pub sign_out :
        (m : String) (hit : AuthHit) (s : Session R K)
        → auth_hit m s ≡ some hit
        → P s
        → P (signed_out env hit s)
    pub requeue :
        (m replay : String) (s : Session R K)
        → replay_of m s ≡ some replay
        → P s
        → P (forget_and_requeue env replay s)
    pub fail : (m : String) (s : Session R K) → P s → P (plain_error env m s)
    pub rest : (s : Session R K) → P s → P (settle_down s)

  -- The other callbacks.
  pub record EventKeeps {ℓ} (P : Session R K → Type ℓ) : Type ℓ where
    pub steps : DrainKeeps P
    pub open steps use *
    pub alert :
        (m : String) (hit : AuthHit) (s : Session R K)
        → auth_hit m s ≡ some hit
        → P s
        → P (emit_auth_required hit (record s { auth_alerted_this_turn = true }))
    pub ask :
        (tool : String) (input : Json) (k : K) (s : Session R K)
        → P s
        → P (ask_permission env tool input k s)
    pub token : (t : String) (s : Session R K) → P s → P (token_event t s)

  module _ {ℓ} {P : Session R K → Type ℓ} (k : DrainKeeps P) where
    error_event-keeps :
        (d : Session R K → Session R K) (m : String) (s : Session R K)
        → ((t : Session R K) → P t → P (d t))
        → P s
        → P (error_event env d m s)
    unfolding error_event
    error_event-keeps d m s h p =
        error_with_cases env P d m s s.cancelling (auth_hit m s) (replay_of m s)
          (λ _. k.say system "Cancelled." none s p) (λ hit _ e. k.sign_out m hit s e p)
          (λ replay _ _ e. h (forget_and_requeue env replay s) (k.requeue m replay s e p))
          (λ _ _ _. k.fail m s p)

    after_send-keeps :
        (d : Session R K → Session R K) (r : Session R K × SendResult)
        → ((t : Session R K) → P t → P (d t))
        → P r.0
        → P (after_send env d r)
    unfolding after_send done_event
    after_send-keeps d (s, started) h p = p
    after_send-keeps d (s, refused m) h p =
        h (settle_down (error_event env d m s))
          (k.rest (error_event env d m s) (error_event-keeps d m s h p))

    drain_with-keeps :
        (d : Session R K → Session R K) (s : Session R K) (b : Bool) (q : List String)
        → s.busy ≡ b
        → ((t : Session R K) → P t → P (d t))
        → P s
        → P (drain_with env d s b q)
    unfolding drain_with
    drain_with-keeps d s true q e h p = p
    drain_with-keeps d s false [] e h p = p
    drain_with-keeps d s false (next ∷ rest) e h p = elim (Bool-cases (next == "")) [
      | inl c ↦ rw c (k.shift rest s p)
      | inr c ↦ rw c (after_send-keeps d (start env next rest s) h (k.start next rest s e p))
    ]

    drain_queue-keeps : (f : ℕ) (s : Session R K) → P s → P (drain_queue env f s)
    unfolding drain_queue drain_step
    drain_queue-keeps zero s p = p
    drain_queue-keeps (suc f) s p =
        drain_with-keeps (drain_queue env f) s s.busy s.queue refl (drain_queue-keeps f) p

    pub drain-keeps : (s : Session R K) → P s → P (drain env s)
    unfolding drain
    drain-keeps s p = drain_queue-keeps _ s p

    pub done-keeps : (s : Session R K) → P s → P (done_event (drain env) s)
    unfolding done_event
    done-keeps s p = drain-keeps (settle_down s) (k.rest s p)

    pub error-keeps : (m : String) (s : Session R K) → P s → P (error_event env (drain env) m s)
    error-keeps m s p = error_event-keeps (drain env) m s drain-keeps p

  module _ {ℓ} {P : Session R K → Type ℓ} (k : EventKeeps P) where
    message-keeps :
        (role : Role) (text : String) (m : Option Json) (s : Session R K) (o : Option AuthHit)
        → auth_hit text s ≡ o
        → P s
        → P (message_event env role text m s)
    unfolding message_event
    message-keeps system text m s none e p = rw (e, message_event) (k.say system text m s p)
    message-keeps system text m s (some hit) e p =
        rw (e, message_event)
          (k.say system text m (emit_auth_required hit (record s { auth_alerted_this_turn = true }))
            (k.alert text hit s e p))
    message-keeps user text m s o e p = k.say user text m s p
    message-keeps assistant text m s o e p = k.say assistant text m s p
    message-keeps tool_use text m s o e p = k.say tool_use text m s p
    message-keeps tool_result text m s o e p = k.say tool_result text m s p

    -- Every callback of the runner keeps what the steps keep.
    pub handle_event-keeps : (e : AgentEvent K) (s : Session R K) → P s → P (handle_event env e s)
    unfolding handle_event
    handle_event-keeps (on_message role text m) s p =
        message-keeps role text m s (auth_hit text s) refl p
    handle_event-keeps (on_permission_request tool input t) s p = k.ask tool input t s p
    handle_event-keeps (on_error m) s p = error-keeps k.steps m s p
    handle_event-keeps on_done s p = done-keeps k.steps s p
    handle_event-keeps (on_resume_token t) s p = k.token t s p
