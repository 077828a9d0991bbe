-- ===== src/Server/Holding.antt =====
-- server/sessions.ts and agents/remote.ts: the methods of a session, and the messages of daemons, keep
-- a session's run on a device of the session's user.
use agent_web_mvp.Prelude.{
  ℕ, ◌≡◌, refl, ◌∙◌, String, Bool, true, false, ◌&&◌, List, [], ◌∷◌, Option, none, some, arith,
  Bool-cases, Option-cases, inl, inr, truthy, same_option,
}
use agent_web_mvp.Types.{
  DaemonClientMessage, daemon_message, daemon_permission_request, daemon_done, daemon_dir_listing,
  daemon_codex_enable_ack,
}
use agent_web_mvp.Types.Values.{Json}
use agent_web_mvp.Devices.{Registry}
use agent_web_mvp.Agents.{
  AgentEvent, on_message, on_permission_request, on_error, on_done, on_resume_token,
}
use agent_web_mvp.Agents.Remote.{Remote, cleanup, remote_runner}
use agent_web_mvp.Agents.Remote.Events.{
  Ticket, take_token, take_error, ask, handle_daemon_message, hear, hear_all, dispatch, run_of,
}
use agent_web_mvp.Session.State.{
  Session, Env, emit_auth_required, set_status, settle_down, token_event, answered, back_to_running,
  resolve_permission,
}
use agent_web_mvp.Session.Steps.{
  record_message, start, ask_permission, forget_and_requeue, plain_error, signed_out,
}
use agent_web_mvp.Session.Operations.{
  drain, enqueue_prompt, retry_last_user_prompt, cancel, handle_event, last_user,
}
use agent_web_mvp.Session.Keeps.{DrainKeeps, EventKeeps, drain-keeps, handle_event-keeps}
use agent_web_mvp.Session.Recovery.{start_result}
use agent_web_mvp.Server.Held.{
  IsHeld, IsRunnerOf, IsTenants, unchanged-IsHeld, cleanup-IsRunnerOf, cancel-IsRunnerOf,
  send-IsRunnerOf,
}

module _ (tenant : String → String) where
  -- Surroundings of a session whose runner uses a registry that has each device for its user.
  pub record IsEnv (env : Env Remote) : Type 0 where
    pub registry : Registry
    pub uuid : ℕ → String
    pub uses : env.runner ≡ remote_runner registry uuid
    pub tenants : IsTenants tenant registry

  module _ (u : String) (env : Env Remote) (v : IsEnv env) where
    P : Session Remote Ticket → Type 0
    P s = IsHeld tenant u s

    start_user :
        (next : String) (rest : List String) (s : Session Remote Ticket)
        → (start env next rest s).0.user_id ≡ s.user_id
    unfolding start set_status
    start_user next rest s = ground arith

    send_held :
        (p : String) (t : Option String) (r : Remote)
        → IsRunnerOf tenant u r
        → IsRunnerOf tenant u (env.runner.send p t r).0
    send_held p t r h = rw v.uses (send-IsRunnerOf tenant u v.registry v.uuid p t r v.tenants h)

    start_held :
        (next : String) (rest : List String) (s : Session Remote Ticket)
        → P s
        → P (start env next rest s).0
    unfolding P
    start_held next rest s h =
        let (_, run, _, _, _, _, _, _, _) = start_result env s next rest _ _ refl in
        record {
          user_id = start_user next rest s ∙ h.user_id;
          runner = rw run (send_held next s.resume_token s.runner h.runner);
        }

    steps : DrainKeeps env P
    unfolding P record_message signed_out forget_and_requeue plain_error settle_down
        emit_auth_required set_status
    steps = record {
      shift = λ rest s h. unchanged-IsHeld tenant u s (record s { queue = rest }) refl refl h;
      start = λ next rest s e h. start_held next rest s h;
      say = λ role text m s h.
          unchanged-IsHeld tenant u s (record_message env role text m s) refl refl h;
      sign_out = λ m hit s e h.
          unchanged-IsHeld tenant u s (signed_out env hit s) (ground arith) (ground arith) h;
      requeue = λ m replay s e h.
          unchanged-IsHeld tenant u s (forget_and_requeue env replay s) (ground arith)
            (ground arith) h;
      fail = λ m s h.
          unchanged-IsHeld tenant u s (plain_error env m s) (ground arith) (ground arith) h;
      rest = λ s h. unchanged-IsHeld tenant u s (settle_down s) (ground arith) (ground arith) h;
    }

    keeps : EventKeeps env P
    unfolding P ask_permission token_event emit_auth_required set_status
    keeps = record {
      steps = steps;
      alert = λ m hit s e h.
          unchanged-IsHeld tenant u s
            (emit_auth_required hit (record s { auth_alerted_this_turn = true })) (ground arith)
            (ground arith) h;
      ask = λ tool input k s h.
          unchanged-IsHeld tenant u s (ask_permission env tool input k s) (ground arith)
            (ground arith) h;
      token =
          λ t s h. unchanged-IsHeld tenant u s (token_event t s) (ground arith) (ground arith) h;
    }

    event-IsHeld :
        (e : AgentEvent Ticket) (s : Session Remote Ticket)
        → IsHeld tenant u s
        → IsHeld tenant u (handle_event env e s)
    unfolding P
    event-IsHeld e s h = handle_event-keeps env keeps e s h

    drain-IsHeld : (s : Session Remote Ticket) → IsHeld tenant u s → IsHeld tenant u (drain env s)
    unfolding P
    drain-IsHeld s h = drain-keeps env steps s h

    pub prompt-IsHeld :
        (p : String) (s : Session Remote Ticket)
        → IsHeld tenant u s
        → IsHeld tenant u (enqueue_prompt env p s)
    unfolding enqueue_prompt record_message
    prompt-IsHeld p s h = drain-IsHeld _ (record { user_id = h.user_id; runner = h.runner })

    pub retry-IsHeld :
        (s : Session Remote Ticket)
        → IsHeld tenant u s
        → IsHeld tenant u (retry_last_user_prompt env s).0
    unfolding retry_last_user_prompt
    retry-IsHeld s h = elim (Option-cases (last_user s.history)) [
      | inl e ↦ rw (e, retry_last_user_prompt) h
      | inr (t, e) ↦
          rw (e, retry_last_user_prompt)
            (drain-IsHeld (record s { auth_alerted_this_turn = false; queue = t ∷ s.queue })
              (record { user_id = h.user_id; runner = h.runner }))
    ]

    pub cancel-IsHeld :
        (s : Session Remote Ticket) → IsHeld tenant u s → IsHeld tenant u (cancel env s)
    unfolding cancel
    cancel-IsHeld s h = record {
      user_id = h.user_id;
      runner = rw v.uses (cancel-IsRunnerOf tenant u v.registry v.uuid s.runner h.runner);
    }

    pub resolve-IsHeld :
        (id : String) (allow : Bool) (s : Session Remote Ticket)
        → IsHeld tenant u s
        → IsHeld tenant u (resolve_permission id allow s)
    unfolding resolve_permission answered back_to_running set_status
    resolve-IsHeld id allow s h =
        unchanged-IsHeld tenant u s (resolve_permission id allow s) (ground arith) (ground arith) h

    token-IsHeld :
        (o : Option String) (s : Session Remote Ticket)
        → IsHeld tenant u s
        → IsHeld tenant u (take_token env o s)
    unfolding take_token
    token-IsHeld none s h = h
    token-IsHeld (some t) s h = event-IsHeld (on_resume_token t) s h

    error-IsHeld :
        (o : Option String) (s : Session Remote Ticket)
        → IsHeld tenant u s
        → IsHeld tenant u (take_error env o s)
    unfolding take_error
    error-IsHeld none s h = h
    error-IsHeld (some m) s h = event-IsHeld (on_error m) s h

    ask-IsHeld :
        (dev : Option String) (run id tool : String) (input : Json) (s : Session Remote Ticket)
        → IsHeld tenant u s
        → IsHeld tenant u (ask env dev (daemon_permission_request run id tool input) s)
    unfolding ask
    ask-IsHeld none run id tool input s h = h
    ask-IsHeld (some dev) run id tool input s h =
        event-IsHeld (on_permission_request tool input _) s h

    heard-IsHeld :
        (msg : DaemonClientMessage) (s : Session Remote Ticket)
        → IsHeld tenant u s
        → IsHeld tenant u (handle_daemon_message env msg s)
    unfolding handle_daemon_message
    heard-IsHeld (daemon_message run role text m) s h = event-IsHeld (on_message role text m) s h
    heard-IsHeld (daemon_permission_request run id tool input) s h =
        ask-IsHeld s.runner.active_device_id run id tool input s h
    heard-IsHeld (daemon_done run token error) s h =
        let t = take_error env (truthy error) (take_token env (truthy token) s) in
        let k = error-IsHeld (truthy error) _ (token-IsHeld (truthy token) s h) in
        event-IsHeld on_done (record t { runner = cleanup t.runner })
          (record { user_id = k.user_id; runner = cleanup-IsRunnerOf tenant u t.runner k.runner })
    heard-IsHeld (daemon_dir_listing id path parent entries error) s h = h
    heard-IsHeld (daemon_codex_enable_ack id success error) s h = h

    hear-IsHeld :
        (dev : String) (msg : DaemonClientMessage) (run : String) (s : Session Remote Ticket)
        → IsHeld tenant u s
        → IsHeld tenant u (hear env dev msg run s)
    unfolding hear
    hear-IsHeld dev msg run s h =
        elim (Bool-cases (
          same_option (some dev) s.runner.active_device_id
          && same_option (run_of msg) (some run))) [
            | inl e ↦ rw e (heard-IsHeld msg s h)
            | inr e ↦ rw e h
          ]

    hear_all-IsHeld :
        (dev : String) (msg : DaemonClientMessage) (runs : List String) (s : Session Remote Ticket)
        → IsHeld tenant u s
        → IsHeld tenant u (hear_all env dev msg runs s)
    unfolding hear_all
    hear_all-IsHeld dev msg [] s h = h
    hear_all-IsHeld dev msg (run ∷ runs) s h =
        hear_all-IsHeld dev msg runs (hear env dev msg run s) (hear-IsHeld dev msg run s h)

    pub dispatch-IsHeld :
        (dev : String) (msg : DaemonClientMessage) (s : Session Remote Ticket)
        → IsHeld tenant u s
        → IsHeld tenant u (dispatch env dev msg s)
    unfolding dispatch
    dispatch-IsHeld dev msg s h = hear_all-IsHeld dev msg s.runner.subscriptions s h

-- A session whose run is on no device, or on another one, does not hear a device.
module _ (env : Env Remote) (dev : String) (msg : DaemonClientMessage) where
  hear_all_deaf :
      (runs : List String) (s : Session Remote Ticket)
      → same_option (some dev) s.runner.active_device_id ≡ false
      → hear_all env dev msg runs s ≡ s
  unfolding hear_all hear
  hear_all_deaf [] s e = refl
  hear_all_deaf (run ∷ runs) s e = rw e (hear_all_deaf runs s e)

  pub dispatch_deaf :
      (s : Session Remote Ticket)
      → same_option (some dev) s.runner.active_device_id ≡ false
      → dispatch env dev msg s ≡ s
  unfolding dispatch
  dispatch_deaf s e = hear_all_deaf s.runner.subscriptions s e
