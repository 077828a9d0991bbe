-- ===== src/Agents/Remote/Replay.antt =====
-- server/agents/remote.ts with class Session: what becomes of a run that the session starts while the
-- runner handles the end of the run before.
use agent_web_mvp.Prelude.{
  ◌≡◌, refl, ap, ◌∙◌, String, true, false, List, [], ◌∷◌, none, some, arith, ◌==◌, same_option,
}
use agent_web_mvp.Types.{DaemonClientMessage, daemon_done}
use agent_web_mvp.Agents.{started}
use agent_web_mvp.Agents.Remote.{Remote, cleanup}
use agent_web_mvp.Agents.Remote.Events.{Ticket, handle_daemon_message, hear, hear_all, dispatch}
use agent_web_mvp.Session.State.{
  Session, Env, auth_hit, settle_down, set_status, done_event, is_stale_resume_error,
}
use agent_web_mvp.Session.Steps.{error_event}
use agent_web_mvp.Session.Operations.{drain, handle_event}
use agent_web_mvp.Session.Recovery.{drain_empty, stale_error_replays}

module _ (env : Env Remote) where
  hear_foreign :
      (dev : String) (msg : DaemonClientMessage) (run_id : String) (s : Session Remote Ticket)
      → same_option (some dev) s.runner.active_device_id ≡ false
      → hear env dev msg run_id s ≡ s
  unfolding hear
  hear_foreign dev msg run_id s e = rw e

  hear_all_foreign :
      (dev : String) (msg : DaemonClientMessage) (runs : List String) (s : Session Remote Ticket)
      → same_option (some dev) s.runner.active_device_id ≡ false
      → hear_all env dev msg runs s ≡ s
  unfolding hear_all
  hear_all_foreign dev msg [] s e = refl
  hear_all_foreign dev msg (run_id ∷ runs) s e =
      ap (hear_all env dev msg runs) (hear_foreign dev msg run_id s e)
      ∙ hear_all_foreign dev msg runs s e

  -- A message of any device but the one that the session's run is on changes nothing in the session:
  -- no history, no permission request, no end of the run. When no run is on, no message does.
  dispatch_foreign :
      (dev : String) (msg : DaemonClientMessage) (s : Session Remote Ticket)
      → same_option (some dev) s.runner.active_device_id ≡ false
      → dispatch env dev msg s ≡ s
  unfolding dispatch
  dispatch_foreign dev msg s e = hear_all_foreign dev msg s.runner.subscriptions s e

  settled :
      (s : Session Remote Ticket)
      → ((settle_down s).runner ≡ s.runner)
        × ((settle_down s).queue ≡ s.queue)
        × ((settle_down s).busy ≡ false)
        × ((settle_down s).in_flight_prompt ≡ none)
  unfolding settle_down set_status
  settled s = ground arith

  done_when_empty :
      (s : Session Remote Ticket)
      → s.queue ≡ []
      → ((done_event (drain env) s).runner ≡ s.runner)
        × ((done_event (drain env) s).busy ≡ false)
        × ((done_event (drain env) s).in_flight_prompt ≡ none)
  unfolding done_event
  done_when_empty s q =
      let (r, queue, busy, flight) = settled s in
      rw (drain_empty env (settle_down s) busy (queue ∙ q)) (r, busy, flight)

  -- What daemon_done with an error and no token does.
  done_with_error :
      (run_id m : String) (s : Session Remote Ticket)
      → (m == "") ≡ false
      → let u = error_event env (drain env) m s in
        handle_daemon_message env (daemon_done run_id none (some m)) s
        ≡ done_event (drain env) (record u { runner = cleanup u.runner })
  unfolding handle_daemon_message handle_event
  done_with_error run_id m s n = rw n

  -- The bug of the recovery from a stale token on a daemon. A daemon_done without a resume token
  -- reports that the conversation is gone, in a text that does not ask for a login. Its run was not
  -- cancelled, its prompt is not empty, the recovery was not used before, and no other prompt is
  -- queued. The session starts the prompt again at once, on the same runner (`r` is the runner with the
  -- new run sent). Then the runner cleans up, as after the old run: it forgets the new run and its
  -- subscription, and the session goes idle. Whatever any daemon sends afterwards, its answer to the
  -- prompt and its permission requests included, changes nothing.
  pub stale_replay_orphaned :
      (run_id m p : String) (s : Session Remote Ticket) (r : Remote)
      → s.cancelling ≡ false
      → auth_hit m s ≡ none
      → is_stale_resume_error m ≡ true
      → (m == "") ≡ false
      → s.stale_resume_retried ≡ false
      → s.in_flight_prompt ≡ some p
      → (p == "") ≡ false
      → s.queue ≡ []
      → env.runner.send p none s.runner ≡ (r, started)
      → let t = handle_daemon_message env (daemon_done run_id none (some m)) s in
        (t.runner ≡ cleanup r)
        × (t.busy ≡ false)
        × (t.in_flight_prompt ≡ none)
        × ((dev : String) (msg : DaemonClientMessage) → dispatch env dev msg t ≡ t)
  unfolding cleanup
  stale_replay_orphaned run_id m p s r c h st k u i n q a =
      let e = error_event env (drain env) m s in
      let (_, _, queue, run, _, _) = stale_error_replays env m p s r c h st u i n a in
      let (runner, busy, flight) =
        done_when_empty (record e { runner = cleanup e.runner }) (queue ∙ q) in
      rw (done_with_error run_id m s k) (
        runner ∙ ap cleanup run,
        busy,
        flight,
        λ dev msg.
            dispatch_foreign dev msg _ (ap (λ x. same_option (some dev) x.active_device_id) runner),
      )
