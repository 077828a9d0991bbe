-- ===== src/Server/Held.antt =====
-- server/agents/remote.ts, server/sessions.ts: the device that a session's run is on is a device of
-- the session's user, whatever happens to the session.
use agent_web_mvp.Prelude.{
  ℕ, ◌≡◌, refl, sym, ap, ◌∙◌, String, Bool, true, false, ◌&&◌, List, [], ◌∷◌, Option, none, some,
  arith, All, Bool-cases, Option-cases, inl, inr, truthy, same_option, same_option-eq,
}
use agent_web_mvp.Prelude.JsMap.{All-get}
use agent_web_mvp.Types.{DaemonServerMessage}
use agent_web_mvp.Devices.{Device, Registry, get_device}
use agent_web_mvp.Devices.Laws.{IsRegistry, pick_runner-owned}
use agent_web_mvp.Agents.{
  SendResult, AgentEvent, on_message, on_permission_request, on_error, on_done, on_resume_token,
}
use agent_web_mvp.Agents.Remote.{
  Remote, pick_device, pick_for, owned_by, post, cleanup, begin_run, run_frame, after_post,
  send_prompt, cancel_run, remote_runner,
}
use agent_web_mvp.Agents.Remote
use agent_web_mvp.Agents.Remote.Events.{Ticket}
use agent_web_mvp.Session.State.{Session}

-- `tenant` is the user to whom a device's token was given.
module _ (tenant : String → String) where
  abbrev pub IsDeviceOf : String → Option String → Type 0
  IsDeviceOf u none = Unit {0}
  IsDeviceOf u (some id) = tenant id ≡ u

  pub record IsRunnerOf (u : String) (r : Remote) : Type 0 where
    pub user_id : r.user_id ≡ u
    pub device : IsDeviceOf u r.active_device_id

  pub record IsHeld (u : String) (s : Session Remote Ticket) : Type 0 where
    pub user_id : s.user_id ≡ u
    pub runner : IsRunnerOf u s.runner

  -- Each device is registered for the user to whom its token was given.
  pub record IsTenants (registry : Registry) : Type 0 where
    pub valid : IsRegistry registry
    pub devices : All (λ e. tenant e.1.id ≡ e.1.user_id) registry.devices

  module _ (u : String) where
    pub unchanged-IsRunnerOf :
        (r t : Remote)
        → t.user_id ≡ r.user_id
        → t.active_device_id ≡ r.active_device_id
        → IsRunnerOf u r
        → IsRunnerOf u t
    unchanged-IsRunnerOf r t e f h = record { user_id = e ∙ h.user_id; device = rw f h.device }

    pub unchanged-IsHeld :
        (s t : Session Remote Ticket)
        → t.user_id ≡ s.user_id
        → t.runner ≡ s.runner
        → IsHeld u s
        → IsHeld u t
    unchanged-IsHeld s t e f h = record { user_id = e ∙ h.user_id; runner = rw f h.runner }

    pub cleanup-IsRunnerOf : (r : Remote) → IsRunnerOf u r → IsRunnerOf u (cleanup r)
    unfolding cleanup
    cleanup-IsRunnerOf r h = record { user_id = h.user_id; device = tt }

    module _ (registry : Registry) (uuid : ℕ → String) where
      post-IsRunnerOf :
          (id : String) (msg : DaemonServerMessage) (r : Remote)
          → IsRunnerOf u r
          → IsRunnerOf u (post registry id msg r).0
      unfolding post
      post-IsRunnerOf id msg r h =
          unchanged-IsRunnerOf r (post registry id msg r).0 (ground arith) (ground arith) h

      after_post-IsRunnerOf :
          (out : Remote × Bool) → IsRunnerOf u out.0 → IsRunnerOf u (after_post out).0
      unfolding after_post
      after_post-IsRunnerOf (r, true) h = h
      after_post-IsRunnerOf (r, false) h = cleanup-IsRunnerOf r h

      cancel_run-IsRunnerOf :
          (run device : Option String) (r : Remote)
          → IsRunnerOf u r
          → IsRunnerOf u (cancel_run registry uuid run device r)
      unfolding cancel_run
      cancel_run-IsRunnerOf none device r h = h
      cancel_run-IsRunnerOf (some run) none r h = h
      cancel_run-IsRunnerOf (some run) (some id) r h = post-IsRunnerOf id _ r h

      pub cancel-IsRunnerOf :
          (r : Remote)
          → IsRunnerOf u r
          → IsRunnerOf u (agent_web_mvp.Agents.Remote.cancel registry uuid r)
      unfolding agent_web_mvp.Agents.Remote.cancel
      cancel-IsRunnerOf r h = cancel_run-IsRunnerOf r.active_run_id r.active_device_id r h

      owned-tenant :
          (o : Option Device) (d : Device) → owned_by u o ≡ some d → (o ≡ some d) × (d.user_id ≡ u)
      unfolding owned_by
      owned-tenant none d e = cc
      owned-tenant (some c) d e = ground (arith, agent_web_mvp.Prelude.eq_iff c.user_id u)

      pick-tenant :
          (r : Remote) (o : Option String) (d : Device)
          → IsTenants registry
          → r.user_id ≡ u
          → pick_for registry r o ≡ some d
          → tenant d.id ≡ u
      unfolding pick_for get_device
      pick-tenant r none d v h e =
          let (own, at) =
            pick_runner-owned registry u d v.valid
              (sym (ap (agent_web_mvp.Devices.pick_runner registry) h) ∙ e) in
          All-get _ d.id d registry.devices v.devices at ∙ own
      pick-tenant r (some id) d v h e =
          let (at, own) =
            owned-tenant (get_device registry id) d
              (sym (ap (λ w. owned_by w (get_device registry id)) h) ∙ e) in
          All-get _ id d registry.devices v.devices at ∙ own

      pub send-IsRunnerOf :
          (prompt : String) (token : Option String) (r : Remote)
          → IsTenants registry
          → IsRunnerOf u r
          → IsRunnerOf u (send_prompt registry uuid prompt token r).0
      unfolding send_prompt pick_device begin_run
      send-IsRunnerOf prompt token r v h = elim (Option-cases (pick_device registry r)) [
        | inl e ↦ rw (e, send_prompt) h
        | inr (d, e) ↦
            rw (e, send_prompt)
              (after_post-IsRunnerOf
                (post registry d.id (run_frame (uuid r.drawn) prompt token r)
                  (begin_run (uuid r.drawn) d r))
                (post-IsRunnerOf d.id _ (begin_run (uuid r.drawn) d r) (record {
                  user_id = h.user_id;
                  device = pick-tenant r (truthy r.preferred_device_id) d v h.user_id e;
                })))
      ]
