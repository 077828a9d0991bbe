-- ===== src/Agents/Remote/Pin.antt =====
-- server/agents/remote.ts: which daemon a prompt goes to.
use agent_web_mvp.Prelude.{
  ℕ, ◌≡◌, ◌⊎◌, inl, inr, refl, String, [], ◌∷◌, ◌++◌, Option, none, some, arith, truthy, eq_iff,
  Option-cases, Bool-cases,
}
use agent_web_mvp.Devices.{Device, Registry, get_device, send_to_device}
use agent_web_mvp.Devices.Laws.{IsRegistry, pick_runner-owned}
use agent_web_mvp.Agents.{started, refused}
use agent_web_mvp.Agents.Remote.{
  Remote, pick_device, pick_for, owned_by, post, cleanup, offline_message, begin_run, run_frame,
  send_prompt,
}

-- The device is one of the user, and the one that the session is pinned to.
pub record IsTarget (registry : Registry) (r : Remote) (d : Device) : Type 0 where
  pub owner : d.user_id ≡ r.user_id
  pub registered :
      (id : String) → truthy r.preferred_device_id ≡ some id → get_device registry id ≡ some d

owned_by-some :
    (u : String) (o : Option Device) (d : Device)
    → owned_by u o ≡ some d
    → (d.user_id ≡ u) × (o ≡ some d)
unfolding owned_by
owned_by-some u none d e = cc
owned_by-some u (some c) d e = ground (arith, eq_iff c.user_id u)

pinned-IsTarget :
    (registry : Registry) (r : Remote) (d : Device) (o : Option String)
    → IsRegistry registry
    → truthy r.preferred_device_id ≡ o
    → pick_for registry r o ≡ some d
    → IsTarget registry r d
unfolding pick_for
pinned-IsTarget registry r d none v e p = record {
  owner = (pick_runner-owned registry r.user_id d v p).0;
  registered = λ id q. cc;
}
pinned-IsTarget registry r d (some id) v e p =
    let (own, at) = owned_by-some r.user_id (get_device registry id) d p in
    record { owner = own; registered = λ id' q. ground arith }

module _ (registry : Registry) (uuid : ℕ → String) where
  -- What one call of `send` does to the frames.
  abbrev pub Sends : String → Option String → Remote → Type 0
  Sends prompt token r =
      let out = send_prompt registry uuid prompt token r in
      ((d : Device) × IsTarget registry r d
        × (out.1 ≡ started)
        × (out.0.sent ≡ r.sent ++ (d.id, run_frame (uuid r.drawn) prompt token r) ∷ [])
        × (out.0.active_run_id ≡ some (uuid r.drawn))
        × (out.0.active_device_id ≡ some d.id))
      ⊎ ((m : String) × (out.1 ≡ refused m) × (out.0.sent ≡ r.sent))

  post-Sends :
      (d : Device) (prompt : String) (token : Option String) (r : Remote)
      → IsTarget registry r d
      → pick_device registry r ≡ some d
      → Sends prompt token r
  unfolding send_prompt post begin_run cleanup
  post-Sends d prompt token r t e =
      elim (Bool-cases (send_to_device registry d.id (run_frame (uuid r.drawn) prompt token r)).1) [
        | inl c ↦ inl (d, t, ground arith, ground arith, ground arith, ground arith)
        | inr c ↦ inr ("Daemon disconnected before run could start.", ground arith, ground arith)
      ]

  -- A prompt goes to one device at most, and then to a device of the session's own user; if the
  -- session is pinned, to the one that is registered under the pin. Otherwise the runner refuses, and
  -- no frame is sent to any device.
  pub send_prompt-Sends :
      (prompt : String) (token : Option String) (r : Remote)
      → IsRegistry registry
      → Sends prompt token r
  unfolding send_prompt pick_device
  send_prompt-Sends prompt token r v = elim (Option-cases (pick_device registry r)) [
    | inl e ↦ inr (offline_message r, rw (e, send_prompt), rw (e, send_prompt))
    | inr (d, e) ↦
        post-Sends d prompt token r
          (pinned-IsTarget registry r d (truthy r.preferred_device_id) v refl e) e
  ]
