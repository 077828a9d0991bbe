-- ===== src/Devices/Invariant.antt =====
-- server/devices.ts: the invariant of the registry, over any history of calls.
use agent_web_mvp.Prelude.{
  ◌≡◌, String, Bool, List, [], ◌∷◌, some, Option-cases, Bool-cases, inl, inr,
}
use agent_web_mvp.Prelude.JsMap.{get, All-set, All-get}
use agent_web_mvp.Prelude.JsMap.Distinct.{IsMap-set}
use agent_web_mvp.Devices.{Device, Registry, set_codex_enabled, same_flag, with_codex}
use agent_web_mvp.Devices.Laws.{
  IsRegistry, register-IsRegistry, terminate-IsRegistry, unregister-IsRegistry,
}
use agent_web_mvp.Devices.Replacement.{Call, registers, closes, terminates, enables, step, run}

flag-IsRegistry :
    (r : Registry) (id : String) (b : Bool) (d : Device)
    → get id r.devices ≡ some d
    → IsRegistry r
    → IsRegistry (set_codex_enabled r id b).0
unfolding set_codex_enabled
flag-IsRegistry r id b d e v = elim (Bool-cases (same_flag d.codex_enabled b)) [
  | inl c ↦ rw (e, set_codex_enabled, c) v
  | inr c ↦
      rw (e, set_codex_enabled, c)
        (record {
          distinct = IsMap-set id (with_codex b d) r.devices v.distinct;
          own_ids =
              All-set _ id (with_codex b d) r.devices v.own_ids
                (All-get _ id d r.devices v.own_ids e);
        })
]

set_codex_enabled-IsRegistry :
    (r : Registry) (id : String) (b : Bool) → IsRegistry r → IsRegistry (set_codex_enabled r id b).0
unfolding set_codex_enabled
set_codex_enabled-IsRegistry r id b v = elim (Option-cases (get id r.devices)) [
  | inl e ↦ rw (e, set_codex_enabled) v
  | inr (d, e) ↦ flag-IsRegistry r id b d e v
]

step-IsRegistry : (c : Call) (r : Registry) → IsRegistry r → IsRegistry (step r c)
unfolding step
step-IsRegistry (registers id ws user_id hello addr now) r v =
    register-IsRegistry r id ws user_id hello addr now v
step-IsRegistry (closes id ws) r v = unregister-IsRegistry r id (some ws) v
step-IsRegistry (terminates id) r v = terminate-IsRegistry r id v
step-IsRegistry (enables id enabled) r v = set_codex_enabled-IsRegistry r id enabled v

-- After any history of connections, closed sockets, revocations and codex acknowledgements, each
-- device stands in the registry under its own id, and once.
run-IsRegistry : (cs : List Call) (r : Registry) → IsRegistry r → IsRegistry (run r cs)
unfolding run
run-IsRegistry [] r v = v
run-IsRegistry (c ∷ cs) r v = run-IsRegistry cs (step r c) (step-IsRegistry c r v)
