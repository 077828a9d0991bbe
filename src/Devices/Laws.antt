-- ===== src/Devices/Laws.antt =====
-- server/devices.ts: what each operation of the registry does, and the invariant that all keep.
use agent_web_mvp.Prelude.{
  ℕ, ◌≡◌, refl, String, Bool, true, false, [], ◌∷◌, ◌++◌, Option, none, some, arith, ◌==◌, eq_iff,
  eq_refl, keep, head?, All, Option-cases, Bool-cases, inl, inr,
}
use agent_web_mvp.Prelude.JsMap.{
  JsMap, get, get-set_self, get-remove_self, All-set, All-remove, values,
}
use agent_web_mvp.Prelude.JsMap.Distinct.{IsMap, IsMap-set, IsMap-remove}
use agent_web_mvp.Types.{DaemonServerMessage}
use agent_web_mvp.Wire.{to_daemon, close}
use agent_web_mvp.Devices.{
  DeviceHello, Device, Registry, get_device, pick_runner, register, terminate, is_other, unregister,
  send_to_device, set_codex_enabled, same_flag, with_codex,
}

-- Each device stands under its own id, once.
pub record IsRegistry (r : Registry) : Type 0 where
  pub distinct : IsMap r.devices
  pub own_ids : All (λ e. e.1.id ≡ e.0) r.devices

pub register-IsRegistry :
    (r : Registry) (id : String) (ws : ℕ) (user_id : String) (hello : DeviceHello) (addr : String)
    (now : ℕ)
    → IsRegistry r
    → IsRegistry (register r id ws user_id hello addr now).0
unfolding register
register-IsRegistry r id ws user_id hello addr now v = record {
  distinct = IsMap-set id _ r.devices v.distinct;
  own_ids = All-set _ id _ r.devices v.own_ids refl;
}

pub terminate-IsRegistry :
    (r : Registry) (id : String) → IsRegistry r → IsRegistry (terminate r id).0
unfolding terminate
terminate-IsRegistry r id v = elim (Option-cases (get id r.devices)) [
  | inl e ↦ rw (e, terminate) v
  | inr (d, e) ↦
      rw (e, terminate)
        (record {
          distinct = IsMap-remove id r.devices v.distinct;
          own_ids = All-remove _ id r.devices v.own_ids;
        })
]

pub unregister-IsRegistry :
    (r : Registry) (id : String) (ws : Option ℕ) → IsRegistry r → IsRegistry (unregister r id ws)
unfolding unregister
unregister-IsRegistry r id ws v = elim (Option-cases (get id r.devices)) [
  | inl e ↦ rw (e, unregister) v
  | inr (d, e) ↦ elim (Bool-cases (is_other ws d)) [
    | inl c ↦ rw (e, unregister, c) v
    | inr c ↦
        rw (e, unregister, c)
          (record {
            distinct = IsMap-remove id r.devices v.distinct;
            own_ids = All-remove _ id r.devices v.own_ids;
          })
  ]
]

-- What a user's list holds.
listed :
    (m : JsMap Device) (user_id : String) (d : Device)
    → IsMap m
    → All (λ e. e.1.id ≡ e.0) m
    → head? (keep (λ d. d.user_id == user_id) (values m)) ≡ some d
    → (d.user_id ≡ user_id) × (get d.id m ≡ some d)
unfolding get
listed [] u d h a e = cc
listed ((k, c) ∷ m) u d (h, hs) (a, b) e = elim (Bool-cases (c.user_id == u)) [
  | inl t ↦ ground (arith, eq_iff c.user_id u, eq_refl k, eq_iff k d.id, eq_iff k c.id)
  | inr f ↦
      let (own, at) = listed m u d hs b (rw f at e) in (own, ground (arith, at, eq_iff k d.id))
]

-- A device that pickRunner picks for a user is that user's, and it is the one that is registered
-- under its id.
pub pick_runner-owned :
    (r : Registry) (user_id : String) (d : Device)
    → IsRegistry r
    → pick_runner r user_id ≡ some d
    → (d.user_id ≡ user_id) × (get_device r d.id ≡ some d)
unfolding pick_runner get_device
pick_runner-owned r u d v e = listed r.devices u d v.distinct v.own_ids e

-- sendToDevice answers true exactly if the device is registered and its socket is open. Then the
-- frame, and nothing else, is handed to that socket; otherwise nothing changes.
pub send_to_device_lem :
    (r : Registry) (id : String) (msg : DaemonServerMessage)
    → ((d : Device)
        → get_device r id ≡ some d
        → r.net.is_open d.ws ≡ true
        → ((send_to_device r id msg).1 ≡ true)
          × ((send_to_device r id msg).0.net.frames ≡ r.net.frames ++ (d.ws, to_daemon msg) ∷ [])
          × ((send_to_device r id msg).0.devices ≡ r.devices))
      × ((d : Device)
          → get_device r id ≡ some d
          → r.net.is_open d.ws ≡ false
          → send_to_device r id msg ≡ (r, false))
      × (get_device r id ≡ none → send_to_device r id msg ≡ (r, false))
unfolding send_to_device get_device
send_to_device_lem r id msg = (
  λ d e o. rw (e, send_to_device) (rw o (refl, refl, refl)),
  λ d e o. rw (e, send_to_device) (rw o),
  λ e. rw (e, send_to_device),
)

-- After a revocation the device is gone, its socket is closed, and nothing more is sent to it.
terminate-send_to_device :
    (r : Registry) (id : String) (d : Device) (msg : DaemonServerMessage)
    → get_device r id ≡ some d
    → let r' = (terminate r id).0 in
      ((terminate r id).1 ≡ true)
      × (r'.net.is_open d.ws ≡ false)
      × (get_device r' id ≡ none)
      × (send_to_device r' id msg ≡ (r', false))
unfolding terminate get_device send_to_device close
terminate-send_to_device r id d msg e =
    rw (e, terminate)
      (
        refl,
        ground arith,
        get-remove_self id r.devices,
        rw (get-remove_self id r.devices, send_to_device),
      )

flag_set : (b : Bool) → same_flag (some b) b ≡ true
unfolding same_flag
flag_set true = refl
flag_set false = refl

enabled_again :
    (r : Registry) (id : String) (b : Bool) (o : Option Device)
    → get id r.devices ≡ o
    → set_codex_enabled (set_codex_enabled r id b).0 id b ≡ set_codex_enabled r id b
unfolding set_codex_enabled
enabled_again r id b none e = ground arith
enabled_again r id b (some d) e =
    ground (arith, get-set_self id (with_codex b d) r.devices, flag_set b)

-- A second acknowledgement of codex with the same answer has the same answer and changes nothing:
-- no callback is called again.
set_codex_enabled_twice :
    (r : Registry) (id : String) (b : Bool)
    → set_codex_enabled (set_codex_enabled r id b).0 id b ≡ set_codex_enabled r id b
set_codex_enabled_twice r id b = enabled_again r id b (get id r.devices) refl
