-- ===== src/Devices/Replacement.antt =====
-- server/devices.ts: a daemon that reconnects. The registry against its specification: a map from
-- device ids to the newest connection that has not been closed.
use agent_web_mvp.Prelude.{
  ℕ, ◌≡◌, ◌≢◌, refl, ap, ◌∙◌, String, Bool, false, ◌&&◌, List, [], ◌∷◌, Option, none, some, arith,
  nat_eq, if◌then◌else◌, ◌==◌, eq_iff,
}
use agent_web_mvp.Prelude.JsMap.{get, get-set, get-set_self, get-remove}
use agent_web_mvp.Wire.{close}
use agent_web_mvp.Devices.{
  DeviceHello, Device, Registry, register, terminate, unregister, set_codex_enabled, with_codex,
}

-- What happens to the registry: a daemon's hello, the close of a socket, the user's revocation, and
-- the acknowledgement that codex is enabled.
pub data Call : Type 0 where
  registers :
      (id : String) (ws : ℕ) (user_id : String) → DeviceHello → (addr : String) (now : ℕ) → Call
  closes : (id : String) (ws : ℕ) → Call
  terminates : (id : String) → Call
  enables : (id : String) (enabled : Bool) → Call

unfoldable pub step : Registry → Call → Registry
step r (registers id ws user_id hello addr now) = (register r id ws user_id hello addr now).0
step r (closes id ws) = unregister r id (some ws)
step r (terminates id) = (terminate r id).0
step r (enables id enabled) = (set_codex_enabled r id enabled).0

unfoldable pub run : Registry → List Call → Registry
run r [] = r
run r (c ∷ cs) = run (step r c) cs

-- The specification.
abbrev pub Connections : Type 0
Connections = String → Option ℕ

abbrev pub socket_of : Option Device → Option ℕ
socket_of none = none
socket_of (some d) = some d.ws

abbrev pub is_socket : Option ℕ → ℕ → Bool
is_socket none ws = false
is_socket (some v) ws = nat_eq v ws

abbrev pub follow : Connections → Call → Connections
follow c (registers id ws user_id hello addr now) j = if id == j then some ws else c j
follow c (closes id ws) j = if id == j && is_socket (c j) ws then none else c j
follow c (terminates id) j = if id == j then none else c j
follow c (enables id enabled) j = c j

abbrev pub follow_all : Connections → List Call → Connections
follow_all c [] j = c j
follow_all c (x ∷ xs) j = follow_all (follow c x) xs j

abbrev pub connections : Registry → Connections
connections r j = socket_of (get j r.devices)

unregister_view :
    (r : Registry) (id : String) (ws : ℕ) (j : String) (o : Option Device)
    → get id r.devices ≡ o
    → connections (unregister r id (some ws)) j ≡ follow (connections r) (closes id ws) j
unfolding unregister
unregister_view r id ws j none e =
    rw (e, unregister) (ground (arith, eq_iff id j, ap (λ k. get k r.devices)))
unregister_view r id ws j (some d) e =
    ground (arith, eq_iff id j, get-remove id j r.devices, ap (λ k. get k r.devices))

enable_view :
    (r : Registry) (id : String) (enabled : Bool) (j : String) (o : Option Device)
    → get id r.devices ≡ o
    → connections (set_codex_enabled r id enabled).0 j ≡ connections r j
unfolding set_codex_enabled
enable_view r id enabled j none e = rw (e, set_codex_enabled)
enable_view r id enabled j (some d) e =
    ground
      (arith, eq_iff id j, get-set id j (with_codex enabled d) r.devices, ap (λ k. get k r.devices))

step_view :
    (r : Registry) (c : Call) (j : String) → connections (step r c) j ≡ follow (connections r) c j
unfolding step register terminate set_codex_enabled
step_view r (registers id ws user_id hello addr now) j = ground (
  arith,
  get-set id j
      (record {
        id = id;
        user_id = user_id;
        connected_at = now;
        remote_addr = addr;
        ws = ws;
        hello = hello;
      })
      r.devices,
)
step_view r (closes id ws) j = unregister_view r id ws j (get id r.devices) refl
step_view r (terminates id) j =
    ground (arith, eq_iff id j, get-remove id j r.devices, ap (λ k. get k r.devices))
step_view r (enables id enabled) j = enable_view r id enabled j (get id r.devices) refl

follow-cong :
    (c d : Connections) (x : Call)
    → ((j : String) → c j ≡ d j)
    → (j : String) → follow c x j ≡ follow d x j
follow-cong c d (registers id ws user_id hello addr now) h j = rw (h j)
follow-cong c d (closes id ws) h j = rw (h j)
follow-cong c d (terminates id) h j = rw (h j)
follow-cong c d (enables id enabled) h j = h j

follow_all-cong :
    (xs : List Call) (c d : Connections)
    → ((j : String) → c j ≡ d j)
    → (j : String) → follow_all c xs j ≡ follow_all d xs j
follow_all-cong [] c d h j = h j
follow_all-cong (x ∷ xs) c d h j =
    follow_all-cong xs (follow c x) (follow d x) (follow-cong c d x h) j

-- The registry implements the map from device ids to sockets: after any history of connections,
-- closed sockets, revocations and codex acknowledgements, a device is registered exactly if its
-- newest connection has been neither closed nor revoked, and with that connection's socket.
pub run-refines :
    (cs : List Call) (r : Registry) (j : String)
    → socket_of (get j (run r cs).devices) ≡ follow_all (λ k. socket_of (get k r.devices)) cs j
unfolding run
run-refines [] r j = refl
run-refines (c ∷ cs) r j = run-refines cs (step r c) j ∙ follow_all-cong cs _ _ (step_view r c) j

unregister_other :
    (r : Registry) {d : Device} (id : String) (old : ℕ)
    → get id r.devices ≡ some d
    → old ≢ d.ws
    → unregister r id (some old) ≡ r
unfolding unregister
unregister_other r id old e n = ground arith

-- When a daemon has reconnected on another socket, the close of its old socket changes nothing.
old_close_ignored :
    (r : Registry) (id : String) (ws old : ℕ) (user_id : String) (hello : DeviceHello)
    (addr : String) (now : ℕ)
    → old ≢ ws
    → let r' = (register r id ws user_id hello addr now).0 in unregister r' id (some old) ≡ r'
unfolding unregister register
old_close_ignored r id ws old user_id hello addr now n =
    unregister_other _ id old (get-set_self id _ r.devices) n

-- A new connection of a daemon closes the socket of the one before with code 4001, if that is
-- another socket, and closes no socket otherwise; the devices under other ids stay as they are.
pub register_lem :
    (r : Registry) (id : String) (ws : ℕ) (user_id : String) (hello : DeviceHello) (addr : String)
    (now : ℕ)
    → let r' = (register r id ws user_id hello addr now).0 in
      ((prior : Device)
        → get id r.devices ≡ some prior
        → prior.ws ≢ ws
        → r'.net ≡ close r.net prior.ws 4001)
      × ((prior : Device) → get id r.devices ≡ some prior → prior.ws ≡ ws → r'.net ≡ r.net)
      × (get id r.devices ≡ none → r'.net ≡ r.net)
      × ((j : String) → j ≢ id → get j r'.devices ≡ get j r.devices)
unfolding register
register_lem r id ws user_id hello addr now = (
  λ prior e n. rw e (ground arith),
  λ prior e n. rw e (ground arith),
  λ e. rw e,
  λ j n. ground (
    arith,
    eq_iff id j,
    get-set id j
        (record {
          id = id;
          user_id = user_id;
          connected_at = now;
          remote_addr = addr;
          ws = ws;
          hello = hello;
        })
        r.devices,
  ),
)
