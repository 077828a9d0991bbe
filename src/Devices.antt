-- ===== src/Devices.antt =====
-- server/devices.ts: the registry of connected daemons. The callbacks that onChange registers are
-- numbered, and what they were called with is kept in `notified`.
pub mod Laws
pub mod Replacement
pub mod Invariant
pub mod Tests
use agent_web_mvp.Prelude.{
  ℕ, String, Bool, true, false, not, ◌&&◌, List, [], ◌∷◌, ◌++◌, map, Option, none, some, nat_eq,
  if◌then◌else◌, ◌==◌, keep, any, head?,
}
use agent_web_mvp.Prelude.JsMap.{JsMap, get, set, remove, values}
use agent_web_mvp.Types.{AgentPath, DaemonServerMessage}
use agent_web_mvp.Wire.{Sockets, to_daemon, send, close}

pub record DeviceHello : Type 0 where
  pub hostname : String
  pub display_name : Option String
  pub os : String
  pub arch : String
  pub version : String
  pub agents : List AgentPath
  pub pid : ℕ
  pub codex_enabled : Option Bool

pub record Device : Type 0 where
  pub id : String
  pub user_id : String
  pub connected_at : ℕ
  pub remote_addr : String
  pub ws : ℕ
  pub hello : DeviceHello
  pub open hello use *

pub record Registry : Type 0 where
  pub devices : JsMap Device
  pub listeners : List ℕ
  pub notified : List (ℕ × List Device)
  pub net : Sockets

unfoldable pub list : Registry → List Device
list r = values r.devices

unfoldable pub list_for_user : Registry → String → List Device
unfolding list
list_for_user r user_id = keep (λ d. d.user_id == user_id) (list r)

unfoldable pub get_device : Registry → String → Option Device
get_device r id = get id r.devices

unfoldable pub pick_runner : Registry → String → Option Device
unfolding list_for_user
pick_runner r user_id = head? (list_for_user r user_id)

-- Every callback is called with the same list.
unfoldable pub notify : Registry → Registry
unfolding list
notify r = record r { notified = r.notified ++ map (λ l. (l, list r)) r.listeners }

-- The connection that was there is closed with 4001, unless it is the same socket.
unfoldable pub evict : Option Device → ℕ → Sockets → Sockets
evict none ws net = net
evict (some prior) ws net = if nat_eq prior.ws ws then net else close net prior.ws 4001

unfoldable pub register :
    Registry → String → ℕ → String → DeviceHello → String → (now : ℕ) → Registry × Device
unfolding evict notify
register r id ws user_id hello remote_addr now =
    let device : Device = record {
      id = id;
      user_id = user_id;
      connected_at = now;
      remote_addr = remote_addr;
      ws = ws;
      hello = hello;
    } in
    (
      notify
          (record r { devices = set id device r.devices; net = evict (get id r.devices) ws r.net }),
      device,
    )

unfoldable pub terminate : Registry → String → Registry × Bool
unfolding notify
terminate r id = elim (get id r.devices) [
  | none ↦ (r, false)
  | some d ↦
      (notify (record r { devices = remove id r.devices; net = close r.net d.ws 4002 }), true)
]

-- `ws` is given by a close handler: it drops no other connection.
unfoldable pub is_other : Option ℕ → Device → Bool
is_other none cur = false
is_other (some ws) cur = not (nat_eq cur.ws ws)

unfoldable pub unregister : Registry → String → Option ℕ → Registry
unfolding notify is_other
unregister r id ws = elim (get id r.devices) [
  | none ↦ r
  | some cur ↦ if is_other ws cur then r else notify (record r { devices = remove id r.devices })
]

-- onChange and the function that it returns.
unfoldable pub on_change : Registry → ℕ → Registry
on_change r fn =
    if any (nat_eq fn) r.listeners then r else record r { listeners = r.listeners ++ fn ∷ [] }

unfoldable pub off_change : Registry → ℕ → Registry
off_change r fn = record r { listeners = keep (λ l. not (nat_eq l fn)) r.listeners }

unfoldable pub send_to_device : Registry → String → DaemonServerMessage → Registry × Bool
unfolding send
send_to_device r id msg = elim (get id r.devices) [
  | none ↦ (r, false)
  | some d ↦
      if r.net.is_open d.ws
      then (record r { net = send r.net d.ws (to_daemon msg) }, true)
      else (r, false)
]

unfoldable pub same_flag : Option Bool → Bool → Bool
same_flag none b = false
same_flag (some true) b = b
same_flag (some false) b = not b

abbrev pub with_codex : Bool → Device → Device
with_codex enabled d = record d { hello = record d.hello { codex_enabled = some enabled } }

-- The object in the map is changed in place.
unfoldable pub set_codex_enabled : Registry → String → Bool → Registry × Bool
unfolding notify same_flag
set_codex_enabled r id enabled = elim (get id r.devices) [
  | none ↦ (r, false)
  | some d ↦
      if same_flag d.codex_enabled enabled
      then (r, true)
      else (notify (record r { devices = set id (with_codex enabled d) r.devices }), true)
]
