-- ===== src/Hub/Events.antt =====
-- server/index.ts: what happens to the forwarding part of the server, one step of the event loop at a
-- time: sockets that open and close, requests for listings and for codex with their answers, the
-- revocation of a device, and the two timers. The frames with which a new browser is greeted are in
-- Server.Opening; sessions and their messages are in Server.System.
use agent_web_mvp.Prelude.{ℕ, String, Bool, List, Option, some, nat_eq, if◌then◌else◌, ◌==◌}
use agent_web_mvp.Types.{DirEntry}
use agent_web_mvp.Devices.{DeviceHello, register, unregister, terminate}
use agent_web_mvp.Db.{Db, delete_device_token_for_user}
use agent_web_mvp.Hub.{Hub, add_browser, remove_browser, broadcast_devices}
use agent_web_mvp.Hub.Listings.{LocalListing, list_dir, listing_arrives, sweep_dir_listings}
use agent_web_mvp.Hub.Codex.{enable_codex_on_device, codex_ack, sweep_codex_enables}

pub data Event : Type 0 where
  browser_opens : (user_id : String) (ws : ℕ) → Event
  browser_closes : (user_id : String) (ws : ℕ) → Event
  asks_dir :
      (local : String → LocalListing) (now ws : ℕ) (user_id request_id : String)
      (device_id : Option String) (path : String)
      → Event
  asks_codex : (now ws : ℕ) (user_id device_id mode request_id : String) → Event
  daemon_hello :
      (id : String) (ws : ℕ) (user_id : String) → DeviceHello → (addr : String) (now : ℕ) → Event
  daemon_closes : (id user_id : String) (ws : ℕ) → Event
  daemon_lists :
      (user_id request_id path : String) (parent : Option String) (entries : List DirEntry)
      (error : Option String)
      → Event
  daemon_acks : (user_id request_id : String) (success : Bool) (error : Option String) → Event
  revokes : (user_id id : String) → Db → Event
  sweeps_dirs : (now : ℕ) → Event
  sweeps_codex : (now : ℕ) → Event

-- A valid first frame of a daemon.
unfoldable pub hello_arrives : String → ℕ → String → DeviceHello → String → (now : ℕ) → Hub → Hub
hello_arrives id ws user_id hello addr now hub =
    broadcast_devices user_id
      (record hub { registry = (register hub.registry id ws user_id hello addr now).0 })

-- The close of a daemon's socket after its hello.
unfoldable pub daemon_gone : String → String → ℕ → Hub → Hub
daemon_gone id user_id ws hub =
    broadcast_devices user_id (record hub { registry = unregister hub.registry id (some ws) })

-- DELETE /api/device/:id, with what it answers.
unfoldable pub revoke_device : (user_id id : String) → Db → Hub → Db × Hub × ℕ
revoke_device user_id id db hub =
    if id == ""
    then (db, hub, 400)
    else (let (db', changed) = delete_device_token_for_user id user_id db in
        if nat_eq changed 0 then (db', hub, 404) else (
          db',
          broadcast_devices user_id (record hub { registry = (terminate hub.registry id).0 }),
          204,
        ))

unfoldable pub step : Event → Hub → Hub
step (browser_opens user_id ws) hub = add_browser user_id ws hub
step (browser_closes user_id ws) hub = remove_browser user_id ws hub
step (asks_dir local now ws user_id request_id device_id path) hub =
    list_dir local now ws user_id request_id device_id path hub
step (asks_codex now ws user_id device_id mode request_id) hub =
    enable_codex_on_device now ws user_id device_id mode request_id hub
step (daemon_hello id ws user_id hello addr now) hub =
    hello_arrives id ws user_id hello addr now hub
step (daemon_closes id user_id ws) hub = daemon_gone id user_id ws hub
step (daemon_lists user_id request_id path parent entries error) hub =
    listing_arrives user_id request_id path parent entries error hub
step (daemon_acks user_id request_id success error) hub =
    codex_ack user_id request_id success error hub
step (revokes user_id id db) hub = (revoke_device user_id id db hub).1
step (sweeps_dirs now) hub = sweep_dir_listings now hub
step (sweeps_codex now) hub = sweep_codex_enables now hub
