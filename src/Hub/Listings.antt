-- ===== src/Hub/Listings.antt =====
-- server/index.ts: a browser's list_dir, the daemon's daemon_dir_listing, and the sweep of the
-- requests that no daemon has answered. listLocalDir reads the file system of the server: what it
-- finds is a parameter.
use agent_web_mvp.Prelude.{
  ℕ, ◌+◌, String, Bool, true, false, List, [], ◌∷◌, Option, none, some, ltb, truthy, if◌then◌else◌,
  ◌==◌, is_some,
}
use agent_web_mvp.Prelude.JsMap.{JsMap, get, set, remove}
use agent_web_mvp.Types.{DirEntry, ServerMessage, dir_listing, daemon_list_dir}
use agent_web_mvp.Devices.{Device, Registry, get_device, pick_runner, send_to_device}
use agent_web_mvp.Hub.{PendingDirListing, Hub, tell}

abbrev pub dir_listing_ttl_ms : ℕ
dir_listing_ttl_ms = 5000

pub record LocalListing : Type 0 where
  pub path : String
  pub parent : Option String
  pub entries : List DirEntry
  pub error : Option String

-- A listing that is nothing but an error.
abbrev pub failed : (request_id path error : String) → ServerMessage
failed request_id path error = dir_listing request_id path none [] (some error)

abbrev pub after_forward : ℕ → String → String → Hub → Registry × Bool → Hub
after_forward ws request_id path hub (registry, true) = record hub { registry = registry }
after_forward ws request_id path hub (registry, false) =
    tell ws (failed request_id path "Daemon disconnected.")
      (record hub { pending_dir_listings = remove request_id hub.pending_dir_listings })

abbrev pub expect_listing : (now ws : ℕ) → (user_id request_id path : String) → Hub → Hub
expect_listing now ws user_id request_id path hub = record hub {
  pending_dir_listings =
      set request_id
        (record { ws = ws; user_id = user_id; path = path; expires_at = now + dir_listing_ttl_ms })
        hub.pending_dir_listings;
}

unfoldable pub forward : (now ws : ℕ) → (user_id request_id path : String) → Device → Hub → Hub
forward now ws user_id request_id path target hub =
    after_forward ws request_id path (expect_listing now ws user_id request_id path hub)
      (send_to_device hub.registry target.id (daemon_list_dir request_id path))

-- `explicit` is whether the browser has named a device.
unfoldable pub route_dir :
    (String → LocalListing)
    → (now ws : ℕ) → (user_id request_id path : String) → (explicit : Bool)
    → (target : Option Device) → Hub
    → Hub
unfolding forward
route_dir local now ws user_id request_id path true none hub =
    tell ws (failed request_id path "Unknown device.") hub
route_dir local now ws user_id request_id path true (some d) hub =
    if d.user_id == user_id
    then forward now ws user_id request_id path d hub
    else tell ws (failed request_id path "Unknown device.") hub
route_dir local now ws user_id request_id path false (some d) hub =
    forward now ws user_id request_id path d hub
route_dir local now ws user_id request_id path false none hub =
    if user_id == "anon"
    then (let l = local path in
        tell ws (dir_listing request_id l.path l.parent l.entries l.error) hub)
    else tell ws (failed request_id path "No daemon connected. Pair a device first.") hub

abbrev pub target_of : Registry → String → Option String → Option Device
target_of registry user_id none = pick_runner registry user_id
target_of registry user_id (some id) = get_device registry id

unfoldable pub list_dir :
    (String → LocalListing)
    → (now ws : ℕ) → (user_id request_id : String) → (device_id : Option String) → (path : String)
    → Hub
    → Hub
unfolding route_dir
list_dir local now ws user_id request_id device_id path hub =
    route_dir local now ws user_id request_id path (is_some (truthy device_id))
      (target_of hub.registry user_id (truthy device_id)) hub

unfoldable pub resolve_listing :
    (user_id request_id path : String)
    → (parent : Option String) → List DirEntry
    → (error : Option String) → Option PendingDirListing
    → Hub
    → Hub
resolve_listing user_id request_id path parent entries error none hub = hub
resolve_listing user_id request_id path parent entries error (some pending) hub =
    if pending.user_id == user_id
    then tell pending.ws (dir_listing request_id path parent entries error)
        (record hub { pending_dir_listings = remove request_id hub.pending_dir_listings })
    else hub

-- daemon_dir_listing, from a daemon of `user_id`.
unfoldable pub listing_arrives :
    (user_id request_id path : String)
    → (parent : Option String) → List DirEntry
    → (error : Option String) → Hub
    → Hub
unfolding resolve_listing
listing_arrives user_id request_id path parent entries error hub =
    resolve_listing user_id request_id path parent entries error
      (get request_id hub.pending_dir_listings) hub

-- The loop over the entries of the map, which the map loses as it goes on.
unfoldable pub sweep_entries : (now : ℕ) → JsMap PendingDirListing → Hub → Hub
sweep_entries now [] hub = hub
sweep_entries now ((id, p) ∷ entries) hub =
    let expired =
      tell p.ws
        (failed id p.path "Daemon did not respond. Upgrade vvibe (`vvibe upgrade`) and retry.")
        (record hub { pending_dir_listings = remove id hub.pending_dir_listings }) in
    sweep_entries now entries (if ltb p.expires_at now then expired else hub)

unfoldable pub sweep_dir_listings : (now : ℕ) → Hub → Hub
unfolding sweep_entries
sweep_dir_listings now hub = sweep_entries now hub.pending_dir_listings hub
