-- ===== src/Hub.antt =====
-- server/index.ts: the browsers that are connected, and what the server forwards between them and the
-- daemons. A socket is that of a browser or of a daemon; all stand in `registry.net`.
pub mod Listings
pub mod Codex
pub mod Events
pub mod Owned
pub mod Forwarding
pub mod Frames
pub mod Replies
pub mod Isolation
pub mod Subscribed
pub mod Sweeps
pub mod Collisions
pub mod Tests
use agent_web_mvp.Prelude.{
  ℕ, String, Bool, true, false, not, List, [], ◌∷◌, ◌++◌, map, Option, none, some, nat_eq,
  if◌then◌else◌, keep, any, or_else,
}
use agent_web_mvp.Prelude.JsMap.{JsMap, get, set, remove}
use agent_web_mvp.Types.{DeviceInfo, ServerMessage, devices}
use agent_web_mvp.Wire.{to_browser, send}
use agent_web_mvp.Devices.{Device, Registry, list_for_user}

pub record PendingDirListing : Type 0 where
  pub ws : ℕ
  pub user_id : String
  pub path : String
  pub expires_at : ℕ

pub record PendingCodexEnable : Type 0 where
  pub ws : ℕ
  pub user_id : String
  pub device_id : String
  pub expires_at : ℕ

pub record Hub : Type 0 where
  pub registry : Registry
  pub browsers : JsMap (List ℕ)
  pub pending_dir_listings : JsMap PendingDirListing
  pub pending_codex_enables : JsMap PendingCodexEnable

-- `send(ws, msg)`.
unfoldable pub tell : ℕ → ServerMessage → Hub → Hub
tell ws msg hub = record hub {
  registry = record hub.registry { net = send hub.registry.net ws (to_browser msg) };
}

unfoldable pub add_to : ℕ → List ℕ → List ℕ
add_to ws sockets = if any (nat_eq ws) sockets then sockets else sockets ++ ws ∷ []

unfoldable pub add_browser : String → ℕ → Hub → Hub
unfolding add_to
add_browser user_id ws hub = record hub {
  browsers = set user_id (add_to ws (or_else (get user_id hub.browsers) [])) hub.browsers;
}

-- A set that becomes empty is taken out of the map.
unfoldable pub without : String → List ℕ → JsMap (List ℕ) → JsMap (List ℕ)
without user_id [] browsers = remove user_id browsers
without user_id (ws ∷ rest) browsers = set user_id (ws ∷ rest) browsers

unfoldable pub remove_browser : String → ℕ → Hub → Hub
unfolding without
remove_browser user_id ws hub = elim (get user_id hub.browsers) [
  | none ↦ hub
  | some sockets ↦ record hub {
    browsers = without user_id (keep (λ i. not (nat_eq i ws)) sockets) hub.browsers;
  }
]

unfoldable pub tell_all : List ℕ → ServerMessage → Hub → Hub
tell_all [] msg hub = hub
tell_all (ws ∷ sockets) msg hub = tell_all sockets msg (tell ws msg hub)

unfoldable pub broadcast_to_user : String → ServerMessage → Hub → Hub
broadcast_to_user user_id msg hub = tell_all (or_else (get user_id hub.browsers) []) msg hub

unfoldable pub info_of : Device → DeviceInfo
info_of d = record {
  id = d.id;
  hostname = d.hostname;
  display_name = d.display_name;
  os = d.os;
  arch = d.arch;
  version = d.version;
  agents = d.agents;
  connected_at = d.connected_at;
  codex_enabled = or_else d.codex_enabled false;
}

unfoldable pub device_info : String → Hub → List DeviceInfo
unfolding info_of
device_info user_id hub = map info_of (list_for_user hub.registry user_id)

unfoldable pub broadcast_devices : String → Hub → Hub
broadcast_devices user_id hub = broadcast_to_user user_id (devices (device_info user_id hub)) hub
