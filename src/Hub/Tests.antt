-- ===== src/Hub/Tests.antt =====
-- server/index.ts: two users, each with a browser and a daemon.
use agent_web_mvp.Prelude.{ℕ, ◌≡◌, refl, String, true, [], ◌∷◌, ◌++◌, none}
use agent_web_mvp.Prelude.JsMap.{get}
use agent_web_mvp.Devices.{DeviceHello, Device}
use agent_web_mvp.Hub.{PendingDirListing, Hub}
use agent_web_mvp.Hub.Listings.{LocalListing, sweep_dir_listings}
use agent_web_mvp.Hub.Sweeps.{unexpired, timeouts, sweep_dir_listings_lem}

abbrev hello : DeviceHello
hello = record {
  hostname = "box";
  display_name = none;
  os = "linux";
  arch = "arm64";
  version = "0.1.18";
  agents = [];
  pid = 1;
  codex_enabled = none;
}

abbrev device : (id user_id : String) → (ws : ℕ) → Device
device id user_id ws = record {
  id = id;
  user_id = user_id;
  connected_at = 1;
  remote_addr = "10.0.0.1";
  ws = ws;
  hello = hello;
}

abbrev hub : Hub
hub = record {
  registry = record {
    devices = ("d1", device "d1" "u1" 10) ∷ ("d2", device "d2" "u2" 11) ∷ [];
    listeners = [];
    notified = [];
    net = record { is_open = λ _. true; frames = []; closes = [] };
  };
  browsers = [];
  pending_dir_listings = [];
  pending_codex_enables = [];
}

abbrev local : String → LocalListing
local path = record { path = path; parent = none; entries = []; error = none }

abbrev asked : PendingDirListing
asked = record { ws = 20; user_id = "u1"; path = "/"; expires_at = 5000 }

abbrev waiting : Hub
waiting = record hub { pending_dir_listings = ("r", asked) ∷ [] }

sweep_dir_listings_lem_example :
    let hub' = sweep_dir_listings 6000 waiting in
    (get "r" hub'.pending_dir_listings ≡ unexpired 6000 (get "r" waiting.pending_dir_listings))
    × (hub'.registry.net.frames ≡ [] ++ timeouts 6000 (λ _. true) (("r", asked) ∷ []))
unfolding get
sweep_dir_listings_lem_example = sweep_dir_listings_lem 6000 "r" waiting (refl, tt)
