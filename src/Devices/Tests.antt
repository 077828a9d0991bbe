-- ===== src/Devices/Tests.antt =====
-- server/devices.ts: a registry with a daemon of each of two users, and one that reconnects.
use agent_web_mvp.Prelude.{◌≡◌, true, List, [], ◌∷◌, none}
use agent_web_mvp.Prelude.JsMap.{get}
use agent_web_mvp.Devices.{DeviceHello, Device, Registry}
use agent_web_mvp.Devices.Replacement.{
  Call, registers, closes, terminates, enables, run, socket_of, follow_all, run-refines,
}

abbrev hello : DeviceHello
hello = record {
  hostname = "box";
  display_name = none;
  os = "linux";
  arch = "arm64";
  version = "0.1.18";
  agents = [];
  pid = 1;
  codex_enabled = none;
}

abbrev empty : Registry
empty = record {
  devices = [];
  listeners = 0 ∷ [];
  notified = [];
  net = record { is_open = λ _. true; frames = []; closes = [] };
}

abbrev history : List Call
history =
    registers "d1" 10 "u1" hello "10.0.0.1" 1
    ∷ registers "d2" 11 "u2" hello "10.0.0.2" 2
    ∷ registers "d1" 12 "u1" hello "10.0.0.1" 3
    ∷ closes "d1" 10
    ∷ enables "d1" true
    ∷ terminates "d2"
    ∷ []

abbrev box : Device
box = record {
  id = "d1";
  user_id = "u1";
  connected_at = 1;
  remote_addr = "10.0.0.1";
  ws = 10;
  hello = hello;
}

abbrev paired : Registry
paired = record empty { devices = ("d1", box) ∷ [] }

run-refines_example :
    socket_of (get "d1" (run empty history).devices)
    ≡ follow_all (λ k. socket_of (get k empty.devices)) history "d1"
run-refines_example = run-refines history empty "d1"
