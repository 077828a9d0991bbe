-- ===== src/Connection.antt =====
-- server/index.ts: the connection of one daemon on /client, from its socket's opening: the frames that
-- arrive, the ten seconds that it has for its hello, and its close. JSON.parse is a parameter, and
-- what the registry's message handlers are called with is kept in `dispatched`.
pub mod Isolation
pub mod Named
pub mod Attached
pub mod Tenant
pub mod Handshake
pub mod Spoofing
pub mod Tests
use agent_web_mvp.Prelude.{
  ℕ, String, Bool, true, false, List, [], ◌∷◌, ◌++◌, Option, none, some, if◌then◌else◌,
}
use agent_web_mvp.Types.Values.{Json}
use agent_web_mvp.Types.{
  DaemonClientMessage, daemon_message, daemon_permission_request, daemon_done, daemon_dir_listing,
  daemon_codex_enable_ack,
}
use agent_web_mvp.Types.Schemas.{Zod, daemon_client_message_schema, device_hello_message_schema}
use agent_web_mvp.Wire.{close}
use agent_web_mvp.Devices.{DeviceHello, register}
use agent_web_mvp.Hub.{Hub}
use agent_web_mvp.Hub.Listings.{listing_arrives}
use agent_web_mvp.Hub.Codex.{codex_ack}
use agent_web_mvp.Hub.Events.{Event, hello_arrives, daemon_gone}
use agent_web_mvp.Hub.Events

-- What the upgrade has put on the socket.
pub record Peer : Type 0 where
  pub ws : ℕ
  pub user_id : String
  pub device_token_id : String
  pub remote_addr : String

pub record Connection : Type 0 where
  pub device_id : Option String
  pub hello_received : Bool
  -- The timer is neither cleared nor done.
  pub hello_timer : Bool
  pub hub : Hub
  pub dispatched : List (String × DaemonClientMessage)

abbrev pub opened : Hub → Connection
opened hub = record {
  device_id = none;
  hello_received = false;
  hello_timer = true;
  hub = hub;
  dispatched = [];
}

-- A valid message after the hello.
unfoldable pub route : Peer → String → DaemonClientMessage → Connection → Connection
route peer device_id (daemon_dir_listing request_id path parent entries error) c = record c {
  hub = listing_arrives peer.user_id request_id path parent entries error c.hub;
}
route peer device_id (daemon_codex_enable_ack request_id success error) c = record c {
  hub = codex_ack peer.user_id request_id success error c.hub;
}
route peer device_id (daemon_message run_id role text meta) c = record c {
  dispatched = c.dispatched ++ (device_id, daemon_message run_id role text meta) ∷ [];
}
route peer device_id (daemon_permission_request run_id request_id tool_name input) c = record c {
  dispatched =
      c.dispatched ++ (device_id, daemon_permission_request run_id request_id tool_name input) ∷ [];
}
route peer device_id (daemon_done run_id resume_token error) c = record c {
  dispatched = c.dispatched ++ (device_id, daemon_done run_id resume_token error) ∷ [];
}

unfoldable pub greet : Peer → (now : ℕ) → Option DeviceHello → Connection → Connection
greet peer now none c = c
greet peer now (some hello) c = record c {
  hello_received = true;
  hello_timer = false;
  device_id =
      some
        (register c.hub.registry peer.device_token_id peer.ws peer.user_id hello peer.remote_addr
          now).1.id;
  hub = hello_arrives peer.device_token_id peer.ws peer.user_id hello peer.remote_addr now c.hub;
}

unfoldable pub heed : Peer → Option String → Option DaemonClientMessage → Connection → Connection
unfolding route
heed peer device_id none c = c
heed peer none (some msg) c = c
heed peer (some device_id) (some msg) c = route peer device_id msg c

module _ (z : Zod) (json_parse : String → Option Json) (peer : Peer) where
  unfoldable pub on_json : (now : ℕ) → Json → Connection → Connection
  unfolding greet heed
  on_json now j c =
      if c.hello_received
      then heed peer c.device_id (daemon_client_message_schema z j) c
      else greet peer now (device_hello_message_schema z j) c

  unfoldable pub on_parsed : (now : ℕ) → Option Json → Connection → Connection
  unfolding on_json
  on_parsed now none c = c
  on_parsed now (some j) c = on_json now j c

  unfoldable pub on_message : (now : ℕ) (raw : String) → Connection → Connection
  unfolding on_parsed
  on_message now raw c = on_parsed now (json_parse raw) c

-- The callback of setTimeout, which runs only if the timer has not been cleared.
unfoldable pub on_hello_timeout : Peer → Connection → Connection
on_hello_timeout peer c =
    let registry = record c.hub.registry { net = close c.hub.registry.net peer.ws 4000 } in
    let closed = record c { hello_timer = false; hub = record c.hub { registry = registry } } in
    if c.hello_timer
    then (if c.hello_received then record c { hello_timer = false } else closed)
    else c

unfoldable pub on_close : Peer → Connection → Connection
on_close peer c = elim c.device_id [
  | none ↦ record c { hello_timer = false }
  | some id ↦ record c { hello_timer = false; hub = daemon_gone id peer.user_id peer.ws c.hub }
]

-- What happens while the connection is there; `elsewhere` is the rest of the server.
pub data Happening : Type 0 where
  arrives : (now : ℕ) (raw : String) → Happening
  times_out : Happening
  closes : Happening
  elsewhere : Event → Happening

module _ (z : Zod) (json_parse : String → Option Json) (peer : Peer) where
  unfoldable pub step : Happening → Connection → Connection
  unfolding on_message on_hello_timeout on_close
  step (arrives now raw) c = on_message z json_parse peer now raw c
  step times_out c = on_hello_timeout peer c
  step closes c = on_close peer c
  step (elsewhere e) c = record c { hub = Events.step e c.hub }

  unfoldable pub run : List Happening → Connection → Connection
  unfolding step
  run [] c = c
  run (h ∷ hs) c = run hs (step h c)
