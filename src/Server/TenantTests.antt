-- ===== src/Server/TenantTests.antt =====
-- server/index.ts: two users with a browser each; a daemon of one of them answers a prompt.
use agent_web_mvp.Prelude.{
  ℕ, refl, String, true, false, List, [], ◌∷◌, Option, none, some, if◌then◌else◌, ◌==◌, nat_eq,
}
use agent_web_mvp.Prelude.Tally.{tally}
use agent_web_mvp.Types.{claude, assistant, send_prompt, daemon_message}
use agent_web_mvp.Prelude.JsMap.{get}
use agent_web_mvp.Types.Schemas.Checks.{zod}
use agent_web_mvp.Types.Schemas.RoundTrip.{encode}
use agent_web_mvp.Types.Values.{Json, object, field, string, array, nil, natural, end}
use agent_web_mvp.Devices.{Registry, Device}
use agent_web_mvp.Hub.Frames.{SendsTo}
use agent_web_mvp.Agents.Remote.{Remote, remote_runner}
use agent_web_mvp.Agents.Remote.Events.{Ticket}
use agent_web_mvp.Session.State.{Env, SessionOptions, construct}
use agent_web_mvp.Server.{Server}
use agent_web_mvp.Server.Messages.{World}
use agent_web_mvp.Server.System.{
  Event, browser_opens, browser_says, daemon_says, remote_of, step, run,
}
use agent_web_mvp.Server.Holding.{IsEnv}
use agent_web_mvp.Server.Sending.{IsSafe}
use agent_web_mvp.Server.Serving.{IsWorld}
use agent_web_mvp.Server.Tenants.{tenants_isolated}
use agent_web_mvp.Connection.{Peer, opened, arrives}
use agent_web_mvp.Connection.Attached.{Turn, own, others, take, take_all}
use agent_web_mvp.Connection.Tenant.{connection_isolated}

abbrev owner : ℕ → String
owner ws = if nat_eq ws 20 then "u1" else "u2"

abbrev tenant : String → String
tenant id = if id == "d1" then "u1" else "u2"

abbrev device : Device
device = record {
  id = "d1";
  user_id = "u1";
  connected_at = 1;
  remote_addr = "10.0.0.1";
  ws = 10;
  hello = record {
    hostname = "box";
    display_name = none;
    os = "linux";
    arch = "arm64";
    version = "0.1.18";
    agents = [];
    pid = 1;
    codex_enabled = none;
  };
}

abbrev registry : Registry
registry = record {
  devices = ("d1", device) ∷ [];
  listeners = [];
  notified = [];
  net = record { is_open = λ _. true; frames = []; closes = [] };
}

abbrev env : Env Remote
env = record { runner = remote_runner registry tally; random_uuid = tally; now = 7 }

abbrev world : World Remote
world = record {
  env = env;
  trust_codex = false;
  is_valid_cwd = λ _. true;
  local = λ path. record { path = path; parent = none; entries = []; error = none };
  make_runner = remote_of;
  new_id = "s3";
  database_error = "UNIQUE constraint failed";
}

abbrev options : SessionOptions
options = record {
  id = some "s1";
  user_id = "u1";
  agent = claude;
  cwd = "/work/app";
  title = none;
  created_at = none;
  resume_token = none;
  preferred_device_id = none;
  model = none;
  history = none;
}

abbrev server : Server Remote Ticket
server = record {
  hub = record {
    registry = registry;
    browsers = [];
    pending_dir_listings = [];
    pending_codex_enables = [];
  };
  store = record {
    sessions = ("s1", construct "s1" 5 options (remote_of options)) ∷ [];
    db = record { users = "u1" ∷ []; agent_sessions = []; agent_messages = [] };
  };
  buckets = [];
  tokens = record { pairing_codes = []; device_tokens = [] };
}

env-IsEnv : IsEnv tenant env
unfolding get
env-IsEnv = record {
  registry = registry;
  uuid = tally;
  uses = refl;
  tenants = record {
    valid = record { distinct = (refl, tt); own_ids = (refl, tt) };
    devices = (refl, tt);
  };
}

world-IsWorld : IsWorld owner tenant world
world-IsWorld = record { env = env-IsEnv; makes = λ o. record { user_id = refl; device = tt } }

server-IsSafe : IsSafe owner tenant server
unfolding construct
server-IsSafe = record {
  owned = record { browsers = tt; listings = tt; enables = tt };
  held = (record { user_id = refl; runner = record { user_id = refl; device = tt } }, tt);
}

abbrev history : List Event
history =
    browser_opens "/work" 20 "u1"
    ∷ browser_opens "/work" 21 "u2"
    ∷ browser_says world 20 "u1" (send_prompt "s1" "hi")
    ∷ []

tenants_isolated_example :
    SendsTo owner "u1"
      (run history server).hub
      (step
        (daemon_says env "d1" (daemon_message "" assistant "hello" none))
        (run history server)).hub
tenants_isolated_example =
    tenants_isolated owner tenant history
      (daemon_says env "d1" (daemon_message "" assistant "hello" none)) "u1" server server-IsSafe
      (refl, (refl, ((refl, world-IsWorld), tt))) env-IsEnv refl

abbrev peer : Peer
peer = record { ws = 10; user_id = "u1"; device_token_id = "d1"; remote_addr = "10.0.0.1" }

-- The texts stand for the JSON that they would hold.
abbrev json_parse : String → Option Json
json_parse raw =
    if raw == "hello"
    then some (
        object (
          field "type" (string "hello") (
            field "hostname" (string "box") (
              field "os" (string "linux") (
                field "arch" (string "arm64") (
                  field "version" (string "0.1.18")
                    (field "agents" (array nil) (field "pid" (natural 7) end))))))))
    else if raw == "answer"
    then some (encode (daemon_message "" assistant "hello" none))
    else none

abbrev turns : List Turn
turns =
    others (browser_opens "/work" 20 "u1")
    ∷ others (browser_opens "/work" 21 "u2")
    ∷ own env (arrives 5 "hello")
    ∷ others (browser_says world 20 "u1" (send_prompt "s1" "hi"))
    ∷ []

connection_isolated_example :
    SendsTo owner "u1"
      (take_all zod json_parse peer turns (opened server.hub, server)).1.hub
      (take zod json_parse peer
        (own env (arrives 6 "answer"))
        (take_all zod json_parse peer turns (opened server.hub, server))).1.hub
connection_isolated_example =
    connection_isolated owner tenant peer refl zod json_parse turns env (arrives 6 "answer") server
      server-IsSafe (refl, (refl, ((env-IsEnv, tt), ((refl, world-IsWorld), tt)))) (env-IsEnv, tt)
