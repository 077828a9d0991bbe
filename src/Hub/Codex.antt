-- ===== src/Hub/Codex.antt =====
-- server/index.ts: a browser's enable_codex_on_device, the daemon's daemon_codex_enable_ack, and the
-- sweep of the requests that no daemon has answered.
use agent_web_mvp.Prelude.{
  ℕ, ◌+◌, String, Bool, true, false, ◌∷◌, [], Option, none, some, ltb, if◌then◌else◌, ◌==◌, ◌<>◌,
}
use agent_web_mvp.Prelude.JsMap.{JsMap, get, set, remove}
use agent_web_mvp.Types.{ServerMessage, codex_enable_result, daemon_enable_codex}
use agent_web_mvp.Devices.{Device, Registry, get_device, send_to_device, set_codex_enabled}
use agent_web_mvp.Hub.{PendingCodexEnable, Hub, tell, broadcast_devices}

abbrev pub codex_enable_ttl_ms : ℕ
codex_enable_ttl_ms = 5000

-- sandboxArgsByMode. A name that every JavaScript object has (`constructor`, `toString`) is left out:
-- it would give a function here.
abbrev pub sandbox_args : String → Option String
sandbox_args mode =
    if mode == "read-only"
    then some "--sandbox read-only"
    else if mode == "workspace-write"
    then some "--sandbox workspace-write"
    else if mode == "danger-full-access"
    then some "--sandbox danger-full-access"
    else none

abbrev pub refused : (device_id error : String) → ServerMessage
refused device_id error = codex_enable_result device_id false (some error)

abbrev pub after_request : ℕ → (device_id request_id : String) → Hub → Registry × Bool → Hub
after_request ws device_id request_id hub (registry, true) = record hub { registry = registry }
after_request ws device_id request_id hub (registry, false) =
    tell ws (refused device_id "Daemon disconnected. Reconnect the device and retry.")
      (record hub { pending_codex_enables = remove request_id hub.pending_codex_enables })

abbrev pub expect_codex : (now ws : ℕ) → (user_id device_id request_id : String) → Hub → Hub
expect_codex now ws user_id device_id request_id hub = record hub {
  pending_codex_enables =
      set request_id
        (record {
          ws = ws;
          user_id = user_id;
          device_id = device_id;
          expires_at = now + codex_enable_ttl_ms;
        })
        hub.pending_codex_enables;
}

unfoldable pub request_codex :
    (now ws : ℕ) → (user_id device_id request_id args : String) → Device → Hub → Hub
request_codex now ws user_id device_id request_id args target hub =
    after_request ws device_id request_id (expect_codex now ws user_id device_id request_id hub)
      (send_to_device hub.registry target.id (daemon_enable_codex request_id args))

unfoldable pub enable_with :
    (now ws : ℕ) → (user_id device_id mode request_id : String) → Device → Option String → Hub → Hub
unfolding request_codex
enable_with now ws user_id device_id mode request_id target none hub =
    tell ws (refused device_id ("Invalid sandbox mode: " <> mode)) hub
enable_with now ws user_id device_id mode request_id target (some args) hub =
    request_codex now ws user_id device_id request_id args target hub

unfoldable pub enable_on :
    (now ws : ℕ) → (user_id device_id mode request_id : String) → Option Device → Hub → Hub
unfolding enable_with
enable_on now ws user_id device_id mode request_id none hub =
    tell ws (refused device_id "Unknown device.") hub
enable_on now ws user_id device_id mode request_id (some target) hub =
    if target.user_id == user_id
    then enable_with now ws user_id device_id mode request_id target (sandbox_args mode) hub
    else tell ws (refused device_id "Unknown device.") hub

-- `request_id` is the randomUUID that is drawn.
unfoldable pub enable_codex_on_device :
    (now ws : ℕ) → (user_id device_id mode request_id : String) → Hub → Hub
unfolding enable_on
enable_codex_on_device now ws user_id device_id mode request_id hub =
    enable_on now ws user_id device_id mode request_id (get_device hub.registry device_id) hub

unfoldable pub enabled_on : (device_id user_id : String) → Hub → Hub
enabled_on device_id user_id hub =
    broadcast_devices user_id
      (record hub { registry = (set_codex_enabled hub.registry device_id true).0 })

unfoldable pub resolve_ack :
    (user_id request_id : String)
    → (success : Bool) → (error : Option String) → Option PendingCodexEnable
    → Hub
    → Hub
unfolding enabled_on
resolve_ack user_id request_id success error none hub = hub
resolve_ack user_id request_id success error (some pending) hub =
    if pending.user_id == user_id
    then (let taken = record hub {
      pending_codex_enables = remove request_id hub.pending_codex_enables;
    } in
        tell pending.ws (codex_enable_result pending.device_id success error)
          (if success then enabled_on pending.device_id user_id taken else taken))
    else hub

-- daemon_codex_enable_ack, from a daemon of `user_id`.
unfoldable pub codex_ack :
    (user_id request_id : String) → (success : Bool) → (error : Option String) → Hub → Hub
unfolding resolve_ack
codex_ack user_id request_id success error hub =
    resolve_ack user_id request_id success error (get request_id hub.pending_codex_enables) hub

unfoldable pub sweep_enables : (now : ℕ) → JsMap PendingCodexEnable → Hub → Hub
sweep_enables now [] hub = hub
sweep_enables now ((id, p) ∷ entries) hub =
    let expired =
      tell p.ws
        (refused p.device_id
          "Daemon did not respond. The device may be running an older vvibe — run `vvibe upgrade` on it (or use `vvibe codex enable` directly) and retry.")
        (record hub { pending_codex_enables = remove id hub.pending_codex_enables }) in
    sweep_enables now entries (if ltb p.expires_at now then expired else hub)

unfoldable pub sweep_codex_enables : (now : ℕ) → Hub → Hub
unfolding sweep_enables
sweep_codex_enables now hub = sweep_enables now hub.pending_codex_enables hub
