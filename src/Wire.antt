-- ===== src/Wire.antt =====
-- The WebSockets of the `ws` package as the server uses them: an identity, whether `readyState` is
-- OPEN, the frames that were handed to `send` and the codes that were handed to `close`.
use agent_web_mvp.Prelude.{ℕ, Bool, false, List, [], ◌∷◌, ◌++◌, nat_eq, if◌then◌else◌}
use agent_web_mvp.Types.{ServerMessage, DaemonServerMessage}

pub data Frame : Type 0 where
  to_browser : ServerMessage → Frame
  to_daemon : DaemonServerMessage → Frame

pub record Sockets : Type 0 where
  pub is_open : ℕ → Bool
  pub frames : List (ℕ × Frame)
  pub closes : List (ℕ × ℕ)

-- `send` of server/index.ts: a frame for a socket that is not open is dropped.
unfoldable pub send : Sockets → ℕ → Frame → Sockets
send net ws frame =
    if net.is_open ws then record net { frames = net.frames ++ (ws, frame) ∷ [] } else net

-- `ws.close(code)`: the socket leaves the OPEN state.
unfoldable pub close : Sockets → ℕ → ℕ → Sockets
close net ws code = record net {
  is_open = λ i. if nat_eq i ws then false else net.is_open i;
  closes = net.closes ++ (ws, code) ∷ [];
}
