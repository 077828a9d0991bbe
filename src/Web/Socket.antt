-- ===== src/Web/Socket.antt =====
-- web/src/ws.ts: class WSClient. `delivered` is what was handed to `send` of an open socket, and `timers`
-- the delays that setTimeout was called with.
use agent_web_mvp.Prelude.{ℕ, ◌*◌, min, Bool, true, false, List, [], ◌∷◌, ◌++◌, if◌then◌else◌}
use agent_web_mvp.Types.{ClientMessage}

pub record WsClient : Type 0 where
  pub is_open : Bool
  pub queue : List ClientMessage
  pub reconnect_delay : ℕ
  pub delivered : List ClientMessage
  pub timers : List ℕ

-- The constructor calls `connect`.
abbrev pub connecting : WsClient
connecting = record {
  is_open = false;
  queue = [];
  reconnect_delay = 500;
  delivered = [];
  timers = [];
}

unfoldable pub send : ClientMessage → WsClient → WsClient
send msg c =
    if c.is_open
    then record c { delivered = c.delivered ++ msg ∷ [] }
    else record c { queue = c.queue ++ msg ∷ [] }

-- The loop that shifts the queue.
unfoldable pub flush : List ClientMessage → WsClient → WsClient
flush [] c = record c { queue = [] }
flush (m ∷ ms) c = flush ms (record c { queue = ms; delivered = c.delivered ++ m ∷ [] })

unfoldable pub on_open : WsClient → WsClient
unfolding flush
on_open c = flush c.queue (record c { is_open = true; reconnect_delay = 500 })

unfoldable pub on_close : WsClient → WsClient
on_close c = record c {
  is_open = false;
  timers = c.timers ++ c.reconnect_delay ∷ [];
  reconnect_delay = min (c.reconnect_delay * 2) 10000;
}

-- The timer: a new socket, which is not open yet.
unfoldable pub connect : WsClient → WsClient
connect c = record c { is_open = false }

pub data Happening : Type 0 where
  sends : ClientMessage → Happening
  opens : Happening
  closes : Happening
  reconnects : Happening

unfoldable pub step : Happening → WsClient → WsClient
unfolding send on_open on_close connect
step (sends m) c = send m c
step opens c = on_open c
step closes c = on_close c
step reconnects c = connect c

unfoldable pub run : List Happening → WsClient → WsClient
unfolding step
run [] c = c
run (h ∷ hs) c = run hs (step h c)
