-- ===== src/Web/Queue.antt =====
-- web/src/ws.ts: the order of what the browser sends, and the delays between its attempts to connect.
use agent_web_mvp.Prelude.{
  ℕ, ◌≤◌, ◌≡◌, ◌⊎◌, inl, inr, refl, sym, subst, ap, ◌∙◌, true, false, List, [], ◌∷◌, ◌++◌, All,
  All-append, if◌then◌else◌, arith, append_assoc, append-nil, Bool-cases,
}
use agent_web_mvp.Types.{ClientMessage}
use agent_web_mvp.Web.Socket.{
  WsClient, connecting, send, flush, on_open, on_close, connect, Happening, sends, opens, closes,
  reconnects, step, run,
}

-- The messages that the program sends.
abbrev pub sent : List Happening → List ClientMessage
sent [] = []
sent (sends m ∷ hs) = m ∷ sent hs
sent (opens ∷ hs) = sent hs
sent (closes ∷ hs) = sent hs
sent (reconnects ∷ hs) = sent hs

abbrev pub IsDelay : ℕ → Type 0
IsDelay d = (500 ≤ d) × (d ≤ 10000)

-- `all` has been handed over or waits, in that order; nothing waits behind an open socket.
pub record IsQueued (all : List ClientMessage) (c : WsClient) : Type 0 where
  pub in_order : c.delivered ++ c.queue ≡ all
  pub waiting : (c.is_open ≡ false) ⊎ (c.queue ≡ [])
  pub delay : IsDelay c.reconnect_delay
  pub delays : All IsDelay c.timers

flush_lem :
    (ms : List ClientMessage) (c : WsClient)
    → flush ms c ≡ record c { queue = []; delivered = c.delivered ++ ms }
unfolding flush
flush_lem [] c = ap (λ d. record c { queue = []; delivered = d }) (sym (append-nil c.delivered))
flush_lem (m ∷ ms) c =
    flush_lem ms (record c { queue = ms; delivered = c.delivered ++ m ∷ [] })
    ∙ ap (λ d. record c { queue = []; delivered = d }) (append_assoc c.delivered (m ∷ []) ms)

open-IsQueued :
    (all : List ClientMessage) (c : WsClient) → IsQueued all c → IsQueued all (on_open c)
unfolding on_open
open-IsQueued all c v =
    rw (flush_lem c.queue (record c { is_open = true; reconnect_delay = 500 })) (record {
      in_order = append-nil (c.delivered ++ c.queue) ∙ v.in_order;
      waiting = inr refl;
      delay = omega arith;
      delays = v.delays;
    })

send_now :
    (m : ClientMessage) (c : WsClient)
    → c.is_open ≡ true
    → send m c ≡ record c { delivered = c.delivered ++ m ∷ [] }
unfolding send
send_now m c = ap (λ b.
    if b
    then record c { delivered = c.delivered ++ m ∷ [] }
    else record c { queue = c.queue ++ m ∷ [] })

send_later :
    (m : ClientMessage) (c : WsClient)
    → c.is_open ≡ false
    → send m c ≡ record c { queue = c.queue ++ m ∷ [] }
unfolding send
send_later m c = ap (λ b.
    if b
    then record c { delivered = c.delivered ++ m ∷ [] }
    else record c { queue = c.queue ++ m ∷ [] })

-- What is handed over at once goes behind all that was sent, since nothing waits.
now_in_order :
    (m : ClientMessage) (all : List ClientMessage) (c : WsClient)
    → c.is_open ≡ true
    → IsQueued all c
    → (c.queue ≡ []) × ((c.delivered ++ m ∷ []) ++ c.queue ≡ all ++ m ∷ [])
now_in_order m all c e v = elim v.waiting [
  | inl f ↦ cc (e, f)
  | inr q ↦ (
    q,
    ap (λ w. (c.delivered ++ m ∷ []) ++ w) q
        ∙ append-nil (c.delivered ++ m ∷ [])
        ∙ ap (λ w. w ++ m ∷ [])
            (sym (append-nil c.delivered) ∙ ap (λ w. c.delivered ++ w) (sym q) ∙ v.in_order),
  )
]

send-IsQueued :
    (m : ClientMessage) (all : List ClientMessage) (c : WsClient)
    → IsQueued all c
    → IsQueued (all ++ m ∷ []) (send m c)
send-IsQueued m all c v = elim (Bool-cases c.is_open) [
  | inl e ↦
      let (q, o) = now_in_order m all c e v in
      subst (IsQueued (all ++ m ∷ [])) (sym (send_now m c e))
        (record { in_order = o; waiting = inr q; delay = v.delay; delays = v.delays })
  | inr e ↦ subst (IsQueued (all ++ m ∷ [])) (sym (send_later m c e)) (record {
    in_order = sym (append_assoc c.delivered c.queue (m ∷ [])) ∙ ap (λ w. w ++ m ∷ []) v.in_order;
    waiting = inl e;
    delay = v.delay;
    delays = v.delays;
  })
]

close-IsQueued :
    (all : List ClientMessage) (c : WsClient) → IsQueued all c → IsQueued all (on_close c)
unfolding on_close
close-IsQueued all c v = record {
  in_order = v.in_order;
  waiting = inl refl;
  delay = ground arith;
  delays = All-append IsDelay c.timers _ v.delays (v.delay, tt);
}

connect-IsQueued :
    (all : List ClientMessage) (c : WsClient) → IsQueued all c → IsQueued all (connect c)
unfolding connect
connect-IsQueued all c v = record {
  in_order = v.in_order;
  waiting = inl refl;
  delay = v.delay;
  delays = v.delays;
}

keeps :
    (hs : List Happening) (all : List ClientMessage) (c : WsClient)
    → IsQueued all c
    → IsQueued (all ++ sent hs) (run hs c)
unfolding run step
keeps [] all c v = subst (λ a. IsQueued a c) (sym (append-nil all)) v
keeps (sends m ∷ hs) all c v =
    subst (λ a. IsQueued a (run hs (send m c))) (append_assoc all (m ∷ []) (sent hs))
      (keeps hs (all ++ m ∷ []) (send m c) (send-IsQueued m all c v))
keeps (opens ∷ hs) all c v = keeps hs all (on_open c) (open-IsQueued all c v)
keeps (closes ∷ hs) all c v = keeps hs all (on_close c) (close-IsQueued all c v)
keeps (reconnects ∷ hs) all c v = keeps hs all (connect c) (connect-IsQueued all c v)

-- However the sockets of a client open, close and are opened again: the messages that the program sends
-- are handed to an open socket in the order in which they were sent, and the others wait in that
-- order behind them; nothing waits while a socket is open; and each delay before a new attempt lies
-- between half a second and ten seconds.
pub run-IsQueued : (hs : List Happening) → IsQueued (sent hs) (run hs connecting)
run-IsQueued hs =
    keeps hs [] connecting
      (record { in_order = refl; waiting = inl refl; delay = omega arith; delays = tt })
