-- ===== src/Connection/Handshake.antt =====
-- server/index.ts: the hello of a daemon, and what is let through before and after it.
use agent_web_mvp.Prelude.{
  ℕ, ◌≡◌, refl, sym, subst, ◌∙◌, ap, ◌⊎◌, String, true, false, List, [], ◌∷◌, ◌++◌, Option, none,
  some, All, All-append, Bool-cases, inl, inr, if◌then◌else◌, arith, map, ◌>>=◌,
}
use agent_web_mvp.Types.Values.{Json}
use agent_web_mvp.Types.{
  DaemonClientMessage, daemon_message, daemon_permission_request, daemon_done, daemon_dir_listing,
  daemon_codex_enable_ack,
}
use agent_web_mvp.Types.Schemas.{Zod, daemon_client_message_schema, device_hello_message_schema}
use agent_web_mvp.Types.Schemas.Bounds.{IsWithin, schema-IsWithin}
use agent_web_mvp.Wire.{close}
use agent_web_mvp.Devices.{DeviceHello, register}
use agent_web_mvp.Hub.{Hub}
use agent_web_mvp.Connection.{
  Peer, Connection, opened, route, greet, heed, on_json, on_parsed, on_message, on_hello_timeout,
  on_close, Happening, arrives, times_out, closes, elsewhere, step, run,
}

-- A message of a run; the other two types are not for the sessions.
abbrev pub IsStreamed : DaemonClientMessage → Type 0
IsStreamed (daemon_message run_id role text meta) = Unit {0}
IsStreamed (daemon_permission_request run_id request_id tool_name input) = Unit {0}
IsStreamed (daemon_done run_id resume_token error) = Unit {0}
IsStreamed (daemon_dir_listing request_id path parent entries error) = ⊥
IsStreamed (daemon_codex_enable_ack request_id success error) = ⊥

-- A message as the sessions may get it from this connection.
abbrev pub IsFrom : Peer → String × DaemonClientMessage → Type 0
IsFrom peer e = (e.0 ≡ peer.device_token_id) × IsWithin e.1 × IsStreamed e.1

-- Either no hello has come, and nothing was let through; or the connection has the id of its token,
-- and its timer is off.
abbrev pub IsGreeted : Peer → Connection → Type 0
IsGreeted peer c =
    ((c.hello_received ≡ false) × (c.device_id ≡ none) × (c.dispatched ≡ []))
    ⊎ ((c.hello_received ≡ true)
        × (c.device_id ≡ some peer.device_token_id)
        × (c.hello_timer ≡ false)
        × All (IsFrom peer) c.dispatched)

module _ (peer : Peer) where
  register-id :
      (now : ℕ) (hello : DeviceHello) (c : Connection)
      → (register c.hub.registry peer.device_token_id peer.ws peer.user_id hello peer.remote_addr
          now).1.id
        ≡ peer.device_token_id
  unfolding register
  register-id now hello c = refl

  greet-IsGreeted :
      (now : ℕ) (o : Option DeviceHello) (c : Connection)
      → c.dispatched ≡ []
      → IsGreeted peer c
      → IsGreeted peer (greet peer now o c)
  unfolding greet
  greet-IsGreeted now none c e v = v
  greet-IsGreeted now (some hello) c e v =
      inr (refl, ap some (register-id now hello c), refl, rw e tt)

  more :
      (c : Connection) (id : String) (m : DaemonClientMessage)
      → All (IsFrom peer) c.dispatched
      → id ≡ peer.device_token_id
      → IsWithin m
      → IsStreamed m
      → All (IsFrom peer) (c.dispatched ++ (id, m) ∷ [])
  more c id m a e w s = All-append (IsFrom peer) c.dispatched _ a ((e, w, s), tt)

  route-IsGreeted :
      (m : DaemonClientMessage) (c : Connection)
      → IsWithin m
      → c.hello_received ≡ true
      → c.device_id ≡ some peer.device_token_id
      → c.hello_timer ≡ false
      → All (IsFrom peer) c.dispatched
      → IsGreeted peer (route peer peer.device_token_id m c)
  unfolding route
  route-IsGreeted (daemon_message run_id role text meta) c w h d t a =
      inr (h, d, t, more c peer.device_token_id _ a refl w tt)
  route-IsGreeted (daemon_permission_request run_id request_id tool input) c w h d t a =
      inr (h, d, t, more c peer.device_token_id _ a refl w tt)
  route-IsGreeted (daemon_done run_id token error) c w h d t a =
      inr (h, d, t, more c peer.device_token_id _ a refl w tt)
  route-IsGreeted (daemon_dir_listing request_id path parent entries error) c w h d t a =
      inr (h, d, t, a)
  route-IsGreeted (daemon_codex_enable_ack request_id success error) c w h d t a = inr (h, d, t, a)

  heed-IsGreeted :
      (id : Option String) (o : Option DaemonClientMessage) (c : Connection)
      → id ≡ c.device_id
      → ((m : DaemonClientMessage) → o ≡ some m → IsWithin m)
      → IsGreeted peer c
      → IsGreeted peer (heed peer id o c)
  unfolding heed
  heed-IsGreeted id none c e w v = v
  heed-IsGreeted none (some m) c e w v = v
  heed-IsGreeted (some id) (some m) c e w (inl (h, d, a)) = cc
  heed-IsGreeted (some id) (some m) c e w (inr (h, d, t, a)) =
      let same : id ≡ peer.device_token_id = cc in rw same (route-IsGreeted m c (w m refl) h d t a)

  timeout_off : (c : Connection) → c.hello_timer ≡ false → on_hello_timeout peer c ≡ c
  unfolding on_hello_timeout
  timeout_off c t = ground arith

  timeout-IsGreeted : (c : Connection) → IsGreeted peer c → IsGreeted peer (on_hello_timeout peer c)
  unfolding on_hello_timeout
  timeout-IsGreeted c (inl (h, d, a)) = elim (Bool-cases c.hello_timer) [
    | inl e ↦ inl (ground arith, ground arith, ground arith)
    | inr e ↦ inl (ground arith, ground arith, ground arith)
  ]
  timeout-IsGreeted c (inr (h, d, t, a)) =
      subst (IsGreeted peer) (sym (timeout_off c t)) (inr (h, d, t, a))

  close-IsGreeted : (c : Connection) → IsGreeted peer c → IsGreeted peer (on_close peer c)
  unfolding on_close
  close-IsGreeted c (inl (h, d, a)) = rw (d, on_close) (inl (h, d, a))
  close-IsGreeted c (inr (h, d, t, a)) = rw (d, on_close) (inr (h, d, refl, a))

abbrev pub frames_of : List (ℕ × String) → List Happening
frames_of = map (λ f. arrives f.0 f.1)

module _ (z : Zod) (json_parse : String → Option Json) (peer : Peer) where
  before_hello :
      (now : ℕ) (j : Json) (c : Connection)
      → c.hello_received ≡ false
      → on_json z json_parse peer now j c ≡ greet peer now (device_hello_message_schema z j) c
  unfolding on_json
  before_hello now j c = ap (λ b.
      if b
      then heed peer c.device_id (daemon_client_message_schema z j) c
      else greet peer now (device_hello_message_schema z j) c)

  pub after_hello :
      (now : ℕ) (j : Json) (c : Connection)
      → c.hello_received ≡ true
      → on_json z json_parse peer now j c
        ≡ heed peer c.device_id (daemon_client_message_schema z j) c
  unfolding on_json
  after_hello now j c = ap (λ b.
      if b
      then heed peer c.device_id (daemon_client_message_schema z j) c
      else greet peer now (device_hello_message_schema z j) c)

  json-IsGreeted :
      (now : ℕ) (j : Json) (c : Connection)
      → IsGreeted peer c
      → IsGreeted peer (on_json z json_parse peer now j c)
  json-IsGreeted now j c (inl (h, d, a)) =
      subst (IsGreeted peer) (sym (before_hello now j c h))
        (greet-IsGreeted peer now (device_hello_message_schema z j) c a (inl (h, d, a)))
  json-IsGreeted now j c (inr (h, d, t, a)) = subst (IsGreeted peer) (sym (after_hello now j c h)) (
      heed-IsGreeted peer c.device_id (daemon_client_message_schema z j) c refl
        (schema-IsWithin z j) (inr (h, d, t, a)))

  parsed-IsGreeted :
      (now : ℕ) (o : Option Json) (c : Connection)
      → IsGreeted peer c
      → IsGreeted peer (on_parsed z json_parse peer now o c)
  unfolding on_parsed
  parsed-IsGreeted now none c v = v
  parsed-IsGreeted now (some j) c v = json-IsGreeted now j c v

  step-IsGreeted :
      (h : Happening) (c : Connection)
      → IsGreeted peer c
      → IsGreeted peer (step z json_parse peer h c)
  unfolding step
  step-IsGreeted (arrives now raw) c v = parsed-IsGreeted now (json_parse raw) c v
  step-IsGreeted times_out c v = timeout-IsGreeted peer c v
  step-IsGreeted closes c v = close-IsGreeted peer c v
  step-IsGreeted (elsewhere e) c v = v

  keeps :
      (hs : List Happening) (c : Connection)
      → IsGreeted peer c
      → IsGreeted peer (run z json_parse peer hs c)
  unfolding run
  keeps [] c v = v
  keeps (h ∷ hs) c v = keeps hs (step z json_parse peer h c) (step-IsGreeted h c v)

  -- Whatever happens on a connection from its opening: as long as no valid hello has come, no device id
  -- is set and no message has been let through to the sessions; afterwards the id is that of the
  -- presented token, the timer of the hello is off, and each message let through is under that id, of
  -- one of the three types that belong to a run, and within the bounds of its schema.
  pub run-IsGreeted :
      (hs : List Happening) (hub : Hub) → IsGreeted peer (run z json_parse peer hs (opened hub))
  run-IsGreeted hs hub = keeps hs (opened hub) (inl (refl, refl, refl))

  -- A frame that is no hello.
  abbrev pub IsUngreeting : ℕ × String → Type 0
  IsUngreeting f = (json_parse f.1 >>= device_hello_message_schema z) ≡ none

  parsed_ignored :
      (now : ℕ) (o : Option Json) (hub : Hub)
      → (o >>= device_hello_message_schema z) ≡ none
      → on_parsed z json_parse peer now o (opened hub) ≡ opened hub
  unfolding on_parsed
  parsed_ignored now none hub u = refl
  parsed_ignored now (some j) hub u =
      before_hello now j (opened hub) refl ∙ ap (λ o. greet peer now o (opened hub)) u

  run-append :
      (hs ks : List Happening) (c : Connection)
      → run z json_parse peer (hs ++ ks) c ≡ run z json_parse peer ks (run z json_parse peer hs c)
  unfolding run
  run-append [] ks c = refl
  run-append (h ∷ hs) ks c = run-append hs ks (step z json_parse peer h c)

  frames_ignored :
      (fs : List (ℕ × String)) (hub : Hub)
      → All IsUngreeting fs
      → run z json_parse peer (frames_of fs) (opened hub) ≡ opened hub
  unfolding run step on_message
  frames_ignored [] hub u = refl
  frames_ignored ((now, raw) ∷ fs) hub (u, us) =
      ap (run z json_parse peer (frames_of fs)) (parsed_ignored now (json_parse raw) hub u)
      ∙ frames_ignored fs hub us

  -- A socket that sends nothing but frames that are no valid hello: when its time is over it is closed
  -- with 4000, and the rest of the server is as it was at its opening.
  no_hello_closed :
      (fs : List (ℕ × String)) (hub : Hub)
      → All IsUngreeting fs
      → run z json_parse peer (frames_of fs ++ times_out ∷ []) (opened hub) ≡ record (opened hub) {
        hello_timer = false;
        hub = record hub {
          registry = record hub.registry { net = close hub.registry.net peer.ws 4000 };
        };
      }
  unfolding run step on_hello_timeout
  no_hello_closed fs hub u =
      run-append (frames_of fs) (times_out ∷ []) (opened hub)
      ∙ ap (run z json_parse peer (times_out ∷ [])) (frames_ignored fs hub u)
