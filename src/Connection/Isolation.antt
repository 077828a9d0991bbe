-- ===== src/Connection/Isolation.antt =====
-- server/index.ts: each step of a daemon's connection changes the forwarding part of the server like
-- one event of the daemon's user, or not at all.
use agent_web_mvp.Prelude.{
  ℕ, ◌≡◌, refl, sym, subst, String, Bool, true, false, Option, none, some, Bool-cases, Option-cases,
  inl, inr, if◌then◌else◌,
}
use agent_web_mvp.Types.Values.{Json}
use agent_web_mvp.Types.{
  DaemonClientMessage, daemon_message, daemon_permission_request, daemon_done, daemon_dir_listing,
  daemon_codex_enable_ack,
}
use agent_web_mvp.Types.Schemas.{Zod, daemon_client_message_schema, device_hello_message_schema}
use agent_web_mvp.Wire.{close}
use agent_web_mvp.Devices.{DeviceHello}
use agent_web_mvp.Hub.{Hub}
use agent_web_mvp.Hub.Events.{
  step as step_hub, Event, daemon_hello, daemon_closes, daemon_lists, daemon_acks,
}
use agent_web_mvp.Hub.Owned.{IsOwned, Same, Same-IsOwned}
use agent_web_mvp.Hub.Forwarding.{IsGenuine, step-IsOwned as event-IsOwned}
use agent_web_mvp.Hub.Frames.{frames, SendsTo, none_new}
use agent_web_mvp.Hub.Isolation.{IsBy, by-SendsTo}
use agent_web_mvp.Connection.{
  Peer, Connection, route, greet, heed, on_json, on_parsed, on_message, on_hello_timeout, on_close,
  Happening, arrives, times_out, closes, elsewhere, step,
}

module _ (owner : ℕ → String) where
  -- Between the two states nothing was forwarded, or there was one event of this user's doing.
  pub data Acts (user_id : String) (a b : Hub) : Type 0 where
    quiet : Same owner a b → frames b ≡ frames a → Acts user_id a b
    acted :
        (e : Event) → IsBy owner user_id e → IsGenuine owner e → b ≡ step_hub e a → Acts user_id a b

  Acts-refl : (user_id : String) (hub : Hub) → Acts user_id hub hub
  Acts-refl user_id hub = quiet (record { browsers = refl; listings = refl; enables = refl }) refl

  event-SendsTo :
      (user_id : String) (e : Event) (a : Hub)
      → IsBy owner user_id e
      → IsGenuine owner e
      → IsOwned owner a
      → SendsTo owner user_id a (step_hub e a)
  event-SendsTo user_id e a by g v = by-SendsTo owner e user_id a by g v

  pub Acts-SendsTo :
      (user_id : String) (a b : Hub)
      → IsOwned owner a
      → Acts user_id a b
      → SendsTo owner user_id a b
  Acts-SendsTo user_id a b v (quiet s e) = none_new owner user_id (frames a) (frames b) e
  Acts-SendsTo user_id a b v (acted e by g q) =
      subst (SendsTo owner user_id a) (sym q) (event-SendsTo user_id e a by g v)

  pub Acts-IsOwned :
      (user_id : String) (a b : Hub) → IsOwned owner a → Acts user_id a b → IsOwned owner b
  Acts-IsOwned user_id a b v (quiet s e) = Same-IsOwned owner a b s v
  Acts-IsOwned user_id a b v (acted e by g q) =
      subst (IsOwned owner) (sym q) (event-IsOwned owner e a g v)

  module _ (peer : Peer) where
    greet-Acts :
        (now : ℕ) (o : Option DeviceHello) (c : Connection)
        → Acts peer.user_id c.hub (greet peer now o c).hub
    unfolding greet step_hub
    greet-Acts now none c = Acts-refl peer.user_id c.hub
    greet-Acts now (some hello) c =
        acted (daemon_hello peer.device_token_id peer.ws peer.user_id hello peer.remote_addr now)
          refl tt refl

    route-Acts :
        (id : String) (msg : DaemonClientMessage) (c : Connection)
        → Acts peer.user_id c.hub (route peer id msg c).hub
    unfolding route step_hub
    route-Acts id (daemon_message run_id role text meta) c = Acts-refl peer.user_id c.hub
    route-Acts id (daemon_permission_request run_id request_id tool input) c =
        Acts-refl peer.user_id c.hub
    route-Acts id (daemon_done run_id token error) c = Acts-refl peer.user_id c.hub
    route-Acts id (daemon_dir_listing request_id path parent entries error) c =
        acted (daemon_lists peer.user_id request_id path parent entries error) refl tt refl
    route-Acts id (daemon_codex_enable_ack request_id success error) c =
        acted (daemon_acks peer.user_id request_id success error) refl tt refl

    heed-Acts :
        (id : Option String) (o : Option DaemonClientMessage) (c : Connection)
        → Acts peer.user_id c.hub (heed peer id o c).hub
    unfolding heed
    heed-Acts id none c = Acts-refl peer.user_id c.hub
    heed-Acts none (some msg) c = Acts-refl peer.user_id c.hub
    heed-Acts (some id) (some msg) c = route-Acts id msg c

    either-Acts :
        {a : Hub} (b : Bool) (c d : Connection)
        → Acts peer.user_id a c.hub
        → Acts peer.user_id a d.hub
        → Acts peer.user_id a (if b then c else d).hub
    either-Acts true c d p q = p
    either-Acts false c d p q = q

    timeout-Acts : (c : Connection) → Acts peer.user_id c.hub (on_hello_timeout peer c).hub
    unfolding on_hello_timeout close
    timeout-Acts c = elim (Bool-cases c.hello_timer) [
      | inr e ↦ rw e (Acts-refl peer.user_id c.hub)
      | inl e ↦ elim (Bool-cases c.hello_received) [
        | inl f ↦ rw (e, f) (Acts-refl peer.user_id c.hub)
        | inr f ↦
            rw (e, f) (quiet (record { browsers = refl; listings = refl; enables = refl }) refl)
      ]
    ]

    close-Acts : (c : Connection) → Acts peer.user_id c.hub (on_close peer c).hub
    unfolding on_close step_hub
    close-Acts c = elim (Option-cases c.device_id) [
      | inl e ↦ rw (e, on_close) (Acts-refl peer.user_id c.hub)
      | inr (id, e) ↦ rw (e, on_close) (acted (daemon_closes id peer.user_id peer.ws) refl tt refl)
    ]

    module _ (z : Zod) (json_parse : String → Option Json) where
      json-Acts :
          (now : ℕ) (j : Json) (c : Connection)
          → Acts peer.user_id c.hub (on_json z json_parse peer now j c).hub
      unfolding on_json
      json-Acts now j c =
          either-Acts c.hello_received _ _
            (heed-Acts c.device_id (daemon_client_message_schema z j) c)
            (greet-Acts now (device_hello_message_schema z j) c)

      parsed-Acts :
          (now : ℕ) (o : Option Json) (c : Connection)
          → Acts peer.user_id c.hub (on_parsed z json_parse peer now o c).hub
      unfolding on_parsed
      parsed-Acts now none c = Acts-refl peer.user_id c.hub
      parsed-Acts now (some j) c = json-Acts now j c

      message-Acts :
          (now : ℕ) (raw : String) (c : Connection)
          → Acts peer.user_id c.hub (on_message z json_parse peer now raw c).hub
      unfolding on_message
      message-Acts now raw c = parsed-Acts now (json_parse raw) c

      abbrev pub IsOwnHappening : Happening → Type 0
      IsOwnHappening (elsewhere e) = ⊥
      IsOwnHappening _ = Unit {0}

      pub own-Acts :
          (h : Happening) (c : Connection)
          → IsOwnHappening h
          → Acts peer.user_id c.hub (step z json_parse peer h c).hub
      unfolding step
      own-Acts (arrives now raw) c o = message-Acts now raw c
      own-Acts times_out c o = timeout-Acts c
      own-Acts closes c o = close-Acts c
      own-Acts (elsewhere e) c o = absurd o
