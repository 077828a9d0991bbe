-- ===== src/Connection/Named.antt =====
-- server/index.ts: the device for which a daemon's connection speaks is the one whose token it presented.
use agent_web_mvp.Prelude.{
  ℕ, ◌≡◌, refl, String, Bool, true, false, [], ◌∷◌, ◌++◌, Option, none, some, All, All-append,
  Bool-cases, Option-cases, inl, inr, if◌then◌else◌,
}
use agent_web_mvp.Types.Values.{Json}
use agent_web_mvp.Types.{
  DaemonClientMessage, daemon_message, daemon_permission_request, daemon_done, daemon_dir_listing,
  daemon_codex_enable_ack,
}
use agent_web_mvp.Types.Schemas.{Zod, daemon_client_message_schema, device_hello_message_schema}
use agent_web_mvp.Devices.{DeviceHello, register}
use agent_web_mvp.Connection.{
  Peer, Connection, route, greet, heed, on_json, on_parsed, on_message, on_hello_timeout, on_close,
  Happening, arrives, times_out, closes, elsewhere, step,
}

module _ (peer : Peer) where
  abbrev pub IsNamed : Option String → Type 0
  IsNamed none = Unit {0}
  IsNamed (some id) = id ≡ peer.device_token_id

  -- The connection's id, and those with which messages are dispatched, are that of the token.
  pub record IsOwnSpeech (c : Connection) : Type 0 where
    pub device : IsNamed c.device_id
    pub spoken : All (λ d. d.0 ≡ peer.device_token_id) c.dispatched

  spoken_one :
      (id : String) (msg : DaemonClientMessage) (c : Connection)
      → id ≡ peer.device_token_id
      → IsOwnSpeech c
      → IsOwnSpeech (record c { dispatched = c.dispatched ++ (id, msg) ∷ [] })
  spoken_one id msg c e v = record {
    device = v.device;
    spoken = All-append _ c.dispatched ((id, msg) ∷ []) v.spoken (e, tt);
  }

  route-IsOwnSpeech :
      (id : String) (msg : DaemonClientMessage) (c : Connection)
      → id ≡ peer.device_token_id
      → IsOwnSpeech c
      → IsOwnSpeech (route peer id msg c)
  unfolding route
  route-IsOwnSpeech id (daemon_message run role text meta) c e v = spoken_one id _ c e v
  route-IsOwnSpeech id (daemon_permission_request run r tool input) c e v = spoken_one id _ c e v
  route-IsOwnSpeech id (daemon_done run token error) c e v = spoken_one id _ c e v
  route-IsOwnSpeech id (daemon_dir_listing r path parent entries error) c e v = record {
    device = v.device;
    spoken = v.spoken;
  }
  route-IsOwnSpeech id (daemon_codex_enable_ack r success error) c e v = record {
    device = v.device;
    spoken = v.spoken;
  }

  greet-IsOwnSpeech :
      (now : ℕ) (o : Option DeviceHello) (c : Connection)
      → IsOwnSpeech c
      → IsOwnSpeech (greet peer now o c)
  unfolding greet register
  greet-IsOwnSpeech now none c v = v
  greet-IsOwnSpeech now (some hello) c v = record { device = refl; spoken = v.spoken }

  heed-IsOwnSpeech :
      (id : Option String) (o : Option DaemonClientMessage) (c : Connection)
      → IsNamed id
      → IsOwnSpeech c
      → IsOwnSpeech (heed peer id o c)
  unfolding heed
  heed-IsOwnSpeech id none c e v = v
  heed-IsOwnSpeech none (some msg) c e v = v
  heed-IsOwnSpeech (some id) (some msg) c e v = route-IsOwnSpeech id msg c e v

  timeout-IsOwnSpeech : (c : Connection) → IsOwnSpeech c → IsOwnSpeech (on_hello_timeout peer c)
  unfolding on_hello_timeout
  timeout-IsOwnSpeech c v = elim (Bool-cases c.hello_timer) [
    | inr e ↦ rw e (record { device = v.device; spoken = v.spoken })
    | inl e ↦ elim (Bool-cases c.hello_received) [
      | inl f ↦ rw (e, f) (record { device = v.device; spoken = v.spoken })
      | inr f ↦ rw (e, f) (record { device = v.device; spoken = v.spoken })
    ]
  ]

  close-IsOwnSpeech : (c : Connection) → IsOwnSpeech c → IsOwnSpeech (on_close peer c)
  unfolding on_close
  close-IsOwnSpeech c v = elim (Option-cases c.device_id) [
    | inl e ↦ rw (e, on_close) (record { device = v.device; spoken = v.spoken })
    | inr (id, e) ↦ rw (e, on_close) (record { device = v.device; spoken = v.spoken })
  ]

  module _ (z : Zod) (json_parse : String → Option Json) where
    either_speaks :
        (b : Bool) (c d : Connection)
        → IsOwnSpeech c
        → IsOwnSpeech d
        → IsOwnSpeech (if b then c else d)
    either_speaks true c d p q = p
    either_speaks false c d p q = q

    json-IsOwnSpeech :
        (now : ℕ) (j : Json) (c : Connection)
        → IsOwnSpeech c
        → IsOwnSpeech (on_json z json_parse peer now j c)
    unfolding on_json
    json-IsOwnSpeech now j c v =
        either_speaks c.hello_received _ _
          (heed-IsOwnSpeech c.device_id (daemon_client_message_schema z j) c v.device v)
          (greet-IsOwnSpeech now (device_hello_message_schema z j) c v)

    parsed-IsOwnSpeech :
        (now : ℕ) (o : Option Json) (c : Connection)
        → IsOwnSpeech c
        → IsOwnSpeech (on_parsed z json_parse peer now o c)
    unfolding on_parsed
    parsed-IsOwnSpeech now none c v = v
    parsed-IsOwnSpeech now (some j) c v = json-IsOwnSpeech now j c v

    pub step-IsOwnSpeech :
        (h : Happening) (c : Connection) → IsOwnSpeech c → IsOwnSpeech (step z json_parse peer h c)
    unfolding step on_message
    step-IsOwnSpeech (arrives now raw) c v = parsed-IsOwnSpeech now (json_parse raw) c v
    step-IsOwnSpeech times_out c v = timeout-IsOwnSpeech c v
    step-IsOwnSpeech closes c v = close-IsOwnSpeech c v
    step-IsOwnSpeech (elsewhere e) c v = record { device = v.device; spoken = v.spoken }
