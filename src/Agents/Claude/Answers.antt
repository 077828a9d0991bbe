-- ===== src/Agents/Claude/Answers.antt =====
-- client-go/helpers/claude-bridge.mjs: the permission requests of a run and their answers.
use agent_web_mvp.Prelude.{
  ℕ, ◌≡◌, ◌≤◌, ◌+◌, refl, ap, Bool, true, false, String, List, [], ◌∷◌, ◌++◌, Option, none, some,
  if◌then◌else◌, ◌==◌, arith, eq_iff, truthy,
}
use agent_web_mvp.Prelude.JsMap.{get, get-set, get-remove}
use agent_web_mvp.Types.Values.{Json}
use agent_web_mvp.Agents.Claude
use agent_web_mvp.Agents.Claude.{ToolAnswer}
use agent_web_mvp.Agents.Claude.Bridge.{
  Line, message, permission_request, done, Inbound, prompt, permission_response, cancel, Bridge,
  started, answer, exit, fail, act, on_line, on_stdin_close, ask_permission, on_end, on_throw, step,
  run, Happening, reads, stdin_closes, sdk_missing, sdk_yields, sdk_asks, sdk_ends, sdk_throws,
}
use agent_web_mvp.Agents.Claude.Says.{}
use agent_web_mvp.Agents.Claude.Translation.{message-Says}

-- How often the bridge has written a request with this id, and how often it has resolved one.
abbrev pub requests : String → List Line → ℕ
requests id [] = 0
requests id (message r t meta ∷ ls) = requests id ls
requests id (permission_request i tool input ∷ ls) = (if i == id then 1 else 0) + requests id ls
requests id (done token error ∷ ls) = requests id ls

abbrev pub resolved : String → List (String × ToolAnswer) → ℕ
resolved id [] = 0
resolved id ((i, a) ∷ rest) = (if i == id then 1 else 0) + resolved id rest

abbrev pub one : Option Json → ℕ
one none = 0
one (some input) = 1

abbrev pub IsCounted : String → Bridge → Type 0
IsCounted id b = resolved id b.answers + one (get id b.pending_permissions) ≤ requests id b.written

requests-append :
    (id : String) (ls ks : List Line) → requests id (ls ++ ks) ≡ requests id ls + requests id ks
requests-append id [] ks = omega arith
requests-append id (message r t meta ∷ ls) ks = requests-append id ls ks
requests-append id (permission_request i tool input ∷ ls) ks =
    rw (requests-append id ls ks) (omega arith)
requests-append id (done token error ∷ ls) ks = requests-append id ls ks

resolved-append :
    (id : String) (rs ss : List (String × ToolAnswer))
    → resolved id (rs ++ ss) ≡ resolved id rs + resolved id ss
resolved-append id [] ss = omega arith
resolved-append id ((i, a) ∷ rs) ss = rw (resolved-append id rs ss) (omega arith)

-- A step that only writes.
writes-IsCounted :
    (id : String) (ls : List Line) (b c : Bridge)
    → c.answers ≡ b.answers
    → c.pending_permissions ≡ b.pending_permissions
    → c.written ≡ b.written ++ ls
    → IsCounted id b
    → IsCounted id c
writes-IsCounted id ls b c a p w v =
    rw a (rw p (rw w (rw (requests-append id b.written ls) (omega arith))))

answer-IsCounted :
    (id i : String) (allow : Bool) (o : Option Json) (b : Bridge)
    → get i b.pending_permissions ≡ o
    → IsCounted id b
    → IsCounted id (answer i allow o b)
answer-IsCounted id i allow none b e v = v
answer-IsCounted id i allow (some input) b e v =
    let u : one (get i b.pending_permissions) ≡ 1 = ap one e in
    rw (resolved-append id b.answers ((i, Claude.can_use_tool allow input) ∷ []))
      (rw (get-remove i id b.pending_permissions) ground (arith, eq_iff i id, u))

ask-IsCounted :
    (id i tool : String) (input : Json) (b : Bridge)
    → IsCounted id b
    → IsCounted id (ask_permission i tool input b)
unfolding ask_permission
ask-IsCounted id i tool input b v =
    rw (requests-append id b.written (permission_request i tool input ∷ []))
      (rw (get-set i id input b.pending_permissions) ground (arith, eq_iff i id))

message-keeps :
    (m : Claude.SdkMessage) (b : Bridge)
    → ((Claude.Bridge.handle_sdk_message m b).answers ≡ b.answers)
      × ((Claude.Bridge.handle_sdk_message m b).pending_permissions ≡ b.pending_permissions)
unfolding Claude.Bridge.handle_sdk_message
message-keeps (Claude.system session_id is_init model) b = (refl, refl)
message-keeps (Claude.assistant bs) b = (refl, refl)
message-keeps (Claude.user bs) b = (refl, refl)
message-keeps (Claude.result session_id is_error words) b = (refl, refl)
message-keeps Claude.SdkMessage.other b = (refl, refl)

prompted-IsCounted :
    (id : String) (b : Bridge) (c : Bridge)
    → IsCounted id b
    → IsCounted id c
    → IsCounted id (if b.initial_prompt then c else b)
prompted-IsCounted id b c v u = elim b.initial_prompt as (λ p. IsCounted id (if p then c else b)) [
  | true ↦ u
  | false ↦ v
]

act-IsCounted : (id : String) (h : Happening) (b : Bridge) → IsCounted id b → IsCounted id (act h b)
unfolding act on_line on_stdin_close exit fail on_end on_throw
act-IsCounted id (reads none) b v = v
act-IsCounted id (reads (some (prompt words cwd resume model))) b v =
    elim b.initial_prompt
      as (λ p.
        IsCounted id
          (if p then b else record b { initial_prompt = true; sdk_session_id = truthy resume })) [
            | true ↦ v
            | false ↦ v
          ]
act-IsCounted id (reads (some (permission_response i allow))) b v =
    answer-IsCounted id i allow (get i b.pending_permissions) b refl v
act-IsCounted id (reads (some cancel)) b v = v
act-IsCounted id (reads (some Inbound.other)) b v = v
act-IsCounted id stdin_closes b v =
    elim b.initial_prompt as (λ p. IsCounted id (if p then b else exit b)) [ true ↦ v | false ↦ v ]
act-IsCounted id (sdk_missing error) b v =
    prompted-IsCounted id b _ v
      (writes-IsCounted id (done none (some error) ∷ []) b (fail error b) refl refl refl v)
act-IsCounted id (sdk_yields m) b v =
    let k = message-keeps m b in
    prompted-IsCounted id b _ v (
      writes-IsCounted id _ b (Claude.Bridge.handle_sdk_message m b) k.0 k.1
        (message-Says m b).writes v)
act-IsCounted id (sdk_asks i tool input) b v =
    prompted-IsCounted id b _ v (ask-IsCounted id i tool input b v)
act-IsCounted id sdk_ends b v =
    prompted-IsCounted id b _ v
      (writes-IsCounted id (done b.sdk_session_id none ∷ []) b (on_end b) refl refl refl v)
act-IsCounted id (sdk_throws error) b v =
    prompted-IsCounted id b _ v (writes-IsCounted id (_ ∷ []) b (on_throw error b) refl refl refl v)

runs-IsCounted :
    (id : String) (hs : List Happening) (b : Bridge) → IsCounted id b → IsCounted id (run hs b)
unfolding run step
runs-IsCounted id [] b v = v
runs-IsCounted id (h ∷ hs) b v =
    runs-IsCounted id hs (step h b)
      (elim b.exited as (λ x. IsCounted id (if x then b else act h b)) [
        | true ↦ v
        | false ↦ act-IsCounted id h b v
      ])

-- Whatever a bridge reads and whatever the agent SDK does, in any order, and also when two requests got the
-- same id: of the requests with an id, those that are answered and the one that waits are together at most
-- as many as the lines that asked for permission with that id. So a tool's promise is never resolved without a
-- request, nor a request answered twice.
pub run-IsCounted : (hs : List Happening) (id : String) → IsCounted id (run hs started)
unfolding get
run-IsCounted hs id = runs-IsCounted id hs started (omega arith)
