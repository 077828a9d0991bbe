-- ===== src/Session/Tests.antt =====
-- server/sessions.ts: sessions in concrete surroundings. The runner starts every run, and its state is
-- the list of the prompts that it was sent.
use agent_web_mvp.Prelude.{arith}
use agent_web_mvp.Prelude.{
  ℕ, ◌≡◌, ◌⊎◌, refl, String, true, false, List, [], ◌∷◌, ◌++◌, inr, Option, none, some, map, ◌+◌,
  ◌≤◌, if◌then◌else◌, ◌==◌,
}
use agent_web_mvp.Prelude.Tally.{tally, tally-inj}
use agent_web_mvp.Types.{ChatMessage, idle, user, claude, assistant, running, system}
use agent_web_mvp.Types.Values.{Json, Fields}
use agent_web_mvp.Types.AuthDetect.{detect_auth_required}
use agent_web_mvp.Agents.{
  AgentRunner, started, on_message, on_permission_request, on_error, on_done,
}
use agent_web_mvp.Session.State.{
  Session, Env, SessionOptions, construct, done_event, is_stale_resume_error, auth_hit,
}
use agent_web_mvp.Session.Steps.{error_event, record_message, drain_step}
use agent_web_mvp.Session.Operations.{drain, enqueue_prompt, cancel}
use agent_web_mvp.Session.History.{Input, agent, prompt, permission, stop, run}
use agent_web_mvp.Session.Drain.{drain-eq-drain_step}
use agent_web_mvp.Session.Saved.{IsSaved}
use agent_web_mvp.Session.Persistence.{run-IsSaved}
use agent_web_mvp.Session.Line.{Accepts}
use agent_web_mvp.Session.Pace.{ends, room}
use agent_web_mvp.Session.Fifo.{prompts_fifo}
use agent_web_mvp.Session.Recovery.{stale_error_replays, cancel_idle_hides_error}
use agent_web_mvp.Session.Balanced.{IsBalanced}
use agent_web_mvp.Session.Balance.{run-IsBalanced}
use agent_web_mvp.Prelude.JsMap.{get}
use agent_web_mvp.Db.{first}
use agent_web_mvp.Db.Sessions.{AgentSessionRow}
use agent_web_mvp.Session.Store.{SessionStore, rehydrate, message_row}
use agent_web_mvp.Session.Title.{title_of}
use agent_web_mvp.Prelude.{length}
use agent_web_mvp.Session.Restart.{rehydrate_restores}
use agent_web_mvp.Session.Turns.{empty_prompt_stalls}

abbrev Log : Type 0
Log = List String

abbrev eager : AgentRunner Log
eager = record { send = λ p t r. (r ++ p ∷ [], started); cancel = λ r. r }

abbrev env : Env Log
env = record { runner = eager; random_uuid = tally; now = 7 }

abbrev options : SessionOptions
options = record {
  id = some "s1";
  user_id = "u1";
  agent = claude;
  cwd = "/work/app";
  title = none;
  created_at = none;
  resume_token = some "r0";
  preferred_device_id = none;
  model = none;
  history = none;
}

abbrev fresh : Session Log ℕ
fresh = construct "x" 5 options []

abbrev turns : List (Env Log × Input ℕ)
turns =
    (env, prompt "a")
    ∷ (env, prompt "b")
    ∷ (env, agent (on_message assistant "hi" none))
    ∷ (env, agent on_done)
    ∷ (env, prompt "c")
    ∷ []

drain-eq-drain_step_example :
    drain env (record fresh { queue = "a" ∷ "b" ∷ [] })
    ≡ drain_step env (drain env) (record fresh { queue = "a" ∷ "b" ∷ [] })
drain-eq-drain_step_example = drain-eq-drain_step env (record fresh { queue = "a" ∷ "b" ∷ [] })

abbrev eager-Accepts : Accepts (λ l. l) env
eager-Accepts = record { starts = λ p t r. refl; logs = λ p t r. refl }

prompts_fifo_example :
    ((run turns fresh).runner ++ (run turns fresh).queue ≡ [] ++ ("a" ∷ "b" ∷ "c" ∷ []))
    × (length (run turns fresh).runner + room (run turns fresh).busy
        ≤ (length (fresh.runner) + room fresh.busy) + ends turns)
    × (((run turns fresh).busy ≡ true) ⊎ ((run turns fresh).queue ≡ []))
unfolding construct
prompts_fifo_example =
    prompts_fifo (λ l. l) turns fresh
      (eager-Accepts, (eager-Accepts, (eager-Accepts, (eager-Accepts, (eager-Accepts, tt)))))
      (refl, (refl, (tt, (tt, (refl, tt))))) (record { real = tt; prompt_served = inr refl })

run-IsSaved_example : IsSaved [] (some "r0") (run turns fresh)
unfolding construct
run-IsSaved_example =
    run-IsSaved [] (some "r0") turns fresh (record { messages = refl; token = refl })

abbrev asking : List (Env Log × Input ℕ)
asking =
    (env, prompt "a")
    ∷ (env, agent (on_permission_request "Bash" Json.null 3))
    ∷ (env, agent (on_permission_request "Edit" Json.null 4))
    ∷ (env, permission (tally 3) true)
    ∷ (env, stop)
    ∷ []

run-IsBalanced_example : IsBalanced tally (run asking fresh)
unfolding construct
run-IsBalanced_example =
    run-IsBalanced tally tally-inj asking fresh (refl, (refl, (refl, (refl, (refl, tt)))))
      (record { drawn_ids = tt; distinct = tt; balance = refl })

abbrev login_error : String
login_error = "Not logged in"

abbrev failing : List (Env Log × Input ℕ)
failing =
    (env, agent (on_error login_error)) ∷ (env, agent (on_error login_error)) ∷ (env, stop) ∷ []

abbrev waiting : Session Log ℕ
waiting = record fresh { busy = true; in_flight_prompt = some "a"; queue = "b" ∷ [] }

abbrev gone : String
gone = "No conversation found with session ID: r0"

stale_error_replays_example :
    let t = error_event env (drain env) gone waiting in
    (t.in_flight_prompt ≡ some "a")
    × (t.busy ≡ true)
    × (t.queue ≡ "b" ∷ [])
    × (t.runner ≡ "a" ∷ [])
    × (t.resume_token ≡ none)
    × (t.stale_resume_retried ≡ true)
unfolding construct auth_hit detect_auth_required is_stale_resume_error
stale_error_replays_example =
    stale_error_replays env gone "a" waiting ("a" ∷ []) refl refl refl refl refl refl refl

cancel_idle_hides_error_example :
    let t = enqueue_prompt env "a" (cancel env fresh) in
    (t.in_flight_prompt ≡ some "a")
    × (t.status ≡ running)
    × (error_event env (drain env) "boom" t ≡ record_message env system "Cancelled." none t)
unfolding construct
cancel_idle_hides_error_example =
    cancel_idle_hides_error env "boom" "a" fresh ("a" ∷ []) refl refl refl

empty_prompt_stalls_example :
    let s = record waiting { queue = "" ∷ "b" ∷ [] } in
    ((done_event (drain env) s).queue ≡ "b" ∷ []) × ((done_event (drain env) s).busy ≡ false)
unfolding construct
empty_prompt_stalls_example =
    empty_prompt_stalls env ("b" ∷ []) (record waiting { queue = "" ∷ "b" ∷ [] }) refl

abbrev message : (id text : String) → (ts : ℕ) → ChatMessage
message id text ts = record {
  id = id;
  session_id = "s1";
  ts = ts;
  role = user;
  text = text;
  meta = some (Json.object Fields.end);
}

abbrev row : AgentSessionRow
row = record {
  id = "s1";
  user_id = "u1";
  agent = claude;
  cwd = "/work/app";
  title = " app";
  resume_token = some "r0";
  preferred_device_id = none;
  model = none;
  created_at = 5;
}

abbrev stringify : Json → String
stringify Json.null = "null"
stringify _ = "{}"

abbrev parse : String → Option Json
parse text = if text == "{}" then some (Json.object Fields.end) else none

abbrev store : SessionStore Log ℕ
store = record {
  sessions = [];
  db = record {
    users = "u1" ∷ [];
    agent_sessions = row ∷ [];
    agent_messages = map (message_row stringify) (message "m2" "a" 6 ∷ message "m1" "b" 7 ∷ []);
  };
}

rehydrate_restores_example :
    (s : Session Log ℕ) × (get "s1" (rehydrate (λ o. []) parse store).sessions ≡ some s)
    × (s.history ≡ message "m2" "a" 6 ∷ message "m1" "b" 7 ∷ [])
    × (s.title ≡ title_of (some " app") "claude" "/work/app")
    × (s.resume_token ≡ some "r0")
    × (s.user_id ≡ "u1")
    × (s.agent ≡ claude)
    × (s.cwd ≡ "/work/app")
    × (s.created_at ≡ 5)
    × (s.preferred_device_id ≡ none)
    × (s.model ≡ none)
    × (s.status ≡ idle)
    × (s.busy ≡ false)
    × (s.queue ≡ [])
unfolding first message_row
rehydrate_restores_example =
    rehydrate_restores stringify parse (λ o. []) store "s1" row
      (message "m2" "a" 6 ∷ message "m1" "b" 7 ∷ []) ((refl, refl), ((refl, refl), tt)) (refl, tt)
      refl refl (omega arith, tt)
