-- ===== src/Agents/Remote/Deletion.antt =====
-- server/sessions.ts with server/agents/remote.ts: a session that is deleted while its run is on.
use agent_web_mvp.Prelude.{
  ℕ, ◌≡◌, refl, sym, ap, ◌∙◌, String, false, not, List, [], ◌∷◌, ◌++◌, Option, none, some, arith,
  ◌==◌, eq_refl, any, keep,
}
use agent_web_mvp.Prelude.JsMap.{get}
use agent_web_mvp.Types.{assistant, ChatMessage, DaemonServerMessage, daemon_cancel, daemon_message}
use agent_web_mvp.Devices.{Registry}
use agent_web_mvp.Agents.Remote.{Remote, post, cancel_run, remote_runner}
use agent_web_mvp.Agents.Remote.Events.{Ticket, handle_daemon_message, hear, hear_all, dispatch}
use agent_web_mvp.Db.Sessions
use agent_web_mvp.Db.Sessions.{
  AgentSessionRow, AgentMessageRow, SessionTables, delete_agent_session,
}
use agent_web_mvp.Session.State.{Session, Env, insert_agent_message, message_added}
use agent_web_mvp.Session.Steps.{record_message, message_event}
use agent_web_mvp.Session.Operations.{cancel, handle_event}
use agent_web_mvp.Session.Store.{SessionStore, delete, message_row}
use agent_web_mvp.Types.Values.{Json}

no_row :
    (id : String) (rs : List AgentSessionRow)
    → any (λ r. r.id == id) (keep (λ r. not (r.id == id)) rs) ≡ false
no_row id [] = refl
no_row id (r ∷ rs) = ground (arith, no_row id rs)

-- The message of a session whose row is deleted is refused.
insert-deleted :
    (m : AgentMessageRow) (db : SessionTables)
    → agent_web_mvp.Db.Sessions.insert_agent_message m (delete_agent_session m.session_id db) ≡ none
unfolding agent_web_mvp.Db.Sessions.insert_agent_message delete_agent_session
insert-deleted m db = ground (arith, no_row m.session_id db.agent_sessions)

module _ (registry : Registry) (uuid : ℕ → String) (now : ℕ) where
  abbrev pub env : Env Remote
  env = record { runner = remote_runner registry uuid; random_uuid = uuid; now = now }

  -- The cancellation leaves the run and its subscription in place.
  post-run :
      (id : String) (msg : DaemonServerMessage) (r : Remote)
      → ((post registry id msg r).0.subscriptions ≡ r.subscriptions)
        × ((post registry id msg r).0.active_device_id ≡ r.active_device_id)
  unfolding post
  post-run id msg r = ground arith

  cancel-run :
      (run dev : Option String) (r : Remote)
      → ((cancel_run registry uuid run dev r).subscriptions ≡ r.subscriptions)
        × ((cancel_run registry uuid run dev r).active_device_id ≡ r.active_device_id)
  unfolding cancel_run
  cancel-run (some run) (some dev) r = post-run dev (daemon_cancel run) r
  cancel-run (some run) none r = (refl, refl)
  cancel-run none dev r = (refl, refl)

  hear-message :
      (dev run text : String) (s : Session Remote Ticket)
      → s.runner.active_device_id ≡ some dev
      → hear env dev (daemon_message run assistant text none) run s
        ≡ record_message env assistant text none s
  unfolding hear handle_daemon_message handle_event message_event
  hear-message dev run text s e = rw (e, eq_refl dev, eq_refl run) refl

  dispatch-message :
      (dev run text : String) (s : Session Remote Ticket)
      → s.runner.subscriptions ≡ run ∷ []
      → s.runner.active_device_id ≡ some dev
      → dispatch env dev (daemon_message run assistant text none) s
        ≡ record_message env assistant text none s
  unfolding dispatch hear_all
  dispatch-message dev run text s u e =
      ap (λ runs. hear_all env dev (daemon_message run assistant text none) runs s) u
      ∙ hear-message dev run text s e

  cancelled_run :
      (s : Session Remote Ticket)
      → ((cancel env s).runner.subscriptions ≡ s.runner.subscriptions)
        × ((cancel env s).runner.active_device_id ≡ s.runner.active_device_id)
        × ((cancel env s).id ≡ s.id)
  unfolding cancel agent_web_mvp.Agents.Remote.cancel
  cancelled_run s =
      let (u, d) = cancel-run s.runner.active_run_id s.runner.active_device_id s.runner in
      (u, d, refl)

  said :
      (text : String) (s : Session Remote Ticket)
      → (m : ChatMessage) × ((record_message env assistant text none s).effects
          ≡ s.effects ++ insert_agent_message m ∷ message_added m ∷ [])
        × (m.session_id ≡ s.id)
  unfolding record_message
  said text s = (
    record {
      id = uuid s.drawn;
      session_id = s.id;
      ts = now;
      role = assistant;
      text = text;
      meta = none;
    },
    refl,
    refl,
  )

  -- The bug of the deleted session: `delete` takes the session out of the map and its row out of the
  -- database, but the runner's subscription stays. A message that the daemon of the run sends after
  -- that still reaches the session, which inserts it into agent_messages; that insertion is refused,
  -- since there is no row of the session any more, and the statement throws.
  pub late_message_throws :
      (json_stringify : Json → String) (id dev run text : String) (s : Session Remote Ticket)
      (store : SessionStore Remote Ticket)
      → get id store.sessions ≡ some s
      → s.id ≡ id
      → s.runner.subscriptions ≡ run ∷ []
      → s.runner.active_device_id ≡ some dev
      → let out = delete env id store in
        let dead = cancel env s in
        (out.1 ≡ some dead)
        × ((m : ChatMessage) × ((dispatch env dev
                (daemon_message run assistant text none)
                dead).effects
              ≡ dead.effects ++ insert_agent_message m ∷ message_added m ∷ [])
            × (agent_web_mvp.Db.Sessions.insert_agent_message
                  (message_row json_stringify m)
                  out.0.db
                ≡ none))
  unfolding delete message_row
  late_message_throws json_stringify id dev run text s store e i u d =
      let (u', d', i') = cancelled_run s in
      let (m, f, k) = said text (cancel env s) in
      rw (e, delete)
        (
          refl,
          (
            m,
            ap (λ t. t.effects) (dispatch-message dev run text (cancel env s) (u' ∙ u) (d' ∙ d))
                ∙ f,
            ap
                  (λ j.
                    agent_web_mvp.Db.Sessions.insert_agent_message (message_row json_stringify m)
                      (delete_agent_session j store.db))
                  (sym (k ∙ i' ∙ i))
                ∙ insert-deleted (message_row json_stringify m) store.db,
          ),
        )
