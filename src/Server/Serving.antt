-- ===== src/Server/Serving.antt =====
-- server/index.ts: a browser's messages send frames to browsers of one user.
use agent_web_mvp.Prelude.{
  ℕ, suc, ◌≡◌, refl, subst, String, Bool, not, ◌&&◌, List, [], ◌∷◌, Option, none, some, All,
  Bool-cases, Option-cases, inl, inr, eq_iff, ◌==◌,
}
use agent_web_mvp.Prelude.JsMap.{JsMap, get, set, All-set, All-remove}
use agent_web_mvp.Types.{
  AgentKind, ClientMessage, ServerMessage, list_sessions, create_session, send_prompt, retry_last,
  permission_response, cancel_all, delete_session,
}
use agent_web_mvp.Db.Sessions.{SessionTables, insert_by, sort_by, insert_agent_session}
use agent_web_mvp.Devices
use agent_web_mvp.RateLimit.{check_prompt_rate}
use agent_web_mvp.Hub.{add_browser, broadcast_to_user}
use agent_web_mvp.Hub.Events
use agent_web_mvp.Hub.Events.{asks_dir, asks_codex}
use agent_web_mvp.Hub.Isolation.{by-SendsTo}
use agent_web_mvp.Hub.Forwarding.{step-IsOwned}
use agent_web_mvp.Agents.Remote.{Remote}
use agent_web_mvp.Agents.Remote.Events.{Ticket}
use agent_web_mvp.Session.State.{
  Session, SessionOptions, construct, resolve_permission, deny_all, emit, meta_changed, meta,
}
use agent_web_mvp.Session.Operations.{enqueue_prompt, retry_last_user_prompt, cancel}
use agent_web_mvp.Session.Store.{committed, create, delete, get_for_user, row_of}
use agent_web_mvp.Server.{Server, act, publish_all}
use agent_web_mvp.Server.Messages.{
  World, new_options, is_codex, is_none, is_known_pin, limited, retry_with, created, create_with,
  create_session_for, is_active, by_age, cancel_each, deleted, delete_owned, handle_client_message,
}
use agent_web_mvp.Server.Held.{IsHeld, IsRunnerOf}
use agent_web_mvp.Server.Holding.{IsEnv, prompt-IsHeld, retry-IsHeld, cancel-IsHeld, resolve-IsHeld}
use agent_web_mvp.Server.Sending.{
  IsSafe, Serves, Tells-both, broadcast-Tells, told-Tells, Serves-refl, Serves-both, hub-Serves,
  reply-Serves, act-Serves, own-IsHeld, get-IsHeld, must-Serves,
}

module _ {ℓ} {A : Type 0} (Q : A → Type ℓ) (le : A → A → Bool) where
  insert_by-All : (x : A) (xs : List A) → Q x → All Q xs → All Q (insert_by le x xs)
  insert_by-All x [] q h = (q, tt)
  insert_by-All x (y ∷ ys) q (p, h) = elim (Bool-cases (le x y)) [
    | inl e ↦ rw e (q, (p, h))
    | inr e ↦ rw e (p, insert_by-All x ys q h)
  ]

  sort_by-All : (xs : List A) → All Q xs → All Q (sort_by le xs)
  sort_by-All [] h = tt
  sort_by-All (x ∷ xs) (q, h) = insert_by-All x (sort_by le xs) q (sort_by-All xs h)

module _ (owner : ℕ → String) (tenant : String → String) where
  -- The runner that is made for a session is one of its user, on no device or on one of the user.
  pub record IsWorld (world : World Remote) : Type 0 where
    pub env : IsEnv tenant world.env
    pub makes : (o : SessionOptions) → IsRunnerOf tenant o.user_id (world.make_runner o)

  abbrev pub Safe : Server Remote Ticket → Type 0
  Safe = IsSafe owner tenant

  abbrev pub Good : String → Server Remote Ticket → Server Remote Ticket → Type 0
  Good = Serves owner tenant

  module _ (world : World Remote) (w : IsWorld world) (u : String) (ws : ℕ) (o : owner ws ≡ u) where
    limited-Serves :
        (id : String) (k : Server Remote Ticket → Server Remote Ticket) (a : Server Remote Ticket)
        → ((b : Server Remote Ticket) → Safe b → Good u b (k b))
        → Safe a
        → Good u a (limited world ws u id k a)
    unfolding limited
    limited-Serves id k a f v =
        let c = record a { buckets = (check_prompt_rate world.env.now u id a.buckets).0 } in
        let v' : Safe c = record { owned = v.owned; held = v.held } in
        elim (Bool-cases (check_prompt_rate world.env.now u id a.buckets).1) [
          | inl e ↦ rw e (record { sends = (f c v').sends; safe = (f c v').safe })
          | inr e ↦
              let r = reply-Serves owner tenant u ws _ c o v' in
              rw e (record { sends = r.sends; safe = r.safe })
        ]

    retry-Serves :
        (id : String) (s : Session Remote Ticket) (a : Server Remote Ticket)
        → IsHeld tenant u s
        → Safe a
        → Good u a (retry_with world ws id s a)
    unfolding retry_with
    retry-Serves id s a h v =
        let f : Session Remote Ticket → Session Remote Ticket =
          λ t. (retry_last_user_prompt world.env t).0 in
        let g = act-Serves owner tenant u f id s a (retry-IsHeld tenant u world.env w.env) h v in
        elim (Bool-cases (retry_last_user_prompt world.env s).1) [
          | inl e ↦ rw e g
          | inr e ↦ rw e (
              Serves-both owner tenant u a (act f id s a) _ g
                (reply-Serves owner tenant u ws _ (act f id s a) o g.safe))
        ]

    inserted-Serves :
        (s : Session Remote Ticket) (a : Server Remote Ticket) (db : Option SessionTables)
        → IsHeld tenant u s
        → Safe a
        → Good u a (created world ws a (committed s a.store db))
    inserted-Serves s a none h v = reply-Serves owner tenant u ws _ a o v
    inserted-Serves s a (some db) h v =
        let told = emit (meta_changed (meta s)) s in
        let t = told-Tells owner tenant u s.user_id a.tokens told.effects a.hub h.user_id v.owned in
        let b = record a {
          hub = publish_all s.user_id a.tokens told.effects a.hub;
          store = record { sessions = set s.id told a.store.sessions; db = db };
        } in
        let k : IsHeld tenant u told = record { user_id = h.user_id; runner = h.runner } in
        let g : Good u a b = record {
          sends = t.sends;
          safe = record {
            owned = t.owned;
            held = All-set _ s.id told a.store.sessions v.held (own-IsHeld owner tenant u told k);
          };
        } in
        Serves-both owner tenant u a b _ g (reply-Serves owner tenant u ws _ b o g.safe)

    create_with-Serves :
        (opts : SessionOptions) (a : Server Remote Ticket)
        → opts.user_id ≡ u
        → Safe a
        → Good u a (create_with world ws opts a)
    unfolding create_with create construct
    create_with-Serves opts a e v =
        let s =
          construct {R = Remote} {K = Ticket} world.new_id world.env.now opts
            (world.make_runner opts) in
        inserted-Serves s a (insert_agent_session (row_of s) a.store.db)
          (record {
            user_id = e;
            runner = subst (λ x. IsRunnerOf tenant x (world.make_runner opts)) e (w.makes opts);
          })
          v

    create-Serves :
        (agent : AgentKind) (cwd : String) (title dev model : Option String)
        (a : Server Remote Ticket)
        → Safe a
        → Good u a (create_session_for world ws u agent cwd title dev model a)
    unfolding create_session_for
    create-Serves agent cwd title dev model a v =
        elim (Bool-cases (is_codex agent && not world.trust_codex)) [
          | inl c ↦ rw c (reply-Serves owner tenant u ws _ a o v)
          | inr c ↦
              elim (Bool-cases (
                is_none (agent_web_mvp.Devices.list_for_user a.hub.registry u)
                && not (world.is_valid_cwd cwd))) [
                  | inl b ↦ rw (c, b) (reply-Serves owner tenant u ws _ a o v)
                  | inr b ↦ elim (Bool-cases (is_known_pin a.hub.registry u dev)) [
                    | inl d ↦
                        rw (c, b, d)
                          (create_with-Serves (new_options u agent cwd title dev model) a refl v)
                    | inr d ↦ rw (c, b, d) (reply-Serves owner tenant u ws _ a o v)
                  ]
                ]
        ]

    cancel_each-Serves :
        (es : JsMap (Session Remote Ticket)) (n : ℕ) (a : Server Remote Ticket)
        → All (λ e. IsHeld tenant e.1.user_id e.1) es
        → Safe a
        → Good u a (cancel_each world u es n a).0
    unfolding cancel_each
    cancel_each-Serves [] n a h v = Serves-refl owner tenant u a v
    cancel_each-Serves ((id, s) ∷ es) n a (h, hs) v = elim (Bool-cases (s.user_id == u)) [
      | inl e ↦ elim (Bool-cases (is_active s.status)) [
        | inl f ↦
            let k = subst (λ x. IsHeld tenant x s) ((eq_iff s.user_id u).0 e) h in
            let b = act (cancel world.env) id s a in
            let g =
              act-Serves owner tenant u (cancel world.env) id s a
                (cancel-IsHeld tenant u world.env w.env) k v in
            rw (e, f)
              (Serves-both owner tenant u a b _ g (cancel_each-Serves es (suc n) b hs g.safe))
        | inr f ↦ rw (e, f) (cancel_each-Serves es n a hs v)
      ]
      | inr e ↦ rw e (cancel_each-Serves es n a hs v)
    ]

    dropped-Serves :
        (id : String) (s : Session Remote Ticket) (a : Server Remote Ticket)
        → IsHeld tenant u s
        → Safe a
        → Good u a (deleted world u id s (delete world.env id a.store) a)
    unfolding delete
    dropped-Serves id s a h v = elim (Option-cases (get id a.store.sessions)) [
      | inl e ↦ rw (e, delete) (Serves-refl owner tenant u a v)
      | inr (d, e) ↦
          let es = deny_all s.id s.pending in
          let t = told-Tells owner tenant u s.user_id a.tokens es a.hub h.user_id v.owned in
          let b = publish_all s.user_id a.tokens es a.hub in
          let t' = broadcast-Tells owner tenant u (ServerMessage.session_deleted id) b t.owned in
          let t'' = Tells-both owner tenant u a.hub b _ t t' in
          rw (e, delete)
            (record {
              sends = t''.sends;
              safe = record { owned = t''.owned; held = All-remove _ id a.store.sessions v.held };
            })
    ]

    delete-Serves :
        (id : String) (x : Option (Session Remote Ticket)) (a : Server Remote Ticket)
        → ((s : Session Remote Ticket) → x ≡ some s → IsHeld tenant u s)
        → Safe a
        → Good u a (delete_owned world u id x a)
    unfolding delete_owned
    delete-Serves id none a h v = Serves-refl owner tenant u a v
    delete-Serves id (some s) a h v = dropped-Serves id s a (h s refl) v

    pub message-Serves :
        (msg : ClientMessage) (a : Server Remote Ticket)
        → Safe a
        → Good u a (handle_client_message world ws u msg a)
    unfolding handle_client_message agent_web_mvp.Hub.Events.step
    message-Serves list_sessions a v = reply-Serves owner tenant u ws _ a o v
    message-Serves (create_session agent cwd title dev model) a v =
        create-Serves agent cwd title dev model a v
    message-Serves (send_prompt id p) a v = must-Serves owner tenant u ws id _ a o v (λ s h.
        limited-Serves id _ a
          (λ b k.
            act-Serves owner tenant u (enqueue_prompt world.env p) id s b
              (prompt-IsHeld tenant u world.env w.env p) h k)
          v)
    message-Serves (retry_last id) a v =
        must-Serves owner tenant u ws id _ a o v
          (λ s h. limited-Serves id _ a (λ b k. retry-Serves id s b h k) v)
    message-Serves (permission_response id r allow) a v =
        must-Serves owner tenant u ws id _ a o v (λ s h.
          act-Serves owner tenant u (resolve_permission r allow) id s a
            (resolve-IsHeld tenant u world.env w.env r allow) h v)
    message-Serves (ClientMessage.cancel id) a v = must-Serves owner tenant u ws id _ a o v (λ s h.
        act-Serves owner tenant u (cancel world.env) id s a (cancel-IsHeld tenant u world.env w.env)
          h v)
    message-Serves cancel_all a v =
        let es = by_age world a.store.sessions in
        let done = (cancel_each world u es 0 a).0 in
        let g = cancel_each-Serves es 0 a (sort_by-All _ _ a.store.sessions v.held) v in
        Serves-both owner tenant u a done _ g (reply-Serves owner tenant u ws _ done o g.safe)
    message-Serves (delete_session id) a v =
        delete-Serves id (get_for_user id u a.store) a (λ s e. get-IsHeld owner tenant u id s a v e)
          v
    message-Serves (ClientMessage.list_dir r dev path) a v =
        hub-Serves owner tenant u a _ v (record {
          sends =
              by-SendsTo owner (asks_dir world.local world.env.now ws u r dev path) u a.hub refl o
                v.owned;
          owned =
              step-IsOwned owner (asks_dir world.local world.env.now ws u r dev path) a.hub o
                v.owned;
        })
    message-Serves (ClientMessage.enable_codex_on_device dev mode) a v =
        hub-Serves owner tenant u a _ v (record {
          sends =
              by-SendsTo owner (asks_codex world.env.now ws u dev mode world.new_id) u a.hub refl o
                v.owned;
          owned =
              step-IsOwned owner (asks_codex world.env.now ws u dev mode world.new_id) a.hub o
                v.owned;
        })
