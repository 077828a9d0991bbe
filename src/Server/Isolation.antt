-- ===== src/Server/Isolation.antt =====
-- server/index.ts: what a browser's message may do to the sessions of other users.
use agent_web_mvp.Prelude.{
  ℕ, suc, ◌≡◌, refl, sym, ap, ◌∙◌, String, Bool, false, not, ◌&&◌, ◌||◌, List, [], ◌∷◌, Option,
  none, some, arith, ◌==◌, eq_iff, Bool-cases, Option-cases, inl, inr, any, or_else,
}
use agent_web_mvp.Prelude.JsMap.{JsMap, get, get-set, get-remove}
use agent_web_mvp.Prelude.JsMap.Distinct.{IsMap}
use agent_web_mvp.Types.{
  AgentKind, ClientMessage, list_sessions, create_session, send_prompt, retry_last,
  permission_response, cancel_all, delete_session,
}
use agent_web_mvp.Db.Sessions.{SessionTables, insert_by, sort_by, insert_agent_session}
use agent_web_mvp.Devices
use agent_web_mvp.RateLimit.{check_prompt_rate}
use agent_web_mvp.Session.State.{Session, SessionOptions, construct, resolve_permission}
use agent_web_mvp.Session.Operations.{enqueue_prompt, retry_last_user_prompt, cancel}
use agent_web_mvp.Session.Store.{committed, create, delete, get_for_user, owned, row_of}
use agent_web_mvp.Server.{Server, act, must_session}
use agent_web_mvp.Server.Messages.{
  World, new_options, is_codex, is_none, is_known_pin, limited, retry_with, created, create_with,
  create_session_for, by_age, cancel_each, deleted, delete_owned, handle_client_message,
}

module _ {A : Type 0} (le : A → A → Bool) (p : A → Bool) where
  any-insert_by : (x : A) (xs : List A) → any p (insert_by le x xs) ≡ (p x || any p xs)
  any-insert_by x [] = refl
  any-insert_by x (y ∷ ys) = ground (arith, any-insert_by x ys)

  any-sort_by : (xs : List A) → any p (sort_by le xs) ≡ any p xs
  any-sort_by [] = refl
  any-sort_by (x ∷ xs) = any-insert_by x (sort_by le xs) ∙ ap (λ b. p x || b) (any-sort_by xs)

module _ {R K : Type 0} (j : String) (t : Session R K) where
  -- The session `t` is in the store as it was.
  abbrev Keeps : Server R K → Type 0
  Keeps server = get j server.store.sessions ≡ some t

  act-Keeps :
      (f : Session R K → Session R K) (id : String) (s : Session R K) (server : Server R K)
      → (id == j) ≡ false
      → Keeps server
      → Keeps (act f id s server)
  unfolding act
  act-Keeps f id s server n h = get-set id j _ server.store.sessions ∙ rw n h

  other_key :
      (id user_id : String) (s : Session R K) (server : Server R K)
      → (t.user_id == user_id) ≡ false
      → Keeps server
      → get_for_user id user_id server.store ≡ some s
      → (id == j) ≡ false
  unfolding get_for_user
  other_key id user_id s server n h e = elim (Bool-cases (id == j)) [
    | inl c ↦ absurd (
        ground (
          arith,
          sym (ap (owned user_id) (ap (λ k. get k server.store.sessions) ((eq_iff id j).0 c) ∙ h))
              ∙ e,
        ))
    | inr c ↦ c
  ]

  must-Keeps :
      (ws : ℕ) (user_id id : String) (k : Session R K → Server R K → Server R K)
      (server : Server R K)
      → (t.user_id == user_id) ≡ false
      → Keeps server
      → ((s : Session R K) → (id == j) ≡ false → Keeps (k s server))
      → Keeps (must_session ws user_id id k server)
  unfolding must_session
  must-Keeps ws user_id id k server n h f =
      elim (Option-cases (get_for_user id user_id server.store)) [
        | inl e ↦ rw (e, must_session) h
        | inr (s, e) ↦ rw (e, must_session) (f s (other_key id user_id s server n h e))
      ]

  limited-Keeps :
      (world : World R) (ws : ℕ) (user_id id : String) (k : Server R K → Server R K)
      (server : Server R K)
      → ((b : _) → Keeps (k (record server { buckets = b })))
      → Keeps server
      → Keeps (limited world ws user_id id k server)
  unfolding limited
  limited-Keeps world ws user_id id k server f h =
      elim (Bool-cases (check_prompt_rate world.env.now user_id id server.buckets).1) [
        | inl e ↦ rw e (f _)
        | inr e ↦ rw e h
      ]

  retry-Keeps :
      (world : World R) (ws : ℕ) (id : String) (s : Session R K) (server : Server R K)
      → (id == j) ≡ false
      → Keeps server
      → Keeps (retry_with world ws id s server)
  unfolding retry_with
  retry-Keeps world ws id s server n h = elim (Bool-cases (retry_last_user_prompt world.env s).1) [
    | inl e ↦ rw e (act-Keeps _ id s server n h)
    | inr e ↦ rw e (act-Keeps _ id s server n h)
  ]

  inserted-Keeps :
      (world : World R) (ws : ℕ) (s : Session R K) (server : Server R K) (o : Option SessionTables)
      → (s.id == j) ≡ false
      → Keeps server
      → Keeps (created world ws server (committed s server.store o))
  inserted-Keeps world ws s server none n h = h
  inserted-Keeps world ws s server (some db) n h = get-set s.id j _ server.store.sessions ∙ rw n h

  create_with-Keeps :
      (world : World R) (ws : ℕ) (opts : SessionOptions) (server : Server R K)
      → opts.id ≡ none
      → (world.new_id == j) ≡ false
      → Keeps server
      → Keeps (create_with world ws opts server)
  unfolding create_with create construct
  create_with-Keeps world ws opts server e n h =
      let s = construct {R = R} {K = K} world.new_id world.env.now opts (world.make_runner opts) in
      inserted-Keeps world ws s server (insert_agent_session (row_of s) server.store.db)
        (ap (λ o. or_else o world.new_id == j) e ∙ n) h

  create-Keeps :
      (world : World R) (ws : ℕ) (user_id : String) (agent : AgentKind) (cwd : String)
      (title dev model : Option String) (server : Server R K)
      → (world.new_id == j) ≡ false
      → Keeps server
      → Keeps (create_session_for world ws user_id agent cwd title dev model server)
  unfolding create_session_for
  create-Keeps world ws user_id agent cwd title dev model server n h =
      elim (Bool-cases (is_codex agent && not world.trust_codex)) [
        | inl a ↦ rw a h
        | inr a ↦
            elim (Bool-cases (
              is_none (agent_web_mvp.Devices.list_for_user server.hub.registry user_id)
              && not (world.is_valid_cwd cwd))) [
                | inl b ↦ rw (a, b) h
                | inr b ↦ elim (Bool-cases (is_known_pin server.hub.registry user_id dev)) [
                  | inl c ↦
                      rw (a, b, c)
                        (create_with-Keeps world ws (new_options user_id agent cwd title dev model)
                          server refl n h)
                  | inr c ↦ rw (a, b, c) h
                ]
              ]
      ]

  -- No entry with this key is to be cancelled.
  abbrev spared : String → JsMap (Session R K) → Bool
  spared user_id es = any (λ e. e.0 == j && e.1.user_id == user_id) es

  cancel_each-Keeps :
      (world : World R) (user_id : String) (es : JsMap (Session R K)) (n : ℕ) (server : Server R K)
      → spared user_id es ≡ false
      → Keeps server
      → Keeps (cancel_each world user_id es n server).0
  unfolding cancel_each
  cancel_each-Keeps world user_id [] n server a h = h
  cancel_each-Keeps world user_id ((id, s) ∷ es) n server a h = ground (
    arith,
    cancel_each-Keeps world user_id es n server,
    cancel_each-Keeps world user_id es (suc n) (act (cancel world.env) id s server),
    act-Keeps (cancel world.env) id s server,
  )

  absent_spared :
      (user_id : String) (m : JsMap (Session R K)) → get j m ≡ none → spared user_id m ≡ false
  unfolding get
  absent_spared user_id [] h = refl
  absent_spared user_id ((id, s) ∷ m) h = ground (arith, absent_spared user_id m)

  all_spared :
      (user_id : String) (m : JsMap (Session R K))
      → IsMap m
      → get j m ≡ some t
      → (t.user_id == user_id) ≡ false
      → spared user_id m ≡ false
  unfolding get
  all_spared user_id [] v h n = refl
  all_spared user_id ((id, s) ∷ m) (a, v) h n = elim (Bool-cases (id == j)) [
    | inl e ↦
        ground (arith, h, absent_spared user_id m (ap (λ k. get k m) (sym ((eq_iff id j).0 e)) ∙ a))
    | inr e ↦ ground (arith, h, all_spared user_id m v)
  ]

  dropped-Keeps :
      (world : World R) (user_id id : String) (s : Session R K) (server : Server R K)
      → (id == j) ≡ false
      → Keeps server
      → Keeps (deleted world user_id id s (delete world.env id server.store) server)
  unfolding delete
  dropped-Keeps world user_id id s server n h = elim (Option-cases (get id server.store.sessions)) [
    | inl e ↦ rw (e, delete) h
    | inr (d, e) ↦ rw (e, delete) (get-remove id j server.store.sessions ∙ rw n h)
  ]

  deleted-Keeps :
      (world : World R) (user_id id : String) (o : Option (Session R K)) (server : Server R K)
      → ((s : Session R K) → o ≡ some s → (id == j) ≡ false)
      → Keeps server
      → Keeps (delete_owned world user_id id o server)
  unfolding delete_owned
  deleted-Keeps world user_id id none server f h = h
  deleted-Keeps world user_id id (some s) server f h =
      dropped-Keeps world user_id id s server (f s refl) h

  -- No message of a user, whatever it names, changes or drops a session of another user: not a prompt,
  -- a retry, an answer to a permission request, a cancellation, not `cancel_all`, no deletion. (The
  -- keys of the map are distinct, as those of a JavaScript map are, and a new session's randomUUID is
  -- not in use.)
  pub foreign_session_kept :
      (world : World R) (ws : ℕ) (user_id : String) (msg : ClientMessage) (server : Server R K)
      → IsMap server.store.sessions
      → get j server.store.sessions ≡ some t
      → (t.user_id == user_id) ≡ false
      → (world.new_id == j) ≡ false
      → get j (handle_client_message world ws user_id msg server).store.sessions ≡ some t
  unfolding handle_client_message
  foreign_session_kept world ws u list_sessions server v h n f = h
  foreign_session_kept world ws u (create_session agent cwd title dev model) server v h n f =
      create-Keeps world ws u agent cwd title dev model server f h
  foreign_session_kept world ws u (send_prompt id p) server v h n f =
      must-Keeps ws u id _ server n h (λ s d.
        limited-Keeps world ws u id _ server
          (λ b. act-Keeps (enqueue_prompt world.env p) id s (record server { buckets = b }) d h) h)
  foreign_session_kept world ws u (retry_last id) server v h n f =
      must-Keeps ws u id _ server n h (λ s d.
        limited-Keeps world ws u id _ server
          (λ b. retry-Keeps world ws id s (record server { buckets = b }) d h) h)
  foreign_session_kept world ws u (permission_response id r allow) server v h n f =
      must-Keeps ws u id _ server n h
        (λ s d. act-Keeps (resolve_permission r allow) id s server d h)
  foreign_session_kept world ws u (ClientMessage.cancel id) server v h n f =
      must-Keeps ws u id _ server n h (λ s d. act-Keeps (cancel world.env) id s server d h)
  foreign_session_kept world ws u cancel_all server v h n f =
      cancel_each-Keeps world u (by_age world server.store.sessions) 0 server
        (any-sort_by _ _ server.store.sessions ∙ all_spared u server.store.sessions v h n) h
  foreign_session_kept world ws u (delete_session id) server v h n f =
      deleted-Keeps world u id (get_for_user id u server.store) server
        (λ s e. other_key id u s server n h e) h
  foreign_session_kept world ws u (ClientMessage.list_dir r dev path) server v h n f = h
  foreign_session_kept world ws u (ClientMessage.enable_codex_on_device dev mode) server v h n f = h
