-- ===== src/Session/Restart.antt =====
-- server/sessions.ts: what a restart of the server brings back.
use agent_web_mvp.Prelude.{
  ◌<◌, ◌≡◌, refl, sym, ap, ap₂, map, truthy, ◌∙◌, String, Bool, true, false, ◌&&◌, ◌||◌, List, [],
  ◌∷◌, Option, none, some, arith, if◌then◌else◌, ◌==◌, eq_iff, All, Bool-cases, inl, inr, any, keep,
}
use agent_web_mvp.Prelude.JsMap.{JsMap, get, set, get-set}
use agent_web_mvp.Types.{ChatMessage, idle}
use agent_web_mvp.Types.Values.{Json}
use agent_web_mvp.Db.{first}
use agent_web_mvp.Db.Sessions.{
  AgentSessionRow, AgentMessageRow, SessionTables, insert_by, sort_by, text_le, message_le,
  list_agent_sessions, list_agent_messages_by_session,
}
use agent_web_mvp.Session.State.{Session, SessionOptions, agent_name, construct}
use agent_web_mvp.Session.Title.{title_of}
use agent_web_mvp.Session.Store.{
  SessionStore, options_of, message_row, meta_text, message_of, parse_meta, restore, add_rows,
  rehydrate,
}

-- The rows of a session's messages, in the order in which they were inserted.
abbrev pub messages_of : String → SessionTables → List AgentMessageRow
messages_of id db = keep (λ m. m.session_id == id) db.agent_messages

-- Each message is later than the one before it.
abbrev pub IsSpaced : List ChatMessage → Type 0
IsSpaced [] = Unit {0}
IsSpaced (a ∷ []) = Unit {0}
IsSpaced (a ∷ b ∷ ms) = (a.ts < b.ts) × IsSpaced (b ∷ ms)

module _ (json_stringify : Json → String) where
  sort-spaced :
      (ms : List ChatMessage)
      → IsSpaced ms
      → sort_by message_le (map (message_row json_stringify) ms)
        ≡ map (message_row json_stringify) ms
  unfolding message_le message_row
  sort-spaced [] h = refl
  sort-spaced (a ∷ []) h = refl
  sort-spaced (a ∷ b ∷ ms) (l, h) =
      ap (insert_by message_le (message_row json_stringify a)) (sort-spaced (b ∷ ms) h)
      ∙ ground arith

  module _ (json_parse : String → Option Json) where
    -- JSON.parse reads back what JSON.stringify writes for this meta, which is not empty.
    abbrev pub IsKept : Option Json → Type 0
    IsKept none = Unit {0}
    IsKept (some v) = (json_parse (json_stringify v) ≡ some v) × ((json_stringify v == "") ≡ false)

    meta-back :
        (o : Option Json)
        → IsKept o
        → parse_meta json_parse (truthy (meta_text json_stringify o)) ≡ o
    meta-back none k = refl
    meta-back (some v) (p, n) = rw n p

    message-back :
        (m : ChatMessage) → IsKept m.meta → message_of json_parse (message_row json_stringify m) ≡ m
    unfolding message_of message_row
    message-back m k = ap (λ o. record m { meta = o }) (meta-back m.meta k)

    messages-back :
        (ms : List ChatMessage)
        → All (λ m. IsKept m.meta) ms
        → map (message_of json_parse) (map (message_row json_stringify) ms) ≡ ms
    messages-back [] ks = refl
    messages-back (m ∷ ms) (k, ks) = ap₂ (◌∷◌) (message-back m k) (messages-back ms ks)

-- The rows have distinct ids.
abbrev pub IsKeyed : List AgentSessionRow → Type 0
IsKeyed [] = Unit {0}
IsKeyed (r ∷ rs) = (any (λ q. q.id == r.id) rs ≡ false) × IsKeyed rs

module _ (le : AgentSessionRow → AgentSessionRow → Bool) where
  any-insert_by :
      (p : AgentSessionRow → Bool) (x : AgentSessionRow) (rs : List AgentSessionRow)
      → any p (insert_by le x rs) ≡ (p x || any p rs)
  any-insert_by p x [] = refl
  any-insert_by p x (r ∷ rs) = ground (arith, any-insert_by p x rs)

  any-sort_by :
      (p : AgentSessionRow → Bool) (rs : List AgentSessionRow) → any p (sort_by le rs) ≡ any p rs
  any-sort_by p [] = refl
  any-sort_by p (r ∷ rs) = any-insert_by p r (sort_by le rs) ∙ ap (λ b. p r || b) (any-sort_by p rs)

  insert_by-IsKeyed :
      (x : AgentSessionRow) (rs : List AgentSessionRow)
      → any (λ q. q.id == x.id) rs ≡ false
      → IsKeyed rs
      → IsKeyed (insert_by le x rs)
  insert_by-IsKeyed x [] h k = (refl, tt)
  insert_by-IsKeyed x (r ∷ rs) h (a, k) = ground (
    arith,
    insert_by-IsKeyed x rs,
    any-insert_by (λ q. q.id == r.id) x rs,
    eq_iff x.id r.id,
    eq_iff r.id x.id,
  )

  sort_by-IsKeyed : (rs : List AgentSessionRow) → IsKeyed rs → IsKeyed (sort_by le rs)
  sort_by-IsKeyed [] k = tt
  sort_by-IsKeyed (r ∷ rs) (a, k) =
      insert_by-IsKeyed r (sort_by le rs) (any-sort_by (λ q. q.id == r.id) rs ∙ a)
        (sort_by-IsKeyed rs k)

  first-insert_by :
      (p : AgentSessionRow → Bool) (x : AgentSessionRow) (rs : List AgentSessionRow)
      → (p x && any p rs) ≡ false
      → first p (insert_by le x rs) ≡ (if p x then some x else first p rs)
  unfolding first
  first-insert_by p x [] h = refl
  first-insert_by p x (r ∷ rs) h = ground (arith, first-insert_by p x rs)

module _ {R K : Type 0} (runner : SessionOptions → R) (json_parse : String → Option Json)
    (db : SessionTables) where
  add_rows-absent :
      (j : String) (rs : List AgentSessionRow) (m : JsMap (Session R K))
      → any (λ q. q.id == j) rs ≡ false
      → get j (add_rows runner json_parse db rs m) ≡ get j m
  unfolding add_rows
  add_rows-absent j [] m h = refl
  add_rows-absent j (r ∷ rs) m h = ground (
    arith,
    add_rows-absent j rs (set r.id (restore runner json_parse db r) m),
    get-set r.id j (restore {K = K} runner json_parse db r) m,
  )

same_key :
    (x : AgentSessionRow) (id : String) (rs : List AgentSessionRow)
    → any (λ q. q.id == x.id) rs ≡ false
    → ((x.id == id) && any (λ q. q.id == id) rs) ≡ false
same_key x id rs h = elim (Bool-cases (x.id == id)) [
  | inl e ↦ rw e (ap (λ k. any (λ q. q.id == k) rs) (sym ((eq_iff x.id id).0 e)) ∙ h)
  | inr e ↦ rw e refl
]

first-sort_by :
    (le : AgentSessionRow → AgentSessionRow → Bool) (id : String) (rs : List AgentSessionRow)
    → IsKeyed rs
    → first (λ q. q.id == id) (sort_by le rs) ≡ first (λ q. q.id == id) rs
unfolding first
first-sort_by le id [] k = refl
first-sort_by le id (r ∷ rs) (a, k) =
    first-insert_by le (λ q. q.id == id) r (sort_by le rs)
      (ap (λ b. (r.id == id) && b) (any-sort_by le (λ q. q.id == id) rs) ∙ same_key r id rs a)
    ∙ ap (λ o. if r.id == id then some r else o) (first-sort_by le id rs k)

module _ (p : AgentSessionRow → Bool) (r row : AgentSessionRow) (rs : List AgentSessionRow)
    (h : first p (r ∷ rs) ≡ some row) where
  found_here : p r ≡ true → r ≡ row
  unfolding first
  found_here e = ground (arith, h)

  found_later : p r ≡ false → first p rs ≡ some row
  unfolding first
  found_later e = ground (arith, h)

module _ {R K : Type 0} (runner : SessionOptions → R) (json_parse : String → Option Json)
    (db : SessionTables) where
  add_rows-found :
      (id : String) (row : AgentSessionRow) (rs : List AgentSessionRow) (m : JsMap (Session R K))
      → IsKeyed rs
      → first (λ q. q.id == id) rs ≡ some row
      → get id (add_rows runner json_parse db rs m) ≡ some (restore runner json_parse db row)
  unfolding first add_rows
  add_rows-found id row [] m k h = cc
  add_rows-found id row (r ∷ rs) m (a, k) h = elim (Bool-cases (r.id == id)) [
    | inl e ↦
        let absent = ap (λ k. any (λ q. q.id == k) rs) (sym ((eq_iff r.id id).0 e)) ∙ a in
        add_rows-absent runner json_parse db id rs (set r.id (restore runner json_parse db r) m)
          absent
        ∙ get-set r.id id (restore runner json_parse db r) m
        ∙ rw e (
            ap (λ q. some (restore runner json_parse db q))
              (found_here (λ q. q.id == id) r row rs h e))
    | inr e ↦
        add_rows-found id row rs (set r.id (restore runner json_parse db r) m) k
          (found_later (λ q. q.id == id) r row rs h e)
  ]

-- After a restart, a session whose row is in the database is there again under its id, idle and with
-- nothing queued: with the owner, the agent, the directory, the time, the pin, the model and the
-- resume token of its row, with the row's title, trimmed, or the default title where that is blank,
-- and with the messages that were inserted for it, their meta included, in the order of insertion. It
-- holds where the ids of the rows are distinct, each message of the session is later, by the clock,
-- than the one before, and JSON.parse reads back what JSON.stringify wrote for each message's meta,
-- which is not empty.
pub rehydrate_restores :
    {R K : Type 0} (json_stringify : Json → String) (json_parse : String → Option Json)
    (runner : SessionOptions → R) (store : SessionStore R K) (id : String) (row : AgentSessionRow)
    (ms : List ChatMessage)
    → All (λ m. IsKept json_stringify json_parse m.meta) ms
    → IsKeyed store.db.agent_sessions
    → first (λ q. q.id == id) store.db.agent_sessions ≡ some row
    → messages_of row.id store.db ≡ map (message_row json_stringify) ms
    → IsSpaced ms
    → (s : Session R K) × (get id (rehydrate runner json_parse store).sessions ≡ some s)
      × (s.history ≡ ms)
      × (s.title ≡ title_of (some row.title) (agent_name row.agent) row.cwd)
      × (s.resume_token ≡ row.resume_token)
      × (s.user_id ≡ row.user_id)
      × (s.agent ≡ row.agent)
      × (s.cwd ≡ row.cwd)
      × (s.created_at ≡ row.created_at)
      × (s.preferred_device_id ≡ row.preferred_device_id)
      × (s.model ≡ row.model)
      × (s.status ≡ idle)
      × (s.busy ≡ false)
      × (s.queue ≡ [])
unfolding rehydrate restore options_of construct list_agent_sessions list_agent_messages_by_session
rehydrate_restores json_stringify json_parse runner store id row ms j k h e sp = (
  restore runner json_parse store.db row,
  add_rows-found runner json_parse store.db id row (list_agent_sessions store.db) store.sessions
      (sort_by-IsKeyed _ store.db.agent_sessions k)
      (first-sort_by _ id store.db.agent_sessions k ∙ h),
  ap (λ rows. map (message_of json_parse) (sort_by message_le rows)) e
      ∙ ap (map (message_of json_parse)) (sort-spaced json_stringify ms sp)
      ∙ messages-back json_stringify json_parse ms j,
  refl,
  refl,
  refl,
  refl,
  refl,
  refl,
  refl,
  refl,
  refl,
  refl,
  refl,
)

-- The bug of messages of one millisecond: the clock does not tell them apart, and the restart puts
-- them in the order of their random ids. Where the id of the later one is the smaller, the two change
-- places.
same_time_swapped :
    (a b : AgentMessageRow) (id : String) (db : SessionTables)
    → messages_of id db ≡ a ∷ b ∷ []
    → a.ts ≡ b.ts
    → text_le a.id b.id ≡ false
    → list_agent_messages_by_session id db ≡ b ∷ a ∷ []
unfolding list_agent_messages_by_session message_le
same_time_swapped a b id db e t c = ap (sort_by message_le) e ∙ ground (arith, c)
