-- ===== src/Server/Sending.antt =====
-- server/index.ts: what the handlers of browsers and daemons send, and to whose browsers.
use agent_web_mvp.Prelude.{
  ℕ, ◌≡◌, refl, sym, subst, String, List, [], ◌∷◌, ◌++◌, Option, none, some, arith, All,
  Option-cases, inl, inr, or_else, eq_iff,
}
use agent_web_mvp.Prelude.JsMap.{get, All-set, All-get}
use agent_web_mvp.Types.{ServerMessage}
use agent_web_mvp.Db.{Db}
use agent_web_mvp.Hub.{Hub, tell, broadcast_to_user}
use agent_web_mvp.Hub.Owned.{IsOwned, IsOwn-sockets, tell-IsOwned, tell_all-IsOwned}
use agent_web_mvp.Hub.Frames.{frames, SendsTo, none_new, both, tell-SendsTo, tell_all-SendsTo}
use agent_web_mvp.Agents.Remote.{Remote}
use agent_web_mvp.Agents.Remote.Events.{Ticket}
use agent_web_mvp.Session.State.{
  Effect, meta_changed, message_added, permission_requested, permission_resolved, error_raised,
  auth_required, insert_agent_message, update_resume_token, settle, Session,
}
use agent_web_mvp.Session.Store.{get_for_user, owned}
use agent_web_mvp.Server.{Server, publish, publish_all, reply, act, must_session}
use agent_web_mvp.Server.Opening.{tell_list}
use agent_web_mvp.Server.Held.{IsHeld}

-- `owner` is the user whose cookie opened a browser's socket, `tenant` the one to whom a device's token
-- was given.
module _ (owner : ℕ → String) (tenant : String → String) where
  -- Frames for one user's browsers, and the sockets stay with their users.
  pub record Tells (u : String) (a b : Hub) : Type 0 where
    pub sends : SendsTo owner u a b
    pub owned : IsOwned owner b

  pub record IsSafe (server : Server Remote Ticket) : Type 0 where
    pub owned : IsOwned owner server.hub
    pub held : All (λ e. IsHeld tenant e.1.user_id e.1) server.store.sessions

  pub record Serves (u : String) (a b : Server Remote Ticket) : Type 0 where
    pub sends : SendsTo owner u a.hub b.hub
    pub safe : IsSafe b

  module _ (u : String) where
    pub Tells-refl : (a : Hub) → IsOwned owner a → Tells u a a
    Tells-refl a v = record { sends = none_new owner u (frames a) (frames a) refl; owned = v }

    pub Tells-both : (a b c : Hub) → Tells u a b → Tells u b c → Tells u a c
    Tells-both a b c g h = record {
      sends = both owner u (frames a) (frames b) (frames c) g.sends h.sends;
      owned = h.owned;
    }

    pub tell-Tells :
        (ws : ℕ) (msg : ServerMessage) (a : Hub)
        → owner ws ≡ u
        → IsOwned owner a
        → Tells u a (tell ws msg a)
    tell-Tells ws msg a o v = record {
      sends = tell-SendsTo owner u ws msg a o;
      owned = tell-IsOwned owner ws msg a v;
    }

    pub tell_list-Tells :
        (ws : ℕ) (ms : List ServerMessage) (a : Hub)
        → owner ws ≡ u
        → IsOwned owner a
        → Tells u a (tell_list ws ms a)
    unfolding tell_list
    tell_list-Tells ws [] a o v = Tells-refl a v
    tell_list-Tells ws (m ∷ ms) a o v =
        let t = tell-Tells ws m a o v in
        Tells-both a (tell ws m a) _ t (tell_list-Tells ws ms (tell ws m a) o t.owned)

    pub broadcast-Tells :
        (msg : ServerMessage) (a : Hub) → IsOwned owner a → Tells u a (broadcast_to_user u msg a)
    unfolding broadcast_to_user
    broadcast-Tells msg a v = record {
      sends =
          tell_all-SendsTo owner u (or_else (get u a.browsers) []) msg a
            (IsOwn-sockets owner u a v);
      owned = tell_all-IsOwned owner (or_else (get u a.browsers) []) msg a v;
    }

    publish-Tells :
        (db : Db) (e : Effect Ticket) (a : Hub) → IsOwned owner a → Tells u a (publish u db e a)
    unfolding publish
    publish-Tells db (meta_changed m) a v = broadcast-Tells _ a v
    publish-Tells db (message_added m) a v = broadcast-Tells _ a v
    publish-Tells db (permission_requested r) a v = broadcast-Tells _ a v
    publish-Tells db (permission_resolved s r) a v = broadcast-Tells _ a v
    publish-Tells db (error_raised s e) a v = broadcast-Tells _ a v
    publish-Tells db (auth_required s i) a v = broadcast-Tells _ a v
    publish-Tells db (insert_agent_message m) a v = Tells-refl a v
    publish-Tells db (update_resume_token t i) a v = Tells-refl a v
    publish-Tells db (settle k b) a v = Tells-refl a v

    pub publish_all-Tells :
        (db : Db) (es : List (Effect Ticket)) (a : Hub)
        → IsOwned owner a
        → Tells u a (publish_all u db es a)
    unfolding publish_all
    publish_all-Tells db [] a v = Tells-refl a v
    publish_all-Tells db (e ∷ es) a v =
        let t = publish-Tells db e a v in
        Tells-both a (publish u db e a) _ t (publish_all-Tells db es (publish u db e a) t.owned)

    -- The session's user is this one.
    pub told-Tells :
        (w : String) (db : Db) (es : List (Effect Ticket)) (a : Hub)
        → w ≡ u
        → IsOwned owner a
        → Tells u a (publish_all w db es a)
    told-Tells w db es a e v = rw e (publish_all-Tells db es a v)

    pub Serves-refl : (a : Server Remote Ticket) → IsSafe a → Serves u a a
    Serves-refl a v = record {
      sends = none_new owner u (frames a.hub) (frames a.hub) refl;
      safe = v;
    }

    pub Serves-both : (a b c : Server Remote Ticket) → Serves u a b → Serves u b c → Serves u a c
    Serves-both a b c g h = record {
      sends = both owner u (frames a.hub) (frames b.hub) (frames c.hub) g.sends h.sends;
      safe = h.safe;
    }

    -- The hub alone changes.
    pub hub-Serves :
        (a : Server Remote Ticket) (hub : Hub)
        → IsSafe a
        → Tells u a.hub hub
        → Serves u a (record a { hub = hub })
    hub-Serves a hub v t = record {
      sends = t.sends;
      safe = record { owned = t.owned; held = v.held };
    }

    pub reply-Serves :
        (ws : ℕ) (msg : ServerMessage) (a : Server Remote Ticket)
        → owner ws ≡ u
        → IsSafe a
        → Serves u a (reply ws msg a)
    reply-Serves ws msg a o v =
        hub-Serves a (tell ws msg a.hub) v (tell-Tells ws msg a.hub o v.owned)

    pub own-IsHeld : (s : Session Remote Ticket) → IsHeld tenant u s → IsHeld tenant s.user_id s
    own-IsHeld s h = subst (λ w. IsHeld tenant w s) (sym h.user_id) h

    -- A method that keeps the session's run on a device of its user.
    pub act-Serves :
        (f : Session Remote Ticket → Session Remote Ticket) (id : String)
        (s : Session Remote Ticket) (a : Server Remote Ticket)
        → ((t : Session Remote Ticket) → IsHeld tenant u t → IsHeld tenant u (f t))
        → IsHeld tenant u s
        → IsSafe a
        → Serves u a (act f id s a)
    unfolding act
    act-Serves f id s a k h v =
        let after = f (record s { effects = [] }) in
        let h' =
          k (record s { effects = [] }) (record { user_id = h.user_id; runner = h.runner }) in
        let kept = record after { effects = s.effects ++ after.effects } in
        let t = told-Tells s.user_id a.tokens after.effects a.hub h.user_id v.owned in
        record {
          sends = t.sends;
          safe = record {
            owned = t.owned;
            held =
                All-set _ id kept a.store.sessions v.held
                  (own-IsHeld kept (record { user_id = h'.user_id; runner = h'.runner }));
          };
        }

    -- A method that does nothing.
    pub quiet-Serves :
        (f : Session Remote Ticket → Session Remote Ticket) (id : String)
        (s : Session Remote Ticket) (a : Server Remote Ticket)
        → f (record s { effects = [] }) ≡ record s { effects = [] }
        → IsHeld tenant s.user_id s
        → IsSafe a
        → Serves u a (act f id s a)
    unfolding act publish_all
    quiet-Serves f id s a e h v = rw e (record {
      sends = none_new owner u (frames a.hub) (frames a.hub) refl;
      safe = record {
        owned = v.owned;
        held =
            All-set _ id (record s { effects = s.effects ++ [] }) a.store.sessions v.held
              (record { user_id = refl; runner = h.runner });
      };
    })

    found_held :
        (id : String) (o : Option (Session Remote Ticket)) (s : Session Remote Ticket)
        → owned u o ≡ some s
        → (o ≡ some s) × (s.user_id ≡ u)
    found_held id none s e = cc
    found_held id (some t) s e = ground (arith, eq_iff t.user_id u)

    pub get-IsHeld :
        (id : String) (s : Session Remote Ticket) (a : Server Remote Ticket)
        → IsSafe a
        → get_for_user id u a.store ≡ some s
        → IsHeld tenant u s
    unfolding get_for_user
    get-IsHeld id s a v e =
        let (f, own) = found_held id (get id a.store.sessions) s e in
        subst (λ w. IsHeld tenant w s) own (All-get _ id s a.store.sessions v.held f)

    pub must-Serves :
        (ws : ℕ) (id : String)
        (k : Session Remote Ticket → Server Remote Ticket → Server Remote Ticket)
        (a : Server Remote Ticket)
        → owner ws ≡ u
        → IsSafe a
        → ((s : Session Remote Ticket) → IsHeld tenant u s → Serves u a (k s a))
        → Serves u a (must_session ws u id k a)
    unfolding must_session
    must-Serves ws id k a o v f = elim (Option-cases (get_for_user id u a.store)) [
      | inl e ↦ rw (e, must_session) (reply-Serves ws _ a o v)
      | inr (s, e) ↦ rw (e, must_session) (f s (get-IsHeld id s a v e))
    ]
