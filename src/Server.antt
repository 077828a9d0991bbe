-- ===== src/Server.antt =====
-- server/index.ts: the state behind a browser's connection, and how the callbacks of a session reach
-- the browsers of its user. A method of a session is run with no effects before it; those that it
-- has are then published, and kept with the others.
pub mod Messages
pub mod Opening
pub mod System
pub mod Held
pub mod Holding
pub mod Sending
pub mod Serving
pub mod Hearing
pub mod Tenants
pub mod TenantTests
pub mod Isolation
pub mod Tests
use agent_web_mvp.Prelude.{
  ℕ, String, Bool, true, false, List, [], ◌∷◌, ◌++◌, Option, none, some, if◌then◌else◌, ◌==◌, ◌<>◌,
  or_else, truthy,
}
use agent_web_mvp.Prelude.JsMap.{JsMap, get, set}
use agent_web_mvp.Types.{SessionMeta, ServerMessage}
use agent_web_mvp.Devices.{Device, Registry, get_device}
use agent_web_mvp.Db.{Db, find_device_label_by_id}
use agent_web_mvp.Hub.{Hub, tell, broadcast_to_user}
use agent_web_mvp.RateLimit.{TokenBucket}
use agent_web_mvp.Session.State.{
  Effect, meta_changed, message_added, permission_requested, permission_resolved, error_raised,
  auth_required, Session, meta,
}
use agent_web_mvp.Session.Store.{SessionStore, get_for_user}

pub record Server (R K : Type 0) : Type 0 where
  pub hub : Hub
  pub store : SessionStore R K
  pub buckets : JsMap TokenBucket
  pub tokens : Db

abbrev pub label_of : Option Device → Option (Option String) → Option String
label_of (some live) row = some (or_else live.display_name live.hostname)
label_of none none = none
label_of none (some label) = label

unfoldable pub pinned_device_label : Registry → Db → Option String → Option String
pinned_device_label registry tokens device_id = elim (truthy device_id) [
  | none ↦ none
  | some id ↦ label_of (get_device registry id) (find_device_label_by_id id tokens)
]

unfoldable pub with_device : Hub → Db → SessionMeta → SessionMeta
unfolding pinned_device_label
with_device hub tokens m = record m {
  preferred_device_label = pinned_device_label hub.registry tokens m.preferred_device_id;
}

module _ {K : Type 0} where
  -- The callbacks that SessionStore is given. A write to the database goes to no browser.
  unfoldable pub publish : (user_id : String) → Db → Effect K → Hub → Hub
  unfolding with_device
  publish user_id tokens (meta_changed m) hub =
      broadcast_to_user user_id (ServerMessage.session_updated (with_device hub tokens m)) hub
  publish user_id tokens (message_added m) hub =
      broadcast_to_user user_id (ServerMessage.message m) hub
  publish user_id tokens (permission_requested r) hub =
      broadcast_to_user user_id (ServerMessage.permission_request r) hub
  publish user_id tokens (permission_resolved session_id request_id) hub =
      broadcast_to_user user_id (ServerMessage.permission_resolved session_id request_id) hub
  publish user_id tokens (error_raised session_id error) hub =
      broadcast_to_user user_id (ServerMessage.error (some session_id) error) hub
  publish user_id tokens (auth_required session_id info) hub =
      broadcast_to_user user_id (ServerMessage.auth_required session_id info) hub
  publish user_id tokens _ hub = hub

  unfoldable pub publish_all : (user_id : String) → Db → List (Effect K) → Hub → Hub
  unfolding publish
  publish_all user_id tokens [] hub = hub
  publish_all user_id tokens (e ∷ es) hub =
      publish_all user_id tokens es (publish user_id tokens e hub)

module _ {R K : Type 0} where
  abbrev pub reply : ℕ → ServerMessage → Server R K → Server R K
  reply ws msg server = record server { hub = tell ws msg server.hub }

  -- A method of the session with this id, which is `s`.
  unfoldable pub act :
      (Session R K → Session R K) → (id : String) → Session R K → Server R K → Server R K
  act f id s server =
      let after = f (record s { effects = [] }) in
      record server {
        hub = publish_all s.user_id server.tokens after.effects server.hub;
        store = record server.store {
          sessions =
              set id (record after { effects = s.effects ++ after.effects }) server.store.sessions;
        };
      }

  unfoldable pub must_session :
      (ws : ℕ)
      → (user_id id : String) → (Session R K → Server R K → Server R K)
      → Server R K
      → Server R K
  must_session ws user_id id k server = elim (get_for_user id user_id server.store) [
    | none ↦ reply ws (ServerMessage.error (some id) ("Unknown session: " <> id)) server
    | some s ↦ k s server
  ]
