-- ===== src/Web/Heard.antt =====
-- server/index.ts: what one of a user's browsers is sent when a session's callbacks are published.
use agent_web_mvp.Prelude.{
  ℕ, ◌≡◌, refl, sym, ap, ap₂, ◌∙◌, String, List, [], ◌∷◌, ◌++◌, none, some, map, truthy,
  append_assoc, append-nil,
}
use agent_web_mvp.Prelude.JsMap.{get}
use agent_web_mvp.Types.{SessionMeta, ServerMessage}
use agent_web_mvp.Wire.{to_browser}
use agent_web_mvp.Devices.{get_device}
use agent_web_mvp.Db.{Db, find_device_label_by_id}
use agent_web_mvp.Hub.{Hub, broadcast_to_user}
use agent_web_mvp.Session.State.{
  Effect, meta_changed, message_added, permission_requested, permission_resolved, error_raised,
  auth_required,
}
use agent_web_mvp.Server.{label_of, pinned_device_label, with_device, publish, publish_all}
use agent_web_mvp.Hub.Subscribed.{
  received, frames_of, IsSubscribed, Same, heard-broadcast, broadcast-IsSubscribed, broadcast-Same,
}

-- The messages for the browsers, one for each callback.
abbrev pub told : {K : Type 0} → Hub → Db → List (Effect K) → List ServerMessage
told hub tokens [] = []
told hub tokens (meta_changed m ∷ es) =
    ServerMessage.session_updated (with_device hub tokens m) ∷ told hub tokens es
told hub tokens (message_added m ∷ es) = ServerMessage.message m ∷ told hub tokens es
told hub tokens (permission_requested r ∷ es) =
    ServerMessage.permission_request r ∷ told hub tokens es
told hub tokens (permission_resolved s r ∷ es) =
    ServerMessage.permission_resolved s r ∷ told hub tokens es
told hub tokens (error_raised s error ∷ es) =
    ServerMessage.error (some s) error ∷ told hub tokens es
told hub tokens (auth_required s info ∷ es) =
    ServerMessage.auth_required s info ∷ told hub tokens es
told hub tokens (_ ∷ es) = told hub tokens es

with_device-Same :
    (h k : Hub) (tokens : Db) (m : SessionMeta)
    → Same h k
    → with_device k tokens m ≡ with_device h tokens m
unfolding with_device pinned_device_label get_device
with_device-Same h k tokens m v =
    ap
      (λ ds. record m {
        preferred_device_label = elim (truthy m.preferred_device_id) [
          | none ↦ none
          | some id ↦ label_of (get id ds) (find_device_label_by_id id tokens)
        ];
      })
      v.devices

told-Same :
    {K : Type 0} (h k : Hub) (tokens : Db) (es : List (Effect K))
    → Same h k
    → told k tokens es ≡ told h tokens es
told-Same h k tokens [] v = refl
told-Same h k tokens (meta_changed m ∷ es) v =
    ap₂ (λ x y. ServerMessage.session_updated x ∷ y) (with_device-Same h k tokens m v)
      (told-Same h k tokens es v)
told-Same h k tokens (message_added m ∷ es) v =
    ap (◌∷◌ (ServerMessage.message m)) (told-Same h k tokens es v)
told-Same h k tokens (permission_requested r ∷ es) v =
    ap (◌∷◌ (ServerMessage.permission_request r)) (told-Same h k tokens es v)
told-Same h k tokens (permission_resolved s r ∷ es) v =
    ap (◌∷◌ (ServerMessage.permission_resolved s r)) (told-Same h k tokens es v)
told-Same h k tokens (error_raised s error ∷ es) v =
    ap (◌∷◌ (ServerMessage.error (some s) error)) (told-Same h k tokens es v)
told-Same h k tokens (auth_required s info ∷ es) v =
    ap (◌∷◌ (ServerMessage.auth_required s info)) (told-Same h k tokens es v)
told-Same h k tokens (_ ∷ es) v = told-Same h k tokens es v

heard_next :
    {K : Type 0} (ws : ℕ) (user_id : String) (tokens : Db) (m : ServerMessage)
    (es : List (Effect K)) (hub : Hub)
    → IsSubscribed ws user_id hub
    → (frames_of ws (publish_all user_id tokens es (broadcast_to_user user_id m hub))
        ≡ frames_of ws (broadcast_to_user user_id m hub)
          ++ map to_browser (told (broadcast_to_user user_id m hub) tokens es))
    → frames_of ws (publish_all user_id tokens es (broadcast_to_user user_id m hub))
      ≡ frames_of ws hub ++ to_browser m ∷ map to_browser (told hub tokens es)
heard_next ws u tokens m es hub v ih =
    ih
    ∙ ap (λ l. l ++ map to_browser (told (broadcast_to_user u m hub) tokens es))
        (heard-broadcast ws u m hub v)
    ∙ append_assoc (frames_of ws hub) (to_browser m ∷ []) _
    ∙ ap (λ l. frames_of ws hub ++ to_browser m ∷ map to_browser l)
        (told-Same hub (broadcast_to_user u m hub) tokens es (broadcast-Same u m hub))

-- A browser of the user is sent one frame for each callback, in their order.
pub heard-publish_all :
    {K : Type 0} (ws : ℕ) (user_id : String) (tokens : Db) (es : List (Effect K)) (hub : Hub)
    → IsSubscribed ws user_id hub
    → received ws (publish_all user_id tokens es hub).registry.net.frames
      ≡ received ws hub.registry.net.frames ++ map to_browser (told hub tokens es)
unfolding publish_all publish
heard-publish_all ws u tokens [] hub v = sym (append-nil (frames_of ws hub))
heard-publish_all ws u tokens (meta_changed m ∷ es) hub v =
    let m' = ServerMessage.session_updated (with_device hub tokens m) in
    heard_next ws u tokens m' es hub v
      (heard-publish_all ws u tokens es _ (broadcast-IsSubscribed ws u m' hub v))
heard-publish_all ws u tokens (message_added m ∷ es) hub v =
    let m' = ServerMessage.message m in
    heard_next ws u tokens m' es hub v
      (heard-publish_all ws u tokens es _ (broadcast-IsSubscribed ws u m' hub v))
heard-publish_all ws u tokens (permission_requested r ∷ es) hub v =
    let m' = ServerMessage.permission_request r in
    heard_next ws u tokens m' es hub v
      (heard-publish_all ws u tokens es _ (broadcast-IsSubscribed ws u m' hub v))
heard-publish_all ws u tokens (permission_resolved s r ∷ es) hub v =
    let m' = ServerMessage.permission_resolved s r in
    heard_next ws u tokens m' es hub v
      (heard-publish_all ws u tokens es _ (broadcast-IsSubscribed ws u m' hub v))
heard-publish_all ws u tokens (error_raised s error ∷ es) hub v =
    let m' = ServerMessage.error (some s) error in
    heard_next ws u tokens m' es hub v
      (heard-publish_all ws u tokens es _ (broadcast-IsSubscribed ws u m' hub v))
heard-publish_all ws u tokens (auth_required s info ∷ es) hub v =
    let m' = ServerMessage.auth_required s info in
    heard_next ws u tokens m' es hub v
      (heard-publish_all ws u tokens es _ (broadcast-IsSubscribed ws u m' hub v))
heard-publish_all ws u tokens (_ ∷ es) hub v = heard-publish_all ws u tokens es hub v

pub publish_all-IsSubscribed :
    {K : Type 0} (ws : ℕ) (user_id : String) (tokens : Db) (es : List (Effect K)) (hub : Hub)
    → IsSubscribed ws user_id hub
    → IsSubscribed ws user_id (publish_all user_id tokens es hub)
unfolding publish_all publish
publish_all-IsSubscribed ws u tokens [] hub v = v
publish_all-IsSubscribed ws u tokens (meta_changed m ∷ es) hub v =
    publish_all-IsSubscribed ws u tokens es _ (broadcast-IsSubscribed ws u _ hub v)
publish_all-IsSubscribed ws u tokens (message_added m ∷ es) hub v =
    publish_all-IsSubscribed ws u tokens es _ (broadcast-IsSubscribed ws u _ hub v)
publish_all-IsSubscribed ws u tokens (permission_requested r ∷ es) hub v =
    publish_all-IsSubscribed ws u tokens es _ (broadcast-IsSubscribed ws u _ hub v)
publish_all-IsSubscribed ws u tokens (permission_resolved s r ∷ es) hub v =
    publish_all-IsSubscribed ws u tokens es _ (broadcast-IsSubscribed ws u _ hub v)
publish_all-IsSubscribed ws u tokens (error_raised s error ∷ es) hub v =
    publish_all-IsSubscribed ws u tokens es _ (broadcast-IsSubscribed ws u _ hub v)
publish_all-IsSubscribed ws u tokens (auth_required s info ∷ es) hub v =
    publish_all-IsSubscribed ws u tokens es _ (broadcast-IsSubscribed ws u _ hub v)
publish_all-IsSubscribed ws u tokens (_ ∷ es) hub v = publish_all-IsSubscribed ws u tokens es hub v
