-- ===== src/Hub/Collisions.antt =====
-- server/index.ts: two directory requests with one request id. The id comes from the browser.
use agent_web_mvp.Prelude.{ℕ, ◌+◌, String}
use agent_web_mvp.Hub.{PendingDirListing, Hub}
use agent_web_mvp.Hub.Listings.{dir_listing_ttl_ms}

abbrev pub pending_of : (now ws : ℕ) (user_id path : String) → PendingDirListing
pending_of now ws user_id path = record {
  ws = ws;
  user_id = user_id;
  path = path;
  expires_at = now + dir_listing_ttl_ms;
}
