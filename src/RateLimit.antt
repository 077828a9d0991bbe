-- ===== src/RateLimit.antt =====
-- server/index.ts: the token bucket that limits the prompts of a user in a session. A token is 6000
-- units and the source's 10/60 tokens per second are one unit per millisecond, so that the source's
-- fractions are exact. `now` is what Date.now() gives; the two reads that follow each other in the
-- first call of a key are one.
pub mod Bounds
pub mod Tests
use agent_web_mvp.Prelude.{
  ℕ, ◌+◌, ◌-◌, ◌*◌, min, String, Bool, true, false, Option, none, some, leb, if◌then◌else◌, or_else,
  ◌<>◌,
}
use agent_web_mvp.Prelude.JsMap.{JsMap, get, set, remove}

abbrev pub token : ℕ
token = 6000

abbrev pub prompt_bucket_capacity : ℕ
prompt_bucket_capacity = 10 * token

abbrev pub prompt_bucket_refill_per_ms : ℕ
prompt_bucket_refill_per_ms = 1

pub record TokenBucket : Type 0 where
  pub tokens : ℕ
  pub last_refill : ℕ

abbrev pub new_bucket : (now : ℕ) → TokenBucket
new_bucket now = record { tokens = prompt_bucket_capacity; last_refill = now }

abbrev pub take_token : TokenBucket → TokenBucket × Bool
take_token b =
    if leb token b.tokens then (record b { tokens = b.tokens - token }, true) else (b, false)

unfoldable pub consume : (now : ℕ) → TokenBucket → TokenBucket × Bool
consume now b = take_token (record {
  tokens =
      min prompt_bucket_capacity (b.tokens + (now - b.last_refill) * prompt_bucket_refill_per_ms);
  last_refill = now;
})

abbrev pub key : (user_id session_id : String) → String
key user_id session_id = user_id <> ":" <> session_id

unfoldable pub check_prompt_rate :
    (now : ℕ) → (user_id session_id : String) → JsMap TokenBucket → JsMap TokenBucket × Bool
check_prompt_rate now user_id session_id buckets =
    let (b, granted) =
      consume now (or_else (get (key user_id session_id) buckets) (new_bucket now)) in
    (set (key user_id session_id) b buckets, granted)

unfoldable pub drop_prompt_bucket :
    (user_id session_id : String) → JsMap TokenBucket → JsMap TokenBucket
drop_prompt_bucket user_id session_id buckets = remove (key user_id session_id) buckets
