-- ===== src/RateLimit/Bounds.antt =====
-- server/index.ts: how many prompts the bucket lets through, and which ones it lets through surely.
use agent_web_mvp.Prelude.{
  ℕ, ◌+◌, ◌-◌, ◌*◌, ◌≤◌, ◌≡◌, refl, ap, min, String, true, false, List, [], ◌∷◌, Option, none, some,
  if◌then◌else◌, or_else, ◌==◌, eq_iff, eq_refl, arith, Bool-cases, inl, inr, length,
}
use agent_web_mvp.Prelude.JsMap.{JsMap, get, get-set, get-set_self}
use agent_web_mvp.RateLimit.{
  TokenBucket, new_bucket, consume, key, check_prompt_rate, token, prompt_bucket_capacity,
}

pub record Call : Type 0 where
  pub user_id : String
  pub session_id : String
  pub at : ℕ

-- How many of the calls with this key are let through.
unfoldable pub granted : (k : String) → List Call → JsMap TokenBucket → ℕ
granted k [] buckets = 0
granted k (c ∷ cs) buckets =
    let (buckets', passed) = check_prompt_rate c.at c.user_id c.session_id buckets in
    let rest = granted k cs buckets' in
    if key c.user_id c.session_id == k then (if passed then 1 + rest else rest) else rest

-- The calls come in order of time, between the two times.
abbrev pub IsOrdered : (from until : ℕ) → List Call → Type 0
IsOrdered from until [] = from ≤ until
IsOrdered from until (c ∷ cs) = (from ≤ c.at) × IsOrdered c.at until cs

-- What a bucket can give at a time.
abbrev credit : ℕ → Option TokenBucket → ℕ
credit now none = prompt_bucket_capacity
credit now (some b) = min prompt_bucket_capacity (b.tokens + (now - b.last_refill))

ordered_le : (from until : ℕ) (cs : List Call) → IsOrdered from until cs → from ≤ until
ordered_le from until [] h = h
ordered_le from until (c ∷ cs) (h, hs) = omega (arith, ordered_le c.at until cs hs)

credit_le : (now : ℕ) (o : Option TokenBucket) → credit now o ≤ prompt_bucket_capacity
credit_le now none = omega arith
credit_le now (some b) = omega arith

consume-credit :
    (now : ℕ) (o : Option TokenBucket)
    → (if (consume now (or_else o (new_bucket now))).1 then token else 0)
        + credit now (some (consume now (or_else o (new_bucket now))).0)
      ≤ credit now o
unfolding consume
consume-credit now none = ground arith
consume-credit now (some b) = ground arith

credit-later :
    (now later : ℕ) (o : Option TokenBucket)
    → now ≤ later
    → credit later o ≤ credit now o + (later - now)
credit-later now later none h = omega arith
credit-later now later (some b) h = omega arith

same_key :
    (k : String) (c : Call) (buckets : JsMap TokenBucket) (from : ℕ)
    → from ≤ c.at
    → key c.user_id c.session_id ≡ k
    → (if (check_prompt_rate c.at c.user_id c.session_id buckets).1 then token else 0)
        + credit c.at (get k (check_prompt_rate c.at c.user_id c.session_id buckets).0)
      ≤ credit from (get k buckets) + (c.at - from)
unfolding check_prompt_rate
same_key k c buckets from h e =
    rw (e, get-set_self k _ buckets)
      (omega (arith, consume-credit c.at (get k buckets), credit-later from c.at (get k buckets) h))

other_key :
    (k : String) (c : Call) (buckets : JsMap TokenBucket) (from : ℕ)
    → from ≤ c.at
    → (key c.user_id c.session_id == k) ≡ false
    → credit c.at (get k (check_prompt_rate c.at c.user_id c.session_id buckets).0)
      ≤ credit from (get k buckets) + (c.at - from)
unfolding check_prompt_rate
other_key k c buckets from h e =
    rw (get-set (key c.user_id c.session_id) k _ buckets, e)
      (credit-later from c.at (get k buckets) h)

granted-credit :
    (k : String) (cs : List Call) (buckets : JsMap TokenBucket) (from until : ℕ)
    → IsOrdered from until cs
    → token * granted k cs buckets ≤ credit from (get k buckets) + (until - from)
unfolding granted
granted-credit k [] buckets from until h = omega arith
granted-credit k (c ∷ cs) buckets from until (h, hs) =
    let rest =
      granted-credit k cs (check_prompt_rate c.at c.user_id c.session_id buckets).0 c.at until hs in
    elim (Bool-cases (key c.user_id c.session_id == k)) [
      | inl e ↦ rw e (
          ground (
            arith,
            rest,
            ordered_le c.at until cs hs,
            same_key k c buckets from h ((eq_iff _ k).0 e),
          ))
      | inr e ↦
          rw e (ground (arith, rest, ordered_le c.at until cs hs, other_key k c buckets from h e))
    ]

-- Over any ordered list of calls, of all users and sessions together, and from any buckets: 6000
-- times the number of prompts that one user gets through in one session is at most 60000 and the
-- milliseconds that the calls span. That is a burst of ten and one more for each 6 seconds.
pub granted_bounded :
    (k : String) (cs : List Call) (buckets : JsMap TokenBucket) (from until : ℕ)
    → IsOrdered from until cs
    → token * granted k cs buckets ≤ prompt_bucket_capacity + (until - from)
granted_bounded k cs buckets from until h =
    omega (arith, granted-credit k cs buckets from until h, credit_le from (get k buckets))

-- The calls are those of one user in one session, each at least 6 seconds after the one before.
abbrev pub IsPaced : (k : String) (last : ℕ) → List Call → Type 0
IsPaced k last [] = Unit {0}
IsPaced k last (c ∷ cs) =
    (key c.user_id c.session_id ≡ k) × (last + token ≤ c.at) × IsPaced k c.at cs

-- The bucket, if there is one, was last used by this time.
abbrev pub IsUsedBy : ℕ → Option TokenBucket → Type 0
IsUsedBy now none = Unit {0}
IsUsedBy now (some b) = b.last_refill ≤ now

consume-paced :
    (last now : ℕ) (o : Option TokenBucket)
    → IsUsedBy last o
    → last + token ≤ now
    → ((consume now (or_else o (new_bucket now))).1 ≡ true)
      × IsUsedBy now (some (consume now (or_else o (new_bucket now))).0)
unfolding consume
consume-paced last now none h g = ground arith
consume-paced last now (some b) h g = ground arith

call-paced :
    (k : String) (c : Call) (buckets : JsMap TokenBucket) (last : ℕ)
    → key c.user_id c.session_id ≡ k
    → IsUsedBy last (get k buckets)
    → last + token ≤ c.at
    → ((check_prompt_rate c.at c.user_id c.session_id buckets).1 ≡ true)
      × IsUsedBy c.at (get k (check_prompt_rate c.at c.user_id c.session_id buckets).0)
unfolding check_prompt_rate
call-paced k c buckets last e h g =
    rw (e, get-set_self k _ buckets) (consume-paced last c.at (get k buckets) h g)

-- Whoever keeps 6 seconds between the prompts is never limited, from whatever the bucket held before:
-- every call is let through.
pub paced_granted :
    (k : String) (cs : List Call) (buckets : JsMap TokenBucket) (last : ℕ)
    → IsUsedBy last (get k buckets)
    → IsPaced k last cs
    → granted k cs buckets ≡ length cs
unfolding granted
paced_granted k [] buckets last h p = refl
paced_granted k (c ∷ cs) buckets last h (e, g, p) =
    let (passed, used) = call-paced k c buckets last e h g in
    let rest =
      paced_granted k cs (check_prompt_rate c.at c.user_id c.session_id buckets).0 c.at used p in
    rw (ap (λ j. j == k) e, eq_refl k, passed, rest) (omega arith)
