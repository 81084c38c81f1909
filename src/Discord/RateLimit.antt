-- ===== src/Discord/RateLimit.antt =====
-- src/app/integrations/discord/rate_limit.rs
-- `duration_since` of an earlier instant is 0, as the subtraction of ℕ.
pub mod Windows
pub mod Retry
pub mod Cleanup
use personal_productivity_ai.Common.{
  ℕ, zero, suc, ◌+◌, ◌-◌, ◌*◌, ◌/◌, Bool, true, false, Option, none, some, List, [], ◌∷◌, ltb, leb,
  if◌then◌else◌,
}
use personal_productivity_ai.Common.Text.{Text, text_eq}
use personal_productivity_ai.Common.Dict.{Dict, lookup, insert, retain}

abbrev pub second : ℕ
second = 1000000000

pub record RateLimitBucket : Type 0 where
  pub count : ℕ
  pub window_start : ℕ

pub record RateLimiter : Type 0 where
  pub buckets : Dict RateLimitBucket
  pub limit : ℕ
  pub window : ℕ

unfoldable pub new : ℕ → RateLimiter
new limit_per_minute = record { buckets = []; limit = limit_per_minute; window = 60 * second }

-- The user's bucket, or a new one, started again where its window has passed.
unfoldable pub current_bucket : ℕ → ℕ → Option RateLimitBucket → RateLimitBucket
current_bucket now window none = record { count = 0; window_start = now }
current_bucket now window (some b) =
    if leb window (now - b.window_start) then record { count = 0; window_start = now } else b

unfoldable pub check : ℕ → Text → RateLimiter → RateLimiter × Bool × Option ℕ
unfolding lookup insert current_bucket
check now user_id r =
    let bucket = current_bucket now (r.window) (lookup user_id (r.buckets)) in
    let retry_after = r.window / second - (now - bucket.window_start) / second in
    let counted = record bucket { count = suc (bucket.count) } in
    if leb (r.limit) (bucket.count)
    then (record r { buckets = insert user_id bucket (r.buckets) }, false, some retry_after)
    else (record r { buckets = insert user_id counted (r.buckets) }, true, none)

-- The buckets that `cleanup` retains.
unfoldable pub is_recent : ℕ → ℕ → RateLimitBucket → Bool
is_recent now window bucket = ltb (now - bucket.window_start) (window * 2)

unfoldable pub cleanup : ℕ → RateLimiter → RateLimiter
unfolding retain is_recent
cleanup now r = record r { buckets = retain (is_recent now (r.window)) (r.buckets) }

-- A run of calls of `check`, and how many of `user` it allows.
unfoldable pub count_allowed : Text → Text × ℕ → Bool → ℕ → ℕ
unfolding text_eq
count_allowed user (user_id, now) allowed n =
    if text_eq user_id user then (if allowed then suc n else n) else n

unfoldable pub allowed : Text → List (Text × ℕ) → RateLimiter → ℕ
unfolding check count_allowed
allowed user [] r = 0
allowed user (call ∷ calls) r =
    let (after, answer, retry_after) = check (call.1) (call.0) r in
    count_allowed user call answer (allowed user calls after)

-- How many of the calls are of `user`.
unfoldable pub requests : Text → List (Text × ℕ) → ℕ
unfolding text_eq
requests user [] = 0
requests user (call ∷ calls) =
    let n = requests user calls in if text_eq (call.0) user then suc n else n
