-- ===== src/Discord/RateLimit/Cleanup.antt =====
-- `RateLimiter::cleanup` is never noticed by a user.
use personal_productivity_ai.Common.{
  ℕ, ◌-◌, ◌/◌, ◌≤◌, ◌≡◌, refl, ap, sym, ◌∙◌, inl, inr, Bool, true, false, Option, none, some, leb,
  arith, Bool-cases, if◌then◌else◌,
}
use personal_productivity_ai.Common.Text.{Text}
use personal_productivity_ai.Common.Dict.{lookup, IsMap, filter_option, lookup-retain}
use personal_productivity_ai.Discord.RateLimit.{
  second, RateLimitBucket, RateLimiter, current_bucket, check, is_recent, cleanup,
}

current_bucket-retain :
    (before now window : ℕ) (o : Option RateLimitBucket)
    → before ≤ now
    → current_bucket now window (filter_option (is_recent before window) o)
      ≡ current_bucket now window o
unfolding current_bucket is_recent
current_bucket-retain before now window none l = refl
current_bucket-retain before now window (some b) l = ground arith

abbrev answer : ℕ → ℕ → ℕ → RateLimitBucket → Bool × Option ℕ
answer now limit window bucket = (
  (if leb limit (bucket.count) then false else true),
  (if leb limit (bucket.count)
      then some (window / second - (now - bucket.window_start) / second)
      else none),
)

check-answer :
    (now : ℕ) (user : Text) (r : RateLimiter)
    → ((check now user r).1
        ≡ (answer now
            (r.limit)
            (r.window)
            (current_bucket now (r.window) (lookup user (r.buckets)))).0)
      × ((check now user r).2
          ≡ (answer now
              (r.limit)
              (r.window)
              (current_bucket now (r.window) (lookup user (r.buckets)))).1)
unfolding check
check-answer now user r =
    elim (Bool-cases
      (leb (r.limit) ((current_bucket now (r.window) (lookup user (r.buckets))).count))) [
        | inl e ↦ rw e (refl, refl)
        | inr e ↦ rw e (refl, refl)
      ]

-- A request after a cleanup is answered as it would be without the cleanup, with the same number of
-- seconds to wait: a bucket that is removed would start again.
pub check-cleanup :
    (before now : ℕ) (user : Text) (r : RateLimiter)
    → IsMap (r.buckets)
    → before ≤ now
    → ((check now user (cleanup before r)).1 ≡ (check now user r).1)
      × ((check now user (cleanup before r)).2 ≡ (check now user r).2)
unfolding cleanup
check-cleanup before now user r m l =
    let same =
      ap (current_bucket now (r.window))
        (lookup-retain (is_recent before (r.window)) user (r.buckets) m)
      ∙ current_bucket-retain before now (r.window) (lookup user (r.buckets)) l in
    let (a, b) = check-answer now user (cleanup before r) in
    let (c, d) = check-answer now user r in
    (
      a ∙ ap (λ x. (answer now (r.limit) (r.window) x).0) same ∙ sym c,
      b ∙ ap (λ x. (answer now (r.limit) (r.window) x).1) same ∙ sym d,
    )
