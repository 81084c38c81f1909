-- ===== src/Discord/RateLimit/Retry.antt =====
-- When a user whom `check` of src/app/integrations/discord/rate_limit.rs refused may come again.
use personal_productivity_ai.Common.{
  ℕ, ◌+◌, ◌-◌, ◌*◌, ◌/◌, ◌≤◌, ◌<◌, ◌≡◌, refl, ap, sym, ◌∙◌, inl, inr, true, false, Option, none,
  some, subst, leb, arith, Bool-cases,
}
use personal_productivity_ai.Common.Text.{Text, text_eq_self}
use personal_productivity_ai.Common.Dict.{lookup, lookup-insert}
use personal_productivity_ai.Discord.RateLimit.{
  second, RateLimitBucket, RateLimiter, current_bucket, check,
}
use personal_productivity_ai.Discord.RateLimit.Windows.{check_own}

-- A minute after it began, a bucket starts again.
current_bucket_retry :
    (now w : ℕ) (b : RateLimitBucket)
    → b.window_start ≤ now
    → now - b.window_start < 60 * second
    → w ≡ 60 - (now - b.window_start) / second
    → (current_bucket (now + w * second) (60 * second) (some b)).count ≡ 0
unfolding current_bucket
current_bucket_retry now w b l h e = ground arith

current_bucket_fresh :
    (now : ℕ) (o : Option RateLimitBucket)
    → now - (current_bucket now (60 * second) o).window_start < 60 * second
unfolding current_bucket
current_bucket_fresh now none = omega arith
current_bucket_fresh now (some b) = ground arith

abbrev pub StartsBy : ℕ → Option RateLimitBucket → Type 0
StartsBy now none = Unit
StartsBy now (some b) = b.window_start ≤ now

current_bucket-StartsBy :
    (now window : ℕ) (o : Option RateLimitBucket)
    → StartsBy now o
    → (current_bucket now window o).window_start ≤ now
unfolding current_bucket
current_bucket-StartsBy now window none h = omega arith
current_bucket-StartsBy now window (some b) h = ground arith

-- What a refusal answers and leaves.
check_refused :
    (now w : ℕ) (user : Text) (r : RateLimiter)
    → (check now user r).1 ≡ false
    → (check now user r).2 ≡ some w
    → (w
        ≡ r.window / second
          - (now - (current_bucket now (r.window) (lookup user (r.buckets))).window_start) / second)
      × (lookup user ((check now user r).0.buckets)
          ≡ some (current_bucket now (r.window) (lookup user (r.buckets))))
unfolding check
check_refused now w user r h e =
    let bucket = current_bucket now (r.window) (lookup user (r.buckets)) in
    elim (Bool-cases (leb (r.limit) (bucket.count))) [
      | inl q ↦ (
        ground (arith, h, e, q),
        rw q (lookup-insert user user bucket (r.buckets) ∙ rw (text_eq_self user) refl),
      )
      | inr q ↦ absurd (ground (arith, h, q))
    ]

check_allows :
    (now : ℕ) (user : Text) (r : RateLimiter)
    → (current_bucket now (r.window) (lookup user (r.buckets))).count ≡ 0
    → 0 < r.limit
    → (check now user r).1 ≡ true
unfolding check
check_allows now user r h l = ground (arith, h, l)

-- A user who is refused, and told to retry after some seconds, is allowed at that time, where the
-- limit is not 0, the user's window does not begin after the refusal, and the user makes no request
-- in between. The time is between 1 and 60 seconds.
pub check-retry_after :
    (now w : ℕ) (user : Text) (r : RateLimiter)
    → r.window ≡ 60 * second
    → StartsBy now (lookup user (r.buckets))
    → 0 < r.limit
    → (check now user r).1 ≡ false
    → (check now user r).2 ≡ some w
    → ((check (now + w * second) user (check now user r).0).1 ≡ true) × (1 ≤ w) × (w ≤ 60)
check-retry_after now w user r m t l h e =
    let (p, q) = check_refused now w user r h e in
    let (_, _, a, b) = check_own now user r in
    let bucket = current_bucket now (r.window) (lookup user (r.buckets)) in
    let fresh =
      subst (λ x. now - (current_bucket now x (lookup user (r.buckets))).window_start < 60 * second)
        (sym m) (current_bucket_fresh now (lookup user (r.buckets))) in
    let w_eq = p ∙ ap (λ x. x / second - (now - bucket.window_start) / second) m in
    (
      check_allows (now + w * second) user ((check now user r).0)
          (ap
              (λ x.
                (current_bucket (now + w * second) x
                  (lookup user ((check now user r).0.buckets))).count)
              (b ∙ m)
            ∙ ap (λ o. (current_bucket (now + w * second) (60 * second) o).count) q
            ∙ current_bucket_retry now w bucket
                (current_bucket-StartsBy now (r.window) (lookup user (r.buckets)) t) fresh
                (omega (arith, w_eq)))
          (subst (λ x. 0 < x) (sym a) l),
      omega (arith, w_eq, fresh),
      omega (arith, w_eq),
    )
