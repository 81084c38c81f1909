-- ===== src/Discord/RateLimit/Windows.antt =====
-- How many requests `check` of src/app/integrations/discord/rate_limit.rs lets through in a window.
use personal_productivity_ai.Common.{
  ℕ, suc, ◌+◌, ◌-◌, ◌*◌, ◌≤◌, ◌<◌, ◌≡◌, refl, ap, sym, ◌∙◌, inl, inr, Bool, true, false, Option,
  none, some, List, [], ◌∷◌, All, min, subst, ltb, leb, arith, Bool-cases, if◌then◌else◌,
}
use personal_productivity_ai.Common.Text.{Text, text_eq, text_eq→eq, text_eq_self}
use personal_productivity_ai.Common.Dict.{lookup, lookup-insert}
use personal_productivity_ai.Discord.RateLimit.{
  second, RateLimitBucket, RateLimiter, new, current_bucket, check, count_allowed, allowed,
  requests,
}

-- What the bucket counts, and that it does not start before `t`.
abbrev used : Option RateLimitBucket → ℕ
used none = 0
used (some b) = b.count

abbrev StartsFrom : ℕ → Option RateLimitBucket → Type 0
StartsFrom t none = Unit
StartsFrom t (some b) = t ≤ b.window_start

current_bucket_lem :
    (t now window : ℕ) (o : Option RateLimitBucket)
    → t ≤ now
    → now < t + window
    → StartsFrom t o
    → ((current_bucket now window o).count ≡ used o)
      × (t ≤ (current_bucket now window o).window_start)
unfolding current_bucket
current_bucket_lem t now window none l g h = (refl, l)
current_bucket_lem t now window (some b) l g h = (ground arith, ground arith)

-- The answer and the user's bucket after a call of the user.
abbrev pub after : ℕ → RateLimitBucket → Bool × RateLimitBucket
after limit b =
    if leb limit (b.count) then (false, b) else (true, record b { count = suc (b.count) })

pub check_own :
    (now : ℕ) (user : Text) (r : RateLimiter)
    → ((check now user r).1
        ≡ (after (r.limit) (current_bucket now (r.window) (lookup user (r.buckets)))).0)
      × (lookup user ((check now user r).0.buckets)
          ≡ some ((after (r.limit) (current_bucket now (r.window) (lookup user (r.buckets)))).1))
      × ((check now user r).0.limit ≡ r.limit)
      × ((check now user r).0.window ≡ r.window)
unfolding check
check_own now user r =
    elim (Bool-cases
      (leb (r.limit) ((current_bucket now (r.window) (lookup user (r.buckets))).count))) [
        | inl e ↦ rw e (
          refl,
          rw
              (
                lookup-insert user user (current_bucket now (r.window) (lookup user (r.buckets)))
                    (r.buckets),
                text_eq_self user,
              )
              refl,
          refl,
          refl,
        )
        | inr e ↦ rw e (
          refl,
          rw
              (
                lookup-insert user user
                    (record (current_bucket now (r.window) (lookup user (r.buckets))) {
                      count = suc ((current_bucket now (r.window) (lookup user (r.buckets))).count);
                    })
                    (r.buckets),
                text_eq_self user,
              )
              refl,
          refl,
          refl,
        )
      ]

check_other :
    (now : ℕ) (user other : Text) (r : RateLimiter)
    → text_eq other user ≡ false
    → (lookup user ((check now other r).0.buckets) ≡ lookup user (r.buckets))
      × ((check now other r).0.limit ≡ r.limit)
      × ((check now other r).0.window ≡ r.window)
unfolding check
check_other now user other r h =
    elim (Bool-cases
      (leb (r.limit) ((current_bucket now (r.window) (lookup other (r.buckets))).count))) [
        | inl e ↦ rw e (lookup-insert other user _ (r.buckets) ∙ rw h refl, refl, refl)
        | inr e ↦ rw e (lookup-insert other user _ (r.buckets) ∙ rw h refl, refl, refl)
      ]

-- The state of a run within the window that begins at `t`.
abbrev InWindow : ℕ → ℕ → ℕ → Text → RateLimiter → Type 0
InWindow t limit window user r =
    (r.limit ≡ limit)
    × (r.window ≡ window)
    × StartsFrom t (lookup user (r.buckets))
    × (used (lookup user (r.buckets)) ≤ limit)

-- The count after a call of the user.
abbrev charged : ℕ → ℕ → ℕ
charged limit n = if ltb n limit then suc n else n

abbrev Charged : ℕ → ℕ → ℕ → Bool → Option RateLimitBucket → Type 0
Charged t limit n answer o =
    StartsFrom t o × (used o ≤ limit) × (answer ≡ ltb n limit) × (used o ≡ charged limit n)

after-Charged :
    (t limit n : ℕ) (b : RateLimitBucket)
    → b.count ≡ n
    → t ≤ b.window_start
    → n ≤ limit
    → Charged t limit n (after limit b).0 (some (after limit b).1)
after-Charged t limit n b e l u = (ground arith, ground arith, ground arith, ground arith)

InWindow-own :
    (t limit window now : ℕ) (user : Text) (r : RateLimiter)
    → InWindow t limit window user r
    → t ≤ now
    → now < t + window
    → Charged t limit
        (used (lookup user (r.buckets)))
        (check now user r).1
        (lookup user ((check now user r).0.buckets))
InWindow-own t limit window now user r (l, w, s, u) a b =
    let (c, d, e, f) = check_own now user r in
    let (g, h) = current_bucket_lem t now (r.window) (lookup user (r.buckets)) a (rw w b) s in
    let bucket = current_bucket now (r.window) (lookup user (r.buckets)) in
    let n = used (lookup user (r.buckets)) in
    rw (c, d)
      (subst (λ m. Charged t limit n (after m bucket).0 (some (after m bucket).1)) (sym l)
        (after-Charged t limit n bucket g h u))

InWindow-check :
    (t limit window now : ℕ) (user : Text) (r : RateLimiter)
    → InWindow t limit window user r
    → t ≤ now
    → now < t + window
    → InWindow t limit window user (check now user r).0
InWindow-check t limit window now user r h a b =
    let (c, d, e, f) = check_own now user r in
    let (s, u, _, _) = InWindow-own t limit window now user r h a b in (e ∙ h.0, f ∙ h.1, s, u)

InWindow-other :
    (t limit window now : ℕ) (user other : Text) (r : RateLimiter)
    → text_eq other user ≡ false
    → InWindow t limit window user r
    → InWindow t limit window user (check now other r).0
InWindow-other t limit window now user other r n h =
    let (d, e, f) = check_other now user other r n in
    (
      e ∙ h.0,
      f ∙ h.1,
      subst (StartsFrom t) (sym d) (h.2),
      subst (λ o. used o ≤ limit) (sym d) (h.3),
    )

allowed_step :
    (t limit n q m now : ℕ) (user : Text) (answer : Bool) (o : Option RateLimitBucket)
    → Charged t limit n answer o
    → n ≤ limit
    → m ≡ min (limit - used o) q
    → count_allowed user (user, now) answer m ≡ min (limit - n) (suc q)
unfolding count_allowed
allowed_step t limit n q m now user answer o (s, u, c, d) l h =
    rw (text_eq_self user, c, h, d) (ground arith)

allowed_from :
    (t limit window : ℕ) (user : Text) (calls : List (Text × ℕ)) (r : RateLimiter)
    → InWindow t limit window user r
    → All (λ call. (t ≤ call.1) × (call.1 < t + window)) calls
    → allowed user calls r ≡ min (limit - used (lookup user (r.buckets))) (requests user calls)
unfolding allowed requests
allowed_from t limit window user [] r h a = ground arith
allowed_from t limit window user ((other, now) ∷ calls) r h a =
    elim (Bool-cases (text_eq other user)) [
      | inl e ↦
          subst
            (λ v.
              count_allowed user (v, now) (check now v r).1 (allowed user calls (check now v r).0)
              ≡ min (limit - used (lookup user (r.buckets))) (suc (requests user calls)))
            (sym (text_eq→eq other user e))
            (allowed_step t limit (used (lookup user (r.buckets))) (requests user calls) _ now user
              _ _ (InWindow-own t limit window now user r h (a.0.0) (a.0.1)) (h.3)
              (allowed_from t limit window user calls (check now user r).0
                (InWindow-check t limit window now user r h (a.0.0) (a.0.1)) (a.1)))
          ∙ ap
              (λ b.
                min (limit - used (lookup user (r.buckets)))
                  (if b then suc (requests user calls) else requests user calls))
              (sym e)
      | inr e ↦
          let (d, _, _) = check_other now user other r e in
          rw e (
            allowed_from t limit window user calls (check now other r).0
              (InWindow-other t limit window now user other r e h) (a.1)
            ∙ ap (λ o. min (limit - used o) (requests user calls)) d)
    ]

-- Of a run of requests that all fall within one minute, on a new limiter, whoever else makes requests
-- in between, a user's first `limit` requests are allowed and no more: as many as the user makes, or
-- `limit` if the user makes more.
pub allowed-new :
    (t limit : ℕ) (user : Text) (calls : List (Text × ℕ))
    → All (λ call. (t ≤ call.1) × (call.1 < t + 60 * second)) calls
    → allowed user calls (new limit) ≡ min limit (requests user calls)
unfolding new lookup
allowed-new t limit user calls a = omega (
  arith,
  allowed_from t limit (60 * second) user calls (new limit) (refl, refl, tt, omega arith) a,
)
