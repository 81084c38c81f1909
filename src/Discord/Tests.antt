-- ===== src/Discord/Tests.antt =====
-- Runs of the rate limiter, the contexts and the safety filter of src/app/integrations/discord/.
use personal_productivity_ai.Common.{
  ℕ, ◌+◌, ◌*◌, ◌≤◌, ◌≡◌, refl, true, false, none, some, List, [], ◌∷◌, ◌++◌, map, min, arith,
}
use personal_productivity_ai.Common.Text.{Text, codes}
use personal_productivity_ai.Common.Dict.{IsMap, lookup, has_key}
use personal_productivity_ai.Discord.RateLimit.{
  second, RateLimiter, new, check, cleanup, allowed, requests,
}
use personal_productivity_ai.Discord.RateLimit.Windows.{allowed-new}
use personal_productivity_ai.Discord.RateLimit.Retry.{StartsBy, check-retry_after}
use personal_productivity_ai.Discord.RateLimit.Cleanup.{check-cleanup}
use personal_productivity_ai.Discord.Context.{
  user, Arrival, spoken, prompt_messages, get_messages_for_llm, add_messages,
}
use personal_productivity_ai.Discord.Context as Context
use personal_productivity_ai.Discord.Context.History.{
  last_of, said_in, get_messages_for_llm-add_messages,
}
use personal_productivity_ai.Discord.Safety.{SafetyFilter}

abbrev ada : Text
ada = codes "ada"

abbrev calls : List (Text × ℕ)
calls = (ada, 7) ∷ (codes "bob", 8) ∷ (ada, 9) ∷ (ada, 10) ∷ []

allowed-new_example : allowed ada calls (new 2) ≡ min 2 (requests ada calls)
allowed-new_example = allowed-new 7 2 ada calls (
  (omega arith, omega arith),
  ((omega arith, omega arith), ((omega arith, omega arith), ((omega arith, omega arith), tt))),
)

abbrev busy : RateLimiter
busy = record {
  buckets = (ada, record { count = 1; window_start = 0 }) ∷ [];
  limit = 1;
  window = 60 * second;
}

is_refused : (check (5 * second) ada busy).1 ≡ false
unfolding check
is_refused = refl

waits : (check (5 * second) ada busy).2 ≡ some 55
unfolding check
waits = refl

starts : StartsBy (5 * second) (lookup ada (busy.buckets))
unfolding lookup
starts = omega arith

check-retry_after_example :
    ((check (5 * second + 55 * second) ada (check (5 * second) ada busy).0).1 ≡ true)
    × (1 ≤ 55)
    × (55 ≤ 60)
check-retry_after_example =
    check-retry_after (5 * second) 55 ada busy refl starts (omega arith) is_refused waits

busy-IsMap : IsMap (busy.buckets)
unfolding has_key
busy-IsMap = (refl, tt)

check-cleanup_example :
    ((check (200 * second) ada (cleanup (150 * second) busy)).1 ≡ (check (200 * second) ada busy).1)
    × ((check (200 * second) ada (cleanup (150 * second) busy)).2
        ≡ (check (200 * second) ada busy).2)
check-cleanup_example =
    check-cleanup (150 * second) (200 * second) ada busy busy-IsMap (omega arith)

abbrev arrival : Text → ℕ → Text → Arrival
arrival scope now content = record {
  id = 0;
  now = now;
  scope_id = scope;
  role = user;
  content = content;
}

abbrev arrivals : List Arrival
arrivals =
    arrival ada 1 (codes "a")
    ∷ arrival (codes "bob") 2 (codes "b")
    ∷ arrival ada 3 (codes "c")
    ∷ arrival ada 4 (codes "d")
    ∷ []

get_messages_for_llm-add_messages_example :
    get_messages_for_llm ada none (add_messages arrivals (Context.new 2 9))
    ≡ prompt_messages none ++ map spoken (last_of 2 (said_in ada arrivals))
get_messages_for_llm-add_messages_example = get_messages_for_llm-add_messages ada none 2 9 arrivals

abbrev filter : SafetyFilter
filter = record { blocked_patterns = codes "x" ∷ [] }
