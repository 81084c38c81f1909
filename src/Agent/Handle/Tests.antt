-- ===== src/Agent/Handle/Tests.antt =====
-- Two prompts, of which the first is cancelled.
use personal_productivity_ai.Common.{◌≡◌, refl, ℕ, true, false, none, some, List, [], ◌∷◌}
use personal_productivity_ai.Common.Text.{codes}
use personal_productivity_ai.Agent.Turn.{TokenUsageInfo}
use personal_productivity_ai.Agent.Handle.{
  Prompt, Call, cancels, uses, submits, queues, forgets, build, calls,
}
use personal_productivity_ai.Agent.Handle.Cancelled.{cancelled_by, IsCancelled, calls-IsCancelled}
use personal_productivity_ai.Agent.Handle.Totals.{told, totals, calls-totals}

abbrev usage : ℕ → TokenUsageInfo
usage n = record {
  prompt_tokens = n;
  completion_tokens = n;
  total_tokens = 2;
  cached_tokens = none;
  reasoning_tokens = some n;
}

abbrev prompt : Prompt ℕ
prompt = record { session_id = codes "s"; rest = 0; cancel_flag = 0 }

abbrev used : List (Call ℕ ℕ)
used =
    submits prompt
    ∷ uses (usage 7)
    ∷ cancels
    ∷ queues (codes "next")
    ∷ submits prompt
    ∷ forgets
    ∷ uses (usage 5)
    ∷ uses (usage 6)
    ∷ []

cancelled_run : cancelled_by used [] ≡ true ∷ false ∷ []
unfolding cancelled_by
cancelled_run = refl

told_run : told used [] ≡ usage 6 ∷ usage 5 ∷ []
unfolding told
told_run = refl

calls-IsCancelled_example :
    IsCancelled (cancelled_by used []) (calls 10 used (build {J = ℕ} {E = ℕ} {R = ℕ}))
calls-IsCancelled_example = calls-IsCancelled ℕ ℕ ℕ 10 used

calls-totals_example :
    (calls 10 used (build {J = ℕ} {E = ℕ} {R = ℕ})).state.total_usage ≡ totals 10 (told used [])
calls-totals_example = calls-totals ℕ ℕ ℕ 10 used
