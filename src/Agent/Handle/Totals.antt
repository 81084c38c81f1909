-- ===== src/Agent/Handle/Totals.antt =====
-- The totals of the token usage: `apply_token_usage` and `clear_history` of src/agent/session.rs
use personal_productivity_ai.Common.{
  ◌≡◌, refl, ap, ◌∙◌, ℕ, ◌+◌, Option, none, some, List, [], ◌∷◌, ltb, min, max, if◌then◌else◌,
  arith,
}
use personal_productivity_ai.Agent.Json.{unwrap_or}
use personal_productivity_ai.Agent.Turn.{TokenUsageInfo}
use personal_productivity_ai.Agent.Handle.{
  AgentSession, no_usage, add_usage, Call, queues, takes, drops, forgets, cancels, uses, logs,
  submits, queue_prompt, take_next_queued_prompt, clear_queued_prompts, clear_history, cancel,
  apply_token_usage, push_debug_entry, submit_prompt, build, call, calls,
}

abbrev pub sum_of : (TokenUsageInfo → ℕ) → List TokenUsageInfo → ℕ
sum_of g [] = 0
sum_of g (i ∷ infos) = g i + sum_of g infos

abbrev pub greatest_of : (TokenUsageInfo → ℕ) → List TokenUsageInfo → ℕ
greatest_of g [] = 0
greatest_of g (i ∷ infos) = max (g i) (greatest_of g infos)

abbrev pub some_sum : ℕ → (TokenUsageInfo → Option ℕ) → List TokenUsageInfo → Option ℕ
some_sum limit g [] = none
some_sum limit g (i ∷ infos) =
    some (min (sum_of (λ (u : TokenUsageInfo). unwrap_or 0 (g u)) (i ∷ infos)) limit)

-- The greatest prompt, and the sums of the other counts, up to the limit.
abbrev pub totals : ℕ → List TokenUsageInfo → TokenUsageInfo
totals limit infos = record {
  prompt_tokens = greatest_of (λ (u : TokenUsageInfo). u.prompt_tokens) infos;
  completion_tokens = min (sum_of (λ (u : TokenUsageInfo). u.completion_tokens) infos) limit;
  total_tokens = min (sum_of (λ (u : TokenUsageInfo). u.total_tokens) infos) limit;
  cached_tokens = some_sum limit (λ (u : TokenUsageInfo). u.cached_tokens) infos;
  reasoning_tokens = some_sum limit (λ (u : TokenUsageInfo). u.reasoning_tokens) infos;
}

-- The usage that was told since the totals were cleared, the last one first.
unfoldable pub told : {E R : Type 0} → List (Call E R) → List TokenUsageInfo → List TokenUsageInfo
told [] infos = infos
told (queues prompt ∷ cs) infos = told cs infos
told (takes ∷ cs) infos = told cs infos
told (drops ∷ cs) infos = told cs infos
told (forgets ∷ cs) infos = told cs []
told (cancels ∷ cs) infos = told cs infos
told (uses info ∷ cs) infos = told cs (info ∷ infos)
told (logs entry ∷ cs) infos = told cs infos
told (submits prompt ∷ cs) infos = told cs infos

min_sum : (limit a b : ℕ) → min (min a limit + b) limit ≡ min (b + a) limit
min_sum limit a b = omega arith

greater_eq : (a b : ℕ) → (if ltb a b then b else a) ≡ max b a
greater_eq a b = ground arith

add_sum :
    (limit : ℕ) (g : TokenUsageInfo → Option ℕ) (info : TokenUsageInfo)
    (infos : List TokenUsageInfo)
    → some (min (unwrap_or 0 (some_sum limit g infos) + unwrap_or 0 (g info)) limit)
      ≡ some_sum limit g (info ∷ infos)
add_sum limit g info [] = ap some (omega arith)
add_sum limit g info (i ∷ infos) = ap some (
    min_sum limit (sum_of (λ (u : TokenUsageInfo). unwrap_or 0 (g u)) (i ∷ infos))
      (unwrap_or 0 (g info)))

usage_eq :
    (a b : TokenUsageInfo)
    → a.prompt_tokens ≡ b.prompt_tokens
    → a.completion_tokens ≡ b.completion_tokens
    → a.total_tokens ≡ b.total_tokens
    → a.cached_tokens ≡ b.cached_tokens
    → a.reasoning_tokens ≡ b.reasoning_tokens
    → a ≡ b
usage_eq a b e g h i j = cc

add_usage-totals :
    (limit : ℕ) (info : TokenUsageInfo) (infos : List TokenUsageInfo)
    → add_usage limit info (totals limit infos) ≡ totals limit (info ∷ infos)
unfolding add_usage
add_usage-totals limit info infos =
    usage_eq _ _ (greater_eq _ _) (min_sum limit _ _) (min_sum limit _ _)
      (add_sum limit (λ (u : TokenUsageInfo). u.cached_tokens) info infos)
      (add_sum limit (λ (u : TokenUsageInfo). u.reasoning_tokens) info infos)

no_usage-totals : (limit : ℕ) → no_usage ≡ totals limit []
no_usage-totals limit = usage_eq _ _ refl (omega arith) (omega arith) refl refl

module _ {J E R : Type 0} where
  calls-totals_from :
      (limit : ℕ) (cs : List (Call E R)) (infos : List TokenUsageInfo) (s : AgentSession J E R)
      → s.state.total_usage ≡ totals limit infos
      → (calls limit cs s).state.total_usage ≡ totals limit (told cs infos)
  unfolding calls call told queue_prompt take_next_queued_prompt clear_queued_prompts clear_history
      cancel apply_token_usage push_debug_entry submit_prompt
  calls-totals_from limit [] infos s e = e
  calls-totals_from limit (queues prompt ∷ cs) infos s e = calls-totals_from limit cs infos _ e
  calls-totals_from limit (takes ∷ cs) infos s e = calls-totals_from limit cs infos _ e
  calls-totals_from limit (drops ∷ cs) infos s e = calls-totals_from limit cs infos _ e
  calls-totals_from limit (forgets ∷ cs) infos s e =
      calls-totals_from limit cs [] (clear_history s) (no_usage-totals limit)
  calls-totals_from limit (cancels ∷ cs) infos s e = calls-totals_from limit cs infos _ e
  calls-totals_from limit (uses info ∷ cs) infos s e =
      calls-totals_from limit cs (info ∷ infos) _
        (ap (add_usage limit info) e ∙ add_usage-totals limit info infos)
  calls-totals_from limit (logs entry ∷ cs) infos s e = calls-totals_from limit cs infos _ e
  calls-totals_from limit (submits prompt ∷ cs) infos s e = calls-totals_from limit cs infos _ e

-- After any calls on a new handle the totals are those of the usage told since they were cleared last:
-- the greatest number of prompt tokens, and the sums of the other counts, which stop at the limit.
pub calls-totals :
    (J E R : Type 0) (limit : ℕ) (cs : List (Call E R))
    → (calls limit cs (build {J = J} {E = E} {R = R})).state.total_usage ≡ totals limit (told cs [])
unfolding build
calls-totals J E R limit cs =
    calls-totals_from limit cs [] (build {J = J} {E = E} {R = R}) (no_usage-totals limit)
