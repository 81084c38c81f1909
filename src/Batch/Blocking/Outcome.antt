-- ===== src/Batch/Blocking/Outcome.antt =====
-- That a batch job returns, and with what: src/app/agent/batch/executor.rs, src/app/bus/core.rs,
-- src/agent/agent_impl.rs
use personal_productivity_ai.Common.{
  ℕ, suc, ◌+◌, ◌-◌, ◌≤◌, ◌≡◌, refl, ◌∙◌, subst, Bool, true, Option, none, some, List, [], ◌∷◌, ◌++◌,
  arith, inl, inr, ◌⊎◌, length, length-append,
}
use personal_productivity_ai.Common.Text.{Text}
use personal_productivity_ai.Agent.Json.{Json}
use personal_productivity_ai.Agent.Executor.{Tools, Executor}
use personal_productivity_ai.Agent.Turn.{
  AgentEvent, session_started, session_finished, status, thinking, content_delta, tool_call_started,
  tool_result, tool_side_effect, debug_entry, token_usage, failed, Reply,
}
use personal_productivity_ai.Agent.Run.{AgentContext, Result, run_agent, build_messages}
use personal_productivity_ai.Agent.Run.Protocol.{
  is_quiet, quiet, EndsWell, EndsInFailure, run_agent-ends,
}
use personal_productivity_ai.Agent.Run.History.{client-cases, unresolved}
use personal_productivity_ai.Batch.{BatchJobStatus, completed}
use personal_productivity_ai.Batch.Blocking.{
  TryRecv, received, recv, got, drain_of, again, stop, run_agent_blocking,
}

module _ {J R : Type 0} (try_recv : R → TryRecv (AgentEvent J) × R) where
  -- The reader yields the events, one after the other.
  abbrev pub Delivers : R → List (AgentEvent J) → Type 0
  Delivers r [] = Unit
  Delivers r (e ∷ es) = (r' : R) × (try_recv r ≡ (received e, r')) × Delivers r' es

  drain_of-quiet :
      (e : AgentEvent J) (r : R) → is_quiet e ≡ true → drain_of try_recv (got e, r) ≡ again r
  drain_of-quiet session_started r h = refl
  drain_of-quiet (session_finished ms) r h = cc
  drain_of-quiet (failed error) r h = cc
  drain_of-quiet (debug_entry d) r h = refl
  drain_of-quiet (status s) r h = refl
  drain_of-quiet (thinking s) r h = refl
  drain_of-quiet (content_delta s) r h = refl
  drain_of-quiet (tool_call_started i n a) r h = refl
  drain_of-quiet (tool_result i n res) r h = refl
  drain_of-quiet (tool_side_effect e) r h = refl
  drain_of-quiet (token_usage u) r h = refl

  drain-stop :
      (e : AgentEvent J) (rest : List (AgentEvent J)) (s : BatchJobStatus) (error : Option Text)
      (fuel : ℕ) (r : R)
      → Delivers r (e ∷ rest)
      → ((r : R) → drain_of try_recv (got e, r) ≡ stop s error)
      → run_agent_blocking try_recv (suc fuel) r ≡ some (s, error)
  unfolding run_agent_blocking recv
  drain-stop e rest s error fuel r (r', d, _) h = rw (d, h r') refl

  drain-skip :
      (e : AgentEvent J) (fuel : ℕ) (r r' : R)
      → is_quiet e ≡ true
      → try_recv r ≡ (received e, r')
      → run_agent_blocking try_recv (suc fuel) r ≡ run_agent_blocking try_recv fuel r'
  unfolding run_agent_blocking recv
  drain-skip e fuel r r' q d = rw (d, drain_of-quiet e r' q) refl

  -- Events that are no end are passed over, down to the first that is one.
  drain-quiet :
      (es : List (AgentEvent J)) (e : AgentEvent J) (rest : List (AgentEvent J))
      (s : BatchJobStatus) (error : Option Text) (fuel : ℕ) (r : R)
      → quiet es ≡ true
      → Delivers r (es ++ e ∷ rest)
      → ((r : R) → drain_of try_recv (got e, r) ≡ stop s error)
      → run_agent_blocking try_recv (length es + suc fuel) r ≡ some (s, error)
  unfolding quiet
  drain-quiet [] e rest s error fuel r q d h =
      subst (λ n. run_agent_blocking try_recv n r ≡ some (s, error)) (omega arith)
        (drain-stop e rest s error fuel r d h)
  drain-quiet (x ∷ es) e rest s error fuel r q (r', d, ds) h =
      subst (λ n. run_agent_blocking try_recv n r ≡ some (s, error)) (omega arith)
        (drain-skip x (length es + suc fuel) r r' (ground (arith, q)) d
          ∙ drain-quiet es e rest s error fuel r' (ground (arith, q)) ds h)

  drain-quiet_le :
      (es : List (AgentEvent J)) (e : AgentEvent J) (rest : List (AgentEvent J))
      (s : BatchJobStatus) (error : Option Text) (fuel : ℕ) (r : R)
      → quiet es ≡ true
      → Delivers r (es ++ e ∷ rest)
      → ((r : R) → drain_of try_recv (got e, r) ≡ stop s error)
      → length (es ++ e ∷ rest) ≤ fuel
      → run_agent_blocking try_recv fuel r ≡ some (s, error)
  drain-quiet_le es e rest s error fuel r q d h n =
      subst (λ n. run_agent_blocking try_recv n r ≡ some (s, error))
        (omega (arith, n, length-append es (e ∷ rest)))
        (drain-quiet es e rest s error (fuel - length es - 1) r q d h)

module _ (j : Json) (t : Tools) {R : Type 0} (try_recv : R → TryRecv (AgentEvent (j.J)) × R) where
  open j use {J}

  -- What a job says of its run's result. Completed, and then the run told no failure and its last event
  -- hands over the history that it returned, which begins with the messages given. Or failed with the error
  -- of the one failure that the run told, and then it returned no history.
  abbrev pub Reports : List J → ℕ → R → Result j t → Type 0
  Reports m fuel reader r =
      ((run_agent_blocking try_recv fuel reader ≡ some (completed, none)) × EndsWell j t m r)
      ⊎ ((es rest : List (AgentEvent J)) × (error : Text) × (run_agent_blocking try_recv fuel reader
            ≡ some (BatchJobStatus.failed, some error))
          × (r.events ≡ es ++ failed error ∷ rest)
          × (quiet es ≡ true)
          × (r.history ≡ []))

  ends-Reports :
      (m : List J) (fuel : ℕ) (reader : R) (r : Result j t)
      → EndsWell j t m r ⊎ EndsInFailure j t r
      → Delivers try_recv reader (r.events)
      → length (r.events) ≤ fuel
      → Reports m fuel reader r
  ends-Reports m fuel reader r (inl (es, e, q, k)) d n = inl (
    drain-quiet_le try_recv es (session_finished (r.history)) [] completed none fuel reader q
        (subst (Delivers try_recv reader) e d) (λ r. refl) (subst (λ l. length l ≤ fuel) e n),
    (es, e, q, k),
  )
  ends-Reports m fuel reader r (inr (es, error, e, q, h)) d n = inr (
    es,
    session_finished [] ∷ [],
    error,
    drain-quiet_le try_recv es (failed error) (session_finished [] ∷ []) BatchJobStatus.failed
        (some error) fuel reader q (subst (Delivers try_recv reader) e d) (λ r. refl)
        (subst (λ l. length l ≤ fuel) e n),
    e,
    q,
    h,
  )

  -- Where the reader yields what the run told, the job of a run that returned returns too. It says
  -- completed where the run told no failure and ended with the history that it returned, the messages given
  -- with more behind them; this is so where the run was cancelled, too. Else it says failed, with the error
  -- of the failure that the run told, before which there was no failure and no end, and the run returned no
  -- history.
  pub run_agent_blocking-returns :
      (ctx : AgentContext J) (script : List (Option (Reply J))) (cancelled : Bool)
      (x : Executor j t) (r : Result j t) (fuel : ℕ) (reader : R)
      → run_agent j t ctx script cancelled x ≡ some r
      → Delivers try_recv reader (r.events)
      → length (r.events) ≤ fuel
      → Reports (build_messages j (ctx.system_prompts) (ctx.prompt) (ctx.history)) fuel reader r
  unfolding quiet
  run_agent_blocking-returns ctx script cancelled x r fuel reader h d n =
      elim (client-cases j t ctx) [
        | inl (client, error, c) ↦
            ends-Reports (build_messages j (ctx.system_prompts) (ctx.prompt) (ctx.history)) fuel
              reader r (run_agent-ends j t ctx client error script cancelled x r c h) d n
        | inr (error, c) ↦
            let (e, g) = unresolved j t ctx script cancelled x r error c h in
            inr (
              [],
              [],
              error,
              drain-quiet_le try_recv [] (failed error) [] BatchJobStatus.failed (some error) fuel
                  reader refl (subst (Delivers try_recv reader) e d) (λ r. refl)
                  (subst (λ l. length l ≤ fuel) e n),
              e,
              refl,
              g,
            )
      ]
