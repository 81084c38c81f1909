-- ===== src/Agent/Run/History.antt =====
-- The history that a run returns: src/agent/agent_impl.rs
use personal_productivity_ai.Common.{
  ◌≡◌, refl, ap, sym, ◌∙◌, Bool, Option, none, some, List, [], ◌∷◌, ◌++◌, inl, inr, ◌⊎◌,
}
use personal_productivity_ai.Common.Text.{Text}
use personal_productivity_ai.Agent.Json.{Json}
use personal_productivity_ai.Agent.Executor.{Tools, Executor}
use personal_productivity_ai.Agent.Turn.{failed, Client, Reply}
use personal_productivity_ai.Agent.Run.{
  AgentContext, Result, run_agent, run_with, resolve_ll_client, build_messages,
}
use personal_productivity_ai.Agent.Run.Protocol.{run_agent-ends}

module _ (j : Json) (t : Tools) where
  open j use {J}

  pub client-cases :
      (ctx : AgentContext J)
      → ((client : Client) × (error : Text) × (resolve_ll_client j ctx ≡ (some client, error)))
        ⊎ ((error : Text) × (resolve_ll_client j ctx ≡ (none, error)))
  client-cases ctx = split (resolve_ll_client j ctx) refl
    where
      split :
          (c : Option Client × Text)
          → resolve_ll_client j ctx ≡ c
          → ((client : Client) × (error : Text) × (resolve_ll_client j ctx ≡ (some client, error)))
            ⊎ ((error : Text) × (resolve_ll_client j ctx ≡ (none, error)))
      split (some client, error) e = inl (client, error, e)
      split (none, error) e = inr (error, e)

  pub unresolved :
      (ctx : AgentContext J) (script : List (Option (Reply J))) (cancelled : Bool)
      (x : Executor j t) (r : Result j t) (error : Text)
      → resolve_ll_client j ctx ≡ (none, error)
      → run_agent j t ctx script cancelled x ≡ some r
      → (r.events ≡ failed error ∷ []) × (r.history ≡ [])
  unfolding run_agent run_with
  unresolved ctx script cancelled x r error c h =
      let r' : Result j t = record {
        history = [];
        turn_number = ctx.start_turn;
        events = failed error ∷ [];
        executor = x;
      } in
      let k : some r' ≡ some r = ap (run_with j t ctx script cancelled x) (sym c) ∙ h in
      let g : r' ≡ r = cc in (ap (λ r. r.events) (sym g), ap (λ r. r.history) (sym g))

  -- A run returns no history, or the messages that it began with and more behind them.
  pub run_agent-history :
      (ctx : AgentContext J) (script : List (Option (Reply J))) (cancelled : Bool)
      (x : Executor j t) (r : Result j t)
      → run_agent j t ctx script cancelled x ≡ some r
      → (r.history ≡ [])
        ⊎ ((ms : List J) × (r.history
              ≡ build_messages j (ctx.system_prompts) (ctx.prompt) (ctx.history) ++ ms))
  run_agent-history ctx script cancelled x r h = elim (client-cases ctx) [
    | inl (client, error, c) ↦
        (elim (run_agent-ends j t ctx client error script cancelled x r c h) [
          | inl (es, e, q, ms) ↦ inr ms
          | inr (es, error, e, q, n) ↦ inl n
        ])
    | inr (error, c) ↦ inl ((unresolved ctx script cancelled x r error c h).1)
  ]
