-- ===== src/Batch/Tests.antt =====
-- Runs of batches of src/app/agent/batch/.
use personal_productivity_ai.Common.{
  zero, suc, subst, append-nil, ◌+◌, ◌≡◌, refl, true, false, none, some, List, [], ◌∷◌, ◌++◌,
  length, ◌==◌, arith,
}
use personal_productivity_ai.Common.Text.{Text, codes}
use personal_productivity_ai.Common.Reorder.{
  Reordering, reorder_refl, trans, cons, reorder_middle, reorder_sym,
}
use personal_productivity_ai.Agent.Json.{unwrap_or}
use personal_productivity_ai.Agent.Example.{Value, small_json, two_tools, null}
use personal_productivity_ai.Agent.Executor.{Executor}
use personal_productivity_ai.Agent.Turn.{AgentEvent, refused}
use personal_productivity_ai.Agent.Run.{
  AgentContext, run_agent, resolve_ll_client, Result, build_messages,
}
use personal_productivity_ai.Batch.{file, completed}
use personal_productivity_ai.Batch.Blocking.{TryRecv, received, empty}
use personal_productivity_ai.Batch.Blocking.Outcome.{Delivers, Reports, run_agent_blocking-returns}
use personal_productivity_ai.Batch.Executor.{Outcomes, Joined, ran, flag_set, panicked}
use personal_productivity_ai.Batch.Coordinator.{run, run-total}

-- Three targets: the second is refused, the third one's task panics.
abbrev outcomes : Outcomes
outcomes = record {
  new_runtime = true;
  min_cost_models = codes "a" ∷ codes "b" ∷ [];
  is_cancelled = λ i. i == 1;
  acquire_owned = λ i. true;
  task_run = λ task. elim (task.model_name) [
    | none ↦ flag_set
    | some m ↦ (elim (task.job.id) [ zero ↦ ran completed none | suc i ↦ panicked ])
  ];
}

abbrev targets : List Text
targets = codes "x.md" ∷ codes "y.md" ∷ codes "z.md" ∷ []

abbrev backwards : List Joined → List Joined
backwards [] = []
backwards (r ∷ results) = backwards results ++ r ∷ []

backwards-reorder : (results : List Joined) → Reordering results (backwards results)
backwards-reorder [] = reorder_refl []
backwards-reorder (r ∷ results) = trans (cons refl (backwards-reorder results)) (
    subst (λ l. Reordering (r ∷ l) (backwards results ++ r ∷ [])) (append-nil (backwards results))
      (reorder_sym (reorder_middle r (backwards results) [])))

run-total_example :
    let r = run outcomes backwards file (codes "Sum up.") (some targets) in
    (r.total_jobs ≡ 3) × (r.completed + r.failed + r.cancelled ≡ 3)
run-total_example =
    run-total outcomes backwards file (codes "Sum up.") targets refl backwards-reorder

abbrev context : AgentContext Value
context = record {
  client = some (record { model_name = codes "m"; max_tokens = 100 });
  key_valid = true;
  config_path = [];
  prompt = codes "Sum up.";
  system_prompts = [];
  history = none;
  start_turn = 0;
  libraries = [];
  tools_json = null;
}

abbrev start : Executor small_json two_tools
start = record { world = 0; errors = [] }

abbrev no_result : Result small_json two_tools
no_result = record { history = []; turn_number = 0; events = []; executor = start }

abbrev failed_result : Result small_json two_tools
failed_result =
    unwrap_or no_result
      (run_agent small_json two_tools context (some (refused (codes "timeout")) ∷ []) false start)

-- A reader of the events that are left.
abbrev next : List (AgentEvent Value) → TryRecv (AgentEvent Value) × List (AgentEvent Value)
next [] = (empty, [])
next (e ∷ es) = (received e, es)

next-Delivers : (es : List (AgentEvent Value)) → Delivers next es es
next-Delivers [] = tt
next-Delivers (e ∷ es) = (es, refl, next-Delivers es)

run_agent_blocking-returns_example :
    Reports small_json two_tools next
      (build_messages small_json (context.system_prompts) (context.prompt) (context.history))
      (length (failed_result.events))
      (failed_result.events)
      failed_result
unfolding run_agent resolve_ll_client
run_agent_blocking-returns_example =
    run_agent_blocking-returns small_json two_tools next context
      (some (refused (codes "timeout")) ∷ []) false start failed_result
      (length (failed_result.events)) (failed_result.events) refl
      (next-Delivers (failed_result.events)) (omega arith)
