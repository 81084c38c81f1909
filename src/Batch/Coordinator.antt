-- ===== src/Batch/Coordinator.antt =====
-- The jobs of a batch: `run` of src/app/agent/batch/coordinator.rs
-- What `discover` finds is a parameter: the targets, or an error.
use personal_productivity_ai.Common.{
  ℕ, ◌+◌, ◌≡◌, refl, ◌∙◌, arith, true, Option, none, some, List, [], ◌∷◌, length,
}
use personal_productivity_ai.Common.Text.{Text}
use personal_productivity_ai.Common.Reorder.{Reordering}
use personal_productivity_ai.Batch.{BatchMode, file, directory, BatchJob, pending, BatchResult}
use personal_productivity_ai.Batch.Executor.{Joined, Outcomes, execute_concurrent}
use personal_productivity_ai.Batch.Executor.Totals.{
  execute_concurrent-total, total_jobs-execute_concurrent,
}

unfoldable pub job_of : BatchMode → Text → ℕ → Text → BatchJob
job_of file prompt_text idx target_path = record {
  id = idx;
  target_path = target_path;
  active_file = some target_path;
  active_dir = none;
  prompt_text = prompt_text;
  status = pending;
  error = none;
}
job_of directory prompt_text idx target_path = record {
  id = idx;
  target_path = target_path;
  active_file = none;
  active_dir = some target_path;
  prompt_text = prompt_text;
  status = pending;
  error = none;
}

-- The jobs of the targets, numbered from `idx`.
unfoldable pub jobs_from : BatchMode → Text → ℕ → List Text → List BatchJob
unfolding job_of
jobs_from mode prompt_text idx [] = []
jobs_from mode prompt_text idx (target ∷ targets) =
    job_of mode prompt_text idx target ∷ jobs_from mode prompt_text (idx + 1) targets

unfoldable pub run :
    Outcomes → (List Joined → List Joined) → BatchMode → Text → Option (List Text) → BatchResult
unfolding jobs_from execute_concurrent
run w join_order mode prompt_text none = record {
  total_jobs = 0;
  completed = 0;
  failed = 0;
  cancelled = 0;
}
run w join_order mode prompt_text (some []) = record {
  total_jobs = 0;
  completed = 0;
  failed = 0;
  cancelled = 0;
}
run w join_order mode prompt_text (some (target ∷ targets)) =
    execute_concurrent w join_order (jobs_from mode prompt_text 0 (target ∷ targets))

length-jobs_from :
    (mode : BatchMode) (prompt_text : Text) (idx : ℕ) (targets : List Text)
    → length (jobs_from mode prompt_text idx targets) ≡ length targets
unfolding jobs_from
length-jobs_from mode prompt_text idx [] = refl
length-jobs_from mode prompt_text idx (target ∷ targets) =
    omega (arith, length-jobs_from mode prompt_text (idx + 1) targets)

-- Where the runtime starts and each task is joined once, a batch has one job for each target found, and
-- counts each of them once: as completed, failed or cancelled.
pub run-total :
    (w : Outcomes) (join_order : List Joined → List Joined) (mode : BatchMode) (prompt_text : Text)
    (targets : List Text)
    → w.new_runtime ≡ true
    → ((results : List Joined) → Reordering results (join_order results))
    → let r = run w join_order mode prompt_text (some targets) in
      (r.total_jobs ≡ length targets) × (r.completed + r.failed + r.cancelled ≡ length targets)
unfolding run
run-total w join_order mode prompt_text [] up joined = (refl, refl)
run-total w join_order mode prompt_text (target ∷ targets) up joined =
    let jobs = jobs_from mode prompt_text 0 (target ∷ targets) in
    let e =
      total_jobs-execute_concurrent w join_order jobs
      ∙ length-jobs_from mode prompt_text 0 (target ∷ targets) in
    (e, execute_concurrent-total w join_order jobs up joined ∙ e)
