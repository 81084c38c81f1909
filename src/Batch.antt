-- ===== src/Batch.antt =====
-- Batch processing: src/app/agent/batch (types.rs, executor.rs, coordinator.rs)
-- A job leaves out the times at which it started and ended, and a result its duration. A path is its
-- text. `Executor` runs the jobs, `Blocking` one of them, `Coordinator` makes the jobs.
pub mod Executor
pub mod Blocking
pub mod Coordinator
mod Tests
use personal_productivity_ai.Common.{
  ℕ, ◌+◌, Bool, true, false, not, ◌&&◌, ◌||◌, Option, none, some, List, [], ◌∷◌, ◌++◌,
  if◌then◌else◌, length, ltb,
}
use personal_productivity_ai.Common.Text.{Text, codes}
use personal_productivity_ai.Common.Trim.{trim, is_empty}

pub data BatchMode : Type 0 where
  file directory : BatchMode

pub data BatchJobStatus : Type 0 where
  pending running completed failed cancelled : BatchJobStatus

pub record BatchJob : Type 0 where
  pub id : ℕ
  pub target_path : Text
  pub active_file : Option Text
  pub active_dir : Option Text
  pub prompt_text : Text
  pub status : BatchJobStatus
  pub error : Option Text

pub record BatchResult : Type 0 where
  pub total_jobs : ℕ
  pub completed : ℕ
  pub failed : ℕ
  pub cancelled : ℕ

-- `mode == BatchMode::File`
abbrev is_file : BatchMode → Bool
is_file file = true
is_file directory = false

-- The message of an error, none where the parameters are valid; `glob_error` is the error of
-- `glob::Pattern::new`, where it has one.
unfoldable pub validate_batch_params : (Text → Option Text) → BatchMode → Text → ℕ → Option Text
unfolding trim is_empty
validate_batch_params glob_error mode pattern concurrency =
    if not (ltb 0 concurrency && ltb concurrency 9)
    then some (codes "Concurrency must be 1-8")
    else if is_file mode
    then (if is_empty (trim pattern)
        then some (codes "Pattern is required for File mode")
        else (elim (glob_error pattern) [
          | none ↦ none
          | some e ↦ some (codes "Invalid glob pattern: " ++ e)
        ]))
    else none
