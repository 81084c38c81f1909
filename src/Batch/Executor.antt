-- ===== src/Batch/Executor.antt =====
-- The execution of a batch's jobs: `execute_concurrent` of src/app/agent/batch/executor.rs
-- What the threads do is a parameter (`Outcomes`): the flag and the semaphore at the time the loop comes
-- to a job, and what a job's task does. `join_order` is the order in which the tasks end.
pub mod Totals
pub mod Order
use personal_productivity_ai.Common.{
  ℕ, zero, suc, ◌+◌, ◌%◌, Bool, true, false, Option, none, some, List, [], ◌∷◌, ◌++◌, map,
  if◌then◌else◌, length, ltb, get_elem?, ◌==◌,
}
use personal_productivity_ai.Common.Text.{Text, codes}
use personal_productivity_ai.Batch.{BatchJob, BatchJobStatus, pending, running, BatchResult}

-- How a task goes: it finds the cancel flag set, runs the agent, or panics.
pub data TaskRun : Type 0 where
  flag_set panicked : TaskRun
  ran : BatchJobStatus → Option Text → TaskRun

-- What a spawned task is given.
pub record Task : Type 0 where
  pub job : BatchJob
  pub model_name : Option Text

-- What the set of tasks yields for a task.
pub data Joined : Type 0 where
  ended : ℕ → BatchJobStatus → Option Text → Joined
  join_error : Joined

pub record Outcomes : Type 0 where
  pub new_runtime : Bool
  pub min_cost_models : List Text
  pub is_cancelled : ℕ → Bool
  pub acquire_owned : ℕ → Bool
  pub task_run : Task → TaskRun

unfoldable pub run_task : (Task → TaskRun) → Task → Joined
run_task task_run task = elim (task_run task) [
  | flag_set ↦ ended (task.job.id) BatchJobStatus.cancelled none
  | panicked ↦ join_error
  | ran status error ↦ ended (task.job.id) status error
]

-- The jobs and the counts as the executor goes; `rr_counter` numbers the tasks.
pub record Batch : Type 0 where
  pub jobs : List BatchJob
  pub tasks : List Task
  pub rr_counter : ℕ
  pub completed : ℕ
  pub failed : ℕ
  pub cancelled : ℕ

abbrev pub with_status : BatchJobStatus → BatchJob → BatchJob
with_status status job = record job { status = status }

-- The model of the next task: the models of least cost in turn, where there are several.
unfoldable pub model_for : List Text → ℕ → Option Text
model_for models i = if ltb 1 (length models) then get_elem? models (i % length models) else none

-- One pass of the loop over the jobs.
unfoldable pub start_job : Outcomes → BatchJob → Batch → Batch
unfolding model_for
start_job w job b =
    if w.is_cancelled (job.id)
    then record b {
      jobs = b.jobs ++ with_status BatchJobStatus.cancelled job ∷ [];
      cancelled = b.cancelled + 1;
    }
    else if w.acquire_owned (job.id)
    then record b {
      jobs = b.jobs ++ with_status running job ∷ [];
      tasks =
          b.tasks
          ++ record { job = job; model_name = model_for (w.min_cost_models) (b.rr_counter) } ∷ [];
      rr_counter = b.rr_counter + 1;
    }
    else record b {
      jobs = b.jobs ++ with_status BatchJobStatus.failed job ∷ [];
      failed = b.failed + 1;
    }

unfoldable pub start_jobs : Outcomes → List BatchJob → Batch → Batch
unfolding start_job
start_jobs w [] b = b
start_jobs w (job ∷ jobs) b = start_jobs w jobs (start_job w job b)

abbrev pub set_error : Option Text → BatchJob → BatchJob
set_error none job = job
set_error (some e) job = record job { error = some e }

-- The first job of an id is given its status and its error.
unfoldable pub finish_job : ℕ → BatchJobStatus → Option Text → List BatchJob → List BatchJob
finish_job id status error [] = []
finish_job id status error (job ∷ jobs) =
    let rest = finish_job id status error jobs in
    if job.id == id then set_error error (with_status status job) ∷ jobs else job ∷ rest

abbrev pub count_status : BatchJobStatus → Batch → Batch
count_status BatchJobStatus.failed b = record b { failed = b.failed + 1 }
count_status BatchJobStatus.cancelled b = record b { cancelled = b.cancelled + 1 }
count_status BatchJobStatus.completed b = record b { completed = b.completed + 1 }
count_status pending b = record b { completed = b.completed + 1 }
count_status running b = record b { completed = b.completed + 1 }

-- One result of the set of tasks.
unfoldable pub join_one : Joined → Batch → Batch
unfolding finish_job
join_one join_error b = record b { failed = b.failed + 1 }
join_one (ended id status error) b =
    count_status status (record b { jobs = finish_job id status error (b.jobs) })

unfoldable pub join_results : List Joined → Batch → Batch
unfolding join_one
join_results [] b = b
join_results (r ∷ results) b = join_results results (join_one r b)

-- The state when each job has been started or refused, and when each task has ended.
unfoldable pub run_jobs : Outcomes → (List Joined → List Joined) → List BatchJob → Batch
unfolding start_jobs run_task join_results
run_jobs w join_order jobs =
    let b = start_jobs w jobs (record {
      jobs = [];
      tasks = [];
      rr_counter = 0;
      completed = 0;
      failed = 0;
      cancelled = 0;
    }) in
    join_results (join_order (map (run_task (w.task_run)) (b.tasks))) b

abbrev pub result_of : ℕ → ℕ → ℕ → ℕ → BatchResult
result_of total_jobs completed failed cancelled = record {
  total_jobs = total_jobs;
  completed = completed;
  failed = failed;
  cancelled = cancelled;
}

unfoldable pub execute_concurrent :
    Outcomes → (List Joined → List Joined) → List BatchJob → BatchResult
unfolding run_jobs
execute_concurrent w join_order jobs =
    let b = run_jobs w join_order jobs in
    if w.new_runtime
    then result_of (length jobs) (b.completed) (b.failed) (b.cancelled)
    else result_of (length jobs) 0 0 0
