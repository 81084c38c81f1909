-- ===== src/Batch/Executor/Totals.antt =====
-- What the counts of a batch add up to: src/app/agent/batch/executor.rs
use personal_productivity_ai.Common.{
  ℕ, ◌+◌, ◌≡◌, refl, true, List, [], ◌∷◌, map, arith, length, length-append, length-map, Bool-cases,
  inl, inr,
}
use personal_productivity_ai.Common.Reorder.{Reordering, length-reorder}
use personal_productivity_ai.Batch.{BatchJob, BatchJobStatus, pending, running}
use personal_productivity_ai.Batch.Executor.{
  model_for, Joined, ended, join_error, Outcomes, Batch, run_task, start_job, start_jobs, join_one,
  join_results, run_jobs, execute_concurrent,
}

abbrev settled : Batch → ℕ
settled b = b.completed + b.failed + b.cancelled

start_job-settled :
    (w : Outcomes) (job : BatchJob) (b : Batch)
    → settled (start_job w job b) + length ((start_job w job b).tasks)
      ≡ settled b + length (b.tasks) + 1
unfolding start_job
start_job-settled w job b = elim (Bool-cases (w.is_cancelled (job.id))) [
  | inl e ↦ rw e (omega arith)
  | inr e ↦ elim (Bool-cases (w.acquire_owned (job.id))) [
    | inl f ↦
        rw (e, f)
          (omega (
            arith,
            length-append (b.tasks) (
                record { job = job; model_name = model_for (w.min_cost_models) (b.rr_counter) }
                ∷ []),
          ))
    | inr f ↦ rw (e, f) (omega arith)
  ]
]

start_jobs-settled :
    (w : Outcomes) (jobs : List BatchJob) (b : Batch)
    → settled (start_jobs w jobs b) + length ((start_jobs w jobs b).tasks)
      ≡ settled b + length (b.tasks) + length jobs
unfolding start_jobs
start_jobs-settled w [] b = omega arith
start_jobs-settled w (job ∷ jobs) b =
    omega (arith, start_jobs-settled w jobs (start_job w job b), start_job-settled w job b)

join_one-settled : (r : Joined) (b : Batch) → settled (join_one r b) ≡ settled b + 1
unfolding join_one
join_one-settled join_error b = omega arith
join_one-settled (ended id BatchJobStatus.failed error) b = omega arith
join_one-settled (ended id BatchJobStatus.cancelled error) b = omega arith
join_one-settled (ended id BatchJobStatus.completed error) b = omega arith
join_one-settled (ended id pending error) b = omega arith
join_one-settled (ended id running error) b = omega arith

join_results-settled :
    (results : List Joined) (b : Batch)
    → settled (join_results results b) ≡ settled b + length results
unfolding join_results
join_results-settled [] b = omega arith
join_results-settled (r ∷ results) b =
    omega (arith, join_results-settled results (join_one r b), join_one-settled r b)

-- Where the runtime starts and each task is joined once, each job is counted once: as completed, failed or
-- cancelled, whatever the cancel flag, the semaphore and the tasks do.
pub execute_concurrent-total :
    (w : Outcomes) (join_order : List Joined → List Joined) (jobs : List BatchJob)
    → w.new_runtime ≡ true
    → ((results : List Joined) → Reordering results (join_order results))
    → let r = execute_concurrent w join_order jobs in
      r.completed + r.failed + r.cancelled ≡ r.total_jobs
unfolding execute_concurrent run_jobs
execute_concurrent-total w join_order jobs up joined =
    let b0 : Batch = record {
      jobs = [];
      tasks = [];
      rr_counter = 0;
      completed = 0;
      failed = 0;
      cancelled = 0;
    } in
    let b = start_jobs w jobs b0 in
    let results = map (run_task (w.task_run)) (b.tasks) in
    rw up (
      omega (
        arith,
        join_results-settled (join_order results) b,
        length-reorder (joined results),
        length-map (run_task (w.task_run)) (b.tasks),
        start_jobs-settled w jobs b0,
      ))

pub total_jobs-execute_concurrent :
    (w : Outcomes) (join_order : List Joined → List Joined) (jobs : List BatchJob)
    → (execute_concurrent w join_order jobs).total_jobs ≡ length jobs
unfolding execute_concurrent
total_jobs-execute_concurrent w join_order jobs = elim (Bool-cases (w.new_runtime)) [
  | inl e ↦ rw e refl
  | inr e ↦ rw e refl
]
