-- ===== src/Batch/Executor/Order.antt =====
-- That the order in which the tasks of a batch end does not matter: src/app/agent/batch/executor.rs
use personal_productivity_ai.Common.{ℕ, ◌+◌, ◌≡◌, refl, ap, sym, ◌∙◌, List, [], ◌∷◌, map, arith}
use personal_productivity_ai.Common.Reorder.{Reordering}
use personal_productivity_ai.Batch.{BatchJob, BatchJobStatus, pending, running}
use personal_productivity_ai.Batch.Executor.{
  Joined, ended, join_error, Outcomes, Batch, run_task, start_jobs, join_one, join_results,
  run_jobs, execute_concurrent,
}

abbrev counts_failed : Joined → ℕ
counts_failed join_error = 1
counts_failed (ended id BatchJobStatus.failed error) = 1
counts_failed (ended id status error) = 0

abbrev counts_cancelled : Joined → ℕ
counts_cancelled (ended id BatchJobStatus.cancelled error) = 1
counts_cancelled r = 0

abbrev counts_completed : Joined → ℕ
counts_completed (ended id BatchJobStatus.completed error) = 1
counts_completed (ended id pending error) = 1
counts_completed (ended id running error) = 1
counts_completed r = 0

unfoldable sum_of : (Joined → ℕ) → List Joined → ℕ
sum_of f [] = 0
sum_of f (r ∷ results) = f r + sum_of f results

sum_of-reorder :
    (f : Joined → ℕ) {xs ys : List Joined} → Reordering xs ys → sum_of f xs ≡ sum_of f ys
unfolding sum_of
sum_of-reorder f Reordering.nil = refl
sum_of-reorder f (Reordering.cons e p) = omega (arith, ap f e, sum_of-reorder f p)
sum_of-reorder f (Reordering.swap e g h) = omega (arith, ap f e, ap f g, ap (sum_of f) h)
sum_of-reorder f (Reordering.trans p q) = sum_of-reorder f p ∙ sum_of-reorder f q

-- What the counts of a batch grow by.
abbrev GrowsBy : Batch → List Joined → Batch → Type 0
GrowsBy b results b' =
    (b'.completed ≡ b.completed + sum_of counts_completed results)
    × (b'.failed ≡ b.failed + sum_of counts_failed results)
    × (b'.cancelled ≡ b.cancelled + sum_of counts_cancelled results)

join_one-GrowsBy : (r : Joined) (b : Batch) → GrowsBy b (r ∷ []) (join_one r b)
unfolding join_one sum_of
join_one-GrowsBy join_error b = (omega arith, omega arith, omega arith)
join_one-GrowsBy (ended id BatchJobStatus.failed error) b = (omega arith, omega arith, omega arith)
join_one-GrowsBy (ended id BatchJobStatus.cancelled error) b =
    (omega arith, omega arith, omega arith)
join_one-GrowsBy (ended id BatchJobStatus.completed error) b =
    (omega arith, omega arith, omega arith)
join_one-GrowsBy (ended id pending error) b = (omega arith, omega arith, omega arith)
join_one-GrowsBy (ended id running error) b = (omega arith, omega arith, omega arith)

join_results-GrowsBy :
    (results : List Joined) (b : Batch) → GrowsBy b results (join_results results b)
unfolding join_results sum_of
join_results-GrowsBy [] b = (omega arith, omega arith, omega arith)
join_results-GrowsBy (r ∷ results) b =
    let (c, f, x) = join_one-GrowsBy r b in
    let (c', f', x') = join_results-GrowsBy results (join_one r b) in
    (omega (arith, c, c'), omega (arith, f, f'), omega (arith, x, x'))

-- The result of a batch does not depend on the order in which its tasks end.
pub execute_concurrent-order :
    (w : Outcomes) (join_order other : List Joined → List Joined) (jobs : List BatchJob)
    → ((results : List Joined) → Reordering (join_order results) (other results))
    → execute_concurrent w join_order jobs ≡ execute_concurrent w other jobs
unfolding execute_concurrent run_jobs
execute_concurrent-order w join_order other jobs p =
    let b = start_jobs w jobs (record {
      jobs = [];
      tasks = [];
      rr_counter = 0;
      completed = 0;
      failed = 0;
      cancelled = 0;
    }) in
    let results = map (run_task (w.task_run)) (b.tasks) in
    let (c, f, x) = join_results-GrowsBy (join_order results) b in
    let (c', f', x') = join_results-GrowsBy (other results) b in
    let same : (n : Joined → ℕ) → sum_of n (join_order results) ≡ sum_of n (other results) =
      λ n. sum_of-reorder n (p results) in
    rw
      (
        c ∙ ap (λ n. b.completed + n) (same counts_completed) ∙ sym c',
        f ∙ ap (λ n. b.failed + n) (same counts_failed) ∙ sym f',
        x ∙ ap (λ n. b.cancelled + n) (same counts_cancelled) ∙ sym x',
      )
      refl
