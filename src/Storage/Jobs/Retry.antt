-- ===== src/Storage/Jobs/Retry.antt =====
-- What `fail_job` does to a job, and when the job is handed out again.
use automated_workflow.Prelude.{
  ℕ, ◌+◌, ◌-◌, ◌*◌, ◌^◌, ◌<◌, ◌≤◌, String, Bool, true, false, some, ◌≡◌, refl, sym, ◌∙◌, ap, arith,
}
use automated_workflow.Prelude.Tests.{eq→str_eq, ltb, if◌then◌else◌}
use automated_workflow.Prelude.Outcome.{returned}
use automated_workflow.Prelude.Table.{update_where, find_where}
use automated_workflow.Prelude.Rows.{Occurs, Occurs-update_where}
use automated_workflow.Schema.{Db, JobRow}
use automated_workflow.Storage.Jobs.{
  is_owned, of_task, lease_job, seconds, fail_job, failed_job, retry_delay,
}
use automated_workflow.Storage.Jobs.Calls.{fails, step}
use automated_workflow.Storage.Jobs.Invariant.{IsQueue, step-IsQueue}
use automated_workflow.Storage.Jobs.Lease.{lease_job-IsGrant}

module _ (task_id owner error : String) (base now : ℕ) (db : Db) (row : JobRow) where
  abbrev retry : Bool
  retry = ltb row.attempts row.max_attempts

  jobs-fail :
      find_where (is_owned task_id owner) db.jobs ≡ some row
      → (fail_job task_id owner error base now db).1.jobs
        ≡ update_where
            (of_task task_id)
            (failed_job retry (retry_delay base row.attempts) error now)
            db.jobs
  unfolding fail_job
  jobs-fail e = rw e

  -- The jobs of the task after the failure.
  failed_of_Occurs :
      find_where (is_owned task_id owner) db.jobs ≡ some row
      → (j : JobRow) → Occurs j (fail_job task_id owner error base now db).1.jobs
      → j.task_id ≡ task_id
      → (x : JobRow) × (j ≡ failed_job retry (retry_delay base row.attempts) error now x)
  failed_of_Occurs e j o t =
      let (x, m, u) =
        Occurs-update_where (of_task task_id)
          (failed_job retry (retry_delay base row.attempts) error now) db.jobs j
          (rw (jobs-fail e) at o) in
      (x, go x (of_task task_id x) refl u)
    where
      go :
          (x : JobRow) (b : Bool)
          → of_task task_id x ≡ b
          → j ≡ (if b then failed_job retry (retry_delay base row.attempts) error now x else x)
          → j ≡ failed_job retry (retry_delay base row.attempts) error now x
      go x true h u = u
      go x false h u =
          absurd (cc (h, eq→str_eq x.task_id task_id (sym (ap (λ (k : JobRow). k.task_id) u) ∙ t)))

  fail-IsQueue : IsQueue db.jobs → IsQueue (fail_job task_id owner error base now db).1.jobs
  unfolding step
  fail-IsQueue q = step-IsQueue (fails task_id owner error base) now db tt q

-- From a queue that keeps its invariant, let the owner of a job report that its attempt failed.
-- If the job is leased after that, with no call in between, then it had attempts left, and the
-- time of the lease is not before the end of the back-off: the base delay in seconds, doubled
-- for each attempt after the first one.
pub fail_backoff :
    (task_id owner error : String) (base now : ℕ) (db : Db) (row : JobRow) (target owner' : String)
    (lease_seconds now' : ℕ) (db2 : Db) (k : JobRow)
    → IsQueue db.jobs
    → find_where (is_owned task_id owner) db.jobs ≡ some row
    → lease_job target owner' lease_seconds now' (fail_job task_id owner error base now db).1
      ≡ (returned (some k), db2)
    → k.task_id ≡ task_id
    → (row.attempts < row.max_attempts) × (now + seconds (base * 2 ^ (row.attempts - 1)) ≤ now')
fail_backoff task_id owner error base now db row target owner' lease_seconds now' db2 k q e l t =
    let g =
      lease_job-IsGrant target owner' lease_seconds now'
        (fail_job task_id owner error base now db).1 db2 k
        (fail-IsQueue task_id owner error base now db row q) l in
    let (x, f) =
      failed_of_Occurs task_id owner error base now db row e g.row g.occurred
        (sym g.same_job.1 ∙ t) in
    ground (arith, g.free)
