-- ===== src/Storage/Jobs/Calls.antt =====
-- The calls that the server and the runners make on the queue of jobs, as values: a history of the
-- queue is a list of calls with the times at which they are made.
use automated_workflow.Prelude.{ℕ, String, false, Option, List, [], ◌∷◌, ◌≡◌}
use automated_workflow.Models.{JobStatus, Stage, is_leased}
use automated_workflow.Schema.{Db}
use automated_workflow.Storage.Jobs.{
  enqueue_job, recover_expired_jobs, lease_job, renew_job, checkpoint_job, complete_job, fail_job,
  cancel_job,
}

pub data JobCall : Type 0 where
  -- job id, task, target, max_attempts
  enqueues : String → String → String → ℕ → JobCall
  recovers : Option String → JobCall
  -- target, owner, lease_seconds
  leases : String → String → ℕ → JobCall
  -- task, owner, lease_seconds
  renews : String → String → ℕ → JobCall
  checkpoints : String → Stage → JobCall
  completes : String → String → JobStatus → JobCall
  -- task, owner, error, retry_base_seconds
  fails : String → String → String → ℕ → JobCall
  cancels : String → JobCall

-- The database after a call.
unfoldable pub step : JobCall → ℕ → Db → Db
step (enqueues job_id task_id target max_attempts) now db =
    (enqueue_job job_id task_id target max_attempts now db).1
step (recovers target) now db = (recover_expired_jobs target now db).1
step (leases target owner lease_seconds) now db = (lease_job target owner lease_seconds now db).1
step (renews task_id owner lease_seconds) now db = (renew_job task_id owner lease_seconds now db).1
step (checkpoints task_id stage) now db = checkpoint_job task_id stage now db
step (completes task_id owner status) now db = complete_job task_id owner status now db
step (fails task_id owner error retry_base_seconds) now db =
    (fail_job task_id owner error retry_base_seconds now db).1
step (cancels task_id) now db = cancel_job task_id now db

unfoldable pub run : List (ℕ × JobCall) → Db → Db
run [] db = db
run ((now, c) ∷ cs) db = run cs (step c now db)

-- Every caller of `complete_job` passes a final status.
abbrev pub IsAllowed : JobCall → Type 0
IsAllowed (completes task_id owner status) = is_leased status ≡ false
IsAllowed _ = Unit
