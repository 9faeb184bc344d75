-- ===== src/Storage/Jobs.antt =====
-- app/storage.py: the methods over the table of jobs. Each runs in one transaction, so a step of the
-- model is a transaction and the lock of the class adds nothing.
pub mod Calls
pub mod Invariant
pub mod Lease
pub mod Held
pub mod Exclusive
pub mod Retry
pub mod Enqueue
use automated_workflow.Prelude.{
  ℕ, ◌+◌, ◌-◌, ◌*◌, ◌^◌, String, Bool, true, false, ◌&&◌, Option, none, some, List, [], ◌∷◌, map,
  str_eq, str_append,
}
use automated_workflow.Prelude.Tests.{ltb, leb, if◌then◌else◌, holds_text, holds_le}
use automated_workflow.Prelude.Outcome.{
  Outcome, returned, raised, key_error, integrity_error, runtime_error, ◌>>◌,
}
use automated_workflow.Prelude.Text.{last_chars, show}
use automated_workflow.Prelude.Table.{
  length, update_where, select_where, find_where, count_where, any_where, insert_row, order_by,
  member, first,
}
use automated_workflow.Models.{JobStatus, Stage, queued, is_pending, is_leased}
use automated_workflow.Schema.{Db, TaskRow, JobRow}
use automated_workflow.Storage.Tasks.{Store, has_id}

-- timedelta(seconds=n), in microseconds
abbrev pub seconds : ℕ → ℕ
seconds n = n * 1000000

abbrev pub of_task : String → JobRow → Bool
of_task task_id j = str_eq j.task_id task_id

unfoldable pub found_job : String → Option JobRow → Outcome JobRow
found_job task_id none = raised (key_error task_id)
found_job task_id (some j) = returned j

unfoldable pub get_job_for_task : String → Store JobRow
unfolding found_job
get_job_for_task task_id db = (found_job task_id (find_where (of_task task_id) db.jobs), db)

abbrev pub new_job : String → String → String → ℕ → ℕ → JobRow
new_job job_id task_id target max_attempts now = record {
  id = job_id;
  task_id = task_id;
  target = target;
  status = JobStatus.pending;
  attempts = 0;
  max_attempts = max_attempts;
  available_at = now;
  lease_owner = none;
  lease_expires_at = none;
  checkpoint = none;
  last_error = none;
  created_at = now;
  updated_at = now;
}

-- ON CONFLICT(task_id) DO UPDATE: the identifier, the checkpoint and `created_at` stay.
abbrev pub renewed_job : String → ℕ → ℕ → JobRow → JobRow
renewed_job target max_attempts now j = record j {
  target = target;
  status = JobStatus.pending;
  attempts = 0;
  max_attempts = max_attempts;
  available_at = now;
  lease_owner = none;
  lease_expires_at = none;
  last_error = none;
  updated_at = now;
}

-- The INSERT. The task must exist (a foreign key), and a new identifier must be free.
unfoldable pub insert_job : String → String → String → ℕ → ℕ → Store (Unit {0})
insert_job job_id task_id target max_attempts now db =
    if any_where (has_id task_id) db.tasks
    then if any_where (of_task task_id) db.jobs
      then (
        returned tt,
        record db {
          jobs = update_where (of_task task_id) (renewed_job target max_attempts now) db.jobs;
        },
      )
      else if any_where (λ j. str_eq j.id job_id) db.jobs
      then (raised integrity_error, db)
      else (
        returned tt,
        record db { jobs = insert_row (new_job job_id task_id target max_attempts now) db.jobs },
      )
    else (raised integrity_error, db)

unfoldable pub enqueue_job : String → String → String → ℕ → ℕ → Store JobRow
unfolding insert_job get_job_for_task
enqueue_job job_id task_id target max_attempts now = do
  insert_job job_id task_id target max_attempts now
  get_job_for_task task_id

-- `status = 'leased' AND lease_expires_at <= ?`
abbrev pub is_expired : ℕ → JobRow → Bool
is_expired now j = is_leased j.status && holds_le j.lease_expires_at now

abbrev pub requeued : ℕ → JobRow → JobRow
requeued now j = record j {
  status = JobStatus.pending;
  lease_owner = none;
  lease_expires_at = none;
  updated_at = now;
}

abbrev pub requeued_task : ℕ → TaskRow → TaskRow
requeued_task now t = record t { status = queued; error = none; updated_at = now }

-- The two updates of the jobs and tasks with the given task identifiers.
unfoldable pub requeue : List String → ℕ → Db → Db
requeue task_ids now db = record db {
  jobs = update_where (λ j. member j.task_id task_ids) (requeued now) db.jobs;
  tasks = update_where (λ t. member t.id task_ids) (requeued_task now) db.tasks;
}

abbrev pub task_ids_of : List JobRow → List String
task_ids_of = map (λ j. j.task_id)

abbrev pub has_target : Option String → JobRow → Bool
has_target none j = true
has_target (some target) j = str_eq j.target target

abbrev pub requeue_rows : List JobRow → ℕ → Db → Db
requeue_rows [] now db = db
requeue_rows (j ∷ js) now db = requeue (task_ids_of (j ∷ js)) now db

unfoldable pub recover_expired_jobs : Option String → ℕ → Db → ℕ × Db
unfolding requeue
recover_expired_jobs target now db =
    let rows = select_where (λ j. is_expired now j && has_target target j) db.jobs in
    (length rows, requeue_rows rows now db)

-- The candidates of a lease: pending jobs of the target that are due.
abbrev pub is_due : String → ℕ → JobRow → Bool
is_due target now j = str_eq j.target target && is_pending j.status && leb j.available_at now

abbrev pub leased_to : String → ℕ → ℕ → JobRow → JobRow
leased_to owner expires_at now j = record j {
  status = JobStatus.leased;
  attempts = j.attempts + 1;
  lease_owner = some owner;
  lease_expires_at = some expires_at;
  updated_at = now;
}

-- What the transaction returns after the job was read again; an exception rolls back to `db`.
abbrev pub commit_lease : Db → Db → Option JobRow → Outcome (Option JobRow) × Db
commit_lease db db' none = (raised (runtime_error "Leased job disappeared"), db)
commit_lease db db' (some j) = (returned (some j), db')

abbrev pub claim : Db → Db → Option JobRow → String → ℕ → ℕ → Outcome (Option JobRow) × Db
claim db db' none owner expires_at now = (returned none, db')
claim db db' (some row) owner expires_at now =
    let jobs = update_where (λ j. str_eq j.id row.id) (leased_to owner expires_at now) db'.jobs in
    commit_lease db (record db' { jobs = jobs }) (find_where (λ j. str_eq j.id row.id) jobs)

-- The job that the SELECT … ORDER BY created_at LIMIT 1 returns.
unfoldable pub next_due : String → ℕ → List JobRow → Option JobRow
next_due target now jobs =
    first (order_by (λ j. j.created_at) (select_where (is_due target now) jobs))

unfoldable pub lease_job : String → String → ℕ → ℕ → Store (Option JobRow)
unfolding recover_expired_jobs next_due
lease_job target owner lease_seconds now db =
    let db' = (recover_expired_jobs (some target) now db).1 in
    claim db db' (next_due target now db'.jobs) owner (now + seconds lease_seconds) now

abbrev pub is_held : String → String → JobRow → Bool
is_held task_id owner j =
    str_eq j.task_id task_id && is_leased j.status && holds_text j.lease_owner owner

-- True if a row was updated.
unfoldable pub renew_job : String → String → ℕ → ℕ → Db → Bool × Db
renew_job task_id owner lease_seconds now db = (
  ltb 0 (count_where (is_held task_id owner) db.jobs),
  record db {
    jobs =
        update_where (is_held task_id owner)
          (λ j. record j {
            lease_expires_at = some (now + seconds lease_seconds);
            updated_at = now;
          })
          db.jobs;
  },
)

unfoldable pub checkpoint_job : String → Stage → ℕ → Db → Db
checkpoint_job task_id stage now db = record db {
  jobs =
      update_where (of_task task_id) (λ j. record j { checkpoint = some stage; updated_at = now })
        db.jobs;
}

abbrev pub is_owned : String → String → JobRow → Bool
is_owned task_id owner j = str_eq j.task_id task_id && holds_text j.lease_owner owner

abbrev pub released : JobStatus → ℕ → JobRow → JobRow
released status now j = record j {
  status = status;
  lease_owner = none;
  lease_expires_at = none;
  updated_at = now;
}

unfoldable pub complete_job : String → String → JobStatus → ℕ → Db → Db
complete_job task_id owner status now db = record db {
  jobs = update_where (is_owned task_id owner) (released status now) db.jobs;
}

-- The delay before attempt number `attempts` is tried again: retry_base_seconds * 2 ** max(0, attempts - 1).
abbrev pub retry_delay : ℕ → ℕ → ℕ
retry_delay retry_base_seconds attempts = retry_base_seconds * 2 ^ (attempts - 1)

abbrev pub failed_job : Bool → ℕ → String → ℕ → JobRow → JobRow
failed_job retry delay error now j = record j {
  status = if retry then JobStatus.pending else JobStatus.failed;
  available_at = if retry then now + seconds delay else now;
  lease_owner = none;
  lease_expires_at = none;
  last_error = some (last_chars 8000 error);
  updated_at = now;
}

abbrev pub retry_message : ℕ → String → String
retry_message delay error =
    last_chars 8000 (str_append "任务将在 " (str_append (show delay) (str_append " 秒后重试：" error)))

unfoldable pub fail_row : Option JobRow → String → String → ℕ → ℕ → Db → Bool × Db
fail_row none task_id error retry_base_seconds now db = (false, db)
fail_row (some row) task_id error retry_base_seconds now db =
    let retry = ltb row.attempts row.max_attempts in
    let delay = retry_delay retry_base_seconds row.attempts in
    (
      retry,
      record db {
        jobs = update_where (of_task task_id) (failed_job retry delay error now) db.jobs;
        tasks =
            if retry
            then update_where (has_id task_id)
                (λ t. record t {
                  status = queued;
                  error = some (retry_message delay error);
                  updated_at = now;
                })
                db.tasks
            else db.tasks;
      },
    )

-- True if the job will be tried again.
unfoldable pub fail_job : String → String → String → ℕ → ℕ → Db → Bool × Db
unfolding fail_row
fail_job task_id owner error retry_base_seconds now db =
    fail_row (find_where (is_owned task_id owner) db.jobs) task_id error retry_base_seconds now db

unfoldable pub cancel_job : String → ℕ → Db → Db
cancel_job task_id now db = record db {
  jobs =
      update_where (λ j. of_task task_id j && is_pending j.status)
        (released JobStatus.cancelled now) db.jobs;
}
