-- ===== src/Worker/Retries.antt =====
-- What a worker makes of a task whose workflow fails.
use automated_workflow.Prelude.{
  ℕ, ◌<◌, ◌*◌, ◌-◌, ◌^◌, String, true, none, some, List, str_append, ◌≢◌, ◌≡◌, refl, arith,
}
use automated_workflow.Prelude.Tests.{ltb, ne→str_eq}
use automated_workflow.Prelude.Outcome.{returned, raised, Error, repository_error}
use automated_workflow.Prelude.Json.{str, field, end}
use automated_workflow.Prelude.Table.{find_where, insert_row, update_where}
use automated_workflow.Prelude.Rows.{find_where-update_where}
use automated_workflow.Prelude.Text.{last_chars, show}
use automated_workflow.Models.{TaskStatus, queued}
use automated_workflow.Schema.{Db, TaskRow, JobRow}
use automated_workflow.Config.{Settings}
use automated_workflow.Storage.Tasks.{Store, TaskFields, no_fields, has_id}
use automated_workflow.Storage.Tasks.Writes.{
  get_task-found, found-written, update_task-found, written, add_event-found,
}
use automated_workflow.Storage.Jobs.{of_task, failed_job, is_owned, fail_job, retry_delay}
use automated_workflow.Workflow.{run_guarded}
use automated_workflow.Worker.{execute_job}

-- The fields that the wrapper of the workflow writes on a failure.
abbrev failure_fields : String → TaskFields
failure_fields text = record no_fields { status = some TaskStatus.failed; error = some (some text) }

-- The task after its job was queued again: its message gives the delay and the error, of which no
-- more is kept than the last 8000 characters.
abbrev pub retried : String → ℕ → ℕ → TaskRow → TaskRow
retried text delay now t = record t {
  status = queued;
  error =
      some
        (last_chars 8000 (str_append "任务将在 " (str_append (show delay) (str_append " 秒后重试：" text))));
  updated_at = now;
}

fail-retried :
    (task_id owner text : String) (base now : ℕ) (db : Db) (row : JobRow)
    → find_where (is_owned task_id owner) db.jobs ≡ some row
    → ltb row.attempts row.max_attempts ≡ true
    → (jobs : List JobRow) × (fail_job task_id owner text base now db ≡ (
      true,
      record db {
        jobs = jobs;
        tasks =
            update_where
              (has_id task_id)
              (retried text (retry_delay base row.attempts) now)
              db.tasks;
      },
    ))
unfolding fail_job
fail-retried task_id owner text base now db row held left = (
  update_where (of_task task_id) (failed_job true (retry_delay base row.attempts) text now) db.jobs,
  rw (held, left) refl,
)

-- When a workflow fails with a repository error whose text is not empty, and afterwards the task
-- exists and the worker still owns its job with an attempt left, then the worker's report returns,
-- and the task is queued again, with a message that gives the delay, the base doubled for each
-- attempt after the first, and ends with that error, cut to its last 8000 characters.
pub execute_retried :
    (error_text trace : Error → String) (run : String → Store (Unit {0})) (settings : Settings)
    (task_id owner message : String) (now : ℕ) (db db1 : Db) (task : TaskRow) (row : JobRow)
    → run task_id db ≡ (raised (repository_error message), db1)
    → find_where (has_id task_id) db1.tasks ≡ some task
    → find_where (is_owned task_id owner) db1.jobs ≡ some row
    → row.attempts < row.max_attempts
    → error_text (repository_error message) ≢ ""
    → let r = execute_job error_text trace run settings task_id owner now db in
      (r.0 ≡ returned tt)
      × (find_where (has_id task_id) r.1.tasks
          ≡ some (
              retried
                (error_text (repository_error message))
                (settings.job_retry_base_seconds * 2 ^ (row.attempts - 1))
                now
                task))
unfolding execute_job run_guarded
execute_retried error_text trace run settings task_id owner message now db db1 task row e found held
      left named =
    let text = error_text (repository_error message) in
    let fields = failure_fields text in
    let db2 : Db = record db1 { tasks = written task_id db1 task found fields now } in
    let here = found-written task_id db1 task found fields now in
    let (event, added) =
      add_event-found task_id db2 _ here (str_append "工作流失败：" text) none "error"
        (field "trace" (str (last_chars 8000 (trace (repository_error message)))) end) now in
    let db3 : Db = record db2 { events = insert_row event db2.events } in
    let (jobs, failed) =
      fail-retried task_id owner text settings.job_retry_base_seconds now db3 row held
        (ground (arith, left)) in
    let again = retried text (retry_delay settings.job_retry_base_seconds row.attempts) now in
    let db4 : Db = record db3 {
      jobs = jobs;
      tasks = update_where (has_id task_id) again db3.tasks;
    } in
    let there : find_where (has_id task_id) db4.tasks ≡ some (again task) =
      rw (find_where-update_where (has_id task_id) again db3.tasks (λ t. refl), here) refl in
    let (event', added') =
      add_event-found task_id db4 _ there "持久化 Worker 已安排自动重试" none "warning" end now in
    rw
      (
        e,
        update_task-found task_id db1 task found fields now,
        added,
        get_task-found task_id db3 _ here,
        ne→str_eq text "" named,
        failed,
        added',
      )
      (refl, there)
