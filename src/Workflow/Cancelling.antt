-- ===== src/Workflow/Cancelling.antt =====
-- What a request to cancel does to a task and to the workflow that runs it.
use automated_workflow.Prelude.{ℕ, String, true, ◌&&◌, none, some, ◌≡◌, refl, arith}
use automated_workflow.Prelude.Outcome.{returned, raised, Error, task_cancelled, ◌>>◌}
use automated_workflow.Prelude.Json.{Fields, end}
use automated_workflow.Prelude.Table.{find_where, count_where, insert_row}
use automated_workflow.Prelude.Updates.{count_where-update_where_self}
use automated_workflow.Models.{TaskStatus, queued, running, JobStatus, Stage, is_pending}
use automated_workflow.Schema.{Db, TaskRow}
use automated_workflow.Storage.Tasks.{Store, has_id, TaskFields, no_fields}
use automated_workflow.Storage.Tasks.Writes.{
  found-written, add_event-found, get_task-found, update_task-found, written,
}
use automated_workflow.Storage.Jobs.{of_task, cancel_job, released}
use automated_workflow.Workflow.{cancel, check_cancelled, enter, run_guarded}

-- A task that exists and whose cancellation was requested enters no stage: the attempt ends with
-- the exception for it, and the database stays as it is.
enter_cancelled :
    (task_id : String) (stage : Stage) (message : String) (payload : Fields) (now : ℕ) (db : Db)
    (task : TaskRow)
    → find_where (has_id task_id) db.tasks ≡ some task
    → task.cancel_requested ≡ true
    → enter task_id stage message payload now db ≡ (raised task_cancelled, db)
unfolding enter check_cancelled
enter_cancelled task_id stage message payload now db task found c =
    rw (get_task-found task_id db task found, c) refl

abbrev cancelled_fields : TaskFields
cancelled_fields = record no_fields {
  status = some TaskStatus.cancelled;
  cancel_requested = some true;
}

-- A queued task that is cancelled is cancelled at once, with its cancellation requested, and no
-- pending job of it is left for a worker or a runner to take.
pub cancel_at_once :
    (task_id : String) (now : ℕ) (db : Db) (task : TaskRow)
    → find_where (has_id task_id) db.tasks ≡ some task
    → task.status ≡ queued
    → let r = cancel task_id now db in
      (r.0
        ≡ returned (record task {
          status = TaskStatus.cancelled;
          cancel_requested = true;
          updated_at = now;
        }))
      × (count_where (λ j. of_task task_id j && is_pending j.status) r.1.jobs ≡ 0)
unfolding cancel cancel_job
cancel_at_once task_id now db task found q =
    let db1 = cancel_job task_id now db in
    let (event, added) = add_event-found task_id db1 task found "已取消排队任务" none "warning" end now in
    rw
      (
        get_task-found task_id db task found,
        q,
        added,
        update_task-found task_id (record db1 { events = insert_row event db1.events }) task found
            cancelled_fields now,
      )
      (
        refl,
        count_where-update_where_self (λ j. of_task task_id j && is_pending j.status)
            (released JobStatus.cancelled now) db.jobs (λ j. ground arith),
      )

abbrev stopped_fields : TaskFields
stopped_fields = record no_fields { status = some TaskStatus.cancelled; error = some none }

-- The wrapper on the exception for a cancellation.
run_cancelled :
    (error_text trace : Error → String) (run : String → Store (Unit {0})) (task_id : String)
    (now : ℕ) (db db1 : Db) (task : TaskRow)
    → run task_id db ≡ (raised task_cancelled, db1)
    → find_where (has_id task_id) db1.tasks ≡ some task
    → let r = run_guarded error_text trace run task_id now db in
      (r.0 ≡ returned tt)
      × (find_where (has_id task_id) r.1.tasks
          ≡ some (record task { status = TaskStatus.cancelled; error = none; updated_at = now }))
unfolding run_guarded
run_cancelled error_text trace run task_id now db db1 task e found =
    let here = found-written task_id db1 task found stopped_fields now in
    let db2 : Db = record db1 { tasks = written task_id db1 task found stopped_fields now } in
    let (event, added) = add_event-found task_id db2 _ here "任务已取消" none "warning" end now in
    rw (e, update_task-found task_id db1 task found stopped_fields now, added) (refl, here)

abbrev request_fields : TaskFields
request_fields = record no_fields { cancel_requested = some true }

-- The cancellation of a running task leaves it running, with its cancellation requested.
requested :
    (task_id : String) (now : ℕ) (db : Db) (task : TaskRow)
    → find_where (has_id task_id) db.tasks ≡ some task
    → task.status ≡ running
    → find_where (has_id task_id) (cancel task_id now db).1.tasks
      ≡ some (record task { cancel_requested = true; updated_at = now })
unfolding cancel
requested task_id now db task found q =
    let (event, added) = add_event-found task_id db task found "已请求取消任务" none "warning" end now in
    let db1 : Db = record db { events = insert_row event db.events } in
    let here = found-written task_id db1 task found request_fields now in
    rw
      (
        get_task-found task_id db task found,
        q,
        added,
        update_task-found task_id db1 task found request_fields now,
      )
      (rw q at here)

-- A running task that is cancelled stops at the next stage that its workflow enters: whatever the
-- workflow would do from there on, its wrapper returns, with the task cancelled and without an
-- error.
pub cancelled_stops :
    (error_text trace : Error → String) (task_id : String) (stage : Stage) (message : String)
    (payload : Fields) (rest : Store (Unit {0})) (now now' : ℕ) (db : Db) (task : TaskRow)
    → find_where (has_id task_id) db.tasks ≡ some task
    → task.status ≡ running
    → let db1 = (cancel task_id now db).1 in
      let run = λ (id : String). enter id stage message payload now' >> rest in
      let r = run_guarded error_text trace run task_id now' db1 in
      (r.0 ≡ returned tt)
      × (find_where (has_id task_id) r.1.tasks
          ≡ some (record task {
            status = TaskStatus.cancelled;
            cancel_requested = true;
            error = none;
            updated_at = now';
          }))
cancelled_stops error_text trace task_id stage message payload rest now now' db task found q =
    let db1 = (cancel task_id now db).1 in
    let run = λ (id : String). enter id stage message payload now' >> rest in
    let here = requested task_id now db task found q in
    let asked : TaskRow = record task { cancel_requested = true; updated_at = now } in
    let stopped : run task_id db1 ≡ (raised task_cancelled, db1) =
      rw (enter_cancelled task_id stage message payload now' db1 asked here refl) refl in
    run_cancelled error_text trace run task_id now' db1 db1 asked stopped here
