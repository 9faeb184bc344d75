-- ===== src/Workflow/Starting.antt =====
-- What the start of a task leaves.
use automated_workflow.Prelude.{ℕ, String, true, false, none, some, str_eq, ◌≡◌, refl}
use automated_workflow.Prelude.Tests.{given_text}
use automated_workflow.Prelude.Outcome.{returned}
use automated_workflow.Prelude.Json.{end}
use automated_workflow.Prelude.Table.{find_where, any_where, insert_row}
use automated_workflow.Prelude.Updates.{any_where-found}
use automated_workflow.Models.{queued}
use automated_workflow.Schema.{Db, TaskRow, JobRow}
use automated_workflow.Config.{Settings}
use automated_workflow.Storage.Tasks.{has_id}
use automated_workflow.Storage.Tasks.Writes.{
  get_task-found, found-written, update_task-found, written, add_event-found,
}
use automated_workflow.Storage.Jobs.{of_task}
use automated_workflow.Storage.Jobs.Enqueue.{IsQueued, enqueue_lem}
use automated_workflow.Workflow.{
  is_startable, has_routes, start_fields, start, queued_message, start_target,
}

-- A task without a runner that is a draft or has failed, with routes to the agents (or none
-- needed) and an unused job identifier, can be started: it is queued, with no error, no request
-- to cancel and progress 1, and its job is one for the server that is due at once, has no owner
-- and has used none of its attempts.
pub start_queued :
    (settings : Settings) (job_id task_id : String) (now : ℕ) (db : Db) (task : TaskRow)
    → find_where (has_id task_id) db.tasks ≡ some task
    → is_startable task.status ≡ true
    → given_text task.runner_id ≡ none
    → has_routes settings none ≡ true
    → any_where (λ j. str_eq j.id job_id) db.jobs ≡ false
    → let r = start settings job_id task_id now db in
      (r.0
        ≡ returned (record task {
          status = queued;
          progress = 1;
          error = none;
          cancel_requested = false;
          updated_at = now;
        }))
      × ((j : JobRow) × (find_where (of_task task_id) r.1.jobs ≡ some j)
          × IsQueued task_id "server" settings.job_max_attempts now j)
unfolding start start_target
start_queued settings job_id task_id now db task found startable server routes fresh =
    let here = found-written task_id db task found start_fields now in
    let db1 : Db = record db { tasks = written task_id db task found start_fields now } in
    let (j, jobs, q, k, i) =
      enqueue_lem job_id task_id "server" settings.job_max_attempts now db1
        (any_where-found (has_id task_id) db1.tasks _ here) fresh in
    let db2 : Db = record db1 { jobs = jobs } in
    let (event, added) =
      add_event-found task_id db2 _ here (queued_message task.status none) none "info" end now in
    let db3 : Db = record db2 { events = insert_row event db2.events } in
    rw
      (
        get_task-found task_id db task found,
        startable,
        server,
        routes,
        update_task-found task_id db task found start_fields now,
        q,
        added,
        get_task-found task_id db3 _ here,
      )
      (refl, (j, k, i))
