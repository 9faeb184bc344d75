-- ===== src/Storage/Tasks/Writes.antt =====
-- What a write to an existing task returns and leaves.
use automated_workflow.Prelude.{ℕ, String, Option, some, List, ◌≡◌, refl, arith}
use automated_workflow.Prelude.Outcome.{returned}
use automated_workflow.Prelude.Table.{find_where, update_where, insert_row}
use automated_workflow.Prelude.Rows.{Occurs-find_where, find_where-update_where}
use automated_workflow.Prelude.Updates.{any_where-found, count_where-Occurs}
use automated_workflow.Schema.{Db, TaskRow, EventRow}
use automated_workflow.Models.{Stage}
use automated_workflow.Prelude.Json.{Fields}
use automated_workflow.Storage.Events.{add_event, new_event}
use automated_workflow.Storage.Tasks.{
  has_id, found_task, TaskFields, apply_fields, get_task, write_fields, update_task,
}

module _ (task_id : String) (db : Db) (task : TaskRow)
    (found : find_where (has_id task_id) db.tasks ≡ some task) where
  pub get_task-found : get_task task_id db ≡ (returned task, db)
  unfolding get_task found_task
  get_task-found = rw found refl

  -- The table of tasks after the write.
  abbrev pub written : TaskFields → ℕ → List TaskRow
  written fields now = update_where (has_id task_id) (apply_fields fields now) db.tasks

  pub found-written :
      (fields : TaskFields) (now : ℕ)
      → find_where (has_id task_id) (written fields now) ≡ some (apply_fields fields now task)
  found-written fields now =
      rw
        (
          find_where-update_where (has_id task_id) (apply_fields fields now) db.tasks (λ t. refl),
          found,
        )
        refl

  pub update_task-found :
      (fields : TaskFields) (now : ℕ)
      → update_task task_id fields now db
        ≡ (returned (apply_fields fields now task), record db { tasks = written fields now })
  unfolding update_task write_fields get_task found_task
  update_task-found fields now =
      let (o, h) = Occurs-find_where (has_id task_id) db.tasks task found in
      ground
        (arith, count_where-Occurs (has_id task_id) db.tasks task o h, found-written fields now)

  pub add_event-found :
      (message : String) (stage : Option Stage) (level : String) (payload : Fields) (now : ℕ)
      → (e : EventRow) × (add_event task_id message stage level payload now db
          ≡ (returned e, record db { events = insert_row e db.events }))
  unfolding add_event
  add_event-found message stage level payload now = (
    new_event task_id message stage level payload now db,
    rw (any_where-found (has_id task_id) db.tasks task found) refl,
  )
