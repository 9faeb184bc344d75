-- ===== src/Gateway/Footprint.antt =====
-- Which tables the calls of the storage leave alone.
use automated_workflow.Prelude.{ℕ, String, List, Option, none, some, ◌≡◌, refl, arith}
use automated_workflow.Prelude.Json.{Fields}
use automated_workflow.Models.{Stage}
use automated_workflow.Schema.{Db, JobRow}
use automated_workflow.Storage.Tasks.{TaskFields, update_task, write_fields, get_task}
use automated_workflow.Storage.Jobs.{fail_job, fail_row, is_owned}
use automated_workflow.Prelude.Table.{find_where}
use automated_workflow.Storage.Events.{add_event, add_artifact}
use automated_workflow.Storage.Runners.{
  touch_runner, update_runner_capabilities, update_runner, get_runner,
}
use automated_workflow.Storage.Permissions.{
  create_permission_request, insert_request, get_permission_request,
}

-- Neither the tasks nor the jobs nor the log of messages change.
abbrev pub IsUntouched : Db → Db → Type 0
IsUntouched db d =
    (d.tasks ≡ db.tasks) × (d.jobs ≡ db.jobs) × (d.runner_messages ≡ db.runner_messages)

pub touched :
    (runner_id : String) (status : Option String) (metrics : Option Fields) (now : ℕ) (db : Db)
    → let d = (touch_runner runner_id status metrics now db).1 in IsUntouched db d
unfolding touch_runner update_runner get_runner
touched runner_id status metrics now db = ground arith

pub capable :
    (runner_id : String) (names : List String) (now : ℕ) (db : Db)
    → let d = (update_runner_capabilities runner_id names now db).1 in IsUntouched db d
unfolding update_runner_capabilities update_runner get_runner
capable runner_id names now db = ground arith

pub noted :
    (task_id message : String) (stage : Option Stage) (level : String) (payload : Fields) (now : ℕ)
    (db : Db)
    → let d = (add_event task_id message stage level payload now db).1 in IsUntouched db d
unfolding add_event
noted task_id message stage level payload now db = ground arith

pub stored :
    (task_id kind content : String) (now : ℕ) (db : Db)
    → let d = (add_artifact task_id kind content now db).1 in IsUntouched db d
unfolding add_artifact
stored task_id kind content now db = ground arith

pub requested :
    (id task_id runner_id operation reason : String) (now : ℕ) (db : Db)
    → let d = (create_permission_request id task_id runner_id operation reason now db).1 in
      IsUntouched db d
unfolding create_permission_request insert_request get_permission_request
requested id task_id runner_id operation reason now db = ground arith

pub update_task-messages :
    (task_id : String) (fields : TaskFields) (now : ℕ) (db : Db)
    → (update_task task_id fields now db).1.runner_messages ≡ db.runner_messages
unfolding update_task write_fields get_task
update_task-messages task_id fields now db = ground arith

fail_row-messages :
    (o : Option JobRow) (task_id error : String) (base now : ℕ) (db : Db)
    → (fail_row o task_id error base now db).1.runner_messages ≡ db.runner_messages
unfolding fail_row
fail_row-messages none task_id error base now db = refl
fail_row-messages (some row) task_id error base now db = refl

pub fail_job-messages :
    (task_id owner error : String) (base now : ℕ) (db : Db)
    → (fail_job task_id owner error base now db).1.runner_messages ≡ db.runner_messages
unfolding fail_job
fail_job-messages task_id owner error base now db =
    fail_row-messages (find_where (is_owned task_id owner) db.jobs) task_id error base now db
