-- ===== src/Storage/Tasks.antt =====
-- app/storage.py: the methods over the table of tasks.
pub mod Created
pub mod Writes
use automated_workflow.Prelude.{
  ℕ, String, Bool, true, false, ◌&&◌, Option, none, some, List, str_eq,
}
use automated_workflow.Prelude.Tests.{◌==◌, if◌then◌else◌, or_else, holds_text}
use automated_workflow.Prelude.Outcome.{
  Action, Outcome, returned, raised, key_error, integrity_error, ◌>>◌,
}
use automated_workflow.Prelude.Table.{
  update_where, select_where, find_where, count_where, any_where, insert_row, order_by_desc, member,
  first, take, order_by,
}
use automated_workflow.Models.{
  TaskStatus, draft, queued, assigned, accepted, running, wait_permission, Stage,
}
use automated_workflow.Schema.{Db, TaskRow}

abbrev pub Store : Type 0 → Type 0
Store A = Action Db A

-- TaskCreate of app/models.py, as it arrives after validation.
pub record TaskCreate : Type 0 where
  pub title : String
  pub requirement : String
  pub repository : String
  pub project_id : Option String
  pub runner_id : Option String
  pub branch : String
  pub model : Option String
  pub build_command : Option String
  pub test_command : Option String
  pub include_local_changes : Bool
  pub sync_to_source : Bool
  pub auto_apply : Bool
  pub auto_commit : Bool

-- The keyword arguments of `update_task`: `none` where one is not given. The columns `stage` and
-- `error` may be set to NULL.
pub record TaskFields : Type 0 where
  pub status : Option TaskStatus
  pub stage : Option (Option Stage)
  pub progress : Option ℕ
  pub error : Option (Option String)
  pub cancel_requested : Option Bool
  pub branch : Option String

abbrev pub no_fields : TaskFields
no_fields = record {
  status = none;
  stage = none;
  progress = none;
  error = none;
  cancel_requested = none;
  branch = none;
}

abbrev pub has_id : String → TaskRow → Bool
has_id task_id t = str_eq t.id task_id

-- `request.project_id or "default"`, where an empty text counts as absent
abbrev pub or_text : Option String → String → String
or_text none d = d
or_text (some s) d = if str_eq s "" then d else s

unfoldable pub found_task : String → Option TaskRow → Outcome TaskRow
found_task task_id none = raised (key_error task_id)
found_task task_id (some t) = returned t

unfoldable pub get_task : String → Store TaskRow
unfolding found_task
get_task task_id db = (found_task task_id (find_where (has_id task_id) db.tasks), db)

new_task : String → TaskCreate → String → ℕ → TaskRow
new_task task_id request default_model now = record {
  id = task_id;
  title = request.title;
  requirement = request.requirement;
  repository = request.repository;
  project_id = or_text request.project_id "default";
  runner_id = request.runner_id;
  branch = request.branch;
  model = or_text request.model default_model;
  build_command = request.build_command;
  test_command = request.test_command;
  include_local_changes = request.include_local_changes;
  sync_to_source = request.sync_to_source;
  auto_apply = request.auto_apply;
  auto_commit = request.auto_commit;
  status = draft;
  stage = none;
  progress = 0;
  error = none;
  cancel_requested = false;
  created_at = now;
  updated_at = now;
}

-- The primary key of an INSERT must be free.
insert_task : TaskRow → Store (Unit {0})
insert_task t db =
    if any_where (has_id t.id) db.tasks
    then (raised integrity_error, db)
    else (returned tt, record db { tasks = insert_row t db.tasks })

unfoldable pub create_task : String → TaskCreate → String → ℕ → Store TaskRow
unfolding new_task insert_task
create_task task_id request default_model now = do
  insert_task (new_task task_id request default_model now)
  get_task task_id

-- `none` for all projects
unfoldable pub list_tasks : ℕ → Option (List String) → Db → List TaskRow
list_tasks limit none db = take limit (order_by_desc (λ t. t.created_at) db.tasks)
list_tasks limit (some project_ids) db = take limit (
    order_by_desc (λ t. t.created_at)
      (select_where (λ t. member t.project_id project_ids) db.tasks))

abbrev pub apply_fields : TaskFields → ℕ → TaskRow → TaskRow
apply_fields fields now t = record t {
  status = or_else fields.status t.status;
  stage = or_else fields.stage t.stage;
  progress = or_else fields.progress t.progress;
  error = or_else fields.error t.error;
  cancel_requested = or_else fields.cancel_requested t.cancel_requested;
  branch = or_else fields.branch t.branch;
  updated_at = now;
}

-- UPDATE tasks SET … WHERE id = ?, with the test of its row count
unfoldable pub write_fields : String → TaskFields → ℕ → Store (Unit {0})
write_fields task_id fields now db =
    if count_where (has_id task_id) db.tasks == 0 then (raised (key_error task_id), db) else (
      returned tt,
      record db { tasks = update_where (has_id task_id) (apply_fields fields now) db.tasks },
    )

unfoldable pub update_task : String → TaskFields → ℕ → Store TaskRow
unfolding write_fields get_task
update_task task_id fields now = do write_fields task_id fields now; get_task task_id

-- `status IN (queued, assigned, accepted, running, wait_permission)`
abbrev pub is_interrupted : TaskStatus → Bool
is_interrupted queued = true
is_interrupted assigned = true
is_interrupted accepted = true
is_interrupted running = true
is_interrupted wait_permission = true
is_interrupted _ = false

unfoldable pub recover_interrupted_tasks : ℕ → Db → ℕ × Db
recover_interrupted_tasks now db = (
  count_where (λ t. is_interrupted t.status) db.tasks,
  record db {
    tasks =
        update_where (λ t. is_interrupted t.status)
          (λ t. record t {
            status = TaskStatus.failed;
            error = some "服务重启中断了任务，请创建新任务重试";
            updated_at = now;
          })
          db.tasks;
  },
)

-- `status IN (assigned, accepted, running, wait_permission)`
abbrev pub is_active : TaskStatus → Bool
is_active assigned = true
is_active accepted = true
is_active running = true
is_active wait_permission = true
is_active _ = false

unfoldable pub get_runner_active_task : String → Db → Option TaskRow
get_runner_active_task runner_id db = first (
    order_by (λ t. t.created_at)
      (select_where (λ t. holds_text t.runner_id runner_id && is_active t.status) db.tasks))
