-- ===== src/Api/Tasks.antt =====
-- app/api.py: the endpoints of tasks and of the decisions on permissions.
pub mod Deciding
use automated_workflow.Prelude.{
  ℕ, String, Bool, not, Option, none, some, List, [], ◌∷◌, str_eq, str_append,
}
use automated_workflow.Prelude.Tests.{if◌then◌else◌, given_text}
use automated_workflow.Prelude.Outcome.{
  Outcome, returned, raised, http_error, pure, raise, asks, modify, transact, require, ◌>>=◌, ◌>>◌,
}
use automated_workflow.Prelude.Json.{Json, Fields, field, str, end}
use automated_workflow.Prelude.Text.{strip}
use automated_workflow.Models.{
  TaskStatus, running, failed, JobStatus, ProjectRole, owner, editor, viewer,
}
use automated_workflow.Schema.{
  Db, TaskRow, UserRow, EventRow, ArtifactRow, PermissionRow, RunnerRow,
}
use automated_workflow.Config.{Settings}
use automated_workflow.Auth.{require_project_role, visible_project_ids}
use automated_workflow.Storage.Tasks.{
  Store, TaskCreate, TaskFields, no_fields, create_task, get_task, update_task, list_tasks,
}
use automated_workflow.Storage.Events.{add_event, list_events, list_artifacts}
use automated_workflow.Storage.Jobs.{renew_job, complete_job}
use automated_workflow.Storage.Permissions.{
  get_permission_request, list_permission_requests, resolve_permission_request,
}
use automated_workflow.Storage.Projects.{user_project_ids}
use automated_workflow.Storage.Runners.{get_runner}
use automated_workflow.Workflow.{start, cancel}
use automated_workflow.Workflow.Approval.{approve}
use automated_workflow.Api.{or_missing, or_conflict, authorize_task}

pub record TaskDetail : Type 0 where
  pub task : TaskRow
  pub events : List EventRow
  pub artifacts : List ArtifactRow
  pub permissions : List PermissionRow

module _ (settings : Settings) (user : UserRow) (now : ℕ) where
  unfoldable pub list_visible_tasks : ℕ → Store (List TaskRow)
  list_visible_tasks limit = do
    projects ← asks (visible_project_ids user settings)
    asks (list_tasks limit projects)

  unfoldable pub get_task_detail : String → Store TaskDetail
  get_task_detail task_id = do
    authorize_task settings user task_id viewer
    task ← or_missing 404 "Task not found" (get_task task_id)
    events ← asks (list_events task_id 0)
    artifacts ← asks (list_artifacts task_id)
    permissions ← asks (list_permission_requests task_id)
    pure (record { task = task; events = events; artifacts = artifacts; permissions = permissions })

  unfoldable pub list_task_permissions : String → Store (List PermissionRow)
  list_task_permissions task_id = do
    authorize_task settings user task_id viewer
    asks (list_permission_requests task_id)

  abbrev pub decision_fields : Bool → String → TaskFields
  decision_fields allowed operation =
      if allowed then record no_fields { status = some running } else record no_fields {
        status = some failed;
        error = some (some (str_append "Permission denied: " operation));
      }

  abbrev pub decide_job : Bool → PermissionRow → Db → Db
  decide_job allowed p db =
      if allowed
      then (renew_job p.task_id p.runner_id settings.job_lease_seconds now db).1
      else complete_job p.task_id p.runner_id JobStatus.failed now db

  abbrev pub decision_message : Bool → String → String
  decision_message allowed operation =
      str_append "权限请求已" (str_append (if allowed then "批准" else "拒绝") (str_append "：" operation))

  -- After the check of the caller's role.
  unfoldable pub apply_decision : PermissionRow → Bool → String → Store PermissionRow
  apply_decision p allowed reason = do
    resolved ← or_conflict (resolve_permission_request p.id allowed user.id reason now)
    update_task p.task_id (decision_fields allowed p.operation) now
    modify (decide_job allowed p)
    add_event p.task_id (decision_message allowed p.operation) none
        (if allowed then "info" else "warning")
        (field "permission_id" (str p.id) (field "reason" (str reason) end)) now
    pure resolved

  unfoldable pub decide_permission : String → Bool → String → Store PermissionRow
  unfolding apply_decision
  decide_permission permission_id allowed reason = do
    p ← or_missing 404 "Permission request not found" (get_permission_request permission_id)
    authorize_task settings user p.task_id owner
    apply_decision p allowed reason

  unfoldable pub start_task : String → String → Store TaskRow
  start_task job_id task_id = do
    authorize_task settings user task_id editor
    or_conflict (or_missing 404 "Task not found" (start settings job_id task_id now))

  unfoldable pub cancel_task : String → Store TaskRow
  cancel_task task_id = do
    authorize_task settings user task_id editor
    or_missing 404 "Task not found" (cancel task_id now)

-- `loads` parses JSON, and `commit` commits in a worktree.
unfoldable pub approve_task :
    (String → Outcome Json)
    → (String → Json → Outcome String)
    → Settings
    → UserRow
    → String
    → String
    → ℕ
    → Store TaskRow
approve_task loads commit settings user task_id action now = do
  authorize_task settings user task_id editor
  or_conflict (or_missing 404 "Task not found" (approve loads commit task_id action now))
