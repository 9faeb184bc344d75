-- ===== src/Api/Creation.antt =====
-- app/api.py: the creation of a task. `open_path` is the path of `Repository(path, allowed_roots)`, as a text.
pub mod Placed
use automated_workflow.Prelude.{ℕ, String, Bool, Option, none, some, List, [], ◌∷◌, str_eq}
use automated_workflow.Prelude.Tests.{if◌then◌else◌, given_text}
use automated_workflow.Prelude.Outcome.{
  Outcome, returned, raised, repository_error, http_error, lift, pure, asks, require, ◌>>=◌, ◌>>◌,
}
use automated_workflow.Prelude.Json.{end}
use automated_workflow.Prelude.Text.{strip}
use automated_workflow.Models.{ProjectRole, editor}
use automated_workflow.Schema.{Db, TaskRow, UserRow, ProjectRow}
use automated_workflow.Config.{Settings}
use automated_workflow.Auth.{require_project_role}
use automated_workflow.Storage.Tasks.{Store, TaskCreate}
use automated_workflow.Storage.Tasks
use automated_workflow.Storage.Events.{add_event}
use automated_workflow.Storage.Projects.{list_user_projects}
use automated_workflow.Storage.Runners.{get_runner}
use automated_workflow.Api.{or_missing}

-- `projects[0].id if projects else "default"`
abbrev pub first_project : List (ProjectRow × ProjectRole) → String
first_project [] = "default"
first_project (p ∷ ps) = p.0.id

abbrev pub chosen_project : Settings → UserRow → Option String → Db → String
chosen_project settings user (some project_id) db = project_id
chosen_project settings user none db =
    if settings.auth_enabled then first_project (list_user_projects user.id db) else "default"

-- `except RepositoryError as exc: raise HTTPException(422, str(exc))`
abbrev pub unprocessable : Outcome String → Outcome String
unprocessable (raised (repository_error text)) = raised (http_error 422 text)
unprocessable r = r

-- The repository's text of the task, on its runner or on the server.
unfoldable pub placed : (String → Outcome String) → String → String → Option String → Store String
placed open_path project_id repository (some runner_id) = do
  runner ← or_missing 422 "Selected Local Runner not found" (get_runner runner_id)
  require (str_eq runner.project_id project_id) (http_error 422 "Runner belongs to another project")
  pure (strip repository)
placed open_path project_id repository none = lift (unprocessable (open_path repository))

abbrev pub created_message : String
created_message = "任务已创建，当前需求将作为本次执行边界"

-- `task_id` is what the storage draws.
unfoldable pub create_task :
    (String → Outcome String)
    → Settings
    → UserRow
    → String
    → TaskCreate
    → String
    → ℕ
    → Store TaskRow
unfolding placed
create_task open_path settings user active_model payload task_id now = do
  project_id ← asks (chosen_project settings user (given_text payload.project_id))
  require_project_role user project_id editor settings.auth_enabled
  repository ← placed open_path project_id payload.repository (given_text payload.runner_id)
  task ←
      Tasks.create_task task_id
        (record payload { project_id = some project_id; repository = repository }) active_model now
  add_event task.id created_message none "info" end now
  pure task
