-- ===== src/Api.antt =====
-- app/api.py: the handlers of the REST interface. What is shared by them is here; a user arrives as the
-- result of `current_user`, a runner as that of `require_runner_token`.
pub mod Accounts
pub mod Creation
pub mod Mail
pub mod Runners
pub mod Tasks
use automated_workflow.Prelude.{ℕ, String, Bool, not, ◌&&◌, ◌||◌, Option, none, some, str_eq}
use automated_workflow.Prelude.Tests.{if◌then◌else◌, holds_text, given_text, or_else}
use automated_workflow.Prelude.Outcome.{
  Action, Outcome, returned, raised, Error, key_error, value_error, repository_error, http_error,
  raise, require, pure, ◌>>=◌, ◌>>◌,
}
use automated_workflow.Prelude.Text.{lower, before_space, after_space}
use automated_workflow.Models.{ProjectRole}
use automated_workflow.Schema.{Db, TaskRow, UserRow}
use automated_workflow.Config.{Settings}
use automated_workflow.Auth.{authenticate_runner, require_project_role, except_key}
use automated_workflow.Storage.Tasks.{Store, get_task}

-- `except KeyError: raise HTTPException(…)`
abbrev pub or_missing : {A : Type 0} → ℕ → String → Store A → Store A
or_missing code detail m db = (except_key (raised (http_error code detail)) (m db).0, (m db).1)

-- `except (ValueError, RepositoryError) as exc: raise HTTPException(409, str(exc))`
abbrev pub conflict : Error → Error
conflict (value_error text) = http_error 409 text
conflict (repository_error text) = http_error 409 text
conflict e = e

abbrev pub conflicting : {A : Type 0} → Outcome A → Outcome A
conflicting (returned a) = returned a
conflicting (raised e) = raised (conflict e)

abbrev pub or_conflict : {A : Type 0} → Store A → Store A
or_conflict m db = (conflicting (m db).0, (m db).1)

-- RunnerPrincipal of app/auth.py
pub record RunnerPrincipal : Type 0 where
  pub runner_id : String
  pub project_id : String

abbrev pub bearer_token : Option String → Option String
bearer_token authorization =
    if str_eq (lower (before_space (or_else authorization ""))) "bearer"
    then given_text (some (after_space (or_else authorization "")))
    else none

abbrev pub principal_of :
    (String → String) → Settings → Option String → Option String → Store RunnerPrincipal
principal_of hash_token settings none token = raise (http_error 401 "X-Runner-ID is required")
principal_of hash_token settings (some runner_id) none =
    raise (http_error 401 "Invalid runner token")
principal_of hash_token settings (some runner_id) (some token) = do
  project_id ← authenticate_runner hash_token settings runner_id token
  pure (record { runner_id = runner_id; project_id = project_id })

unfoldable pub require_runner_token :
    (String → String) → Settings → Option String → Option String → Store RunnerPrincipal
require_runner_token hash_token settings authorization runner_id_header =
    principal_of hash_token settings (given_text runner_id_header) (bearer_token authorization)

unfoldable pub require_matching_runner : RunnerPrincipal → String → Store (Unit {0})
require_matching_runner principal runner_id =
    require (str_eq principal.runner_id runner_id) (http_error 404 "Runner not found")

unfoldable pub get_runner_task : String → String → Store TaskRow
get_runner_task runner_id task_id = do
  task ← or_missing 404 "Task not found" (get_task task_id)
  require (holds_text task.runner_id runner_id) (http_error 404 "Task not assigned to this runner")
  pure task

unfoldable pub authorize_task : Settings → UserRow → String → ProjectRole → Store TaskRow
authorize_task settings user task_id minimum = do
  task ← or_missing 404 "Task not found" (get_task task_id)
  require_project_role user task.project_id minimum settings.auth_enabled
  pure task
