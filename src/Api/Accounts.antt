-- ===== src/Api/Accounts.antt =====
-- app/api.py: the endpoints of users, of runners' tokens and of Git integrations.
pub mod Issued
use automated_workflow.Prelude.{ℕ, String, Bool, not}
use automated_workflow.Prelude.Outcome.{
  Outcome, returned, raised, integrity_error, http_error, pure, require, ◌>>=◌, ◌>>◌,
}
use automated_workflow.Models.{ProjectRole, owner, viewer}
use automated_workflow.Schema.{Db, UserRow, GitIntegrationRow}
use automated_workflow.Config.{Settings}
use automated_workflow.Auth.{require_project_role}
use automated_workflow.Storage.Tasks.{Store}
use automated_workflow.Storage.Projects.{get_git_integration, delete_git_integration}
use automated_workflow.Storage.Runners.{save_runner_token}
use automated_workflow.Storage.Users
use automated_workflow.Api.{or_missing}

-- RunnerTokenIssued of app/models.py
pub record RunnerTokenIssued : Type 0 where
  pub runner_id : String
  pub project_id : String
  pub token : String
  pub created_at : ℕ

-- The tables of users have no constraint but those of uniqueness.
abbrev pub exists : {A : Type 0} → String → Outcome A → Outcome A
exists detail (raised integrity_error) = raised (http_error 409 detail)
exists detail r = r

-- `user_id` is what the storage draws.
unfoldable pub create_user : UserRow → String → String → String → Bool → ℕ → Store UserRow
create_user user user_id email display_name is_admin now =
    require user.is_admin (http_error 403 "Administrator access required") >> λ db.
    let r = Users.create_user user_id email display_name "!email-code-only" is_admin now db in
    (exists "Email already exists" r.0, r.1)

module _ (settings : Settings) (user : UserRow) (project_id : String) where
  -- `token` is the fresh token that is drawn.
  unfoldable pub issue_runner_token :
      (String → String) → String → String → String → ℕ → Store RunnerTokenIssued
  issue_runner_token hash_token runner_id label token now = do
    require_project_role user project_id owner settings.auth_enabled
    created_at ← save_runner_token runner_id project_id label (hash_token token) user.id now
    pure (record {
      runner_id = runner_id;
      project_id = project_id;
      token = token;
      created_at = created_at;
    })

  unfoldable pub show_git_integration : Store GitIntegrationRow
  show_git_integration = do
    require_project_role user project_id viewer settings.auth_enabled
    or_missing 404 "Git integration not configured" (get_git_integration project_id)

  unfoldable pub remove_git_integration : Store (Unit {0})
  remove_git_integration = do
    require_project_role user project_id owner settings.auth_enabled
    or_missing 404 "Git integration not configured" (delete_git_integration project_id)
