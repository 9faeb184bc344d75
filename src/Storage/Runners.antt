-- ===== src/Storage/Runners.antt =====
-- app/storage.py: the Local Runners, their tokens, and the tasks that are leased to them.
use automated_workflow.Prelude.{
  ℕ, String, Bool, not, ◌&&◌, Option, none, some, List, str_eq, str_append,
}
use automated_workflow.Prelude.Tests.{◌==◌, if◌then◌else◌, is_none, or_else}
use automated_workflow.Prelude.Outcome.{
  Outcome, returned, raised, key_error, integrity_error, pure, ◌>>=◌, ◌>>◌,
}
use automated_workflow.Prelude.Json.{Fields, end}
use automated_workflow.Prelude.Table.{update_where, find_where, count_where, any_where, insert_row}
use automated_workflow.Models.{TaskStatus, running, assigned}
use automated_workflow.Schema.{Db, TaskRow, JobRow, RunnerRow, RunnerTokenRow}
use automated_workflow.Storage.Tasks.{Store, no_fields, update_task}
use automated_workflow.Storage.Jobs.{lease_job}
use automated_workflow.Storage.Projects.{has_project_id}
use automated_workflow.Storage.Users.{has_user_id}

-- RunnerRegistration of app/models.py
pub record RunnerRegistration : Type 0 where
  pub id : String
  pub name : String
  pub platform : String
  pub version : String
  pub roots : List String
  pub capabilities : List String
  pub project_id : String

abbrev pub has_runner_id : String → RunnerRow → Bool
has_runner_id runner_id r = str_eq r.id runner_id

abbrev pub found_runner : String → Option RunnerRow → Outcome RunnerRow
found_runner runner_id none = raised (key_error runner_id)
found_runner runner_id (some r) = returned r

unfoldable pub get_runner : String → Store RunnerRow
get_runner runner_id db =
    (found_runner runner_id (find_where (has_runner_id runner_id) db.runners), db)

abbrev pub registered : RunnerRegistration → ℕ → RunnerRow → RunnerRow
registered registration now r = record r {
  project_id = registration.project_id;
  name = registration.name;
  platform = registration.platform;
  version = registration.version;
  roots = registration.roots;
  capabilities = registration.capabilities;
  last_seen = now;
}

unfoldable pub new_runner : RunnerRegistration → ℕ → RunnerRow
new_runner registration now = record {
  id = registration.id;
  project_id = registration.project_id;
  name = registration.name;
  platform = registration.platform;
  version = registration.version;
  roots = registration.roots;
  capabilities = registration.capabilities;
  status = "unknown";
  metrics = end;
  last_seen = now;
  created_at = now;
}

unfoldable pub write_runner : RunnerRegistration → ℕ → Store (Unit {0})
write_runner registration now db = (
  returned tt,
  record db {
    runners =
        if any_where (has_runner_id registration.id) db.runners
        then update_where (has_runner_id registration.id) (registered registration now) db.runners
        else insert_row (new_runner registration now) db.runners;
  },
)

unfoldable pub upsert_runner : RunnerRegistration → ℕ → Store RunnerRow
unfolding new_runner write_runner get_runner
upsert_runner registration now = do write_runner registration now; get_runner registration.id

-- An UPDATE of one runner, with the test of its row count.
unfoldable pub update_runner : String → (RunnerRow → RunnerRow) → Store (Unit {0})
update_runner runner_id f db =
    if count_where (has_runner_id runner_id) db.runners == 0
    then (raised (key_error runner_id), db)
    else (returned tt, record db { runners = update_where (has_runner_id runner_id) f db.runners })

unfoldable pub touch_runner : String → Option String → Option Fields → ℕ → Store RunnerRow
unfolding update_runner get_runner
touch_runner runner_id status metrics now = do
  update_runner runner_id (λ r. record r {
    status = or_else status r.status;
    metrics = or_else metrics r.metrics;
    last_seen = now;
  })
  get_runner runner_id

unfoldable pub update_runner_capabilities : String → List String → ℕ → Store RunnerRow
unfolding update_runner get_runner
update_runner_capabilities runner_id capabilities now = do
  update_runner runner_id (λ r. record r { capabilities = capabilities; last_seen = now })
  get_runner runner_id

abbrev pub has_token : String → RunnerTokenRow → Bool
has_token runner_id t = str_eq t.runner_id runner_id

abbrev pub issued : String → String → String → String → ℕ → RunnerTokenRow → RunnerTokenRow
issued project_id label token_hash created_by now t = record t {
  project_id = project_id;
  label = label;
  token_hash = token_hash;
  created_by = created_by;
  created_at = now;
  revoked_at = none;
}

abbrev pub new_token : String → String → String → String → String → ℕ → RunnerTokenRow
new_token runner_id project_id label token_hash created_by now = record {
  runner_id = runner_id;
  project_id = project_id;
  label = label;
  token_hash = token_hash;
  created_by = created_by;
  created_at = now;
  revoked_at = none;
}

-- ON CONFLICT(runner_id) DO UPDATE. Another runner's token must not have the same hash, and the project
-- and the user must exist. The result is the time of issue.
unfoldable pub save_runner_token : String → String → String → String → String → ℕ → Store ℕ
save_runner_token runner_id project_id label token_hash created_by now db =
    if any_where (λ t. str_eq t.token_hash token_hash && not (has_token runner_id t))
      db.runner_tokens
    then (raised integrity_error, db)
    else if any_where (has_project_id project_id) db.projects
        && any_where (has_user_id created_by) db.users
    then (
      returned now,
      record db {
        runner_tokens =
            if any_where (has_token runner_id) db.runner_tokens
            then update_where (has_token runner_id)
                (issued project_id label token_hash created_by now) db.runner_tokens
            else insert_row (new_token runner_id project_id label token_hash created_by now)
                db.runner_tokens;
      },
    )
    else (raised integrity_error, db)

abbrev pub is_active_token : String → RunnerTokenRow → Bool
is_active_token runner_id t = has_token runner_id t && is_none t.revoked_at

abbrev pub verified : String → String → Option RunnerTokenRow → Outcome String
verified runner_id token_hash none = raised (key_error runner_id)
verified runner_id token_hash (some t) =
    if str_eq t.token_hash token_hash then returned t.project_id else raised (key_error runner_id)

-- The project of the runner's token.
unfoldable pub verify_runner_token : String → String → Store String
verify_runner_token runner_id token_hash db =
    (verified runner_id token_hash (find_where (is_active_token runner_id) db.runner_tokens), db)

unfoldable pub has_active_runner_token : String → Db → Bool
has_active_runner_token runner_id db = any_where (is_active_token runner_id) db.runner_tokens

unfoldable pub revoke_runner_token : String → ℕ → Db → Db
revoke_runner_token runner_id now db = record db {
  runner_tokens =
      update_where (has_token runner_id) (λ t. record t { revoked_at = some now }) db.runner_tokens;
}

-- f"runner:{runner_id}"
abbrev pub runner_target : String → String
runner_target runner_id = str_append "runner:" runner_id

mark_leased : TaskStatus → ℕ → Option JobRow → Store (Option TaskRow)
mark_leased status now none = pure none
mark_leased status now (some job) = do
  task ← update_task job.task_id (record no_fields { status = some status }) now
  pure (some task)

unfoldable pub lease_runner_task : String → ℕ → ℕ → Store (Option TaskRow)
unfolding mark_leased
lease_runner_task runner_id lease_seconds now = do
  job ← lease_job (runner_target runner_id) runner_id lease_seconds now
  mark_leased running now job

unfoldable pub assign_runner_task : String → ℕ → ℕ → Store (Option TaskRow)
unfolding mark_leased
assign_runner_task runner_id lease_seconds now = do
  job ← lease_job (runner_target runner_id) runner_id lease_seconds now
  mark_leased assigned now job
