-- ===== src/Api/Runners.antt =====
-- app/api.py: the endpoints of Local Runners.
pub mod Confined
use automated_workflow.Prelude.{ℕ, ◌+◌, String, Bool, ◌&&◌, Option, none, List}
use automated_workflow.Prelude.Tests.{leb, if◌then◌else◌, is_none}
use automated_workflow.Prelude.Outcome.{pure, asks, ◌>>=◌, ◌>>◌}
use automated_workflow.Prelude.Json.{Fields}
use automated_workflow.Models.{Stage}
use automated_workflow.Schema.{Db, TaskRow, RunnerRow, EventRow, ArtifactRow}
use automated_workflow.Config.{Settings}
use automated_workflow.Storage.Tasks.{Store, TaskFields, get_task, update_task}
use automated_workflow.Storage.Events.{add_event, add_artifact, list_artifacts}
use automated_workflow.Storage.Jobs.{seconds}
use automated_workflow.Storage.Runners.{
  RunnerRegistration, upsert_runner, touch_runner, lease_runner_task,
}
use automated_workflow.Api.{RunnerPrincipal, or_missing, require_matching_runner, get_runner_task}

-- A runner with its flag `online`.
unfoldable pub runner_is_online : Settings → ℕ → RunnerRow → RunnerRow × Bool
runner_is_online settings now r =
    (r, leb now (r.last_seen + seconds settings.runner_offline_seconds))

-- No field of the update is set.
abbrev pub is_empty : TaskFields → Bool
is_empty f =
    is_none f.status
    && is_none f.stage
    && is_none f.progress
    && is_none f.error
    && is_none f.cancel_requested
    && is_none f.branch

module _ (principal : RunnerPrincipal) (now : ℕ) where
  unfoldable pub register_runner : Settings → RunnerRegistration → Store (RunnerRow × Bool)
  register_runner settings payload = do
    require_matching_runner principal payload.id
    r ← upsert_runner (record payload { project_id = principal.project_id }) now
    pure (runner_is_online settings now r)

  unfoldable pub heartbeat_runner : Settings → String → Store (RunnerRow × Bool)
  heartbeat_runner settings runner_id = do
    require_matching_runner principal runner_id
    r ← or_missing 404 "Runner not registered" (touch_runner runner_id none none now)
    pure (runner_is_online settings now r)

  -- `lease_seconds` is the default of the method of the storage.
  unfoldable pub lease : ℕ → String → Store (Option TaskRow)
  lease lease_seconds runner_id = do
    require_matching_runner principal runner_id
    or_missing 404 "Runner not registered" (touch_runner runner_id none none now)
    lease_runner_task runner_id lease_seconds now

  unfoldable pub own_task : String → String → Store TaskRow
  own_task runner_id task_id = do
    require_matching_runner principal runner_id
    get_runner_task runner_id task_id

  unfoldable pub get_runner_task_artifacts : String → String → Store (List ArtifactRow)
  unfolding own_task
  get_runner_task_artifacts runner_id task_id = do
    own_task runner_id task_id
    asks (list_artifacts task_id)

  unfoldable pub update_runner_task : String → String → TaskFields → Store TaskRow
  unfolding own_task
  update_runner_task runner_id task_id fields = do
    own_task runner_id task_id
    if is_empty fields then get_task task_id else update_task task_id fields now

  unfoldable pub add_runner_event :
      String → String → String → Option Stage → String → Fields → Store EventRow
  unfolding own_task
  add_runner_event runner_id task_id message stage level payload = do
    own_task runner_id task_id
    add_event task_id message stage level payload now

  unfoldable pub add_runner_artifact : String → String → String → String → Store ArtifactRow
  unfolding own_task
  add_runner_artifact runner_id task_id kind content = do
    own_task runner_id task_id
    add_artifact task_id kind content now
