-- ===== src/Workflow.antt =====
-- app/workflow.py: a task is started, cancelled and approved, and its stages are entered. The parsing of
-- JSON, the commit in the task's worktree and the body of the workflow are parameters.
pub mod Approval
pub mod Cancelling
pub mod Starting
pub mod Validation
pub mod Acceptance
pub mod Accepted
use automated_workflow.Prelude.{
  ℕ, String, Bool, true, false, not, ◌&&◌, ◌||◌, Option, none, some, List, [], ◌∷◌, str_eq,
  str_append,
}
use automated_workflow.Prelude.Tests.{if◌then◌else◌, is_none, given_text, or_else}
use automated_workflow.Prelude.Outcome.{
  Outcome, returned, raised, Error, value_error, attribute_error, task_cancelled, key_error, pure,
  raise, asks, lift, modify, require, ◌>>=◌, ◌>>◌,
}
use automated_workflow.Prelude.Text.{first_chars, last_chars}
use automated_workflow.Prelude.Json.{
  Json, null, bool, str, object, Fields, field, end, get, has_key, truthy,
}
use automated_workflow.Models.{
  TaskStatus, draft, queued, running, waiting_approval, Stage, delivery, task_status_text,
}
use automated_workflow.Schema.{Db, TaskRow, ArtifactRow}
use automated_workflow.Config.{Settings}
use automated_workflow.Storage.Tasks.{Store, TaskFields, no_fields, get_task, update_task}
use automated_workflow.Storage.Jobs.{enqueue_job, cancel_job, checkpoint_job}
use automated_workflow.Storage.Events.{add_event, add_artifact, list_artifacts}
use automated_workflow.Storage.Runners.{get_runner, runner_target}

-- STAGE_PROGRESS
abbrev pub stage_progress : Stage → ℕ
stage_progress Stage.product = 6
stage_progress Stage.planner = 14
stage_progress Stage.reader = 24
stage_progress Stage.design = 34
stage_progress Stage.coder = 48
stage_progress Stage.build = 60
stage_progress Stage.test = 72
stage_progress Stage.review = 84
stage_progress Stage.acceptance = 94
stage_progress Stage.delivery = 98

-- `status in {DRAFT, FAILED}`
abbrev pub is_startable : TaskStatus → Bool
is_startable draft = true
is_startable TaskStatus.failed = true
is_startable _ = false

abbrev pub is_failed : TaskStatus → Bool
is_failed TaskStatus.failed = true
is_failed _ = false

-- `except KeyError as exc: raise ValueError("Task Local Runner is not registered")`
abbrev pub registered_runner {ℓ} : {A : Type ℓ} → Outcome A → Outcome (Unit {0})
registered_runner (returned r) = returned tt
registered_runner (raised (key_error k)) =
    raised (value_error "Task Local Runner is not registered")
registered_runner (raised e) = raised e

-- The target of the task's job.
unfoldable pub start_target : Option String → Store String
start_target none = pure "server"
start_target (some runner_id) = do
  found ← asks (λ db. registered_runner (get_runner runner_id db).0)
  lift found
  pure (runner_target runner_id)

-- `"；".join(errors)`
joined : List String → String
joined [] = ""
joined (e ∷ []) = e
joined (e ∷ (f ∷ es)) = str_append e (str_append "；" (joined (f ∷ es)))

abbrev pub is_empty : List String → Bool
is_empty [] = true
is_empty (e ∷ es) = false

-- A task of the server needs routes to its agents.
abbrev pub has_routes : Settings → Option String → Bool
has_routes settings (some runner_id) = true
has_routes settings none = settings.mock_llm || is_empty settings.route_errors

abbrev pub queued_message : TaskStatus → Option String → String
queued_message status runner_id =
    let message = if is_failed status then "失败任务已重新进入执行队列" else "任务已进入执行队列" in
    elim runner_id [ none ↦ message | some r ↦ str_append message (str_append "：" r) ]

abbrev pub start_fields : TaskFields
start_fields = record no_fields {
  status = some queued;
  progress = some 1;
  error = some none;
  cancel_requested = some false;
}

-- `job_id` is the fresh identifier that a new job gets.
unfoldable pub start : Settings → String → String → ℕ → Store TaskRow
unfolding start_target joined
start settings job_id task_id now = do
  task ← get_task task_id
  require (is_startable task.status)
      (value_error (str_append "Task cannot start from " (task_status_text task.status)))
  target ← start_target (given_text task.runner_id)
  require (has_routes settings (given_text task.runner_id))
      (value_error (str_append "Agent 路由配置无效：" (joined settings.route_errors)))
  update_task task_id start_fields now
  enqueue_job job_id task_id target settings.job_max_attempts now
  add_event task_id (queued_message task.status (given_text task.runner_id)) none "info" end now
  get_task task_id

abbrev pub cancel_queued : String → ℕ → Store TaskRow
cancel_queued task_id now = do
  modify (cancel_job task_id now)
  add_event task_id "已取消排队任务" none "warning" end now
  update_task task_id
      (record no_fields { status = some TaskStatus.cancelled; cancel_requested = some true }) now

abbrev pub request_cancel : String → ℕ → Store TaskRow
request_cancel task_id now = do
  add_event task_id "已请求取消任务" none "warning" end now
  update_task task_id (record no_fields { cancel_requested = some true }) now

abbrev pub cancel_task : String → ℕ → TaskRow → Store TaskRow
cancel_task task_id now task = elim task.status [
  | TaskStatus.completed ↦ pure task
  | TaskStatus.cancelled ↦ pure task
  | queued ↦ cancel_queued task_id now
  | _ ↦ request_cancel task_id now
]

unfoldable pub cancel : String → ℕ → Store TaskRow
cancel task_id now = do task ← get_task task_id; cancel_task task_id now task

unfoldable pub check_cancelled : String → Store (Unit {0})
check_cancelled task_id = do
  task ← get_task task_id
  require (not task.cancel_requested) task_cancelled

-- The payload is the route of the stage's agent, and empty for a stage without one.
unfoldable pub enter : String → Stage → String → Fields → ℕ → Store (Unit {0})
unfolding check_cancelled
enter task_id stage message payload now = do
  check_cancelled task_id
  modify (checkpoint_job task_id stage now)
  update_task task_id
      (record no_fields {
        status = some running;
        stage = some (some stage);
        progress = some (stage_progress stage);
      })
      now
  add_event task_id message (some stage) "info" payload now
  pure tt

-- The body of the workflow with its exceptions handled; `error_text` is `str(exc)` and
-- `trace` the text of the traceback.
module _ (error_text trace : Error → String) where
  abbrev pub guarded : String → ℕ → Outcome (Unit {0}) → Store (Unit {0})
  guarded task_id now (returned u) = pure tt
  guarded task_id now (raised task_cancelled) = do
    update_task task_id (record no_fields { status = some TaskStatus.cancelled; error = some none })
        now
    add_event task_id "任务已取消" none "warning" end now
    pure tt
  guarded task_id now (raised e) = do
    update_task task_id
        (record no_fields { status = some TaskStatus.failed; error = some (some (error_text e)) })
        now
    add_event task_id (str_append "工作流失败：" (error_text e)) none "error"
        (field "trace" (str (last_chars 8000 (trace e))) end) now
    pure tt

  unfoldable pub run_guarded : (String → Store (Unit {0})) → String → ℕ → Store (Unit {0})
  run_guarded run task_id now db = let after = run task_id db in guarded task_id now after.0 after.1
