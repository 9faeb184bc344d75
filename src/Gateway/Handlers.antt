-- ===== src/Gateway/Handlers.antt =====
-- app/gateway.py: `_handle`, what the server does with a message of a Local Runner.
use automated_workflow.Prelude.{
  ℕ, String, Bool, true, false, not, Option, none, some, List, [], ◌∷◌, str_eq, str_append,
}
use automated_workflow.Prelude.Tests.{if◌then◌else◌, holds_text, given_text}
use automated_workflow.Prelude.Outcome.{pure, asks, ◌>>=◌, ◌>>◌}
use automated_workflow.Prelude.Json.{
  Json, null, number, str, bool, array, object, Fields, end, field, get, has_key, truthy, or_value,
  as_text,
}
use automated_workflow.Prelude.Text.{lower}
use automated_workflow.Models.{
  TaskStatus, accepted, running, wait_permission, waiting_approval, failed, cancelled, Stage,
  JobStatus,
}
use automated_workflow.Protocol.{
  MessageType, register, register_ack, heartbeat, heartbeat_ack, capability, task_assign,
  task_accepted, task_progress, task_log, terminal_output, ai_chunk, file_changed,
  permission_request, permission_result, cancel_task, task_completed, task_failed, task_cancelled,
  reconnect, ack, artifact, MessageEnvelope,
}
use automated_workflow.Schema.{Db, TaskRow, runner}
use automated_workflow.Storage.Tasks.{TaskFields, no_fields, get_runner_active_task}
use automated_workflow.Storage.Events.{add_event, add_artifact}
use automated_workflow.Storage.Jobs.{renew_job, complete_job, fail_job}
use automated_workflow.Storage.Runners.{touch_runner, update_runner_capabilities}
use automated_workflow.Storage.Permissions.{create_permission_request}
use automated_workflow.Storage.Messages.{record_runner_message}
use automated_workflow.Gateway.{
  Server, Gateway, within, changed, close, with_text, step_stages, stage_of, text_or, to_int, send,
  acknowledge, update_own_task,
}

-- `{key: payload[key] for key in ("cpu", "memory", "disk") if key in payload}`
abbrev pub kept : Fields → String → Fields → Fields
kept payload key rest = if has_key payload key then field key (get payload key) rest else rest

abbrev pub metrics_of : Fields → Fields
metrics_of payload = kept payload "cpu" (kept payload "memory" (kept payload "disk" end))

-- `[name for name, enabled in payload.items() if enabled]`
unfoldable pub enabled_names : Fields → List String
enabled_names end = []
enabled_names (field k v rest) =
    let names = enabled_names rest in if truthy v then k ∷ names else names

-- `value == text`
abbrev pub is_text : Json → String → Bool
is_text (str s) t = str_eq s t
is_text null t = false
is_text (bool b) t = false
is_text (number n) t = false
is_text (array xs) t = false
is_text (object fs) t = false

abbrev pub is_null : Json → Bool
is_null null = true
is_null (str s) = false
is_null (bool b) = false
is_null (number n) = false
is_null (array xs) = false
is_null (object fs) = false

abbrev pub status_only : TaskStatus → TaskFields
status_only status = record no_fields { status = some status }

-- The stage that a step stands for: of the table, or a stage by its own name.
abbrev pub step_stage : String → Option (Option Stage)
step_stage step = elim (step_stages step) [
  | some stage ↦ some (some stage)
  | none ↦ elim (stage_of step) [ some stage ↦ some (some stage) | none ↦ none ]
]

module _ (env : Server) (runner_id : String) where
  -- `if envelope.task_id:`
  abbrev pub for_task : Option String → (String → Gateway (Unit {0})) → Gateway (Unit {0})
  for_task task_id act = with_text (given_text task_id) (pure tt) act

  unfoldable pub renew : Option String → Gateway (Unit {0})
  renew task_id =
      for_task task_id
        (λ t. changed (λ db. (renew_job t runner_id env.settings.job_lease_seconds env.now db).1))

  -- `storage.add_event(task_id, message, level=…, data=…)`, which gives no stage
  unfoldable pub log_event : String → String → String → Fields → Gateway (Unit {0})
  log_event task_id message level payload = do
    within (add_event task_id message none level payload env.now)
    pure tt

  abbrev pub renew_active : Option TaskRow → Bool → Gateway (Unit {0})
  renew_active none busy = pure tt
  renew_active (some active) busy =
      if busy
      then changed
          (λ db. (renew_job active.id runner_id env.settings.job_lease_seconds env.now db).1)
      else pure tt

  unfoldable pub heartbeat_message : MessageEnvelope → Gateway (Unit {0})
  heartbeat_message e = do
    within (
        touch_runner runner_id (some (text_or env e.payload "status" "idle"))
          (some (metrics_of e.payload)) env.now)
    active ← asks (λ s. get_runner_active_task runner_id s.db)
    renew_active active (is_text (get e.payload "status") "busy")
    send env heartbeat_ack none (field "ackSeq" (number e.seq) end)
    pure tt

  unfoldable pub capability_message : MessageEnvelope → Gateway (Unit {0})
  capability_message e = do
    within (update_runner_capabilities runner_id (enabled_names e.payload) env.now)
    pure tt

  unfoldable pub accepted_message : MessageEnvelope → Gateway (Unit {0})
  unfolding renew log_event
  accepted_message e = do
    renew e.task_id
    update_own_task env runner_id e.task_id (status_only accepted)
    for_task e.task_id
        (λ t. log_event t (str_append "Local Runner " (str_append runner_id " 已接受任务")) "info" end)

  -- `percent`, where it is given and not null
  abbrev pub percent_of : Fields → Gateway (Option ℕ)
  percent_of payload =
      if is_null (get payload "percent")
      then pure none
      else do percent ← to_int env (get payload "percent"); pure (some percent)

  abbrev pub branch_of : Fields → Option String
  branch_of payload =
      if truthy (get payload "branch")
      then some (as_text env.py_str (get payload "branch"))
      else none

  abbrev pub progress_fields : Fields → Option ℕ → TaskFields
  progress_fields payload percent = record no_fields {
    status = some running;
    stage = step_stage (text_or env payload "step" "");
    progress = percent;
    branch = branch_of payload;
  }

  unfoldable pub progress_message : MessageEnvelope → Gateway (Unit {0})
  unfolding renew
  progress_message e = do
    renew e.task_id
    if truthy (get e.payload "persisted") then pure tt else do
      percent ← percent_of e.payload
      update_own_task env runner_id e.task_id (progress_fields e.payload percent)

  -- `if envelope.task_id and not envelope.payload.get("persisted"):`
  abbrev pub unless_persisted : MessageEnvelope → (String → Gateway (Unit {0})) → Gateway (Unit {0})
  unless_persisted e act =
      if truthy (get e.payload "persisted") then pure tt else for_task e.task_id act

  unfoldable pub task_log_message : MessageEnvelope → Gateway (Unit {0})
  unfolding log_event
  task_log_message e = unless_persisted e (λ t.
      log_event t (text_or env e.payload "content" "")
        (lower (text_or env e.payload "level" "INFO")) end)

  unfoldable pub terminal_message : MessageEnvelope → Gateway (Unit {0})
  unfolding log_event
  terminal_message e = unless_persisted e (λ t. log_event t "Runner terminal output" "info" (
      field "output"
        (or_value (or_value (get e.payload "stdout") (get e.payload "stderr")) (str "")) end))

  -- `payload.get(key, "")`
  abbrev pub get_or_empty : Fields → String → Json
  get_or_empty payload key = if has_key payload key then get payload key else str ""

  unfoldable pub ai_message : MessageEnvelope → Gateway (Unit {0})
  unfolding log_event
  ai_message e =
      for_task e.task_id
        (λ t. log_event t "AI stream" "info" (field "delta" (get_or_empty e.payload "delta") end))

  unfoldable pub file_message : MessageEnvelope → Gateway (Unit {0})
  unfolding log_event
  file_message e = unless_persisted e (λ t.
      log_event t (str_append "文件变更：" (as_text env.py_str (get_or_empty e.payload "path"))) "info"
        e.payload)

  unfoldable pub artifact_message : MessageEnvelope → Gateway (Unit {0})
  artifact_message e = unless_persisted e (λ t. do
    within (
        add_artifact t (text_or env e.payload "kind" "runner_artifact")
          (text_or env e.payload "content" "") env.now)
    pure tt)

  unfoldable pub permission_message : MessageEnvelope → Gateway (Unit {0})
  unfolding log_event
  permission_message e = do
    update_own_task env runner_id e.task_id (status_only wait_permission)
    for_task e.task_id (λ t. do
      permission ← within (
          create_permission_request (text_or env e.payload "requestId" e.id) t runner_id
            (text_or env e.payload "operation" "unknown operation")
            (text_or env e.payload "reason" "") env.now)
      log_event t (str_append "Runner 请求权限：" permission.operation) "warning"
          (field "permission_id" (str permission.id) end))

  -- `if not envelope.payload.get("persisted"):` update the task, and then its job
  abbrev pub finish : MessageEnvelope → TaskFields → (String → Db → Db) → Gateway (Unit {0})
  finish e fields job = if truthy (get e.payload "persisted") then pure tt else do
    update_own_task env runner_id e.task_id fields
    for_task e.task_id (λ t. changed (job t))

  unfoldable pub completed_message : MessageEnvelope → Gateway (Unit {0})
  completed_message e =
      finish e (record no_fields { status = some waiting_approval; progress = some 100 })
        (λ t db. complete_job t runner_id JobStatus.completed env.now db)

  abbrev pub failure : MessageEnvelope → String
  failure e = text_or env e.payload "reason" "Runner task failed"

  unfoldable pub failed_message : MessageEnvelope → Gateway (Unit {0})
  failed_message e =
      finish e (record no_fields { status = some failed; error = some (some (failure e)) })
        (λ t db.
          (fail_job t runner_id (failure e) env.settings.job_retry_base_seconds env.now db).1)

  unfoldable pub cancelled_message : MessageEnvelope → Gateway (Unit {0})
  cancelled_message e =
      finish e (status_only cancelled)
        (λ t db. complete_job t runner_id JobStatus.cancelled env.now db)

  unfoldable pub acknowledged : MessageEnvelope → Gateway (Unit {0}) → Gateway (Unit {0})
  acknowledged e act = do act; acknowledge env e false; pure tt

  -- What the type of a new message asks for, with the answer.
  unfoldable pub apply : MessageType → MessageEnvelope → Gateway (Unit {0})
  unfolding acknowledged
  apply heartbeat e = heartbeat_message e
  apply capability e = acknowledged e (capability_message e)
  apply task_accepted e = acknowledged e (accepted_message e)
  apply task_progress e = acknowledged e (progress_message e)
  apply task_log e = acknowledged e (task_log_message e)
  apply terminal_output e = acknowledged e (terminal_message e)
  apply ai_chunk e = acknowledged e (ai_message e)
  apply file_changed e = acknowledged e (file_message e)
  apply artifact e = acknowledged e (artifact_message e)
  apply permission_request e = acknowledged e (permission_message e)
  apply task_completed e = acknowledged e (completed_message e)
  apply task_failed e = acknowledged e (failed_message e)
  apply task_cancelled e = acknowledged e (cancelled_message e)
  apply register e = acknowledged e (pure tt)
  apply register_ack e = acknowledged e (pure tt)
  apply heartbeat_ack e = acknowledged e (pure tt)
  apply task_assign e = acknowledged e (pure tt)
  apply permission_result e = acknowledged e (pure tt)
  apply cancel_task e = acknowledged e (pure tt)
  apply reconnect e = acknowledged e (pure tt)
  apply ack e = acknowledged e (pure tt)

  abbrev pub is_ack : MessageType → Bool
  is_ack ack = true
  is_ack _ = false

  -- After the recording: an acknowledgement ends there, and a message that was there is only answered.
  unfoldable pub recorded : MessageEnvelope → Bool → Gateway (Unit {0})
  unfolding apply
  recorded e is_new =
      if is_ack e.type
      then pure tt
      else if not is_new
      then (do acknowledge env e true; pure tt)
      else apply e.type e

  unfoldable pub handle_from : MessageEnvelope → Gateway (Unit {0})
  unfolding recorded
  handle_from e = do
    is_new ← within (record_runner_message env.py_str e runner env.now)
    recorded e is_new

-- `none` where the session has no runner yet
module _ (env : Server) where
  unfoldable pub handle : MessageEnvelope → Gateway (Unit {0})
  unfolding handle_from
  handle e s =
      with_text (given_text s.runner_id) (close 1008 "runnerId mismatch")
        (λ runner_id.
          if holds_text e.runner_id runner_id
          then handle_from env runner_id e
          else close 1008 "runnerId mismatch")
        s
