-- ===== src/Gateway/Control.antt =====
-- app/gateway.py: `_dispatch_control_messages`, what the server sends to a Local Runner unasked.
use automated_workflow.Prelude.{
  String, Bool, true, false, not, ◌&&◌, Option, none, some, List, [], ◌∷◌,
}
use automated_workflow.Prelude.Tests.{if◌then◌else◌, given_text}
use automated_workflow.Prelude.Outcome.{pure, asks, returned, ◌>>=◌, ◌>>◌}
use automated_workflow.Prelude.Json.{Json, bool, str, array, Fields, end, field, texts}
use automated_workflow.Prelude.Table.{insert_row, member}
use automated_workflow.Models.{PermissionStatus, approved, pending, denied}
use automated_workflow.Protocol.{permission_result, cancel_task, task_assign}
use automated_workflow.Schema.{TaskRow, PermissionRow}
use automated_workflow.Storage.Tasks.{get_runner_active_task}
use automated_workflow.Storage.Jobs.{recover_expired_jobs}
use automated_workflow.Storage.Runners.{assign_runner_task, runner_target}
use automated_workflow.Storage.Permissions.{
  list_unsent_permission_results, mark_permission_result_sent,
}
use automated_workflow.Gateway.{Server, Gateway, within, changed, with_text, send}

abbrev pub is_approved : PermissionStatus → Bool
is_approved approved = true
is_approved pending = false
is_approved denied = false

-- `task_json` is `Task.model_dump(mode="json")`.
module _ (env : Server) (task_json : TaskRow → Json) (runner_id : String) where
  unfoldable pub send_result : PermissionRow × String → Gateway (Unit {0})
  send_result (p, reason) = do
    send env permission_result (some p.task_id) (
        field "requestId" (str p.id) (
          field "allowed" (bool (is_approved p.status))
            (field "operation" (str p.operation) (field "reason" (str reason) end))))
    changed (mark_permission_result_sent p.id env.now)

  unfoldable pub send_results : List (PermissionRow × String) → Gateway (Unit {0})
  send_results [] = pure tt
  send_results (r ∷ rs) = do send_result r; send_results rs

  unfoldable pub send_cancel : TaskRow → Gateway (Unit {0})
  send_cancel active = do
    send env cancel_task (some active.id) end
    λ s. (returned tt, record s { cancel_sent = insert_row active.id s.cancel_sent })

  abbrev pub assignment : TaskRow → Fields
  assignment task = field "repo" (str task.repository) (
      field "branch" (str task.branch) (
        field "prompt" (str task.requirement) (
          field "steps" (array (texts ("checkout" ∷ "generate" ∷ "build" ∷ "test" ∷ [])))
            (field "task" (task_json task) end))))

  abbrev pub send_task : Option TaskRow → Gateway (Unit {0})
  send_task none = pure tt
  send_task (some task) = do send env task_assign (some task.id) (assignment task); pure tt

  unfoldable pub assign : Gateway (Unit {0})
  assign = do
    task ← within (assign_runner_task runner_id env.settings.job_lease_seconds env.now)
    send_task task

  -- A cancellation is sent once in a session, and a runner with a task is given no other.
  abbrev pub next_control : Option TaskRow → Gateway (Unit {0})
  next_control none s = assign s
  next_control (some active) s =
      if active.cancel_requested && not (member active.id s.cancel_sent)
      then send_cancel active s
      else (returned tt, s)

  unfoldable pub dispatch_to : Gateway (Unit {0})
  unfolding send_results send_result
  dispatch_to = do
    changed (λ db. (recover_expired_jobs (some (runner_target runner_id)) env.now db).1)
    results ← asks (λ s. list_unsent_permission_results runner_id s.db)
    send_results results
    active ← asks (λ s. get_runner_active_task runner_id s.db)
    next_control active

module _ (env : Server) (task_json : TaskRow → Json) where
  unfoldable pub dispatch_control_messages : Gateway (Unit {0})
  unfolding dispatch_to
  dispatch_control_messages s =
      with_text (given_text s.runner_id) (pure tt) (dispatch_to env task_json) s
