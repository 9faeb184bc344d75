-- ===== src/Worker.antt =====
-- app/worker.py: a worker leases a job of the server, runs its task and reports how the task ended. The
-- renewal of the lease by a second thread is a call between the steps, and the counters and alerts are left out.
pub mod Retries
use automated_workflow.Prelude.{ℕ, String, Bool, true, false, Option, none, some, str_append}
use automated_workflow.Prelude.Tests.{if◌then◌else◌}
use automated_workflow.Prelude.Outcome.{Error, pure, modify, transact, ◌>>=◌, ◌>>◌}
use automated_workflow.Prelude.Json.{end}
use automated_workflow.Models.{TaskStatus, JobStatus, waiting_approval, task_status_text}
use automated_workflow.Schema.{TaskRow, JobRow}
use automated_workflow.Config.{Settings}
use automated_workflow.Storage.Tasks.{Store, or_text, get_task}
use automated_workflow.Storage.Jobs.{lease_job, complete_job, fail_job}
use automated_workflow.Storage.Events.{add_event}
use automated_workflow.Workflow.{run_guarded}

-- `task.error or "Workflow failed"`
abbrev pub report_failure : Settings → String → String → TaskRow → ℕ → Store (Unit {0})
report_failure settings task_id owner task now = do
  retried ← transact (
      fail_job task_id owner (or_text task.error "Workflow failed") settings.job_retry_base_seconds
        now)
  if retried
      then (do add_event task_id "持久化 Worker 已安排自动重试" none "warning" end now; pure tt)
      else pure tt

abbrev pub report_unexpected : Settings → String → String → TaskRow → ℕ → Store (Unit {0})
report_unexpected settings task_id owner task now = do
  transact (
      fail_job task_id owner
        (str_append "Workflow stopped in unexpected state: " (task_status_text task.status))
        settings.job_retry_base_seconds now)
  pure tt

abbrev pub report : Settings → String → String → TaskRow → ℕ → Store (Unit {0})
report settings task_id owner task now = elim task.status [
  | TaskStatus.failed ↦ report_failure settings task_id owner task now
  | TaskStatus.cancelled ↦ modify (complete_job task_id owner JobStatus.cancelled now)
  | waiting_approval ↦ modify (complete_job task_id owner JobStatus.completed now)
  | TaskStatus.completed ↦ modify (complete_job task_id owner JobStatus.completed now)
  | _ ↦ report_unexpected settings task_id owner task now
]

module _ (error_text trace : Error → String) (run : String → Store (Unit {0})) where
  unfoldable pub execute_job : Settings → String → String → ℕ → Store (Unit {0})
  execute_job settings task_id owner now = do
    run_guarded error_text trace run task_id now
    task ← get_task task_id
    report settings task_id owner task now

  abbrev pub execute_leased : Settings → String → ℕ → Option JobRow → Store Bool
  execute_leased settings owner now none = pure false
  execute_leased settings owner now (some job) = do
    execute_job settings job.task_id owner now
    pure true

  -- One turn of the loop: true if a job was run.
  unfoldable pub run_once : Settings → String → ℕ → Store Bool
  run_once settings owner now = do
    job ← lease_job "server" owner settings.job_lease_seconds now
    execute_leased settings owner now job
