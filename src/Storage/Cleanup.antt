-- ===== src/Storage/Cleanup.antt =====
-- app/storage.py: the deletion of old data, and the worktrees that may go.
pub mod Kept
use automated_workflow.Prelude.{ℕ, String, Bool, true, false, ◌&&◌, ◌||◌, not, List, map, str_eq}
use automated_workflow.Prelude.Tests.{ltb, holds_lt}
use automated_workflow.Prelude.Table.{delete_where, select_where, count_where, any_where}
use automated_workflow.Models.{TaskStatus, waiting_approval, is_finished}
use automated_workflow.Schema.{Db, TaskRow, EventRow, ArtifactRow, SessionRow, JobRow}

-- `status IN (completed, cancelled, failed, waiting_approval)` of a task
abbrev pub is_terminal : TaskStatus → Bool
is_terminal TaskStatus.completed = true
is_terminal TaskStatus.cancelled = true
is_terminal TaskStatus.failed = true
is_terminal waiting_approval = true
is_terminal _ = false

-- `task_id IN (SELECT id FROM tasks WHERE status IN …)`
abbrev pub in_terminal_task : List TaskRow → String → Bool
in_terminal_task tasks task_id = any_where (λ t. str_eq t.id task_id && is_terminal t.status) tasks

abbrev pub is_stale_session : ℕ → SessionRow → Bool
is_stale_session cutoff s = ltb s.expires_at cutoff || holds_lt s.revoked_at cutoff

abbrev pub is_stale_event : List TaskRow → ℕ → EventRow → Bool
is_stale_event tasks cutoff e = ltb e.created_at cutoff && in_terminal_task tasks e.task_id

-- `kind NOT IN ('delivery', 'commit', 'mr_description')`
abbrev pub is_disposable : String → Bool
is_disposable kind =
    not (str_eq kind "delivery") && not (str_eq kind "commit") && not (str_eq kind "mr_description")

abbrev pub is_stale_artifact : List TaskRow → ℕ → ArtifactRow → Bool
is_stale_artifact tasks cutoff a =
    ltb a.created_at cutoff && is_disposable a.kind && in_terminal_task tasks a.task_id

abbrev pub is_stale_job : ℕ → JobRow → Bool
is_stale_job cutoff j = ltb j.updated_at cutoff && is_finished j.status

pub record CleanupCounts : Type 0 where
  pub sessions : ℕ
  pub email_challenges : ℕ
  pub runner_messages : ℕ
  pub events : ℕ
  pub artifacts : ℕ
  pub jobs : ℕ

unfoldable pub cleanup_expired_data : ℕ → ℕ → ℕ → Db → CleanupCounts × Db
cleanup_expired_data message_cutoff execution_cutoff session_cutoff db = (
  record {
    sessions = count_where (is_stale_session session_cutoff) db.sessions;
    email_challenges = count_where (λ c. ltb c.expires_at session_cutoff) db.email_challenges;
    runner_messages = count_where (λ m. ltb m.created_at message_cutoff) db.runner_messages;
    events = count_where (is_stale_event db.tasks execution_cutoff) db.events;
    artifacts = count_where (is_stale_artifact db.tasks execution_cutoff) db.artifacts;
    jobs = count_where (is_stale_job execution_cutoff) db.jobs;
  },
  record db {
    sessions = delete_where (is_stale_session session_cutoff) db.sessions;
    email_challenges = delete_where (λ c. ltb c.expires_at session_cutoff) db.email_challenges;
    runner_messages = delete_where (λ m. ltb m.created_at message_cutoff) db.runner_messages;
    events = delete_where (is_stale_event db.tasks execution_cutoff) db.events;
    artifacts = delete_where (is_stale_artifact db.tasks execution_cutoff) db.artifacts;
    jobs = delete_where (is_stale_job execution_cutoff) db.jobs;
  },
)

-- The worktrees of ended tasks that were last changed before the cutoff.
unfoldable pub list_stale_worktrees : ℕ → Db → List String
list_stale_worktrees cutoff db =
    map (λ a. a.content)
      (select_where
        (λ a.
          str_eq a.kind "worktree"
          && any_where
              (λ t. str_eq t.id a.task_id && ltb t.updated_at cutoff && is_terminal t.status)
              db.tasks)
        db.artifacts)
