-- ===== src/Models.antt =====
-- app/models.py: the states and roles. The rows of the tables are in Schema.antt.
use automated_workflow.Prelude.{Bool, true, false, String}

pub data TaskStatus : Type 0 where
  draft queued assigned accepted running wait_permission waiting_approval : TaskStatus
  completed failed cancelled : TaskStatus

pub data JobStatus : Type 0 where
  pending leased completed failed cancelled : JobStatus

pub data Stage : Type 0 where
  product planner reader design coder build test review acceptance delivery : Stage

pub data PermissionStatus : Type 0 where
  pending approved denied : PermissionStatus

pub data ProjectRole : Type 0 where
  owner editor viewer : ProjectRole

pub data GitProvider : Type 0 where
  github gitlab : GitProvider

-- `status = ?` for the states that the statements compare with
abbrev pub is_pending : JobStatus → Bool
is_pending JobStatus.pending = true
is_pending _ = false

abbrev pub is_leased : JobStatus → Bool
is_leased JobStatus.leased = true
is_leased _ = false

-- `status IN (completed, cancelled, failed)` of a job
abbrev pub is_finished : JobStatus → Bool
is_finished JobStatus.pending = false
is_finished JobStatus.leased = false
is_finished _ = true

-- The values of the enumerations, as messages show them.
abbrev pub task_status_text : TaskStatus → String
task_status_text draft = "draft"
task_status_text queued = "queued"
task_status_text assigned = "assigned"
task_status_text accepted = "accepted"
task_status_text running = "running"
task_status_text wait_permission = "wait_permission"
task_status_text waiting_approval = "waiting_approval"
task_status_text TaskStatus.completed = "completed"
task_status_text TaskStatus.failed = "failed"
task_status_text TaskStatus.cancelled = "cancelled"
