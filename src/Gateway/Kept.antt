-- ===== src/Gateway/Kept.antt =====
-- What every call of the storage keeps, the steps of a handler of the gateway keep.
pub mod Messages
use automated_workflow.Prelude.{
  ℕ, String, str_append, Bool, List, true, false, not, Option, none, some, ◌≡◌, ◌≢◌, refl, inl, inr,
  subst, arith,
}
use automated_workflow.Prelude.Tests.{
  Bool-cases, Option-cases, if◌then◌else◌, holds_text, given_text,
}
use automated_workflow.Prelude.Outcome.{
  Action, Outcome, returned, raised, pure, asks, resume, ◌>>=◌, ◌>>◌,
}
use automated_workflow.Prelude.Steps.{Preserves, Preserves-bind, Preserves-choice}
use automated_workflow.Prelude.Json.{Fields, Json, field, number, bool, end, get, truthy, str}
use automated_workflow.Models.{TaskStatus, accepted, wait_permission, JobStatus, Stage}
use automated_workflow.Prelude.Table.{insert_row}
use automated_workflow.Gateway.Handlers.{
  status_only, percent_of, progress_fields, is_null, failure, acknowledged, apply, recorded, is_ack,
  handle_from, handle, heartbeat_message, capability_message, accepted_message, progress_message,
  task_log_message, terminal_message, ai_message, file_message, artifact_message,
  permission_message, finish, completed_message, failed_message, cancelled_message, metrics_of,
  is_text, enabled_names, renew, log_event, renew_active, for_task, unless_persisted,
}
use automated_workflow.Protocol.{
  MessageType, register, register_ack, heartbeat, heartbeat_ack, capability, task_assign,
  task_accepted, task_progress, task_log, terminal_output, ai_chunk, file_changed,
  permission_request, permission_result, cancel_task, task_completed, task_failed, task_cancelled,
  reconnect, ack, artifact, MessageEnvelope,
}
use automated_workflow.Protocol.Wire.{read_number}
use automated_workflow.Schema.{Db, TaskRow, Direction, server, runner}
use automated_workflow.Storage.Tasks.{
  Store, TaskFields, get_task, update_task, get_runner_active_task,
}
use automated_workflow.Storage.Events.{add_event, add_artifact}
use automated_workflow.Storage.Jobs.{renew_job, complete_job, fail_job}
use automated_workflow.Storage.Runners.{touch_runner, update_runner_capabilities}
use automated_workflow.Storage.Permissions.{create_permission_request}
use automated_workflow.Storage.Messages.{record_runner_message}
use automated_workflow.Gateway.{
  Server, close, text_or, Gateway, GatewaySession, within, changed, with_text, send, acknowledge,
  update_own_task, given_number, to_int, write_own, send_to, next_envelope,
}

-- A predicate on the database that the calls of a handler for one runner keep.
pub record IsKept (env : Server) (runner_id : String) (P : Db → Type 0) : Type 0 where
  pub touched :
      (status : Option String) (metrics : Option Fields)
      → Preserves P (touch_runner runner_id status metrics env.now)
  pub capable :
      (names : List String) → Preserves P (update_runner_capabilities runner_id names env.now)
  pub renewed :
      (t : String) (db : Db)
      → P db
      → P (renew_job t runner_id env.settings.job_lease_seconds env.now db).1
  pub written :
      (t : String) (fields : TaskFields) (task : TaskRow) (db : Db)
      → (get_task t db).0 ≡ returned task
      → holds_text task.runner_id runner_id ≡ true
      → P db
      → P (update_task t fields env.now db).1
  pub noted :
      (t message : String) (stage : Option Stage) (level : String) (payload : Fields)
      → Preserves P (add_event t message stage level payload env.now)
  pub stored : (t kind content : String) → Preserves P (add_artifact t kind content env.now)
  pub requested :
      (id t operation reason : String)
      → Preserves P (create_permission_request id t runner_id operation reason env.now)
  pub completed :
      (t : String) (status : JobStatus) (db : Db)
      → P db
      → P (complete_job t runner_id status env.now db)
  pub failed_again :
      (t error : String) (db : Db)
      → P db
      → P (fail_job t runner_id error env.settings.job_retry_base_seconds env.now db).1
  pub recorded :
      (e : MessageEnvelope) (d : Direction)
      → Preserves P (record_runner_message env.py_str e d env.now)

module _ (env : Server) (runner_id : String) (P : Db → Type 0) (kept : IsKept env runner_id P) where
  abbrev pub Holds : GatewaySession → Type 0
  Holds s = P s.db

  abbrev pub Keeps : {A : Type 0} → Gateway A → Type 0
  Keeps m = Preserves Holds m

  pub with_text-Keeps :
      {A : Type 0} (t : Option String) (m : Gateway A) (f : String → Gateway A)
      → Keeps m
      → ((x : String) → Keeps (f x))
      → Keeps (with_text t m f)
  with_text-Keeps none m f h g = h
  with_text-Keeps (some x) m f h g = g x

  pub within-Keeps : {A : Type 0} (m : Store A) → Preserves P m → Keeps (within m)
  within-Keeps m h s p = h s.db p

  pub changed-Keeps : (f : Db → Db) → ((db : Db) → P db → P (f db)) → Keeps (changed f)
  changed-Keeps f h s p = h s.db p

  pub send_to-Keeps :
      (type : MessageType) (task_id : Option String) (payload : Fields) (r : String)
      → Keeps (send_to env type task_id payload r)
  unfolding send_to
  send_to-Keeps type task_id payload r s p =
      let e = next_envelope env type task_id payload r s.db in
      Preserves-bind Holds (within (record_runner_message env.py_str e server env.now))
        (λ b s1. (returned e, record s1 { sent = insert_row e s1.sent }))
        (λ s1 q. kept.recorded e server s1.db q) (λ b s1 q. q) s p

  pub send-Keeps :
      (type : MessageType) (task_id : Option String) (payload : Fields)
      → Keeps (send env type task_id payload)
  unfolding send
  send-Keeps type task_id payload s =
      with_text-Keeps (given_text s.runner_id) _ (send_to env type task_id payload) (λ s1 p. p)
        (send_to-Keeps type task_id payload) s

  pub given_number-Keeps : (o : Option ℕ) → Keeps (given_number o)
  given_number-Keeps none s p = p
  given_number-Keeps (some n) s p = p

  after_write :
      (t : String) (fields : TaskFields) (r : Outcome TaskRow) (s : GatewaySession)
      → P s.db
      → P (resume r s (λ a. pure {S = GatewaySession} (tt {0}))).1.db
  after_write t fields (returned a) s p = p
  after_write t fields (raised x) s p = p

  pub write_own-Keeps :
      (t : String) (fields : TaskFields) (r : Outcome TaskRow) (s : GatewaySession)
      → (get_task t s.db).0 ≡ r
      → P s.db
      → P (write_own env runner_id t fields r s).1.db
  unfolding write_own
  write_own-Keeps t fields (raised x) s e p = p
  write_own-Keeps t fields (returned task) s e p =
      elim (Bool-cases (holds_text task.runner_id runner_id)) [
        | inl h ↦ rw h (
            after_write t fields (update_task t fields env.now s.db).0 _
              (kept.written t fields task s.db e h p))
        | inr h ↦ rw h p
      ]

  pub update_own_task-Keeps :
      (task_id : Option String) (fields : TaskFields)
      → Keeps (update_own_task env runner_id task_id fields)
  unfolding update_own_task
  update_own_task-Keeps task_id fields =
      with_text-Keeps (given_text task_id) (pure tt) _ (λ s p. p)
        (λ t s p. write_own-Keeps t fields (get_task t s.db).0 s refl p)

  pub done-Keeps : {A : Type 0} (m : Store A) → Preserves P m → Keeps (do within m; pure tt)
  done-Keeps m h = Preserves-bind Holds (within m) (λ a. pure tt) (within-Keeps m h) (λ a s p. p)

  pub renew-Keeps : (task_id : Option String) → Keeps (renew env runner_id task_id)
  unfolding renew
  renew-Keeps task_id =
      with_text-Keeps (given_text task_id) (pure tt) _ (λ s p. p) (λ t s p. kept.renewed t s.db p)

  pub log_event-Keeps :
      (t message level : String) (payload : Fields)
      → Keeps (log_event env runner_id t message level payload)
  unfolding log_event
  log_event-Keeps t message level payload =
      done-Keeps (add_event t message none level payload env.now)
        (kept.noted t message none level payload)

  pub renew_active-Keeps :
      (o : Option TaskRow) (busy : Bool) → Keeps (renew_active env runner_id o busy)
  renew_active-Keeps none busy s p = p
  renew_active-Keeps (some active) true s p = kept.renewed active.id s.db p
  renew_active-Keeps (some active) false s p = p

  pub for_task-Keeps :
      (task_id : Option String) (f : String → Gateway (Unit {0}))
      → ((t : String) → Keeps (f t))
      → Keeps (for_task env runner_id task_id f)
  for_task-Keeps task_id f h = with_text-Keeps (given_text task_id) (pure tt) f (λ s p. p) h

  pub unless_persisted-Keeps :
      (e : MessageEnvelope) (f : String → Gateway (Unit {0}))
      → ((t : String) → Keeps (f t))
      → Keeps (unless_persisted env runner_id e f)
  unless_persisted-Keeps e f h =
      Preserves-choice Holds (truthy (get e.payload "persisted")) (pure tt) _ (λ s p. p)
        (for_task-Keeps e.task_id f h)

  pub answered-Keeps :
      (type : MessageType) (payload : Fields) → Keeps (do send env type none payload; pure tt)
  answered-Keeps type payload =
      Preserves-bind Holds (send env type none payload) (λ a. pure tt)
        (send-Keeps type none payload) (λ a s p. p)
