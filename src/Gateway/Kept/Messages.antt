-- ===== src/Gateway/Kept/Messages.antt =====
-- Each message of a runner is handled by calls of the storage for that runner.
use automated_workflow.Prelude.{String, str_append, Bool, true, false, not, none, some, ◌≡◌}
use automated_workflow.Prelude.Tests.{holds_text, given_text}
use automated_workflow.Prelude.Outcome.{pure, asks, ◌>>=◌, ◌>>◌}
use automated_workflow.Prelude.Steps.{Preserves-bind, Preserves-choice}
use automated_workflow.Prelude.Json.{Fields, field, number, end, get, truthy, str}
use automated_workflow.Models.{accepted, wait_permission, JobStatus}
use automated_workflow.Gateway.Handlers.{
  status_only, percent_of, progress_fields, is_null, failure, acknowledged, apply, recorded, is_ack,
  handle_from, handle, heartbeat_message, capability_message, accepted_message, progress_message,
  task_log_message, terminal_message, ai_message, file_message, artifact_message,
  permission_message, finish, completed_message, failed_message, cancelled_message, metrics_of,
  is_text, enabled_names, renew, log_event, renew_active, for_task,
}
use automated_workflow.Protocol.{
  MessageType, register, register_ack, heartbeat, heartbeat_ack, capability, task_assign,
  task_accepted, task_progress, task_log, terminal_output, ai_chunk, file_changed,
  permission_request, permission_result, cancel_task, task_completed, task_failed, task_cancelled,
  reconnect, ack, artifact, MessageEnvelope,
}
use automated_workflow.Protocol.Wire.{read_number}
use automated_workflow.Schema.{Db, runner}
use automated_workflow.Storage.Tasks.{TaskFields, get_runner_active_task}
use automated_workflow.Storage.Events.{add_artifact}
use automated_workflow.Storage.Runners.{touch_runner, update_runner_capabilities}
use automated_workflow.Storage.Permissions.{create_permission_request}
use automated_workflow.Storage.Messages.{record_runner_message}
use automated_workflow.Gateway.{
  Server, close, text_or, Gateway, GatewaySession, within, changed, send, acknowledge,
  update_own_task, to_int,
}
use automated_workflow.Gateway.Kept.{
  IsKept, within-Keeps, changed-Keeps, send-Keeps, given_number-Keeps, update_own_task-Keeps,
  done-Keeps, renew-Keeps, log_event-Keeps, renew_active-Keeps, for_task-Keeps,
  unless_persisted-Keeps, answered-Keeps, Holds, Keeps,
}

module _ (env : Server) (runner_id : String) (P : Db → Type 0) (kept : IsKept env runner_id P) where
  heartbeat-Keeps :
      (e : MessageEnvelope) → Keeps env runner_id P kept (heartbeat_message env runner_id e)
  unfolding heartbeat_message
  heartbeat-Keeps e =
      let touch =
        touch_runner runner_id (some (text_or env e.payload "status" "idle"))
          (some (metrics_of e.payload)) env.now in
      Preserves-bind (Holds env runner_id P kept) (within touch)
        (λ r. do
          active ← asks (λ s. get_runner_active_task runner_id s.db)
          renew_active env runner_id active (is_text (get e.payload "status") "busy")
          send env heartbeat_ack none (field "ackSeq" (number e.seq) end)
          pure tt)
        (within-Keeps env runner_id P kept touch (kept.touched _ _))
        (λ r s p.
          Preserves-bind (Holds env runner_id P kept)
            (renew_active env runner_id (get_runner_active_task runner_id s.db)
              (is_text (get e.payload "status") "busy"))
            (λ u. do send env heartbeat_ack none (field "ackSeq" (number e.seq) end); pure tt)
            (renew_active-Keeps env runner_id P kept (get_runner_active_task runner_id s.db) _)
            (λ u.
              answered-Keeps env runner_id P kept heartbeat_ack (field "ackSeq" (number e.seq) end))
            s p)

  capability-Keeps :
      (e : MessageEnvelope) → Keeps env runner_id P kept (capability_message env runner_id e)
  unfolding capability_message
  capability-Keeps e =
      done-Keeps env runner_id P kept
        (update_runner_capabilities runner_id (enabled_names e.payload) env.now)
        (kept.capable (enabled_names e.payload))

  then-Keeps :
      {A : Type 0} (m k : Gateway A)
      → Keeps env runner_id P kept m
      → Keeps env runner_id P kept k
      → Keeps env runner_id P kept (m >> k)
  then-Keeps m k h g = Preserves-bind (Holds env runner_id P kept) m (λ a. k) h (λ a. g)

  accepted-Keeps :
      (e : MessageEnvelope) → Keeps env runner_id P kept (accepted_message env runner_id e)
  unfolding accepted_message
  accepted-Keeps e =
      then-Keeps (renew env runner_id e.task_id) _ (renew-Keeps env runner_id P kept e.task_id) (
        then-Keeps (update_own_task env runner_id e.task_id (status_only accepted)) _
          (update_own_task-Keeps env runner_id P kept e.task_id (status_only accepted))
          (for_task-Keeps env runner_id P kept e.task_id _
            (λ t. log_event-Keeps env runner_id P kept t _ _ _)))

  percent-Keeps : (payload : Fields) → Keeps env runner_id P kept (percent_of env runner_id payload)
  percent-Keeps payload =
      Preserves-choice (Holds env runner_id P kept) (is_null (get payload "percent")) (pure none) _
        (λ s p. p)
        (Preserves-bind (Holds env runner_id P kept) (to_int env (get payload "percent"))
          (λ n. pure (some n))
          (given_number-Keeps env runner_id P kept (read_number env.other (get payload "percent")))
          (λ n s p. p))

  progress-Keeps :
      (e : MessageEnvelope) → Keeps env runner_id P kept (progress_message env runner_id e)
  unfolding progress_message
  progress-Keeps e =
      then-Keeps (renew env runner_id e.task_id) _ (renew-Keeps env runner_id P kept e.task_id) (
        Preserves-choice (Holds env runner_id P kept) (truthy (get e.payload "persisted")) (pure tt)
          _ (λ s p. p)
          (Preserves-bind (Holds env runner_id P kept) (percent_of env runner_id e.payload)
            (λ percent.
              update_own_task env runner_id e.task_id
                (progress_fields env runner_id e.payload percent))
            (percent-Keeps e.payload)
            (λ percent. update_own_task-Keeps env runner_id P kept e.task_id _)))

  task_log-Keeps :
      (e : MessageEnvelope) → Keeps env runner_id P kept (task_log_message env runner_id e)
  unfolding task_log_message
  task_log-Keeps e =
      unless_persisted-Keeps env runner_id P kept e _
        (λ t. log_event-Keeps env runner_id P kept t _ _ _)

  terminal-Keeps :
      (e : MessageEnvelope) → Keeps env runner_id P kept (terminal_message env runner_id e)
  unfolding terminal_message
  terminal-Keeps e =
      unless_persisted-Keeps env runner_id P kept e _
        (λ t. log_event-Keeps env runner_id P kept t _ _ _)

  ai-Keeps : (e : MessageEnvelope) → Keeps env runner_id P kept (ai_message env runner_id e)
  unfolding ai_message
  ai-Keeps e =
      for_task-Keeps env runner_id P kept e.task_id _
        (λ t. log_event-Keeps env runner_id P kept t _ _ _)

  file-Keeps : (e : MessageEnvelope) → Keeps env runner_id P kept (file_message env runner_id e)
  unfolding file_message
  file-Keeps e =
      unless_persisted-Keeps env runner_id P kept e _
        (λ t. log_event-Keeps env runner_id P kept t _ _ _)

  artifact-Keeps :
      (e : MessageEnvelope) → Keeps env runner_id P kept (artifact_message env runner_id e)
  unfolding artifact_message
  artifact-Keeps e =
      unless_persisted-Keeps env runner_id P kept e _
        (λ t. done-Keeps env runner_id P kept (add_artifact t _ _ env.now) (kept.stored t _ _))

  finish-Keeps :
      (e : MessageEnvelope) (fields : TaskFields) (job : String → Db → Db)
      → ((t : String) (db : Db) → P db → P (job t db))
      → Keeps env runner_id P kept (finish env runner_id e fields job)
  finish-Keeps e fields job h =
      Preserves-choice (Holds env runner_id P kept) (truthy (get e.payload "persisted")) (pure tt) _
        (λ s p. p)
        (Preserves-bind (Holds env runner_id P kept)
          (update_own_task env runner_id e.task_id fields)
          (λ u. for_task env runner_id e.task_id (λ t. changed (job t)))
          (update_own_task-Keeps env runner_id P kept e.task_id fields)
          (λ u.
            for_task-Keeps env runner_id P kept e.task_id (λ t. changed (job t))
              (λ t. changed-Keeps env runner_id P kept (job t) (h t))))

  request-Keeps :
      (e : MessageEnvelope) (t : String)
      → Keeps env runner_id P kept (do
        permission ← within (
            create_permission_request
              (text_or env e.payload "requestId" e.id)
              t
              runner_id
              (text_or env e.payload "operation" "unknown operation")
              (text_or env e.payload "reason" "")
              env.now)
        log_event env runner_id t
            (str_append "Runner 请求权限：" permission.operation)
            "warning"
            (field "permission_id" (str permission.id) end))
  request-Keeps e t =
      let ask =
        create_permission_request (text_or env e.payload "requestId" e.id) t runner_id
          (text_or env e.payload "operation" "unknown operation")
          (text_or env e.payload "reason" "") env.now in
      Preserves-bind (Holds env runner_id P kept) (within ask)
        (λ permission.
          log_event env runner_id t (str_append "Runner 请求权限：" permission.operation) "warning"
            (field "permission_id" (str permission.id) end))
        (within-Keeps env runner_id P kept ask (kept.requested _ t _ _))
        (λ permission. log_event-Keeps env runner_id P kept t _ _ _)

  permission-Keeps :
      (e : MessageEnvelope) → Keeps env runner_id P kept (permission_message env runner_id e)
  unfolding permission_message
  permission-Keeps e =
      then-Keeps (update_own_task env runner_id e.task_id (status_only wait_permission)) _
        (update_own_task-Keeps env runner_id P kept e.task_id (status_only wait_permission))
        (for_task-Keeps env runner_id P kept e.task_id _ (request-Keeps e))

  completed-Keeps :
      (e : MessageEnvelope) → Keeps env runner_id P kept (completed_message env runner_id e)
  unfolding completed_message
  completed-Keeps e = finish-Keeps e _ _ (λ t. kept.completed t JobStatus.completed)

  failed-Keeps : (e : MessageEnvelope) → Keeps env runner_id P kept (failed_message env runner_id e)
  unfolding failed_message
  failed-Keeps e = finish-Keeps e _ _ (λ t. kept.failed_again t (failure env runner_id e))

  cancelled-Keeps :
      (e : MessageEnvelope) → Keeps env runner_id P kept (cancelled_message env runner_id e)
  unfolding cancelled_message
  cancelled-Keeps e = finish-Keeps e _ _ (λ t. kept.completed t JobStatus.cancelled)

  acknowledge-Keeps :
      (e : MessageEnvelope) (duplicate : Bool)
      → Keeps env runner_id P kept (do acknowledge env e duplicate; pure tt)
  unfolding acknowledge
  acknowledge-Keeps e duplicate =
      Preserves-bind (Holds env runner_id P kept) (acknowledge env e duplicate) (λ a. pure tt)
        (send-Keeps env runner_id P kept ack e.task_id _) (λ a s p. p)

  acknowledged-Keeps :
      (e : MessageEnvelope) (m : Gateway (Unit {0}))
      → Keeps env runner_id P kept m
      → Keeps env runner_id P kept (acknowledged env runner_id e m)
  unfolding acknowledged
  acknowledged-Keeps e m h = then-Keeps m _ h (acknowledge-Keeps e false)

  pub apply-Keeps :
      (type : MessageType) (e : MessageEnvelope)
      → Keeps env runner_id P kept (apply env runner_id type e)
  unfolding apply
  apply-Keeps heartbeat e = heartbeat-Keeps e
  apply-Keeps capability e = acknowledged-Keeps e _ (capability-Keeps e)
  apply-Keeps task_accepted e = acknowledged-Keeps e _ (accepted-Keeps e)
  apply-Keeps task_progress e = acknowledged-Keeps e _ (progress-Keeps e)
  apply-Keeps task_log e = acknowledged-Keeps e _ (task_log-Keeps e)
  apply-Keeps terminal_output e = acknowledged-Keeps e _ (terminal-Keeps e)
  apply-Keeps ai_chunk e = acknowledged-Keeps e _ (ai-Keeps e)
  apply-Keeps file_changed e = acknowledged-Keeps e _ (file-Keeps e)
  apply-Keeps artifact e = acknowledged-Keeps e _ (artifact-Keeps e)
  apply-Keeps permission_request e = acknowledged-Keeps e _ (permission-Keeps e)
  apply-Keeps task_completed e = acknowledged-Keeps e _ (completed-Keeps e)
  apply-Keeps task_failed e = acknowledged-Keeps e _ (failed-Keeps e)
  apply-Keeps task_cancelled e = acknowledged-Keeps e _ (cancelled-Keeps e)
  apply-Keeps register e = acknowledged-Keeps e (pure tt) (λ s p. p)
  apply-Keeps register_ack e = acknowledged-Keeps e (pure tt) (λ s p. p)
  apply-Keeps heartbeat_ack e = acknowledged-Keeps e (pure tt) (λ s p. p)
  apply-Keeps task_assign e = acknowledged-Keeps e (pure tt) (λ s p. p)
  apply-Keeps permission_result e = acknowledged-Keeps e (pure tt) (λ s p. p)
  apply-Keeps cancel_task e = acknowledged-Keeps e (pure tt) (λ s p. p)
  apply-Keeps reconnect e = acknowledged-Keeps e (pure tt) (λ s p. p)
  apply-Keeps ack e = acknowledged-Keeps e (pure tt) (λ s p. p)

  pub recorded-Keeps :
      (e : MessageEnvelope) (is_new : Bool)
      → Keeps env runner_id P kept (recorded env runner_id e is_new)
  unfolding recorded
  recorded-Keeps e is_new =
      Preserves-choice (Holds env runner_id P kept) (is_ack env runner_id e.type) (pure tt) _
        (λ s p. p)
        (Preserves-choice (Holds env runner_id P kept) (not is_new) _ _ (acknowledge-Keeps e true)
          (apply-Keeps e.type e))

  handle_from-Keeps :
      (e : MessageEnvelope) → Keeps env runner_id P kept (handle_from env runner_id e)
  unfolding handle_from
  handle_from-Keeps e =
      Preserves-bind (Holds env runner_id P kept)
        (within (record_runner_message env.py_str e runner env.now)) (recorded env runner_id e)
        (within-Keeps env runner_id P kept (record_runner_message env.py_str e runner env.now)
          (kept.recorded e runner))
        (recorded-Keeps e)

  -- What the calls for a runner keep is kept as a message is handled in a session of that runner.
  pub handle-Keeps :
      (e : MessageEnvelope) (s : GatewaySession)
      → given_text s.runner_id ≡ some runner_id
      → P s.db
      → P (handle env e s).1.db
  unfolding handle
  handle-Keeps e s c p = rw c (
      Preserves-choice (Holds env runner_id P kept) (holds_text e.runner_id runner_id)
        (handle_from env runner_id e) (close 1008 "runnerId mismatch") (handle_from-Keeps e)
        (λ s1 q. q) s p)
