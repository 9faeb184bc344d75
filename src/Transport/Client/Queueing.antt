-- ===== src/Transport/Client/Queueing.antt =====
-- The queue of tasks of the Local Runner holds each task once, however often it is assigned.
use automated_workflow.Prelude.{
  ℕ, String, not, ◌&&◌, Option, none, some, List, [], ◌∷◌, refl, inl, inr,
}
use automated_workflow.Prelude.Tests.{Bool-cases}
use automated_workflow.Prelude.Outcome.{modify, ◌>>◌}
use automated_workflow.Prelude.Json.{
  Json, Fields, field, number, end, has_key, get, truthy, or_value,
}
use automated_workflow.Protocol.{
  MessageType, MessageEnvelope, ack, task_accepted, register, register_ack, task_assign, capability,
  cancel_task, permission_result,
}
use automated_workflow.Prelude.Steps.{Preserves, Preserves-bind, Preserves-choice}
use automated_workflow.Transport.{
  discard_types, acknowledge, mark_registered, mark_server_message, is_one_of,
}
use automated_workflow.Protocol.Wire.{read_number}
use automated_workflow.Transport.Client.{
  Setup, is_null, validated_task, dispatch, handle_register_ack, handle_server_message, connected,
  registered_client, queue_task, RunnerProtocolClient, queue_task, next_task, task_finished,
  disconnected, try_send, made, is_type, whole, send_ack, acknowledge_message, handle_task_assign,
  with_state, flush_pending, connected, send, receive,
}
use automated_workflow.Transport.Client.Queues.{
  IsQueueing, queue_task-IsQueueing, same-IsQueueing, try_send-IsQueueing, with_state-IsQueueing,
  flush_pending-IsQueueing, handle_reconnected-IsQueueing, next_task-IsQueueing,
  disconnected-IsQueueing, task_finished-IsQueueing, given-IsQueueing,
}

-- What the thread of the connection and the program of the runner do, one after the other.
pub data ClientCall : Type 0 where
  sends : MessageType → Option String → Fields → ClientCall
  receives : MessageEnvelope → ClientCall
  connects disconnects takes : ClientCall
  finishes : String → ClientCall

module _ (env : Setup) where
  send-IsQueueing :
      (type : MessageType) (task_id : Option String) (payload : Fields) (c : RunnerProtocolClient)
      → IsQueueing c
      → IsQueueing (send env type task_id payload c)
  unfolding send
  send-IsQueueing type task_id payload c h =
      let r = made env type task_id payload c in
      let h1 = try_send-IsQueueing r.0 r.1 (same-IsQueueing c r.1 (refl, refl, refl) h) in
      elim (Bool-cases (is_type type ack)) [
        | inl e ↦ rw e (with_state-IsQueueing (acknowledge r.0.seq) (try_send r.0 r.1) h1)
        | inr e ↦ rw e h1
      ]

  send_ack-IsQueueing :
      (e : MessageEnvelope) (c : RunnerProtocolClient)
      → IsQueueing c
      → IsQueueing (send_ack env e c)
  unfolding send_ack
  send_ack-IsQueueing e c h = send-IsQueueing ack e.task_id (field "ackSeq" (number e.seq) end) c h

  connected-IsQueueing : (c : RunnerProtocolClient) → IsQueueing c → IsQueueing (connected env c)
  unfolding connected
  connected-IsQueueing c h = elim (Bool-cases c.state.registered) [
    | inl e ↦ rw e (same-IsQueueing c _ (refl, refl, refl) h)
    | inr e ↦ rw e (same-IsQueueing c _ (refl, refl, refl) h)
  ]

  acknowledge_message-IsQueueing : (v : Json) → Preserves IsQueueing (acknowledge_message env v)
  unfolding acknowledge_message
  acknowledge_message-IsQueueing v =
      Preserves-choice IsQueueing (is_null v) _ _ (λ c h. h)
        (Preserves-bind IsQueueing (whole env.other v) (λ n. modify (with_state (acknowledge n)))
          (given-IsQueueing "invalid number" (read_number env.other v))
          (λ n c h. with_state-IsQueueing (acknowledge n) c h))

  validated_task-IsQueueing : (payload : Fields) → Preserves IsQueueing (validated_task env payload)
  validated_task-IsQueueing payload =
      Preserves-choice IsQueueing (not (has_key payload "task")) _ _ (λ c h. h)
        (given-IsQueueing "task" (env.read_task (get payload "task")))

  handle_task_assign-IsQueueing :
      (e : MessageEnvelope) → Preserves IsQueueing (handle_task_assign env e)
  unfolding handle_task_assign
  handle_task_assign-IsQueueing e c h =
      Preserves-bind IsQueueing (validated_task env e.payload)
        (λ task. modify (send env task_accepted (some task.id) end) >> modify (queue_task task))
        (validated_task-IsQueueing e.payload)
        (λ task d g.
          queue_task-IsQueueing task (send env task_accepted (some task.id) end d)
            (send-IsQueueing task_accepted (some task.id) end d g))
        (send_ack env e c) (send_ack-IsQueueing e c h)

  ready_now :
      (seconds : ℕ)
      → Preserves IsQueueing (
          modify (registered_client seconds)
          >> (modify flush_pending >> modify (send env capability none env.capability_payload)))
  ready_now seconds c h =
      send-IsQueueing capability none env.capability_payload
        (flush_pending (registered_client seconds c))
        (flush_pending-IsQueueing (registered_client seconds c)
          (same-IsQueueing c _ (refl, refl, refl) h))

  handle_register_ack-IsQueueing :
      (payload : Fields) → Preserves IsQueueing (handle_register_ack env payload)
  unfolding handle_register_ack
  handle_register_ack-IsQueueing payload =
      Preserves-choice IsQueueing (not (truthy (get payload "accepted"))) _ _
        (λ c h. same-IsQueueing c _ (refl, refl, refl) h)
        (λ c h.
          Preserves-bind IsQueueing
            (λ d.
              whole env.other (or_value (get payload "heartbeat") (number d.heartbeat_seconds)) d)
            (λ seconds.
              modify (registered_client seconds)
              >> (modify flush_pending >> modify (send env capability none env.capability_payload)))
            (λ d g.
              given-IsQueueing "invalid number"
                (read_number env.other
                  (or_value (get payload "heartbeat") (number d.heartbeat_seconds)))
                d g)
            ready_now (with_state (discard_types (register ∷ [])) (with_state mark_registered c))
            (same-IsQueueing c _ (refl, refl, refl) h))

  dispatch-IsQueueing : (e : MessageEnvelope) → Preserves IsQueueing (dispatch env e)
  unfolding dispatch
  dispatch-IsQueueing e =
      Preserves-choice IsQueueing (is_type e.type register_ack) _ _
        (handle_register_ack-IsQueueing e.payload)
        (Preserves-choice IsQueueing (is_type e.type ack && truthy (get e.payload "reconnected")) _
          _ handle_reconnected-IsQueueing
          (Preserves-choice IsQueueing (is_type e.type task_assign) _ _
            (handle_task_assign-IsQueueing e)
            (Preserves-choice IsQueueing (is_one_of (cancel_task ∷ permission_result ∷ []) e.type) _
              _ (send_ack-IsQueueing e) (λ c h. h))))

  receive-IsQueueing : (e : MessageEnvelope) → Preserves IsQueueing (receive env e)
  unfolding receive handle_server_message
  receive-IsQueueing e =
      Preserves-bind IsQueueing (handle_server_message env e)
        (λ u. modify (with_state (mark_server_message e)))
        (Preserves-bind IsQueueing (acknowledge_message env (get e.payload "ackSeq"))
          (λ u. dispatch env e) (acknowledge_message-IsQueueing (get e.payload "ackSeq"))
          (λ u. dispatch-IsQueueing e))
        (λ u. with_state-IsQueueing (mark_server_message e))

  -- Where the receiving raised, its thread has ended and the client stays as it was left.
  unfoldable pub step : ClientCall → RunnerProtocolClient → RunnerProtocolClient
  step (sends type task_id payload) c = send env type task_id payload c
  step (receives e) c = (receive env e c).1
  step connects c = connected env c
  step disconnects c = disconnected c
  step takes c = (next_task c).1
  step (finishes task_id) c = task_finished task_id c

  unfoldable pub run : List ClientCall → RunnerProtocolClient → RunnerProtocolClient
  run [] c = c
  run (call ∷ calls) c = run calls (step call c)

  step-IsQueueing :
      (call : ClientCall) (c : RunnerProtocolClient) → IsQueueing c → IsQueueing (step call c)
  unfolding step
  step-IsQueueing (sends type task_id payload) c h = send-IsQueueing type task_id payload c h
  step-IsQueueing (receives e) c h = receive-IsQueueing e c h
  step-IsQueueing connects c h = connected-IsQueueing c h
  step-IsQueueing disconnects c h = disconnected-IsQueueing c h
  step-IsQueueing takes c h = next_task-IsQueueing c h
  step-IsQueueing (finishes task_id) c h = task_finished-IsQueueing task_id c h

  -- Whatever messages arrive and whatever the runner does between them, each step whole, its queue
  -- holds no task twice, `queued_task_ids` names the tasks of the queue, and the task that runs is
  -- not in it.
  pub run-IsQueueing :
      (calls : List ClientCall) (c : RunnerProtocolClient) → IsQueueing c → IsQueueing (run calls c)
  unfolding run
  run-IsQueueing [] c h = h
  run-IsQueueing (call ∷ calls) c h = run-IsQueueing calls (step call c) (step-IsQueueing call c h)
