-- ===== src/Transport/Client/Assigning.antt =====
-- What the Local Runner does with a task that the server assigns, and with an acknowledgement of its own.
use automated_workflow.Prelude.{
  ℕ, ◌<◌, String, true, not, ◌&&◌, Option, some, List, [], ◌∷◌, ◌≡◌, refl, ◌∙◌, inl, inr, arith,
}
use automated_workflow.Prelude.Tests.{Bool-cases, if◌then◌else◌, holds_text}
use automated_workflow.Prelude.Outcome.{returned}
use automated_workflow.Prelude.Table.{All, insert_row, delete_where, member}
use automated_workflow.Prelude.Rows.{All-map}
use automated_workflow.Prelude.Json.{null, Fields, get, has_key, end, field, number}
use automated_workflow.Protocol.{
  MessageType, task_assign, task_accepted, ack, MessageEnvelope, create,
}
use automated_workflow.Schema.{TaskRow}
use automated_workflow.Transport.{
  Entry, has_key_of, new_envelope, acknowledge, save_locked, is_one_of,
}
use automated_workflow.Transport.Calls.{IsSound, put-above}
use automated_workflow.Transport.Client.Queues.{IsSame}
use automated_workflow.Transport.Client.{
  Setup, RunnerProtocolClient, try_send, send, send_ack, queue_task, receive, handle_server_message,
  dispatch, handle_task_assign, acknowledge_message, made, is_type,
}

delete_where_last :
    (n : ℕ) (e : MessageEnvelope) (xs : List Entry)
    → All (λ (x : Entry). x.0 < n) xs
    → delete_where (has_key_of n) (insert_row (n, e) xs) ≡ xs
unfolding delete_where insert_row
delete_where_last n e [] a = ground arith
delete_where_last n e (x ∷ xs) a = ground (arith, a.0, delete_where_last n e xs a.1)

try_send-state : (e : MessageEnvelope) (c : RunnerProtocolClient) → (try_send e c).state ≡ c.state
unfolding try_send
try_send-state e c = ground arith

IsSame-trans : (c d e : RunnerProtocolClient) → IsSame d e → IsSame c d → IsSame c e
IsSame-trans c d e (t, q, a) (t', q', a') = (t ∙ t', q ∙ q', a ∙ a')

try_send-IsSame : (e : MessageEnvelope) (c : RunnerProtocolClient) → IsSame c (try_send e c)
unfolding try_send
try_send-IsSame e c = ground arith

queue_task-tasks :
    (task : TaskRow) (d c : RunnerProtocolClient)
    → IsSame c d
    → (queue_task task d).tasks ≡ (
        if not (holds_text c.active_task_id task.id) && not (member task.id c.queued_task_ids)
        then insert_row task c.tasks
        else c.tasks)
unfolding queue_task
queue_task-tasks task d c (t, q, a) = rw (← t, ← q, ← a) (ground arith)

module _ (env : Setup) where
  send-IsSame :
      (type : MessageType) (task_id : Option String) (payload : Fields) (c : RunnerProtocolClient)
      → IsSame c (send env type task_id payload c)
  unfolding send
  send-IsSame type task_id payload c =
      let r = made env type task_id payload c in
      let same = try_send-IsSame r.0 r.1 in
      elim (Bool-cases (is_type type ack)) [ inl h ↦ rw h same | inr h ↦ rw h same ]

  -- An acknowledgement uses a number and is not kept: whether or not it could be sent, the messages that
  -- wait are those that waited before.
  pub send_ack-pending :
      (e : MessageEnvelope) (c : RunnerProtocolClient)
      → IsSound c.state
      → ((send_ack env e c).state.pending ≡ c.state.pending)
        × (c.state.next_seq < (send_ack env e c).state.next_seq)
  unfolding send_ack send acknowledge save_locked new_envelope create
  send_ack-pending e c h =
      let answer =
        create (env.fresh_id c.state.next_seq) ack c.state.next_seq (some env.registration.id)
          e.task_id (field "ackSeq" (number e.seq) end) in
      let below : All (λ (x : Entry). x.0 < c.state.next_seq) c.state.pending =
        All-map (λ (x : Entry) p. p.1) c.state.pending h.entries in
      rw (try_send-state answer _, put-above answer c.state.pending below)
        (delete_where_last c.state.next_seq answer c.state.pending below, omega arith)

  -- A task that is assigned is queued at the end, unless it runs or is queued already.
  pub receive_assigned :
      (e : MessageEnvelope) (task : TaskRow) (c : RunnerProtocolClient)
      → e.type ≡ task_assign
      → get e.payload "ackSeq" ≡ null
      → has_key e.payload "task" ≡ true
      → env.read_task (get e.payload "task") ≡ some task
      → ((receive env e c).0 ≡ returned tt)
        × ((receive env e c).1.tasks ≡ (
            if not (holds_text c.active_task_id task.id) && not (member task.id c.queued_task_ids)
            then insert_row task c.tasks
            else c.tasks))
  unfolding receive handle_server_message dispatch handle_task_assign acknowledge_message is_one_of
      send_ack send
  receive_assigned e task c t a k r =
      let answered = send_ack env e c in
      let accepted = send env task_accepted (some task.id) end answered in
      rw (t, a, k, r)
        (
          refl,
          queue_task-tasks task accepted c (
              IsSame-trans c answered accepted
                (send-IsSame task_accepted (some task.id) end answered)
                (send-IsSame ack e.task_id (field "ackSeq" (number e.seq) end) c)),
        )
