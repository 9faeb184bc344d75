-- ===== src/Transport/Client.antt =====
-- app/runner_transport.py: RunnerProtocolClient, the Local Runner's side of the connection. What is printed
-- and the callback `on_message` of the runner's program are left out, and a heartbeat is sent by the caller.
pub mod Queues
pub mod Queueing
pub mod Flushing
pub mod Resending
pub mod Assigning
use automated_workflow.Prelude.{
  ℕ, max, String, Bool, true, false, not, ◌&&◌, ◌||◌, Option, none, some, List, [], ◌∷◌, str_eq,
  str_append,
}
use automated_workflow.Prelude.Tests.{if◌then◌else◌, holds_text}
use automated_workflow.Prelude.Outcome.{
  Action, pure, raise, modify, key_error, value_error, returned, ◌>>=◌, ◌>>◌,
}
use automated_workflow.Prelude.Json.{
  Json, null, number, str, bool, array, object, Fields, end, field, get, has_key, truthy, or_value,
  texts,
}
use automated_workflow.Prelude.Table.{delete_where, insert_row, member}
use automated_workflow.Protocol.{
  MessageType, register, register_ack, capability, task_assign, task_accepted, permission_result,
  cancel_task, reconnect, ack, MessageEnvelope,
}
use automated_workflow.Protocol.Wire.{message_type_text, read_number}
use automated_workflow.Schema.{TaskRow}
use automated_workflow.Transport.{
  ProtocolState, optional_str, new_envelope, acknowledge, mark_server_message, mark_registered,
  discard_types, is_one_of, pending_messages,
}

-- What `_send_on` meets: no connection, one that is closed, or one that takes the message.
pub data Connection : Type 0 where
  absent closed opened : Connection

pub record Registration : Type 0 where
  pub id : String
  pub name : String
  pub platform : String
  pub roots : List String

pub record RunnerProtocolClient : Type 0 where
  pub state : ProtocolState
  -- The messages that were given to a connection, in their order.
  pub sent : List MessageEnvelope
  pub tasks : List TaskRow
  pub stop_event : Bool
  pub ready : Bool
  pub connection : Connection
  pub active_task_id : Option String
  pub queued_task_ids : List String
  -- In whole seconds.
  pub heartbeat_seconds : ℕ

abbrev pub Client : Type 0 → Type 0
Client A = Action RunnerProtocolClient A

abbrev pub is_opened : Connection → Bool
is_opened opened = true
is_opened absent = false
is_opened closed = false

-- A message is kept back until Register or Reconnect is acknowledged; an exception of the
-- connection is caught.
unfoldable pub try_send : MessageEnvelope → RunnerProtocolClient → RunnerProtocolClient
try_send e c =
    if c.ready && is_opened c.connection then record c { sent = insert_row e c.sent } else c

abbrev pub is_type : MessageType → MessageType → Bool
is_type t type = str_eq (message_type_text t) (message_type_text type)

-- `envelope.type not in {REGISTER, RECONNECT}`
abbrev pub is_flushed : MessageEnvelope → Bool
is_flushed e = not (is_one_of (register ∷ reconnect ∷ []) e.type)

unfoldable pub send_each : List MessageEnvelope → RunnerProtocolClient → RunnerProtocolClient
send_each [] c = c
send_each (e ∷ es) c = send_each es (if is_flushed e then try_send e c else c)

unfoldable pub flush_pending : RunnerProtocolClient → RunnerProtocolClient
unfolding send_each
flush_pending c = send_each (pending_messages c.state) c

-- `set.discard`
abbrev pub discarded : String → List String → List String
discarded t ts = delete_where (λ s. str_eq s t) ts

-- `none` where the queue stays empty for the timeout.
abbrev pub took : List TaskRow → RunnerProtocolClient → Option TaskRow × RunnerProtocolClient
took [] c = (none, c)
took (task ∷ rest) c = (
  some task,
  record c {
    tasks = rest;
    queued_task_ids = discarded task.id c.queued_task_ids;
    active_task_id = some task.id;
  },
)

unfoldable pub next_task : RunnerProtocolClient → Option TaskRow × RunnerProtocolClient
next_task c = took c.tasks c

unfoldable pub task_finished : String → RunnerProtocolClient → RunnerProtocolClient
task_finished task_id c =
    if holds_text c.active_task_id task_id then record c { active_task_id = none } else c

unfoldable pub disconnected : RunnerProtocolClient → RunnerProtocolClient
disconnected c = record c { ready = false; connection = absent }

abbrev pub with_state :
    (ProtocolState → ProtocolState) → RunnerProtocolClient → RunnerProtocolClient
with_state f c = record c { state = f c.state }

-- A value that was read, or the exception of its reading.
abbrev pub given : {A : Type 0} → String → Option A → Client A
given text none = raise (value_error text)
given text (some a) = pure a

-- A whole number of the payload.
abbrev pub whole : (Json → Option ℕ) → Json → Client ℕ
whole other v = given "invalid number" (read_number other v)

abbrev pub is_null : Json → Bool
is_null null = true
is_null _ = false

abbrev pub registered_client : ℕ → RunnerProtocolClient → RunnerProtocolClient
registered_client seconds c = record c { heartbeat_seconds = max 2 seconds; ready = true }

unfoldable pub handle_reconnected : Client (Unit {0})
unfolding flush_pending
handle_reconnected = do
  modify (with_state (discard_types (reconnect ∷ [])))
  modify (λ c. record c { ready = true })
  modify flush_pending

unfoldable pub queue_task : TaskRow → RunnerProtocolClient → RunnerProtocolClient
queue_task task c =
    if not (holds_text c.active_task_id task.id) && not (member task.id c.queued_task_ids)
    then record c {
      queued_task_ids = insert_row task.id c.queued_task_ids;
      tasks = insert_row task c.tasks;
    }
    else c

-- What is set as the client is made, and what it takes from libraries: the fresh identifier of the
-- message with a number, the conversion of a value that is no number, and the validation of a task.
pub record Setup : Type 0 where
  pub registration : Registration
  pub version : String
  pub capability_payload : Fields
  pub fresh_id : ℕ → String
  pub other : Json → Option ℕ
  pub read_task : Json → Option TaskRow

module _ (env : Setup) where
  abbrev pub made :
      MessageType
      → Option String
      → Fields
      → RunnerProtocolClient
      → MessageEnvelope × RunnerProtocolClient
  made message_type task_id payload c =
      let r =
        new_envelope (env.fresh_id c.state.next_seq) message_type env.registration.id task_id
          payload c.state in
      (r.0, record c { state = r.1 })

  unfoldable pub send :
      MessageType → Option String → Fields → RunnerProtocolClient → RunnerProtocolClient
  unfolding try_send
  send message_type task_id payload c =
      let r = made message_type task_id payload c in
      let c1 = try_send r.0 r.1 in
      if is_type message_type ack then with_state (acknowledge r.0.seq) c1 else c1

  unfoldable pub send_ack : MessageEnvelope → RunnerProtocolClient → RunnerProtocolClient
  unfolding send
  send_ack e c = send ack e.task_id (field "ackSeq" (number e.seq) end) c

  -- A new connection, on which the first message is sent at once.
  unfoldable pub connected : RunnerProtocolClient → RunnerProtocolClient
  connected c =
      let open_client = record c { connection = opened; ready = false } in
      let r =
        if c.state.registered
        then made reconnect c.state.last_task
            (field "lastTask" (optional_str c.state.last_task) (
              field "lastSeq" (number c.state.last_server_seq)
                (field "version" (str env.version) end)))
            open_client
        else made register none
            (field "runnerId" (str env.registration.id) (
              field "hostname" (str env.registration.name) (
                field "platform" (str env.registration.platform) (
                  field "version" (str env.version)
                    (field "roots" (array (texts env.registration.roots)) end)))))
            open_client in
      record r.1 { sent = insert_row r.0 c.sent }

  unfoldable pub acknowledge_message : Json → Client (Unit {0})
  acknowledge_message ack_seq =
      if is_null ack_seq
      then pure tt
      else do seq ← whole env.other ack_seq; modify (with_state (acknowledge seq))

  unfoldable pub handle_register_ack : Fields → Client (Unit {0})
  unfolding flush_pending send
  handle_register_ack payload =
      if not (truthy (get payload "accepted"))
      then modify (λ c. record c { stop_event = true })
      else do
        modify (with_state mark_registered)
        modify (with_state (discard_types (register ∷ [])))
        seconds ←
            λ c. whole env.other (or_value (get payload "heartbeat") (number c.heartbeat_seconds)) c
        modify (registered_client seconds)
        modify flush_pending
        modify (send capability none env.capability_payload)

  abbrev pub validated_task : Fields → Client TaskRow
  validated_task payload =
      if not (has_key payload "task")
      then raise (key_error "task")
      else given "task" (env.read_task (get payload "task"))

  unfoldable pub handle_task_assign : MessageEnvelope → Client (Unit {0})
  unfolding send_ack send queue_task
  handle_task_assign e = do
    modify (send_ack e)
    task ← validated_task e.payload
    modify (send task_accepted (some task.id) end)
    modify (queue_task task)

  -- What the type of the message asks for.
  unfoldable pub dispatch : MessageEnvelope → Client (Unit {0})
  unfolding handle_register_ack handle_reconnected handle_task_assign send_ack
  dispatch e =
      if is_type e.type register_ack
      then handle_register_ack e.payload
      else if is_type e.type ack && truthy (get e.payload "reconnected")
      then handle_reconnected
      else if is_type e.type task_assign
      then handle_task_assign e
      else if is_one_of (cancel_task ∷ permission_result ∷ []) e.type
      then modify (send_ack e)
      else pure tt

  unfoldable pub handle_server_message : MessageEnvelope → Client (Unit {0})
  unfolding acknowledge_message dispatch
  handle_server_message e = do acknowledge_message (get e.payload "ackSeq"); dispatch e

  -- A message that arrived; the exception of a malformed one ends the thread that receives.
  unfoldable pub receive : MessageEnvelope → Client (Unit {0})
  unfolding handle_server_message
  receive e = do handle_server_message e; modify (with_state (mark_server_message e))
