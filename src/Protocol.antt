-- ===== src/Protocol.antt =====
-- app/protocol.py: the messages between the server and a Local Runner. The texts of the identifiers and
-- the timestamps of messages play no part in the handlers, and the timestamp is left out.
pub mod Wire
use automated_workflow.Prelude.{ℕ, String, Option}
use automated_workflow.Prelude.Json.{Fields}

pub data MessageType : Type 0 where
  register register_ack heartbeat heartbeat_ack capability task_assign task_accepted : MessageType
  task_progress task_log terminal_output ai_chunk file_changed permission_request : MessageType
  permission_result cancel_task task_completed task_failed task_cancelled reconnect : MessageType
  ack artifact : MessageType

pub record MessageEnvelope : Type 0 where
  pub id : String
  pub type : MessageType
  pub seq : ℕ
  pub runner_id : Option String
  pub task_id : Option String
  pub payload : Fields

-- MessageEnvelope.create; `id` is the fresh identifier that the default factory draws.
unfoldable pub create :
    String → MessageType → ℕ → Option String → Option String → Fields → MessageEnvelope
create id message_type seq runner_id task_id payload = record {
  id = id;
  type = message_type;
  seq = seq;
  runner_id = runner_id;
  task_id = task_id;
  payload = payload;
}
