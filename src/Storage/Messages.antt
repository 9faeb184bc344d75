-- ===== src/Storage/Messages.antt =====
-- app/storage.py: the log of messages between the server and each runner.
pub mod Log
use automated_workflow.Prelude.{
  ℕ, suc, max, String, Bool, true, false, ◌&&◌, none, some, List, [], ◌∷◌, map, str_eq,
}
use automated_workflow.Prelude.Tests.{ltb, ◌==◌, if◌then◌else◌}
use automated_workflow.Prelude.Outcome.{returned, raised, value_error}
use Prim.Native.String.{len}
use automated_workflow.Prelude.Json.{Json, number, get, has_key, without, set_field, as_text}
use automated_workflow.Prelude.Table.{select_where, any_where, insert_row, order_by}
use automated_workflow.Protocol.{MessageType, artifact, MessageEnvelope}
use automated_workflow.Schema.{Db, MessageRow, Direction, runner, server}
use automated_workflow.Storage.Tasks.{Store}

abbrev pub same_direction : Direction → Direction → Bool
same_direction runner runner = true
same_direction runner server = false
same_direction server runner = false
same_direction server server = true

-- `runner_id = ? AND direction = ?`
abbrev pub in_log : String → Direction → MessageRow → Bool
in_log runner_id direction m = str_eq m.runner_id runner_id && same_direction m.direction direction

abbrev pub has_seq : String → Direction → ℕ → MessageRow → Bool
has_seq runner_id direction seq m = in_log runner_id direction m && m.seq == seq

-- MAX(seq), and 0 of no row
unfoldable pub last_seq : List MessageRow → ℕ
last_seq [] = 0
last_seq (m ∷ ms) = max m.seq (last_seq ms)

unfoldable pub next_runner_sequence : String → Direction → Db → ℕ
unfolding last_seq
next_runner_sequence runner_id direction db =
    suc (last_seq (select_where (in_log runner_id direction) db.runner_messages))

abbrev pub is_artifact : MessageType → Bool
is_artifact artifact = true
is_artifact _ = false

-- `py_str` is Python's rendering of a value that is no text.
module _ (py_str : Json → String) where
  -- The content of an artifact is not kept in the log, only its size in bytes of UTF-8.
  unfoldable pub stored_envelope : MessageEnvelope → MessageEnvelope
  stored_envelope envelope =
      if is_artifact envelope.type && has_key envelope.payload "content"
      then record envelope {
        payload =
            set_field (without envelope.payload "content") "contentSize"
              (number (len (as_text py_str (get envelope.payload "content"))));
      }
      else envelope

  unfoldable pub message_row : String → MessageEnvelope → Direction → ℕ → MessageRow
  message_row runner_id envelope direction now = record {
    runner_id = runner_id;
    task_id = envelope.task_id;
    direction = direction;
    seq = envelope.seq;
    type = envelope.type;
    envelope = stored_envelope envelope;
    created_at = now;
  }

  -- ON CONFLICT (runner_id, direction, seq) DO NOTHING: true if the message is new.
  unfoldable pub log_message : String → MessageEnvelope → Direction → ℕ → Store Bool
  unfolding message_row
  log_message runner_id envelope direction now db =
      if any_where (has_seq runner_id direction envelope.seq) db.runner_messages
      then (returned false, db)
      else (
        returned true,
        record db {
          runner_messages =
              insert_row (message_row runner_id envelope direction now) db.runner_messages;
        },
      )

  unfoldable pub record_runner_message : MessageEnvelope → Direction → ℕ → Store Bool
  unfolding log_message
  record_runner_message envelope direction now db = elim envelope.runner_id [
    | none ↦ (raised (value_error "Runner message is missing runnerId"), db)
    | some runner_id ↦
        if str_eq runner_id ""
        then (raised (value_error "Runner message is missing runnerId"), db)
        else log_message runner_id envelope direction now db
  ]

unfoldable pub list_runner_messages : String → Direction → ℕ → Db → List MessageEnvelope
list_runner_messages runner_id direction after_seq db =
    map (λ m. m.envelope)
      (order_by (λ m. m.seq)
        (select_where (λ m. in_log runner_id direction m && ltb after_seq m.seq)
          db.runner_messages))
