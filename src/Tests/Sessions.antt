-- ===== src/Tests/Sessions.antt =====
-- Sessions of the gateway on concrete messages.
use automated_workflow.Prelude.{
  ℕ, suc, ◌<◌, String, true, false, not, ◌&&◌, none, some, Option, [], ◌∷◌, ◌≡◌, ◌≢◌, ◌⊎◌, refl,
  inl, arith,
}
use automated_workflow.Prelude.Tests.{if◌then◌else◌}
use text.Mathlib.TextEquality.{eq_iff}
use automated_workflow.Prelude.Outcome.{returned}
use automated_workflow.Prelude.Json.{Json, end, field, number, bool, null, get, has_key}
use automated_workflow.Prelude.Table.{
  insert_row, delete_where, select_where, any_where, find_where, update_where, member,
}
use automated_workflow.Prelude.Rows.{Occurs}
use automated_workflow.Models.{TaskStatus}
use automated_workflow.Protocol.{
  MessageType, artifact, MessageEnvelope, create, register, reconnect, task_failed, task_log,
  cancel_task, ack,
}
use automated_workflow.Schema.{Db, TaskRow, MessageRow, runner, server}
use automated_workflow.Storage.Messages.{
  next_runner_sequence, list_runner_messages, stored_envelope, last_seq, record_runner_message,
  log_message, message_row,
}
use automated_workflow.Storage.Runners.{upsert_runner, write_runner, new_runner, get_runner}
use automated_workflow.Gateway.{
  Server, GatewaySession, next_envelope, send, send_to, release_payload,
}
use automated_workflow.Gateway.Handlers.{handle}
use automated_workflow.Gateway.Control.{next_control}
use automated_workflow.Gateway.Connect.{
  first_message, register_runner, register_as, accept, rejection, with_release, items_texts,
}
use automated_workflow.Gateway.Isolation.{IsForeign, handle-IsForeign}
use automated_workflow.Gateway.Duplicates.{Received, handle_twice}
use automated_workflow.Gateway.Sending.{send_logged}
use automated_workflow.Gateway.Cancels.{next_control_active}
use automated_workflow.Gateway.Admission.{first_admitted, claims, version_of}
use automated_workflow.Gateway.{version_supported}
use automated_workflow.Transport.{blank, missing, has_key_of}
use automated_workflow.Transport.Client.{Setup, RunnerProtocolClient, absent, receive}
use automated_workflow.Exchange.{resent_cleared}
use automated_workflow.Tests.Data.{empty_db, task_of, settings}

abbrev gateway : Server
gateway = record {
  settings = settings;
  now = 10;
  py_str = λ v. "";
  other = λ v. none;
  is_older = λ s t. some false;
  fresh_id = λ n. "m";
}

abbrev task : TaskRow
task = task_of "t1" TaskStatus.running

abbrev message_of : MessageType → ℕ → MessageEnvelope
message_of type seq = record {
  id = "e";
  type = type;
  seq = seq;
  runner_id = some "r";
  task_id = some "t1";
  payload = end;
}

abbrev tasks_db : Db
tasks_db = record empty_db { tasks = task ∷ [] }

abbrev session_of : Db → Option String → GatewaySession
session_of db runner_id = record {
  db = db;
  sent = [];
  closed = none;
  expected_runner_id = "r";
  project_id = "default";
  runner_id = runner_id;
  cancel_sent = [];
}

abbrev session : GatewaySession
session = session_of tasks_db (some "r")

r_given : ◌≢◌ {A = String} "r" ""
r_given = ground (arith, eq_iff "r" "")

task-IsForeign : IsForeign "r" task tasks_db
task-IsForeign = record { distinct = (tt, tt); present = inl refl; unheld = tt }

handle-IsForeign_example :
    IsForeign "r" task (handle gateway (message_of task_failed 1) session).1.db
handle-IsForeign_example =
    handle-IsForeign gateway "r" task refl (message_of task_failed 1) session refl r_given
      task-IsForeign

abbrev again : GatewaySession
again = session_of (handle gateway (message_of task_log 1) session).1.db (some "r")

abbrev duplicate_of : ℕ → Db → MessageEnvelope
duplicate_of seq db =
    next_envelope gateway ack (some "t1")
      (field "ackSeq" (number seq) (field "duplicate" (bool true) end)) "r" db

handle_twice_example :
    ((handle gateway (message_of task_log 1) again).0 ≡ returned tt)
    × ((handle gateway (message_of task_log 1) again).1 ≡ record again {
      db = record again.db {
        runner_messages = (handle gateway (message_of task_log 1) again).1.db.runner_messages;
      };
      sent = insert_row (duplicate_of 1 again.db) again.sent;
    })
handle_twice_example =
    handle_twice gateway gateway "r" (message_of task_log 1) (message_of task_log 1) session again
      r_given refl refl refl refl refl refl refl

nothing_sent : 0 < next_runner_sequence "r" server tasks_db
unfolding next_runner_sequence last_seq select_where
nothing_sent = omega arith

no_artifact : cancel_task ≢ artifact
no_artifact = ground arith

send_logged_example :
    let r = send gateway cancel_task (some "t1") end session in
    (e : MessageEnvelope) × (r.0 ≡ returned e)
    × (e.runner_id ≡ some "r")
    × (e.type ≡ cancel_task)
    × (e.task_id ≡ some "t1")
    × (e.payload ≡ end)
    × (e.seq ≡ next_runner_sequence "r" server tasks_db)
    × (r.1.sent ≡ insert_row e session.sent)
    × (next_runner_sequence "r" server r.1.db ≡ suc e.seq)
    × Occurs e (list_runner_messages "r" server 0 r.1.db)
send_logged_example =
    send_logged gateway cancel_task (some "t1") end "r" session r_given refl 0 nothing_sent
      no_artifact

abbrev to_json : TaskRow → Json
to_json t = null

abbrev stopping : TaskRow
stopping = record task { cancel_requested = true }

abbrev controlled : GatewaySession
controlled = (next_control gateway to_json "r" (some stopping) session).1

next_control_active_example :
    ((next_control gateway to_json "r" (some stopping) session).0 ≡ returned tt)
    × (controlled.sent ≡ (
        if stopping.cancel_requested && not (member stopping.id session.cancel_sent)
        then insert_row
            (next_envelope gateway cancel_task (some "t1") end "r" session.db)
            session.sent
        else session.sent))
    × (controlled.db ≡ record session.db { runner_messages = controlled.db.runner_messages })
    × (next_control gateway to_json "r" (some stopping) controlled ≡ (returned tt, controlled))
next_control_active_example = next_control_active gateway to_json "r" stopping session r_given refl

abbrev unknown : GatewaySession
unknown = session_of tasks_db none

abbrev opened : GatewaySession
opened = (first_message gateway register (message_of register 1) unknown).1

opens : first_message gateway register (message_of register 1) unknown ≡ (returned true, opened)
unfolding register_runner register_as accept rejection version_supported with_release
    release_payload send send_to next_envelope next_runner_sequence record_runner_message
    log_message message_row stored_envelope upsert_runner write_runner new_runner get_runner create
    get has_key select_where any_where find_where insert_row update_where last_seq items_texts
opens = refl

first_admitted_example :
    ((register ≡ register) ⊎ (register ≡ reconnect))
    × (claims gateway (message_of register 1) register ≡ some "r")
    × (version_supported gateway (version_of gateway (message_of register 1)) ≡ true)
first_admitted_example = first_admitted gateway (message_of register 1) unknown opened opens

abbrev received : MessageRow
received = record {
  runner_id = "r";
  task_id = some "t1";
  direction = runner;
  seq = 1;
  type = task_log;
  envelope = message_of task_log 1;
  created_at = 1;
}

abbrev knowing : GatewaySession
knowing = session_of (record tasks_db { runner_messages = received ∷ [] }) (some "r")

abbrev setup : Setup
setup = record {
  registration = record { id = "r"; name = "n"; platform = "p"; roots = [] };
  version = "1.1.0";
  capability_payload = end;
  fresh_id = λ n. "m";
  other = λ v. none;
  read_task = λ v. none;
}

abbrev client : RunnerProtocolClient
client = record {
  state = record (blank missing) { next_seq = 2; pending = (1, message_of task_log 1) ∷ [] };
  sent = [];
  tasks = [];
  stop_event = false;
  ready = false;
  connection = absent;
  active_task_id = none;
  queued_task_ids = [];
  heartbeat_seconds = 10;
}

knows : Received "r" 1 knowing.db
unfolding any_where
knows = refl

resent_cleared_example :
    (m : MessageEnvelope) × ((handle gateway (message_of task_log 1) knowing).1.sent
      ≡ insert_row m knowing.sent)
    × ((receive setup m client).0 ≡ returned tt)
    × ((receive setup m client).1.state.pending ≡ delete_where (has_key_of 1) client.state.pending)
    × ((receive setup m client).1.tasks ≡ client.tasks)
resent_cleared_example =
    resent_cleared setup gateway "r" (message_of task_log 1) knowing client r_given refl refl refl
      knows
