-- ===== src/Tests/Outgoing.antt =====
-- The messages and the queue of a Local Runner on concrete calls.
use automated_workflow.Prelude.{
  ℕ, ◌++◌, ◌≢◌, true, false, none, some, Option, List, [], ◌∷◌, ◌≡◌, refl, arith,
}
use automated_workflow.Prelude.Json.{Json, end, field, str}
use automated_workflow.Prelude.Table.{All, select_where}
use automated_workflow.Prelude.Rows.{Occurs, Ascending}
use automated_workflow.Models.{TaskStatus}
use automated_workflow.Protocol.{
  MessageEnvelope, create, register, reconnect, task_log, task_assign, task_progress,
}
use automated_workflow.Transport.{
  ProtocolState, blank, missing, load, new_envelope, pending_messages, is_one_of,
}
use automated_workflow.Transport.Calls.{
  StateCall, creates, restarts, acknowledges, discards, run, new_envelope-IsStored,
}
use automated_workflow.Transport.Recovery.{run_restart, blank-IsStored}
use automated_workflow.Transport.Delivery.{Spares, created, created-Ascending}
use automated_workflow.Transport.Outbox.{outbox, specified_run, run_refines}
use automated_workflow.Transport.Client.{RunnerProtocolClient, Setup, opened, handle_reconnected}
use automated_workflow.Transport.Client.Flushing.{is_report, reconnected_flush}
use automated_workflow.Transport.Client.Resending.{run_resent}
use automated_workflow.Transport.Client.Queues.{IsQueueing}
use automated_workflow.Transport.Client.Queueing.{ClientCall, receives, takes, run-IsQueueing}
use automated_workflow.Transport.Client.Queueing
use automated_workflow.Tests.Data.{task_of}

abbrev no_number : Json → Option ℕ
no_number v = none

abbrev calls : List StateCall
calls =
    creates "m1" task_log "r" (some "t1") end
    ∷ restarts
    ∷ creates "m2" task_progress "r" (some "t1") end
    ∷ acknowledges 1
    ∷ restarts
    ∷ []

run_restart_example :
    load "f" no_number (run "f" no_number calls (blank missing)).file
    ≡ run "f" no_number calls (blank missing)
run_restart_example = run_restart "f" no_number calls

run_refines_example :
    outbox (run "f" no_number calls (blank missing)) ≡ specified_run calls (outbox (blank missing))
run_refines_example = run_refines "f" no_number calls (blank missing) blank-IsStored

created-Ascending_example :
    Ascending (λ (e : MessageEnvelope). e.seq) (created "f" no_number calls (blank missing))
created-Ascending_example = created-Ascending "f" no_number calls (blank missing) blank-IsStored

abbrev made : MessageEnvelope × ProtocolState
made = new_envelope "m1" task_log "r" (some "t1") end (blank missing)

abbrev later : List StateCall
later = restarts ∷ acknowledges 7 ∷ discards (register ∷ []) ∷ []

later-Spares : All (Spares made.0) later
unfolding new_envelope create is_one_of
later-Spares = (tt, (omega arith, (refl, tt)))

abbrev client : RunnerProtocolClient
client = record {
  state = made.1;
  sent = [];
  tasks = [];
  stop_event = false;
  ready = false;
  connection = opened;
  active_task_id = none;
  queued_task_ids = [];
  heartbeat_seconds = 10;
}

abbrev back : RunnerProtocolClient
back = record client { state = run "f" no_number later made.1 }

not_register : made.0.type ≢ register
unfolding new_envelope create
not_register = ground arith

not_reconnect : made.0.type ≢ reconnect
unfolding new_envelope create
not_reconnect = ground arith

run_resent_example :
    (again : List MessageEnvelope) × ((handle_reconnected back).1.sent ≡ back.sent ++ again)
    × Occurs made.0 again
run_resent_example =
    run_resent "f" no_number "m1" task_log "r" (some "t1") end later (blank missing) made.1 made.0
      back blank-IsStored refl later-Spares not_register not_reconnect refl refl

reconnected_flush_example :
    ((handle_reconnected client).1.ready ≡ true)
    × ((handle_reconnected client).1.sent
        ≡ client.sent ++ select_where is_report (pending_messages client.state))
    × Ascending
        (λ (e : MessageEnvelope). e.seq)
        (select_where is_report (pending_messages client.state))
reconnected_flush_example =
    reconnected_flush client
      (new_envelope-IsStored "m1" task_log "r" (some "t1") end (blank missing) blank-IsStored.0).0
      refl

abbrev setup : Setup
setup = record {
  registration = record { id = "r"; name = "n"; platform = "p"; roots = [] };
  version = "1.1.0";
  capability_payload = end;
  fresh_id = λ n. "m";
  other = no_number;
  read_task = λ v. some (task_of "t1" TaskStatus.assigned);
}

abbrev assign : ℕ → MessageEnvelope
assign seq = record {
  id = "a";
  type = task_assign;
  seq = seq;
  runner_id = some "r";
  task_id = some "t1";
  payload = field "task" (str "t1") end;
}

abbrev client_calls : List ClientCall
client_calls = receives (assign 1) ∷ receives (assign 2) ∷ takes ∷ receives (assign 3) ∷ []

client-IsQueueing : IsQueueing client
client-IsQueueing = record { distinct = tt; listed = refl; not_active = tt }

run-IsQueueing_example : IsQueueing (Queueing.run setup client_calls client)
run-IsQueueing_example = run-IsQueueing setup client_calls client client-IsQueueing
