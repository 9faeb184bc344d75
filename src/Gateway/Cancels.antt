-- ===== src/Gateway/Cancels.antt =====
-- What a runner that has a task is sent.
use automated_workflow.Prelude.{
  String, Bool, List, [], ◌∷◌, true, not, ◌&&◌, some, ◌≡◌, ◌≢◌, refl, inl, inr, arith,
}
use automated_workflow.Prelude.Tests.{Bool-cases, if◌then◌else◌, eq→str_eq}
use automated_workflow.Prelude.Outcome.{returned}
use automated_workflow.Prelude.Table.{insert_row, member}
use automated_workflow.Prelude.Json.{Json, end}
use automated_workflow.Protocol.{MessageEnvelope, cancel_task}
use automated_workflow.Schema.{TaskRow, server}
use automated_workflow.Storage.Messages.{record_runner_message}
use automated_workflow.Gateway.{Server, GatewaySession, next_envelope}
use automated_workflow.Gateway.Sending.{send_lem, record_only}
use automated_workflow.Gateway.Control.{send_cancel, next_control}

member-insert_row_self : (t : String) (ts : List String) → member t (insert_row t ts) ≡ true
unfolding member insert_row
member-insert_row_self t [] = ground (arith, eq→str_eq t t)
member-insert_row_self t (x ∷ xs) = ground (arith, member-insert_row_self t xs)

module _ (env : Server) (task_json : TaskRow → Json) (runner_id : String) (active : TaskRow)
    (s : GatewaySession) (ne : runner_id ≢ "") (c : s.runner_id ≡ some runner_id) where
  abbrev cancellation : MessageEnvelope
  cancellation = next_envelope env cancel_task (some active.id) end runner_id s.db

  sent_cancel : send_cancel env task_json runner_id active s ≡ (
    returned tt,
    record s {
      db = (record_runner_message env.py_str cancellation server env.now s.db).1;
      sent = insert_row cancellation s.sent;
      cancel_sent = insert_row active.id s.cancel_sent;
    },
  )
  unfolding send_cancel
  sent_cancel = rw (send_lem env cancel_task (some active.id) end runner_id s ne c) refl

  abbrev asked : Bool
  asked = active.cancel_requested && not (member active.id s.cancel_sent)

  -- In the session of a runner with an active task, the last step of a round sends a CancelTask for
  -- that task if its cancellation is requested and was not sent in this session, and nothing
  -- otherwise; it gives the runner no other task, since of the database only the log of messages
  -- changes; and the same step once more changes nothing.
  pub next_control_active :
      let r = next_control env task_json runner_id (some active) s in
      (r.0 ≡ returned tt)
      × (r.1.sent ≡ (
          if active.cancel_requested && not (member active.id s.cancel_sent)
          then insert_row (next_envelope env cancel_task (some active.id) end runner_id s.db) s.sent
          else s.sent))
      × (r.1.db ≡ record s.db { runner_messages = r.1.db.runner_messages })
      × (next_control env task_json runner_id (some active) r.1 ≡ (returned tt, r.1))
  next_control_active = elim (Bool-cases asked) [
    | inl y ↦
        rw (y, sent_cancel)
          (
            refl,
            refl,
            record_only env.py_str cancellation server env.now s.db,
            rw (member-insert_row_self active.id s.cancel_sent) (ground arith),
          )
    | inr n ↦ rw n (refl, refl, refl, rw n refl)
  ]
