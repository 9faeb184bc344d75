-- ===== src/Exchange.antt =====
-- app/gateway.py and app/runner_transport.py together: the answer of the server, as the Local Runner reads it.
use automated_workflow.Prelude.{String, true, false, some, ◌≡◌, ◌≢◌, refl, ap}
use automated_workflow.Prelude.Outcome.{returned}
use automated_workflow.Prelude.Table.{insert_row, delete_where}
use automated_workflow.Prelude.Json.{field, number, bool, end, get}
use automated_workflow.Protocol.{MessageEnvelope, ack, create}
use automated_workflow.Gateway.{Server, GatewaySession, next_envelope}
use automated_workflow.Gateway.Handlers.{handle, is_ack}
use automated_workflow.Gateway.Duplicates.{Received, handle_known}
use automated_workflow.Transport.{
  has_key_of, is_one_of, acknowledge, mark_server_message, save_locked,
}
use automated_workflow.Transport.Client.{
  Setup, RunnerProtocolClient, receive, handle_server_message, dispatch, acknowledge_message,
}

module _ (setup : Setup) (env : Server) (runner_id : String) (e : MessageEnvelope)
    (s : GatewaySession) (c : RunnerProtocolClient) where
  abbrev answer : MessageEnvelope
  answer =
      next_envelope env ack e.task_id
        (field "ackSeq" (number e.seq) (field "duplicate" (bool true) end)) runner_id s.db

  read :
      ((receive setup answer c).0 ≡ returned tt)
      × ((receive setup answer c).1.state.pending ≡ delete_where (has_key_of e.seq) c.state.pending)
      × ((receive setup answer c).1.tasks ≡ c.tasks)
  unfolding next_envelope create receive handle_server_message dispatch acknowledge_message get
      is_one_of acknowledge mark_server_message save_locked
  read = (refl, refl, refl)

  -- A runner that sends a message again, which is no acknowledgement and which the server has
  -- received, gets one answer; as it reads the answer, the message waits no longer, every other one
  -- waits on, and its queue of tasks stays.
  pub resent_cleared :
      runner_id ≢ ""
      → s.runner_id ≡ some runner_id
      → e.runner_id ≡ some runner_id
      → is_ack env runner_id e.type ≡ false
      → Received runner_id e.seq s.db
      → (m : MessageEnvelope) × ((handle env e s).1.sent ≡ insert_row m s.sent)
        × ((receive setup m c).0 ≡ returned tt)
        × ((receive setup m c).1.state.pending ≡ delete_where (has_key_of e.seq) c.state.pending)
        × ((receive setup m c).1.tasks ≡ c.tasks)
  resent_cleared ne cur n a k =
      let (r, q) = handle_known env runner_id e s ne cur n a k in
      let (x, y, z) = read in (answer, ap (λ (t : GatewaySession). t.sent) q, x, y, z)
