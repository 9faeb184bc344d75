-- ===== src/Transport/Client/Resending.antt =====
-- A message that the server has not acknowledged is sent again after a reconnection.
use automated_workflow.Prelude.{
  ℕ, String, false, Option, List, ◌≡◌, ◌≢◌, refl, subst, sym, ap, not, ◌++◌,
}
use automated_workflow.Prelude.Table.{All, select_where}
use automated_workflow.Prelude.Json.{Json, Fields}
use automated_workflow.Prelude.Rows.{Occurs, select_where-Occurs}
use automated_workflow.Protocol.{MessageType, MessageEnvelope, register, reconnect}
use automated_workflow.Transport.{ProtocolState, new_envelope, pending_messages}
use automated_workflow.Transport.Calls.{StateCall, IsStored, run, new_envelope-IsStored}
use automated_workflow.Transport.Recovery.{run-IsStored}
use automated_workflow.Transport.Delivery.{Spares, run_pending}
use automated_workflow.Transport.Client.{RunnerProtocolClient, opened, handle_reconnected}
use automated_workflow.Transport.Client.Flushing.{is_request, is_report, reconnected_flush}

not_request : (t : MessageType) → t ≢ register → t ≢ reconnect → is_request t ≡ false
not_request register n m = absurd (n refl)
not_request reconnect n m = absurd (m refl)
not_request _ n m = refl

-- A message that was made in a stored state, and is no request to register or reconnect: after any
-- later calls, restarts of the program among them, of which none acknowledges its number or
-- discards its type, a client that is left with that state and is answered a reconnection on an
-- open connection gives it to the connection again, behind what it gave before.
pub run_resent :
    (fresh : String) (other : Json → Option ℕ) (id : String) (type : MessageType)
    (runner_id : String) (task_id : Option String) (payload : Fields) (cs : List StateCall)
    (s s1 : ProtocolState) (e : MessageEnvelope) (c : RunnerProtocolClient)
    → IsStored s
    → new_envelope id type runner_id task_id payload s ≡ (e, s1)
    → All (Spares e) cs
    → e.type ≢ register
    → e.type ≢ reconnect
    → c.state ≡ run fresh other cs s1
    → c.connection ≡ opened
    → (again : List MessageEnvelope) × ((handle_reconnected c).1.sent ≡ c.sent ++ again)
      × Occurs e again
run_resent fresh other id type runner_id task_id payload cs s s1 e c h made spared n m left o =
    let stored : IsStored s1 =
      subst IsStored (ap (λ r. r.1) made)
        (new_envelope-IsStored id type runner_id task_id payload s h.0) in
    let kept : IsStored c.state =
      subst IsStored (sym left) (run-IsStored fresh other cs s1 stored) in
    let waits : Occurs e (pending_messages c.state) =
      subst (λ (t : ProtocolState). Occurs e (pending_messages t)) (sym left)
        (run_pending fresh other id type runner_id task_id payload cs s s1 e h made spared) in
    let (ready, sent, ordered) = reconnected_flush c kept.0 o in
    (
      select_where is_report (pending_messages c.state),
      sent,
      select_where-Occurs is_report (pending_messages c.state) e waits
          (ap not (not_request e.type n m)),
    )
