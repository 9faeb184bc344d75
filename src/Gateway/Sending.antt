-- ===== src/Gateway/Sending.antt =====
-- What the server sends to a runner is numbered, recorded and given to the connection.
use automated_workflow.Prelude.{
  ℕ, suc, ◌<◌, String, true, false, Option, some, ◌≡◌, ◌≢◌, refl, sym, ap, ◌∙◌, arith, subst,
}
use automated_workflow.Prelude.Tests.{given_text, ne→str_eq}
use automated_workflow.Prelude.Outcome.{returned}
use automated_workflow.Prelude.Json.{Json, Fields}
use automated_workflow.Prelude.Table.{insert_row}
use automated_workflow.Prelude.Rows.{Occurs}
use automated_workflow.Protocol.{MessageType, artifact, MessageEnvelope, create}
use automated_workflow.Schema.{Db, Direction, server}
use automated_workflow.Storage.Messages.{
  is_artifact, record_runner_message, log_message, next_runner_sequence, list_runner_messages,
  stored_envelope,
}
use automated_workflow.Storage.Messages.Log.{record_next}
use automated_workflow.Gateway.{Server, GatewaySession, next_envelope, send}

pub given_text-some : (t : Option String) (r : String) → r ≢ "" → t ≡ some r → given_text t ≡ some r
given_text-some t r ne e = rw (e, ne→str_eq r "" ne) refl

not_artifact : (t : MessageType) → t ≢ artifact → is_artifact t ≡ false
not_artifact artifact n = absurd (n refl)
not_artifact _ n = refl

-- The recording of a message changes the log and nothing else.
pub record_only :
    (py_str : Json → String) (e : MessageEnvelope) (d : Direction) (now : ℕ) (db : Db)
    → (record_runner_message py_str e d now db).1
      ≡ record db { runner_messages = (record_runner_message py_str e d now db).1.runner_messages }
unfolding record_runner_message log_message
record_only py_str e d now db = ground arith

module _ (env : Server) (message_type : MessageType) (task_id : Option String) (payload : Fields)
    (runner_id : String) (s : GatewaySession) (named : runner_id ≢ "")
    (current : s.runner_id ≡ some runner_id) where
  abbrev envelope : MessageEnvelope
  envelope = next_envelope env message_type task_id payload runner_id s.db

  -- The database after the recording.
  abbrev pub logged : Db
  logged = (record_runner_message env.py_str envelope server env.now s.db).1

  recorded :
      (after : ℕ)
      → after < envelope.seq
      → ((record_runner_message env.py_str envelope server env.now s.db).0 ≡ returned true)
        × (next_runner_sequence runner_id server logged ≡ suc envelope.seq)
        × Occurs
            (stored_envelope env.py_str envelope)
            (list_runner_messages runner_id server after logged)
  unfolding next_envelope create
  recorded after l =
      record_next env.py_str server runner_id envelope env.now after s.db named refl refl l

  positive : 0 < envelope.seq
  unfolding next_envelope create next_runner_sequence
  positive = omega arith

  pub send_lem :
      send env message_type task_id payload s
      ≡ (returned envelope, record s { db = logged; sent = insert_row envelope s.sent })
  unfolding send
  send_lem = rw (given_text-some s.runner_id runner_id named current, (recorded 0 positive).0) refl

  -- The log keeps a message whole, but for the content of an artifact.
  kept_whole : message_type ≢ artifact → stored_envelope env.py_str envelope ≡ envelope
  unfolding stored_envelope next_envelope create
  kept_whole other = rw (not_artifact message_type other)

  -- In the session of a runner, whose identifier is not empty, a message that is no artifact: what
  -- `_send` sends names the runner, has the type, the task and the payload that it was given and
  -- the next number of the server's messages to the runner; the connection is given it, the number
  -- after it is next, and a runner that asks again for the messages after an earlier number is
  -- sent that same message.
  pub send_logged :
      (after : ℕ)
      → after < next_runner_sequence runner_id server s.db
      → message_type ≢ artifact
      → let r = send env message_type task_id payload s in
        (e : MessageEnvelope) × (r.0 ≡ returned e)
        × (e.runner_id ≡ some runner_id)
        × (e.type ≡ message_type)
        × (e.task_id ≡ task_id)
        × (e.payload ≡ payload)
        × (e.seq ≡ next_runner_sequence runner_id server s.db)
        × (r.1.sent ≡ insert_row e s.sent)
        × (next_runner_sequence runner_id server r.1.db ≡ suc e.seq)
        × Occurs e (list_runner_messages runner_id server after r.1.db)
  unfolding next_envelope create
  send_logged after l other =
      let (q, next, again) = recorded after l in
      let whole : Occurs envelope (list_runner_messages runner_id server after logged) =
        subst
          (λ (e : MessageEnvelope). Occurs e (list_runner_messages runner_id server after logged))
          (kept_whole other) again in
      (
        envelope,
        ap (λ r. r.0) send_lem,
        refl,
        refl,
        refl,
        refl,
        refl,
        ap (λ r. r.1.sent) send_lem,
        ap (λ r. next_runner_sequence runner_id server r.1.db) send_lem ∙ next,
        subst (λ (db : Db). Occurs envelope (list_runner_messages runner_id server after db))
            (sym (ap (λ r. r.1.db) send_lem)) whole,
      )
