-- ===== src/Gateway/Duplicates.antt =====
-- A message that a runner sends again is answered and has no other effect.
use automated_workflow.Prelude.{
  ℕ, String, true, false, some, ◌≡◌, ◌≢◌, refl, sym, ap, inl, inr, ◌∙◌, subst, arith,
}
use automated_workflow.Prelude.Tests.{Option-cases, holds_text, eq→str_eq}
use automated_workflow.Prelude.Outcome.{Outcome, returned}
use automated_workflow.Prelude.Table.{any_where, insert_row}
use automated_workflow.Prelude.Json.{field, number, bool, end}
use automated_workflow.Protocol.{MessageEnvelope, ack}
use automated_workflow.Schema.{Db, Direction, runner, server}
use automated_workflow.Storage.Jobs.{renew_job, complete_job}
use automated_workflow.Storage.Messages.{record_runner_message, log_message, message_row, has_seq}
use automated_workflow.Storage.Messages.Log.{
  is_known-log, record_lem, log_known, any_where-insert_row,
}
use automated_workflow.Gateway.{Server, GatewaySession, next_envelope, acknowledge, within}
use automated_workflow.Gateway.Sending.{given_text-some, send_lem, record_only}
use automated_workflow.Gateway.Handlers.{handle, handle_from, recorded, is_ack}
use automated_workflow.Prelude.Steps.{Preserves-after}
use automated_workflow.Gateway.Footprint.{
  touched, capable, noted, stored, requested, update_task-messages, fail_job-messages,
}
use automated_workflow.Gateway.Kept.{IsKept}
use automated_workflow.Gateway.Kept.Messages.{recorded-Keeps}

-- The log holds a message of the runner with this number.
abbrev pub Received : String → ℕ → Db → Type 0
Received runner_id seq db = any_where (has_seq runner_id runner seq) db.runner_messages ≡ true

module _ (env : Server) (runner_id : String) (seq : ℕ) where
  logged_still :
      (r : String) (e : MessageEnvelope) (d : Direction) (db : Db)
      → Received runner_id seq db
      → Received runner_id seq (log_message env.py_str r e d env.now db).1
  unfolding log_message
  logged_still r e d db p = ground (
    arith,
    p,
    any_where-insert_row (has_seq runner_id runner seq) (message_row env.py_str r e d env.now)
        db.runner_messages,
  )

  still :
      (e : MessageEnvelope) (d : Direction) (db : Db)
      → Received runner_id seq db
      → Received runner_id seq (record_runner_message env.py_str e d env.now db).1
  unfolding record_runner_message
  still e d db p = elim (Option-cases e.runner_id) [
    | inl n ↦ ground (arith, n, p)
    | inr (r, n) ↦ ground (arith, n, p, logged_still r e d db p)
  ]

  Received-IsKept : IsKept env runner_id (Received runner_id seq)
  unfolding renew_job complete_job
  Received-IsKept = record {
    touched = λ status metrics db p.
        let (e, f, g) = touched runner_id status metrics env.now db in rw g p;
    capable = λ names db p. let (e, f, g) = capable runner_id names env.now db in rw g p;
    renewed = λ task_id db p. p;
    written = λ task_id fields task db e h p. rw (update_task-messages task_id fields env.now db) p;
    noted = λ task_id message stage level payload db p.
        let (e, f, g) = noted task_id message stage level payload env.now db in rw g p;
    stored = λ task_id kind content db p.
        let (e, f, g) = stored task_id kind content env.now db in rw g p;
    requested = λ id task_id operation reason db p.
        let (e, f, g) = requested id task_id runner_id operation reason env.now db in rw g p;
    completed = λ task_id status db p. p;
    failed_again = λ task_id error db p.
        rw
          (fail_job-messages task_id runner_id error env.settings.job_retry_base_seconds env.now db)
          p;
    recorded = still;
  }

module _ (env : Server) (runner_id : String) (e : MessageEnvelope) (s : GatewaySession)
    (ne : runner_id ≢ "") (c : s.runner_id ≡ some runner_id)
    (n : e.runner_id ≡ some runner_id) where
  -- The session takes a message that names its runner.
  pub handle-own : handle env e s ≡ handle_from env runner_id e s
  unfolding handle
  handle-own =
      let own : holds_text e.runner_id runner_id ≡ true =
        ap (λ o. holds_text o runner_id) n ∙ eq→str_eq runner_id runner_id refl in
      rw (given_text-some s.runner_id runner_id ne c, own) refl

  record-Received :
      Received runner_id e.seq (record_runner_message env.py_str e runner env.now s.db).1
  record-Received =
      rw (record_lem env.py_str runner runner_id e env.now s.db ne n)
        (is_known-log env.py_str runner runner_id e env.now s.db)

  -- A handled message is in the log, whatever became of its handling.
  handled-Received : Received runner_id e.seq (handle env e s).1.db
  unfolding handle_from
  handled-Received = rw handle-own (
      Preserves-after (λ (x : GatewaySession). Received runner_id e.seq x.db)
        (within (record_runner_message env.py_str e runner env.now)) (recorded env runner_id e) s
        (recorded-Keeps env runner_id (Received runner_id e.seq)
          (Received-IsKept env runner_id e.seq) e)
        record-Received)

  abbrev answer : MessageEnvelope
  answer =
      next_envelope env ack e.task_id
        (field "ackSeq" (number e.seq) (field "duplicate" (bool true) end)) runner_id s.db

  known-answered :
      is_ack env runner_id e.type ≡ false
      → Received runner_id e.seq s.db
      → handle env e s ≡ (
        returned tt,
        record s {
          db = (record_runner_message env.py_str answer server env.now s.db).1;
          sent = insert_row answer s.sent;
        },
      )
  unfolding handle_from recorded acknowledge
  known-answered a k =
      rw
        (
          handle-own,
          record_lem env.py_str runner runner_id e env.now s.db ne n,
          log_known env.py_str runner runner_id e env.now s.db k,
          a,
          send_lem env ack e.task_id
              (field "ackSeq" (number e.seq) (field "duplicate" (bool true) end)) runner_id s ne c,
        )
        refl

  -- The answer to a message that is in the log, which the session gives at once.
  pub handle_known :
      is_ack env runner_id e.type ≡ false
      → Received runner_id e.seq s.db
      → ((handle env e s).0 ≡ returned tt)
        × ((handle env e s).1 ≡ record s {
          db = record s.db { runner_messages = (handle env e s).1.db.runner_messages };
          sent = insert_row answer s.sent;
        })
  handle_known a k =
      let q = known-answered a k in
      let only = record_only env.py_str answer server env.now s.db in
      (
        ap (λ r. r.0) q,
        ap (λ r. r.1) q
            ∙ ap (λ (db : Db). record s { db = db; sent = insert_row answer s.sent })
                (only
                  ∙ ap
                      (λ (r : Outcome (Unit {0}) × GatewaySession). record s.db {
                        runner_messages = r.1.db.runner_messages;
                      })
                      (sym q)),
      )

-- A message that is not an acknowledgement and has the number of one that the server handled before,
-- whatever became of that handling and in whatever session of the runner it arrives on the same
-- database, is answered with an Ack that is marked as a duplicate and names its number; of the
-- database only the log of messages changes, and of the session nothing but what was sent.
pub handle_twice :
    (env env' : Server) (runner_id : String) (e e' : MessageEnvelope) (s s' : GatewaySession)
    → runner_id ≢ ""
    → s.runner_id ≡ some runner_id
    → s'.runner_id ≡ some runner_id
    → e.runner_id ≡ some runner_id
    → e'.runner_id ≡ some runner_id
    → e'.seq ≡ e.seq
    → is_ack env' runner_id e'.type ≡ false
    → s'.db ≡ (handle env e s).1.db
    → let r = handle env' e' s' in
      let duplicate =
        next_envelope env' ack e'.task_id
          (field "ackSeq" (number e'.seq) (field "duplicate" (bool true) end))
          runner_id
          s'.db in
      (r.0 ≡ returned tt)
      × (r.1 ≡ record s' {
        db = record s'.db { runner_messages = r.1.db.runner_messages };
        sent = insert_row duplicate s'.sent;
      })
handle_twice env env' runner_id e e' s s' ne c c' n n' same a kept =
    handle_known env' runner_id e' s' ne c' n' a (
      subst (λ (db : Db). Received runner_id e'.seq db) (sym kept)
        (subst (λ (k : ℕ). Received runner_id k (handle env e s).1.db) (sym same)
          (handled-Received env runner_id e s ne c n)))
