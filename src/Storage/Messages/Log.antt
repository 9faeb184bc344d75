-- ===== src/Storage/Messages/Log.antt =====
-- The log of messages gives each message of a runner and a direction one number, once.
use automated_workflow.Prelude.{
  ℕ, suc, max, ◌<◌, String, Bool, true, false, ◌&&◌, ◌||◌, some, List, [], ◌∷◌, ◌≡◌, ◌≢◌, refl, inl,
  inr, arith,
}
use automated_workflow.Prelude.Tests.{ltb, ne→str_eq, eq→str_eq, if◌then◌else◌, Bool-cases}
use automated_workflow.Prelude.Outcome.{returned}
use automated_workflow.Prelude.Json.{Json}
use automated_workflow.Prelude.Table.{select_where, any_where, insert_row}
use automated_workflow.Prelude.Rows.{
  Occurs, map-Occurs, order_by-Occurs, select_where-Occurs, insert_row-Occurs_self,
}
use automated_workflow.Protocol.{MessageEnvelope}
use automated_workflow.Schema.{Db, MessageRow, Direction, runner, server}
use automated_workflow.Storage.Messages.{
  in_log, same_direction, last_seq, next_runner_sequence, has_seq, log_message, message_row,
  record_runner_message, list_runner_messages, stored_envelope,
}

same_direction_refl : (d : Direction) → same_direction d d ≡ true
same_direction_refl runner = refl
same_direction_refl server = refl

pub any_where-insert_row :
    (p : MessageRow → Bool) (m : MessageRow) (ms : List MessageRow)
    → any_where p (insert_row m ms) ≡ (any_where p ms || p m)
unfolding any_where insert_row
any_where-insert_row p m [] = ground arith
any_where-insert_row p m (x ∷ xs) = ground (arith, any_where-insert_row p m xs)

last_seq-insert_row :
    (p : MessageRow → Bool) (m : MessageRow) (ms : List MessageRow)
    → last_seq (select_where p (insert_row m ms))
      ≡ (if p m then max (last_seq (select_where p ms)) m.seq else last_seq (select_where p ms))
unfolding last_seq select_where insert_row
last_seq-insert_row p m [] = ground arith
last_seq-insert_row p m (x ∷ xs) = ground (arith, last_seq-insert_row p m xs)

-- No row of the log has a number above the last.
above_last :
    (runner_id : String) (direction : Direction) (n : ℕ) (ms : List MessageRow)
    → last_seq (select_where (in_log runner_id direction) ms) < n
    → any_where (has_seq runner_id direction n) ms ≡ false
unfolding last_seq select_where any_where
above_last runner_id direction n [] h = refl
above_last runner_id direction n (m ∷ ms) h = ground (arith, above_last runner_id direction n ms)

module _ (py_str : Json → String) (direction : Direction) (runner_id : String) where
  -- The call, for a message that names the runner.
  pub record_lem :
      (e : MessageEnvelope) (now : ℕ) (db : Db)
      → runner_id ≢ ""
      → e.runner_id ≡ some runner_id
      → record_runner_message py_str e direction now db
        ≡ log_message py_str runner_id e direction now db
  unfolding record_runner_message
  record_lem e now db ne named = rw (named, ne→str_eq runner_id "" ne)

  abbrev pub is_known : ℕ → Db → Bool
  is_known seq db = any_where (has_seq runner_id direction seq) db.runner_messages

  pub log_known :
      (e : MessageEnvelope) (now : ℕ) (db : Db)
      → is_known e.seq db ≡ true
      → log_message py_str runner_id e direction now db ≡ (returned false, db)
  unfolding log_message
  log_known e now db k = rw k

  abbrev row : MessageEnvelope → ℕ → MessageRow
  row e now = message_row py_str runner_id e direction now

  log_new :
      (e : MessageEnvelope) (now : ℕ) (db : Db)
      → is_known e.seq db ≡ false
      → log_message py_str runner_id e direction now db
        ≡ (returned true, record db { runner_messages = insert_row (row e now) db.runner_messages })
  unfolding log_message
  log_new e now db k = rw k

  row_in_log : (e : MessageEnvelope) (now : ℕ) → in_log runner_id direction (row e now) ≡ true
  unfolding message_row
  row_in_log e now = rw (eq→str_eq runner_id runner_id refl) (same_direction_refl direction)

  seq-row : (e : MessageEnvelope) (now : ℕ) → (row e now).seq ≡ e.seq
  unfolding message_row
  seq-row e now = refl

  envelope-row : (e : MessageEnvelope) (now : ℕ) → (row e now).envelope ≡ stored_envelope py_str e
  unfolding message_row
  envelope-row e now = refl

  pub is_known-log :
      (e : MessageEnvelope) (now : ℕ) (db : Db)
      → is_known e.seq (log_message py_str runner_id e direction now db).1 ≡ true
  is_known-log e now db = elim (Bool-cases (is_known e.seq db)) [
    | inl k ↦ rw (log_known e now db k) k
    | inr k ↦ rw (log_new e now db k) (
        ground (
          arith,
          any_where-insert_row (has_seq runner_id direction e.seq) (row e now) db.runner_messages,
          row_in_log e now,
          seq-row e now,
        ))
  ]

  -- For messages that name a runner by a text that is not empty: after the recording of a message,
  -- whatever its result, every later message of that runner, direction and number is refused, and
  -- the database stays as it is.
  pub record_once :
      (e e' : MessageEnvelope) (now now' : ℕ) (db : Db)
      → runner_id ≢ ""
      → e.runner_id ≡ some runner_id
      → e'.runner_id ≡ some runner_id
      → e'.seq ≡ e.seq
      → let db1 = (record_runner_message py_str e direction now db).1 in
        record_runner_message py_str e' direction now' db1 ≡ (returned false, db1)
  record_once e e' now now' db ne n n' same = rw (record_lem e now db ne n) (
      rw (record_lem e' now' (log_message py_str runner_id e direction now db).1 ne n')
        (log_known e' now' _ (rw same (is_known-log e now db))))

  next_after :
      (e : MessageEnvelope) (now : ℕ) (db : Db)
      → e.seq ≡ next_runner_sequence runner_id direction db
      → next_runner_sequence runner_id direction
          (record db { runner_messages = insert_row (row e now) db.runner_messages })
        ≡ suc e.seq
  unfolding next_runner_sequence
  next_after e now db s = ground (
    arith,
    last_seq-insert_row (in_log runner_id direction) (row e now) db.runner_messages,
    row_in_log e now,
    seq-row e now,
  )

  replayed :
      (e : MessageEnvelope) (now after : ℕ) (db : Db)
      → after < e.seq
      → Occurs (stored_envelope py_str e) (
          list_runner_messages runner_id direction after
            (record db { runner_messages = insert_row (row e now) db.runner_messages }))
  unfolding list_runner_messages
  replayed e now after db l = rw (← envelope-row e now) (
      map-Occurs (λ (m : MessageRow). m.envelope) (row e now) _
        (order_by-Occurs (λ (m : MessageRow). m.seq) (row e now) _
          (select_where-Occurs (λ (m : MessageRow). in_log runner_id direction m && ltb after m.seq)
            _ (row e now) (insert_row-Occurs_self (row e now) db.runner_messages)
            (ground (arith, row_in_log e now, seq-row e now)))))

  -- A message that names a runner by a text that is not empty and has the next number of that
  -- runner and direction is new: it is recorded, the next number is one more, and it is replayed
  -- to whoever asks for the messages after an earlier number.
  pub record_next :
      (e : MessageEnvelope) (now after : ℕ) (db : Db)
      → runner_id ≢ ""
      → e.runner_id ≡ some runner_id
      → e.seq ≡ next_runner_sequence runner_id direction db
      → after < e.seq
      → let r = record_runner_message py_str e direction now db in
        (r.0 ≡ returned true)
        × (next_runner_sequence runner_id direction r.1 ≡ suc e.seq)
        × Occurs (stored_envelope py_str e) (list_runner_messages runner_id direction after r.1)
  record_next e now after db ne n s l =
      let fresh : is_known e.seq db ≡ false =
        above_last runner_id direction e.seq db.runner_messages
          (unfold next_runner_sequence in omega arith) in
      rw (record_lem e now db ne n)
        (rw (log_new e now db fresh) (refl, next_after e now db s, replayed e now after db l))
