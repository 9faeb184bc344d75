-- ===== src/Transport/Delivery.antt =====
-- A message of the Local Runner waits until the server has acknowledged it, and its number is its own.
use automated_workflow.Prelude.{
  ℕ, suc, ◌<◌, ◌≤◌, String, false, not, Option, some, List, [], ◌∷◌, ◌≡◌, ◌≢◌, refl, sym, ap, arith,
  subst,
}
use automated_workflow.Prelude.Table.{All}
use automated_workflow.Prelude.Json.{Json, Fields}
use automated_workflow.Prelude.Rows.{
  Occurs, Ascending, All-map, delete_where-Occurs, select_where-Occurs, insert_row-Occurs,
  insert_row-Occurs_self, map-Occurs,
}
use automated_workflow.Protocol.{MessageType, MessageEnvelope, create}
use automated_workflow.Transport.{
  ProtocolState, Entry, has_key_of, new_envelope, acknowledge, mark_server_message, mark_registered,
  discard_types, is_one_of, save_locked, pending_messages,
}
use automated_workflow.Transport.Calls.{
  StateCall, creates, acknowledges, marks, registers, discards, restarts, IsSound, IsStored, step,
  run, put-above, new_envelope-IsStored,
}
use automated_workflow.Transport.Recovery.{
  sorted-IsSound, load-IsStored, step-IsStored, run-IsStored,
}

-- A call neither acknowledges the number nor discards the type of a message.
abbrev pub Spares : MessageEnvelope → StateCall → Type 0
Spares e (acknowledges seq) = e.seq ≢ seq
Spares e (discards types) = is_one_of types e.type ≡ false
Spares e _ = Unit

abbrev Waits : MessageEnvelope → ProtocolState → Type 0
Waits e s = Occurs (e.seq, e) s.pending

abbrev BelowNext : (s : ProtocolState) → Type 0
BelowNext s = All (λ (x : Entry). x.0 < s.next_seq) s.pending

IsSound-BelowNext : (s : ProtocolState) → IsSound s → BelowNext s
IsSound-BelowNext s h = All-map (λ (x : Entry) p. p.1) s.pending h.entries

module _ (fresh : String) (other : Json → Option ℕ) where
  step-Waits :
      (e : MessageEnvelope) (c : StateCall) (s : ProtocolState)
      → IsStored s
      → Spares e c
      → Waits e s
      → Waits e (step fresh other c s)
  unfolding step acknowledge mark_server_message mark_registered discard_types new_envelope
      save_locked create
  step-Waits e (creates id type runner_id task_id payload) s h n o =
      let made = create id type s.next_seq (some runner_id) task_id payload in
      subst (Occurs (e.seq, e)) (sym (put-above made s.pending (IsSound-BelowNext s h.0)))
        (insert_row-Occurs (s.next_seq, made) (e.seq, e) s.pending o)
  step-Waits e (acknowledges seq) s h n o =
      delete_where-Occurs (has_key_of seq) s.pending (e.seq, e) o (ground (arith, n))
  step-Waits e (marks m) s h n o = o
  step-Waits e registers s h n o = o
  step-Waits e (discards types) s h n o =
      select_where-Occurs (λ (x : Entry). not (is_one_of types x.1.type)) s.pending (e.seq, e) o
        (rw n refl)
  step-Waits e restarts s h n o = subst (Waits e) (sym (load-IsStored fresh other s h)) o

  run-Waits :
      (e : MessageEnvelope) (cs : List StateCall) (s : ProtocolState)
      → IsStored s
      → All (Spares e) cs
      → Waits e s
      → Waits e (run fresh other cs s)
  unfolding run
  run-Waits e [] s h n o = o
  run-Waits e (c ∷ cs) s h n o =
      run-Waits e cs (step fresh other c s) (step-IsStored fresh other c s h) n.1
        (step-Waits e c s h n.0 o)

  made-Waits :
      (id : String) (type : MessageType) (runner_id : String) (task_id : Option String)
      (payload : Fields) (s : ProtocolState)
      → IsStored s
      → let r = new_envelope id type runner_id task_id payload s in Waits r.0 r.1
  unfolding new_envelope save_locked create
  made-Waits id type runner_id task_id payload s h =
      let made = create id type s.next_seq (some runner_id) task_id payload in
      subst (Occurs (s.next_seq, made)) (sym (put-above made s.pending (IsSound-BelowNext s h.0)))
        (insert_row-Occurs_self (s.next_seq, made) s.pending)

  flushed :
      (e : MessageEnvelope) (s : ProtocolState)
      → IsStored s
      → Waits e s
      → Occurs e (pending_messages s)
  flushed e s h o =
      subst (Occurs e) (sym (sorted-IsSound s h.0))
        (map-Occurs (λ (x : Entry). x.1) (e.seq, e) s.pending o)

  -- A message that was made in a stored state waits after any later calls, restarts of the
  -- program among them, as long as none of them acknowledges its number or discards its type.
  pub run_pending :
      (id : String) (type : MessageType) (runner_id : String) (task_id : Option String)
      (payload : Fields) (cs : List StateCall) (s s1 : ProtocolState) (e : MessageEnvelope)
      → IsStored s
      → new_envelope id type runner_id task_id payload s ≡ (e, s1)
      → All (Spares e) cs
      → Occurs e (pending_messages (run fresh other cs s1))
  run_pending id type runner_id task_id payload cs s s1 e h made n =
      let stored : IsStored s1 =
        subst IsStored (ap (λ r. r.1) made)
          (new_envelope-IsStored id type runner_id task_id payload s h.0) in
      let waits : Waits e s1 =
        subst (λ (r : MessageEnvelope × ProtocolState). Waits r.0 r.1) made
          (made-Waits id type runner_id task_id payload s h) in
      flushed e (run fresh other cs s1) (run-IsStored fresh other cs s1 stored)
        (run-Waits e cs s1 stored n waits)

  -- The messages that the calls make, in their order.
  unfoldable pub created : List StateCall → ProtocolState → List MessageEnvelope
  created [] s = []
  created (c ∷ cs) s =
      let later = created cs (step fresh other c s) in
      elim c [
        | creates id type runner_id task_id payload ↦
            (new_envelope id type runner_id task_id payload s).0 ∷ later
        | _ ↦ later
      ]

  step_mono :
      (c : StateCall) (s : ProtocolState)
      → IsStored s
      → s.next_seq ≤ (step fresh other c s).next_seq
  unfolding step acknowledge mark_server_message mark_registered discard_types new_envelope
      save_locked create
  step_mono (creates id type runner_id task_id payload) s h = omega arith
  step_mono (acknowledges seq) s h = omega arith
  step_mono (marks e) s h = omega arith
  step_mono registers s h = omega arith
  step_mono (discards types) s h = omega arith
  step_mono restarts s h =
      subst (λ (r : ProtocolState). s.next_seq ≤ r.next_seq) (sym (load-IsStored fresh other s h))
        (omega arith)

  above :
      (n m : ℕ) (es : List MessageEnvelope)
      → n ≤ m
      → All (λ (e : MessageEnvelope). m ≤ e.seq) es
      → All (λ (e : MessageEnvelope). n ≤ e.seq) es
  above n m es l a = All-map (λ (e : MessageEnvelope) p. omega (arith, l, p)) es a

  abbrev IsFrom : ℕ → List MessageEnvelope → Type 0
  IsFrom n es =
      All (λ (e : MessageEnvelope). n ≤ e.seq) es × Ascending (λ (e : MessageEnvelope). e.seq) es

  created_later :
      (c : StateCall) (cs : List StateCall) (s : ProtocolState)
      → IsStored s
      → IsFrom (step fresh other c s).next_seq (created cs (step fresh other c s))
      → IsFrom s.next_seq (created cs (step fresh other c s))
  created_later c cs s h (b, a) = (above s.next_seq _ _ (step_mono c s h) b, a)

  created_after :
      (c : StateCall) (cs : List StateCall) (s : ProtocolState)
      → IsStored s
      → IsFrom (step fresh other c s).next_seq (created cs (step fresh other c s))
      → IsFrom s.next_seq (created (c ∷ cs) s)
  unfolding created step new_envelope save_locked create
  created_after (creates id type runner_id task_id payload) cs s h (b, a) =
      ((omega arith, above s.next_seq (suc s.next_seq) _ (omega arith) b), (b, a))
  created_after (acknowledges seq) cs s h f = created_later (acknowledges seq) cs s h f
  created_after (marks e) cs s h f = created_later (marks e) cs s h f
  created_after registers cs s h f = created_later registers cs s h f
  created_after (discards types) cs s h f = created_later (discards types) cs s h f
  created_after restarts cs s h f = created_later restarts cs s h f

  created-IsFrom :
      (cs : List StateCall) (s : ProtocolState) → IsStored s → IsFrom s.next_seq (created cs s)
  created-IsFrom [] s h = unfold created in (tt, tt)
  created-IsFrom (c ∷ cs) s h =
      created_after c cs s h
        (created-IsFrom cs (step fresh other c s) (step-IsStored fresh other c s h))

  -- From a stored state on, restarts included, each message that is made has a greater number
  -- than every message made before it.
  pub created-Ascending :
      (cs : List StateCall) (s : ProtocolState)
      → IsStored s
      → Ascending (λ (e : MessageEnvelope). e.seq) (created cs s)
  created-Ascending cs s h = (created-IsFrom cs s h).1
