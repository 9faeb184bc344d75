-- ===== src/Transport/Recovery.antt =====
-- A restart of the Local Runner on the file of its state.
use automated_workflow.Prelude.{
  ℕ, max, ◌<◌, String, not, Option, none, some, List, [], ◌∷◌, ◌≡◌, refl, sym, ap, ◌∙◌, inl, inr,
  map, arith, subst, ◌++◌,
}
use automated_workflow.Prelude.Table.{All, insert_row}
use automated_workflow.Prelude.Json.{Json, Fields, get, has_key}
use automated_workflow.Prelude.Rows.{
  Ascending, All-map, All-delete_where, All-select_where, order_by-Ascending, All-insert_row,
  delete_where-Ascending, select_where-Ascending,
}
use automated_workflow.Protocol.{MessageEnvelope}
use automated_workflow.Protocol.Wire.{validate-dump, defaulted}
use automated_workflow.Transport.{
  ProtocolState, missing, holds, blank, Entry, has_key_of, put, load, load_fields, load_pending,
  acknowledge, mark_server_message, mark_registered, discard_types, is_one_of, state_fields, dumped,
  validated, by_seq, pending_messages, optional_str, task_text, with_pending, with_pending,
  pending_messages_unlocked, validated_all,
}
use automated_workflow.Transport.Calls.{
  StateCall, creates, acknowledges, marks, registers, discards, restarts, seq_of, IsEntry, IsSound,
  IsStored, step, run, saved-IsStored, put-above, new_envelope-IsStored,
}

-- The messages of a sound state stand in the order of their numbers already.
pub sorted-IsSound :
    (s : ProtocolState) → IsSound s → pending_messages s ≡ map (λ (x : Entry). x.1) s.pending
unfolding pending_messages pending_messages_unlocked
sorted-IsSound s h = rw (order_by-Ascending seq_of s.pending h.ascending)

append_nil : (xs : List Entry) → xs ++ [] ≡ xs
append_nil [] = refl
append_nil (x ∷ xs) = ap (λ r. x ∷ r) (append_nil xs)

insert_row-append : (x : Entry) (xs ys : List Entry) → insert_row x xs ++ ys ≡ xs ++ (x ∷ ys)
unfolding insert_row
insert_row-append x [] ys = refl
insert_row-append x (z ∷ zs) ys = ap (λ r. z ∷ r) (insert_row-append x zs ys)

-- All of `before` are below the number of the entry.
abbrev IsAbove : List Entry → Entry → Type 0
IsAbove before x = All (λ (y : Entry). y.0 < x.0) before

abbrev IsKeyed : Entry → Type 0
IsKeyed x = x.0 ≡ x.1.seq

still-IsAbove :
    (x : Entry) (before xs : List Entry)
    → All (λ (z : Entry). x.0 < z.0) xs
    → All (IsAbove before) xs
    → All (IsAbove (insert_row x before)) xs
still-IsAbove x before [] a b = tt
still-IsAbove x before (z ∷ zs) a b =
    (All-insert_row (λ (y : Entry). y.0 < z.0) x before a.0 b.0, still-IsAbove x before zs a.1 b.1)

nil-IsAbove : (xs : List Entry) → All (IsAbove []) xs
nil-IsAbove [] = tt
nil-IsAbove (x ∷ xs) = (tt, nil-IsAbove xs)

put_next :
    (x : Entry) (before : List Entry)
    → IsKeyed x
    → IsAbove before x
    → put x.1 before ≡ insert_row x before
put_next x before k a =
    put-above x.1 before (subst (λ n. All (λ (y : Entry). y.0 < n) before) k a)
    ∙ ap (λ (n : ℕ). insert_row (n, x.1) before) (sym k)

-- Messages in the order of their numbers, each above those that are there, go behind them.
by_seq-append :
    (before xs : List Entry)
    → All IsKeyed xs
    → All (IsAbove before) xs
    → Ascending seq_of xs
    → by_seq before (map (λ (x : Entry). x.1) xs) ≡ before ++ xs
unfolding by_seq
by_seq-append before [] k b a = sym (append_nil before)
by_seq-append before (x ∷ xs) k b a =
    ap (λ r. by_seq r (map (λ (x : Entry). x.1) xs)) (put_next x before k.0 b.0)
    ∙ by_seq-append (insert_row x before) xs k.1 (still-IsAbove x before xs a.0 b.1) a.1
    ∙ insert_row-append x before xs

by_seq-pending : (s : ProtocolState) → IsSound s → by_seq [] (pending_messages s) ≡ s.pending
by_seq-pending s h = rw (sorted-IsSound s h) (
    by_seq-append [] s.pending (All-map (λ (x : Entry) p. p.0) s.pending h.entries)
      (nil-IsAbove s.pending) h.ascending)

task_text-optional : (t : Option String) → task_text (optional_str t) ≡ t
task_text-optional none = refl
task_text-optional (some t) = refl

pub blank-IsStored : IsStored (blank missing)
blank-IsStored = (record { numbered = omega arith; entries = tt; ascending = tt }, inl refl)

module _ (fresh : String) (other : Json → Option ℕ) where
  validated-dumped : (es : List MessageEnvelope) → validated fresh other (dumped es) ≡ some es
  unfolding validated dumped
  validated-dumped [] = refl
  validated-dumped (e ∷ es) = rw (validate-dump fresh other e, validated-dumped es) refl

  load_pending-read :
      (fields : Fields) (s : ProtocolState) (es : List MessageEnvelope)
      → defaulted fields "pending" [] (validated_all fresh other) ≡ some es
      → load_pending fresh other fields s ≡ record s { pending = by_seq [] es }
  unfolding load_pending
  load_pending-read fields s es e = ap (with_pending s) e

  pending-saved :
      (s : ProtocolState)
      → defaulted (state_fields s) "pending" [] (validated_all fresh other)
        ≡ some (pending_messages s)
  unfolding state_fields get has_key pending_messages
  pending-saved s = validated-dumped (pending_messages_unlocked s.pending)

  -- A restart on the file that was written for a sound state, whose dictionary of messages is in
  -- the order of their numbers, restores every field.
  load-saved :
      (s : ProtocolState)
      → IsSound s
      → load fresh other (holds (state_fields s)) ≡ record s { file = holds (state_fields s) }
  unfolding load load_fields state_fields get has_key
  load-saved s h =
      let one : max 1 s.next_seq ≡ s.next_seq = ground (arith, h.numbered) in
      let none_below : max 0 s.last_server_seq ≡ s.last_server_seq = ground arith in
      let base : ProtocolState = record (blank (holds (state_fields s))) {
        next_seq = max 1 s.next_seq;
        last_server_seq = max 0 s.last_server_seq;
        last_task = task_text (optional_str s.last_task);
        registered = s.registered;
      } in
      load_pending-read (state_fields s) base (pending_messages s) (pending-saved s)
      ∙ rw (by_seq-pending s h, one, none_below, task_text-optional s.last_task) refl

  pub load-IsStored : (s : ProtocolState) → IsStored s → load fresh other s.file ≡ s
  unfolding load
  load-IsStored s (h, inl e) = subst (λ r. load fresh other r.file ≡ r) (sym e) refl
  load-IsStored s (h, inr e) = ap (load fresh other) e ∙ load-saved s h ∙ rw (← e) refl

  pub step-IsStored :
      (c : StateCall) (s : ProtocolState) → IsStored s → IsStored (step fresh other c s)
  unfolding step acknowledge mark_server_message mark_registered discard_types
  step-IsStored (creates id type runner_id task_id payload) s (h, f) =
      new_envelope-IsStored id type runner_id task_id payload s h
  step-IsStored (acknowledges seq) s (h, f) = saved-IsStored _ (record {
    numbered = h.numbered;
    entries = All-delete_where (IsEntry s.next_seq) (has_key_of seq) s.pending h.entries;
    ascending = delete_where-Ascending seq_of (has_key_of seq) s.pending h.ascending;
  })
  step-IsStored (marks e) s (h, f) =
      saved-IsStored _
        (record { numbered = h.numbered; entries = h.entries; ascending = h.ascending })
  step-IsStored registers s (h, f) =
      saved-IsStored _
        (record { numbered = h.numbered; entries = h.entries; ascending = h.ascending })
  step-IsStored (discards types) s (h, f) =
      let keeps = λ (x : Entry). not (is_one_of types x.1.type) in
      saved-IsStored _ (record {
        numbered = h.numbered;
        entries = All-select_where (IsEntry s.next_seq) keeps s.pending h.entries;
        ascending = select_where-Ascending seq_of keeps s.pending h.ascending;
      })
  step-IsStored restarts s h = subst IsStored (sym (load-IsStored s h)) h

  -- Whatever calls were made since the file of the state was missing, restarts among them: the
  -- number of the next message is positive, the messages that wait stand under their own numbers,
  -- in ascending order, all below the next one, and the file holds the state if anything was
  -- written.
  pub run-IsStored :
      (cs : List StateCall) (s : ProtocolState) → IsStored s → IsStored (run fresh other cs s)
  unfolding run
  run-IsStored [] s h = h
  run-IsStored (c ∷ cs) s h = run-IsStored cs (step fresh other c s) (step-IsStored c s h)

  -- After any calls since the file of the state was missing, a start of the program anew on the
  -- file has the state that was there before: every number, the registration, the last task and
  -- the messages that wait.
  pub run_restart :
      (cs : List StateCall)
      → let s = run fresh other cs (blank missing) in load fresh other s.file ≡ s
  run_restart cs =
      load-IsStored (run fresh other cs (blank missing))
        (run-IsStored cs (blank missing) blank-IsStored)
