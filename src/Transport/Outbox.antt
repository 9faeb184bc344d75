-- ===== src/Transport/Outbox.antt =====
-- What the Local Runner's record of its messages promises: a list of messages in the order in which they
-- were made, which a restart does not change. The record and its file implement it.
use automated_workflow.Prelude.{
  ℕ, suc, ◌<◌, String, not, Option, some, List, [], ◌∷◌, ◌≡◌, refl, sym, ap, ◌∙◌, inl, inr, map,
}
use automated_workflow.Prelude.Tests.{◌==◌, Bool-cases}
use automated_workflow.Prelude.Table.{All, insert_row, delete_where, select_where}
use automated_workflow.Prelude.Json.{Json}
use automated_workflow.Prelude.Rows.{All-map}
use automated_workflow.Protocol.{MessageType, MessageEnvelope, create}
use automated_workflow.Transport.{
  ProtocolState, Entry, has_key_of, new_envelope, acknowledge, mark_server_message, mark_registered,
  discard_types, is_one_of, save_locked, pending_messages,
}
use automated_workflow.Transport.Calls.{
  StateCall, creates, acknowledges, marks, registers, discards, restarts, IsSound, IsStored,
  IsEntry, step, run, put-above,
}
use automated_workflow.Transport.Recovery.{sorted-IsSound, load-IsStored, step-IsStored}

pub record Outbox : Type 0 where
  pub next_seq : ℕ
  pub waiting : List MessageEnvelope

-- The messages that wait, in the order of their making: a new one goes behind the others under the
-- next number, an acknowledgement takes out the message of its number, a discarding those of the
-- types, and nothing else changes them.
abbrev pub specified : StateCall → Outbox → Outbox
specified (creates id type runner_id task_id payload) o = record {
  next_seq = suc o.next_seq;
  waiting = insert_row (create id type o.next_seq (some runner_id) task_id payload) o.waiting;
}
specified (acknowledges seq) o = record o {
  waiting = delete_where (λ (e : MessageEnvelope). e.seq == seq) o.waiting;
}
specified (marks e) o = o
specified registers o = o
specified (discards types) o = record o {
  waiting = select_where (λ (e : MessageEnvelope). not (is_one_of types e.type)) o.waiting;
}
specified restarts o = o

unfoldable pub specified_run : List StateCall → Outbox → Outbox
specified_run [] o = o
specified_run (c ∷ cs) o = specified_run cs (specified c o)

-- What the rest of the program sees of the record.
abbrev pub outbox : ProtocolState → Outbox
outbox s = record { next_seq = s.next_seq; waiting = pending_messages s }

abbrev message_of : Entry → MessageEnvelope
message_of x = x.1

abbrev plain : ProtocolState → Outbox
plain s = record { next_seq = s.next_seq; waiting = map message_of s.pending }

plain_lem : (s : ProtocolState) → IsSound s → outbox s ≡ plain s
plain_lem s h =
    ap (λ (w : List MessageEnvelope). record { next_seq = s.next_seq; waiting = w })
      (sorted-IsSound s h)

map-insert_row :
    (x : Entry) (xs : List Entry)
    → map message_of (insert_row x xs) ≡ insert_row x.1 (map message_of xs)
unfolding insert_row
map-insert_row x [] = refl
map-insert_row x (y ∷ ys) = ap (λ r. y.1 ∷ r) (map-insert_row x ys)

map-delete_where :
    (n seq : ℕ) (xs : List Entry)
    → All (IsEntry n) xs
    → map message_of (delete_where (has_key_of seq) xs)
      ≡ delete_where (λ (e : MessageEnvelope). e.seq == seq) (map message_of xs)
unfolding delete_where
map-delete_where n seq [] k = refl
map-delete_where n seq (x ∷ xs) k = elim (Bool-cases (x.1.seq == seq)) [
  | inl y ↦ rw (ap (λ (m : ℕ). m == seq) k.0.0, y, map-delete_where n seq xs k.1) refl
  | inr y ↦ rw (ap (λ (m : ℕ). m == seq) k.0.0, y, map-delete_where n seq xs k.1) refl
]

map-select_where :
    (types : List MessageType) (xs : List Entry)
    → map message_of (select_where (λ (x : Entry). not (is_one_of types x.1.type)) xs)
      ≡ select_where (λ (e : MessageEnvelope). not (is_one_of types e.type)) (map message_of xs)
unfolding select_where
map-select_where types [] = refl
map-select_where types (x ∷ xs) = elim (Bool-cases (not (is_one_of types x.1.type))) [
  | inl y ↦ rw (y, map-select_where types xs) refl
  | inr y ↦ rw (y, map-select_where types xs) refl
]

module _ (fresh : String) (other : Json → Option ℕ) where
  plain-step :
      (c : StateCall) (s : ProtocolState)
      → IsStored s
      → plain (step fresh other c s) ≡ specified c (plain s)
  unfolding step new_envelope acknowledge mark_server_message mark_registered discard_types
      save_locked create
  plain-step (creates id type runner_id task_id payload) s (h, f) =
      let e = create id type s.next_seq (some runner_id) task_id payload in
      let below : All (λ (x : Entry). x.0 < s.next_seq) s.pending =
        All-map (λ (x : Entry) p. p.1) s.pending h.entries in
      rw (put-above e s.pending below, map-insert_row (s.next_seq, e) s.pending) refl
  plain-step (acknowledges seq) s (h, f) =
      rw (map-delete_where s.next_seq seq s.pending h.entries) refl
  plain-step (marks e) s h = refl
  plain-step registers s h = refl
  plain-step (discards types) s h = rw (map-select_where types s.pending) refl
  plain-step restarts s h = ap plain (load-IsStored fresh other s h)

  -- From a stored state on, after any calls, restarts of the program among them, the number of the
  -- next message and the messages that wait are those of the list that the calls describe.
  pub run_refines :
      (cs : List StateCall) (s : ProtocolState)
      → IsStored s
      → outbox (run fresh other cs s) ≡ specified_run cs (outbox s)
  unfolding run specified_run
  run_refines [] s h = refl
  run_refines (c ∷ cs) s h =
      let k = step-IsStored fresh other c s h in
      run_refines cs (step fresh other c s) k
      ∙ ap (specified_run cs) (
          plain_lem (step fresh other c s) k.0
          ∙ plain-step c s h
          ∙ ap (specified c) (sym (plain_lem s h.0)))
