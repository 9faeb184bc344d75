-- ===== src/Transport/Client/Flushing.antt =====
-- What a new connection sends of the messages that wait.
use automated_workflow.Prelude.{
  ℕ, ◌<◌, Bool, true, false, not, List, [], ◌∷◌, ◌++◌, ◌≡◌, refl, sym, ap, ◌∙◌, inl, inr, map,
  arith,
}
use mathlib.Core.Path.{fun_ext}
use automated_workflow.Prelude.Tests.{Bool-cases}
use automated_workflow.Prelude.Table.{All, insert_row, select_where}
use automated_workflow.Prelude.Rows.{Ascending, select_where-Ascending, All-select_where}
use automated_workflow.Protocol.{MessageType, MessageEnvelope, register, reconnect}
use automated_workflow.Transport.{
  ProtocolState, Entry, pending_messages, is_one_of, discard_types, save_locked,
}
use automated_workflow.Transport.Calls.{IsSound, seq_of, IsEntry}
use automated_workflow.Transport.Recovery.{sorted-IsSound}
use automated_workflow.Transport.Client.{
  RunnerProtocolClient, opened, try_send, send_each, flush_pending, handle_reconnected, is_flushed,
}

-- A client that keeps its messages back sends none.
pub try_send-waiting :
    (e : MessageEnvelope) (c : RunnerProtocolClient) → c.ready ≡ false → try_send e c ≡ c
unfolding try_send
try_send-waiting e c w = rw w

insert_row-append :
    (e : MessageEnvelope) (xs ys : List MessageEnvelope) → insert_row e xs ++ ys ≡ xs ++ (e ∷ ys)
unfolding insert_row
insert_row-append e [] ys = refl
insert_row-append e (x ∷ xs) ys = ap (λ r. x ∷ r) (insert_row-append e xs ys)

append_nil : (xs : List MessageEnvelope) → xs ++ [] ≡ xs
append_nil [] = refl
append_nil (x ∷ xs) = ap (λ r. x ∷ r) (append_nil xs)

try_send-opened :
    (e : MessageEnvelope) (c : RunnerProtocolClient)
    → c.ready ≡ true
    → c.connection ≡ opened
    → try_send e c ≡ record c { sent = insert_row e c.sent }
unfolding try_send
try_send-opened e c r o = rw (r, o) refl

-- What a connection that is open takes, in the order of the list.
pub send_each-opened :
    (es : List MessageEnvelope) (c : RunnerProtocolClient)
    → c.ready ≡ true
    → c.connection ≡ opened
    → send_each es c ≡ record c { sent = c.sent ++ select_where is_flushed es }
unfolding send_each select_where
send_each-opened [] c r o = rw (append_nil c.sent) refl
send_each-opened (e ∷ es) c r o = elim (Bool-cases (is_flushed e)) [
  | inl f ↦
      rw (f, try_send-opened e c r o)
        (send_each-opened es (record c { sent = insert_row e c.sent }) r o
          ∙ ap (λ (xs : List MessageEnvelope). record c { sent = xs })
              (insert_row-append e c.sent (select_where is_flushed es)))
  | inr f ↦ rw f (send_each-opened es c r o)
]

keeps_reconnect :
    (e : MessageEnvelope) → is_flushed e ≡ true → not (is_one_of (reconnect ∷ []) e.type) ≡ true
unfolding is_one_of
keeps_reconnect e f = ground (arith, f)

-- The discarding of Reconnect takes nothing from what is flushed.
flushed_of :
    (xs : List Entry)
    → select_where is_flushed (
        map
          (λ (x : Entry). x.1)
          (select_where (λ (x : Entry). not (is_one_of (reconnect ∷ []) x.1.type)) xs))
      ≡ select_where is_flushed (map (λ (x : Entry). x.1) xs)
unfolding select_where
flushed_of [] = refl
flushed_of (x ∷ xs) = elim (Bool-cases (not (is_one_of (reconnect ∷ []) x.1.type))) [
  | inl k ↦ rw (k, flushed_of xs) refl
  | inr k ↦
      let out : is_flushed x.1 ≡ false = ground (arith, k, keeps_reconnect x.1) in
      rw (k, out) (flushed_of xs)
]

discards-IsSound : (s : ProtocolState) → IsSound s → IsSound (discard_types (reconnect ∷ []) s)
unfolding discard_types save_locked
discards-IsSound s h =
    let keeps = λ (x : Entry). not (is_one_of (reconnect ∷ []) x.1.type) in
    record {
      numbered = h.numbered;
      entries = All-select_where (IsEntry s.next_seq) keeps s.pending h.entries;
      ascending = select_where-Ascending seq_of keeps s.pending h.ascending;
    }

flushed-discards :
    (s : ProtocolState)
    → IsSound s
    → select_where is_flushed (pending_messages (discard_types (reconnect ∷ []) s))
      ≡ select_where is_flushed (pending_messages s)
unfolding discard_types save_locked
flushed-discards s h =
    ap (select_where is_flushed)
      (sorted-IsSound (discard_types (reconnect ∷ []) s) (discards-IsSound s h))
    ∙ flushed_of s.pending
    ∙ sym (ap (select_where is_flushed) (sorted-IsSound s h))

seqs_above :
    (n : ℕ) (x : Entry) (xs : List Entry)
    → x.0 ≡ x.1.seq
    → All (IsEntry n) xs
    → All (λ (y : Entry). x.0 < y.0) xs
    → All (λ (e : MessageEnvelope). x.1.seq < e.seq) (map (λ (y : Entry). y.1) xs)
seqs_above n x [] e k a = tt
seqs_above n x (y ∷ ys) e k a = (omega (arith, e, k.0.0, a.0), seqs_above n x ys e k.1 a.1)

seqs_ascend :
    (n : ℕ) (xs : List Entry)
    → All (IsEntry n) xs
    → Ascending seq_of xs
    → Ascending (λ (e : MessageEnvelope). e.seq) (map (λ (x : Entry). x.1) xs)
seqs_ascend n [] k a = tt
seqs_ascend n (x ∷ xs) k a = (seqs_above n x xs k.0.0 k.1 a.0, seqs_ascend n xs k.1 a.1)

-- The requests that open a session, which a new connection makes anew.
abbrev pub is_request : MessageType → Bool
is_request register = true
is_request reconnect = true
is_request _ = false

-- All other messages.
abbrev pub is_report : MessageEnvelope → Bool
is_report e = not (is_request e.type)

not_one_of : (t : MessageType) → not (is_one_of (register ∷ reconnect ∷ []) t) ≡ not (is_request t)
unfolding is_one_of
not_one_of register = refl
not_one_of reconnect = refl
not_one_of _ = refl

flushed_reports :
    (es : List MessageEnvelope) → select_where is_flushed es ≡ select_where is_report es
flushed_reports es = ap (λ p. select_where p es) (fun_ext λ e. not_one_of e.type)

-- When the server acknowledges a reconnection on a connection that is open, the client is ready
-- and gives the connection, behind what it gave before, every message that waits but for the
-- requests to register or reconnect, each once and in ascending order of their numbers.
pub reconnected_flush :
    (c : RunnerProtocolClient)
    → IsSound c.state
    → c.connection ≡ opened
    → let c1 = (handle_reconnected c).1 in
      let again = select_where is_report (pending_messages c.state) in
      (c1.ready ≡ true)
      × (c1.sent ≡ c.sent ++ again)
      × Ascending (λ (e : MessageEnvelope). e.seq) again
unfolding handle_reconnected flush_pending
reconnected_flush c h o =
    let s1 = discard_types (reconnect ∷ []) c.state in
    let each =
      send_each-opened (pending_messages s1) (record c { state = s1; ready = true }) refl o in
    let same : select_where is_flushed (pending_messages s1)
        ≡ select_where is_report (pending_messages c.state) =
      flushed-discards c.state h ∙ flushed_reports (pending_messages c.state) in
    (
      ap (λ (r : RunnerProtocolClient). r.ready) each,
      ap (λ (r : RunnerProtocolClient). r.sent) each ∙ ap (λ r. c.sent ++ r) same,
      select_where-Ascending (λ (e : MessageEnvelope). e.seq) is_report _
          (rw (sorted-IsSound c.state h)
            (seqs_ascend c.state.next_seq c.state.pending h.entries h.ascending)),
    )
