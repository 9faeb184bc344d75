-- ===== src/Transport/Calls.antt =====
-- Histories of calls of ProtocolState: the state between any two calls is sound, and the file holds it.
use automated_workflow.Prelude.{
  ℕ, suc, ◌<◌, String, Option, some, List, [], ◌∷◌, ◌≡◌, refl, ◌⊎◌, inr, arith, subst, sym,
}
use automated_workflow.Prelude.Table.{All, insert_row}
use automated_workflow.Prelude.Json.{Json, Fields}
use automated_workflow.Prelude.Rows.{
  Ascending, All-map, All-insert_row, insert_row-Ascending, any_where-above,
}
use automated_workflow.Protocol.{MessageType, MessageEnvelope, create}
use automated_workflow.Transport.{
  ProtocolState, missing, holds, blank, Entry, put, load, new_envelope, acknowledge,
  mark_server_message, mark_registered, discard_types, save_locked, state_fields,
}

-- A call of a method, or the start of the program anew on the same file.
pub data StateCall : Type 0 where
  creates : String → MessageType → String → Option String → Fields → StateCall
  acknowledges : ℕ → StateCall
  marks : MessageEnvelope → StateCall
  registers : StateCall
  discards : List MessageType → StateCall
  restarts : StateCall

abbrev pub seq_of : Entry → ℕ
seq_of entry = entry.0

-- The entry stands under the number of its message, which was given out before.
abbrev pub IsEntry : ℕ → Entry → Type 0
IsEntry next_seq entry = (entry.0 ≡ entry.1.seq) × (entry.0 < next_seq)

pub record IsSound (s : ProtocolState) : Type 0 where
  pub numbered : 0 < s.next_seq
  pub entries : All (IsEntry s.next_seq) s.pending
  pub ascending : Ascending seq_of s.pending

-- The state is sound, and what the file holds is the state.
abbrev pub IsStored : ProtocolState → Type 0
IsStored s = IsSound s × ((s ≡ blank missing) ⊎ (s.file ≡ holds (state_fields s)))

module _ (fresh : String) (other : Json → Option ℕ) where
  unfoldable pub step : StateCall → ProtocolState → ProtocolState
  step (creates id type runner_id task_id payload) s =
      (new_envelope id type runner_id task_id payload s).1
  step (acknowledges seq) s = acknowledge seq s
  step (marks e) s = mark_server_message e s
  step registers s = mark_registered s
  step (discards types) s = discard_types types s
  step restarts s = load fresh other s.file

  unfoldable pub run : List StateCall → ProtocolState → ProtocolState
  run [] s = s
  run (c ∷ cs) s = run cs (step c s)

pub saved-IsStored : (s : ProtocolState) → IsSound s → IsStored (save_locked s)
unfolding save_locked state_fields
saved-IsStored s h =
    (record { numbered = h.numbered; entries = h.entries; ascending = h.ascending }, inr refl)

-- A message under a new number stands behind the others.
pub put-above :
    (e : MessageEnvelope) (entries : List Entry)
    → All (λ entry. entry.0 < e.seq) entries
    → put e entries ≡ insert_row (e.seq, e) entries
unfolding put
put-above e entries h = rw (any_where-above seq_of e.seq entries h)

raised_bound :
    (n : ℕ) (entries : List Entry) → All (IsEntry n) entries → All (IsEntry (suc n)) entries
raised_bound n entries h = All-map (λ (x : Entry) p. (p.0, omega (arith, p.1))) entries h

pub new_envelope-IsStored :
    (id : String) (type : MessageType) (runner_id : String) (task_id : Option String)
    (payload : Fields) (s : ProtocolState)
    → IsSound s
    → IsStored (new_envelope id type runner_id task_id payload s).1
unfolding new_envelope create
new_envelope-IsStored id type runner_id task_id payload s h =
    let e = create id type s.next_seq (some runner_id) task_id payload in
    let below : All (λ (entry : Entry). entry.0 < s.next_seq) s.pending =
      All-map (λ (x : Entry) p. p.1) s.pending h.entries in
    saved-IsStored (record s { next_seq = suc s.next_seq; pending = put e s.pending })
      (record {
        numbered = omega arith;
        entries = subst (All (IsEntry (suc s.next_seq))) (sym (put-above e s.pending below)) (
            All-insert_row (IsEntry (suc s.next_seq)) (s.next_seq, e) s.pending (refl, omega arith)
              (raised_bound s.next_seq s.pending h.entries));
        ascending =
            subst (Ascending seq_of) (sym (put-above e s.pending below))
              (insert_row-Ascending seq_of (s.next_seq, e) s.pending h.ascending below);
      })
