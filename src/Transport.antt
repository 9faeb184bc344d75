-- ===== src/Transport.antt =====
-- app/runner_transport.py: ProtocolState, the Local Runner's record of its messages, which it keeps in
-- a file. The lock of the class makes each method one step. A path that cannot be
-- written, and with it the exception of `_save_locked`, is left out.
pub mod Calls
pub mod Recovery
pub mod Delivery
pub mod Outbox
pub mod Client
use automated_workflow.Prelude.{
  ℕ, suc, max, String, Bool, true, false, not, Option, none, some, List, [], ◌∷◌, map, str_eq,
}
use automated_workflow.Prelude.Tests.{◌==◌, if◌then◌else◌, given_text, or_else}
use automated_workflow.Prelude.Json.{
  Json, null, number, str, bool, array, object, Items, nil, cons, Fields, end, field, get, has_key,
  truthy,
}
use automated_workflow.Prelude.Table.{
  delete_where, select_where, update_where, any_where, insert_row, order_by,
}
use automated_workflow.Protocol.{MessageType, MessageEnvelope, create}
use automated_workflow.Protocol.Wire.{
  message_type_text, model_dump, model_validate, read_number, ◌and_then◌, defaulted,
}

-- The file of the state: not there, not to be read as JSON, or an object.
pub data StateFile : Type 0 where
  missing unreadable : StateFile
  holds : Fields → StateFile

-- An entry of the dictionary `pending`.
abbrev pub Entry : Type 0
Entry = ℕ × MessageEnvelope

pub record ProtocolState : Type 0 where
  pub file : StateFile
  pub next_seq : ℕ
  pub last_server_seq : ℕ
  pub last_task : Option String
  pub registered : Bool
  pub pending : List Entry

abbrev pub has_key_of : ℕ → Entry → Bool
has_key_of seq entry = entry.0 == seq

-- `pending[seq] = envelope`: in place, or behind the others
unfoldable pub put : MessageEnvelope → List Entry → List Entry
put e entries =
    if any_where (has_key_of e.seq) entries
    then update_where (has_key_of e.seq) (λ entry. (e.seq, e)) entries
    else insert_row (e.seq, e) entries

-- `[pending[seq] for seq in sorted(pending)]`: the keys of a dictionary are distinct
unfoldable pub pending_messages_unlocked : List Entry → List MessageEnvelope
pending_messages_unlocked entries = map (λ entry. entry.1) (order_by (λ entry. entry.0) entries)

unfoldable pub pending_messages : ProtocolState → List MessageEnvelope
pending_messages s = pending_messages_unlocked s.pending

unfoldable pub dumped : List MessageEnvelope → Items
dumped [] = nil
dumped (e ∷ es) = cons (object (model_dump e)) (dumped es)

abbrev pub optional_str : Option String → Json
optional_str none = null
optional_str (some t) = str t

unfoldable pub state_fields : ProtocolState → Fields
state_fields s = field "nextSeq" (number s.next_seq) (
    field "lastServerSeq" (number s.last_server_seq) (
      field "lastTask" (optional_str s.last_task) (
        field "registered" (bool s.registered)
          (field "pending" (array (dumped (pending_messages_unlocked s.pending))) end))))

unfoldable pub save_locked : ProtocolState → ProtocolState
save_locked s = record s { file = holds (state_fields s) }

-- What `__init__` sets before it loads.
abbrev pub blank : StateFile → ProtocolState
blank file = record {
  file = file;
  next_seq = 1;
  last_server_seq = 0;
  last_task = none;
  registered = false;
  pending = [];
}

-- `lastTask` is null or a text in every file that the class writes; other values count as absent.
abbrev pub task_text : Json → Option String
task_text (str t) = some t
task_text _ = none

-- `fresh` is the identifier of a message that is stored with none, `other` the conversion of a value
-- that is not written as a number.
module _ (fresh : String) (other : Json → Option ℕ) where
  abbrev pub validated_item : Json → Option MessageEnvelope
  validated_item (object fs) = model_validate fresh other fs
  validated_item null = none
  validated_item (bool b) = none
  validated_item (number n) = none
  validated_item (str t) = none
  validated_item (array xs) = none

  unfoldable pub validated : Items → Option (List MessageEnvelope)
  validated nil = some []
  validated (cons x xs) = validated_item x and_then λ e. validated xs and_then λ es. some (e ∷ es)

  -- Iteration over the value: an empty text or object has no items, and others hold no messages.
  abbrev pub validated_all : Json → Option (List MessageEnvelope)
  validated_all (array xs) = validated xs
  validated_all (str t) = if str_eq t "" then some [] else none
  validated_all (object end) = some []
  validated_all (object (field k v rest)) = none
  validated_all null = none
  validated_all (bool b) = none
  validated_all (number n) = none

-- `{item.seq: item for item in …}`
unfoldable pub by_seq : List Entry → List MessageEnvelope → List Entry
by_seq entries [] = entries
by_seq entries (e ∷ es) = by_seq (put e entries) es

-- The messages that were read, and none where the reading raised.
abbrev pub with_pending : ProtocolState → Option (List MessageEnvelope) → ProtocolState
with_pending s none = record s { pending = [] }
with_pending s (some es) = record s { pending = by_seq [] es }

module _ (fresh : String) (other : Json → Option ℕ) where
  unfoldable pub load_pending : Fields → ProtocolState → ProtocolState
  load_pending fields s = with_pending s (defaulted fields "pending" [] (validated_all fresh other))

  -- The assignments in their order: one that fails ends the load, with no message pending.
  unfoldable pub load_fields : Fields → ProtocolState → ProtocolState
  unfolding load_pending
  load_fields fields s = elim (defaulted fields "nextSeq" 1 (read_number other)) [
    | none ↦ record s { pending = [] }
    | some next_seq ↦
        let s = record s { next_seq = max 1 next_seq } in
        elim (defaulted fields "lastServerSeq" 0 (read_number other)) [
          | none ↦ record s { pending = [] }
          | some last_server_seq ↦ load_pending fields (record s {
            last_server_seq = max 0 last_server_seq;
            last_task = task_text (get fields "lastTask");
            registered = truthy (get fields "registered");
          })
        ]
  ]

  -- `ProtocolState(path)`, on what the file holds
  unfoldable pub load : StateFile → ProtocolState
  unfolding load_fields
  load missing = blank missing
  load unreadable = blank unreadable
  load (holds fields) = load_fields fields (blank (holds fields))

-- `id` is the fresh identifier of the message.
unfoldable pub new_envelope :
    String
    → MessageType
    → String
    → Option String
    → Fields
    → ProtocolState
    → MessageEnvelope × ProtocolState
unfolding save_locked
new_envelope id message_type runner_id task_id payload s =
    let e = create id message_type s.next_seq (some runner_id) task_id payload in
    (e, save_locked (record s { next_seq = suc s.next_seq; pending = put e s.pending }))

unfoldable pub acknowledge : ℕ → ProtocolState → ProtocolState
unfolding save_locked
acknowledge seq s = save_locked (record s { pending = delete_where (has_key_of seq) s.pending })

unfoldable pub mark_server_message : MessageEnvelope → ProtocolState → ProtocolState
unfolding save_locked
mark_server_message e s = save_locked (record s {
  last_server_seq = max s.last_server_seq e.seq;
  last_task = elim (given_text e.task_id) [ none ↦ s.last_task | some t ↦ some t ];
})

unfoldable pub mark_registered : ProtocolState → ProtocolState
unfolding save_locked
mark_registered s = save_locked (record s { registered = true })

-- `item.type in types`
unfoldable pub is_one_of : List MessageType → MessageType → Bool
is_one_of [] type = false
is_one_of (t ∷ ts) type =
    if str_eq (message_type_text t) (message_type_text type) then true else is_one_of ts type

unfoldable pub discard_types : List MessageType → ProtocolState → ProtocolState
unfolding save_locked
discard_types types s =
    save_locked
      (record s { pending = select_where (λ entry. not (is_one_of types entry.1.type)) s.pending })
