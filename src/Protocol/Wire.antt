-- ===== src/Protocol/Wire.antt =====
-- app/protocol.py: a message as the JSON object that is sent and stored, and its reading.
use automated_workflow.Prelude.{ℕ, String, Option, none, some, List, [], ◌∷◌, ◌≡◌, refl, str_eq}
use automated_workflow.Prelude.Tests.{if◌then◌else◌}
use automated_workflow.Prelude.Json.{
  Json, null, number, str, object, bool, array, Fields, end, field, get, has_key,
}
use automated_workflow.Protocol.{
  MessageType, register, register_ack, heartbeat, heartbeat_ack, capability, task_assign,
  task_accepted, task_progress, task_log, terminal_output, ai_chunk, file_changed,
  permission_request, permission_result, cancel_task, task_completed, task_failed, task_cancelled,
  reconnect, ack, artifact, MessageEnvelope,
}

-- The values of the enumeration.
abbrev pub message_type_text : MessageType → String
message_type_text register = "Register"
message_type_text register_ack = "RegisterAck"
message_type_text heartbeat = "Heartbeat"
message_type_text heartbeat_ack = "HeartbeatAck"
message_type_text capability = "Capability"
message_type_text task_assign = "TaskAssign"
message_type_text task_accepted = "TaskAccepted"
message_type_text task_progress = "TaskProgress"
message_type_text task_log = "TaskLog"
message_type_text terminal_output = "TerminalOutput"
message_type_text ai_chunk = "AIChunk"
message_type_text file_changed = "FileChanged"
message_type_text permission_request = "PermissionRequest"
message_type_text permission_result = "PermissionResult"
message_type_text cancel_task = "CancelTask"
message_type_text task_completed = "TaskCompleted"
message_type_text task_failed = "TaskFailed"
message_type_text task_cancelled = "TaskCancelled"
message_type_text reconnect = "Reconnect"
message_type_text ack = "Ack"
message_type_text artifact = "Artifact"

message_types : List MessageType
message_types =
    register ∷ register_ack ∷ heartbeat ∷ heartbeat_ack ∷ capability ∷ task_assign ∷ task_accepted
    ∷ task_progress ∷ task_log ∷ terminal_output ∷ ai_chunk ∷ file_changed ∷ permission_request
    ∷ permission_result ∷ cancel_task ∷ task_completed ∷ task_failed ∷ task_cancelled ∷ reconnect
    ∷ ack ∷ artifact ∷ []

named_type : List MessageType → String → Option MessageType
named_type [] text = none
named_type (t ∷ ts) text =
    let rest = named_type ts text in if str_eq (message_type_text t) text then some t else rest

-- `MessageType(text)`
unfoldable pub message_type_of : String → Option MessageType
unfolding message_types named_type
message_type_of text = named_type message_types text

abbrev pub optional_text : String → Option String → Fields → Fields
optional_text key none rest = rest
optional_text key (some t) rest = field key (str t) rest

-- `model_dump(by_alias=True, exclude_none=True)`
unfoldable pub model_dump : MessageEnvelope → Fields
model_dump e = field "id" (str e.id) (
    field "type" (str (message_type_text e.type)) (
      field "seq" (number e.seq) (
        optional_text "runnerId" e.runner_id
          (optional_text "taskId" e.task_id (field "payload" (object e.payload) end)))))

-- A field of type `str | None`, by its alias or by its name.
abbrev pub read_text : Json → Option (Option String)
read_text null = some none
read_text (str t) = some (some t)
read_text (bool b) = none
read_text (number n) = none
read_text (array xs) = none
read_text (object fs) = none

abbrev pub aliased : Fields → String → String → Json
aliased fields alias name = if has_key fields alias then get fields alias else get fields name

abbrev pub read_id : Json → Option String
read_id null = none
read_id (str t) = some t
read_id (bool b) = none
read_id (number n) = none
read_id (array xs) = none
read_id (object fs) = none

abbrev pub read_type : Json → Option MessageType
read_type (str t) = message_type_of t
read_type null = none
read_type (bool b) = none
read_type (number n) = none
read_type (array xs) = none
read_type (object fs) = none

abbrev pub read_payload : Json → Option Fields
read_payload (object fs) = some fs
read_payload null = none
read_payload (str t) = none
read_payload (bool b) = none
read_payload (number n) = none
read_payload (array xs) = none

-- A whole number, where `other` is the conversion of a value that is not written as a number.
abbrev pub read_number : (Json → Option ℕ) → Json → Option ℕ
read_number other (number n) = some n
read_number other null = other null
read_number other (str t) = other (str t)
read_number other (bool b) = other (bool b)
read_number other (array xs) = other (array xs)
read_number other (object fs) = other (object fs)

infixl 5 ◌and_then◌
abbrev pub ◌and_then◌ {ℓ κ} : {A : Type ℓ} {B : Type κ} → Option A → (A → Option B) → Option B
none and_then f = none
some a and_then f = f a

abbrev pub defaulted {ℓ} : {A : Type ℓ} → Fields → String → A → (Json → Option A) → Option A
defaulted fields key default read =
    if has_key fields key then read (get fields key) else some default

-- `MessageEnvelope.model_validate` of an object: `fresh` is the identifier that the default factory
-- draws, `other` pydantic's reading of a number from another value. A missing field has its default.
unfoldable pub model_validate : String → (Json → Option ℕ) → Fields → Option MessageEnvelope
model_validate fresh other fields = defaulted fields "id" fresh read_id and_then λ id.
    read_type (get fields "type") and_then λ type.
    defaulted fields "seq" 0 (read_number other) and_then λ seq.
    read_text (aliased fields "runnerId" "runner_id") and_then λ runner_id.
    read_text (aliased fields "taskId" "task_id") and_then λ task_id.
    defaulted fields "payload" end read_payload and_then λ payload. some (record {
      id = id;
      type = type;
      seq = seq;
      runner_id = runner_id;
      task_id = task_id;
      payload = payload;
    })

message_type-round : (t : MessageType) → message_type_of (message_type_text t) ≡ some t
unfolding message_type_of message_types named_type
message_type-round register = refl
message_type-round register_ack = refl
message_type-round heartbeat = refl
message_type-round heartbeat_ack = refl
message_type-round capability = refl
message_type-round task_assign = refl
message_type-round task_accepted = refl
message_type-round task_progress = refl
message_type-round task_log = refl
message_type-round terminal_output = refl
message_type-round ai_chunk = refl
message_type-round file_changed = refl
message_type-round permission_request = refl
message_type-round permission_result = refl
message_type-round cancel_task = refl
message_type-round task_completed = refl
message_type-round task_failed = refl
message_type-round task_cancelled = refl
message_type-round reconnect = refl
message_type-round ack = refl
message_type-round artifact = refl

validate-parts :
    (fresh : String) (other : Json → Option ℕ) (id : String) (type : MessageType) (seq : ℕ)
    (runner_id task_id : Option String) (payload : Fields)
    → let e : MessageEnvelope = record {
      id = id;
      type = type;
      seq = seq;
      runner_id = runner_id;
      task_id = task_id;
      payload = payload;
    } in
      model_validate fresh other (model_dump e) ≡ some e
unfolding model_validate model_dump get has_key
validate-parts fresh other id type seq none none payload = rw (message_type-round type) refl
validate-parts fresh other id type seq (some r) none payload = rw (message_type-round type) refl
validate-parts fresh other id type seq none (some t) payload = rw (message_type-round type) refl
validate-parts fresh other id type seq (some r) (some t) payload = rw (message_type-round type) refl

-- A message is read from the object it is written to.
pub validate-dump :
    (fresh : String) (other : Json → Option ℕ) (e : MessageEnvelope)
    → model_validate fresh other (model_dump e) ≡ some e
validate-dump fresh other e =
    validate-parts fresh other e.id e.type e.seq e.runner_id e.task_id e.payload
