-- ===== src/Gateway.antt =====
-- app/gateway.py: RunnerGatewaySession, the server's side of the connection of one Local Runner. The session
-- keeps the database, what it has sent on the connection, and how it closed it. Timeouts of the
-- connection, metrics and logging are left out.
pub mod Handlers
pub mod Control
pub mod Connect
pub mod Sending
pub mod Footprint
pub mod Kept
pub mod Duplicates
pub mod Isolation
pub mod Admission
pub mod Cancels
use automated_workflow.Prelude.{
  ℕ, String, Bool, true, false, not, ◌||◌, Option, none, some, List, str_eq,
}
use automated_workflow.Prelude.Tests.{if◌then◌else◌, holds_text, given_text}
use automated_workflow.Prelude.Outcome.{
  Action, Outcome, returned, raised, runtime_error, value_error, websocket_disconnect, pure, raise,
  asks, ◌>>=◌, ◌>>◌,
}
use automated_workflow.Prelude.Json.{
  Json, null, number, str, bool, array, object, Fields, end, field, get, truthy, or_value, as_text,
}
use automated_workflow.Prelude.Table.{insert_row, find_where}
use automated_workflow.Models.{
  Stage, product, planner, reader, design, coder, build, test, review, acceptance, delivery,
}
use automated_workflow.Protocol.{MessageType, MessageEnvelope, create, ack}
use automated_workflow.Protocol.Wire.{read_number}
use automated_workflow.Schema.{Db, TaskRow, server}
use automated_workflow.Config.{Settings}
use automated_workflow.Storage.Tasks.{TaskFields, get_task, update_task}
use automated_workflow.Storage.Messages.{record_runner_message, next_runner_sequence}

-- `sent` and `closed` are what the connection was given; a send on it does not fail.
pub record GatewaySession : Type 0 where
  pub db : Db
  pub sent : List MessageEnvelope
  pub closed : Option (ℕ × String)
  pub expected_runner_id : String
  pub project_id : String
  pub runner_id : Option String
  pub cancel_sent : List String

abbrev pub Gateway : Type 0 → Type 0
Gateway A = Action GatewaySession A

-- A call of the storage.
abbrev pub within : {A : Type 0} → Action Db A → Gateway A
within m s = ((m s.db).0, record s { db = (m s.db).1 })

-- A text that may be absent, or the action without it.
abbrev pub with_text : {A : Type 0} → Option String → Gateway A → (String → Gateway A) → Gateway A
with_text none absent act = absent
with_text (some t) absent act = act t

-- A change of the database that always succeeds.
abbrev pub changed : (Db → Db) → Gateway (Unit {0})
changed f s = (returned tt, record s { db = f s.db })

-- `await websocket.close(…); raise WebSocketDisconnect(…)`
abbrev pub close : {A : Type 0} → ℕ → String → Gateway A
close code reason s =
    (raised (websocket_disconnect code), record s { closed = some (code, reason) })

-- STEP_STAGES
abbrev pub step_stages : String → Option Stage
step_stages step =
    if str_eq step "clone" || str_eq step "checkout"
    then some reader
    else if str_eq step "generate"
    then some coder
    else if str_eq step "build"
    then some build
    else if str_eq step "test"
    then some test
    else if str_eq step "commit" || str_eq step "push"
    then some delivery
    else none

-- `Stage(step)`, and none where that raises
abbrev pub stage_of : String → Option Stage
stage_of step =
    if str_eq step "product"
    then some product
    else if str_eq step "planner"
    then some planner
    else if str_eq step "reader"
    then some reader
    else if str_eq step "design"
    then some design
    else if str_eq step "coder"
    then some coder
    else if str_eq step "build"
    then some build
    else if str_eq step "test"
    then some test
    else if str_eq step "review"
    then some review
    else if str_eq step "acceptance"
    then some acceptance
    else if str_eq step "delivery"
    then some delivery
    else none

abbrev pub optional_json : Option String → Json
optional_json none = null
optional_json (some t) = str t

-- The settings, the clock, and what comes from libraries: Python's rendering of a value that is no text,
-- the conversion of a value that is no number, whether one version is older than another (`none`
-- where one of them is no version), and the fresh identifier of the message with a number.
pub record Server : Type 0 where
  pub settings : Settings
  pub now : ℕ
  pub py_str : Json → String
  pub other : Json → Option ℕ
  pub is_older : String → String → Option Bool
  pub fresh_id : ℕ → String

abbrev pub is_false : Option Bool → Bool
is_false (some b) = not b
is_false none = false

abbrev pub is_absent_or : Option Bool → Bool
is_absent_or (some b) = b
is_absent_or none = true

abbrev pub given_number : Option ℕ → Gateway ℕ
given_number none s = (raised (value_error "invalid number"), s)
given_number (some n) s = (returned n, s)

module _ (env : Server) where
  -- `str(payload.get(key) or default)`
  abbrev pub text_or : Fields → String → String → String
  text_or payload key default = as_text env.py_str (or_value (get payload key) (str default))

  -- `int(value)`
  abbrev pub to_int : Json → Gateway ℕ
  to_int v = given_number (read_number env.other v)

  unfoldable pub version_supported : String → Bool
  version_supported version = is_false (env.is_older version env.settings.runner_min_version)

  unfoldable pub release_payload : String → Fields
  release_payload version = field "minimumVersion" (str env.settings.runner_min_version) (
      field "recommendedVersion" (str env.settings.runner_recommended_version) (
        field "updateAvailable"
          (bool (is_absent_or (env.is_older version env.settings.runner_recommended_version)))
          (field "releaseManifestUrl" (optional_json env.settings.runner_release_manifest_url)
            (field "releasePublicKey" (optional_json env.settings.runner_release_public_key) end))))

  -- The message that `_send` makes for the runner.
  unfoldable pub next_envelope :
      MessageType → Option String → Fields → String → Db → MessageEnvelope
  next_envelope message_type task_id payload runner_id db =
      let seq = next_runner_sequence runner_id server db in
      create (env.fresh_id seq) message_type seq (some runner_id) task_id payload

  unfoldable pub send_to : MessageType → Option String → Fields → String → Gateway MessageEnvelope
  unfolding next_envelope
  send_to message_type task_id payload runner_id = do
    envelope ← asks (λ s. next_envelope message_type task_id payload runner_id s.db)
    within (record_runner_message env.py_str envelope server env.now)
    λ s. (returned envelope, record s { sent = insert_row envelope s.sent })

  unfoldable pub send : MessageType → Option String → Fields → Gateway MessageEnvelope
  unfolding send_to
  send message_type task_id payload s =
      with_text (given_text s.runner_id) (raise (runtime_error "Runner is not registered"))
        (send_to message_type task_id payload) s

  unfoldable pub acknowledge : MessageEnvelope → Bool → Gateway MessageEnvelope
  unfolding send
  acknowledge e duplicate =
      send ack e.task_id (field "ackSeq" (number e.seq) (field "duplicate" (bool duplicate) end))

  -- Only a task of the session's runner is written.
  unfoldable pub write_own : String → String → TaskFields → Outcome TaskRow → Gateway (Unit {0})
  write_own runner_id task_id fields (raised e) s = (returned tt, s)
  write_own runner_id task_id fields (returned task) s =
      if holds_text task.runner_id runner_id
      then (do within (update_task task_id fields env.now); pure tt) s
      else (returned tt, s)

  unfoldable pub update_own_task : String → Option String → TaskFields → Gateway (Unit {0})
  unfolding write_own
  update_own_task runner_id task_id fields =
      with_text (given_text task_id) (pure tt)
        (λ t s. write_own runner_id t fields (get_task t s.db).0 s)
