-- ===== src/Gateway/Connect.antt =====
-- app/gateway.py: the start of a session by Register or Reconnect, its loop, and the handshake.
use automated_workflow.Prelude.{
  ℕ, max, ◌/◌, String, Bool, true, false, not, ◌||◌, Option, none, some, List, [], ◌∷◌, str_eq,
  str_append,
}
use automated_workflow.Prelude.Tests.{if◌then◌else◌, given_text, or_else, ◌==◌}
use automated_workflow.Prelude.Outcome.{Outcome, returned, raised, pure, asks, modify, ◌>>=◌, ◌>>◌}
use automated_workflow.Prelude.Json.{
  Json, number, bool, str, array, null, object, Fields, Items, nil, cons, end, field, get, or_value,
  truthy,
}
use automated_workflow.Prelude.Table.{insert_row}
use automated_workflow.Prelude.Text.{lower, before_space, after_space}
use automated_workflow.Protocol.{
  MessageType, MessageEnvelope, register, reconnect, register_ack, ack,
}
use automated_workflow.Schema.{Db, RunnerRow, TaskRow, runner, server}
use automated_workflow.Auth.{authenticate_runner}
use automated_workflow.Storage.Messages.{record_runner_message, list_runner_messages}
use automated_workflow.Storage.Runners.{RunnerRegistration, upsert_runner, get_runner, touch_runner}
use automated_workflow.Gateway.{
  Server, Gateway, GatewaySession, within, close, with_text, text_or, to_int, version_supported,
  release_payload, send,
}
use automated_workflow.Gateway.Handlers.{handle}
use automated_workflow.Gateway.Control.{dispatch_control_messages}

-- A text of the payload, and none where it is empty. A value that is no text fails the validation of
-- the registration, which is left out.
abbrev pub text_of : Json → Option String
text_of (str t) = given_text (some t)
text_of null = none
text_of (bool b) = none
text_of (number n) = none
text_of (array xs) = none
text_of (object fs) = none

abbrev pub or_given : Option String → Option String → Option String
or_given none d = d
or_given (some t) d = some t

-- The texts of an array: `payload.get("roots") or []` of a registration that is validated.
unfoldable pub items_texts : Items → List String
items_texts nil = []
items_texts (cons (str t) rest) = t ∷ items_texts rest
items_texts (cons null rest) = items_texts rest
items_texts (cons (bool b) rest) = items_texts rest
items_texts (cons (number n) rest) = items_texts rest
items_texts (cons (array xs) rest) = items_texts rest
items_texts (cons (object fs) rest) = items_texts rest

abbrev pub roots_of : Json → List String
roots_of (array xs) = items_texts xs
roots_of _ = []

-- `a | b` on the fields of a payload
unfoldable pub with_release : Fields → Fields → Fields
with_release end release = release
with_release (field k v rest) release = field k v (with_release rest release)

-- `payload.get("runnerId") or envelope.runner_id`; a value that is no text equals no identifier, which
-- the empty text stands for.
abbrev pub claimed : Json → Option String → Option String
claimed (str t) id = or_given (given_text (some t)) (given_text id)
claimed null id = given_text id
claimed (bool b) id = if b then some "" else given_text id
claimed (number n) id = if n == 0 then given_text id else some ""
claimed (array xs) id = if truthy (array xs) then some "" else given_text id
claimed (object fs) id = if truthy (object fs) then some "" else given_text id

abbrev pub named : String → GatewaySession → GatewaySession
named runner_id s = record s { runner_id = some runner_id }

module _ (env : Server) where
  unfoldable pub rejection : String → ℕ → Fields
  rejection version seq =
      with_release
        (field "accepted" (bool false) (
          field "ackSeq" (number seq) (
            field "reason"
              (str (
                str_append "Runner " (
                  str_append version
                    (str_append " is below minimum " env.settings.runner_min_version))))
              end)))
        (release_payload env version)

  -- The answer to a runner whose version is too old.
  unfoldable pub reject : String → ℕ → Gateway (Unit {0})
  unfolding rejection
  reject version seq = do
    send env register_ack none (rejection version seq)
    close 1008 "Runner update required"

  abbrev pub registration_of : String → String → String → Fields → RunnerRegistration
  registration_of project_id runner_id version payload = record {
    id = runner_id;
    name =
        or_else (or_given (text_of (get payload "hostname")) (text_of (get payload "name")))
          runner_id;
    platform = or_else (text_of (get payload "platform")) "unknown";
    version = version;
    roots = roots_of (get payload "roots");
    capabilities = [];
    project_id = project_id;
  }

  unfoldable pub accept : MessageEnvelope → String → String → String → Gateway (Unit {0})
  accept e project_id runner_id version = do
    within (upsert_runner (registration_of project_id runner_id version e.payload) env.now)
    send env register_ack none (
        with_release
          (field "accepted" (bool true) (
            field "ackSeq" (number e.seq)
              (field "heartbeat" (number (max 2 (env.settings.runner_offline_seconds / 3))) end)))
          (release_payload env version))
    pure tt

  unfoldable pub register_as : MessageEnvelope → String → Gateway (Unit {0})
  unfolding accept reject
  register_as e runner_id = do
    modify (named runner_id)
    within
        (record_runner_message env.py_str (record e { runner_id = some runner_id }) runner env.now)
    project_id ← asks (λ s. s.project_id)
    if version_supported env (text_or env e.payload "version" "0.0.0")
        then accept e project_id runner_id (text_or env e.payload "version" "0.0.0")
        else reject (text_or env e.payload "version" "0.0.0") e.seq

  unfoldable pub register_runner : MessageEnvelope → Gateway (Unit {0})
  unfolding register_as
  register_runner e s =
      with_text (claimed (get e.payload "runnerId") e.runner_id) (close 1003 "runnerId is required")
        (λ runner_id.
          if not (str_eq runner_id s.expected_runner_id)
          then close 1008 "runnerId mismatch"
          else register_as e runner_id)
        s

  abbrev pub moved : RunnerRow → String → String → RunnerRegistration
  moved r version project_id = record {
    id = r.id;
    name = r.name;
    platform = r.platform;
    version = version;
    roots = r.roots;
    capabilities = r.capabilities;
    project_id = project_id;
  }

  -- The runner is moved to the project of the session's token, or seen again.
  abbrev pub seen : String → String → Outcome RunnerRow → Gateway (Unit {0})
  seen runner_id version (raised e) s = close 1008 "Runner is not registered" s
  seen runner_id version (returned r) s =
      if not (str_eq r.project_id s.project_id)
      then (do within (upsert_runner (moved r version s.project_id) env.now); pure tt) s
      else (do within (touch_runner runner_id none none env.now); pure tt) s

  unfoldable pub replay : List MessageEnvelope → GatewaySession → GatewaySession
  replay [] s = s
  replay (e ∷ es) s = replay es (record s { sent = insert_row e s.sent })

  unfoldable pub resume_session : MessageEnvelope → String → String → Gateway (Unit {0})
  unfolding replay
  resume_session e runner_id version = do
    λ s. seen runner_id version (get_runner runner_id s.db).0 s
    within (record_runner_message env.py_str e runner env.now)
    last_seq ← to_int env (or_value (get e.payload "lastSeq") (number 0))
    modify (λ s. replay (list_runner_messages runner_id server last_seq s.db) s)
    send env ack e.task_id (
        field "ackSeq" (number e.seq)
          (field "reconnected" (bool true) (release_payload env version)))
    pure tt

  unfoldable pub reconnect_as : MessageEnvelope → String → Gateway (Unit {0})
  unfolding resume_session reject
  reconnect_as e runner_id = do
    modify (named runner_id)
    if version_supported env (text_or env e.payload "version" "0.0.0")
        then resume_session e runner_id (text_or env e.payload "version" "0.0.0")
        else reject (text_or env e.payload "version" "0.0.0") e.seq

  unfoldable pub reconnect_runner : MessageEnvelope → Gateway (Unit {0})
  unfolding reconnect_as
  reconnect_runner e s =
      with_text (given_text e.runner_id) (close 1003 "runnerId is required")
        (λ runner_id.
          if not (str_eq runner_id s.expected_runner_id)
          then close 1008 "runnerId mismatch"
          else reconnect_as e runner_id)
        s

  -- The first message must start the session; any other type closes the connection.
  abbrev pub first_message : MessageType → MessageEnvelope → Gateway Bool
  first_message register e = do register_runner e; pure true
  first_message reconnect e = do reconnect_runner e; pure true
  first_message _ e =
      λ s. (returned false, record s { closed = some (1003, "Register or Reconnect required") })

-- The rounds of the loop: the clock of each, and what arrives before its timeout.
module _ (env : ℕ → Server) (task_json : TaskRow → Json) where
  abbrev pub receive_one : ℕ → Option MessageEnvelope → Gateway (Unit {0})
  receive_one now none = pure tt
  receive_one now (some e) = handle (env now) e

  unfoldable pub rounds : List (ℕ × Option MessageEnvelope) → Gateway (Unit {0})
  rounds [] = pure tt
  rounds ((now, arrived) ∷ rest) = do
    dispatch_control_messages (env now) task_json
    receive_one now arrived
    rounds rest

  abbrev pub started : List (ℕ × Option MessageEnvelope) → Bool → Gateway (Unit {0})
  started arrivals true = rounds arrivals
  started arrivals false = pure tt

  unfoldable pub run : ℕ → MessageEnvelope → List (ℕ × Option MessageEnvelope) → Gateway (Unit {0})
  unfolding rounds
  run now first arrivals = do
    is_started ← first_message (env now) first.type first
    started arrivals is_started

-- The headers and the query of the request that opens the connection.
pub record Handshake : Type 0 where
  pub authorization : String
  pub x_runner_id : String
  pub query_token : String

abbrev pub handshake_token : Handshake → String
handshake_token h =
    if str_eq (lower (before_space h.authorization)) "bearer"
    then after_space h.authorization
    else h.query_token

abbrev pub closed_session : Db → Handshake → GatewaySession
closed_session db h = record {
  db = db;
  sent = [];
  closed = some (1008, "Invalid runner token");
  expected_runner_id = h.x_runner_id;
  project_id = "";
  runner_id = none;
  cancel_sent = [];
}

abbrev pub open_session : Db → Handshake → String → GatewaySession
open_session db h project_id = record {
  db = db;
  sent = [];
  closed = none;
  expected_runner_id = h.x_runner_id;
  project_id = project_id;
  runner_id = none;
  cancel_sent = [];
}

module _ (hash_token : String → String) (env : ℕ → Server) (task_json : TaskRow → Json) where
  abbrev pub authenticated :
      Outcome String
      → Db
      → Handshake
      → ℕ
      → MessageEnvelope
      → List (ℕ × Option MessageEnvelope)
      → Outcome (Unit {0}) × GatewaySession
  authenticated (raised e) db h now first arrivals = (returned tt, closed_session db h)
  authenticated (returned project_id) db h now first arrivals =
      run env task_json now first arrivals (open_session db h project_id)

  unfoldable pub run_runner_websocket :
      Handshake
      → ℕ
      → MessageEnvelope
      → List (ℕ × Option MessageEnvelope)
      → Db
      → Outcome (Unit {0}) × GatewaySession
  unfolding run
  run_runner_websocket h now first arrivals db =
      if str_eq h.x_runner_id "" || str_eq (handshake_token h) ""
      then (returned tt, closed_session db h)
      else authenticated
          (authenticate_runner hash_token (env now).settings h.x_runner_id (handshake_token h) db).0
          db h now first arrivals
