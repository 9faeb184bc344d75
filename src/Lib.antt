-- ===== src/Lib.antt =====
-- AutoFlow runs development tasks with language model agents. A task is created over the REST
-- interface, started by the workflow engine, put into a durable queue of jobs, leased from it by a
-- worker of the server or by a Local Runner, and approved by a person at the end. All state is in
-- one SQL database, which app/storage.py reads and writes one transaction at a time.
--
-- The parts, and the files that model them:
--  * Models, Schema, Protocol, Config: the enumerations of app/models.py, the tables of
--    app/db_schema.py, the envelope of app/protocol.py and the settings of app/config.py that are read.
--    `Db` is the database: a list of rows for each table, in the order of insertion.
--  * Storage/...: the methods of `Storage` in app/storage.py, under their own names, one file for
--    a group of tables: Tasks, Jobs, Events, Messages, Permissions, Challenges, Users, Projects,
--    Runners, Cleanup. A method that raises is an `Action`: an outcome with the database after it.
--  * Storage/Jobs/Calls: a history of the queue is a list of calls with their times. Storage/Jobs/Invariant,
--    Lease, Held, Exclusive, Retry and Enqueue have the laws of the queue; the other children of Storage, those of
--    their tables.
--  * Auth: app/auth.py, with the laws of roles in Auth/Roles and of tokens and sessions in Auth/Tokens.
--  * Workflow: `WorkflowEngine` of app/workflow.py: start, cancel, _enter, _check_cancelled and
--    _run_guarded; approve is in Workflow/Approval, _validate_with_fixes and _apply_code in
--    Workflow/Validation, _run_validation_cycle and _acceptance_loop in Workflow/Acceptance. The laws
--    of the last are in Workflow/Accepted. There the state is a pair: what is outside the database (the
--    worktree, the sandbox, the agents), of any type, and the database.
--  * Worker: `_execute_job` and a turn of `_run_loop` of app/worker.py, with the laws in Worker/Retries.
--  * Protocol/Wire: a message as the JSON object that is stored and sent, and its reading.
--  * Transport: `ProtocolState` of app/runner_transport.py with the file that it is kept in;
--    Transport/Calls has histories of its calls, restarts among them, Transport/Recovery, Delivery and
--    Outbox their laws. Transport/Client: `RunnerProtocolClient`, with its laws in Transport/Client/...
--  * Gateway: `RunnerGatewaySession` of app/gateway.py: what all handlers use, _send, _ack and
--    _update_task; Gateway/Handlers has _handle, Gateway/Control _dispatch_control_messages, and
--    Gateway/Connect _register, _reconnect, run and run_runner_websocket. Gateway/Kept carries a property of the
--    database through every handler; Gateway/Isolation and Gateway/Duplicates use it. The laws of what is
--    sent are in Gateway/Sending, Gateway/Cancels and Gateway/Admission.
--  * Exchange: the gateway and the transport together.
--  * Api: the handlers of app/api.py, which take the user or the runner as the dependencies give it:
--    Api/Runners, Api/Mail (mailed codes and sessions), Api/Tasks, Api/Creation (of
--    tasks) and Api/Accounts (users, tokens of runners and
--    Git integrations), with the laws of each in its children. What a handler commits before it
--    raises stays.
--  * Repository: the policies of app/repository.py; its git methods are in Repository/Git and the writing
--    and collecting of files in Repository/Files, with the laws of each in its children.
--  * Prelude/...: SQL statements over lists of rows, exceptions, texts, JSON values, and their lemmas.
--  * Tests/...: concrete inputs.
--
-- How state and operations correspond to the code:
--  * An operation is a function of the database. A transaction that raises returns the database
--    that it was given; a chain of transactions keeps what the earlier ones committed.
--  * A time is a number of microseconds since an epoch; the program compares UTC texts of one
--    format, whose order is the order in time. A handler takes one value of the clock for all its calls.
--  * A fresh identifier is an argument. Keys are checked: a used primary or unique key and a missing
--    row of a foreign key raise `integrity_error`, where the statement has no ON CONFLICT.
--  * Numbers are natural numbers without bound, as in Python and SQLite for the values in question. The loops of
--    the workflow recurse on the number of corrections that are left, as their `range` bounds them. Only the
--    printing of numbers runs on fuel: one unit more than the number, which has fewer digits.
--  * Texts are lowered and stripped as ASCII texts are. Numbers in JSON values are natural.
--
-- Parameters of the model: the hash of tokens, HMAC, the parsing of JSON, the texts of exceptions and JSON
-- values, the conversion of values that are no numbers, the order of versions (packaging), the validation of a
-- task that is assigned, git, the shell and the resolution of paths, the commit in a worktree, the
-- agents, the commands and the files, and the body of the workflow where its wrapper is modelled.
--
-- Not modelled: the rest of that body, HTTP and mail; threads, of which only the calls that they make
-- count, each as one step; timeouts of connections; the copying of local changes and the search of
-- app/repository.py; the front ends and the schema migrations; and of app/api.py the download,
-- publishing and event stream of tasks, projects and their members, the configuration of Git
-- integrations and the diagnostics.
pub mod Prelude
pub mod Models
pub mod Protocol
pub mod Schema
pub mod Storage
pub mod Repository
pub mod Transport
pub mod Gateway
pub mod Api
pub mod Exchange
pub mod Config
pub mod Auth
pub mod Workflow
pub mod Worker
pub mod Tests
