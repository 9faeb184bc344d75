-- ===== src/Storage/Events.antt =====
-- app/storage.py: the events and the artifacts of a task.
use automated_workflow.Prelude.{ℕ, suc, max, String, ◌&&◌, Option, List, [], ◌∷◌, str_eq}
use automated_workflow.Prelude.Tests.{ltb, if◌then◌else◌}
use automated_workflow.Prelude.Outcome.{returned, raised, integrity_error}
use automated_workflow.Prelude.Json.{Fields}
use automated_workflow.Prelude.Table.{select_where, any_where, insert_row, order_by}
use automated_workflow.Models.{Stage}
use automated_workflow.Schema.{Db, EventRow, ArtifactRow}
use automated_workflow.Storage.Tasks.{Store, has_id}

-- The identifier that SQLite gives a new row: one more than the greatest.
unfoldable pub last_event : List EventRow → ℕ
last_event [] = 0
last_event (e ∷ es) = max e.id (last_event es)

unfoldable pub last_artifact : List ArtifactRow → ℕ
last_artifact [] = 0
last_artifact (a ∷ rest) = max a.id (last_artifact rest)

unfoldable pub new_event : String → String → Option Stage → String → Fields → ℕ → Db → EventRow
unfolding last_event
new_event task_id message stage level payload now db = record {
  id = suc (last_event db.events);
  task_id = task_id;
  stage = stage;
  level = level;
  message = message;
  payload = payload;
  created_at = now;
}

unfoldable pub add_event : String → String → Option Stage → String → Fields → ℕ → Store EventRow
add_event task_id message stage level payload now db =
    let event = new_event task_id message stage level payload now db in
    if any_where (has_id task_id) db.tasks
    then (returned event, record db { events = insert_row event db.events })
    else (raised integrity_error, db)

unfoldable pub list_events : String → ℕ → Db → List EventRow
list_events task_id after db =
    order_by (λ e. e.id) (select_where (λ e. str_eq e.task_id task_id && ltb after e.id) db.events)

unfoldable pub add_artifact : String → String → String → ℕ → Store ArtifactRow
unfolding last_artifact
add_artifact task_id kind content now db =
    let row : ArtifactRow = record {
      id = suc (last_artifact db.artifacts);
      task_id = task_id;
      kind = kind;
      content = content;
      created_at = now;
    } in
    if any_where (has_id task_id) db.tasks
    then (returned row, record db { artifacts = insert_row row db.artifacts })
    else (raised integrity_error, db)

unfoldable pub list_artifacts : String → Db → List ArtifactRow
list_artifacts task_id db =
    order_by (λ a. a.id) (select_where (λ a. str_eq a.task_id task_id) db.artifacts)
