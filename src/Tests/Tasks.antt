-- ===== src/Tests/Tasks.antt =====
-- Tasks that are started, cancelled and approved, on concrete rows.
use automated_workflow.Prelude.{ℕ, String, true, false, some, [], ◌∷◌, ◌≡◌, refl, ◌&&◌, str_eq}
use automated_workflow.Prelude.Tests.{if◌then◌else◌}
use automated_workflow.Prelude.Outcome.{Outcome, returned, raised, Error, value_error, ◌>>◌}
use automated_workflow.Prelude.Json.{Json, bool, array, nil, object, field, end, get, has_key}
use automated_workflow.Prelude.Table.{
  find_where, any_where, update_where, count_where, select_where, insert_by, order_by,
}
use automated_workflow.Models.{TaskStatus, Stage, queued, running, waiting_approval, is_pending}
use automated_workflow.Schema.{Db, TaskRow, JobRow, ArtifactRow}
use automated_workflow.Storage.Tasks.{
  Store, has_id, get_task, found_task, update_task, write_fields,
}
use automated_workflow.Storage.Events.{add_artifact, add_event, list_artifacts}
use automated_workflow.Storage.Jobs.{of_task}
use automated_workflow.Storage.Jobs.Enqueue.{IsQueued}
use automated_workflow.Workflow.{start, cancel, enter, run_guarded}
use automated_workflow.Workflow.Starting.{start_queued}
use automated_workflow.Workflow.Cancelling.{cancel_at_once, cancelled_stops}
use automated_workflow.Workflow.Approval.{approve, latest, Committable, approve_commit}
use automated_workflow.Tests.Data.{empty_db, task_of, job_of, settings}

abbrev with_task : TaskRow → Db
with_task task = record empty_db { tasks = task ∷ [] }

abbrev draft_task : TaskRow
draft_task = task_of "t1" TaskStatus.draft

draft_found : find_where (has_id "t1") (with_task draft_task).tasks ≡ some draft_task
unfolding find_where
draft_found = refl

fresh_job : any_where (λ (j : JobRow). str_eq j.id "j1") (with_task draft_task).jobs ≡ false
unfolding any_where
fresh_job = refl

start_queued_example :
    let r = start settings "j1" "t1" 10 (with_task draft_task) in
    (r.0 ≡ returned (record draft_task { status = queued; progress = 1; updated_at = 10 }))
    × ((j : JobRow) × (find_where (of_task "t1") r.1.jobs ≡ some j) × IsQueued "t1" "server" 3 10 j)
start_queued_example =
    start_queued settings "j1" "t1" 10 (with_task draft_task) draft_task draft_found refl refl refl
      fresh_job

abbrev waiting_db : Db
waiting_db = record empty_db { tasks = task_of "t1" queued ∷ []; jobs = job_of "j1" "t1" 1 ∷ [] }

queued_found : find_where (has_id "t1") waiting_db.tasks ≡ some (task_of "t1" queued)
unfolding find_where
queued_found = refl

cancel_at_once_example :
    let r = cancel "t1" 10 waiting_db in
    (r.0
      ≡ returned
          (record (task_of "t1" TaskStatus.cancelled) { cancel_requested = true; updated_at = 10 }))
    × (count_where (λ (j : JobRow). of_task "t1" j && is_pending j.status) r.1.jobs ≡ 0)
cancel_at_once_example = cancel_at_once "t1" 10 waiting_db (task_of "t1" queued) queued_found refl

abbrev no_text : Error → String
no_text e = "error"

running_found :
    find_where (has_id "t1") (with_task (task_of "t1" running)).tasks ≡ some (task_of "t1" running)
unfolding find_where
running_found = refl

abbrev failing : Store (Unit {0})
failing db = (raised (value_error "never"), empty_db)

cancelled_stops_example :
    let db1 = (cancel "t1" 10 (with_task (task_of "t1" running))).1 in
    let run = λ (id : String). enter id Stage.review "review" end 20 >> failing in
    let r = run_guarded no_text no_text run "t1" 20 db1 in
    (r.0 ≡ returned tt)
    × (find_where (has_id "t1") r.1.tasks
        ≡ some (record (task_of "t1" TaskStatus.cancelled) {
          cancel_requested = true;
          updated_at = 20;
        }))
cancelled_stops_example =
    cancelled_stops no_text no_text "t1" Stage.review "review" end failing 10 20
      (with_task (task_of "t1" running)) (task_of "t1" running) running_found refl

-- A parser that knows two texts, and a commit.
abbrev loads : String → Outcome Json
loads raw =
    if str_eq raw "accepted"
    then returned (object (field "accepted" (bool true) end))
    else if str_eq raw "reviewed"
    then returned (object (field "findings" (array nil) end))
    else raised (value_error "JSON")

abbrev commit : String → Json → Outcome String
commit worktree message = returned "0123456789abcdef"

abbrev artifact_of : ℕ → String → String → ArtifactRow
artifact_of id kind content = record {
  id = id;
  task_id = "t1";
  kind = kind;
  content = content;
  created_at = 1;
}

abbrev done_task : TaskRow
done_task = task_of "t1" waiting_approval

abbrev done_db : Db
done_db = record (with_task done_task) {
  artifacts =
      artifact_of 1 "worktree" "/w"
      ∷ artifact_of 2 "review" "reviewed"
      ∷ artifact_of 3 "acceptance" "accepted"
      ∷ [];
}

approved : approve loads commit "t1" "commit" 10 done_db ≡ (
  returned (record done_task {
    status = TaskStatus.completed;
    stage = some Stage.delivery;
    progress = 100;
    updated_at = 10;
  }),
  (approve loads commit "t1" "commit" 10 done_db).1,
)
unfolding approve get_task found_task find_where list_artifacts select_where insert_by order_by
    latest get has_key add_event any_where update_task write_fields count_where update_where
    add_artifact
approved = refl

approve_commit_example :
    (task : TaskRow) × (find_where (has_id "t1") done_db.tasks ≡ some task)
    × (task.status ≡ waiting_approval)
    × Committable loads task (list_artifacts "t1" done_db)
approve_commit_example =
    approve_commit loads commit "t1" 10 done_db (approve loads commit "t1" "commit" 10 done_db).1
      (record done_task {
        status = TaskStatus.completed;
        stage = some Stage.delivery;
        progress = 100;
        updated_at = 10;
      })
      approved
