-- ===== src/Api/Runners/Confined.antt =====
-- A runner reaches only its own tasks through the REST interface.
use automated_workflow.Prelude.{
  ℕ, String, true, Option, none, some, ◌≡◌, refl, ap, inl, inr, str_eq,
}
use automated_workflow.Prelude.Tests.{Bool-cases, holds_text, str_eq→eq}
use automated_workflow.Prelude.Outcome.{raised, http_error, resume, ◌>>=◌}
use automated_workflow.Prelude.Json.{Fields}
use automated_workflow.Prelude.Table.{find_where}
use automated_workflow.Models.{Stage}
use automated_workflow.Schema.{Db, TaskRow}
use automated_workflow.Storage.Tasks.{Store, TaskFields, has_id, get_task, found_task}
use automated_workflow.Api.{RunnerPrincipal, require_matching_runner, get_runner_task}
use automated_workflow.Api.Runners.{
  own_task, update_runner_task, add_runner_event, add_runner_artifact, get_runner_task_artifacts,
}

-- The task is there and is assigned to the runner whose token was shown.
abbrev pub IsOwn : RunnerPrincipal → String → Db → Type 0
IsOwn principal task_id db =
    (t : TaskRow) × (find_where (has_id task_id) db.tasks ≡ some t)
    × (holds_text t.runner_id principal.runner_id ≡ true)

-- The call raises a 404 and leaves the database.
abbrev pub IsRefused : {A : Type 0} → Store A → Db → Type 0
IsRefused m db = (detail : String) × (m db ≡ (raised (http_error 404 detail), db))

then-IsRefused :
    {A : Type 0} {B : Type 0} (m : Store A) (f : A → Store B) (db : Db)
    → IsRefused m db
    → IsRefused (m >>= f) db
then-IsRefused m f db (detail, e) = (detail, ap (λ r. resume r.0 r.1 f) e)

module _ (principal : RunnerPrincipal) (now : ℕ) (runner_id task_id : String) (db : Db) where
  own_found :
      (o : Option TaskRow)
      → find_where (has_id task_id) db.tasks ≡ o
      → ¬ IsOwn principal task_id db
      → str_eq principal.runner_id runner_id ≡ true
      → IsRefused (get_runner_task runner_id task_id) db
  unfolding get_runner_task get_task found_task
  own_found none e n s = ("Task not found", rw e refl)
  own_found (some t) e n s = elim (Bool-cases (holds_text t.runner_id runner_id)) [
    | inl h ↦ absurd (n (t, e, rw (str_eq→eq principal.runner_id runner_id s) h))
    | inr h ↦ ("Task not assigned to this runner", rw (e, h) refl)
  ]

  own_task-IsRefused :
      ¬ IsOwn principal task_id db → IsRefused (own_task principal now runner_id task_id) db
  unfolding own_task require_matching_runner
  own_task-IsRefused n = elim (Bool-cases (str_eq principal.runner_id runner_id)) [
    | inl s ↦ let (d, e) = own_found (find_where (has_id task_id) db.tasks) refl n s in (d, rw s e)
    | inr s ↦ ("Runner not found", rw s refl)
  ]

  -- Unless a task is assigned to the runner whose token was shown, a request under any runner's
  -- identifier to update it, to read its artifacts, or to add an event or an artifact to it gets a
  -- 404, and the database stays as it is.
  pub runner_confined :
      (fields : TaskFields) (message : String) (stage : Option Stage) (level : String)
      (payload : Fields) (kind content : String)
      → ¬ IsOwn principal task_id db
      → IsRefused (update_runner_task principal now runner_id task_id fields) db
        × IsRefused (get_runner_task_artifacts principal now runner_id task_id) db
        × IsRefused
            (add_runner_event principal now runner_id task_id message stage level payload)
            db
        × IsRefused (add_runner_artifact principal now runner_id task_id kind content) db
  unfolding update_runner_task get_runner_task_artifacts add_runner_event add_runner_artifact
  runner_confined fields message stage level payload kind content n =
      let own = own_task principal now runner_id task_id in
      let r = own_task-IsRefused n in
      (
        then-IsRefused own _ db r,
        then-IsRefused own _ db r,
        then-IsRefused own _ db r,
        then-IsRefused own _ db r,
      )
