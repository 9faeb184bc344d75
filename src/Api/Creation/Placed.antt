-- ===== src/Api/Creation/Placed.antt =====
-- The project of a new task, and its runner's.
use automated_workflow.Prelude.{
  ℕ, String, true, false, Option, none, some, ◌≡◌, refl, arith, sym, subst, ◌∙◌, inl, inr, str_eq,
}
use automated_workflow.Prelude.Tests.{given_text, str_eq→eq, Bool-cases}
use automated_workflow.Prelude.Outcome.{Outcome, returned, pure, ◌>>◌}
use automated_workflow.Prelude.Steps.{returned_both, returned_then, required_then}
use automated_workflow.Prelude.Table.{find_where}
use automated_workflow.Models.{editor, draft}
use automated_workflow.Schema.{Db, TaskRow, UserRow, RunnerRow, EventRow}
use automated_workflow.Config.{Settings}
use automated_workflow.Auth.{require_project_role}
use automated_workflow.Storage.Tasks.{Store, TaskCreate, or_text}
use automated_workflow.Storage.Tasks
use automated_workflow.Storage.Tasks.Created.{create_task-returned}
use automated_workflow.Storage.Runners.{has_runner_id, get_runner}
use automated_workflow.Api.{or_missing}
use automated_workflow.Api.Tasks.Deciding.{IsGranted, role-IsGranted}
use automated_workflow.Api.Creation.{chosen_project, created_message, placed, create_task}
use automated_workflow.Storage.Events.{add_event}
use automated_workflow.Prelude.Json.{end}

-- The runner, where one is asked for, is registered in the project.
abbrev pub RunnerOf : Option String → String → Db → Type 0
RunnerOf none project_id db = Unit
RunnerOf (some runner_id) project_id db =
    (r : RunnerRow) × (find_where (has_runner_id runner_id) db.runners ≡ some r)
    × (r.project_id ≡ project_id)

found_runner_row :
    (runner_id : String) (o : Option RunnerRow) (db db1 : Db) (r : RunnerRow)
    → find_where (has_runner_id runner_id) db.runners ≡ o
    → or_missing 422 "Selected Local Runner not found" (get_runner runner_id) db ≡ (returned r, db1)
    → o ≡ some r
unfolding get_runner
found_runner_row runner_id none db db1 r k e = absurd (ground (arith, rw k at e))
found_runner_row runner_id (some q) db db1 r k e = ground (arith, rw k at e)

placed-RunnerOf :
    (open_path : String → Outcome String) (project_id repository text : String) (o : Option String)
    (db db1 : Db)
    → placed open_path project_id repository o db ≡ (returned text, db1)
    → RunnerOf o project_id db
unfolding placed
placed-RunnerOf open_path project_id repository text none db db1 e = tt
placed-RunnerOf open_path project_id repository text (some runner_id) db db1 e =
    let found = or_missing 422 "Selected Local Runner not found" (get_runner runner_id) in
    let (r, s1, e1, e2) = returned_both found _ db db1 text e in
    let (same, e3) = required_then (str_eq r.project_id project_id) _ _ s1 db1 text e2 in
    (
      r,
      found_runner_row runner_id (find_where (has_runner_id runner_id) db.runners) db s1 r refl e1,
      str_eq→eq r.project_id project_id same,
    )

given_id :
    (o : Option String) (project_id default : String)
    → given_text o ≡ some project_id
    → or_text (some project_id) default ≡ project_id
given_id none project_id default e = absurd (ground (arith, e))
given_id (some s) project_id default e = elim (Bool-cases (str_eq s "")) [
  | inl k ↦ absurd (ground (arith, rw k at e))
  | inr k ↦ let same : s ≡ project_id = ground (arith, rw k at e) in rw (← same) (rw k refl)
]

-- The last two steps.
made-returned :
    (made t : TaskRow) (message : Store EventRow) (db db1 : Db)
    → (message >> pure made) db ≡ (returned t, db1)
    → made ≡ t
made-returned made t message db db1 e =
    let (event, s1, e1, e2) = returned_then message (pure made) db db1 t e in ground (arith, e2)

-- With authentication on, a task that a user who is no administrator created in a named project is a
-- draft of that project; the user was a member of it whose role reaches that of an editor, and the
-- runner that was asked for, if any, was registered in the same project.
pub created_placed :
    (open_path : String → Outcome String) (settings : Settings) (user : UserRow)
    (active_model : String) (payload : TaskCreate) (task_id : String) (now : ℕ) (db db1 : Db)
    (t : TaskRow) (project_id : String)
    → settings.auth_enabled ≡ true
    → user.is_admin ≡ false
    → given_text payload.project_id ≡ some project_id
    → create_task open_path settings user active_model payload task_id now db ≡ (returned t, db1)
    → (t.status ≡ draft)
      × (t.project_id ≡ project_id)
      × IsGranted user project_id editor db
      × RunnerOf (given_text payload.runner_id) project_id db
unfolding create_task
created_placed open_path settings user active_model payload task_id now db db1 t project_id a n g
      e =
    let chosen = chosen_project settings user (given_text payload.project_id) db in
    let named : chosen ≡ project_id = rw g refl in
    let (role, s1, e1, e2) =
      returned_then (require_project_role user chosen editor settings.auth_enabled) _ db db1 t e in
    let (granted, same) =
      role-IsGranted user chosen editor role settings.auth_enabled db s1 a n e1 in
    let (text, s2, e3, e4) =
      returned_both (placed open_path chosen payload.repository (given_text payload.runner_id)) _ s1
        db1 t e2 in
    let where_runner =
      placed-RunnerOf open_path chosen payload.repository text (given_text payload.runner_id) s1 s2
        e3 in
    let (made, s3, e5, e6) =
      returned_both
        (Tasks.create_task task_id (record payload { project_id = some chosen; repository = text })
          active_model now)
        _ s2 db1 t e4 in
    let (project, runner, status) =
      (create_task-returned task_id (record payload { project_id = some chosen; repository = text })
        active_model now s2 s3 made e5) in
    let last : made ≡ t =
      made-returned made t (add_event made.id created_message none "info" end now) s3 db1 e6 in
    let id : or_text (some project_id) "default" ≡ project_id =
      given_id payload.project_id project_id "default" g in
    (
      rw (← last) status,
      rw (← last) (project ∙ rw named id),
      rw (← named) granted,
      subst (λ (p : String). RunnerOf (given_text payload.runner_id) p db) named
          (subst (RunnerOf (given_text payload.runner_id) chosen) (sym same) where_runner),
    )
