-- ===== src/Storage/Tasks/Created.antt =====
-- What the creation of a task returns.
use automated_workflow.Prelude.{ℕ, String, ◌≡◌, refl, ap, arith, inl, inr}
use automated_workflow.Prelude.Tests.{Bool-cases, eq→str_eq}
use automated_workflow.Prelude.Outcome.{returned}
use automated_workflow.Prelude.Table.{any_where}
use automated_workflow.Prelude.Updates.{find_where-insert_row, find_where-never}
use automated_workflow.Models.{draft}
use automated_workflow.Schema.{Db, TaskRow}
use automated_workflow.Storage.Tasks.{
  TaskCreate, or_text, has_id, new_task, insert_task, found_task, get_task, create_task,
}

module _ (task_id : String) (request : TaskCreate) (default_model : String) (now : ℕ) where
  created :
      (db db1 : Db) (t : TaskRow)
      → create_task task_id request default_model now db ≡ (returned t, db1)
      → t ≡ new_task task_id request default_model now
  unfolding create_task insert_task get_task found_task
  created db db1 t e = elim (Bool-cases (any_where (has_id task_id) db.tasks)) [
    | inl k ↦ absurd (ground (arith, rw k at e))
    | inr k ↦
        let row = new_task task_id request default_model now in
        let found =
          find_where-insert_row (has_id task_id) row db.tasks
            (find_where-never (has_id task_id) (has_id task_id) db.tasks (λ x h. h) k)
            (eq→str_eq task_id task_id refl) in
        ground (arith, rw (k, found) at e)
  ]

  -- A new task has the project and the runner of the request, and is a draft.
  pub create_task-returned :
      (db db1 : Db) (t : TaskRow)
      → create_task task_id request default_model now db ≡ (returned t, db1)
      → (t.project_id ≡ or_text request.project_id "default")
        × (t.runner_id ≡ request.runner_id)
        × (t.status ≡ draft)
  unfolding new_task
  create_task-returned db db1 t e =
      let h = created db db1 t e in
      (
        ap (λ (x : TaskRow). x.project_id) h,
        ap (λ (x : TaskRow). x.runner_id) h,
        ap (λ (x : TaskRow). x.status) h,
      )
