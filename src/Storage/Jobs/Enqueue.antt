-- ===== src/Storage/Jobs/Enqueue.antt =====
-- A task that is queued gets a job that can be leased at once.
use automated_workflow.Prelude.{
  ℕ, String, true, false, none, some, List, str_eq, ◌≡◌, refl, inl, inr,
}
use automated_workflow.Prelude.Tests.{Option-cases, eq→str_eq}
use automated_workflow.Prelude.Outcome.{returned}
use automated_workflow.Prelude.Table.{find_where, any_where, insert_row, update_where}
use automated_workflow.Prelude.Rows.{Occurs-find_where, find_where-update_where}
use automated_workflow.Prelude.Updates.{find_where-insert_row, any_where-found, any_where-none}
use automated_workflow.Models.{JobStatus}
use automated_workflow.Schema.{Db, JobRow}
use automated_workflow.Storage.Tasks.{has_id}
use automated_workflow.Storage.Jobs.{
  of_task, new_job, renewed_job, insert_job, found_job, get_job_for_task, enqueue_job,
}

-- A job that waits for its first attempt.
pub record IsQueued (task_id target : String) (max_attempts now : ℕ) (j : JobRow) : Type 0 where
  pub same_task : str_eq j.task_id task_id ≡ true
  pub same_target : j.target ≡ target
  pub waits : j.status ≡ JobStatus.pending
  pub unused : j.attempts ≡ 0
  pub limit : j.max_attempts ≡ max_attempts
  pub due : j.available_at ≡ now
  pub unowned : j.lease_owner ≡ none

pub enqueue_lem :
    (job_id task_id target : String) (max_attempts now : ℕ) (db : Db)
    → any_where (has_id task_id) db.tasks ≡ true
    → any_where (λ j. str_eq j.id job_id) db.jobs ≡ false
    → (j : JobRow) × (jobs : List JobRow) × (enqueue_job job_id task_id target max_attempts now db
        ≡ (returned j, record db { jobs = jobs }))
      × (find_where (of_task task_id) jobs ≡ some j)
      × IsQueued task_id target max_attempts now j
unfolding enqueue_job insert_job get_job_for_task found_job
enqueue_lem job_id task_id target max_attempts now db there fresh =
    elim (Option-cases (find_where (of_task task_id) db.jobs)) [
      | inl k ↦
          let j = new_job job_id task_id target max_attempts now in
          let named : of_task task_id j ≡ true = eq→str_eq task_id task_id refl in
          let found = find_where-insert_row (of_task task_id) j db.jobs k named in
          (
            j,
            insert_row j db.jobs,
            rw (there, any_where-none (of_task task_id) db.jobs k, fresh) (rw found refl),
            found,
            record {
              same_task = named;
              same_target = refl;
              waits = refl;
              unused = refl;
              limit = refl;
              due = refl;
              unowned = refl;
            },
          )
      | inr (x, k) ↦
          let f = renewed_job target max_attempts now in
          let found : find_where (of_task task_id) (update_where (of_task task_id) f db.jobs)
              ≡ some (f x) =
            rw (find_where-update_where (of_task task_id) f db.jobs (λ y. refl), k) refl in
          (
            f x,
            update_where (of_task task_id) f db.jobs,
            rw (there, any_where-found (of_task task_id) db.jobs x k) (rw found refl),
            found,
            record {
              same_task = (Occurs-find_where (of_task task_id) db.jobs x k).1;
              same_target = refl;
              waits = refl;
              unused = refl;
              limit = refl;
              due = refl;
              unowned = refl;
            },
          )
    ]
