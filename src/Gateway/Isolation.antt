-- ===== src/Gateway/Isolation.antt =====
-- A Local Runner changes only the tasks that are assigned to it or whose jobs it holds.
use automated_workflow.Prelude.{
  ℕ, String, Bool, true, false, Option, none, some, ◌≡◌, ◌≢◌, refl, sym, ap, ◌∙◌, inl, inr, subst,
  arith, str_eq,
}
use automated_workflow.Prelude.Tests.{◌==◌, ltb, Bool-cases, if◌then◌else◌, holds_text, str_eq→eq}
use automated_workflow.Prelude.Outcome.{Outcome, returned}
use automated_workflow.Prelude.Table.{All, update_where, find_where, count_where}
use automated_workflow.Prelude.Rows.{
  Occurs, Unique, Unique-update_where, All-update_where, All-Occurs, update_where-Occurs,
  find_where-Unique, Occurs-find_where,
}
use automated_workflow.Protocol.{MessageEnvelope}
use automated_workflow.Models.{queued, JobStatus}
use automated_workflow.Schema.{Db, TaskRow, JobRow, Direction}
use automated_workflow.Storage.Tasks.{
  TaskFields, apply_fields, has_id, found_task, get_task, update_task, write_fields,
}
use automated_workflow.Storage.Jobs.{
  of_task, failed_job, retry_delay, retry_message, is_owned, is_held, renew_job, complete_job,
  fail_job, fail_row,
}
use automated_workflow.Storage.Messages.{record_runner_message, log_message}
use automated_workflow.Gateway.{Server, GatewaySession}
use automated_workflow.Gateway.Sending.{given_text-some}
use automated_workflow.Gateway.Handlers.{handle}
use automated_workflow.Gateway.Footprint.{touched, capable, noted, stored, requested}
use automated_workflow.Gateway.Kept.{IsKept}
use automated_workflow.Gateway.Kept.Messages.{handle-Keeps}

-- The task is a row of its table, whose identifiers are distinct, and the runner holds no job of it.
pub record IsForeign (runner_id : String) (t : TaskRow) (db : Db) : Type 0 where
  pub distinct : Unique (λ (x : TaskRow). x.id) db.tasks
  pub present : Occurs t db.tasks
  pub unheld : All (λ (j : JobRow). is_owned t.id runner_id j ≡ false) db.jobs

module _ (env : Server) (runner_id : String) (t : TaskRow)
    (foreign : holds_text t.runner_id runner_id ≡ false) where
  abbrev P : Db → Type 0
  P db = IsForeign runner_id t db

  same : (db d : Db) → d.tasks ≡ db.tasks → d.jobs ≡ db.jobs → P db → P d
  same db d e f p = record {
    distinct = rw e p.distinct;
    present = rw e p.present;
    unheld = rw f p.unheld;
  }

  recorded :
      (e : MessageEnvelope) (d : Direction) (db : Db)
      → let r = (record_runner_message env.py_str e d env.now db).1 in
        (r.tasks ≡ db.tasks) × (r.jobs ≡ db.jobs)
  unfolding record_runner_message log_message
  recorded e d db = ground arith

  abbrev IsUnheld : JobRow → Type 0
  IsUnheld j = is_owned t.id runner_id j ≡ false

  renewed :
      (task_id : String) (seconds : ℕ) (db : Db)
      → P db
      → P (renew_job task_id runner_id seconds env.now db).1
  unfolding renew_job
  renewed task_id seconds db p = record {
    distinct = p.distinct;
    present = p.present;
    unheld =
        All-update_where IsUnheld IsUnheld (is_held task_id runner_id) _ db.jobs
          (λ j o h. ground (arith, h)) p.unheld;
  }

  completed :
      (task_id : String) (status : JobStatus) (db : Db)
      → P db
      → P (complete_job task_id runner_id status env.now db)
  unfolding complete_job
  completed task_id status db p = record {
    distinct = p.distinct;
    present = p.present;
    unheld =
        All-update_where IsUnheld IsUnheld (is_owned task_id runner_id) _ db.jobs
          (λ j o h. ground (arith, h)) p.unheld;
  }

  not_own :
      (task_id : String) (task : TaskRow) (db : Db)
      → (get_task task_id db).0 ≡ returned task
      → holds_text task.runner_id runner_id ≡ true
      → P db
      → has_id task_id t ≡ false
  unfolding get_task found_task
  not_own task_id task db e h p = elim (Bool-cases (str_eq t.id task_id)) [
    | inr n ↦ n
    | inl y ↦
        let found = find_where-Unique (λ (x : TaskRow). x.id) db.tasks t p.distinct p.present in
        let own : returned t ≡ returned task =
          sym (ap (found_task task_id) found) ∙ rw (str_eq→eq t.id task_id y) e in
        absurd (ground (arith, foreign, h, ap (λ (o : Outcome TaskRow). o) own))
  ]

  updated :
      (task_id : String) (f : TaskRow → TaskRow) (db : Db)
      → ((x : TaskRow) → (f x).id ≡ x.id)
      → has_id task_id t ≡ false
      → P db
      → P (record db { tasks = update_where (has_id task_id) f db.tasks })
  updated task_id f db k n p = record {
    distinct = Unique-update_where (λ (x : TaskRow). x.id) (has_id task_id) f db.tasks k p.distinct;
    present =
        subst
          (λ (b : Bool). Occurs (if b then f t else t) (update_where (has_id task_id) f db.tasks)) n
          (update_where-Occurs (has_id task_id) f db.tasks t p.present);
    unheld = p.unheld;
  }

  written :
      (task_id : String) (fields : TaskFields) (task : TaskRow) (db : Db)
      → (get_task task_id db).0 ≡ returned task
      → holds_text task.runner_id runner_id ≡ true
      → P db
      → P (update_task task_id fields env.now db).1
  unfolding update_task write_fields get_task
  written task_id fields task db e h p =
      elim (Bool-cases (count_where (has_id task_id) db.tasks == 0)) [
        | inl z ↦ rw z p
        | inr z ↦ rw z (
            updated task_id (apply_fields fields env.now) db (λ x. refl)
              (not_own task_id task db e h p) p)
      ]

  unowned :
      (task_id : String) (row : JobRow) (db : Db)
      → Occurs row db.jobs
      → is_owned task_id runner_id row ≡ true
      → P db
      → has_id task_id t ≡ false
  unowned task_id row db o h p = elim (Bool-cases (str_eq t.id task_id)) [
    | inr n ↦ n
    | inl y ↦
        let free = All-Occurs IsUnheld db.jobs row p.unheld o in
        absurd (
          ground (
            arith,
            h,
            subst (λ x. is_owned x runner_id row ≡ false) (str_eq→eq t.id task_id y) free,
          ))
  ]

  failing :
      (retry : Bool) (delay : ℕ) (task_id error message : String) (db : Db)
      → has_id task_id t ≡ false
      → P db
      → P (record db {
        jobs = update_where (of_task task_id) (failed_job retry delay error env.now) db.jobs;
        tasks =
            if retry
            then update_where
                (has_id task_id)
                (λ x. record x { status = queued; error = some message; updated_at = env.now })
                db.tasks
            else db.tasks;
      })
  failing true delay task_id error message db n p =
      let q =
        updated task_id
          (λ x. record x { status = queued; error = some message; updated_at = env.now }) db
          (λ x. refl) n p in
      record {
        distinct = q.distinct;
        present = q.present;
        unheld =
            All-update_where IsUnheld IsUnheld (of_task task_id) _ db.jobs
              (λ j o h. ground (arith, h)) p.unheld;
      }
  failing false delay task_id error message db n p = record {
    distinct = p.distinct;
    present = p.present;
    unheld =
        All-update_where IsUnheld IsUnheld (of_task task_id) _ db.jobs (λ j o h. ground (arith, h))
          p.unheld;
  }

  failed_row :
      (o : Option JobRow) (task_id error : String) (base : ℕ) (db : Db)
      → find_where (is_owned task_id runner_id) db.jobs ≡ o
      → P db
      → P (fail_row o task_id error base env.now db).1
  unfolding fail_row
  failed_row none task_id error base db e p = p
  failed_row (some row) task_id error base db e p =
      let (o, h) = Occurs-find_where (is_owned task_id runner_id) db.jobs row e in
      failing (ltb row.attempts row.max_attempts) (retry_delay base row.attempts) task_id error
        (retry_message (retry_delay base row.attempts) error) db (unowned task_id row db o h p) p

  failed_again :
      (task_id error : String) (base : ℕ) (db : Db)
      → P db
      → P (fail_job task_id runner_id error base env.now db).1
  unfolding fail_job
  failed_again task_id error base db p =
      failed_row (find_where (is_owned task_id runner_id) db.jobs) task_id error base db refl p

  P-IsKept : IsKept env runner_id P
  P-IsKept = record {
    touched = λ status metrics db p.
        let (e, f, g) = touched runner_id status metrics env.now db in same db _ e f p;
    capable = λ names db p. let (e, f, g) = capable runner_id names env.now db in same db _ e f p;
    renewed = λ task_id db p. renewed task_id env.settings.job_lease_seconds db p;
    written = written;
    noted = λ task_id message stage level payload db p.
        let (e, f, g) = noted task_id message stage level payload env.now db in same db _ e f p;
    stored = λ task_id kind content db p.
        let (e, f, g) = stored task_id kind content env.now db in same db _ e f p;
    requested = λ id task_id operation reason db p.
        let (e, f, g) = requested id task_id runner_id operation reason env.now db in
        same db _ e f p;
    completed = completed;
    failed_again =
        λ task_id error db p. failed_again task_id error env.settings.job_retry_base_seconds db p;
    recorded = λ e d db p. let (x, f) = recorded e d db in same db _ x f p;
  }

  -- Whatever message arrives in the session of a runner, a task that is assigned to no runner or to
  -- another, and of which the runner holds no job, keeps its row as it is, and the runner gets no
  -- job of it.
  pub handle-IsForeign :
      (e : MessageEnvelope) (s : GatewaySession)
      → s.runner_id ≡ some runner_id
      → runner_id ≢ ""
      → IsForeign runner_id t s.db
      → IsForeign runner_id t (handle env e s).1.db
  handle-IsForeign e s c ne p =
      handle-Keeps env runner_id P P-IsKept e s (given_text-some s.runner_id runner_id ne c) p
