-- ===== src/Storage/Jobs/Invariant.antt =====
-- What holds of the table of jobs between two calls.
use automated_workflow.Prelude.{
  ℕ, String, Bool, true, false, Option, none, some, List, [], ◌∷◌, ◌≡◌, refl, arith, str_eq,
}
use automated_workflow.Prelude.Tests.{is_none}
use automated_workflow.Prelude.Table.{All, update_where, any_where, insert_row}
use automated_workflow.Prelude.Rows.{
  All-update_where, All-insert_row, Unique, Unique-update_where, Unique-insert_row,
}
use automated_workflow.Models.{is_leased}
use automated_workflow.Schema.{Db, JobRow}
use automated_workflow.Storage.Jobs.{
  of_task, is_held, insert_job, enqueue_job, requeue, requeue_rows, recover_expired_jobs, claim,
  lease_job, renewed_job, commit_lease, renew_job, checkpoint_job, complete_job, fail_row, fail_job,
  cancel_job, new_job,
}
use automated_workflow.Storage.Jobs.Calls.{
  JobCall, enqueues, recovers, leases, renews, checkpoints, completes, fails, cancels, step, run,
  IsAllowed,
}

-- A leased job has an owner and an end of its lease, and no other job has.
pub record IsSound (j : JobRow) : Type 0 where
  pub held :
      is_leased j.status ≡ true
      → (is_none j.lease_owner ≡ false) × (is_none j.lease_expires_at ≡ false)
  pub free :
      is_leased j.status ≡ false
      → (is_none j.lease_owner ≡ true) × (is_none j.lease_expires_at ≡ true)

-- One job for each task, and distinct identifiers.
pub record IsQueue (jobs : List JobRow) : Type 0 where
  pub sound : All IsSound jobs
  pub by_task : Unique (λ j. j.task_id) jobs
  pub by_id : Unique (λ j. j.id) jobs

-- An UPDATE that keeps the keys and leaves sound rows keeps the queue.
update-IsQueue :
    (p : JobRow → Bool) (f : JobRow → JobRow) (jobs : List JobRow)
    → ((j : JobRow) → p j ≡ true → IsSound j → IsSound (f j))
    → ((j : JobRow) → (f j).task_id ≡ j.task_id)
    → ((j : JobRow) → (f j).id ≡ j.id)
    → IsQueue jobs
    → IsQueue (update_where p f jobs)
update-IsQueue p f jobs s t i q = record {
  sound = All-update_where IsSound IsSound p f jobs (λ j _ h. ground (arith, s j)) q.sound;
  by_task = Unique-update_where (λ j. j.task_id) p f jobs t q.by_task;
  by_id = Unique-update_where (λ j. j.id) p f jobs i q.by_id;
}

insert-IsQueue :
    (j : JobRow) (jobs : List JobRow)
    → IsSound j
    → any_where (of_task j.task_id) jobs ≡ false
    → any_where (λ x. str_eq x.id j.id) jobs ≡ false
    → IsQueue jobs
    → IsQueue (insert_row j jobs)
insert-IsQueue j jobs s t i q = record {
  sound = All-insert_row IsSound j jobs s q.sound;
  by_task = Unique-insert_row (λ x. x.task_id) j jobs q.by_task t;
  by_id = Unique-insert_row (λ x. x.id) j jobs q.by_id i;
}

insert_job-IsQueue :
    (job_id task_id target : String) (max_attempts now : ℕ) (db : Db)
    → IsQueue db.jobs
    → IsQueue (insert_job job_id task_id target max_attempts now db).1.jobs
unfolding insert_job
insert_job-IsQueue job_id task_id target max_attempts now db q = ground (
  arith,
  update-IsQueue (of_task task_id) (renewed_job target max_attempts now) db.jobs
      (λ j _ h. ground arith) (λ j. refl) (λ j. refl) q,
  insert-IsQueue (new_job job_id task_id target max_attempts now) db.jobs (ground arith),
)

enqueue-IsQueue :
    (job_id task_id target : String) (max_attempts now : ℕ) (db : Db)
    → IsQueue db.jobs
    → IsQueue (enqueue_job job_id task_id target max_attempts now db).1.jobs
unfolding enqueue_job
enqueue-IsQueue job_id task_id target max_attempts now db q =
    ground (arith, insert_job-IsQueue job_id task_id target max_attempts now db q)

requeue_rows-IsQueue :
    (rows : List JobRow) (now : ℕ) (db : Db)
    → IsQueue db.jobs
    → IsQueue (requeue_rows rows now db).jobs
unfolding requeue
requeue_rows-IsQueue [] now db q = q
requeue_rows-IsQueue (r ∷ rs) now db q =
    update-IsQueue _ _ db.jobs (λ j _ h. ground arith) (λ j. refl) (λ j. refl) q

pub recover-IsQueue :
    (target : Option String) (now : ℕ) (db : Db)
    → IsQueue db.jobs
    → IsQueue (recover_expired_jobs target now db).1.jobs
unfolding recover_expired_jobs
recover-IsQueue target now db = requeue_rows-IsQueue _ now db

commit-IsQueue :
    (db db' : Db) (row : Option JobRow)
    → IsQueue db.jobs
    → IsQueue db'.jobs
    → IsQueue (commit_lease db db' row).1.jobs
commit-IsQueue db db' none q q' = q
commit-IsQueue db db' (some row) q q' = q'

claim-IsQueue :
    (db db' : Db) (row : Option JobRow) (owner : String) (expires_at now : ℕ)
    → IsQueue db.jobs
    → IsQueue db'.jobs
    → IsQueue (claim db db' row owner expires_at now).1.jobs
claim-IsQueue db db' none owner expires_at now q q' = q'
claim-IsQueue db db' (some row) owner expires_at now q q' =
    commit-IsQueue db _ _ q
      (update-IsQueue _ _ db'.jobs (λ j _ h. ground arith) (λ j. refl) (λ j. refl) q')

pub lease-IsQueue :
    (target owner : String) (lease_seconds now : ℕ) (db : Db)
    → IsQueue db.jobs
    → IsQueue (lease_job target owner lease_seconds now db).1.jobs
unfolding lease_job
lease-IsQueue target owner lease_seconds now db q =
    claim-IsQueue db _ _ owner _ now q (recover-IsQueue (some target) now db q)

fail_row-IsQueue :
    (row : Option JobRow) (task_id error : String) (base now : ℕ) (db : Db)
    → IsQueue db.jobs
    → IsQueue (fail_row row task_id error base now db).1.jobs
unfolding fail_row
fail_row-IsQueue none task_id error base now db q = q
fail_row-IsQueue (some row) task_id error base now db q =
    update-IsQueue _ _ db.jobs (λ j _ h. ground arith) (λ j. refl) (λ j. refl) q

-- Every call on the queue, whether it succeeds or raises, keeps one job for each task, distinct job
-- identifiers, and an owner and an end of the lease exactly on the leased jobs.
pub step-IsQueue :
    (c : JobCall) (now : ℕ) (db : Db) → IsAllowed c → IsQueue db.jobs → IsQueue (step c now db).jobs
unfolding step renew_job checkpoint_job complete_job fail_job cancel_job
step-IsQueue (enqueues job_id task_id target max_attempts) now db a q =
    enqueue-IsQueue job_id task_id target max_attempts now db q
step-IsQueue (recovers target) now db a q = recover-IsQueue target now db q
step-IsQueue (leases target owner lease_seconds) now db a q =
    lease-IsQueue target owner lease_seconds now db q
step-IsQueue (renews task_id owner lease_seconds) now db a q =
    update-IsQueue (is_held task_id owner) _ db.jobs (λ j p h. ground arith) (λ j. refl) (λ j. refl)
      q
step-IsQueue (checkpoints task_id stage) now db a q =
    update-IsQueue _ _ db.jobs (λ j _ h. ground arith) (λ j. refl) (λ j. refl) q
step-IsQueue (completes task_id owner status) now db a q =
    update-IsQueue _ _ db.jobs (λ j _ h. ground arith) (λ j. refl) (λ j. refl) q
step-IsQueue (fails task_id owner error base) now db a q =
    fail_row-IsQueue _ task_id error base now db q
step-IsQueue (cancels task_id) now db a q =
    update-IsQueue _ _ db.jobs (λ j _ h. ground arith) (λ j. refl) (λ j. refl) q

-- Any history of calls, of which none completes a job with the status of a leased one, keeps the
-- invariant of the queue, whether the calls succeed or raise: one job for each task, distinct
-- job identifiers, and an owner and an end of the lease exactly on the leased jobs.
pub run-IsQueue :
    (cs : List (ℕ × JobCall)) (db : Db)
    → All (λ c. IsAllowed c.1) cs
    → IsQueue db.jobs
    → IsQueue (run cs db).jobs
unfolding run
run-IsQueue [] db a q = q
run-IsQueue ((now, c) ∷ cs) db a q =
    run-IsQueue cs (step c now db) a.1 (step-IsQueue c now db a.0 q)
