-- ===== src/Storage/Jobs/Held.antt =====
-- A job that is leased, and what the calls of others do to it.
use automated_workflow.Prelude.{
  ℕ, ◌+◌, ◌<◌, String, Bool, true, false, ◌&&◌, Option, none, some, List, [], ◌∷◌, ◌≡◌, ◌≢◌, refl,
  sym, ◌⊎◌, inl, inr, ◌∙◌, ap, arith, str_eq,
}
use automated_workflow.Prelude.Tests.{Option-cases, Bool-cases, str_eq→eq, ne→str_eq, if◌then◌else◌}
use automated_workflow.Prelude.Table.{All, update_where, find_where, any_where}
use automated_workflow.Prelude.Rows.{
  Occurs, All-update_where, All-insert_row, All-Occurs, not-member-map, Occurs-select_where, Unique,
  Unique-eq, Occurs-find_where,
}
use automated_workflow.Models.{JobStatus, is_leased}
use automated_workflow.Schema.{Db, JobRow}
use automated_workflow.Storage.Tasks.{has_id}
use automated_workflow.Storage.Jobs.{
  is_owned, of_task, lease_job, recover_expired_jobs, requeue, requeue_rows, next_due, is_expired,
  leased_to, seconds, has_target, enqueue_job, insert_job, new_job, renew_job, checkpoint_job,
  complete_job, fail_row, fail_job, cancel_job, renewed_job,
}
use automated_workflow.Storage.Jobs.Calls.{
  JobCall, enqueues, recovers, leases, renews, checkpoints, completes, fails, cancels, step,
}
use automated_workflow.Storage.Jobs.Invariant.{IsQueue, recover-IsQueue}
use automated_workflow.Storage.Jobs.Lease.{
  IsNext, next_due-IsNext, lease-idle, lease-granted, recovered,
}

-- The job of the task is leased to the owner until the given time.
pub record IsHeldRow (owner : String) (until : ℕ) (j : JobRow) : Type 0 where
  pub leased : j.status ≡ JobStatus.leased
  pub owned : j.lease_owner ≡ some owner
  pub ends : j.lease_expires_at ≡ some until

abbrev pub IsHeld : String → String → ℕ → List JobRow → Type 0
IsHeld task_id owner until jobs = All (λ j. j.task_id ≡ task_id → IsHeldRow owner until j) jobs

-- The calls that others make: they do not queue the task anew, and do not act on it in the owner's name.
abbrev pub IsForeign : String → String → JobCall → Type 0
IsForeign t o (enqueues job_id task_id target max_attempts) = task_id ≢ t
IsForeign t o (renews task_id owner lease_seconds) = (task_id ≢ t) ⊎ (owner ≢ o)
IsForeign t o (completes task_id owner status) =
    ((task_id ≢ t) ⊎ (owner ≢ o)) × (is_leased status ≡ false)
IsForeign t o (fails task_id owner error base) = (task_id ≢ t) ⊎ (owner ≢ o)
IsForeign t o _ = Unit

-- The second transaction of `enqueue_job` only reads.
jobs-enqueue :
    (job_id task_id target : String) (max_attempts now : ℕ) (db : Db)
    → (enqueue_job job_id task_id target max_attempts now db).1.jobs
      ≡ (insert_job job_id task_id target max_attempts now db).1.jobs
unfolding enqueue_job
jobs-enqueue job_id task_id target max_attempts now db = ground arith

module _ (t o : String) (until : ℕ) where
  updated_row :
      (b : Bool) (j k : JobRow)
      → k.task_id ≡ j.task_id
      → (j.task_id ≡ t → IsHeldRow o until j)
      → (j.task_id ≡ t → IsHeldRow o until j → (b ≡ false) ⊎ IsHeldRow o until k)
      → (if b then k else j).task_id ≡ t
      → IsHeldRow o until (if b then k else j)
  updated_row true j k same held h e = elim (h (sym same ∙ e) (held (sym same ∙ e))) [
    | inl c ↦ cc
    | inr kept ↦ kept
  ]
  updated_row false j k same held h e = held e

  -- An UPDATE that misses the row, or keeps the lease in it, keeps the lease.
  update-IsHeld :
      (p : JobRow → Bool) (f : JobRow → JobRow) (jobs : List JobRow)
      → ((j : JobRow) → (f j).task_id ≡ j.task_id)
      → ((j : JobRow)
          → Occurs j jobs
          → j.task_id ≡ t
          → IsHeldRow o until j
          → (p j ≡ false) ⊎ IsHeldRow o until (f j))
      → IsHeld t o until jobs
      → IsHeld t o until (update_where p f jobs)
  update-IsHeld p f jobs same h held =
      All-update_where _ (λ j. j.task_id ≡ t → IsHeldRow o until j) p f jobs
        (λ j m keep. updated_row (p j) j (f j) (same j) keep (h j m)) held

  module _ (now : ℕ) (running : now < until) where
    not_expired : (j : JobRow) → IsHeldRow o until j → is_expired now j ≡ false
    not_expired j h = ground arith

    -- The identifiers of expired jobs do not name the task.
    requeue_rows-IsHeld :
        (target : Option String) (db : Db) (rows : List JobRow)
        → ((r : JobRow) → Occurs r rows → Occurs r db.jobs × (is_expired now r ≡ true))
        → IsHeld t o until db.jobs
        → IsHeld t o until (requeue_rows rows now db).jobs
    unfolding requeue
    requeue_rows-IsHeld target db [] f held = held
    requeue_rows-IsHeld target db (r ∷ rs) f held =
        update-IsHeld _ _ db.jobs (λ j. refl)
          (λ j m e h. inl (
            rw e (
              not-member-map (λ (x : JobRow). x.task_id) t (r ∷ rs)
                (λ x mx ex.
                  ground
                    (arith, f x mx, not_expired x (All-Occurs _ db.jobs x held (f x mx).0 ex))))))
          held

    recover-IsHeld :
        (target : Option String) (db : Db)
        → IsHeld t o until db.jobs
        → IsHeld t o until (recover_expired_jobs target now db).1.jobs
    unfolding recover_expired_jobs
    recover-IsHeld target db held =
        requeue_rows-IsHeld target db _
          (λ r m.
            let s =
              Occurs-select_where (λ j. is_expired now j && has_target target j) db.jobs r m in
            (s.0, ground arith))
          held

    -- What is claimed was pending, so it is another job.
    claim-IsHeld :
        (target owner : String) (expires_at : ℕ) (jobs : List JobRow) (row : JobRow)
        → Unique (λ (j : JobRow). j.id) jobs
        → IsNext target now jobs row
        → IsHeld t o until jobs
        → IsHeld t o until
            (update_where (λ j. str_eq j.id row.id) (leased_to owner expires_at now) jobs)
    claim-IsHeld target owner expires_at jobs row u n held =
        update-IsHeld _ _ jobs (λ j. refl)
          (λ j m e h. inl (
            ne→str_eq j.id row.id (λ same.
              let eq = Unique-eq (λ (x : JobRow). x.id) jobs j row u m n.occurs same in
              ground (arith, n.due, h.leased, ap (λ (x : JobRow). x.status) eq))))
          held

    lease-IsHeld :
        (target owner : String) (lease_seconds : ℕ) (db : Db)
        → IsQueue db.jobs
        → IsHeld t o until db.jobs
        → IsHeld t o until (lease_job target owner lease_seconds now db).1.jobs
    lease-IsHeld target owner lease_seconds db q held =
        let kept = recover-IsHeld (some target) db held in
        elim (Option-cases (next_due target now (recovered target now db).jobs)) [
          | inl e ↦ rw (lease-idle target owner lease_seconds now db e) kept
          | inr (row, e) ↦ rw (lease-granted target owner lease_seconds now db row q e) (
              claim-IsHeld target owner (now + seconds lease_seconds) (recovered target now db).jobs
                row (recover-IsQueue (some target) now db q).by_id
                (next_due-IsNext target now (recovered target now db).jobs row e) kept)
        ]

    insert_job-IsHeld :
        (job_id task_id target : String) (max_attempts : ℕ) (db : Db)
        → task_id ≢ t
        → IsHeld t o until db.jobs
        → IsHeld t o until (insert_job job_id task_id target max_attempts now db).1.jobs
    unfolding insert_job
    insert_job-IsHeld job_id task_id target max_attempts db ne held =
        elim (Bool-cases (any_where (has_id task_id) db.tasks)) [
          | inr absent ↦ rw absent held
          | inl present ↦ elim (Bool-cases (any_where (of_task task_id) db.jobs)) [
            | inl queued ↦
                rw (present, queued)
                  (update-IsHeld (of_task task_id) (renewed_job target max_attempts now) db.jobs
                    (λ j. refl) (λ j m e h. inl (ne→str_eq j.task_id task_id (λ x. ne (sym x ∙ e))))
                    held)
            | inr fresh ↦ elim (Bool-cases (any_where (λ j. str_eq j.id job_id) db.jobs)) [
              | inl taken ↦ rw (present, fresh, taken) held
              | inr free ↦
                  rw (present, fresh, free)
                    (All-insert_row (λ j. j.task_id ≡ t → IsHeldRow o until j)
                      (new_job job_id task_id target max_attempts now) db.jobs (λ e. absurd (ne e))
                      held)
            ]
          ]
        ]

    enqueue-IsHeld :
        (job_id task_id target : String) (max_attempts : ℕ) (db : Db)
        → task_id ≢ t
        → IsHeld t o until db.jobs
        → IsHeld t o until (enqueue_job job_id task_id target max_attempts now db).1.jobs
    enqueue-IsHeld job_id task_id target max_attempts db ne held =
        rw (jobs-enqueue job_id task_id target max_attempts now db)
          (insert_job-IsHeld job_id task_id target max_attempts db ne held)

    -- A statement in the name of another owner, or about another task, misses the row.
    missed :
        (task_id owner : String) (j : JobRow)
        → (task_id ≢ t) ⊎ (owner ≢ o)
        → j.task_id ≡ t
        → IsHeldRow o until j
        → is_owned task_id owner j ≡ false
    missed task_id owner j (inl ne) e h =
        ground (arith, ne→str_eq j.task_id task_id (λ x. ne (sym x ∙ e)))
    missed task_id owner j (inr ne) e h =
        ground (arith, h.owned, ne→str_eq o owner (λ x. ne (sym x)))

    fail_row-IsHeld :
        (row : Option JobRow) (task_id owner error : String) (base : ℕ) (db : Db)
        → find_where (is_owned task_id owner) db.jobs ≡ row
        → (task_id ≢ t) ⊎ (owner ≢ o)
        → IsHeld t o until db.jobs
        → IsHeld t o until (fail_row row task_id error base now db).1.jobs
    unfolding fail_row
    fail_row-IsHeld none task_id owner error base db e f held = held
    fail_row-IsHeld (some row) task_id owner error base db e f held =
        update-IsHeld (of_task task_id) _ db.jobs (λ j. refl)
          (λ j m same h. elim (Bool-cases (of_task task_id j)) [
            | inr miss ↦ inl miss
            | inl hit ↦
                let (c, own) = Occurs-find_where (is_owned task_id owner) db.jobs row e in
                let named = sym (str_eq→eq j.task_id task_id hit) ∙ same in
                let at_task : row.task_id ≡ t =
                  str_eq→eq row.task_id task_id (ground (arith, own)) ∙ named in
                absurd (
                  cc (
                    missed task_id owner row f at_task (All-Occurs _ db.jobs row held c at_task),
                    own,
                  ))
          ])
          held

    -- A call that others make while the lease runs keeps it.
    pub step-IsHeld :
        (c : JobCall) (db : Db)
        → IsForeign t o c
        → IsQueue db.jobs
        → IsHeld t o until db.jobs
        → IsHeld t o until (step c now db).jobs
    unfolding step renew_job checkpoint_job complete_job fail_job cancel_job
    step-IsHeld (enqueues job_id task_id target max_attempts) db f q held =
        enqueue-IsHeld job_id task_id target max_attempts db f held
    step-IsHeld (recovers target) db f q held = recover-IsHeld target db held
    step-IsHeld (leases target owner lease_seconds) db f q held =
        lease-IsHeld target owner lease_seconds db q held
    step-IsHeld (renews task_id owner lease_seconds) db f q held =
        update-IsHeld _ _ db.jobs (λ j. refl)
          (λ j m e h. inl (ground (arith, missed task_id owner j f e h))) held
    step-IsHeld (checkpoints task_id stage) db f q held =
        update-IsHeld (of_task task_id) _ db.jobs (λ j. refl)
          (λ j m e h. inr (record { leased = h.leased; owned = h.owned; ends = h.ends })) held
    step-IsHeld (completes task_id owner status) db f q held =
        update-IsHeld _ _ db.jobs (λ j. refl) (λ j m e h. inl (missed task_id owner j f.0 e h)) held
    step-IsHeld (fails task_id owner error base) db f q held =
        fail_row-IsHeld _ task_id owner error base db refl f held
    step-IsHeld (cancels task_id) db f q held =
        update-IsHeld _ _ db.jobs (λ j. refl) (λ j m e h. inl (ground (arith, h.leased))) held
