-- ===== src/Storage/Jobs/Exclusive.antt =====
-- While a lease runs, nobody else gets its job.
use automated_workflow.Prelude.{
  ℕ, ◌+◌, ◌<◌, String, Option, some, List, [], ◌∷◌, ◌≡◌, ◌≢◌, subst, sym, ◌∙◌, arith,
}
use automated_workflow.Prelude.Outcome.{Outcome, returned}
use automated_workflow.Prelude.Table.{All}
use automated_workflow.Prelude.Rows.{All-Occurs, All-of_Occurs, Unique-eq}
use automated_workflow.Schema.{Db, JobRow}
use automated_workflow.Storage.Jobs.{lease_job, seconds}
use automated_workflow.Storage.Jobs.Calls.{JobCall, completes, step, run, IsAllowed}
use automated_workflow.Storage.Jobs.Invariant.{IsQueue, lease-IsQueue, step-IsQueue}
use automated_workflow.Storage.Jobs.Lease.{IsGrant, lease_job-IsGrant}
use automated_workflow.Storage.Jobs.Held.{IsHeldRow, IsHeld, IsForeign, step-IsHeld}

grant-IsHeld :
    (target owner : String) (lease_seconds now : ℕ) (db db1 : Db) (j : JobRow)
    → IsGrant target owner lease_seconds now db db1 j
    → IsQueue db1.jobs
    → IsHeld j.task_id owner (now + seconds lease_seconds) db1.jobs
grant-IsHeld target owner lease_seconds now db db1 j g q = All-of_Occurs _ db1.jobs λ k m e.
    subst (IsHeldRow owner (now + seconds lease_seconds))
      (Unique-eq (λ (x : JobRow). x.task_id) db1.jobs j k q.by_task g.stored m (sym e))
      (record { leased = g.held.0; owned = g.held.1; ends = g.held.2 })

foreign-IsAllowed : (t o : String) (c : JobCall) → IsForeign t o c → IsAllowed c
foreign-IsAllowed t o (completes task_id owner status) f = f.1
foreign-IsAllowed t o _ f = tt

-- A history of calls that others make before the lease ends keeps it.
run-IsHeld :
    (t o : String) (until : ℕ) (cs : List (ℕ × JobCall)) (db : Db)
    → All (λ c. (c.0 < until) × IsForeign t o c.1) cs
    → IsQueue db.jobs
    → IsHeld t o until db.jobs
    → IsQueue (run cs db).jobs × IsHeld t o until (run cs db).jobs
unfolding run
run-IsHeld t o until [] db f q held = (q, held)
run-IsHeld t o until ((now, c) ∷ cs) db f q held =
    run-IsHeld t o until cs (step c now db) f.1
      (step-IsQueue c now db (foreign-IsAllowed t o c f.0.1) q)
      (step-IsHeld t o until now f.0.0 c db f.0.1 q held)

-- No job of the queue that a lease hands out is held by somebody.
not-IsHeld-grant :
    (t o : String) (until : ℕ) (target owner : String) (lease_seconds now : ℕ) (db db1 : Db)
    (j : JobRow)
    → now < until
    → IsHeld t o until db.jobs
    → IsGrant target owner lease_seconds now db db1 j
    → j.task_id ≢ t
not-IsHeld-grant t o until target owner lease_seconds now db db1 j running held g e =
    let h =
      All-Occurs (λ (j : JobRow). j.task_id ≡ t → IsHeldRow o until j) db.jobs g.row held g.occurred
        (sym g.same_job.1 ∙ e) in
    ground (arith, g.free, h.leased, h.ends)

-- Mutual exclusion. From a queue that keeps its invariant, let one call lease a job for a number of
-- seconds. Then let any calls follow, all before the end of that lease, of which none queues that task anew
-- and none renews, completes or fails it in the name of the same owner. A call of `lease_job` then,
-- still before that end, for any target and any owner, does not return the job of that task.
pub lease_exclusive :
    (target owner : String) (lease_seconds now : ℕ) (db db1 : Db) (j : JobRow)
    (cs : List (ℕ × JobCall)) (target' owner' : String) (lease_seconds' now' : ℕ) (db2 : Db)
    (k : JobRow)
    → IsQueue db.jobs
    → lease_job target owner lease_seconds now db ≡ (returned (some j), db1)
    → All (λ c. (c.0 < now + seconds lease_seconds) × IsForeign j.task_id owner c.1) cs
    → now' < now + seconds lease_seconds
    → lease_job target' owner' lease_seconds' now' (run cs db1) ≡ (returned (some k), db2)
    → k.task_id ≢ j.task_id
lease_exclusive target owner lease_seconds now db db1 j cs target' owner' lease_seconds' now' db2 k
      q first_lease f running second_lease =
    let g = lease_job-IsGrant target owner lease_seconds now db db1 j q first_lease in
    let q1 =
      subst (λ (r : Outcome (Option JobRow) × Db). IsQueue r.1.jobs) first_lease
        (lease-IsQueue target owner lease_seconds now db q) in
    let (q2, held) =
      run-IsHeld j.task_id owner (now + seconds lease_seconds) cs db1 f q1
        (grant-IsHeld target owner lease_seconds now db db1 j g q1) in
    not-IsHeld-grant j.task_id owner (now + seconds lease_seconds) target' owner' lease_seconds'
      now' (run cs db1) db2 k running held
      (lease_job-IsGrant target' owner' lease_seconds' now' (run cs db1) db2 k q2 second_lease)
