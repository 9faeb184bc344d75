-- ===== src/Storage/Cleanup/Kept.antt =====
-- What a cleanup keeps, whatever its cutoffs.
use automated_workflow.Prelude.{
  ℕ, String, Bool, false, ◌≡◌, ◌≢◌, ◌⊎◌, inl, inr, refl, arith, List, [], ◌∷◌, str_eq,
}
use automated_workflow.Prelude.Tests.{Bool-cases, str_eq→eq}
use automated_workflow.Prelude.Table.{delete_where, any_where}
use automated_workflow.Prelude.Rows.{Occurs, Unique, Unique-eq}
use automated_workflow.Models.{TaskStatus, waiting_approval, JobStatus, is_finished}
use automated_workflow.Schema.{Db, TaskRow, JobRow, ArtifactRow, EventRow}
use automated_workflow.Storage.Cleanup.{
  is_terminal, in_terminal_task, is_disposable, is_stale_artifact, is_stale_event, is_stale_job,
  cleanup_expired_data,
}

delete_where-Occurs :
    {A : Type 0} (p : A → Bool) (xs : List A) (a : A)
    → Occurs a xs
    → p a ≡ false
    → Occurs a (delete_where p xs)
unfolding delete_where
delete_where-Occurs p [] a o h = absurd o
delete_where-Occurs p (x ∷ xs) a (inl e) h = ground arith
delete_where-Occurs p (x ∷ xs) a (inr o) h = ground (arith, delete_where-Occurs p xs a o h)

any_where-false :
    {A : Type 0} (p : A → Bool) (xs : List A)
    → ((x : A) → Occurs x xs → p x ≡ false)
    → any_where p xs ≡ false
unfolding any_where
any_where-false p [] h = refl
any_where-false p (x ∷ xs) h =
    ground (arith, h x (inl refl), any_where-false p xs (λ y o. h y (inr o)))

-- Where the identifiers of tasks are distinct, a task that has not ended is in no list of ended ones.
live_task :
    (t : TaskRow) (tasks : List TaskRow)
    → Unique (λ x. x.id) tasks
    → Occurs t tasks
    → is_terminal t.status ≡ false
    → in_terminal_task tasks t.id ≡ false
live_task t tasks u o h = any_where-false _ tasks (λ x ox. elim (Bool-cases (str_eq x.id t.id)) [
  | inl e ↦
      rw (Unique-eq (λ (y : TaskRow). y.id) tasks x t u ox o (str_eq→eq x.id t.id e), h)
        (ground arith)
  | inr n ↦ rw n refl
])

-- A task that has not ended and does not wait for approval.
abbrev pub IsUnderWay : TaskStatus → Type 0
IsUnderWay s =
    (s ≢ TaskStatus.completed)
    × (s ≢ TaskStatus.cancelled)
    × (s ≢ TaskStatus.failed)
    × (s ≢ waiting_approval)

under_way_lem : (s : TaskStatus) → IsUnderWay s → is_terminal s ≡ false
under_way_lem TaskStatus.completed h = absurd (h.0 refl)
under_way_lem TaskStatus.cancelled h = absurd (h.1 refl)
under_way_lem TaskStatus.failed h = absurd (h.2 refl)
under_way_lem waiting_approval h = absurd (h.3 refl)
under_way_lem _ h = refl

-- A job that is still to be done.
abbrev pub IsOpenJob : JobStatus → Type 0
IsOpenJob s = (s ≡ JobStatus.pending) ⊎ (s ≡ JobStatus.leased)

open_job_lem : (s : JobStatus) → IsOpenJob s → is_finished s ≡ false
open_job_lem s (inl e) = rw e refl
open_job_lem s (inr e) = rw e refl

-- An artifact that is kept for good.
abbrev pub IsRecord : String → Type 0
IsRecord kind = (kind ≡ "delivery") ⊎ ((kind ≡ "commit") ⊎ (kind ≡ "mr_description"))

record_lem : (kind : String) → IsRecord kind → is_disposable kind ≡ false
record_lem kind (inl e) = rw e refl
record_lem kind (inr (inl e)) = rw e refl
record_lem kind (inr (inr e)) = rw e refl

-- A cleanup keeps, whatever its cutoffs and with distinct identifiers of tasks: a job that is pending
-- or leased; an artifact and an event of a task that is neither completed, cancelled nor failed and
-- does not wait for approval; and of any task a delivery, a commit or the description of a merge
-- request.
pub cleanup_kept :
    (message_cutoff execution_cutoff session_cutoff : ℕ) (db : Db) (j : JobRow) (t : TaskRow)
    (a b : ArtifactRow) (v : EventRow)
    → Unique (λ (x : TaskRow). x.id) db.tasks
    → Occurs j db.jobs
    → IsOpenJob j.status
    → Occurs t db.tasks
    → IsUnderWay t.status
    → Occurs a db.artifacts
    → a.task_id ≡ t.id
    → Occurs v db.events
    → v.task_id ≡ t.id
    → Occurs b db.artifacts
    → IsRecord b.kind
    → let db1 = (cleanup_expired_data message_cutoff execution_cutoff session_cutoff db).1 in
      Occurs j db1.jobs × Occurs a db1.artifacts × Occurs v db1.events × Occurs b db1.artifacts
unfolding cleanup_expired_data
cleanup_kept message_cutoff execution_cutoff session_cutoff db j t a b v u oj hj ot ht oa e ov ev ob
      hb =
    let is_stale = is_stale_artifact db.tasks execution_cutoff in
    let live = live_task t db.tasks u ot (under_way_lem t.status ht) in
    (
      delete_where-Occurs (is_stale_job execution_cutoff) db.jobs j oj
          (ground (arith, open_job_lem j.status hj)),
      delete_where-Occurs is_stale db.artifacts a oa (ground (arith, live, e)),
      delete_where-Occurs (is_stale_event db.tasks execution_cutoff) db.events v ov
          (ground (arith, live, ev)),
      delete_where-Occurs is_stale db.artifacts b ob (ground (arith, record_lem b.kind hb)),
    )
