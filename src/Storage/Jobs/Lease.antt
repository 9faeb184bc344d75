-- ===== src/Storage/Jobs/Lease.antt =====
-- What `lease_job` hands out.
use automated_workflow.Prelude.{
  ℕ, ◌+◌, ◌≤◌, String, true, false, ◌&&◌, Option, none, some, List, [], ◌∷◌, ◌≡◌, refl, subst,
  subst₂, ◌⊎◌, inl, inr, ◌∙◌, ap, arith, str_eq,
}
use automated_workflow.Prelude.Tests.{eq→str_eq, Option-cases, Bool-cases}
use automated_workflow.Prelude.Outcome.{Outcome, returned}
use automated_workflow.Prelude.Table.{update_where, find_where, select_where, member}
use automated_workflow.Prelude.Rows.{
  Occurs, Occurs-select_where, Occurs-order_by, Occurs-first, find_where-update_where,
  find_where-Unique, map_option, order_by_least, All-Occurs, Occurs-update_where,
  update_where-Occurs, order_by-none, select_where-Occurs, member-map, Unique-eq,
}
use automated_workflow.Models.{JobStatus}
use text.Mathlib.TextEquality.{eq_iff}
use automated_workflow.Schema.{Db, JobRow}
use automated_workflow.Storage.Jobs.{
  lease_job, recover_expired_jobs, requeue, requeue_rows, next_due, is_due, is_expired, leased_to,
  claim, task_ids_of, has_target, requeued, seconds,
}
use automated_workflow.Storage.Jobs.Invariant.{IsQueue, recover-IsQueue}

module _ (db db' : Db) (owner : String) (expires_at now : ℕ) (row : JobRow) where
  abbrev pub claimed : Db
  claimed = record db' {
    jobs = update_where (λ j. str_eq j.id row.id) (leased_to owner expires_at now) db'.jobs;
  }

  -- The claimed row is found again: the exception for a lost job is never raised.
  pub claim_lem :
      IsQueue db'.jobs
      → Occurs row db'.jobs
      → claim db db' (some row) owner expires_at now
        ≡ (returned (some (leased_to owner expires_at now row)), claimed)
  claim_lem q o =
      let found : find_where (λ j. str_eq j.id row.id) claimed.jobs
          ≡ some (leased_to owner expires_at now row) =
        find_where-update_where (λ j. str_eq j.id row.id) _ db'.jobs (λ j. refl)
        ∙ ap (map_option (leased_to owner expires_at now))
            (find_where-Unique (λ j. j.id) db'.jobs row q.by_id o) in
      rw found

-- The chosen row is due, and no row that is due is older.
pub record IsNext (target : String) (now : ℕ) (jobs : List JobRow) (row : JobRow) : Type 0 where
  pub occurs : Occurs row jobs
  pub due : is_due target now row ≡ true
  pub oldest :
      (j : JobRow) → Occurs j jobs → is_due target now j ≡ true → row.created_at ≤ j.created_at

pub next_due-IsNext :
    (target : String) (now : ℕ) (jobs : List JobRow) (row : JobRow)
    → next_due target now jobs ≡ some row
    → IsNext target now jobs row
unfolding next_due
next_due-IsNext target now jobs row e =
    let chosen = select_where (is_due target now) jobs in
    let o =
      Occurs-select_where (is_due target now) jobs row
        (Occurs-order_by (λ j. j.created_at) chosen row (Occurs-first _ row e)) in
    record {
      occurs = o.0;
      due = o.1;
      oldest = λ j m d.
          All-Occurs (λ (x : JobRow). row.created_at ≤ x.created_at) chosen j
            (order_by_least (λ j. j.created_at) chosen row e)
            (select_where-Occurs (is_due target now) jobs j m d);
    }

-- A row after the recovery of expired leases, and the row that it was: the lease of an expired one
-- is taken away, any other is left alone.
pub data Recovered (now : ℕ) (db : Db) (j : JobRow) : Type 0 where
  kept : (row : JobRow) → Occurs row db.jobs → j ≡ row → Recovered now db j
  taken :
      (row : JobRow)
      → Occurs row db.jobs
      → is_expired now row ≡ true
      → j ≡ requeued now row
      → Recovered now db j

module _ (target : Option String) (now : ℕ) (db : Db) (q : IsQueue db.jobs) where
  abbrev expired_rows : List JobRow
  expired_rows = select_where (λ j. is_expired now j && has_target target j) db.jobs

  -- The updates go by the task, and a task has one job.
  expired_of_member :
      (row : JobRow)
      → Occurs row db.jobs
      → member row.task_id (task_ids_of expired_rows) ≡ true
      → is_expired now row ≡ true
  expired_of_member row o m =
      let (r, mr, e) = member-map (λ (j : JobRow). j.task_id) row.task_id expired_rows m in
      let (c, p) =
        Occurs-select_where (λ j. is_expired now j && has_target target j) db.jobs r mr in
      let same = Unique-eq (λ (j : JobRow). j.task_id) db.jobs r row q.by_task c o e in
      subst (λ x. is_expired now x ≡ true) same (ground arith)

  requeue-Recovered :
      (j : JobRow) → Occurs j (requeue (task_ids_of expired_rows) now db).jobs → Recovered now db j
  unfolding requeue
  requeue-Recovered j o =
      let (row, c, e) =
        Occurs-update_where (λ j. member j.task_id (task_ids_of expired_rows)) (requeued now)
          db.jobs j o in
      elim (Bool-cases (member row.task_id (task_ids_of expired_rows))) [
        | inl m ↦ taken row c (expired_of_member row c m) (rw m at e)
        | inr n ↦ kept row c (rw n at e)
      ]

  pub recover-Recovered :
      (j : JobRow) → Occurs j (recover_expired_jobs target now db).1.jobs → Recovered now db j
  unfolding recover_expired_jobs
  recover-Recovered j = go expired_rows (requeue-Recovered j)
    where
      go :
          (rows : List JobRow)
          → (Occurs j (requeue (task_ids_of rows) now db).jobs → Recovered now db j)
          → Occurs j (requeue_rows rows now db).jobs
          → Recovered now db j
      go [] f o = kept j o refl
      go (r ∷ rs) f o = f o

-- What a granted lease returns: the job as it was in the table, pending and due or with an expired
-- lease, now held by the owner until the lease's end.
pub record IsGrant (target owner : String) (lease_seconds now : ℕ) (db db1 : Db) (j : JobRow)
    : Type 0 where
  pub row : JobRow
  pub occurred : Occurs row db.jobs
  pub free : (is_due target now row ≡ true) ⊎ (is_expired now row ≡ true)
  pub same_job : (j.id ≡ row.id) × (j.task_id ≡ row.task_id)
  pub for_target : j.target ≡ target
  pub counted : j.attempts ≡ row.attempts + 1
  pub held :
      (j.status ≡ JobStatus.leased)
      × (j.lease_owner ≡ some owner)
      × (j.lease_expires_at ≡ some (now + seconds lease_seconds))
  pub stored : Occurs j db1.jobs

abbrev pub recovered : String → ℕ → Db → Db
recovered target now db = (recover_expired_jobs (some target) now db).1

module _ (target owner : String) (lease_seconds now : ℕ) (db : Db) (row : JobRow) where
  abbrev pub granted : JobRow
  granted = leased_to owner (now + seconds lease_seconds) now row

  abbrev pub after_grant : Db
  after_grant = claimed db (recovered target now db) owner (now + seconds lease_seconds) now row

  row-IsGrant :
      (old : JobRow)
      → IsNext target now (recovered target now db).jobs row
      → Occurs old db.jobs
      → (is_due target now old ≡ true) ⊎ (is_expired now old ≡ true)
      → (row.id ≡ old.id) × (row.task_id ≡ old.task_id) × (row.attempts ≡ old.attempts)
      → IsGrant target owner lease_seconds now db after_grant granted
  row-IsGrant old n o f s = record {
    row = old;
    occurred = o;
    free = f;
    same_job = (s.0, s.1);
    for_target = ground (arith, n.due, eq_iff row.target target);
    counted = ap (λ a. a + 1) s.2;
    held = (refl, refl, refl);
    stored = rw (eq→str_eq row.id row.id refl) at (
        update_where-Occurs (λ j. str_eq j.id row.id)
          (leased_to owner (now + seconds lease_seconds) now) (recovered target now db).jobs row
          n.occurs);
  }

  claim-IsGrant :
      IsQueue db.jobs
      → IsNext target now (recovered target now db).jobs row
      → IsGrant target owner lease_seconds now db after_grant granted
  claim-IsGrant q n = elim (recover-Recovered (some target) now db q row n.occurs) [
    | kept old o e ↦
        row-IsGrant old n o (inl (subst (λ x. is_due target now x ≡ true) e n.due)) (ground arith)
    | taken old o x e ↦ row-IsGrant old n o (inr x) (ground arith)
  ]

  pub lease-granted :
      IsQueue db.jobs
      → next_due target now (recovered target now db).jobs ≡ some row
      → lease_job target owner lease_seconds now db ≡ (returned (some granted), after_grant)
  unfolding lease_job
  lease-granted q e = rw e (
      claim_lem db (recovered target now db) owner (now + seconds lease_seconds) now row
        (recover-IsQueue (some target) now db q)
        (next_due-IsNext target now (recovered target now db).jobs row e).occurs)

pub lease-idle :
    (target owner : String) (lease_seconds now : ℕ) (db : Db)
    → next_due target now (recovered target now db).jobs ≡ none
    → lease_job target owner lease_seconds now db ≡ (returned none, recovered target now db)
unfolding lease_job
lease-idle target owner lease_seconds now db e = rw e

-- Of the calls of `lease_job`: either nothing is due, and the call returns no job and leaves the
-- database as the recovery of expired leases did; or it returns a job that `IsGrant` describes, and
-- which is the oldest one due.
pub data LeaseResult (target owner : String) (lease_seconds now : ℕ) (db : Db)
    : Outcome (Option JobRow) × Db → Type 0 where
  idle :
      ((j : JobRow) → Occurs j (recovered target now db).jobs → is_due target now j ≡ false)
      → LeaseResult target owner lease_seconds now db (returned none, recovered target now db)
  grant :
      (j : JobRow) (db1 : Db)
      → IsGrant target owner lease_seconds now db db1 j
      → ((k : JobRow)
          → Occurs k (recovered target now db).jobs
          → is_due target now k ≡ true
          → j.created_at ≤ k.created_at)
      → LeaseResult target owner lease_seconds now db (returned (some j), db1)

none_due :
    (target : String) (now : ℕ) (jobs : List JobRow)
    → next_due target now jobs ≡ none
    → (j : JobRow) → Occurs j jobs
    → is_due target now j ≡ false
unfolding next_due
none_due target now jobs e j o = elim (Bool-cases (is_due target now j)) [
  | inl d ↦
      let m = select_where-Occurs (is_due target now) jobs j o d in
      let empty =
        order_by-none (λ (x : JobRow). x.created_at) (select_where (is_due target now) jobs) e in
      absurd (subst (Occurs j) empty m)
  | inr n ↦ n
]

-- From a queue that keeps its invariant, `lease_job` never raises. It returns no job exactly where
-- none is due; otherwise the oldest due one, whose lease was free or had expired, with one more attempt
-- on its count, held by the owner until `now` plus the seconds of the lease, and stored so.
pub lease_job-LeaseResult :
    (target owner : String) (lease_seconds now : ℕ) (db : Db)
    → IsQueue db.jobs
    → LeaseResult target owner lease_seconds now db (lease_job target owner lease_seconds now db)
lease_job-LeaseResult target owner lease_seconds now db q =
    elim (Option-cases (next_due target now (recovered target now db).jobs)) [
      | inl e ↦ rw (lease-idle target owner lease_seconds now db e) (idle (none_due target now _ e))
      | inr (row, e) ↦
          let n = next_due-IsNext target now (recovered target now db).jobs row e in
          rw (lease-granted target owner lease_seconds now db row q e)
            (grant _ _ (claim-IsGrant target owner lease_seconds now db row q n) n.oldest)
    ]

result-IsGrant :
    (target owner : String) (lease_seconds now : ℕ) (db db1 : Db) (j : JobRow)
    {r : Outcome (Option JobRow) × Db}
    → LeaseResult target owner lease_seconds now db r
    → r ≡ (returned (some j), db1)
    → IsGrant target owner lease_seconds now db db1 j
result-IsGrant target owner lease_seconds now db db1 j (idle n) e = cc
result-IsGrant target owner lease_seconds now db db1 j (grant k db2 g o) e =
    let same : k ≡ j = cc in
    let state : db2 ≡ db1 = ap (λ (r : Outcome (Option JobRow) × Db). r.1) e in
    subst₂ (λ (d : Db) (x : JobRow). IsGrant target owner lease_seconds now db d x) state same g

-- What a call that returned a job did.
pub lease_job-IsGrant :
    (target owner : String) (lease_seconds now : ℕ) (db db1 : Db) (j : JobRow)
    → IsQueue db.jobs
    → lease_job target owner lease_seconds now db ≡ (returned (some j), db1)
    → IsGrant target owner lease_seconds now db db1 j
lease_job-IsGrant target owner lease_seconds now db db1 j q e =
    result-IsGrant target owner lease_seconds now db db1 j
      (lease_job-LeaseResult target owner lease_seconds now db q) e
