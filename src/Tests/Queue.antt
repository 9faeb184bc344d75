-- ===== src/Tests/Queue.antt =====
-- The queue of jobs on concrete rows.
use automated_workflow.Prelude.{
  ℕ, ◌+◌, ◌-◌, ◌*◌, ◌^◌, ◌≤◌, ◌<◌, String, true, none, some, List, [], ◌∷◌, ◌≡◌, ◌≢◌, refl, arith,
}
use text.Mathlib.TextEquality.{eq_iff}
use automated_workflow.Prelude.Outcome.{returned}
use automated_workflow.Prelude.Table.{update_where, select_where, find_where, insert_by, order_by}
use automated_workflow.Models.{TaskStatus, Stage}
use automated_workflow.Schema.{Db, JobRow}
use automated_workflow.Storage.Jobs.{
  lease_job, recover_expired_jobs, next_due, checkpoint_job, fail_job, leased_to, seconds,
  failed_job, is_owned,
}
use automated_workflow.Storage.Jobs.Calls.{JobCall, recovers, checkpoints, run, step}
use automated_workflow.Storage.Jobs.Invariant.{IsQueue, run-IsQueue}
use automated_workflow.Storage.Jobs.Lease.{LeaseResult, lease_job-LeaseResult}
use automated_workflow.Storage.Jobs.Exclusive.{lease_exclusive}
use automated_workflow.Storage.Jobs.Retry.{fail_backoff}
use automated_workflow.Tests.Data.{empty_db, task_of, job_of}

abbrev one : JobRow
one = job_of "j1" "t1" 1

abbrev two : JobRow
two = job_of "j2" "t2" 2

abbrev queue : Db
queue = record empty_db {
  tasks = task_of "t1" TaskStatus.queued ∷ task_of "t2" TaskStatus.queued ∷ [];
  jobs = one ∷ two ∷ [];
}

t2-t1 : ◌≢◌ {A = String} "t1" "t2"
t2-t1 = ground (arith, eq_iff "t1" "t2")

j2-j1 : ◌≢◌ {A = String} "j1" "j2"
j2-j1 = ground (arith, eq_iff "j1" "j2")

two_jobs-IsQueue : IsQueue queue.jobs
two_jobs-IsQueue = record {
  sound = (
    record { held = λ e. ground (arith, e); free = λ e. (refl, refl) },
    (record { held = λ e. ground (arith, e); free = λ e. (refl, refl) }, tt),
  );
  by_task = ((t2-t1, tt), (tt, tt));
  by_id = ((j2-j1, tt), (tt, tt));
}

abbrev after_first : Db
after_first = (lease_job "server" "a" 60 10 queue).1

abbrev first_job : JobRow
first_job = leased_to "a" (10 + seconds 60) 10 one

first_lease : lease_job "server" "a" 60 10 queue ≡ (returned (some first_job), after_first)
unfolding lease_job recover_expired_jobs next_due select_where find_where update_where insert_by
    order_by
first_lease = refl

abbrev history : List (ℕ × JobCall)
history = (20, recovers none) ∷ (30, checkpoints "t1" Stage.planner) ∷ []

abbrev later : Db
later = run history after_first

abbrev second_job : JobRow
second_job = leased_to "b" (40 + seconds 60) 40 two

second_lease :
    lease_job "server" "b" 60 40 later
    ≡ (returned (some second_job), (lease_job "server" "b" 60 40 later).1)
unfolding lease_job recover_expired_jobs next_due select_where find_where update_where insert_by
    order_by run step checkpoint_job
second_lease = refl

lease_exclusive_example : ◌≢◌ {A = String} "t2" "t1"
lease_exclusive_example =
    lease_exclusive "server" "a" 60 10 queue after_first first_job history "server" "b" 60 40
      (lease_job "server" "b" 60 40 later).1 second_job two_jobs-IsQueue first_lease
      ((omega arith, tt), ((omega arith, tt), tt)) (omega arith) second_lease

run-IsQueue_example : IsQueue (run history queue).jobs
run-IsQueue_example = run-IsQueue history queue (tt, (tt, tt)) two_jobs-IsQueue

lease_job-LeaseResult_example :
    LeaseResult "server" "a" 60 10 queue (lease_job "server" "a" 60 10 queue)
lease_job-LeaseResult_example = lease_job-LeaseResult "server" "a" 60 10 queue two_jobs-IsQueue

-- The queue with the first job leased for the first time.
abbrev held_queue : Db
held_queue = record empty_db { tasks = task_of "t1" TaskStatus.running ∷ []; jobs = first_job ∷ [] }

held-IsQueue : IsQueue held_queue.jobs
held-IsQueue = record {
  sound = (record { held = λ e. (refl, refl); free = λ e. ground (arith, e) }, tt);
  by_task = (tt, tt);
  by_id = (tt, tt);
}

abbrev after_failure : Db
after_failure = (fail_job "t1" "a" "error" 5 20 held_queue).1

abbrev again : JobRow
again =
    leased_to "b" (20 + seconds 6 + seconds 60) (20 + seconds 6)
      (failed_job true 5 "error" 20 first_job)

held_found : find_where (is_owned "t1" "a") held_queue.jobs ≡ some first_job
unfolding find_where
held_found = refl

retry_lease :
    lease_job "server" "b" 60 (20 + seconds 6) after_failure
    ≡ (returned (some again), (lease_job "server" "b" 60 (20 + seconds 6) after_failure).1)
unfolding lease_job recover_expired_jobs next_due select_where find_where update_where insert_by
    order_by fail_job
retry_lease = refl

fail_backoff_example : (1 < 3) × (20 + seconds (5 * 2 ^ (1 - 1)) ≤ 20 + seconds 6)
fail_backoff_example =
    fail_backoff "t1" "a" "error" 5 20 held_queue first_job "server" "b" 60 (20 + seconds 6)
      (lease_job "server" "b" 60 (20 + seconds 6) after_failure).1 again held-IsQueue held_found
      retry_lease refl
