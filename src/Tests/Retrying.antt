-- ===== src/Tests/Retrying.antt =====
-- A worker whose task fails, on concrete rows.
use automated_workflow.Prelude.{String, some, [], ◌∷◌, ◌≡◌, ◌≢◌, refl, arith}
use text.Mathlib.TextEquality.{eq_iff}
use automated_workflow.Prelude.Outcome.{returned, raised, Error, repository_error}
use automated_workflow.Prelude.Table.{find_where}
use automated_workflow.Models.{running}
use automated_workflow.Schema.{Db, JobRow}
use automated_workflow.Storage.Tasks.{Store, has_id}
use automated_workflow.Storage.Jobs.{is_owned, leased_to}
use automated_workflow.Worker.{execute_job}
use automated_workflow.Worker.Retries.{retried, execute_retried}
use automated_workflow.Tests.Data.{empty_db, task_of, job_of, settings}

abbrev held : JobRow
held = leased_to "w" 100 2 (job_of "j1" "t1" 1)

abbrev db : Db
db = record empty_db { tasks = task_of "t1" running ∷ []; jobs = held ∷ [] }

abbrev failing : String → Store (Unit {0})
failing task_id s = (raised (repository_error "no branch"), s)

abbrev text_of : Error → String
text_of e = "no branch"

task_found : find_where (has_id "t1") db.tasks ≡ some (task_of "t1" running)
unfolding find_where
task_found = refl

job_found : find_where (is_owned "t1" "w") db.jobs ≡ some held
unfolding find_where
job_found = refl

has_text : ◌≢◌ {A = String} "no branch" ""
has_text = ground (arith, eq_iff "no branch" "")

execute_retried_example :
    let r = execute_job text_of text_of failing settings "t1" "w" 10 db in
    (r.0 ≡ returned tt)
    × (find_where (has_id "t1") r.1.tasks ≡ some (retried "no branch" 5 10 (task_of "t1" running)))
execute_retried_example =
    execute_retried text_of text_of failing settings "t1" "w" "no branch" 10 db db
      (task_of "t1" running) held refl task_found job_found (omega arith) has_text
