-- ===== src/Tests/Cleaning.antt =====
-- A cleanup of concrete rows.
use automated_workflow.Prelude.{none, arith, [], ◌∷◌, refl, inl, inr}
use automated_workflow.Prelude.Rows.{Occurs}
use automated_workflow.Models.{running}
use automated_workflow.Schema.{Db, ArtifactRow, EventRow}
use automated_workflow.Prelude.Json.{end}
use automated_workflow.Storage.Cleanup.{cleanup_expired_data}
use automated_workflow.Storage.Cleanup.Kept.{IsUnderWay, cleanup_kept}
use automated_workflow.Tests.Data.{empty_db, task_of, job_of}

abbrev plan : ArtifactRow
plan = record { id = 1; task_id = "t1"; kind = "plan"; content = "plan"; created_at = 1 }

abbrev commit : ArtifactRow
commit = record { id = 2; task_id = "t2"; kind = "commit"; content = "0123"; created_at = 1 }

abbrev begun : EventRow
begun = record {
  id = 1;
  task_id = "t1";
  stage = none;
  level = "info";
  message = "begun";
  payload = end;
  created_at = 1;
}

abbrev db : Db
db = record empty_db {
  tasks = task_of "t1" running ∷ [];
  jobs = job_of "j1" "t1" 1 ∷ [];
  events = begun ∷ [];
  artifacts = plan ∷ commit ∷ [];
}

under_way : IsUnderWay running
under_way = (ground arith, ground arith, ground arith, ground arith)

cleanup_kept_example :
    let db1 = (cleanup_expired_data 100 100 100 db).1 in
    Occurs (job_of "j1" "t1" 1) db1.jobs
    × Occurs plan db1.artifacts
    × Occurs begun db1.events
    × Occurs commit db1.artifacts
cleanup_kept_example =
    cleanup_kept 100 100 100 db (job_of "j1" "t1" 1) (task_of "t1" running) plan commit begun
      (tt, tt) (inl refl) (inl refl) (inl refl) under_way (inl refl) refl (inl refl) refl
      (inr (inl refl)) (inr (inl refl))
