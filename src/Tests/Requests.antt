-- ===== src/Tests/Requests.antt =====
-- Requests to the REST interface on concrete rows.
use automated_workflow.Prelude.{false, String, true, none, some, [], ◌∷◌, ◌≡◌, refl, arith, str_eq}
use automated_workflow.Prelude.Tests.{if◌then◌else◌}
use automated_workflow.Prelude.Outcome.{Outcome, returned, raised, http_error}
use automated_workflow.Prelude.Json.{end}
use automated_workflow.Prelude.Rows.{Unique}
use automated_workflow.Prelude.Text.{lower, strip}
use automated_workflow.Prelude.Table.{find_where, any_where, update_where, count_where, insert_row}
use automated_workflow.Models.{owner, running, draft, editor, PermissionStatus}
use automated_workflow.Schema.{TaskRow, Db, MemberRow, ProjectRow, PermissionRow, ChallengeRow}
use automated_workflow.Storage.Tasks.{TaskCreate, no_fields, get_task, found_task, update_task}
use automated_workflow.Storage.Events.{add_event}
use automated_workflow.Storage.Jobs.{renew_job}
use automated_workflow.Storage.Users.{create_session, get_user_by_email}
use automated_workflow.Storage.Projects.{get_project_role}
use automated_workflow.Storage.Runners.{get_runner, save_runner_token}
use automated_workflow.Storage.Challenges.{consume_email_challenge}
use automated_workflow.Storage.Permissions.{
  has_request, get_permission_request, resolve_permission_request,
}
use automated_workflow.Auth.{authenticate_runner, require_project_role, create_user_session}
use automated_workflow.Api.{RunnerPrincipal, authorize_task}
use automated_workflow.Api.Runners.{
  update_runner_task, add_runner_event, add_runner_artifact, get_runner_task_artifacts,
}
use automated_workflow.Api.Runners.Confined.{IsOwn, IsRefused, runner_confined}
use automated_workflow.Api.Tasks.{decide_permission}
use automated_workflow.Api.Tasks.Deciding.{IsGranted, MayAct, decided_granted}
use automated_workflow.Api.Mail.{invalid_code, verify_email_code}
use automated_workflow.Api.Mail.Codes.{verified_once}
use automated_workflow.Api.Accounts.{issue_runner_token}
use automated_workflow.Api.Accounts.Issued.{issued_opens}
use automated_workflow.Api.Creation.{placed, create_task}
use automated_workflow.Api.Creation.Placed.{RunnerOf, created_placed}
use automated_workflow.Storage.Tasks
use automated_workflow.Tests.Data.{empty_db, task_of, user, settings, hash}

abbrev principal : RunnerPrincipal
principal = record { runner_id = "r1"; project_id = "default" }

abbrev tasks : Db
tasks = record empty_db { tasks = task_of "t1" running ∷ [] }

foreign : ¬ IsOwn principal "t1" tasks
unfolding find_where
foreign (t, e, h) = ground (arith, e, h)

runner_confined_example :
    IsRefused
      (update_runner_task principal 10 "r1" "t1" (record no_fields { progress = some 9 }))
      tasks
    × IsRefused (get_runner_task_artifacts principal 10 "r1" "t1") tasks
    × IsRefused (add_runner_event principal 10 "r1" "t1" "done" none "info" end) tasks
    × IsRefused (add_runner_artifact principal 10 "r1" "t1" "diff" "text") tasks
runner_confined_example =
    runner_confined principal 10 "r1" "t1" tasks (record no_fields { progress = some 9 }) "done"
      none "info" end "diff" "text" foreign

abbrev asked : PermissionRow
asked = record {
  id = "p1";
  task_id = "t1";
  runner_id = "r1";
  operation = "shell";
  reason = "build";
  status = PermissionStatus.pending;
  requested_at = 1;
  resolved_at = none;
  resolved_by = none;
  result_reason = none;
  result_sent_at = none;
}

abbrev member : MemberRow
member = record { project_id = "default"; user_id = "u1"; role = owner; created_at = 1 }

abbrev asking : Db
asking = record empty_db {
  users = user ∷ [];
  tasks = task_of "t1" running ∷ [];
  permission_requests = asked ∷ [];
  project_members = member ∷ [];
}

abbrev challenge : ChallengeRow
challenge = record {
  id = "c1";
  email = "a@b.c";
  request_ip = "ip";
  code_hash = "c1:a@b.c:right";
  expires_at = 100;
  attempts = 0;
  max_attempts = 5;
  created_at = 1;
  consumed_at = none;
}

abbrev challenged : Db
challenged = record empty_db { users = user ∷ []; email_challenges = challenge ∷ [] }

abbrev hmac : String → String → String
hmac secret payload = payload

challenged-Unique : Unique (λ c. c.id) challenged.email_challenges
challenged-Unique = (tt, tt)

abbrev project : ProjectRow
project = record { id = "p1"; name = "p"; slug = "p"; created_by = "u1"; created_at = 1 }

abbrev owned : Db
owned = record empty_db {
  users = user ∷ [];
  projects = project ∷ [];
  project_members = record member { project_id = "p1" } ∷ [];
}

abbrev approved : PermissionRow
approved = record asked {
  status = PermissionStatus.approved;
  resolved_at = some 10;
  resolved_by = some "u1";
  result_reason = some "fine";
}

decided :
    decide_permission settings user 10 "p1" true "fine" asking
    ≡ (returned approved, (decide_permission settings user 10 "p1" true "fine" asking).1)
unfolding decide_permission authorize_task require_project_role get_project_role get_task found_task
    get_permission_request resolve_permission_request update_task renew_job add_event find_where
    any_where update_where insert_row count_where
decided = refl

decided_granted_example :
    (request : PermissionRow) × (find_where (has_request "p1") asking.permission_requests
      ≡ some request)
    × MayAct user request.task_id owner asking
decided_granted_example =
    decided_granted settings user 10 asking
      (decide_permission settings user 10 "p1" true "fine" asking).1 "p1" true "fine" approved refl
      refl decided

verified : verify_email_code hmac hash settings "c1" "a@b.c" "right" "u2" "token" 20 challenged ≡ (
  returned (user, "token"),
  (verify_email_code hmac hash settings "c1" "a@b.c" "right" "u2" "token" 20 challenged).1,
)
unfolding verify_email_code consume_email_challenge create_user_session create_session
    get_user_by_email find_where any_where update_where insert_row count_where lower strip
verified = refl

verified_once_example :
    (verify_email_code hmac hash settings "c1" "a@b.c" "right" "u2" "other" 30
      (verify_email_code hmac hash settings "c1" "a@b.c" "right" "u2" "token" 20 challenged).1).0
    ≡ raised invalid_code
verified_once_example =
    verified_once hmac hash settings "c1" "a@b.c" "right" "u2" "token" 20 challenged
      (verify_email_code hmac hash settings "c1" "a@b.c" "right" "u2" "token" 20 challenged).1
      (user, "token") "a@b.c" "right" "u2" "other" 30 challenged-Unique verified

issued_one : issue_runner_token settings user "p1" hash "r1" "label" "secret" 10 owned ≡ (
  returned (record { runner_id = "r1"; project_id = "p1"; token = "secret"; created_at = 10 }),
  (issue_runner_token settings user "p1" hash "r1" "label" "secret" 10 owned).1,
)
unfolding issue_runner_token require_project_role get_project_role save_runner_token find_where
    any_where insert_row
issued_one = refl

issued_opens_example :
    (authenticate_runner hash settings "r1" "global"
      (issue_runner_token settings user "p1" hash "r1" "label" "secret" 10 owned).1).0
    ≡ (if str_eq (hash "secret") (hash "global")
        then returned "p1"
        else raised (http_error 401 "Invalid Runner token"))
issued_opens_example =
    issued_opens settings user "p1" hash "r1" "label" "secret" 10 owned
      (issue_runner_token settings user "p1" hash "r1" "label" "secret" 10 owned).1
      (record { runner_id = "r1"; project_id = "p1"; token = "secret"; created_at = 10 }) "global"
      issued_one

abbrev payload : TaskCreate
payload = record {
  title = "title";
  requirement = "requirement";
  repository = " /repository ";
  project_id = some "p1";
  runner_id = some "r1";
  branch = "";
  model = none;
  build_command = none;
  test_command = none;
  include_local_changes = false;
  sync_to_source = false;
  auto_apply = true;
  auto_commit = false;
}

abbrev staffed : Db
staffed = record owned {
  runners =
      record {
        id = "r1";
        project_id = "p1";
        name = "runner";
        platform = "linux";
        version = "1.1.0";
        roots = [];
        capabilities = [];
        status = "online";
        metrics = end;
        last_seen = 1;
        created_at = 1;
      }
      ∷ [];
}

abbrev open_path : String → Outcome String
open_path path = returned path

abbrev new_one : TaskRow
new_one = record (task_of "t1" draft) {
  project_id = "p1";
  runner_id = some "r1";
  created_at = 10;
  updated_at = 10;
}

task_created :
    create_task open_path settings user "model" payload "t1" 10 staffed
    ≡ (returned new_one, (create_task open_path settings user "model" payload "t1" 10 staffed).1)
unfolding create_task Tasks.create_task placed require_project_role get_project_role get_runner
    get_task found_task add_event find_where any_where insert_row strip
task_created = refl

created_placed_example :
    (new_one.status ≡ draft)
    × (new_one.project_id ≡ "p1")
    × IsGranted user "p1" editor staffed
    × RunnerOf (some "r1") "p1" staffed
created_placed_example =
    created_placed open_path settings user "model" payload "t1" 10 staffed
      (create_task open_path settings user "model" payload "t1" 10 staffed).1 new_one "p1" refl refl
      refl task_created
