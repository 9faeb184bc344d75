-- ===== src/Api/Tasks/Deciding.antt =====
-- Who decides on a request for permission.
use automated_workflow.Prelude.{
  ℕ, ◌≤◌, String, Bool, true, false, Option, none, some, ◌≡◌, refl, sym, ◌∙◌, arith, ap,
}
use automated_workflow.Prelude.Outcome.{Outcome, returned}
use automated_workflow.Prelude.Steps.{returned_both, returned_then}
use automated_workflow.Prelude.Table.{find_where}
use automated_workflow.Prelude.Rows.{Occurs}
use automated_workflow.Models.{ProjectRole, owner}
use automated_workflow.Schema.{Db, TaskRow, UserRow, MemberRow, PermissionRow}
use automated_workflow.Config.{Settings}
use automated_workflow.Auth.{role_level, require_project_role}
use automated_workflow.Auth.Roles.{granted_role}
use automated_workflow.Storage.Tasks.{has_id, get_task, found_task}
use automated_workflow.Storage.Permissions.{has_request, get_permission_request}
use automated_workflow.Api.{authorize_task, or_missing}
use automated_workflow.Api.Tasks.{decide_permission}

found_permission :
    (request_id : String) (o : Option PermissionRow) (db db1 : Db) (p : PermissionRow)
    → find_where (has_request request_id) db.permission_requests ≡ o
    → or_missing 404 "Permission request not found" (get_permission_request request_id) db
      ≡ (returned p, db1)
    → (o ≡ some p) × (db ≡ db1)
unfolding get_permission_request
found_permission request_id none db db1 p k e = absurd (ground (arith, rw k at e))
found_permission request_id (some q) db db1 p k e = ground (arith, rw k at e)

found_row :
    (task_id : String) (o : Option TaskRow) (db db1 : Db) (t : TaskRow)
    → find_where (has_id task_id) db.tasks ≡ o
    → or_missing 404 "Task not found" (get_task task_id) db ≡ (returned t, db1)
    → (o ≡ some t) × (db ≡ db1)
unfolding get_task found_task
found_row task_id none db db1 t k e = absurd (ground (arith, rw k at e))
found_row task_id (some q) db db1 t k e = ground (arith, rw k at e)

-- The user is a member of the project, with this role or a higher one.
abbrev pub IsGranted : UserRow → String → ProjectRole → Db → Type 0
IsGranted user project_id minimum db =
    (m : MemberRow) × Occurs m db.project_members
    × (m.project_id ≡ project_id)
    × (m.user_id ≡ user.id)
    × (role_level minimum ≤ role_level m.role)

unchanged :
    (user : UserRow) (project_id : String) (minimum : ProjectRole) (auth_enabled : Bool) (db : Db)
    → (require_project_role user project_id minimum auth_enabled db).1 ≡ db
unfolding require_project_role
unchanged user project_id minimum auth_enabled db = ground arith

-- With authentication on, a user who is no administrator passes the check of a role only with that
-- role, or a higher one, in the project.
pub role-IsGranted :
    (user : UserRow) (project_id : String) (minimum role : ProjectRole) (auth_enabled : Bool)
    (db db1 : Db)
    → auth_enabled ≡ true
    → user.is_admin ≡ false
    → require_project_role user project_id minimum auth_enabled db ≡ (returned role, db1)
    → IsGranted user project_id minimum db × (db ≡ db1)
role-IsGranted user project_id minimum role auth_enabled db db1 a n e =
    let asked : (require_project_role user project_id minimum true db).0 ≡ returned role =
      rw (← a) (ap (λ (r : Outcome ProjectRole × Db). r.0) e) in
    let (m, o, p, u, r, l) = granted_role user project_id minimum role db n asked in
    (
      (m, o, p, u, rw r l),
      sym (unchanged user project_id minimum auth_enabled db)
          ∙ ap (λ (r : Outcome ProjectRole × Db). r.1) e,
    )

-- The task is there, and the user has that role in its project.
abbrev pub MayAct : UserRow → String → ProjectRole → Db → Type 0
MayAct user task_id minimum db =
    (t : TaskRow) × (find_where (has_id task_id) db.tasks ≡ some t)
    × IsGranted user t.project_id minimum db

-- With authentication on, a user who is no administrator passes the check of a task only with the role that is
-- asked for in the task's project.
authorize_granted :
    (settings : Settings) (user : UserRow) (task_id : String) (minimum : ProjectRole) (db db1 : Db)
    (t : TaskRow)
    → settings.auth_enabled ≡ true
    → user.is_admin ≡ false
    → authorize_task settings user task_id minimum db ≡ (returned t, db1)
    → MayAct user task_id minimum db
unfolding authorize_task
authorize_granted settings user task_id minimum db db1 t a n e =
    let (found, s1, e1, e2) =
      returned_both (or_missing 404 "Task not found" (get_task task_id)) _ db db1 t e in
    let (k, same) = found_row task_id (find_where (has_id task_id) db.tasks) db s1 found refl e1 in
    let (role, s2, e3, e4) =
      returned_then (require_project_role user found.project_id minimum settings.auth_enabled) _ s1
        db1 t e2 in
    let (granted, same_too) =
      role-IsGranted user found.project_id minimum role settings.auth_enabled s1 s2 a n e3 in
    (found, k, rw same granted)

-- With authentication on, where a decision on a request for permission by a user who is no
-- administrator returned, the request and its task were there, and the user was a member of the
-- task's project whose role reaches that of an owner.
pub decided_granted :
    (settings : Settings) (user : UserRow) (now : ℕ) (db db1 : Db) (permission_id : String)
    (allowed : Bool) (reason : String) (p : PermissionRow)
    → settings.auth_enabled ≡ true
    → user.is_admin ≡ false
    → decide_permission settings user now permission_id allowed reason db ≡ (returned p, db1)
    → (asked : PermissionRow) × (find_where (has_request permission_id) db.permission_requests
        ≡ some asked)
      × MayAct user asked.task_id owner db
unfolding decide_permission
decided_granted settings user now db db1 permission_id allowed reason p a n e =
    let requests = find_where (has_request permission_id) db.permission_requests in
    let (asked, s1, e1, e2) =
      returned_both
        (or_missing 404 "Permission request not found" (get_permission_request permission_id)) _ db
        db1 p e in
    let (k, same) = found_permission permission_id requests db s1 asked refl e1 in
    let (t, s2, e3, e4) =
      returned_then (authorize_task settings user asked.task_id owner) _ s1 db1 p e2 in
    let may = authorize_granted settings user asked.task_id owner s1 s2 t a n e3 in
    (asked, k, rw same may)
