-- ===== src/Auth/Roles.antt =====
-- What a role in a project allows.
use automated_workflow.Prelude.{
  ◌≤◌, String, Bool, true, false, not, ◌||◌, Option, none, some, ◌≡◌, refl, arith, inl, inr,
}
use automated_workflow.Prelude.Tests.{ltb, if◌then◌else◌, Option-cases, Bool-cases, str_eq→eq}
use automated_workflow.Prelude.Outcome.{Outcome, returned, raised, http_error}
use automated_workflow.Prelude.Table.{find_where}
use automated_workflow.Prelude.Rows.{Occurs, Occurs-find_where}
use automated_workflow.Models.{ProjectRole}
use automated_workflow.Schema.{Db, UserRow, MemberRow}
use automated_workflow.Storage.Projects.{is_member, get_project_role}
use automated_workflow.Auth.{role_level, at_least, require_project_role}

module _ (user : UserRow) (project_id : String) (minimum : ProjectRole) (db : Db) where
  required :
      (auth_enabled : Bool) (m : Option MemberRow)
      → auth_enabled ≡ true
      → user.is_admin ≡ false
      → find_where (is_member project_id user.id) db.project_members ≡ m
      → (require_project_role user project_id minimum auth_enabled db).0 ≡ elim m [
        | none ↦ raised (http_error 404 "Project not found")
        | some row ↦
            if ltb (role_level row.role) (role_level minimum)
            then raised (http_error 403 "Insufficient project permission")
            else returned row.role
      ]
  unfolding require_project_role get_project_role
  required auth_enabled m a n e = ground (arith, a, n, e)

-- With authentication on, a user who is no administrator gets a role only as a member of the project
-- with just that role, and only where the role reaches the level that is asked for.
pub granted_role :
    (user : UserRow) (project_id : String) (minimum role : ProjectRole) (db : Db)
    → user.is_admin ≡ false
    → (require_project_role user project_id minimum true db).0 ≡ returned role
    → (m : MemberRow) × Occurs m db.project_members
      × (m.project_id ≡ project_id)
      × (m.user_id ≡ user.id)
      × (m.role ≡ role)
      × (role_level minimum ≤ role_level role)
granted_role user project_id minimum role db n e =
    elim (Option-cases (find_where (is_member project_id user.id) db.project_members)) [
      | inl k ↦ absurd (ground (arith, required user project_id minimum db true none refl n k))
      | inr (m, k) ↦
          let q = required user project_id minimum db true (some m) refl n k in
          let (o, h) = Occurs-find_where (is_member project_id user.id) db.project_members m k in
          let level : ltb (role_level m.role) (role_level minimum) ≡ false = ground (arith, q) in
          let same : m.role ≡ role = ground (arith, q) in
          (
            m,
            o,
            str_eq→eq m.project_id project_id (ground (arith, h)),
            str_eq→eq m.user_id user.id (ground (arith, h)),
            same,
            rw (← same) (ground (arith, level)),
          )
    ]

at_least_lower :
    (minimum lower role : ProjectRole) (r : Outcome ProjectRole)
    → role_level lower ≤ role_level minimum
    → at_least minimum r ≡ returned role
    → at_least lower r ≡ returned role
at_least_lower minimum lower role (returned q) l e = ground arith
at_least_lower minimum lower role (raised x) l e = e

-- A user who is granted one level is granted every lower one, in the same role.
granted_lower :
    (user : UserRow) (project_id : String) (minimum lower role : ProjectRole) (auth_enabled : Bool)
    (db : Db)
    → role_level lower ≤ role_level minimum
    → (require_project_role user project_id minimum auth_enabled db).0 ≡ returned role
    → (require_project_role user project_id lower auth_enabled db).0 ≡ returned role
unfolding require_project_role
granted_lower user project_id minimum lower role auth_enabled db l e =
    elim (Bool-cases (not auth_enabled || user.is_admin)) [
      | inl h ↦ rw h (rw h at e)
      | inr h ↦ rw h (at_least_lower minimum lower role _ l (rw h at e))
    ]
