-- ===== src/Storage/Projects.antt =====
-- app/storage.py: projects, their members and their Git integrations.
use automated_workflow.Prelude.{
  ℕ, String, Bool, ◌&&◌, ◌||◌, Option, none, some, List, [], ◌∷◌, str_eq,
}
use automated_workflow.Prelude.Tests.{◌==◌, if◌then◌else◌}
use automated_workflow.Prelude.Outcome.{
  Outcome, returned, raised, key_error, integrity_error, pure, ◌>>=◌, ◌>>◌,
}
use automated_workflow.Prelude.Text.{strip}
use automated_workflow.Prelude.Table.{
  update_where, delete_where, find_where, count_where, any_where, insert_row,
}
use automated_workflow.Models.{ProjectRole, owner}
use automated_workflow.Schema.{Db, ProjectRow, MemberRow, GitIntegrationRow}
use Prim.Native.String.{compare}
use Prim.Native.Nat.{Ordering}
use automated_workflow.Storage.Tasks.{Store}
use automated_workflow.Storage.Users.{has_user_id}

abbrev pub has_project_id : String → ProjectRow → Bool
has_project_id project_id p = str_eq p.id project_id

abbrev pub found_project : String → Option ProjectRow → Outcome ProjectRow
found_project project_id none = raised (key_error project_id)
found_project project_id (some p) = returned p

unfoldable pub get_project : String → Store ProjectRow
get_project project_id db =
    (found_project project_id (find_where (has_project_id project_id) db.projects), db)

-- The identifier and the slug are unique, and the owner must be a user; both rows or neither.
insert_project : ProjectRow → Store (Unit {0})
insert_project p db =
    if any_where (has_project_id p.id) db.projects
      || any_where (λ x. str_eq x.slug p.slug) db.projects
    then (raised integrity_error, db)
    else if any_where (has_user_id p.created_by) db.users
    then (
      returned tt,
      record db {
        projects = insert_row p db.projects;
        project_members =
            insert_row
              (record {
                project_id = p.id;
                user_id = p.created_by;
                role = owner;
                created_at = p.created_at;
              })
              db.project_members;
      },
    )
    else (raised integrity_error, db)

-- ProjectAccess of app/models.py: a project with the role in it.
unfoldable pub create_project :
    String → String → String → String → ℕ → Store (ProjectRow × ProjectRole)
unfolding insert_project get_project
create_project project_id name slug owner_id now = do
  insert_project (record {
    id = project_id;
    name = strip name;
    slug = strip slug;
    created_by = owner_id;
    created_at = now;
  })
  p ← get_project project_id
  pure (p, owner)

abbrev pub is_member : String → String → MemberRow → Bool
is_member project_id user_id m = str_eq m.project_id project_id && str_eq m.user_id user_id

abbrev pub found_role : String → Option MemberRow → Outcome ProjectRole
found_role project_id none = raised (key_error project_id)
found_role project_id (some m) = returned m.role

unfoldable pub get_project_role : String → String → Store ProjectRole
get_project_role project_id user_id db =
    (found_role project_id (find_where (is_member project_id user_id) db.project_members), db)

-- ON CONFLICT(project_id, user_id) DO UPDATE SET role; the project and the user must exist.
unfoldable pub write_member : String → String → ProjectRole → ℕ → Store (Unit {0})
write_member project_id user_id role now db =
    if any_where (is_member project_id user_id) db.project_members
    then (
      returned tt,
      record db {
        project_members =
            update_where (is_member project_id user_id) (λ m. record m { role = role })
              db.project_members;
      },
    )
    else if any_where (has_project_id project_id) db.projects
        && any_where (has_user_id user_id) db.users
    then (
      returned tt,
      record db {
        project_members =
            insert_row
              (record { project_id = project_id; user_id = user_id; role = role; created_at = now })
              db.project_members;
      },
    )
    else (raised integrity_error, db)

abbrev pub not_after : Ordering → Bool
not_after Ordering.gt = Bool.false
not_after o = Bool.true

-- ORDER BY projects.name, in the order of the characters' codes
unfoldable pub is_before : String → String → Bool
is_before s t = not_after (compare s t)

unfoldable pub insert_by_name :
    ProjectRow × ProjectRole → List (ProjectRow × ProjectRole) → List (ProjectRow × ProjectRole)
unfolding is_before
insert_by_name a [] = a ∷ []
insert_by_name a (x ∷ xs) =
    let rest = insert_by_name a xs in if is_before a.0.name x.0.name then a ∷ x ∷ xs else x ∷ rest

abbrev pub joined_project :
    Option ProjectRow
    → ProjectRole
    → List (ProjectRow × ProjectRole)
    → List (ProjectRow × ProjectRole)
joined_project none role rest = rest
joined_project (some p) role rest = insert_by_name (p, role) rest

unfoldable pub memberships :
    String → List ProjectRow → List MemberRow → List (ProjectRow × ProjectRole)
memberships user_id projects [] = []
memberships user_id projects (m ∷ ms) =
    let rest = memberships user_id projects ms in
    if str_eq m.user_id user_id
    then joined_project (find_where (has_project_id m.project_id) projects) m.role rest
    else rest

unfoldable pub list_user_projects : String → Db → List (ProjectRow × ProjectRole)
list_user_projects user_id db = memberships user_id db.projects db.project_members

-- The project identifiers of `list_user_projects`, in the order of the table.
unfoldable pub user_project_ids : String → List MemberRow → List String
user_project_ids user_id [] = []
user_project_ids user_id (m ∷ ms) =
    let rest = user_project_ids user_id ms in
    if str_eq m.user_id user_id then m.project_id ∷ rest else rest

abbrev pub has_integration : String → GitIntegrationRow → Bool
has_integration project_id g = str_eq g.project_id project_id

abbrev pub found_integration : String → Option GitIntegrationRow → Outcome GitIntegrationRow
found_integration project_id none = raised (key_error project_id)
found_integration project_id (some g) = returned g

unfoldable pub get_git_integration : String → Store GitIntegrationRow
get_git_integration project_id db =
    (found_integration project_id (find_where (has_integration project_id) db.git_integrations), db)

unfoldable pub delete_git_integration : String → Store (Unit {0})
delete_git_integration project_id db =
    if count_where (has_integration project_id) db.git_integrations == 0
    then (raised (key_error project_id), db)
    else (
      returned tt,
      record db {
        git_integrations = delete_where (has_integration project_id) db.git_integrations;
      },
    )
