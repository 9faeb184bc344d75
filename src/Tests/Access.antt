-- ===== src/Tests/Access.antt =====
-- Roles, tokens and sessions on concrete rows.
use automated_workflow.Prelude.{◌≤◌, ◌<◌, String, true, none, some, [], ◌∷◌, ◌≡◌, ◌≢◌, refl, arith}
use text.Mathlib.TextEquality.{eq_iff}
use automated_workflow.Prelude.Outcome.{returned, raised, http_error}
use automated_workflow.Prelude.Rows.{Occurs}
use automated_workflow.Prelude.Table.{find_where, any_where, update_where}
use automated_workflow.Models.{editor}
use automated_workflow.Schema.{Db, MemberRow, RunnerTokenRow, SessionRow}
use automated_workflow.Storage.Projects.{get_project_role}
use automated_workflow.Storage.Runners.{
  has_active_runner_token, verify_runner_token, revoke_runner_token,
}
use automated_workflow.Storage.Users.{revoke_session, count_users}
use automated_workflow.Auth.{role_level, require_project_role, authenticate_runner, current_user}
use automated_workflow.Auth.Roles.{granted_role}
use automated_workflow.Auth.Tokens.{own_token, revoked_token, revoked_session}
use automated_workflow.Tests.Data.{empty_db, user, settings, hash}

abbrev membership : MemberRow
membership = record { project_id = "p1"; user_id = "u1"; role = editor; created_at = 1 }

abbrev members : Db
members = record empty_db { users = user ∷ []; project_members = membership ∷ [] }

editor_granted : (require_project_role user "p1" editor true members).0 ≡ returned editor
unfolding require_project_role get_project_role find_where
editor_granted = refl

granted_role_example :
    (m : MemberRow) × Occurs m members.project_members
    × (m.project_id ≡ "p1")
    × (m.user_id ≡ "u1")
    × (m.role ≡ editor)
    × (role_level editor ≤ role_level editor)
granted_role_example = granted_role user "p1" editor editor members refl editor_granted

abbrev own : RunnerTokenRow
own = record {
  runner_id = "r1";
  project_id = "p1";
  label = "label";
  token_hash = "secret";
  created_by = "u1";
  created_at = 1;
  revoked_at = none;
}

abbrev tokens : Db
tokens = record empty_db { runner_tokens = own ∷ [] }

has_own : has_active_runner_token "r1" tokens ≡ true
unfolding has_active_runner_token any_where
has_own = refl

own_accepted : (authenticate_runner hash settings "r1" "secret" tokens).0 ≡ returned "p1"
unfolding authenticate_runner verify_runner_token find_where
own_accepted = refl

own_token_example :
    (t : RunnerTokenRow) × Occurs t tokens.runner_tokens
    × (t.runner_id ≡ "r1")
    × (t.revoked_at ≡ none)
    × (t.token_hash ≡ "secret")
    × (t.project_id ≡ "p1")
own_token_example = own_token hash settings "r1" "secret" "p1" tokens has_own own_accepted

global_accepted :
    (authenticate_runner hash settings "r1" "global" (revoke_runner_token "r1" 10 tokens)).0
    ≡ returned "default"
unfolding authenticate_runner verify_runner_token find_where revoke_runner_token update_where
    has_active_runner_token any_where
global_accepted = refl

revoked_token_example :
    (settings.runner_token ≡ some "global") × (◌≡◌ {A = String} "default" "default")
revoked_token_example =
    revoked_token hash settings "r1" "global" "default" 10 tokens global_accepted

abbrev session : SessionRow
session = record {
  token_hash = "secret";
  user_id = "u1";
  expires_at = 1000;
  created_at = 1;
  revoked_at = none;
}

abbrev sessions : Db
sessions = record empty_db { users = user ∷ []; sessions = session ∷ [] }

some_user : 0 < count_users sessions
unfolding count_users
some_user = omega arith

not_empty : ◌≢◌ {A = String} "secret" ""
not_empty = ground (arith, eq_iff "secret" "")

revoked_session_example :
    (current_user hash settings (some "secret") "" 30 (revoke_session "secret" 20 sessions)).0
    ≡ raised (http_error 401 "Session is invalid or expired")
revoked_session_example =
    revoked_session hash settings "secret" "" 20 30 sessions refl some_user not_empty
