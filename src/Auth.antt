-- ===== src/Auth.antt =====
-- app/auth.py: who makes a request, and what they may do. The hash of a token is a parameter.
pub mod Roles
pub mod Tokens
use automated_workflow.Prelude.{
  ℕ, ◌+◌, ◌*◌, String, Bool, true, false, not, ◌&&◌, ◌||◌, Option, none, some, List, str_eq,
}
use automated_workflow.Prelude.Tests.{given_text, ltb, ◌==◌, if◌then◌else◌}
use automated_workflow.Prelude.Outcome.{
  Outcome, returned, raised, Error, key_error, http_error, pure, ◌>>◌,
}
use automated_workflow.Prelude.Text.{lower, before_space, after_space}
use automated_workflow.Models.{ProjectRole, owner, editor, viewer}
use automated_workflow.Schema.{Db, UserRow}
use automated_workflow.Config.{Settings}
use automated_workflow.Storage.Tasks.{Store}
use automated_workflow.Storage.Users.{count_users, get_session_user, create_session}
use automated_workflow.Storage.Projects.{get_project_role, user_project_ids}
use automated_workflow.Storage.Runners.{verify_runner_token, has_active_runner_token}

-- ROLE_LEVEL
abbrev pub role_level : ProjectRole → ℕ
role_level viewer = 1
role_level editor = 2
role_level owner = 3

-- `except KeyError` gives the other outcome; any other exception goes on.
abbrev pub except_key {ℓ} : {A : Type ℓ} → Outcome A → Outcome A → Outcome A
except_key handler (returned a) = returned a
except_key handler (raised (key_error k)) = handler
except_key handler (raised e) = raised e

abbrev pub at_least : ProjectRole → Outcome ProjectRole → Outcome ProjectRole
at_least minimum (raised e) = raised e
at_least minimum (returned role) =
    if ltb (role_level role) (role_level minimum)
    then raised (http_error 403 "Insufficient project permission")
    else returned role

unfoldable pub require_project_role : UserRow → String → ProjectRole → Bool → Store ProjectRole
require_project_role user project_id minimum auth_enabled db =
    if not auth_enabled || user.is_admin then (returned owner, db) else (
      at_least minimum (
          except_key (raised (http_error 404 "Project not found"))
            (get_project_role project_id user.id db).0),
      db,
    )

-- `none` for all projects
unfoldable pub visible_project_ids : UserRow → Settings → Db → Option (List String)
visible_project_ids user settings db =
    if not settings.auth_enabled || user.is_admin
    then none
    else some (user_project_ids user.id db.project_members)

-- `settings.runner_token and compare_digest(token, settings.runner_token)`
abbrev pub is_global_token : Option String → String → Bool
is_global_token none token = false
is_global_token (some global) token = not (str_eq global "") && str_eq token global

-- The token of the cookie, or else the one of the header `Bearer <token>`.
unfoldable pub request_token : Option String → String → Option String
request_token cookie authorization = elim (given_text cookie) [
  | some t ↦ some t
  | none ↦
      if str_eq (lower (before_space authorization)) "bearer"
      then given_text (some (after_space authorization))
      else none
]

-- The user that the server acts for where authentication is off; no row is stored for it.
abbrev pub local_user : ℕ → UserRow
local_user now = record {
  id = "local";
  email = "local@autoflow.invalid";
  display_name = "Local Administrator";
  password_hash = "";
  is_admin = true;
  disabled = false;
  created_at = now;
}

-- An hour in microseconds
abbrev pub hours : ℕ → ℕ
hours n = n * 3600000000

module _ (hash_token : String → String) where
  unfoldable pub authenticate_runner : Settings → String → String → Store String
  authenticate_runner settings runner_id token db = (
    except_key
        (if has_active_runner_token runner_id db
          then raised (http_error 401 "Invalid Runner token")
          else if is_global_token settings.runner_token token
          then returned "default"
          else raised (http_error 401 "Invalid Runner token"))
        (verify_runner_token runner_id (hash_token token) db).0,
    db,
  )

  abbrev pub token_user : Option String → ℕ → Db → Outcome UserRow
  token_user none now db = raised (http_error 401 "Authentication required")
  token_user (some token) now db =
      except_key (raised (http_error 401 "Session is invalid or expired"))
        (get_session_user (hash_token token) now db).0

  unfoldable pub current_user : Settings → Option String → String → ℕ → Store UserRow
  current_user settings cookie authorization now db =
      if not settings.auth_enabled
      then (returned (local_user now), db)
      else if count_users db == 0
      then (
        raised (
            http_error 503
              "Authentication is not initialized; configure bootstrap admin credentials"),
        db,
      )
      else (token_user (request_token cookie authorization) now db, db)

  -- `token` is the fresh token that is drawn; the result is the token and its expiry.
  unfoldable pub create_user_session : UserRow → Settings → String → ℕ → Store (String × ℕ)
  create_user_session user settings token now = do
    create_session (hash_token token) user.id (now + hours settings.auth_session_hours) now
    pure (token, now + hours settings.auth_session_hours)
