-- ===== src/Storage/Users.antt =====
-- app/storage.py: users and their browser sessions.
use automated_workflow.Prelude.{
  ℕ, String, Bool, false, ◌&&◌, ◌||◌, not, Option, none, some, List, str_eq,
}
use automated_workflow.Prelude.Tests.{ltb, if◌then◌else◌, is_none}
use automated_workflow.Prelude.Outcome.{Outcome, returned, raised, key_error, integrity_error, ◌>>◌}
use automated_workflow.Prelude.Text.{strip, lower}
use automated_workflow.Prelude.Table.{length, update_where, find_where, any_where, insert_row}
use automated_workflow.Schema.{Db, UserRow, SessionRow}
use automated_workflow.Storage.Tasks.{Store}

-- `email.strip().lower()`
abbrev pub normalized : String → String
normalized email = lower (strip email)

unfoldable pub count_users : Db → ℕ
count_users db = length db.users

abbrev pub has_user_id : String → UserRow → Bool
has_user_id user_id u = str_eq u.id user_id

abbrev pub has_email : String → UserRow → Bool
has_email email u = str_eq u.email email

abbrev pub found_user : String → Option UserRow → Outcome UserRow
found_user key none = raised (key_error key)
found_user key (some u) = returned u

unfoldable pub get_user : String → Store UserRow
get_user user_id db = (found_user user_id (find_where (has_user_id user_id) db.users), db)

new_user : String → String → String → String → Bool → ℕ → UserRow
new_user user_id email display_name password_hash is_admin now = record {
  id = user_id;
  email = normalized email;
  display_name = strip display_name;
  password_hash = password_hash;
  is_admin = is_admin;
  disabled = false;
  created_at = now;
}

-- The identifier and the address are unique.
insert_user : UserRow → Store (Unit {0})
insert_user u db =
    if any_where (has_user_id u.id) db.users || any_where (has_email u.email) db.users
    then (raised integrity_error, db)
    else (returned tt, record db { users = insert_row u db.users })

unfoldable pub create_user : String → String → String → String → Bool → ℕ → Store UserRow
unfolding new_user insert_user get_user
create_user user_id email display_name password_hash is_admin now = do
  insert_user (new_user user_id email display_name password_hash is_admin now)
  get_user user_id

unfoldable pub get_user_by_email : String → Store UserRow
get_user_by_email email db =
    (found_user email (find_where (has_email (normalized email)) db.users), db)

-- The token's hash is the primary key, and the user must exist.
unfoldable pub create_session : String → String → ℕ → ℕ → Store (Unit {0})
create_session token_hash user_id expires_at now db =
    if any_where (λ s. str_eq s.token_hash token_hash) db.sessions
    then (raised integrity_error, db)
    else if any_where (has_user_id user_id) db.users
    then (
      returned tt,
      record db {
        sessions =
            insert_row
              (record {
                token_hash = token_hash;
                user_id = user_id;
                expires_at = expires_at;
                created_at = now;
                revoked_at = none;
              })
              db.sessions;
      },
    )
    else (raised integrity_error, db)

abbrev pub is_live : String → ℕ → SessionRow → Bool
is_live token_hash now s =
    str_eq s.token_hash token_hash && is_none s.revoked_at && ltb now s.expires_at

-- The join of sessions and users, with the conditions on each.
abbrev pub session_user : Option SessionRow → List UserRow → Option UserRow
session_user none users = none
session_user (some s) users = find_where (λ u. has_user_id s.user_id u && not u.disabled) users

unfoldable pub get_session_user : String → ℕ → Store UserRow
get_session_user token_hash now db = (
  found_user "session" (session_user (find_where (is_live token_hash now) db.sessions) db.users),
  db,
)

unfoldable pub revoke_session : String → ℕ → Db → Db
revoke_session token_hash now db = record db {
  sessions =
      update_where (λ s. str_eq s.token_hash token_hash) (λ s. record s { revoked_at = some now })
        db.sessions;
}
