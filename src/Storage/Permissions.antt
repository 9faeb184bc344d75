-- ===== src/Storage/Permissions.antt =====
-- app/storage.py: the requests for permission that runners make, and their decisions.
pub mod Decisions
use automated_workflow.Prelude.{
  ℕ, String, Bool, true, false, not, ◌&&◌, Option, none, some, List, map, str_eq,
}
use automated_workflow.Prelude.Tests.{◌==◌, if◌then◌else◌, is_none, or_else}
use automated_workflow.Prelude.Outcome.{
  Outcome, returned, raised, key_error, value_error, integrity_error, ◌>>◌,
}
use automated_workflow.Prelude.Table.{
  update_where, select_where, find_where, count_where, any_where, insert_row, order_by,
}
use automated_workflow.Models.{PermissionStatus, pending, approved, denied}
use automated_workflow.Schema.{Db, PermissionRow}
use automated_workflow.Storage.Tasks.{Store, has_id}

abbrev pub has_request : String → PermissionRow → Bool
has_request request_id p = str_eq p.id request_id

unfoldable pub found_request : String → Option PermissionRow → Outcome PermissionRow
found_request request_id none = raised (key_error request_id)
found_request request_id (some p) = returned p

unfoldable pub get_permission_request : String → Store PermissionRow
unfolding found_request
get_permission_request request_id db =
    (found_request request_id (find_where (has_request request_id) db.permission_requests), db)

unfoldable pub new_request : String → String → String → String → String → ℕ → PermissionRow
new_request request_id task_id runner_id operation reason now = record {
  id = request_id;
  task_id = task_id;
  runner_id = runner_id;
  operation = operation;
  reason = reason;
  status = pending;
  requested_at = now;
  resolved_by = none;
  resolved_at = none;
  result_reason = none;
  result_sent_at = none;
}

-- ON CONFLICT (id) DO NOTHING; the task must exist.
unfoldable pub insert_request : String → String → String → String → String → ℕ → Store (Unit {0})
insert_request request_id task_id runner_id operation reason now db =
    if any_where (has_request request_id) db.permission_requests
    then (returned tt, db)
    else if any_where (has_id task_id) db.tasks
    then (
      returned tt,
      record db {
        permission_requests =
            insert_row (new_request request_id task_id runner_id operation reason now)
              db.permission_requests;
      },
    )
    else (raised integrity_error, db)

unfoldable pub create_permission_request :
    String → String → String → String → String → ℕ → Store PermissionRow
unfolding new_request insert_request get_permission_request
create_permission_request request_id task_id runner_id operation reason now = do
  insert_request request_id task_id runner_id operation reason now
  get_permission_request request_id

unfoldable pub list_permission_requests : String → Db → List PermissionRow
list_permission_requests task_id db =
    order_by (λ p. p.requested_at)
      (select_where (λ p. str_eq p.task_id task_id) db.permission_requests)

abbrev pub is_undecided : PermissionStatus → Bool
is_undecided pending = true
is_undecided _ = false

abbrev pub is_open : String → PermissionRow → Bool
is_open request_id p = has_request request_id p && is_undecided p.status

abbrev pub decided : Bool → String → String → ℕ → PermissionRow → PermissionRow
decided allowed resolved_by reason now p = record p {
  status = if allowed then approved else denied;
  resolved_by = some resolved_by;
  resolved_at = some now;
  result_reason = some reason;
  result_sent_at = none;
}

decide_request : String → Bool → String → String → ℕ → Store (Unit {0})
decide_request request_id allowed resolved_by reason now db =
    if count_where (is_open request_id) db.permission_requests == 0
    then (raised (value_error "Permission request is already resolved or missing"), db)
    else (
      returned tt,
      record db {
        permission_requests =
            update_where (is_open request_id) (decided allowed resolved_by reason now)
              db.permission_requests;
      },
    )

unfoldable pub resolve_permission_request :
    String → Bool → String → String → ℕ → Store PermissionRow
unfolding decide_request get_permission_request
resolve_permission_request request_id allowed resolved_by reason now = do
  decide_request request_id allowed resolved_by reason now
  get_permission_request request_id

-- `status IN (approved, denied) AND result_sent_at IS NULL`
abbrev pub is_unsent : String → PermissionRow → Bool
is_unsent runner_id p =
    str_eq p.runner_id runner_id && not (is_undecided p.status) && is_none p.result_sent_at

-- ORDER BY resolved_at: a decided request has that time.
unfoldable pub list_unsent_permission_results : String → Db → List (PermissionRow × String)
list_unsent_permission_results runner_id db =
    map (λ p. (p, or_else p.result_reason ""))
      (order_by (λ p. or_else p.resolved_at 0)
        (select_where (is_unsent runner_id) db.permission_requests))

unfoldable pub mark_permission_result_sent : String → ℕ → Db → Db
mark_permission_result_sent request_id now db = record db {
  permission_requests =
      update_where (has_request request_id) (λ p. record p { result_sent_at = some now })
        db.permission_requests;
}
