-- ===== src/Storage/Permissions/Decisions.antt =====
-- A request for permission is decided once, and the runner is told of it once.
use automated_workflow.Prelude.{
  ℕ, String, Bool, true, false, none, some, subst, List, str_eq, ◌≡◌, ◌≢◌, refl, arith, sym, ap,
  ◌∙◌, inl, inr, ◌<◌,
}
use automated_workflow.Prelude.Tests.{if◌then◌else◌, ◌==◌, or_else, Bool-cases, eq→str_eq}
use automated_workflow.Prelude.Outcome.{returned, raised, value_error}
use automated_workflow.Prelude.Table.{update_where, find_where, count_where}
use automated_workflow.Prelude.Rows.{
  Occurs-order_by, Occurs-select_where, Occurs-update_where, Occurs, Occurs-find_where, map-Occurs,
  order_by-Occurs, select_where-Occurs, update_where-Occurs,
}
use automated_workflow.Prelude.Updates.{
  Occurs-map, count_where-Occurs, count_where-update_where_self, update_where_none,
  find_where-update_where_within,
}
use automated_workflow.Models.{pending, approved, denied}
use automated_workflow.Schema.{Db, PermissionRow}
use automated_workflow.Storage.Permissions.{
  has_request, get_permission_request, is_open, decided, resolve_permission_request, is_unsent,
  list_unsent_permission_results, mark_permission_result_sent,
}

module _ (request_id : String) (allowed : Bool) (resolved_by reason : String) (now : ℕ)
    (db : Db) where
  abbrev rows : List PermissionRow
  rows =
      update_where (is_open request_id) (decided allowed resolved_by reason now)
        db.permission_requests

  decided_closed :
      (p : PermissionRow) → is_open request_id (decided allowed resolved_by reason now p) ≡ false
  decided_closed p = ground arith

  refused :
      count_where (is_open request_id) db.permission_requests ≡ 0
      → resolve_permission_request request_id allowed resolved_by reason now db
        ≡ (raised (value_error "Permission request is already resolved or missing"), db)
  unfolding resolve_permission_request
  refused e = rw e

  accepted :
      0 < count_where (is_open request_id) db.permission_requests
      → resolve_permission_request request_id allowed resolved_by reason now db
        ≡ get_permission_request request_id (record db { permission_requests = rows })
  unfolding resolve_permission_request
  accepted l = ground arith

  rows-resolve :
      (resolve_permission_request request_id allowed resolved_by reason now
        db).1.permission_requests
      ≡ rows
  unfolding resolve_permission_request
  rows-resolve = elim (Bool-cases (count_where (is_open request_id) db.permission_requests == 0)) [
    | inl e ↦ rw e (
        sym (
          update_where_none (is_open request_id) (decided allowed resolved_by reason now)
            db.permission_requests (ground (arith, e))))
    | inr n ↦ rw n
  ]

-- A request is decided at most once: after a decision, whether it was accepted or refused, every
-- later decision of the same request is refused as already resolved and changes nothing.
resolve_once :
    (request_id : String) (allowed : Bool) (resolved_by reason : String) (now : ℕ) (allowed' : Bool)
    (resolved_by' reason' : String) (now' : ℕ) (db : Db)
    → let db1 = (resolve_permission_request request_id allowed resolved_by reason now db).1 in
      resolve_permission_request request_id allowed' resolved_by' reason' now' db1
      ≡ (raised (value_error "Permission request is already resolved or missing"), db1)
resolve_once request_id allowed resolved_by reason now allowed' resolved_by' reason' now' db =
    refused request_id allowed' resolved_by' reason' now' _ (
      rw (rows-resolve request_id allowed resolved_by reason now db) (
        count_where-update_where_self (is_open request_id) (decided allowed resolved_by reason now)
          db.permission_requests (decided_closed request_id allowed resolved_by reason now db)))

-- The same, by the row as the code writes it.
resolve-decided :
    (request_id : String) (allowed : Bool) (resolved_by reason : String) (now : ℕ) (db : Db)
    (p : PermissionRow)
    → find_where (has_request request_id) db.permission_requests ≡ some p
    → p.status ≡ pending
    → let r = resolve_permission_request request_id allowed resolved_by reason now db in
      (r.0 ≡ returned (decided allowed resolved_by reason now p))
      × Occurs
          (decided allowed resolved_by reason now p, reason)
          (list_unsent_permission_results p.runner_id r.1)
unfolding list_unsent_permission_results get_permission_request
resolve-decided request_id allowed resolved_by reason now db p e s =
    let d = decided allowed resolved_by reason now in
    let (o, h) = Occurs-find_where (has_request request_id) db.permission_requests p e in
    let here : is_open request_id p ≡ true = ground (arith, h) in
    let found =
      find_where-update_where_within (has_request request_id) (is_open request_id) d
        db.permission_requests (λ x. refl) p e in
    let kept = update_where-Occurs (is_open request_id) d db.permission_requests p o in
    rw
      (accepted request_id allowed resolved_by reason now db
        (count_where-Occurs (is_open request_id) db.permission_requests p o here))
      (
        rw (found, here),
        map-Occurs (λ (x : PermissionRow). (x, or_else x.result_reason "")) (d p) _
            (order_by-Occurs (λ (x : PermissionRow). or_else x.resolved_at 0) (d p) _
              (select_where-Occurs (is_unsent p.runner_id) _ (d p) (rw here at kept)
                (ground (arith, eq→str_eq p.runner_id p.runner_id refl)))),
      )

-- A decision on a pending request that is allowed.
abbrev pub as_approved : String → String → ℕ → PermissionRow → PermissionRow
as_approved person reason now p = record {
  id = p.id;
  task_id = p.task_id;
  runner_id = p.runner_id;
  operation = p.operation;
  reason = p.reason;
  status = approved;
  requested_at = p.requested_at;
  resolved_by = some person;
  resolved_at = some now;
  result_reason = some reason;
  result_sent_at = none;
}

-- And on one that is not.
abbrev pub as_denied : String → String → ℕ → PermissionRow → PermissionRow
as_denied person reason now p = record (as_approved person reason now p) { status = denied }

decided_lem :
    (allowed : Bool) (person reason : String) (now : ℕ) (p : PermissionRow)
    → decided allowed person reason now p
      ≡ (if allowed then as_approved person reason now p else as_denied person reason now p)
decided_lem true person reason now p = refl
decided_lem false person reason now p = refl

-- The decision of a pending request returns that request, approved if it was allowed and denied
-- if not, with the person, the time and the reason and nothing else changed, and it is among the
-- results that the request's runner is still to be sent, with the reason.
pub resolve_pending :
    (request_id : String) (allowed : Bool) (resolved_by reason : String) (now : ℕ) (db : Db)
    (p : PermissionRow)
    → find_where (has_request request_id) db.permission_requests ≡ some p
    → p.status ≡ pending
    → let r = resolve_permission_request request_id allowed resolved_by reason now db in
      let answer =
        if allowed
        then as_approved resolved_by reason now p
        else as_denied resolved_by reason now p in
      (r.0 ≡ returned answer)
      × Occurs (answer, reason) (list_unsent_permission_results p.runner_id r.1)
resolve_pending request_id allowed resolved_by reason now db p e s =
    let r = resolve_permission_request request_id allowed resolved_by reason now db in
    subst
      (λ (x : PermissionRow).
        (r.0 ≡ returned x) × Occurs (x, reason) (list_unsent_permission_results p.runner_id r.1))
      (decided_lem allowed resolved_by reason now p)
      (resolve-decided request_id allowed resolved_by reason now db p e s)

-- A result that was sent is not sent again: no result that a runner is still to be sent belongs to
-- a request that was marked.
pub mark_sent :
    (request_id runner_id : String) (now : ℕ) (db : Db) (r : PermissionRow × String)
    → Occurs r
        (list_unsent_permission_results runner_id (mark_permission_result_sent request_id now db))
    → r.0.id ≢ request_id
unfolding list_unsent_permission_results mark_permission_result_sent
mark_sent request_id runner_id now db r o e =
    let (x, ox, ex) = Occurs-map _ r _ o in
    let (os, u) = Occurs-select_where (is_unsent runner_id) _ x (Occurs-order_by _ _ x ox) in
    let (y, oy, ey) =
      Occurs-update_where (has_request request_id) (λ p. record p { result_sent_at = some now }) _ x
        os in
    let named : str_eq x.id request_id ≡ true =
      eq→str_eq x.id request_id (sym (ap (λ (z : PermissionRow × String). z.0.id) ex) ∙ e) in
    elim (Bool-cases (has_request request_id y)) [
      | inl h ↦ ground (arith, rw h at ey)
      | inr h ↦ ground (arith, rw h at ey)
    ]
