-- ===== src/Tests/Records.antt =====
-- The logs of messages, the mailed codes and the permissions on concrete rows.
use automated_workflow.Prelude.{
  String, true, false, none, some, [], ◌∷◌, ◌≡◌, ◌≢◌, refl, arith, inl,
}
use automated_workflow.Prelude.Outcome.{returned}
use automated_workflow.Prelude.Rows.{Occurs}
use automated_workflow.Prelude.Table.{
  update_where, select_where, find_where, any_where, insert_by, order_by,
}
use automated_workflow.Models.{pending}
use automated_workflow.Schema.{Db, PermissionRow}
use automated_workflow.Storage.Challenges.{create_email_challenge, consume_email_challenge}
use automated_workflow.Storage.Challenges.Guesses.{guesses, guess_bound}
use automated_workflow.Storage.Permissions.{
  resolve_permission_request, list_unsent_permission_results, mark_permission_result_sent,
  has_request, decided,
}
use automated_workflow.Storage.Permissions.Decisions.{as_approved, resolve_pending, mark_sent}
use automated_workflow.Tests.Data.{empty_db}

abbrev one_code : Db
one_code = (create_email_challenge "c1" "a@b.c" "ip" "right" 100 2 10 empty_db).1

created :
    create_email_challenge "c1" "a@b.c" "ip" "right" 100 2 10 empty_db ≡ (returned tt, one_code)
unfolding create_email_challenge any_where
created = refl

guess_bound_example :
    (consume_email_challenge "c1" "a@b.c" "right" 40
      (guesses "c1" "a@b.c" (("wrong", 20) ∷ ("bad", 30) ∷ []) one_code)).0
    ≡ false
guess_bound_example =
    guess_bound "c1" "a@b.c" "ip" "right" 100 2 10 empty_db one_code
      (("wrong", 20) ∷ ("bad", 30) ∷ []) "a@b.c" "right" 40 created (omega arith, (omega arith, tt))
      refl

abbrev request : PermissionRow
request = record {
  id = "p1";
  task_id = "t1";
  runner_id = "r1";
  operation = "shell";
  reason = "build";
  status = pending;
  requested_at = 5;
  resolved_by = none;
  resolved_at = none;
  result_reason = none;
  result_sent_at = none;
}

abbrev one_request : Db
one_request = record empty_db { permission_requests = request ∷ [] }

request_found : find_where (has_request "p1") one_request.permission_requests ≡ some request
unfolding find_where
request_found = refl

resolve_pending_example :
    let r = resolve_permission_request "p1" true "u1" "fine" 10 one_request in
    (r.0 ≡ returned (as_approved "u1" "fine" 10 request))
    × Occurs (as_approved "u1" "fine" 10 request, "fine") (list_unsent_permission_results "r1" r.1)
resolve_pending_example =
    resolve_pending "p1" true "u1" "fine" 10 one_request request request_found refl

abbrev two_decided : Db
two_decided = record empty_db {
  permission_requests =
      decided true "u1" "fine" 10 request
      ∷ decided true "u1" "fine" 10 (record request { id = "p2" })
      ∷ [];
}

unsent :
    Occurs
      (decided true "u1" "fine" 10 (record request { id = "p2" }), "fine")
      (list_unsent_permission_results "r1" (mark_permission_result_sent "p1" 20 two_decided))
unfolding list_unsent_permission_results mark_permission_result_sent update_where select_where
    insert_by order_by
unsent = inl refl

mark_sent_example : ◌≢◌ {A = String} "p2" "p1"
mark_sent_example =
    mark_sent "p1" "r1" 20 two_decided
      (decided true "u1" "fine" 10 (record request { id = "p2" }), "fine") unsent
