-- ===== src/Workflow/Approval.antt =====
-- app/workflow.py: `WorkflowEngine.approve`. The parsing of JSON and the commit in the worktree are parameters.
use automated_workflow.Prelude.{
  ℕ, String, Bool, true, false, not, Option, none, some, List, [], ◌∷◌, str_eq, str_append, ◌≡◌, ap,
  arith, inl, inr,
}
use automated_workflow.Prelude.Tests.{if◌then◌else◌, is_none, given_text, or_else, Option-cases}
use automated_workflow.Prelude.Outcome.{
  Outcome, returned, raised, value_error, attribute_error, pure, raise, asks, lift, require, ◌>>=◌,
  ◌>>◌,
}
use automated_workflow.Prelude.Steps.{returned_both, require-returned, returned_then, required_then}
use automated_workflow.Prelude.Table.{find_where}
use automated_workflow.Prelude.Text.{first_chars}
use automated_workflow.Prelude.Json.{Json, null, bool, str, object, end, get, has_key, truthy}
use automated_workflow.Models.{TaskStatus, waiting_approval, delivery}
use automated_workflow.Schema.{Db, TaskRow, ArtifactRow}
use automated_workflow.Storage.Tasks.{Store, found_task, has_id, no_fields, get_task, update_task}
use automated_workflow.Storage.Events.{add_event, add_artifact, list_artifacts}

abbrev pub is_waiting : TaskStatus → Bool
is_waiting waiting_approval = true
is_waiting _ = false

-- The content of the last artifact of a kind.
unfoldable pub latest : String → List ArtifactRow → Option String
latest kind [] = none
latest kind (a ∷ rest) =
    let found = latest kind rest in
    elim found [
      | some content ↦ some content
      | none ↦ if str_eq a.kind kind then some a.content else none
    ]

-- `value.get(key, default)`, which only a JSON object has.
abbrev pub get_or : String → Json → Json → Outcome Json
get_or key default (object fs) = returned (if has_key fs key then get fs key else default)
get_or key default _ = raised attribute_error

module _ (loads : String → Outcome Json) (commit : String → Json → Outcome String) where
  -- An artifact's JSON, and a key of it.
  read_key : String → String → Json → Store Json
  read_key raw key default = do value ← lift (loads raw); lift (get_or key default value)

  -- No acceptance, or one that accepts.
  check_acceptance : Option String → Store (Unit {0})
  check_acceptance none = pure tt
  check_acceptance (some raw) = do
    accepted ← read_key raw "accepted" (bool false)
    require (truthy accepted) (value_error "产品验收未通过，不能自动创建 Commit")

  create_commit : String → String → TaskRow → Json → ℕ → Store (Unit {0})
  create_commit task_id worktree task review now = do
    message ← lift (get_or "mr_title" (str task.title) review)
    commit_hash ← lift (commit worktree message)
    add_artifact task_id "commit" commit_hash now
    add_event task_id (str_append "已创建 Commit：" (first_chars 12 commit_hash)) (some delivery) "info"
        end now
    pure tt

  commit_unless : Option String → String → String → TaskRow → Json → ℕ → Store (Unit {0})
  commit_unless (some existing) task_id worktree task review now = pure tt
  commit_unless none task_id worktree task review now =
      create_commit task_id worktree task review now

  -- The worktree of the task, which must have one.
  worktree_of : Option String → Store String
  worktree_of none = raise (value_error "Task has no worktree")
  worktree_of (some worktree) = pure worktree

  check_review : String → Store Json
  check_review raw = do
    review ← lift (loads raw)
    findings ← lift (get_or "findings" null review)
    require (not (truthy findings)) (value_error "代码审查仍有 findings，不能自动创建 Commit")
    pure review

  commit_task : String → TaskRow → List ArtifactRow → ℕ → Store (Unit {0})
  commit_task task_id task artifacts now = do
    require (is_none (given_text task.runner_id))
        (value_error "Local Runner 任务请在用户电脑的原仓库中手动 Commit")
    require (not task.sync_to_source) (value_error "本地同步模式不会自动提交代码，请在原仓库审查后手动 Commit")
    worktree ← worktree_of (given_text (latest "worktree" artifacts))
    check_acceptance (given_text (latest "acceptance" artifacts))
    review ← check_review (or_else (latest "review" artifacts) "{}")
    commit_unless (given_text (latest "commit" artifacts)) task_id worktree task review now

  unfoldable pub approve : String → String → ℕ → Store TaskRow
  unfolding commit_task check_review worktree_of commit_unless create_commit check_acceptance
      read_key
  approve task_id action now = do
    task ← get_task task_id
    require (is_waiting task.status) (value_error "Task is not waiting for approval")
    artifacts ← asks (list_artifacts task_id)
    if str_eq action "commit" then commit_task task_id task artifacts now else pure tt
    add_event task_id "人工审批已通过" (some delivery) "info" end now
    update_task task_id
        (record no_fields {
          status = some TaskStatus.completed;
          stage = some (some delivery);
          progress = some 100;
        })
        now

-- An acceptance, where there is one, that accepts.
abbrev pub Accepts : (String → Outcome Json) → Option String → Type 0
Accepts loads none = Unit
Accepts loads (some raw) =
    (value : Json) × (accepted : Json) × (loads raw ≡ returned value)
    × (get_or "accepted" (bool false) value ≡ returned accepted)
    × (truthy accepted ≡ true)

-- A review without findings.
abbrev pub IsClean : (String → Outcome Json) → String → Type 0
IsClean loads raw =
    (value : Json) × (findings : Json) × (loads raw ≡ returned value)
    × (get_or "findings" null value ≡ returned findings)
    × (truthy findings ≡ false)

-- What a commit needs of a task and its artifacts.
pub record Committable (loads : String → Outcome Json) (task : TaskRow)
    (artifacts : List ArtifactRow) : Type 0 where
  pub no_runner : given_text task.runner_id ≡ none
  pub no_sync : task.sync_to_source ≡ false
  pub has_worktree :
      (worktree : String) × (given_text (latest "worktree" artifacts) ≡ some worktree)
  pub acceptance : Accepts loads (given_text (latest "acceptance" artifacts))
  pub review : IsClean loads (or_else (latest "review" artifacts) "{}")

module _ (loads : String → Outcome Json) (commit : String → Json → Outcome String) where
  lift-returned :
      {A : Type 0} (r : Outcome A) (s s1 : Db) (a : A)
      → lift r s ≡ (returned a, s1)
      → r ≡ returned a
  lift-returned r s s1 a e = ap (λ o. o.0) e

  accepts_lem :
      (raw : Option String) (s s1 : Db)
      → check_acceptance loads commit raw s ≡ (returned tt, s1)
      → Accepts loads raw
  unfolding check_acceptance read_key
  accepts_lem none s s1 e = tt
  accepts_lem (some raw) s s1 e =
      let (accepted, s2, e1, e2) =
        returned_both (read_key loads commit raw "accepted" (bool false)) _ s s1 tt e in
      let (value, s3, e3, e4) = returned_both (lift (loads raw)) _ s s2 accepted e1 in
      (value, accepted, ap (λ o. o.0) e3, ap (λ o. o.0) e4, (require-returned _ _ s2 s1 e2).0)

  clean_lem :
      (raw : String) (s s1 : Db) (review : Json)
      → check_review loads commit raw s ≡ (returned review, s1)
      → IsClean loads raw
  unfolding check_review
  clean_lem raw s s1 review e =
      let (value, s2, e1, e2) = returned_both (lift (loads raw)) _ s s1 review e in
      let (findings, s3, e3, e4) =
        returned_both (lift (get_or "findings" null value)) _ s2 s1 review e2 in
      let (u, s4, e5, e6) =
        returned_both (require (not (truthy findings)) _) (λ u. pure value) s3 s1 review e4 in
      (
        value,
        findings,
        ap (λ o. o.0) e1,
        ap (λ o. o.0) e3,
        ground (arith, require-returned _ _ s3 s4 e5),
      )

  worktree_lem :
      (w : Option String) (s s1 : Db) (worktree : String)
      → worktree_of loads commit w s ≡ (returned worktree, s1)
      → w ≡ some worktree
  unfolding worktree_of
  worktree_lem none s s1 worktree e = absurd (ground (arith, e))
  worktree_lem (some w) s s1 worktree e = ground (arith, e)

  committable :
      (task_id : String) (task : TaskRow) (artifacts : List ArtifactRow) (now : ℕ) (s s1 : Db)
      → commit_task loads commit task_id task artifacts now s ≡ (returned tt, s1)
      → Committable loads task artifacts
  unfolding commit_task
  committable task_id task artifacts now s s1 e =
      let (a1, e1) = required_then (is_none (given_text task.runner_id)) _ _ s s1 tt e in
      let (a2, e2) = required_then (not task.sync_to_source) _ _ s s1 tt e1 in
      let (w, s4, a3, e3) = returned_both (worktree_of loads commit _) _ s s1 tt e2 in
      let (u3, s5, a4, e4) = returned_then (check_acceptance loads commit _) _ s4 s1 tt e3 in
      let (r, s6, a5, e5) = returned_both (check_review loads commit _) _ s5 s1 tt e4 in
      record {
        no_runner = ground (arith, a1);
        no_sync = ground (arith, a2);
        has_worktree = (w, worktree_lem _ s s4 w a3);
        acceptance = accepts_lem _ s4 s5 a4;
        review = clean_lem _ s5 s6 r a5;
      }

get_task-returned :
    (task_id : String) (db s1 : Db) (task : TaskRow)
    → get_task task_id db ≡ (returned task, s1)
    → (find_where (has_id task_id) db.tasks ≡ some task) × (db ≡ s1)
unfolding get_task found_task
get_task-returned task_id db s1 task e =
    elim (Option-cases (find_where (has_id task_id) db.tasks)) [
      | inl h ↦ absurd (ground (arith, h, e))
      | inr (x, h) ↦ (ground (arith, h, e), ground (arith, e))
    ]

waiting_lem : (status : TaskStatus) → is_waiting status ≡ true → status ≡ waiting_approval
waiting_lem status e = ground (arith, e)

-- An approval of a commit that returns was of a stored task that waits for approval, has no
-- runner, is not synchronised to the source and has a worktree; its last acceptance, if there is
-- one, accepts, and its last review, or the empty one, has no findings.
pub approve_commit :
    (loads : String → Outcome Json) (commit : String → Json → Outcome String) (task_id : String)
    (now : ℕ) (db db1 : Db) (t : TaskRow)
    → approve loads commit task_id "commit" now db ≡ (returned t, db1)
    → (task : TaskRow) × (find_where (has_id task_id) db.tasks ≡ some task)
      × (task.status ≡ waiting_approval)
      × Committable loads task (list_artifacts task_id db)
unfolding approve
approve_commit loads commit task_id now db db1 t e =
    let (task, s1, a1, e1) = returned_both (get_task task_id) _ db db1 t e in
    let (a2, e2) = required_then (is_waiting task.status) _ _ s1 db1 t e1 in
    let (u3, s3, a3, e3) =
      returned_then (commit_task loads commit task_id task (list_artifacts task_id s1) now) _ s1 db1
        t e2 in
    let (found, same) = get_task-returned task_id db s1 task a1 in
    (
      task,
      found,
      waiting_lem task.status a2,
      rw same (committable loads commit task_id task (list_artifacts task_id s1) now s1 s3 a3),
    )
