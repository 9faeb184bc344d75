-- ===== src/Workflow/Validation.antt =====
-- app/workflow.py: `_validate_with_fixes` and `_apply_code`. The command, the agent and the files are outside the database:
-- operations on a state of their own, which are parameters.
use automated_workflow.Prelude.{
  ℕ, zero, suc, ◌+◌, String, Bool, true, false, List, some, map, str_eq, str_append, ◌≡◌, refl,
  arith, inl, inr, ◌⊎◌,
}
use automated_workflow.Prelude.Tests.{if◌then◌else◌}
use automated_workflow.Prelude.Outcome.{
  Action, returned, raised, repository_error, task_cancelled, pure, raise, ◌>>=◌, ◌>>◌,
}
use automated_workflow.Prelude.Steps.{returned_both, returned_then}
use automated_workflow.Prelude.Table.{length, find_where}
use automated_workflow.Prelude.Text.{last_chars, show}
use automated_workflow.Prelude.Json.{Json, str, array, field, end, texts}
use automated_workflow.Models.{Stage}
use automated_workflow.Schema.{Db, TaskRow}
use automated_workflow.Storage.Tasks.{Store, has_id}
use automated_workflow.Storage.Events.{add_event}
use automated_workflow.Storage.Tasks.Writes.{get_task-found}
use automated_workflow.Workflow.{check_cancelled}

-- The code of a process that exited, or that a signal ended (a negative number).
pub data ReturnCode : Type 0 where
  exited signalled : ℕ → ReturnCode

abbrev pub is_zero : ReturnCode → Bool
is_zero (exited zero) = true
is_zero _ = false

pub record CommandResult : Type 0 where
  pub command : String
  pub returncode : ReturnCode
  pub combined : String

pub record FileChange : Type 0 where
  pub path : String
  pub content : String

pub record CodeOutput : Type 0 where
  pub summary : String
  pub changes : List FileChange
  pub notes : List String

-- What is outside the database: the worktree, the sandbox and the agents.
pub record Outside (W : Type 0) : Type 1 where
  pub run_shell : String → Action W CommandResult
  pub collect_context : Action W String
  -- The context and the failure
  pub code : String → String → Action W CodeOutput
  pub write_changes : List FileChange → Action W (List String)
  pub code_text : ReturnCode → String
  pub code_json : ReturnCode → Json

abbrev pub Work : Type 0 → Type 0 → Type 0
Work W A = Action (W × Db) A

module _ {W : Type 0} where
  abbrev pub stored : {A : Type 0} → Store A → Work W A
  stored m s = ((m s.1).0, (s.0, (m s.1).1))

  abbrev pub outside : {A : Type 0} → Action W A → Work W A
  outside m s = ((m s.0).0, ((m s.0).1, s.1))

  unfoldable pub apply_code : Outside W → CodeOutput → Bool → Work W (List String)
  apply_code out code true = outside (out.write_changes code.changes)
  apply_code out code false = pure (map (λ c. c.path) code.changes)

-- `refreshed or context`
abbrev pub refreshed_or : String → String → String
refreshed_or refreshed context = if str_eq refreshed "" then context else refreshed

-- The calls of one validation: `title` is the capitalised kind, which with `stage` stands for the kind.
pub record Validation : Type 0 where
  pub task_id : String
  pub auto_apply : Bool
  pub context : String
  pub command : String
  pub title : String
  pub stage : Stage

exit_lem : (c : ReturnCode) → is_zero c ≡ true → c ≡ exited 0
exit_lem (exited zero) e = refl
exit_lem (exited (suc n)) e = absurd (ground (arith, e))
exit_lem (signalled n) e = absurd (ground (arith, e))

stops :
    (task_id : String) (db : Db) (task : TaskRow)
    → find_where (has_id task_id) db.tasks ≡ some task
    → task.cancel_requested ≡ true
    → check_cancelled task_id db ≡ (raised task_cancelled, db)
unfolding check_cancelled
stops task_id db task found c = rw (get_task-found task_id db task found, c) refl

module _ {W : Type 0} (out : Outside W) (v : Validation) (now : ℕ) where
  -- One run of the command, with its event.
  abbrev pub attempt_command : ℕ → Work W CommandResult
  attempt_command attempt = do
    stored (check_cancelled v.task_id)
    result ← outside (out.run_shell v.command)
    let passed = is_zero result.returncode
    stored (
        add_event v.task_id
          (str_append v.title (
            str_append " attempt "
              (str_append (show (attempt + 1)) (if passed then " passed" else " failed"))))
          (some v.stage) (if passed then "info" else "warning")
          (field "returncode" (out.code_json result.returncode)
            (field "output" (str (last_chars 6000 result.combined)) end))
          now)
    pure result

  -- The agent's correction after a failed run.
  abbrev pub fix_command : CommandResult → Work W (Unit {0})
  fix_command result = do
    refreshed ← outside out.collect_context
    code ← outside (
        out.code (refreshed_or refreshed v.context)
          (str_append "Command: " (str_append v.command (str_append "\n" result.combined))))
    written ← apply_code out code v.auto_apply
    stored (
        add_event v.task_id
          (str_append "Fix agent updated " (str_append (show (length written)) " files"))
          (some v.stage) "info" (field "files" (array (texts written)) end) now)
    pure tt

  abbrev pub give_up : ℕ → CommandResult → Work W CommandResult
  give_up attempt result = raise (
      repository_error (
        str_append v.title (
          str_append " failed after " (
            str_append (show (attempt + 1))
              (str_append " attempts:\n" (last_chars 8000 result.combined))))))

  -- The loop: the number of corrections that are left, and the number of the attempt, from 0. The
  -- first is `max_fix_attempts` at the start.
  unfoldable pub validate_with_fixes : ℕ → ℕ → Work W CommandResult
  validate_with_fixes zero attempt = do
    result ← attempt_command attempt
    if is_zero result.returncode then pure result else give_up attempt result
  validate_with_fixes (suc left) attempt =
      let rest = validate_with_fixes left (attempt + 1) in
      (attempt_command attempt) >>= λ result.
      if is_zero result.returncode then pure result else (fix_command result >> rest)

  chosen :
      (b : Bool) (r : CommandResult) (k : Work W CommandResult) (s s1 : W × Db)
      (result : CommandResult)
      → (if b then pure r else k) s ≡ (returned result, s1)
      → ((b ≡ true) × (r ≡ result)) ⊎ (k s ≡ (returned result, s1))
  chosen true r k s s1 result e = inl (refl, ground (arith, e))
  chosen false r k s s1 result e = inr e

  -- A validation that returns returns the result of a run that passed: the exit code is 0.
  pub validate_passed :
      (left attempt : ℕ) (s s1 : W × Db) (result : CommandResult)
      → validate_with_fixes left attempt s ≡ (returned result, s1)
      → result.returncode ≡ exited 0
  unfolding validate_with_fixes
  validate_passed zero attempt s s1 result e =
      let (r, s2, e1, e2) = returned_both (attempt_command attempt) _ s s1 result e in
      elim (chosen (is_zero r.returncode) r (give_up attempt r) s2 s1 result e2) [
        | inl (z, same) ↦ rw (← same) (exit_lem r.returncode z)
        | inr k ↦ absurd (ground (arith, k))
      ]
  validate_passed (suc left) attempt s s1 result e =
      let (r, s2, e1, e2) = returned_both (attempt_command attempt) _ s s1 result e in
      elim (chosen (is_zero r.returncode) r _ s2 s1 result e2) [
        | inl (z, same) ↦ rw (← same) (exit_lem r.returncode z)
        | inr k ↦
            let (u, s3, e3, e4) =
              returned_then (fix_command r) (validate_with_fixes left (attempt + 1)) s2 s1 result
                k in
            validate_passed left (attempt + 1) s3 s1 result e4
      ]

  -- A validation of a task that exists and whose cancellation was requested runs no command: it
  -- ends with the exception for it, and neither the database nor anything outside it changes.
  pub validate_cancelled :
      (left attempt : ℕ) (s : W × Db) (task : TaskRow)
      → find_where (has_id v.task_id) s.1.tasks ≡ some task
      → task.cancel_requested ≡ true
      → validate_with_fixes left attempt s ≡ (raised task_cancelled, s)
  unfolding validate_with_fixes
  validate_cancelled zero attempt s task found c = rw (stops v.task_id s.1 task found c) refl
  validate_cancelled (suc left) attempt s task found c = rw (stops v.task_id s.1 task found c) refl
