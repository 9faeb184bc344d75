-- ===== src/Tests/Loops.antt =====
-- The loops of the workflow on concrete commands and agents.
use automated_workflow.Prelude.{ℕ, ◌+◌, ◌≤◌, String, true, none, some, [], ◌∷◌, ◌≡◌, refl}
use automated_workflow.Prelude.Tests.{if◌then◌else◌, ◌==◌}
use automated_workflow.Prelude.Outcome.{Action, returned, raised, task_cancelled}
use automated_workflow.Prelude.Text.{lower}
use automated_workflow.Prelude.Json.{null}
use automated_workflow.Prelude.Table.{find_where, any_where, count_where, update_where, member}
use automated_workflow.Models.{Stage, running}
use automated_workflow.Schema.{Db, TaskRow}
use automated_workflow.Storage.Tasks.{has_id, get_task, found_task, update_task, write_fields}
use automated_workflow.Storage.Events.{add_event, add_artifact}
use automated_workflow.Storage.Jobs.{checkpoint_job}
use automated_workflow.Workflow.{enter, check_cancelled}
use automated_workflow.Workflow.Validation.{
  exited, CommandResult, CodeOutput, Outside, Validation, apply_code, validate_with_fixes,
  validate_passed, validate_cancelled,
}
use automated_workflow.Workflow.Acceptance.{
  ReviewOutput, AcceptanceOutput, Judges, Delivery, Round, is_accepted, join_with,
  run_validation_cycle, judge, acceptance_loop,
}
use automated_workflow.Workflow.Accepted.{IsDelivered, IsRound, loop_accepted}
use automated_workflow.Tests.Data.{empty_db, task_of}

-- What is outside is the number of corrections that were made: a command passes after the first one.
abbrev ran : String → Action ℕ CommandResult
ran command n = (
  returned (record {
    command = command;
    returncode = exited (if n == 0 then 1 else 0);
    combined = "output";
  }),
  n,
)

abbrev fixed : CodeOutput
fixed = record {
  summary = "fix";
  changes = (record { path = "a.py"; content = "pass" }) ∷ [];
  notes = [];
}

abbrev out : Outside ℕ
out = record {
  run_shell = ran;
  collect_context = λ n. (returned "", n);
  code = λ context failure n. (returned fixed, n + 1);
  write_changes = λ changes n. (returned ("a.py" ∷ []), n);
  code_text = λ c. "0";
  code_json = λ c. null;
}

abbrev validation : Validation
validation = record {
  task_id = "t1";
  auto_apply = true;
  context = "context";
  command = "pytest";
  title = "Test";
  stage = Stage.test;
}

abbrev db : Db
db = record empty_db { tasks = task_of "t1" running ∷ [] }

abbrev passing : CommandResult
passing = record { command = "pytest"; returncode = exited 0; combined = "output" }

passes :
    validate_with_fixes out validation 10 1 0 (0, db)
    ≡ (returned passing, (validate_with_fixes out validation 10 1 0 (0, db)).1)
unfolding validate_with_fixes check_cancelled get_task found_task find_where add_event any_where
    apply_code
passes = refl

validate_passed_example : passing.returncode ≡ exited 0
validate_passed_example =
    validate_passed out validation 10 1 0 (0, db)
      (validate_with_fixes out validation 10 1 0 (0, db)).1 passing passes

abbrev asked : TaskRow
asked = record (task_of "t1" running) { cancel_requested = true }

abbrev asked_db : Db
asked_db = record empty_db { tasks = asked ∷ [] }

asked_found : find_where (has_id "t1") asked_db.tasks ≡ some asked
unfolding find_where
asked_found = refl

validate_cancelled_example :
    validate_with_fixes out validation 10 3 0 (0, asked_db) ≡ (raised task_cancelled, (0, asked_db))
validate_cancelled_example =
    validate_cancelled out validation 10 3 0 (0, asked_db) asked asked_found refl

abbrev approval : ReviewOutput
approval = record {
  verdict = "Approved";
  findings = [];
  test_gaps = [];
  mr_title = "title";
  mr_description = "description";
}

-- The first round has a low score, and its correction raises it.
abbrev judged : String → String → ReviewOutput → Action ℕ AcceptanceOutput
judged diff text review n = (
  returned (record {
    accepted = true;
    score = if n == 0 then 60 else 90;
    passed_criteria = [];
    failed_criteria = [];
    corrective_instructions = [];
    rationale = "";
  }),
  n,
)

abbrev judges : Judges ℕ
judges = record {
  hygiene_findings = λ n. (returned [], n);
  diff = λ n. (returned "diff", n);
  review = λ diff text n. (returned approval, n);
  accept = judged;
  route = λ role. null;
  review_dump = λ r. "review";
  acceptance_dump = λ a. "acceptance";
  code_dump = λ c. "code";
}

abbrev delivery : Delivery
delivery = record {
  task_id = "t1";
  auto_apply = true;
  context = "context";
  build_command = none;
  test_command = none;
  run_command = none;
  max_fix_attempts = 3;
  product_quality_threshold = 85;
}

abbrev last_round : Round
last_round = record {
  review = approval;
  acceptance = record {
    accepted = true;
    score = 90;
    passed_criteria = [];
    failed_criteria = [];
    corrective_instructions = [];
    rationale = "";
  };
  accepted = true;
  validation = "\n\n$ deterministic repository hygiene check\nexit=0";
  run_result = none;
}

second_round :
    acceptance_loop out judges delivery 10 2 0 (0, db)
    ≡ (returned last_round, (acceptance_loop out judges delivery 10 2 0 (0, db)).1)
unfolding acceptance_loop run_validation_cycle join_with is_accepted enter check_cancelled
    checkpoint_job get_task found_task find_where update_task write_fields count_where update_where
    add_event add_artifact any_where apply_code lower member
second_round = refl

loop_accepted_example :
    (k : ℕ) × (s0 : ℕ × Db) × (k ≤ 2)
    × (judge out judges delivery 10 k s0
        ≡ (returned (last_round, []), (acceptance_loop out judges delivery 10 2 0 (0, db)).1))
    × IsRound out judges delivery 10 s0
        (acceptance_loop out judges delivery 10 2 0 (0, db)).1
        []
        last_round
    × IsDelivered 85 last_round
loop_accepted_example =
    loop_accepted out judges delivery 10 2 (0, db)
      (acceptance_loop out judges delivery 10 2 0 (0, db)).1 last_round second_round refl
