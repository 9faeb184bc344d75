-- ===== src/Workflow/Acceptance.antt =====
-- app/workflow.py: `_run_validation_cycle` and `_acceptance_loop`. The agents that review and accept, and the checks of the
-- worktree, are outside the database.
use automated_workflow.Prelude.{
  ℕ, zero, suc, ◌+◌, String, Bool, ◌&&◌, Option, none, some, List, [], ◌∷◌, ◌++◌, str_append,
}
use automated_workflow.Prelude.Tests.{if◌then◌else◌, leb, given_text}
use automated_workflow.Prelude.Outcome.{Action, pure, ◌>>=◌, ◌>>◌}
use automated_workflow.Prelude.Table.{length, member}
use automated_workflow.Prelude.Text.{last_chars, show, lower}
use automated_workflow.Prelude.Json.{Json, bool, number, array, Fields, field, end, texts}
use automated_workflow.Models.{Stage}
use automated_workflow.Storage.Tasks.{Store}
use automated_workflow.Storage.Events.{add_event, add_artifact}
use automated_workflow.Workflow.{enter, is_empty}
use automated_workflow.Workflow.Validation.{
  CommandResult, CodeOutput, Outside, Work, stored, outside, apply_code, refreshed_or,
  validate_with_fixes,
}

pub record ReviewOutput : Type 0 where
  pub verdict : String
  pub findings : List String
  pub test_gaps : List String
  pub mr_title : String
  pub mr_description : String

pub record AcceptanceOutput : Type 0 where
  pub accepted : Bool
  pub score : ℕ
  pub passed_criteria : List String
  pub failed_criteria : List String
  pub corrective_instructions : List String
  pub rationale : String

-- The agents, the checks of the worktree, and the texts of what the agents return.
pub record Judges (W : Type 0) : Type 1 where
  pub hygiene_findings : Action W (List String)
  pub diff : Action W String
  -- The diff and the validation
  pub review : String → String → Action W ReviewOutput
  pub accept : String → String → ReviewOutput → Action W AcceptanceOutput
  pub route : String → Json
  pub review_dump : ReviewOutput → String
  pub acceptance_dump : AcceptanceOutput → String
  pub code_dump : CodeOutput → String

-- The task, the commands, and the limits of the settings.
pub record Delivery : Type 0 where
  pub task_id : String
  pub auto_apply : Bool
  pub context : String
  pub build_command : Option String
  pub test_command : Option String
  pub run_command : Option String
  pub max_fix_attempts : ℕ
  pub product_quality_threshold : ℕ

-- `separator.join(texts)`
unfoldable pub join_with : String → List String → String
join_with separator [] = ""
join_with separator (t ∷ []) = t
join_with separator (t ∷ (u ∷ us)) =
    str_append t (str_append separator (join_with separator (u ∷ us)))

abbrev pub approving : List String
approving = "approved" ∷ "approve" ∷ "pass" ∷ "passed" ∷ []

unfoldable pub is_accepted : ℕ → AcceptanceOutput → ReviewOutput → List String → Bool
is_accepted threshold acceptance review hygiene =
    acceptance.accepted
    && leb threshold acceptance.score
    && is_empty acceptance.failed_criteria
    && is_empty acceptance.corrective_instructions
    && is_empty review.findings
    && is_empty hygiene
    && member (lower review.verdict) approving

-- What a round of the loop found; the last one is what the loop returns.
pub record Round : Type 0 where
  pub review : ReviewOutput
  pub acceptance : AcceptanceOutput
  pub accepted : Bool
  pub validation : String
  pub run_result : Option CommandResult

module _ {W : Type 0} (out : Outside W) (judges : Judges W) (d : Delivery) (now : ℕ) where
  abbrev pub format_result : CommandResult → String
  format_result result = str_append "$ " (
      str_append result.command (
        str_append "\nexit=" (
          str_append (out.code_text result.returncode)
            (str_append "\n" (last_chars 12000 result.combined)))))

  abbrev pub validated : String → String → Stage → Work W CommandResult
  validated title command stage =
      validate_with_fixes out
        (record {
          task_id = d.task_id;
          auto_apply = d.auto_apply;
          context = d.context;
          command = command;
          title = title;
          stage = stage;
        })
        now d.max_fix_attempts 0

  abbrev pub announce : Stage → String → Work W (Unit {0})
  announce stage message = stored (enter d.task_id stage message end now)

  -- A command, or the note that there is none.
  abbrev pub run_step : String → Stage → String → String → Option String → Work W (List String)
  run_step title stage doing skipped none = do announce stage skipped; pure []
  run_step title stage doing skipped (some command) = do
    announce stage (str_append doing command)
    result ← validated title command stage
    pure (format_result result ∷ [])

  abbrev pub run_feature : Option String → Work W (Option CommandResult)
  run_feature none = do
    stored (add_event d.task_id "Planner 未提供功能运行命令，无法采集用户可见输出" (some Stage.test) "warning" end now)
    pure none
  run_feature (some command) = do
    announce Stage.test (str_append "执行功能运行命令：" command)
    result ← validated "Run" command Stage.test
    pure (some result)

  abbrev pub logged : Option CommandResult → List String
  logged none = []
  logged (some result) = format_result result ∷ []

  unfoldable pub run_validation_cycle : Work W (String × Option CommandResult)
  run_validation_cycle = do
    build ← run_step "Build" Stage.build "执行构建：" "未检测到构建命令，已跳过" (given_text d.build_command)
    tests ← run_step "Test" Stage.test "执行测试：" "未检测到测试命令，已跳过" (given_text d.test_command)
    run ← run_feature (given_text d.run_command)
    pure (join_with "\n\n" (build ++ (tests ++ logged run)), run)

  abbrev pub hygiene_log : List String → String
  hygiene_log [] = "\n\n$ deterministic repository hygiene check\nexit=0"
  hygiene_log (h ∷ hs) =
      str_append "\n\n$ deterministic repository hygiene check\nexit=1\n" (join_with "\n" (h ∷ hs))

  abbrev pub routed : String → Fields
  routed role = field "route" (judges.route role) end

  abbrev pub announce_review : ℕ → Store (Unit {0})
  announce_review iteration =
      enter d.task_id Stage.review
        (str_append "Reviewer 正在执行第 " (str_append (show (iteration + 1)) " 轮代码审查"))
        (routed "reviewer") now

  abbrev pub keep_review : ℕ → ReviewOutput → Store (Unit {0})
  keep_review iteration review = do
    add_artifact d.task_id "review" (judges.review_dump review) now
    add_artifact d.task_id "mr_description" review.mr_description now
    add_event d.task_id (str_append "审查结论：" review.verdict) (some Stage.review)
        (if is_empty review.findings then "info" else "warning")
        (field "iteration" (number (iteration + 1))
          (field "findings" (array (texts review.findings)) (routed "reviewer")))
        now
    pure tt

  abbrev pub judge_review : ℕ → String → String → Work W ReviewOutput
  judge_review iteration diff validation = do
    stored (announce_review iteration)
    review ← outside (judges.review diff validation)
    stored (keep_review iteration review)
    pure review

  abbrev pub announce_acceptance : ℕ → Store (Unit {0})
  announce_acceptance iteration =
      enter d.task_id Stage.acceptance
        (str_append "Product Manager 正在执行第 " (str_append (show (iteration + 1)) " 轮交付验收"))
        (routed "acceptance") now

  abbrev pub keep_acceptance : ℕ → AcceptanceOutput → List String → Bool → Store (Unit {0})
  keep_acceptance iteration acceptance hygiene accepted = do
    add_artifact d.task_id "acceptance" (judges.acceptance_dump acceptance) now
    add_event d.task_id
        (str_append "产品验收第 " (
          str_append (show (iteration + 1))
            (str_append " 轮：" (str_append (show acceptance.score) "/100"))))
        (some Stage.acceptance) (if accepted then "info" else "warning")
        (field "iteration" (number (iteration + 1)) (
          field "accepted" (bool accepted) (
            field "failed_criteria" (array (texts acceptance.failed_criteria))
              (field "hygiene_findings" (array (texts hygiene)) (routed "acceptance")))))
        now
    pure tt

  abbrev pub judge_acceptance :
      ℕ → String → String → ReviewOutput → List String → Work W AcceptanceOutput
  judge_acceptance iteration diff validation review hygiene = do
    stored (announce_acceptance iteration)
    acceptance ← outside (judges.accept diff validation review)
    let accepted = is_accepted d.product_quality_threshold acceptance review hygiene
    stored (keep_acceptance iteration acceptance hygiene accepted)
    pure acceptance

  abbrev pub keep_checks : String → String → Store (Unit {0})
  keep_checks diff validation = do
    add_artifact d.task_id "diff" diff now
    add_artifact d.task_id "validation" validation now
    pure tt

  -- A round, with the findings of hygiene.
  abbrev pub judge : ℕ → Work W (Round × List String)
  judge iteration = do
    cycle ← run_validation_cycle
    hygiene ← outside judges.hygiene_findings
    let validation = str_append cycle.0 (hygiene_log hygiene)
    diff ← outside judges.diff
    stored (keep_checks diff validation)
    review ← judge_review iteration diff validation
    acceptance ← judge_acceptance iteration diff validation review hygiene
    pure (
      record {
        review = review;
        acceptance = acceptance;
        accepted = is_accepted d.product_quality_threshold acceptance review hygiene;
        validation = validation;
        run_result = cycle.1;
      },
      hygiene,
    )

  abbrev pub correct : ℕ → Round → List String → Work W (Unit {0})
  correct iteration r hygiene = do
    let corrections =
        r.acceptance.corrective_instructions
        ++ (r.review.findings ++ (r.review.test_gaps ++ hygiene))
    stored (
        enter d.task_id Stage.coder
          (str_append "产品验收未通过，Coder 正在执行第 " (str_append (show (iteration + 1)) " 轮纠偏"))
          (routed "coder") now)
    refreshed ← outside out.collect_context
    fix ← outside (
        out.code (refreshed_or refreshed d.context)
          (str_append "Product acceptance corrections:\n" (join_with "\n" corrections)))
    written ← apply_code out fix d.auto_apply
    stored (add_artifact d.task_id "code_summary" (judges.code_dump fix) now)
    stored (
        add_event d.task_id (str_append "纠偏 Agent 更新了 " (str_append (show (length written)) " 个文件"))
          (some Stage.coder) "info"
          (field "files" (array (texts written))
            (field "corrections" (array (texts corrections)) end))
          now)
    pure tt

  -- The loop: the number of corrections that are left, `max_acceptance_iterations` at the start, and the
  -- number of the round, from 0.
  unfoldable pub acceptance_loop : ℕ → ℕ → Work W Round
  acceptance_loop zero iteration = judge iteration >>= λ x. pure x.0
  acceptance_loop (suc left) iteration =
      let rest = acceptance_loop left (iteration + 1) in
      judge iteration >>= λ x.
      if x.0.accepted then pure x.0 else (correct iteration x.0 x.1 >> rest)
