-- ===== src/Workflow/Accepted.antt =====
-- What the acceptance loop returns.
use automated_workflow.Prelude.{
  ℕ, Option, str_append, zero, suc, ◌+◌, ◌≤◌, String, true, List, [], ◌∷◌, ◌≡◌, refl, sym, ◌∙◌,
  arith, ap, subst, inl, inr,
}
use automated_workflow.Prelude.Tests.{Bool-cases}
use automated_workflow.Prelude.Outcome.{Action, Outcome, returned, pure, ◌>>◌}
use automated_workflow.Prelude.Steps.{returned_both, returned_then, returned_inj}
use automated_workflow.Prelude.Table.{member}
use automated_workflow.Prelude.Text.{lower}
use automated_workflow.Schema.{Db}
use automated_workflow.Workflow.{is_empty}
use automated_workflow.Workflow.Validation.{Outside, Work, CommandResult, stored, outside}
use automated_workflow.Storage.Tasks.{Store}
use automated_workflow.Workflow.Acceptance.{
  announce_review, keep_review, announce_acceptance, keep_acceptance, keep_checks, Judges, Delivery,
  Round, ReviewOutput, AcceptanceOutput, is_accepted, run_validation_cycle, hygiene_log,
  judge_review, judge_acceptance, judge, correct, acceptance_loop,
}

is_empty_lem : (ts : List String) → is_empty ts ≡ true → ts ≡ []
is_empty_lem [] e = refl
is_empty_lem (t ∷ ts) e = absurd (ground (arith, e))

-- All that the acceptance of a round asks of the two agents.
pub record IsDelivered (threshold : ℕ) (r : Round) : Type 0 where
  pub agrees : r.acceptance.accepted ≡ true
  pub scored : threshold ≤ r.acceptance.score
  pub no_failure : r.acceptance.failed_criteria ≡ []
  pub no_correction : r.acceptance.corrective_instructions ≡ []
  pub no_finding : r.review.findings ≡ []
  pub verdict :
      member (lower r.review.verdict) ("approved" ∷ "approve" ∷ "pass" ∷ "passed" ∷ []) ≡ true

delivered :
    (threshold : ℕ) (r : Round) (hygiene : List String)
    → is_accepted threshold r.acceptance r.review hygiene ≡ true
    → IsDelivered threshold r × (hygiene ≡ [])
unfolding is_accepted
delivered threshold r hygiene e = (
  record {
    agrees = ground (arith, e);
    scored = ground (arith, e);
    no_failure = is_empty_lem r.acceptance.failed_criteria (ground (arith, e));
    no_correction = is_empty_lem r.acceptance.corrective_instructions (ground (arith, e));
    no_finding = is_empty_lem r.review.findings (ground (arith, e));
    verdict = ground (arith, e);
  },
  is_empty_lem hygiene (ground (arith, e)),
)

ended :
    {S : Type 0} {A : Type 0} {B : Type 0} (m : Action S (A × B)) (s s2 s1 : S) (x : A × B) (a : A)
    → m s ≡ (returned x, s2)
    → pure x.0 s2 ≡ (returned a, s1)
    → m s ≡ (returned (a, x.1), s1)
ended {S = S} {A = A} m s s2 s1 x a e e1 =
    let value : x.0 ≡ a = returned_inj (ap (λ (o : Outcome A × S). o.0) e1) in
    let state : s2 ≡ s1 = ap (λ (o : Outcome A × S). o.1) e1 in rw (← value, ← state) e

module _ {W : Type 0} {A : Type 0} where
  -- What is outside does what it does there.
  outside_lem :
      (m : Action W A) (s s1 : W × Db) (a : A)
      → outside m s ≡ (returned a, s1)
      → m s.0 ≡ (returned a, s1.0)
  outside_lem m s s1 a e = ap (λ (r : Outcome A × (W × Db)). (r.0, r.1.0)) e

  -- After a write.
  stored_then :
      (m : Store (Unit {0})) (k : Work W A) (s s2 : W × Db) (a : A)
      → (stored m >> k) s ≡ (returned a, s2)
      → (s1 : W × Db) × (s1.0 ≡ s.0) × (k s1 ≡ (returned a, s2))
  stored_then m k s s2 a e =
      let (b, s1, e1, e2) = returned_then (stored m) k s s2 a e in
      (s1, ap (λ (r : Outcome Unit × (W × Db)). r.1.0) (sym e1), e2)

-- How a round came about outside the database, each step where the one before it ended: the
-- commands ran, the worktree was checked, its diff was taken, and with that diff and the log of
-- both checks the reviewer was asked, and with the review the product manager.
pub record IsRound {W : Type 0} (out : Outside W) (judges : Judges W) (d : Delivery) (now : ℕ)
    (s s1 : W × Db) (hygiene : List String) (r : Round) : Type 0 where
  pub cycle : String × Option CommandResult
  pub ran : W × Db
  pub checked : W
  pub diff : String
  pub diffed : W
  pub reviewed : W
  pub runs : run_validation_cycle out judges d now s ≡ (returned cycle, ran)
  pub checks : judges.hygiene_findings ran.0 ≡ (returned hygiene, checked)
  pub diffs : judges.diff checked ≡ (returned diff, diffed)
  pub reviews : judges.review diff r.validation diffed ≡ (returned r.review, reviewed)
  pub accepts : judges.accept diff r.validation r.review reviewed ≡ (returned r.acceptance, s1.0)
  pub text : r.validation ≡ str_append cycle.0 (hygiene_log out judges d now hygiene)
  pub result : r.run_result ≡ cycle.1

module _ {W : Type 0} (out : Outside W) (judges : Judges W) (d : Delivery) (now : ℕ) where
  judge_review-returned :
      (iteration : ℕ) (diff validation : String) (s s1 : W × Db) (review : ReviewOutput)
      → judge_review out judges d now iteration diff validation s ≡ (returned review, s1)
      → judges.review diff validation s.0 ≡ (returned review, s1.0)
  judge_review-returned iteration diff validation s s1 review e =
      let ask = outside (judges.review diff validation) in
      let (s2, w2, e2) = stored_then (announce_review out judges d now iteration) _ s s1 review e in
      let (r, s3, a3, e3) = returned_both ask _ s2 s1 review e2 in
      let (s4, w4, e4) = stored_then (keep_review out judges d now iteration r) _ s3 s1 review e3 in
      let same : r ≡ review = returned_inj (ap (λ (o : Outcome ReviewOutput × (W × Db)). o.0) e4) in
      let last : s3.0 ≡ s1.0 = sym w4 ∙ ap (λ (o : Outcome ReviewOutput × (W × Db)). o.1.0) e4 in
      rw (← w2, ← same, ← last) (outside_lem (judges.review diff validation) s2 s3 r a3)

  judge_acceptance-returned :
      (iteration : ℕ) (diff validation : String) (review : ReviewOutput) (hygiene : List String)
      (s s1 : W × Db) (acceptance : AcceptanceOutput)
      → judge_acceptance out judges d now iteration diff validation review hygiene s
        ≡ (returned acceptance, s1)
      → judges.accept diff validation review s.0 ≡ (returned acceptance, s1.0)
  judge_acceptance-returned iteration diff validation review hygiene s s1 acceptance e =
      let ask = outside (judges.accept diff validation review) in
      let (s2, w2, e2) =
        stored_then (announce_acceptance out judges d now iteration) _ s s1 acceptance e in
      let (r, s3, a3, e3) = returned_both ask _ s2 s1 acceptance e2 in
      let accepted = is_accepted d.product_quality_threshold r review hygiene in
      let (s4, w4, e4) =
        stored_then (keep_acceptance out judges d now iteration r hygiene accepted) _ s3 s1
          acceptance e3 in
      let same : r ≡ acceptance =
        returned_inj (ap (λ (o : Outcome AcceptanceOutput × (W × Db)). o.0) e4) in
      let last : s3.0 ≡ s1.0 =
        sym w4 ∙ ap (λ (o : Outcome AcceptanceOutput × (W × Db)). o.1.0) e4 in
      rw (← w2, ← same, ← last) (outside_lem (judges.accept diff validation review) s2 s3 r a3)

  judge-IsRound :
      (iteration : ℕ) (s s1 : W × Db) (r : Round) (hygiene : List String)
      → judge out judges d now iteration s ≡ (returned (r, hygiene), s1)
      → IsRound out judges d now s s1 hygiene r
        × (r.accepted ≡ is_accepted d.product_quality_threshold r.acceptance r.review hygiene)
  judge-IsRound iteration s s1 r hygiene e =
      let (cycle, s2, a2, e2) =
        returned_both (run_validation_cycle out judges d now) _ s s1 (r, hygiene) e in
      let (found, s3, a3, e3) =
        returned_both (outside judges.hygiene_findings) _ s2 s1 (r, hygiene) e2 in
      let text = str_append cycle.0 (hygiene_log out judges d now found) in
      let (diff, s4, a4, e4) = returned_both (outside judges.diff) _ s3 s1 (r, hygiene) e3 in
      let (s5, w5, e5) =
        stored_then (keep_checks out judges d now diff text) _ s4 s1 (r, hygiene) e4 in
      let (review, s6, a6, e6) =
        returned_both (judge_review out judges d now iteration diff text) _ s5 s1 (r, hygiene) e5 in
      let (acceptance, s7, a7, e7) =
        returned_both (judge_acceptance out judges d now iteration diff text review found) _ s6 s1
          (r, hygiene) e6 in
      let made : Round × List String = (
        record {
          review = review;
          acceptance = acceptance;
          accepted = is_accepted d.product_quality_threshold acceptance review found;
          validation = text;
          run_result = cycle.1;
        },
        found,
      ) in
      let same : made ≡ (r, hygiene) =
        returned_inj (ap (λ (o : Outcome (Round × List String) × (W × Db)). o.0) e7) in
      let ends : s7 ≡ s1 = ap (λ (o : Outcome (Round × List String) × (W × Db)). o.1) e7 in
      let shown = judge_review-returned iteration diff text s5 s6 review a6 in
      let asked = judge_acceptance-returned iteration diff text review found s6 s7 acceptance a7 in
      let round : IsRound out judges d now s s7 found made.0 = record {
        cycle = cycle;
        ran = s2;
        checked = s3.0;
        diff = diff;
        diffed = s4.0;
        reviewed = s6.0;
        runs = a2;
        checks = outside_lem judges.hygiene_findings s2 s3 found a3;
        diffs = outside_lem judges.diff s3 s4 diff a4;
        reviews = subst (λ (w : W). judges.review diff text w ≡ (returned review, s6.0)) w5 shown;
        accepts = asked;
        text = refl;
        result = refl;
      } in
      subst
        (λ (x : Round × List String).
          IsRound out judges d now s s1 x.1 x.0
          × (x.0.accepted ≡ is_accepted d.product_quality_threshold x.0.acceptance x.0.review x.1))
        same (subst (λ (t : W × Db). IsRound out judges d now s t found made.0) ends round, refl)

  -- The last round of the loop, from the state in which it began.
  last_round :
      (left iteration : ℕ) (s s1 : W × Db) (r : Round)
      → acceptance_loop out judges d now left iteration s ≡ (returned r, s1)
      → (k : ℕ) × (s0 : W × Db) × (hygiene : List String) × (k ≤ left + iteration)
        × (judge out judges d now k s0 ≡ (returned (r, hygiene), s1))
  unfolding acceptance_loop
  last_round zero iteration s s1 r e =
      let (x, s2, a, e1) = returned_both (judge out judges d now iteration) _ s s1 r e in
      (iteration, s, x.1, omega arith, ended (judge out judges d now iteration) s s2 s1 x r a e1)
  last_round (suc left) iteration s s1 r e =
      let (x, s2, a, e1) = returned_both (judge out judges d now iteration) _ s s1 r e in
      elim (Bool-cases x.0.accepted) [
        | inl h ↦ (
          iteration,
          s,
          x.1,
          omega arith,
          ended (judge out judges d now iteration) s s2 s1 x r a (rw h at e1),
        )
        | inr h ↦
            let (u, s3, e2, e3) =
              returned_then (correct out judges d now iteration x.0 x.1) _ s2 s1 r (rw h at e1) in
            let (k, s0, hygiene, l, e4) = last_round left (iteration + 1) s3 s1 r e3 in
            (k, s0, hygiene, omega (arith, l), e4)
      ]

  -- A delivery that the loop calls accepted comes from its last round, which ended as the loop
  -- did. In that round the commands ran, the check of the worktree then found nothing, and its
  -- diff was taken at once; with that diff and the log of the commands and the check, the
  -- reviewer's verdict was an approval (approved, approve, pass or passed, in any case of letters)
  -- without a finding, and the product manager, given that review, accepted with a score that
  -- reaches the threshold, with no failed criterion and no correction.
  pub loop_accepted :
      (left : ℕ) (s s1 : W × Db) (r : Round)
      → acceptance_loop out judges d now left 0 s ≡ (returned r, s1)
      → r.accepted ≡ true
      → (k : ℕ) × (s0 : W × Db) × (k ≤ left)
        × (judge out judges d now k s0 ≡ (returned (r, []), s1))
        × IsRound out judges d now s0 s1 [] r
        × IsDelivered d.product_quality_threshold r
  loop_accepted left s s1 r e a =
      let (k, s0, hygiene, l, e1) = last_round left 0 s s1 r e in
      let (round, tested) = judge-IsRound k s0 s1 r hygiene e1 in
      let (good, none_found) = delivered d.product_quality_threshold r hygiene (sym tested ∙ a) in
      (
        k,
        s0,
        omega (arith, l),
        subst (λ (h : List String). judge out judges d now k s0 ≡ (returned (r, h), s1)) none_found
            e1,
        subst (λ (h : List String). IsRound out judges d now s0 s1 h r) none_found round,
        good,
      )
