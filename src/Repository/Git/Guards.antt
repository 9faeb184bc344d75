-- ===== src/Repository/Git/Guards.antt =====
-- What never reaches git or a shell.
use automated_workflow.Prelude.{
  String, Bool, true, false, List, [], ◌∷◌, ◌≡◌, ◌≢◌, ◌⊎◌, refl, inl, inr, arith,
}
use automated_workflow.Prelude.Tests.{ne→str_eq}
use automated_workflow.Prelude.Outcome.{raised, repository_error}
use automated_workflow.Prelude.Table.{any_where}
use automated_workflow.Prelude.Rows.{Occurs}
use automated_workflow.Prelude.Text.{contains_text, lower}
use automated_workflow.Repository.{
  valid_ref, forbidden, blocked, is_allowed_command, validate_shell_command,
}
use automated_workflow.Repository.Git.{Executed, checkout_branch, push_with_token, run_shell}
use text.Mathlib.Text.{starts_with}

any_where-Occurs :
    (p : String → Bool) (x : String) (xs : List String)
    → Occurs x xs
    → p x ≡ true
    → any_where p xs ≡ true
unfolding any_where
any_where-Occurs p x [] o h = absurd o
any_where-Occurs p x (y ∷ ys) (inl e) h = ground (arith, e, h)
any_where-Occurs p x (y ∷ ys) (inr o) h = ground (arith, any_where-Occurs p x ys o h)

-- A piece that no name of a branch may hold, or the sign of an option at its start.
abbrev pub IsSuspect : String → Type 0
IsSuspect branch =
    ((item : String) × Occurs item forbidden × (contains_text branch item ≡ true))
    ⊎ (starts_with branch "-" ≡ true)

suspect : (branch : String) → IsSuspect branch → valid_ref branch ≡ false
unfolding valid_ref
suspect branch (inl (item, o, h)) =
    let bad = any_where-Occurs (λ x. contains_text branch x) item forbidden o h in
    ground (arith, bad)
suspect branch (inr d) = ground (arith, d)

unsafe :
    (command token : String)
    → Occurs token blocked
    → contains_text (lower command) token ≡ true
    → is_allowed_command command ≡ false
unfolding is_allowed_command
unsafe command token o h =
    rw (any_where-Occurs (λ x. contains_text (lower command) x) token blocked o h)

module _ {W : Type 0} (execute : List String → W → Executed × W) (join : List String → String)
    (lines : String → List String) where
  -- A name that is not empty and holds a forbidden piece or starts like an option, such as one that
  -- git would read as a flag or a range, is neither checked out nor pushed: both raise before git
  -- is run, and leave its state.
  pub suspect_refused :
      (branch remote : String) (w : W)
      → branch ≢ ""
      → IsSuspect branch
      → (checkout_branch execute join lines branch w
          ≡ (raised (repository_error "Invalid branch name"), w))
        × (push_with_token execute join lines branch remote w
            ≡ (raised (repository_error "Invalid branch name"), w))
  unfolding checkout_branch push_with_token
  suspect_refused branch remote w ne s = rw (ne→str_eq branch "" ne, suspect branch s) (refl, refl)

  -- A command that holds one of the blocked pieces in any case of its letters is not run.
  pub blocked_refused :
      (shell : String → W → Executed × W) (command token : String) (w : W)
      → Occurs token blocked
      → contains_text (lower command) token ≡ true
      → run_shell execute join lines shell command w
        ≡ (raised (repository_error "Command rejected by safety policy"), w)
  unfolding run_shell validate_shell_command
  blocked_refused shell command token w o h = rw (unsafe command token o h) refl
