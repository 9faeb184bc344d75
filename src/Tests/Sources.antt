-- ===== src/Tests/Sources.antt =====
-- The policies of a repository on concrete paths and names.
use automated_workflow.Prelude.{
  ℕ, ◌+◌, ◌≤◌, String, Bool, false, some, List, [], ◌∷◌, ◌≡◌, ◌≢◌, refl, inr, arith,
}
use text.Mathlib.TextEquality.{eq_iff}
use automated_workflow.Prelude.Outcome.{raised, repository_error}
use automated_workflow.Prelude.Table.{All}
use automated_workflow.Prelude.Text.{text_length}
use automated_workflow.Repository.Files.{Candidate, write_changes, collect_context}
use automated_workflow.Repository.Files.Writing.{IsInside, write_changes-IsInside}
use automated_workflow.Repository.Files.Context.{context_bound}
use automated_workflow.Repository.Git.{Executed, checkout_branch, push_with_token}
use automated_workflow.Repository.Git.Guards.{suspect_refused}

abbrev root : List String
root = "repo" ∷ []

abbrev is_absolute : String → Bool
is_absolute path = false

abbrev resolve : String → List String
resolve path = "repo" ∷ path ∷ []

abbrev changes : List (String × String)
changes = ("a.py", "x") ∷ (".git", "y") ∷ []

write_changes-IsInside_example :
    All (IsInside root is_absolute resolve) (write_changes root is_absolute resolve changes []).1
write_changes-IsInside_example = write_changes-IsInside root is_absolute resolve changes [] tt

abbrev candidate : Candidate
candidate = record {
  path = "repo" ∷ "a.py" ∷ [];
  relative = "a.py";
  is_text = Bool.true;
  content = some "abcdef";
}

context_bound_example : text_length (collect_context 3 (candidate ∷ [])) ≤ 3 + 30
context_bound_example = context_bound 3 30 (candidate ∷ []) (omega arith, tt)

abbrev execute : List String → ℕ → Executed × ℕ
execute command runs = (record { returncode = 0; stdout = ""; stderr = "" }, runs + 1)

abbrev join : List String → String
join command = ""

abbrev lines : String → List String
lines text = []

option_given : ◌≢◌ {A = String} "--all" ""
option_given = ground (arith, eq_iff "--all" "")

suspect_refused_example :
    (checkout_branch execute join lines "--all" 0
      ≡ (raised (repository_error "Invalid branch name"), 0))
    × (push_with_token execute join lines "--all" "origin" 0
        ≡ (raised (repository_error "Invalid branch name"), 0))
suspect_refused_example =
    suspect_refused execute join lines "--all" "origin" 0 option_given (inr refl)
