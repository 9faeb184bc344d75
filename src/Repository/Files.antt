-- ===== src/Repository/Files.antt =====
-- app/repository.py: the paths that may be written, and the text that is collected for a model. `root` is the
-- directory of the repository, `resolve` the resolution of a relative path by the file system.
pub mod Context
pub mod Writing
use automated_workflow.Prelude.{
  ℕ, suc, ◌+◌, ◌-◌, String, Bool, true, false, not, ◌&&◌, ◌||◌, Option, none, some, List, [], ◌∷◌,
  str_eq, str_append,
}
use automated_workflow.Prelude.Tests.{◌==◌, ltb, leb, if◌then◌else◌}
use automated_workflow.Prelude.Outcome.{
  Action, Outcome, returned, raised, repository_error, pure, lift, modify, require, ◌>>=◌, ◌>>◌,
}
use automated_workflow.Prelude.Table.{any_where, insert_row}
use automated_workflow.Prelude.Text.{text_length, first_chars}
use automated_workflow.Repository.{is_ignored, is_relative_to, relative_to}

-- A file that was written, by the parts of its path.
abbrev pub Written : Type 0
Written = List String × String

abbrev pub Tree : Type 0 → Type 0
Tree A = Action (List Written) A

unfoldable pub same_path : List String → List String → Bool
same_path [] [] = true
same_path [] (q ∷ qs) = false
same_path (p ∷ ps) [] = false
same_path (p ∷ ps) (q ∷ qs) = let rest = same_path ps qs in str_eq p q && rest

module _ (root : List String) (is_absolute : String → Bool) (resolve : String → List String) where
  unfoldable pub safe_path : String → Outcome (List String)
  safe_path relative =
      if str_eq relative "" || is_absolute relative
      then raised (repository_error (str_append "Invalid relative path: " relative))
      else if not (is_relative_to (resolve relative) root)
      then raised (repository_error (str_append "Path escapes repository: " relative))
      else returned (resolve relative)

  abbrev pub is_protected : List String → Bool
  is_protected target = same_path target root || is_ignored (relative_to target root)

  -- The directories above the file are made with it.
  unfoldable pub write_change : String → String → Tree (List String)
  unfolding safe_path
  write_change relative content = do
    target ← lift (safe_path relative)
    require (not (is_protected target))
        (repository_error (str_append "Refusing to write protected path: " relative))
    modify (insert_row (target, content))
    pure (relative_to target root)

  -- The files before a change that is refused stay written.
  unfoldable pub write_changes : List (String × String) → Tree (List (List String))
  unfolding write_change
  write_changes [] = pure []
  write_changes ((relative, content) ∷ changes) = do
    written ← write_change relative content
    rest ← write_changes changes
    pure (written ∷ rest)

-- A file that may go into the context: its path, the path as text, whether it is a text file, and its
-- content, `none` where it cannot be read.
pub record Candidate : Type 0 where
  pub path : List String
  pub relative : String
  pub is_text : Bool
  pub content : Option String

abbrev pub heading : Candidate → String
heading c = str_append "\n--- FILE: " (str_append c.relative " ---\n")

abbrev pub chunk_of : Candidate → String → ℕ → String
chunk_of c content remaining = str_append (heading c) (first_chars remaining content)

-- The loop of `collect_context` over its candidates, from the paths used and the characters so far;
-- `next` is what follows a candidate.
abbrev pub with_content : ℕ → ℕ → Candidate → Option String → (ℕ → List String) → List String
with_content max_chars total c none next = next total
with_content max_chars total c (some content) next =
    if leb max_chars total
    then []
    else chunk_of c content (max_chars - total)
      ∷ next (total + text_length (chunk_of c content (max_chars - total)))

unfoldable pub collect_chunks : ℕ → List (List String) → ℕ → List Candidate → List String
collect_chunks max_chars used total [] = []
collect_chunks max_chars used total (c ∷ cs) =
    if any_where (same_path c.path) used || not c.is_text
    then collect_chunks max_chars used total cs
    else with_content max_chars total c c.content
        (λ t. collect_chunks max_chars (c.path ∷ used) t cs)

-- `"".join(chunks)`
unfoldable pub joined : List String → String
joined [] = ""
joined (c ∷ cs) = str_append c (joined cs)

unfoldable pub collect_context : ℕ → List Candidate → String
unfolding joined collect_chunks
collect_context max_chars candidates = joined (collect_chunks max_chars [] 0 candidates)
