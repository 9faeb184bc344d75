-- ===== src/Repository.antt =====
-- app/repository.py: the policies of Repository, and the git commands that its methods run. A path is the list
-- of its parts. The file system and git are parameters: `W` is their state.
pub mod Git
pub mod Files
use automated_workflow.Prelude.{
  ℕ, String, Bool, true, false, not, ◌&&◌, ◌||◌, List, [], ◌∷◌, map, str_eq, str_append,
}
use automated_workflow.Prelude.Tests.{ltb, if◌then◌else◌}
use automated_workflow.Prelude.Outcome.{
  Action, Outcome, returned, raised, repository_error, require,
}
use automated_workflow.Prelude.Table.{any_where, length, member, take}
use automated_workflow.Prelude.Text.{contains_text, lower, strip}
use text.Mathlib.Text.{starts_with}

-- IGNORED_PARTS
abbrev pub ignored_parts : List String
ignored_parts =
    ".git" ∷ ".venv" ∷ "node_modules" ∷ "dist" ∷ "build" ∷ "target" ∷ "__pycache__" ∷ ".idea"
    ∷ ".vscode" ∷ "vendor" ∷ []

-- TEXT_SUFFIXES
abbrev pub text_suffixes : List String
text_suffixes =
    ".c" ∷ ".cc" ∷ ".cpp" ∷ ".cxx" ∷ ".h" ∷ ".hh" ∷ ".hpp" ∷ ".hxx" ∷ ".py" ∷ ".rs" ∷ ".go"
    ∷ ".java" ∷ ".kt" ∷ ".js" ∷ ".jsx" ∷ ".ts" ∷ ".tsx" ∷ ".vue" ∷ ".svelte" ∷ ".json" ∷ ".toml"
    ∷ ".yaml" ∷ ".yml" ∷ ".md" ∷ ".txt" ∷ ".sql" ∷ ".sh" ∷ ".cmake" ∷ ".gradle" ∷ ".properties" ∷ []

-- SPECIAL_TEXT_FILES
abbrev pub special_text_files : List String
special_text_files =
    "CMakeLists.txt" ∷ "Makefile" ∷ "Dockerfile" ∷ "Cargo.lock" ∷ "go.mod" ∷ "go.sum"
    ∷ "requirements.txt" ∷ "AGENTS.md" ∷ []

-- `any(part in IGNORED_PARTS for part in parts)`
unfoldable pub is_ignored : List String → Bool
is_ignored parts = any_where (λ part. member part ignored_parts) parts

-- `path.suffix.lower() in TEXT_SUFFIXES or path.name in SPECIAL_TEXT_FILES`
unfoldable pub is_text_file : String → String → Bool
is_text_file suffix name = member (lower suffix) text_suffixes || member name special_text_files

abbrev pub forbidden : List String
forbidden = " " ∷ ".." ∷ "~" ∷ "^" ∷ ":" ∷ "?" ∷ "*" ∷ "[" ∷ "\\" ∷ []

unfoldable pub valid_ref : String → Bool
valid_ref value =
    not (str_eq value "")
    && not (any_where (λ item. contains_text value item) forbidden)
    && not (starts_with value "-")

abbrev pub blocked : List String
blocked =
    "rm -rf" ∷ "git reset --hard" ∷ "git clean -fd" ∷ "git push" ∷ "sudo " ∷ "curl " ∷ "wget "
    ∷ "> /dev/" ∷ []

unfoldable pub is_allowed_command : String → Bool
is_allowed_command command = not (any_where (λ token. contains_text (lower command) token) blocked)

unfoldable pub validate_shell_command : {W : Type 0} → String → Action W (Unit {0})
validate_shell_command command =
    require (is_allowed_command command) (repository_error "Command rejected by safety policy")

-- `is_relative_to`: the parts of one path begin with those of another.
unfoldable pub is_relative_to : List String → List String → Bool
is_relative_to parts [] = true
is_relative_to [] (r ∷ rs) = false
is_relative_to (p ∷ ps) (r ∷ rs) = let rest = is_relative_to ps rs in str_eq p r && rest

-- `relative_to`, of a path that is relative to the other
unfoldable pub relative_to : List String → List String → List String
relative_to parts [] = parts
relative_to [] (r ∷ rs) = []
relative_to (p ∷ ps) (r ∷ rs) = relative_to ps rs

-- `[path for path in output.split("\0") if path]`, of the pieces
unfoldable pub without_empty : List String → List String
without_empty [] = []
without_empty (p ∷ ps) = let rest = without_empty ps in if str_eq p "" then rest else p ∷ rest

-- `list(dict.fromkeys(items))`: each at its first place
unfoldable pub first_places : List String → List String → List String
first_places seen [] = []
first_places seen (x ∷ xs) =
    let rest = first_places (x ∷ seen) xs in if member x seen then rest else x ∷ rest

-- The checks of the constructor: `resolve` is `Path(…).expanduser().resolve()`, `roots` are resolved.
module _ (resolve : String → List String) (is_dir has_git : List String → Bool)
    (path_text : List String → String) where
  unfoldable pub opened : List (List String) → List String → Outcome (List String)
  opened roots path =
      if not (any_where (λ root. is_relative_to path root) roots)
      then raised (repository_error "Repository is outside AUTOFLOW_ALLOWED_ROOTS")
      else if not (is_dir path)
      then raised (repository_error (str_append "Repository does not exist: " (path_text path)))
      else if not (has_git path)
      then raised (repository_error (str_append "Not a Git repository: " (path_text path)))
      else returned path

  unfoldable pub open_repository : List String → String → Outcome (List String)
  unfolding opened
  open_repository allowed_roots path = opened (map resolve allowed_roots) (resolve path)
