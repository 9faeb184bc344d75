-- ===== src/Repository/Git.antt =====
-- app/repository.py: the methods that run git or a shell. `execute` runs a command in the directory of the
-- repository, `join` is `shlex.join`, and `lines` is `splitlines`.
pub mod Guards
use automated_workflow.Prelude.{
  ℕ, String, Bool, true, false, not, ◌&&◌, ◌||◌, Option, none, some, List, [], ◌∷◌, ◌++◌, map,
  str_eq, str_append,
}
use automated_workflow.Prelude.Tests.{◌==◌, ltb, if◌then◌else◌}
use automated_workflow.Prelude.Outcome.{
  Action, Outcome, returned, raised, repository_error, pure, raise, asks, transact, require, ◌>>=◌,
  ◌>>◌,
}
use automated_workflow.Prelude.Table.{any_where, select_where, length, member, take}
use automated_workflow.Prelude.Text.{strip, last_chars, first_chars, show}
use automated_workflow.Repository.{
  is_ignored, valid_ref, validate_shell_command, without_empty, first_places,
}

pub record CommandResult : Type 0 where
  pub command : String
  pub returncode : ℕ
  pub stdout : String
  pub stderr : String

-- (stdout + "\n" + stderr).strip()
abbrev pub combined : CommandResult → String
combined r = strip (str_append r.stdout (str_append "\n" r.stderr))

abbrev pub succeeded : CommandResult → Bool
succeeded r = r.returncode == 0

-- The result of a command that is run through `subprocess.run`.
pub record Executed : Type 0 where
  pub returncode : ℕ
  pub stdout : String
  pub stderr : String

-- `head == expected`, of texts that may be None
abbrev pub same_oid : Option String → Option String → Bool
same_oid none none = true
same_oid none (some t) = false
same_oid (some s) none = false
same_oid (some s) (some t) = str_eq s t

abbrev pub comma_separated : List String → String
comma_separated [] = ""
comma_separated (x ∷ []) = x
comma_separated (x ∷ y ∷ rest) = str_append x (str_append ", " (comma_separated (y ∷ rest)))

module _ {W : Type 0} (execute : List String → W → Executed × W) (join : List String → String)
    (lines : String → List String) where
  -- `run(command, check=False)`
  unfoldable pub run_unchecked : List String → Action W CommandResult
  run_unchecked command w = (
    returned (record {
      command = join command;
      returncode = (execute command w).0.returncode;
      stdout = (execute command w).0.stdout;
      stderr = (execute command w).0.stderr;
    }),
    (execute command w).1,
  )

  abbrev pub command_failed : CommandResult → String
  command_failed r =
      str_append "Command failed: "
        (str_append r.command (str_append "\n" (last_chars 4000 (combined r))))

  -- `run(command)`
  unfoldable pub run : List String → Action W CommandResult
  unfolding run_unchecked
  run command = do
    r ← run_unchecked command
    if succeeded r then pure r else raise (repository_error (command_failed r))

  unfoldable pub status : Action W String
  unfolding run
  status = do r ← run ("git" ∷ "status" ∷ "--short" ∷ []); pure r.stdout

  unfoldable pub ensure_clean : Action W (Unit {0})
  unfolding run
  ensure_clean = do
    r ← run ("git" ∷ "status" ∷ "--porcelain" ∷ [])
    require (str_eq (strip r.stdout) "") (
        repository_error
          "Repository has uncommitted changes. Use a clean worktree to avoid overwriting work.")

  unfoldable pub current_branch : Action W String
  unfolding run
  current_branch = do r ← run ("git" ∷ "branch" ∷ "--show-current" ∷ []); pure (strip r.stdout)

  unfoldable pub head_oid : Action W (Option String)
  unfolding run_unchecked
  head_oid = do
    r ← run_unchecked ("git" ∷ "rev-parse" ∷ "--verify" ∷ "HEAD" ∷ [])
    pure (if succeeded r then some (strip r.stdout) else none)

  abbrev pub has_branch : String → Action W CommandResult
  has_branch branch =
      run_unchecked ("git" ∷ "show-ref" ∷ "--verify" ∷ str_append "refs/heads/" branch ∷ [])

  abbrev pub switch_to : String → Bool → List String
  switch_to branch exists =
      if exists then "git" ∷ "checkout" ∷ branch ∷ [] else "git" ∷ "checkout" ∷ "-b" ∷ branch ∷ []

  unfoldable pub checkout_valid : String → Action W String
  unfolding run run_unchecked
  checkout_valid branch = do
    exists ← has_branch branch
    run (switch_to branch (succeeded exists))
    pure branch

  unfoldable pub checkout_branch : String → Action W String
  unfolding current_branch checkout_valid
  checkout_branch branch =
      if str_eq branch ""
      then current_branch
      else (require (valid_ref branch) (repository_error "Invalid branch name")
          >> checkout_valid branch)

  -- `destination` as text; `exists` tells whether the path is there.
  abbrev pub worktree_command : String → String → Bool → Bool → List String
  worktree_command destination branch has_head branch_exists =
      if not has_head
      then "git" ∷ "worktree" ∷ "add" ∷ "--orphan" ∷ "-b" ∷ branch ∷ destination ∷ []
      else if branch_exists
      then "git" ∷ "worktree" ∷ "add" ∷ destination ∷ branch ∷ []
      else "git" ∷ "worktree" ∷ "add" ∷ "-b" ∷ branch ∷ destination ∷ "HEAD" ∷ []

  abbrev pub add_worktree : String → String → Bool → Action W (Unit {0})
  add_worktree destination branch has_head =
      if not has_head
      then (run (worktree_command destination branch false false) >> pure tt)
      else do
        exists ← has_branch branch
        run (worktree_command destination branch true (succeeded exists))
        pure tt

  -- The worktree is then opened as a repository; its directory is made before.
  unfoldable pub create_worktree : (String → W → Bool) → String → String → Action W (Unit {0})
  unfolding run run_unchecked
  create_worktree exists destination branch = do
    is_there ← asks (exists destination)
    require (not is_there)
        (repository_error (str_append "Worktree destination already exists: " destination))
    require (valid_ref branch) (repository_error "Invalid branch name")
    head ← run_unchecked ("git" ∷ "rev-parse" ∷ "--verify" ∷ "HEAD" ∷ [])
    add_worktree destination branch (succeeded head)

  unfoldable pub inventory : ℕ → Action W (List String)
  unfolding run
  inventory limit = do
    r ← run ("git" ∷ "ls-files" ∷ [])
    pure (take limit (without_empty (lines r.stdout)))

  unfoldable pub recent_history : ℕ → Action W String
  unfolding run_unchecked
  recent_history limit = do
    r ← run_unchecked (
        "git"
        ∷ "log"
        ∷ str_append "-" (show limit)
        ∷ "--pretty=format:%h %s"
        ∷ "--no-decorate"
        ∷ [])
    pure r.stdout

  abbrev pub untracked : Action W (List String)
  untracked = do
    r ← run ("git" ∷ "ls-files" ∷ "--others" ∷ "--exclude-standard" ∷ [])
    pure (lines r.stdout)

  unfoldable pub delivery_files : Action W (List String)
  unfolding run
  delivery_files = do
    changed ← run ("git" ∷ "diff" ∷ "--name-only" ∷ "--diff-filter=ACMRTUXB" ∷ [])
    others ← untracked
    pure (first_places [] (without_empty (lines changed.stdout ++ others)))

  -- `parts_of` and `suffix_of` are those of a path that is written as a text.
  abbrev pub is_generated : (String → List String) → (String → String) → String → Bool
  is_generated parts_of suffix_of path =
      is_ignored (parts_of path)
      || member (suffix_of path) (".pyc" ∷ ".pyo" ∷ ".class" ∷ ".o" ∷ ".obj" ∷ [])

  abbrev pub hygiene_text : List String → List String
  hygiene_text [] = []
  hygiene_text (g ∷ gs) =
      str_append "Generated or cache files are not ignored: " (
        str_append (comma_separated (take 12 (g ∷ gs))) (
          str_append (if ltb 12 (length (g ∷ gs)) then " ..." else "")
            ". Add appropriate ignore rules without deleting source files."))
      ∷ []

  unfoldable pub hygiene_findings :
      (String → List String) → (String → String) → Action W (List String)
  unfolding run
  hygiene_findings parts_of suffix_of = do
    paths ← untracked
    pure (hygiene_text (select_where (is_generated parts_of suffix_of) paths))

  unfoldable pub commit : String → Action W String
  unfolding run
  commit message = do
    require (not (str_eq (strip message) "")) (repository_error "Commit message is empty")
    run ("git" ∷ "add" ∷ "-A" ∷ [])
    run ("git" ∷ "commit" ∷ "-m" ∷ first_chars 200 (strip message) ∷ [])
    r ← run ("git" ∷ "rev-parse" ∷ "HEAD" ∷ [])
    pure (strip r.stdout)

  unfoldable pub remote_url : String → Action W String
  unfolding run_unchecked
  remote_url remote = do
    r ← run_unchecked ("git" ∷ "remote" ∷ "get-url" ∷ remote ∷ [])
    require (succeeded r && not (str_eq (strip r.stdout) ""))
        (repository_error (str_append "Git remote is not configured: " remote))
    pure (strip r.stdout)

  -- `execute` runs with the credentials in the environment of the command.
  unfoldable pub push_with_token : String → String → Action W (Unit {0})
  unfolding run_unchecked
  push_with_token branch remote = do
    require (valid_ref branch) (repository_error "Invalid branch name")
    r ← run_unchecked ("git" ∷ "push" ∷ remote ∷ str_append "HEAD:refs/heads/" branch ∷ [])
    require (succeeded r)
        (repository_error (str_append "Git push failed: " (last_chars 4000 (combined r))))

  -- `apply` runs `git apply` on the patch.
  unfoldable pub apply_patch :
      (String → W → Executed × W) → String → Option String → Action W (Unit {0})
  unfolding head_oid
  apply_patch apply patch expected_head = do
    head ← head_oid
    require (same_oid head expected_head)
        (repository_error "Source repository HEAD changed while the workflow was running")
    if str_eq (strip patch) "" then pure tt else do
      r ← transact (apply patch)
      require (r.returncode == 0) (
          repository_error (
            str_append "Unable to sync AI changes because the local files changed or conflict: "
              (last_chars 4000 (strip (str_append r.stdout (str_append "\n" r.stderr))))))

  -- `shell` is the executor of the sandbox, or bash.
  unfoldable pub run_shell : (String → W → Executed × W) → String → Action W CommandResult
  run_shell shell command = do
    validate_shell_command command
    r ← transact (shell command)
    pure (record {
      command = command;
      returncode = r.returncode;
      stdout = r.stdout;
      stderr = r.stderr;
    })

-- The build and the test command, by the files of the repository.
unfoldable pub detect_commands : (String → Bool) → Option String × Option String
detect_commands exists =
    if exists "pyproject.toml"
    then (none, some "pytest")
    else if exists "package.json"
    then (some "npm run build", some "npm test -- --runInBand")
    else if exists "Cargo.toml"
    then (some "cargo build", some "cargo test")
    else if exists "go.mod"
    then (some "go build ./...", some "go test ./...")
    else if exists "CMakeLists.txt"
    then (
      some "cmake -S . -B build && cmake --build build -j",
      some "ctest --test-dir build --output-on-failure",
    )
    else if exists "Makefile"
    then (some "make -j", some "make test")
    else (none, none)
