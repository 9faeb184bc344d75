-- ===== src/Api/Accounts/Issued.antt =====
-- The token that is issued for a runner.
use automated_workflow.Prelude.{
  ℕ, String, true, false, some, List, str_eq, ◌≡◌, refl, arith, ap, inl, inr,
}
use automated_workflow.Prelude.Tests.{if◌then◌else◌, Bool-cases, eq→str_eq}
use automated_workflow.Prelude.Outcome.{Outcome, returned, raised, http_error}
use automated_workflow.Prelude.Steps.{returned_both, returned_then}
use automated_workflow.Prelude.Table.{find_where, any_where, update_where, insert_row}
use automated_workflow.Prelude.Updates.{
  any_where-found, find_where-insert_row, find_where-updated, find_where-never,
}
use automated_workflow.Models.{owner}
use automated_workflow.Schema.{Db, UserRow, RunnerTokenRow}
use automated_workflow.Config.{Settings}
use automated_workflow.Auth.{authenticate_runner, require_project_role}
use automated_workflow.Auth.Tokens.{authenticated}
use automated_workflow.Storage.Runners.{
  has_token, is_active_token, issued, new_token, save_runner_token, has_active_runner_token,
}
use automated_workflow.Api.Accounts.{RunnerTokenIssued, issue_runner_token}

module _ (runner_id project_id label token_hash created_by : String) (now : ℕ) where
  -- The tokens after the issue.
  abbrev issued_tokens : List RunnerTokenRow → List RunnerTokenRow
  issued_tokens tokens =
      if any_where (has_token runner_id) tokens
      then update_where (has_token runner_id) (issued project_id label token_hash created_by now)
          tokens
      else insert_row (new_token runner_id project_id label token_hash created_by now) tokens

  written :
      (time : ℕ) (db db1 : Db)
      → save_runner_token runner_id project_id label token_hash created_by now db
        ≡ (returned time, db1)
      → db1.runner_tokens ≡ issued_tokens db.runner_tokens
  unfolding save_runner_token
  written time db db1 e = ground (arith, e)

  active_has :
      (t : RunnerTokenRow) → has_token runner_id t ≡ false → is_active_token runner_id t ≡ false
  active_has t h = rw h refl

  -- The runner's active token is then the one that was issued.
  found_issued :
      (tokens : List RunnerTokenRow)
      → (t : RunnerTokenRow) × (find_where (is_active_token runner_id) (issued_tokens tokens)
          ≡ some t)
        × (t.token_hash ≡ token_hash)
        × (t.project_id ≡ project_id)
  found_issued tokens = elim (Bool-cases (any_where (has_token runner_id) tokens)) [
    | inl k ↦
        let (t, f) =
          find_where-updated (has_token runner_id) (is_active_token runner_id)
            (issued project_id label token_hash created_by now) tokens (λ x h. rw h refl) active_has
            k in
        (issued project_id label token_hash created_by now t, rw k f, refl, refl)
    | inr k ↦
        let never =
          find_where-never (has_token runner_id) (is_active_token runner_id) tokens active_has k in
        let row = new_token runner_id project_id label token_hash created_by now in
        (
          row,
          rw k (
              find_where-insert_row (is_active_token runner_id) row tokens never
                (rw (eq→str_eq runner_id runner_id refl) refl)),
          refl,
          refl,
        )
  ]

-- After a token was issued for a runner, that token opens the project it was issued for, and any
-- other token with another hash, the server's global one included, gets a 401: what the runner had
-- before is replaced.
pub issued_opens :
    (settings : Settings) (user : UserRow) (project_id : String) (hash_token : String → String)
    (runner_id label token : String) (now : ℕ) (db db1 : Db) (r : RunnerTokenIssued)
    (shown : String)
    → issue_runner_token settings user project_id hash_token runner_id label token now db
      ≡ (returned r, db1)
    → (authenticate_runner hash_token settings runner_id shown db1).0 ≡ (
        if str_eq (hash_token token) (hash_token shown)
        then returned project_id
        else raised (http_error 401 "Invalid Runner token"))
unfolding issue_runner_token has_active_runner_token
issued_opens settings user project_id hash_token runner_id label token now db db1 r shown e =
    let (role, s1, e1, e2) =
      returned_then (require_project_role user project_id owner settings.auth_enabled) _ db db1 r
        e in
    let (time, s2, e3, e4) =
      returned_both (save_runner_token runner_id project_id label (hash_token token) user.id now) _
        s1 db1 r e2 in
    let same : s2 ≡ db1 = ap (λ (o : Outcome RunnerTokenIssued × Db). o.1) e4 in
    let (t, f, h, p) =
      found_issued runner_id project_id label (hash_token token) user.id now s1.runner_tokens in
    let w = written runner_id project_id label (hash_token token) user.id now time s1 s2 e3 in
    let found : find_where (is_active_token runner_id) db1.runner_tokens ≡ some t =
      rw (← same, w) f in
    let active : has_active_runner_token runner_id db1 ≡ true =
      any_where-found (is_active_token runner_id) db1.runner_tokens t found in
    rw (authenticated hash_token settings runner_id shown db1 (some t) found, h, p, active) refl
