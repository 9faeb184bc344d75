-- ===== src/Auth/Tokens.antt =====
-- The tokens of runners and of browser sessions.
use automated_workflow.Prelude.{
  ℕ, String, true, Option, none, some, ◌≡◌, sym, ap, arith, inl, inr, str_eq, ◌≢◌, ◌<◌,
}
use automated_workflow.Prelude.Tests.{if◌then◌else◌, Option-cases, str_eq→eq, ne→str_eq}
use automated_workflow.Prelude.Outcome.{returned, raised, http_error}
use automated_workflow.Prelude.Table.{find_where}
use automated_workflow.Prelude.Rows.{Occurs, Occurs-find_where}
use automated_workflow.Prelude.Updates.{find_where-update_where_gone}
use automated_workflow.Schema.{Db, RunnerTokenRow}
use automated_workflow.Config.{Settings}
use automated_workflow.Storage.Users.{is_live, count_users, revoke_session, get_session_user}
use automated_workflow.Storage.Runners.{
  has_token, is_active_token, verify_runner_token, has_active_runner_token, revoke_runner_token,
}
use automated_workflow.Auth.{is_global_token, authenticate_runner, current_user, request_token}

module _ (hash_token : String → String) (settings : Settings) (runner_id token : String)
    (db : Db) where
  -- The call, by the runner's own token that is found.
  pub authenticated :
      (t : Option RunnerTokenRow)
      → find_where (is_active_token runner_id) db.runner_tokens ≡ t
      → (authenticate_runner hash_token settings runner_id token db).0 ≡ elim t [
        | none ↦
            if has_active_runner_token runner_id db
            then raised (http_error 401 "Invalid Runner token")
            else if is_global_token settings.runner_token token
            then returned "default"
            else raised (http_error 401 "Invalid Runner token")
        | some row ↦
            if str_eq row.token_hash (hash_token token)
            then returned row.project_id
            else if has_active_runner_token runner_id db
            then raised (http_error 401 "Invalid Runner token")
            else if is_global_token settings.runner_token token
            then returned "default"
            else raised (http_error 401 "Invalid Runner token")
      ]
  unfolding authenticate_runner verify_runner_token
  authenticated t e = ground (arith, e)

-- The server's global token does not open a runner that has an active token of its own: who is
-- let in as that runner has shown a token whose hash is that of an active token of the runner,
-- and gets the project of it.
pub own_token :
    (hash_token : String → String) (settings : Settings) (runner_id token project_id : String)
    (db : Db)
    → has_active_runner_token runner_id db ≡ true
    → (authenticate_runner hash_token settings runner_id token db).0 ≡ returned project_id
    → (t : RunnerTokenRow) × Occurs t db.runner_tokens
      × (t.runner_id ≡ runner_id)
      × (t.revoked_at ≡ none)
      × (t.token_hash ≡ hash_token token)
      × (t.project_id ≡ project_id)
own_token hash_token settings runner_id token project_id db a e =
    elim (Option-cases (find_where (is_active_token runner_id) db.runner_tokens)) [
      | inl k ↦
          absurd (ground (arith, a, e, authenticated hash_token settings runner_id token db none k))
      | inr (t, k) ↦
          let q = authenticated hash_token settings runner_id token db (some t) k in
          let (o, h) = Occurs-find_where (is_active_token runner_id) db.runner_tokens t k in
          let same : str_eq t.token_hash (hash_token token) ≡ true = ground (arith, a, e, q) in
          (
            t,
            o,
            str_eq→eq t.runner_id runner_id (ground (arith, h)),
            ground (arith, h),
            str_eq→eq t.token_hash (hash_token token) same,
            ground (arith, same, e, q),
          )
    ]

global_token :
    (g : Option String) (token : String) → is_global_token g token ≡ true → g ≡ some token
global_token none token e = cc e
global_token (some t) token e = ap some (sym (str_eq→eq token t (ground (arith, e))))

-- A runner is not let in by a token that was revoked: after the revocation only the server's
-- global token opens the runner, and then in the default project.
pub revoked_token :
    (hash_token : String → String) (settings : Settings) (runner_id token project_id : String)
    (now : ℕ) (db : Db)
    → (authenticate_runner hash_token settings runner_id token
        (revoke_runner_token runner_id now db)).0
      ≡ returned project_id
    → (settings.runner_token ≡ some token) × (project_id ≡ "default")
unfolding revoke_runner_token
revoked_token hash_token settings runner_id token project_id now db e =
    let gone =
      find_where-update_where_gone (is_active_token runner_id) (has_token runner_id)
        (λ t. record t { revoked_at = some now }) db.runner_tokens (λ t h. ground (arith, h))
        (λ t. ground arith) in
    let q =
      authenticated hash_token settings runner_id token (revoke_runner_token runner_id now db) none
        gone in
    let g : is_global_token settings.runner_token token ≡ true = ground (arith, q, e) in
    (global_token settings.runner_token token g, ground (arith, q, e, g))

cookie_token :
    (token authorization : String)
    → token ≢ ""
    → request_token (some token) authorization ≡ some token
unfolding request_token
cookie_token token authorization ne = ground (arith, ne→str_eq token "" ne)

-- With authentication on and some user stored: a request with the cookie of a session that was
-- revoked, not an empty text, is answered with the status 401, whatever its header and its time.
pub revoked_session :
    (hash_token : String → String) (settings : Settings) (token authorization : String)
    (now now' : ℕ) (db : Db)
    → settings.auth_enabled ≡ true
    → 0 < count_users db
    → token ≢ ""
    → (current_user hash_token settings
        (some token)
        authorization
        now'
        (revoke_session (hash_token token) now db)).0
      ≡ raised (http_error 401 "Session is invalid or expired")
unfolding current_user revoke_session get_session_user count_users
revoked_session hash_token settings token authorization now now' db a n ne =
    let gone =
      find_where-update_where_gone (is_live (hash_token token) now')
        (λ s. str_eq s.token_hash (hash_token token)) (λ s. record s { revoked_at = some now })
        db.sessions (λ t h. ground (arith, h)) (λ t. ground arith) in
    let head = cookie_token token authorization ne in ground (arith, a, n, head, gone)
