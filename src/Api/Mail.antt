-- ===== src/Api/Mail.antt =====
-- app/api.py: signing in by a code that is sent by mail.
pub mod Codes
use automated_workflow.Prelude.{
  ℕ, ◌+◌, ◌-◌, ◌/◌, String, Bool, not, Option, none, some, str_eq, str_append,
}
use Prim.Native.Char.{code}
use automated_workflow.Prelude.Tests.{◌==◌, ltb, leb, if◌then◌else◌, given_text}
use automated_workflow.Prelude.Outcome.{
  Action, Outcome, returned, raised, Error, key_error, http_error, integrity_error, pure, raise,
  asks, lift, modify, transact, require, ◌>>=◌, ◌>>◌,
}
use automated_workflow.Prelude.Text.{show}
use automated_workflow.Schema.{Db, UserRow}
use automated_workflow.Config.{Settings}
use automated_workflow.Auth.{create_user_session}
use automated_workflow.Storage.Tasks.{Store}
use automated_workflow.Storage.Jobs.{seconds}
use automated_workflow.Storage.Users.{get_user_by_email, create_user, revoke_session}
use automated_workflow.Storage.Challenges.{
  latest_email_challenge_at, count_email_challenges_since, create_email_challenge,
  consume_email_challenge, delete_email_challenge,
}

pub record EmailChallenge : Type 0 where
  pub challenge_id : String
  pub expires_in_seconds : ℕ
  pub retry_after_seconds : ℕ

-- What is drawn for a request, what the sending of the mail raises, if anything, and the clock.
pub record MailRequest : Type 0 where
  pub email : String
  pub request_ip : String
  pub challenge_id : String
  pub code : String
  pub failure : Option String
  pub now : ℕ

-- `math.ceil` of microseconds as seconds
abbrev pub whole_seconds : ℕ → ℕ
whole_seconds n = (n + 999999) / 1000000

abbrev pub invalid_code : Error
invalid_code = http_error 401 "验证码无效或已过期"

-- `email.split("@", 1)[0]`
unfoldable pub before_at : String → String
before_at String.[] = ""
before_at (String.◌∷◌ c s) =
    let rest = before_at s in if code c == 64 then "" else String.◌∷◌ c rest

abbrev pub secret_or_raise : Option String → Store String
secret_or_raise none = raise (http_error 503 "邮箱验证码服务尚未配置")
secret_or_raise (some secret) = pure secret

unfoldable pub email_code_secret : Settings → Store String
email_code_secret settings = secret_or_raise (given_text settings.email_code_secret)

abbrev pub may_authenticate : Bool → Outcome UserRow → Bool
may_authenticate registration_enabled (returned user) = not user.disabled
may_authenticate registration_enabled (raised e) = registration_enabled

unfoldable pub email_may_authenticate : String → Settings → Db → Bool
email_may_authenticate email settings db =
    may_authenticate settings.registration_enabled (get_user_by_email email db).0

-- The address must wait until the time of its last code and the pause have passed.
abbrev pub check_cooldown : ℕ → ℕ → Option ℕ → Store (Unit {0})
check_cooldown pause now none = pure tt
check_cooldown pause now (some latest) = require (not (ltb now (latest + pause))) (
    http_error 429
      (str_append "请等待 " (str_append (show (whole_seconds (latest + pause - now))) " 秒后重新发送")))

-- `except IntegrityError: user = get_user_by_email(email)`
abbrev pub created_or_found : String → Outcome UserRow → Store UserRow
created_or_found email (returned user) = pure user
created_or_found email (raised integrity_error) = get_user_by_email email
created_or_found email (raised e) = raise e

abbrev pub sign_up : Settings → String → String → ℕ → Store UserRow
sign_up settings user_id email now db =
    let r = create_user user_id email (before_at email) "!email-code-only" Bool.false now db in
    created_or_found email r.0 r.1

-- The user of the address, or a new one where registration is open.
abbrev pub user_or_new : Settings → String → String → ℕ → Outcome UserRow → Store UserRow
user_or_new settings user_id email now (returned user) = pure user
user_or_new settings user_id email now (raised (key_error k)) =
    require settings.registration_enabled invalid_code >> sign_up settings user_id email now
user_or_new settings user_id email now (raised e) = raise e

-- After the code was accepted. `user_id` and `token` are what is drawn for a new user and the session;
-- the token goes into the cookie.
unfoldable pub sign_in :
    (String → String) → Settings → String → String → String → ℕ → Store (UserRow × String)
sign_in hash_token settings email user_id token now = do
  user ← λ db. user_or_new settings user_id email now (get_user_by_email email db).0 db
  require (not user.disabled) (http_error 403 "账号已停用")
  create_user_session hash_token user settings token now
  pure (user, token)

-- `digest_email_code` of app/email_auth.py. `hmac secret payload` is the HMAC with SHA-256, as hexadecimal digits.
abbrev pub digest_email_code :
    (String → String → String) → String → String → String → String → String
digest_email_code hmac secret challenge_id email code =
    hmac secret (str_append challenge_id (str_append ":" (str_append email (str_append ":" code))))

module _ (hmac : String → String → String) where
  unfoldable pub delivered : String → Option String → Store (Unit {0})
  delivered challenge_id none = pure tt
  delivered challenge_id (some detail) = do
    modify (delete_email_challenge challenge_id)
    raise (http_error 503 detail)

  unfoldable pub send_code : Settings → String → MailRequest → Store (Unit {0})
  unfolding delivered
  send_code settings secret m = do
    create_email_challenge m.challenge_id m.email m.request_ip
        (digest_email_code hmac secret m.challenge_id m.email m.code)
        (m.now + seconds settings.email_code_ttl_seconds) settings.email_code_max_attempts m.now
    delivered m.challenge_id m.failure

  unfoldable pub request_email_code : Settings → MailRequest → Store EmailChallenge
  unfolding send_code email_code_secret
  request_email_code settings m = do
    require settings.auth_enabled (http_error 409 "Authentication is disabled")
    secret ← email_code_secret settings
    recent ← asks (
        count_email_challenges_since m.request_ip
          (m.now - seconds settings.email_code_ip_window_seconds))
    require (not (leb settings.email_code_ip_max_requests recent))
        (http_error 429 "验证码请求过于频繁，请稍后再试")
    latest ← asks (latest_email_challenge_at m.email)
    check_cooldown (seconds settings.email_code_cooldown_seconds) m.now latest
    known ← asks (email_may_authenticate m.email settings)
    if known then send_code settings secret m else pure tt
    pure (record {
      challenge_id = m.challenge_id;
      expires_in_seconds = settings.email_code_ttl_seconds;
      retry_after_seconds = settings.email_code_cooldown_seconds;
    })

  unfoldable pub verify_email_code :
      (String → String)
      → Settings
      → String
      → String
      → String
      → String
      → String
      → ℕ
      → Store (UserRow × String)
  unfolding email_code_secret sign_in
  verify_email_code hash_token settings challenge_id email code user_id token now = do
    require settings.auth_enabled (http_error 409 "Authentication is disabled")
    secret ← email_code_secret settings
    valid ← transact (
        consume_email_challenge challenge_id email
          (digest_email_code hmac secret challenge_id email code) now)
    require valid invalid_code
    sign_in hash_token settings email user_id token now

-- The session of the cookie, where there is one, ends.
unfoldable pub logout : (String → String) → Option String → ℕ → Store (Unit {0})
logout hash_token cookie now db = elim (given_text cookie) [
  | none ↦ (returned tt, db)
  | some token ↦ (returned tt, revoke_session (hash_token token) now db)
]
