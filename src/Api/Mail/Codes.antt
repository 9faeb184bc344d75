-- ===== src/Api/Mail/Codes.antt =====
-- A code that was sent by mail signs in once.
use automated_workflow.Prelude.{
  ℕ, String, Bool, true, false, not, List, ◌≡◌, refl, arith, ap, ◌∙◌, inl, inr,
}
use automated_workflow.Prelude.Tests.{given_text, Bool-cases, Option-cases}
use automated_workflow.Prelude.Outcome.{Outcome, returned, raised}
use automated_workflow.Prelude.Steps.{Preserves, Preserves-bind, returned_both, required_then}
use automated_workflow.Prelude.Rows.{Unique}
use automated_workflow.Schema.{Db, UserRow, ChallengeRow}
use automated_workflow.Config.{Settings}
use automated_workflow.Auth.{create_user_session}
use automated_workflow.Storage.Users.{create_user, create_session, get_user_by_email}
use automated_workflow.Storage.Challenges.{consume_email_challenge}
use automated_workflow.Storage.Challenges.Codes.{consume_once}
use automated_workflow.Api.Mail.{
  invalid_code, digest_email_code, email_code_secret, before_at, user_or_new, sign_in,
  verify_email_code,
}

-- The challenges are these.
abbrev Holds : List ChallengeRow → Db → Type 0
Holds cs db = db.email_challenges ≡ cs

consumed_same :
    (challenge_id email code_hash : String) (now : ℕ) (db db' : Db)
    → db.email_challenges ≡ db'.email_challenges
    → (consume_email_challenge challenge_id email code_hash now db).0
      ≡ (consume_email_challenge challenge_id email code_hash now db').0
unfolding consume_email_challenge
consumed_same challenge_id email code_hash now db db' e = rw e (ground arith)

module _ (cs : List ChallengeRow) where
  create_user-Holds :
      (user_id email display_name password_hash : String) (is_admin : Bool) (now : ℕ)
      → Preserves (Holds cs) (create_user user_id email display_name password_hash is_admin now)
  unfolding create_user
  create_user-Holds user_id email display_name password_hash is_admin now s h = ground (arith, h)

  create_user_session-Holds :
      (hash_token : String → String) (user : UserRow) (settings : Settings) (token : String)
      (now : ℕ)
      → Preserves (Holds cs) (create_user_session hash_token user settings token now)
  unfolding create_user_session create_session
  create_user_session-Holds hash_token user settings token now s h = ground (arith, h)

  -- A user who was there, was created, or was created by another call in between.
  found_or_created-Holds :
      (settings : Settings) (user_id email : String) (now : ℕ) (r : Outcome UserRow)
      → Preserves (Holds cs) (user_or_new settings user_id email now r)
  unfolding get_user_by_email
  found_or_created-Holds settings user_id email now r s h =
      let created =
        create_user-Holds user_id email (before_at email) "!email-code-only" false now s h in
      ground (arith, h, created)

  sign_in-Holds :
      (hash_token : String → String) (settings : Settings) (email user_id token : String) (now : ℕ)
      → Preserves (Holds cs) (sign_in hash_token settings email user_id token now)
  unfolding sign_in
  sign_in-Holds hash_token settings email user_id token now =
      Preserves-bind (Holds cs)
        (λ db. user_or_new settings user_id email now (get_user_by_email email db).0 db) _
        (λ s h. found_or_created-Holds settings user_id email now (get_user_by_email email s).0 s h)
        (λ user s h. elim (Bool-cases (not user.disabled)) [
          | inl k ↦ rw k (
              Preserves-bind (Holds cs) (create_user_session hash_token user settings token now) _
                (create_user_session-Holds hash_token user settings token now) (λ a s h. h) s h)
          | inr k ↦ rw k h
        ])

secret_same :
    (settings : Settings) (db db1 db' : Db) (secret : String)
    → email_code_secret settings db ≡ (returned secret, db1)
    → (db ≡ db1) × (email_code_secret settings db' ≡ (returned secret, db'))
unfolding email_code_secret
secret_same settings db db1 db' secret e =
    elim (Option-cases (given_text settings.email_code_secret)) [
      | inl k ↦ absurd (ground (arith, rw k at e))
      | inr (key, k) ↦
          let h : key ≡ secret = ground (arith, rw k at e) in
          (ground (arith, rw k at e), rw (k, h) refl)
    ]

module _ (hmac : String → String → String) (hash_token : String → String)
    (settings : Settings) where
  -- What a verification that returned did: the settings allow it, the code was accepted, and nothing
  -- after that touched the challenges.
  accepted :
      (challenge_id email code user_id token : String) (now : ℕ) (db db1 : Db)
      (r : UserRow × String)
      → verify_email_code hmac hash_token settings challenge_id email code user_id token now db
        ≡ (returned r, db1)
      → (settings.auth_enabled ≡ true)
        × (secret : String) × ((db' : Db) → email_code_secret settings db' ≡ (returned secret, db'))
        × ((consume_email_challenge challenge_id email
              (digest_email_code hmac secret challenge_id email code)
              now
              db).0
            ≡ true)
        × (db1.email_challenges
            ≡ (consume_email_challenge challenge_id email
                (digest_email_code hmac secret challenge_id email code)
                now
                db).1.email_challenges)
  unfolding verify_email_code
  accepted challenge_id email code user_id token now db db1 r e =
      let (a, e1) = required_then settings.auth_enabled _ _ db db1 r e in
      let (secret, s2, e2, e3) = returned_both (email_code_secret settings) _ db db1 r e1 in
      let same = (secret_same settings db s2 db secret e2).0 in
      let consume =
        consume_email_challenge challenge_id email
          (digest_email_code hmac secret challenge_id email code) now in
      let (v, e4) =
        required_then (consume s2).0 invalid_code
          (sign_in hash_token settings email user_id token now) (consume s2).1 db1 r e3 in
      let kept =
        sign_in-Holds (consume s2).1.email_challenges hash_token settings email user_id token now
          (consume s2).1 refl in
      (
        a,
        secret,
        (λ db'. (secret_same settings db s2 db' secret e2).1),
        rw same v,
        rw same (rw (ap (λ (o : Outcome (UserRow × String) × Db). o.1) e4) at kept),
      )

  refused :
      (challenge_id email code user_id token secret : String) (now : ℕ) (db : Db)
      → settings.auth_enabled ≡ true
      → email_code_secret settings db ≡ (returned secret, db)
      → (consume_email_challenge challenge_id email
          (digest_email_code hmac secret challenge_id email code)
          now
          db).0
        ≡ false
      → (verify_email_code hmac hash_token settings challenge_id email code user_id token now db).0
        ≡ raised invalid_code
  unfolding verify_email_code
  refused challenge_id email code user_id token secret now db a s f = rw (a, s, f) refl

  -- With distinct identifiers of challenges, a mailed code signs in once: after a verification that
  -- returned, a second one of the same challenge in the state it left, whatever its address, its code
  -- and its time, raises the 401 of an invalid code.
  pub verified_once :
      (challenge_id email code user_id token : String) (now : ℕ) (db db1 : Db)
      (r : UserRow × String) (email' code' user_id' token' : String) (now' : ℕ)
      → Unique (λ c. c.id) db.email_challenges
      → verify_email_code hmac hash_token settings challenge_id email code user_id token now db
        ≡ (returned r, db1)
      → (verify_email_code hmac hash_token settings challenge_id email' code' user_id' token' now'
          db1).0
        ≡ raised invalid_code
  verified_once challenge_id email code user_id token now db db1 r email' code' user_id' token' now'
        u e =
      let (a, secret, s, v, k) = accepted challenge_id email code user_id token now db db1 r e in
      let hash' = digest_email_code hmac secret challenge_id email' code' in
      let hash = digest_email_code hmac secret challenge_id email code in
      let spent = (consume_email_challenge challenge_id email hash now db).1 in
      refused challenge_id email' code' user_id' token' secret now' db1 a (s db1) (
        consumed_same challenge_id email' hash' now' db1 spent k
        ∙ consume_once challenge_id email hash now db email' hash' now' u v)
