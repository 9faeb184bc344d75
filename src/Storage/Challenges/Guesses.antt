-- ===== src/Storage/Challenges/Guesses.antt =====
-- A code that was sent by mail can be guessed at a bounded number of times.
use automated_workflow.Prelude.{
  ℕ, suc, ◌+◌, ◌≤◌, ◌<◌, String, true, false, List, [], ◌∷◌, str_eq, ◌≡◌, ◌≢◌, refl, arith, sym,
  ◌∙◌, ◌⊎◌, inl, inr,
}
use automated_workflow.Prelude.Tests.{
  if◌then◌else◌, is_none, ◌==◌, Bool-cases, eq→str_eq, ne→str_eq, str_eq→eq,
}
use automated_workflow.Prelude.Outcome.{returned}
use automated_workflow.Prelude.Table.{All, length, update_where, count_where}
use automated_workflow.Prelude.Rows.{All-map, All-update_where}
use automated_workflow.Prelude.Updates.{count_where-All}
use automated_workflow.Schema.{Db, ChallengeRow}
use automated_workflow.Storage.Users.{normalized}
use automated_workflow.Storage.Challenges.{
  consumed, create_email_challenge, is_open, is_match, tried, consume_email_challenge,
}
use automated_workflow.Storage.Challenges.Codes.{created-All, no_match}

-- The challenge of an address, a hash and an expiry, with `n` tries left at most.
Guarded : String → String → String → ℕ → ℕ → ChallengeRow → Type 0
Guarded challenge_id email stored expires_at n c =
    str_eq c.id challenge_id ≡ true
    → (c.email ≡ email)
      × (c.code_hash ≡ stored)
      × (c.expires_at ≡ expires_at)
      × ((is_none c.consumed_at ≡ false) ⊎ (c.max_attempts ≤ c.attempts + n))

-- The guesses at a challenge, one after the other: each a hash and the time it arrives.
unfoldable pub guesses : String → String → List (String × ℕ) → Db → Db
guesses challenge_id email [] db = db
guesses challenge_id email ((code_hash, now) ∷ gs) db =
    guesses challenge_id email gs (consume_email_challenge challenge_id email code_hash now db).1

module _ (challenge_id email stored : String) (expires_at : ℕ) where
  consumed-Guarded :
      (code_hash : String) (now n : ℕ) (c : ChallengeRow)
      → Guarded challenge_id email stored expires_at n c
      → Guarded challenge_id email stored expires_at n
          (if is_match challenge_id email code_hash now c then consumed now c else c)
  unfolding Guarded
  consumed-Guarded code_hash now n c g =
      elim (Bool-cases (is_match challenge_id email code_hash now c)) [
        | inl m ↦ rw m (λ h. let (e, s, x, r) = g h in (e, s, x, inl refl))
        | inr k ↦ rw k g
      ]

  not_open :
      (now n : ℕ) (c : ChallengeRow)
      → now < expires_at
      → is_open challenge_id email now c ≡ false
      → Guarded challenge_id email stored expires_at (suc n) c
      → Guarded challenge_id email stored expires_at n c
  unfolding Guarded
  not_open now n c l k g h =
      let (e, s, x, r) = g h in (e, s, x, ground (arith, eq→str_eq c.email email e))

  tried-Guarded :
      (now n : ℕ) (c : ChallengeRow)
      → now < expires_at
      → Guarded challenge_id email stored expires_at (suc n) c
      → Guarded challenge_id email stored expires_at n
          (if is_open challenge_id email now c then tried c else c)
  tried-Guarded now n c l g = elim (Bool-cases (is_open challenge_id email now c)) [
    | inl m ↦ rw m (unfold Guarded in λ h. let (e, s, x, r) = g h in (e, s, x, ground arith))
    | inr k ↦ rw k (not_open now n c l k g)
  ]

  -- The guess that is right leaves no challenge that counts.
  hit-Guarded :
      (now n : ℕ) (c : ChallengeRow)
      → now < expires_at
      → Guarded challenge_id email stored expires_at (suc n) c
      → Guarded challenge_id email stored expires_at n
          (if is_match challenge_id email stored now c then consumed now c else c)
  hit-Guarded now n c l g = elim (Bool-cases (is_match challenge_id email stored now c)) [
    | inl m ↦ rw m (unfold Guarded in λ h. let (e, s, x, r) = g h in (e, s, x, inl refl))
    | inr k ↦ rw k (
        unfold Guarded in
        λ h.
          let (e, s, x, r) = g h in
          not_open now n c l (ground (arith, eq→str_eq c.code_hash stored s)) g h)
  ]

  missed :
      (code_hash : String) (now n : ℕ) (c : ChallengeRow)
      → stored ≢ code_hash
      → Guarded challenge_id email stored expires_at n c
      → is_match challenge_id email code_hash now c ≡ false
  unfolding Guarded
  missed code_hash now n c ne g = elim (Bool-cases (str_eq c.id challenge_id)) [
    | inl h ↦
        let (e, s, x, r) = g h in
        ground (arith, ne→str_eq c.code_hash code_hash (λ q. ne (sym s ∙ q)))
    | inr h ↦ ground arith
  ]

  spent :
      (email' code_hash : String) (now : ℕ) (c : ChallengeRow)
      → Guarded challenge_id email stored expires_at 0 c
      → is_match challenge_id email' code_hash now c ≡ false
  unfolding Guarded
  spent email' code_hash now c g = elim (Bool-cases (str_eq c.id challenge_id)) [
    | inl h ↦ let (e, s, x, r) = g h in ground arith
    | inr h ↦ ground arith
  ]

  missed-Guarded :
      (code_hash : String) (now n : ℕ) (c : ChallengeRow)
      → stored ≢ code_hash
      → Guarded challenge_id email stored expires_at n c
      → (if is_match challenge_id email code_hash now c then consumed now c else c) ≡ c
  missed-Guarded code_hash now n c ne g = rw (missed code_hash now n c ne g) refl

module _ (challenge_id email stored : String) (expires_at : ℕ) where
  abbrev Left : ℕ → Db → Type 0
  Left n db = All (Guarded challenge_id (normalized email) stored expires_at n) db.email_challenges

  hit :
      (code_hash : String) (now : ℕ) (db : Db)
      → (count_where (is_match challenge_id (normalized email) code_hash now) db.email_challenges
          == 1)
        ≡ true
      → (consume_email_challenge challenge_id email code_hash now db).1.email_challenges
        ≡ update_where
            (is_match challenge_id (normalized email) code_hash now)
            (consumed now)
            db.email_challenges
  unfolding consume_email_challenge
  hit code_hash now db e = rw e

  miss :
      (code_hash : String) (now : ℕ) (db : Db)
      → (count_where (is_match challenge_id (normalized email) code_hash now) db.email_challenges
          == 1)
        ≡ false
      → (consume_email_challenge challenge_id email code_hash now db).1.email_challenges
        ≡ update_where (is_open challenge_id (normalized email) now) tried (
            update_where
              (is_match challenge_id (normalized email) code_hash now)
              (consumed now)
              db.email_challenges)
  unfolding consume_email_challenge
  miss code_hash now db e = rw e

  no_hit :
      (code_hash : String) (now n : ℕ) (db : Db)
      → stored ≢ code_hash
      → Left n db
      → count_where (is_match challenge_id (normalized email) code_hash now) db.email_challenges ≡ 0
  no_hit code_hash now n db ne a = count_where-All _ db.email_challenges (
      All-map
        (λ c g. missed challenge_id (normalized email) stored expires_at code_hash now n c ne g)
        db.email_challenges a)

  guess-Left :
      (code_hash : String) (now n : ℕ) (db : Db)
      → now < expires_at
      → Left (suc n) db
      → Left n (consume_email_challenge challenge_id email code_hash now db).1
  guess-Left code_hash now n db l a =
      let test =
        count_where (is_match challenge_id (normalized email) code_hash now) db.email_challenges
        == 1 in
      elim (Bool-cases test) [
        | inl h ↦ elim (Bool-cases (str_eq stored code_hash)) [
          | inl s ↦ rw (hit code_hash now db h) (
              All-update_where _ _ _ (consumed now) db.email_challenges
                (λ c o g.
                  rw (← str_eq→eq stored code_hash s)
                    (hit-Guarded challenge_id (normalized email) stored expires_at now n c l g))
                a)
          | inr s ↦ absurd (
              ground (
                arith,
                h,
                no_hit code_hash now (suc n) db (λ e. cc (s, eq→str_eq stored code_hash e)) a,
              ))
        ]
        | inr h ↦ rw (miss code_hash now db h) (
            All-update_where _ _ _ tried _
              (λ c o g. tried-Guarded challenge_id (normalized email) stored expires_at now n c l g)
              (All-update_where _ _ _ (consumed now) db.email_challenges
                (λ c o g.
                  consumed-Guarded challenge_id (normalized email) stored expires_at code_hash now
                    (suc n) c g)
                a))
      ]

  guesses-Left :
      (gs : List (String × ℕ)) (db : Db)
      → All (λ g. g.1 < expires_at) gs
      → Left (length gs) db
      → Left 0 (guesses challenge_id email gs db)
  unfolding guesses
  guesses-Left [] db l a = a
  guesses-Left ((code_hash, now) ∷ gs) db l a =
      guesses-Left gs _ l.1 (guess-Left code_hash now (length gs) db l.0 a)

  spent-refused :
      (email' code_hash : String) (now : ℕ) (db : Db)
      → Left 0 db
      → (consume_email_challenge challenge_id email' code_hash now db).0 ≡ false
  spent-refused email' code_hash now db a = no_match challenge_id email' code_hash now db (
      All-map
        (λ c g.
          spent challenge_id (normalized email) stored expires_at (normalized email') code_hash now
            c g)
        db.email_challenges a)

  created-Left :
      (request_ip : String) (max_attempts now : ℕ) (db db1 : Db)
      → create_email_challenge challenge_id email request_ip stored expires_at max_attempts now db
        ≡ (returned tt, db1)
      → Left max_attempts db1
  unfolding Guarded
  created-Left request_ip max_attempts now db db1 e =
      created-All challenge_id email stored expires_at
        (Guarded challenge_id (normalized email) stored expires_at max_attempts) request_ip
        max_attempts now db db1 e (λ c i m s x t h. (m, s, x, inr (omega arith)))
        (λ c f h. absurd (ground (arith, f, h)))

-- However a new challenge is guessed at: once as many guesses have been made for its address and
-- before its expiry as the challenge allows, no further guess is accepted, whatever its hash,
-- its address and its time.
pub guess_bound :
    (challenge_id email request_ip stored : String) (expires_at max_attempts now : ℕ) (db db1 : Db)
    (gs : List (String × ℕ)) (email' code_hash : String) (now' : ℕ)
    → create_email_challenge challenge_id email request_ip stored expires_at max_attempts now db
      ≡ (returned tt, db1)
    → All (λ g. g.1 < expires_at) gs
    → length gs ≡ max_attempts
    → (consume_email_challenge challenge_id email' code_hash now'
        (guesses challenge_id email gs db1)).0
      ≡ false
guess_bound challenge_id email request_ip stored expires_at max_attempts now db db1 gs email'
      code_hash now' e l n =
    spent-refused challenge_id email stored expires_at email' code_hash now' _ (
      guesses-Left challenge_id email stored expires_at gs db1 l (
        rw n
          (created-Left challenge_id email stored expires_at request_ip max_attempts now db db1 e)))
