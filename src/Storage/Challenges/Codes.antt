-- ===== src/Storage/Challenges/Codes.antt =====
-- A code that was sent by mail is used once and replaces the earlier ones.
use automated_workflow.Prelude.{
  ℕ, ◌≤◌, String, Bool, true, false, List, [], ◌∷◌, str_eq, ◌≡◌, ◌≢◌, refl, arith, sym, ap, subst,
  ◌∙◌, inl, inr,
}
use automated_workflow.Prelude.Tests.{if◌then◌else◌, ◌==◌, Bool-cases, ne→str_eq, str_eq→eq}
use automated_workflow.Prelude.Outcome.{Outcome, returned}
use automated_workflow.Prelude.Table.{All, count_where, any_where}
use automated_workflow.Prelude.Rows.{All-map, Unique, All-insert_row, All-update_where}
use automated_workflow.Prelude.Updates.{
  count_where-update_where_only, count_where-All, any_where-All,
}
use automated_workflow.Schema.{Db, ChallengeRow}
use automated_workflow.Storage.Users.{normalized}
use automated_workflow.Storage.Challenges.{
  is_unused_for, consumed, create_email_challenge, is_match, consume_email_challenge,
}

has_challenge : String → ChallengeRow → Bool
has_challenge challenge_id c = str_eq c.id challenge_id

pub no_match :
    (challenge_id email code_hash : String) (now : ℕ) (db : Db)
    → All
        (λ c. is_match challenge_id (normalized email) code_hash now c ≡ false)
        db.email_challenges
    → (consume_email_challenge challenge_id email code_hash now db).0 ≡ false
unfolding consume_email_challenge
no_match challenge_id email code_hash now db a =
    rw
      (count_where-All (is_match challenge_id (normalized email) code_hash now) db.email_challenges
        a)
      refl

module _ (challenge_id email stored : String) (expires_at : ℕ) where
  pub created-All :
      (P : ChallengeRow → Type 0) (request_ip : String) (max_attempts now : ℕ) (db db1 : Db)
      → create_email_challenge challenge_id email request_ip stored expires_at max_attempts now db
        ≡ (returned tt, db1)
      → ((c : ChallengeRow)
          → c.id ≡ challenge_id
          → c.email ≡ normalized email
          → c.code_hash ≡ stored
          → c.expires_at ≡ expires_at
          → c.max_attempts ≡ max_attempts
          → P c)
      → ((c : ChallengeRow)
          → str_eq c.id challenge_id ≡ false
          → P (if is_unused_for (normalized email) c then consumed now c else c))
      → All P db1.email_challenges
  unfolding create_email_challenge
  created-All P request_ip max_attempts now db db1 e new old =
      elim (Bool-cases (any_where (λ c. str_eq c.id challenge_id) db.email_challenges)) [
        | inl k ↦ absurd (ground (arith, e, k))
        | inr k ↦
            subst (λ (d : Db). All P d.email_challenges)
              (ap (λ (r : Outcome Unit × Db). r.1) (rw k at e))
              (All-insert_row P _ _ (new _ refl refl refl refl refl) (
                All-update_where _ P _ (consumed now) db.email_challenges (λ c o f. old c f)
                  (any_where-All (λ c. str_eq c.id challenge_id) db.email_challenges k)))
      ]

one_challenge :
    (challenge_id : String) (xs : List ChallengeRow)
    → Unique (λ c. c.id) xs
    → count_where (has_challenge challenge_id) xs ≤ 1
unfolding count_where has_challenge
one_challenge challenge_id [] u = omega arith
one_challenge challenge_id (x ∷ xs) u = elim (Bool-cases (str_eq x.id challenge_id)) [
  | inl h ↦ rw h (
      ground (
        arith,
        count_where-All (has_challenge challenge_id) xs (
            All-map
              (λ c ne.
                ne→str_eq c.id challenge_id (λ q. ne (str_eq→eq x.id challenge_id h ∙ sym q)))
              xs u.0),
      ))
  | inr h ↦ rw h (one_challenge challenge_id xs u.1)
]

-- With distinct identifiers of challenges, a code is used once: after a guess that is accepted,
-- no guess at the same challenge is, whatever its address, its hash and its time.
pub consume_once :
    (challenge_id email code_hash : String) (now : ℕ) (db : Db) (email' code_hash' : String)
    (now' : ℕ)
    → Unique (λ c. c.id) db.email_challenges
    → (consume_email_challenge challenge_id email code_hash now db).0 ≡ true
    → (consume_email_challenge challenge_id email' code_hash' now'
        (consume_email_challenge challenge_id email code_hash now db).1).0
      ≡ false
unfolding consume_email_challenge has_challenge
consume_once challenge_id email code_hash now db email' code_hash' now' u h =
    elim (Bool-cases (
      count_where (is_match challenge_id (normalized email) code_hash now) db.email_challenges
      == 1)) [
        | inl e ↦ rw e (
            rw
              (count_where-update_where_only
                (is_match challenge_id (normalized email) code_hash now)
                (has_challenge challenge_id)
                (is_match challenge_id (normalized email') code_hash' now') (consumed now)
                db.email_challenges (λ x m. ground (arith, m)) (λ x m. ground (arith, m))
                (λ x. ground arith) (one_challenge challenge_id db.email_challenges u)
                (ground (arith, e)))
              refl)
        | inr e ↦ absurd (ground (arith, h, e))
      ]

-- A new code replaces the earlier ones: after it is made, no guess at another challenge of the same address is accepted.
create_replaces :
    (challenge_id email request_ip stored : String) (expires_at max_attempts now : ℕ) (db db1 : Db)
    (challenge_id' code_hash : String) (now' : ℕ)
    → create_email_challenge challenge_id email request_ip stored expires_at max_attempts now db
      ≡ (returned tt, db1)
    → challenge_id' ≢ challenge_id
    → (consume_email_challenge challenge_id' email code_hash now' db1).0 ≡ false
create_replaces challenge_id email request_ip stored expires_at max_attempts now db db1
      challenge_id' code_hash now' e ne =
    no_match challenge_id' email code_hash now' db1 (
      created-All challenge_id email stored expires_at
        (λ c. is_match challenge_id' (normalized email) code_hash now' c ≡ false) request_ip
        max_attempts now db db1 e
        (λ c i m s x t. rw (ne→str_eq c.id challenge_id' (λ q. ne (sym q ∙ i))) refl)
        (λ c f. ground arith))
