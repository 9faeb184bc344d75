-- ===== src/Storage/Challenges.antt =====
-- app/storage.py: the codes that are sent by mail.
pub mod Codes
pub mod Guesses
use automated_workflow.Prelude.{
  ℕ, ◌+◌, String, Bool, true, false, ◌&&◌, Option, none, some, map, str_eq,
}
use automated_workflow.Prelude.Tests.{ltb, ◌==◌, if◌then◌else◌, is_none}
use automated_workflow.Prelude.Outcome.{returned, raised, integrity_error}
use automated_workflow.Prelude.Table.{
  update_where, delete_where, select_where, count_where, any_where, insert_row, order_by_desc,
  first,
}
use automated_workflow.Schema.{Db, ChallengeRow}
use automated_workflow.Storage.Tasks.{Store}
use automated_workflow.Storage.Users.{normalized}

unfoldable pub latest_email_challenge_at : String → Db → Option ℕ
latest_email_challenge_at email db = first (
    map (λ c. c.created_at)
      (order_by_desc (λ c. c.created_at)
        (select_where (λ c. str_eq c.email (normalized email)) db.email_challenges)))

unfoldable pub count_email_challenges_since : String → ℕ → Db → ℕ
count_email_challenges_since request_ip cutoff db =
    count_where (λ c. str_eq c.request_ip request_ip && ltb cutoff c.created_at) db.email_challenges

abbrev pub is_unused_for : String → ChallengeRow → Bool
is_unused_for email c = str_eq c.email email && is_none c.consumed_at

abbrev pub consumed : ℕ → ChallengeRow → ChallengeRow
consumed now c = record c { consumed_at = some now }

new_challenge : String → String → String → String → ℕ → ℕ → ℕ → ChallengeRow
new_challenge challenge_id email request_ip code_hash expires_at max_attempts now = record {
  id = challenge_id;
  email = normalized email;
  request_ip = request_ip;
  code_hash = code_hash;
  attempts = 0;
  max_attempts = max_attempts;
  expires_at = expires_at;
  created_at = now;
  consumed_at = none;
}

-- The address's earlier codes are used up; then the new one is stored.
unfoldable pub create_email_challenge :
    String → String → String → String → ℕ → ℕ → ℕ → Store (Unit {0})
unfolding new_challenge
create_email_challenge challenge_id email request_ip code_hash expires_at max_attempts now db =
    if any_where (λ c. str_eq c.id challenge_id) db.email_challenges
    then (raised integrity_error, db)
    else (
      returned tt,
      record db {
        email_challenges =
            insert_row
              (new_challenge challenge_id email request_ip code_hash expires_at max_attempts now)
              (update_where (is_unused_for (normalized email)) (consumed now) db.email_challenges);
      },
    )

-- What both updates ask: the challenge of the address, unused, in time, with an attempt left.
abbrev pub is_open : String → String → ℕ → ChallengeRow → Bool
is_open challenge_id email now c =
    str_eq c.id challenge_id
    && str_eq c.email email
    && is_none c.consumed_at
    && ltb now c.expires_at
    && ltb c.attempts c.max_attempts

abbrev pub is_match : String → String → String → ℕ → ChallengeRow → Bool
is_match challenge_id email code_hash now c =
    is_open challenge_id email now c && str_eq c.code_hash code_hash

abbrev pub tried : ChallengeRow → ChallengeRow
tried c = record c { attempts = c.attempts + 1 }

unfoldable pub consume_email_challenge : String → String → String → ℕ → Db → Bool × Db
consume_email_challenge challenge_id email code_hash now db =
    if count_where (is_match challenge_id (normalized email) code_hash now) db.email_challenges == 1
    then (
      true,
      record db {
        email_challenges =
            update_where (is_match challenge_id (normalized email) code_hash now) (consumed now)
              db.email_challenges;
      },
    )
    else (
      false,
      record db {
        email_challenges = update_where (is_open challenge_id (normalized email) now) tried (
            update_where (is_match challenge_id (normalized email) code_hash now) (consumed now)
              db.email_challenges);
      },
    )

unfoldable pub delete_email_challenge : String → Db → Db
delete_email_challenge challenge_id db = record db {
  email_challenges = delete_where (λ c. str_eq c.id challenge_id) db.email_challenges;
}
