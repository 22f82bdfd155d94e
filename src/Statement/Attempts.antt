-- ===== src/Statement/Attempts.antt =====
-- The attempts that a task may use.
use cairnq.Prelude.{ℕ, ◌+◌, ◌≤◌, ◌<◌, Bool, true, ◌≡◌, sym, subst, Option, none, some, Text, arith}
use cairnq.Models.{queued, Task}
use cairnq.Rows.{
  cancelable, cancel_row, retryable_row, retry_row, owned, owned_among, heartbeat_row, progress_row,
  succeed_row, complete_row, fail_row, lease_expired, recover_row, claim_row, purgeable,
}
use cairnq.Db
use cairnq.Db.{Db, claimable}
use cairnq.Statement.{Statement, retry, claim, run}
use cairnq.Statement.Valid.{IsValid}
use cairnq.Statement.Effect.{effect, get-run, chosen-claimable}

-- A task has used no more attempts than it has, and one that is queued has an attempt left.
pub record IsBudgeted (t : Task) : Type 0 where
  pub within : t.attempt ≤ t.max_attempts
  pub left : t.status ≡ queued → t.attempt < t.max_attempts

-- Every statement but a retry that keeps the count, by which an operator grants one more attempt.
abbrev pub keeps_budget : Statement → Bool
keeps_budget (retry id reset_attempt) = reset_attempt
keeps_budget _ = true

abbrev pub StaysBudgeted : Task → Option Task → Type 0
StaysBudgeted t none = Unit {0}
StaysBudgeted t (some t') =
    IsBudgeted t' × (t'.max_attempts ≡ t.max_attempts) × (t'.attempt ≤ t.attempt + 1)

effect-IsBudgeted :
    (now : ℕ) (id : Text) (db : Db) (t : Task)
    → IsValid db
    → Db.get id db ≡ some t
    → 0 < t.max_attempts
    → IsBudgeted t
    → (s : Statement) → keeps_budget s ≡ true
    → StaysBudgeted t (effect now s db t)
unfolding effect cancelable cancel_row retryable_row retry_row owned owned_among heartbeat_row
    progress_row succeed_row complete_row fail_row lease_expired recover_row claim_row purgeable
    claimable
effect-IsBudgeted now id db t v found some_left b (claim worker lease_ms p limit) e =
    ground (arith, chosen-claimable db v id t found now p limit)
effect-IsBudgeted now id db t v found some_left b _ e = ground arith

-- In a valid database, a task that has an attempt at all keeps to its attempts under every statement
-- but a retry without a reset: the count never passes the maximum, a task that waits has an attempt
-- left, no statement uses two, and the maximum stays as it was.
pub run-IsBudgeted :
    (now : ℕ) (id : Text) (db : Db) (t : Task)
    → IsValid db
    → Db.get id db ≡ some t
    → 0 < t.max_attempts
    → IsBudgeted t
    → (s : Statement) → keeps_budget s ≡ true
    → StaysBudgeted t (Db.get id (run now s db))
run-IsBudgeted now id db t v found some_left b s e =
    subst (StaysBudgeted t) (sym (get-run now id db t found s))
      (effect-IsBudgeted now id db t v found some_left b s e)
