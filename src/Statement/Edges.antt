-- ===== src/Statement/Edges.antt =====
-- The life of a task: which status may follow which.
use cairnq.Prelude.{ℕ, Bool, true, false, ◌≡◌, sym, subst, Option, none, some, Text, arith}
use cairnq.Models.{Status, queued, running, succeeded, failed, canceled, Task, is_terminal}
use cairnq.Rows.{
  cancelable, cancel_row, retryable_row, retry_row, owned, owned_among, heartbeat_row, progress_row,
  succeed_row, complete_row, fail_row, lease_expired, recover_row, claim_row, purgeable,
}
use cairnq.Db
use cairnq.Db.{Db, claimable}
use cairnq.Statement.{Statement, retry, claim, purge, run}
use cairnq.Statement.Valid.{IsValid}
use cairnq.Statement.Effect.{effect, get-run, chosen-claimable, chosen-purgeable}

-- A queued task is claimed or canceled; a running one ends or goes back to the queue; a failed or
-- canceled one may be retried; a succeeded one stays.
abbrev pub may_follow : Status → Status → Bool
may_follow queued queued = true
may_follow queued running = true
may_follow queued canceled = true
may_follow running queued = true
may_follow running running = true
may_follow running succeeded = true
may_follow running failed = true
may_follow running canceled = true
may_follow succeeded succeeded = true
may_follow failed failed = true
may_follow failed queued = true
may_follow canceled canceled = true
may_follow canceled queued = true
may_follow _ _ = false

-- A row that is gone was terminal.
abbrev pub Follows : Task → Option Task → Type 0
Follows t none = is_terminal t ≡ true
Follows t (some t') = may_follow t.status t'.status ≡ true

module _ (now : ℕ) (id : Text) (db : Db) (t : Task) (v : IsValid db)
    (found : Db.get id db ≡ some t) where
  effect-Follows : (s : Statement) → Follows t (effect now s db t)
  unfolding effect cancelable cancel_row retryable_row retry_row owned owned_among heartbeat_row
      progress_row succeed_row complete_row fail_row lease_expired recover_row claim_row purgeable
      claimable
  effect-Follows (claim worker lease_ms p limit) =
      ground (arith, chosen-claimable db v id t found now p limit)
  effect-Follows (purge before_ms queue status name limit) =
      ground (arith, chosen-purgeable db v id t found before_ms queue status name limit)
  effect-Follows _ = ground arith

-- In a valid database, whatever one statement does to a task that is there, the task's new status is
-- one that may follow the old one; and only a terminal task is ever deleted.
pub run-Follows :
    (now : ℕ) (id : Text) (db : Db) (t : Task)
    → IsValid db
    → Db.get id db ≡ some t
    → (s : Statement) → Follows t (Db.get id (run now s db))
run-Follows now id db t v found s =
    subst (Follows t) (sym (get-run now id db t found s)) (effect-Follows now id db t v found s)

abbrev pub is_retry : Statement → Bool
is_retry (retry id reset_attempt) = true
is_retry _ = false

-- The row is as it was, or gone.
abbrev pub IsUnchanged : Task → Option Task → Type 0
IsUnchanged t none = Unit {0}
IsUnchanged t (some t') = t' ≡ t

effect-IsUnchanged :
    (now : ℕ) (id : Text) (db : Db) (t : Task)
    → IsValid db
    → Db.get id db ≡ some t
    → is_terminal t ≡ true
    → (s : Statement) → is_retry s ≡ false
    → IsUnchanged t (effect now s db t)
unfolding effect cancelable cancel_row retryable_row retry_row owned owned_among heartbeat_row
    progress_row succeed_row complete_row fail_row lease_expired recover_row claim_row purgeable
    claimable
effect-IsUnchanged now id db t v found over (claim worker lease_ms p limit) e =
    ground (arith, chosen-claimable db v id t found now p limit)
effect-IsUnchanged now id db t v found over _ e = ground arith

-- In a valid database a terminal task's whole row stays as it is under every statement but a retry,
-- which alone reopens it: a late heartbeat, settlement, cancel, recovery or claim changes nothing of
-- it. (A purge may delete it.)
pub run-IsUnchanged :
    (now : ℕ) (id : Text) (db : Db) (t : Task)
    → IsValid db
    → Db.get id db ≡ some t
    → is_terminal t ≡ true
    → (s : Statement) → is_retry s ≡ false
    → IsUnchanged t (Db.get id (run now s db))
run-IsUnchanged now id db t v found over s e =
    subst (IsUnchanged t) (sym (get-run now id db t found s))
      (effect-IsUnchanged now id db t v found over s e)
