-- ===== src/Statement/Exclusive.antt =====
-- A live lease excludes every other worker.
use cairnq.Prelude.{ℕ, ◌<◌, Bool, false, ◌≡◌, sym, subst, Option, none, some, Text, arith, ◌==◌}
use cairnq.Models.{running, Task}
use cairnq.Rows.{
  cancelable, cancel_row, retryable_row, retry_row, owned, owned_among, heartbeat_row, progress_row,
  succeed_row, complete_row, fail_row, lease_expired, recover_row, claim_row, purgeable,
}
use cairnq.Db
use cairnq.Db.{Db, claimable}
use cairnq.Statement.{
  Statement, claim, heartbeat, heartbeat_batch, progress, succeed, complete, fail, purge, run,
}
use cairnq.Statement.Valid.{IsValid}
use cairnq.Statement.Effect.{effect, get-run, chosen-claimable, chosen-purgeable}

-- Whether a statement is an owned write of this worker. A claim is not: it takes queued rows only,
-- also for the worker that holds the lease.
abbrev pub writes_as : Text → Statement → Bool
writes_as w (heartbeat worker id lease_ms) = worker == w
writes_as w (heartbeat_batch worker task_ids lease_ms) = worker == w
writes_as w (progress worker id value message) = worker == w
writes_as w (succeed worker id result message) = worker == w
writes_as w (complete worker id result) = worker == w
writes_as w (fail worker id error retryable delay_ms) = worker == w
writes_as w _ = false

pub record IsHeld (now : ℕ) (w : Text) (t : Task) : Type 0 where
  pub is_running : t.status ≡ running
  pub holder : t.worker_id ≡ some w
  pub until : ℕ
  pub lease : t.lease_until_ms ≡ some until
  pub live : now < until

-- The attempt goes on: only the cancel flag and the time of change may differ.
pub record GoesOn (t t' : Task) : Type 0 where
  pub status_kept : t'.status ≡ t.status
  pub worker_kept : t'.worker_id ≡ t.worker_id
  pub lease_kept : t'.lease_until_ms ≡ t.lease_until_ms
  pub attempt_kept : t'.attempt ≡ t.attempt
  pub progress_kept : t'.progress ≡ t.progress
  pub result_kept : t'.result ≡ t.result
  pub error_kept : t'.error ≡ t.error

abbrev pub KeepsAttempt : Task → Option Task → Type 0
KeepsAttempt t none = ⊥
KeepsAttempt t (some t') = GoesOn t t'

effect_exclusive :
    (now : ℕ) (id w : Text) (db : Db) (t : Task)
    → IsValid db
    → Db.get id db ≡ some t
    → IsHeld now w t
    → (s : Statement) → writes_as w s ≡ false
    → KeepsAttempt t (effect now s db t)
unfolding effect cancelable cancel_row retryable_row retry_row owned owned_among heartbeat_row
    progress_row succeed_row complete_row fail_row lease_expired recover_row claim_row purgeable
    claimable
effect_exclusive now id w db t v found held (claim worker lease_ms p limit) e =
    ground (arith, chosen-claimable db v id t found now p limit)
effect_exclusive now id w db t v found held (purge before_ms queue status name limit) e =
    ground (arith, chosen-purgeable db v id t found before_ms queue status name limit)
effect_exclusive now id w db t v found held _ e = ground arith

-- While a worker holds a live lease on a task of a valid database, no statement but that worker's own
-- owned writes ends or disturbs the attempt: the row stays running under the same worker, lease and
-- attempt number, with the same progress, result and error. In particular no claim, of any worker,
-- and no recovery delivers the task a second time.
pub run-KeepsAttempt :
    (now : ℕ) (id w : Text) (db : Db) (t : Task)
    → IsValid db
    → Db.get id db ≡ some t
    → IsHeld now w t
    → (s : Statement) → writes_as w s ≡ false
    → KeepsAttempt t (Db.get id (run now s db))
run-KeepsAttempt now id w db t v found held s e =
    subst (KeepsAttempt t) (sym (get-run now id db t found s))
      (effect_exclusive now id w db t v found held s e)
