-- ===== src/Context.antt =====
-- `TaskContext` (cairnq-py/cairnq/context.py): what a handler may write, and when it may no more. The
-- context is a state next to the database; the times of its calls are arguments.
pub mod Gate
pub mod Settled
pub mod Outcome
mod Examples
use cairnq.Prelude.{
  ℕ, Bool, true, false, ◌||◌, Option, none, some, Text, Json, Value, if◌then◌else◌,
}
use cairnq.Models.{Progress, Task, canceled, cancel_requested, status_eq}
use cairnq.Errors.{Result, ok, raise, Error, lost_lease, Codec, Reason, as_envelope}
use cairnq.Backoff.{fail_delay_ms}
use cairnq.Db
use cairnq.Db.{Db}
use cairnq.Store.Owned
use cairnq.Store.Submit
use cairnq.Store.Submit.{SubmitArgs}

pub record TaskContext : Type 0 where
  pub task : Task
  pub worker_id : Text
  pub lease_ms : ℕ
  pub retry_backoff_ms : ℕ
  pub retry_backoff_max_ms : ℕ
  pub lease_lost : Bool
  pub cancel_seen : Bool
  pub settled : Bool

unfoldable pub mark_lease_lost : TaskContext → TaskContext
mark_lease_lost x = record x { lease_lost = true }

unfoldable pub mark_settled : TaskContext → TaskContext
mark_settled x = record x { settled = true }

-- `_observe_cancel`
unfoldable pub observe_cancel : Bool → TaskContext → TaskContext
observe_cancel requested x = record x { cancel_seen = requested || x.cancel_seen }

unfoldable pub require_lease : TaskContext → Result (Unit {0})
require_lease x = if x.lease_lost then raise (lost_lease x.task.id) else ok tt

abbrev pub is_lost_lease : Error → Bool
is_lost_lease (lost_lease id) = true
is_lost_lease _ = false

-- What `_owned` does about the answer of the store: the observation, or the mark of a lost lease.
unfoldable pub observe : Result Task → TaskContext → TaskContext
unfolding observe_cancel mark_lease_lost
observe (ok t) x = observe_cancel (cancel_requested t) x
observe (raise e) x = if is_lost_lease e then mark_lease_lost x else x

-- `_owned`, over a write to the store, or to the store and the caller's own tables.
unfoldable pub owned {ℓ} :
    {S : Type ℓ} → (S → Result Task × S) → TaskContext → S → Result Task × (TaskContext × S)
unfolding observe require_lease
owned write x db = elim (require_lease x) [
  | raise e ↦ (raise e, (x, db))
  | ok held ↦
      if x.settled
      then (raise (lost_lease x.task.id), (x, db))
      else (let r = write db in (r.0, (observe r.0 x, r.1)))
]

unfoldable pub progress :
    ℕ → Option Progress → Option Text → TaskContext → Db → Result Task × (TaskContext × Db)
unfolding owned
progress now value message x db =
    owned (Owned.progress now x.worker_id x.task.id value message) x db

unfoldable pub heartbeat : ℕ → TaskContext → Db → Result Task × (TaskContext × Db)
unfolding owned
heartbeat now x db = owned (Owned.heartbeat now x.worker_id x.task.id x.lease_ms) x db

-- The row that `canceled` reads.
abbrev pub canceled_row : Option Task → TaskContext → Bool × TaskContext
canceled_row none x = (true, x)
canceled_row (some t) x =
    let y = observe_cancel (cancel_requested t) x in
    (y.cancel_seen || status_eq t.status canceled, y)

unfoldable pub check_canceled : TaskContext → Db → Bool × TaskContext
unfolding observe_cancel
check_canceled x db = if x.cancel_seen then (true, x) else canceled_row (Db.get x.task.id db) x

-- The end of a settlement: the mark, once the write landed; `none` is the no-op of a second one.
unfoldable pub settle {ℓ} :
    {S : Type ℓ} → Result Task × (TaskContext × S) → Result (Option Task) × (TaskContext × S)
unfolding mark_settled
settle (ok t, (x, db)) = (ok (some t), (mark_settled x, db))
settle (raise e, (x, db)) = (raise e, (x, db))

unfoldable pub succeed :
    Codec → ℕ → Option Value → TaskContext → Db → Result (Option Task) × (TaskContext × Db)
unfolding owned settle
succeed c now result x db =
    if x.settled
    then (ok none, (x, db))
    else settle (owned (Owned.complete c now x.worker_id x.task.id result) x db)

-- The task alone of what `complete_in` returns.
abbrev pub settled_task : Result (Task × Option Value) → Result Task
settled_task (ok r) = ok r.0
settled_task (raise e) = raise e

-- `succeed_in`, where `write` runs on the caller's tables.
unfoldable pub succeed_in :
    {S : Type 0}
    → Codec
    → Bool
    → ℕ
    → (S → Result (Option Value × S))
    → TaskContext
    → S × Db
    → Result (Option Task) × (TaskContext × (S × Db))
unfolding owned settle
succeed_in c shares now write x s =
    if x.settled
    then (ok none, (x, s))
    else settle (
        owned
          (λ s.
            let r = Owned.complete_in c shares now x.worker_id x.task.id write s.0 s.1 in
            (settled_task r.0, r.1))
          x s)

-- `fail`: the envelope of the reason, its retryability, and the delay of the worker's backoff.
unfoldable pub fail :
    Codec
    → (ℕ → ℕ)
    → ℕ
    → Reason
    → Bool
    → TaskContext
    → Db
    → Result (Option Task) × (TaskContext × Db)
unfolding owned settle
fail c rand now error retryable x db =
    let e = as_envelope error retryable in
    if x.settled
    then (ok none, (x, db))
    else settle (
        owned
          (Owned.fail c now x.worker_id x.task.id e.0 e.1
            (fail_delay_ms rand x.task.attempt e.1 x.retry_backoff_ms x.retry_backoff_max_ms))
          x db)

-- A child task: parent, root and correlation come from the parent's row.
abbrev pub child_args : TaskContext → SubmitArgs → SubmitArgs
child_args x a = record a {
  parent_id = some x.task.id;
  root_id = x.task.root_id;
  correlation_id = x.task.correlation_id;
}

unfoldable pub submit :
    Codec → Result (Unit {0}) → ℕ → Text → SubmitArgs → TaskContext → Db → Result Task × Db
unfolding require_lease
submit c admit now child_id a x db = elim (require_lease x) [
  | raise e ↦ (raise e, db)
  | ok held ↦ Submit.submit c admit now child_id (child_args x a) db
]
