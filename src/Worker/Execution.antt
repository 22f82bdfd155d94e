-- ===== src/Worker/Execution.antt =====
-- What a worker does with a handler call (cairnq-py/cairnq/worker.py): `_outcome_of`, `_safe_fail`,
-- `_succeed_one`, `_settle_each`, the end of `_run_call`, the abandoned attempt of `_attempt`, and one
-- beat of `_heartbeat_loop`. The settlements of one batch, which the code starts together, each touch
-- one row; they are run here in the batch's order.
pub mod Gather
pub mod Settlement
pub mod Beat
mod Examples
use Prim.Native.String.{String}
use cairnq.Prelude.{
  ℕ, Bool, true, false, not, ◌&&◌, Option, none, some, List, [], ◌∷◌, map, Text, Value, ◌==◌,
  filter, if◌then◌else◌,
}
use cairnq.Models.{Task}
use cairnq.Errors.{
  Result, ok, raise, Error, lost_lease, serialization_error, Codec, Envelope, error_envelope,
  Reason, as_envelope,
}
use cairnq.Backoff.{fail_delay_ms}
use cairnq.Db.{Db}
use cairnq.Store.Owned
use cairnq.Context.{TaskContext, mark_lease_lost, mark_settled, observe_cancel}

-- How an attempt ends other than by a return: a write of the handler met a lost lease, the attempt ran
-- out of time, or the handler raised another `Exception`.
pub data Raised : Type 0 where
  lease_raised timed_out : Raised
  reason : Reason → Raised

-- `_timeout_envelope`; the message is the caller's.
abbrev pub timeout_envelope : String → Envelope
timeout_envelope message = error_envelope "HandlerTimeout" "handler_timeout" message true none

unfoldable pub outcome_of : String → Raised → Option (Envelope × Bool)
outcome_of message lease_raised = none
outcome_of message timed_out = some (timeout_envelope message, true)
outcome_of message (reason r) = some (as_envelope r true)

-- A settlement's report to `on_error`, if any, the context, and the database.
abbrev pub Settled : Type 0
Settled = Option Error × (TaskContext × Db)

unfoldable pub failed_context : TaskContext → Result Task × Db → Settled
failed_context x (ok t, db) = (none, (mark_settled x, db))
failed_context x (raise (lost_lease id), db) = (none, (x, db))
failed_context x (raise e, db) = (some e, (x, db))

unfoldable pub safe_fail : Codec → (ℕ → ℕ) → ℕ → Envelope → Bool → TaskContext → Db → Settled
unfolding failed_context
safe_fail c rand now e retryable x db = failed_context x (
    Owned.fail c now x.worker_id x.task.id e retryable
      (fail_delay_ms rand x.task.attempt retryable x.retry_backoff_ms x.retry_backoff_max_ms) db)

abbrev pub unserializable : String → Envelope
unserializable message =
    error_envelope "SerializationError" "unserializable_result" message false none

-- What `_succeed_one` does about the answer of `complete`.
unfoldable pub succeeded_context :
    Codec → (ℕ → ℕ) → ℕ → String → TaskContext → Result Task × Db → Settled
unfolding safe_fail
succeeded_context c rand now message x (ok t, db) = (none, (mark_settled x, db))
succeeded_context c rand now message x (raise (lost_lease id), db) = (none, (mark_lease_lost x, db))
succeeded_context c rand now message x (raise serialization_error, db) =
    safe_fail c rand now (unserializable message) false x db
succeeded_context c rand now message x (raise e, db) = (some e, (x, db))

unfoldable pub succeed_one :
    Codec → (ℕ → ℕ) → ℕ → String → Option Value → TaskContext → Db → Settled
unfolding succeeded_context
succeed_one c rand now message result x db =
    if x.settled
    then (none, (x, db))
    else succeeded_context c rand now message x
        (Owned.complete c now x.worker_id x.task.id result db)

-- The outcomes of `gather`, with the reports of those that raised.
abbrev pub Gathered : Type 0
Gathered = List Error × (List TaskContext × Db)

abbrev pub gather : Settled → (Db → Gathered) → Gathered
gather (none, (x, db)) rest = let r = rest db in (r.0, (x ∷ r.1.0, r.1.1))
gather (some e, (x, db)) rest = let r = rest db in (e ∷ r.0, (x ∷ r.1.0, r.1.1))

-- `_settle_each`: the contexts that are settled already are left out.
unfoldable pub settle_each : (TaskContext → Db → Settled) → List TaskContext → Db → Gathered
settle_each settle [] db = ([], ([], db))
settle_each settle (x ∷ xs) db =
    gather (if x.settled then (none, (x, db)) else settle x db) (λ next. settle_each settle xs next)

-- `_attempt` past its time: every context is flagged before the handler is abandoned.
unfoldable pub abandon : List TaskContext → List TaskContext
abandon xs = map (λ x. mark_lease_lost x) xs

-- The end of `_run_call`: the handler returned, with the result of each task; it raised an
-- `Exception`; or it raised another `BaseException`, such as the `CancelledError` of a cancelled
-- await, which no clause of `_run_call` catches and which unwinds the call.
pub data CallEnd : Type 0 where
  returned : (Text → Option Value) → CallEnd
  ended : Raised → CallEnd
  unwound : CallEnd

unfoldable pub finish_call :
    Codec → (ℕ → ℕ) → ℕ → String → CallEnd → List TaskContext → Db → Gathered
unfolding settle_each succeed_one safe_fail outcome_of
finish_call c rand now message (returned results) xs db =
    settle_each (λ x. succeed_one c rand now message (results x.task.id) x) xs db
finish_call c rand now message (ended r) xs db = elim (outcome_of message r) [
  | none ↦ ([], (xs, db))
  | some outcome ↦ settle_each (λ x. safe_fail c rand now outcome.0 outcome.1 x) xs db
]
finish_call c rand now message unwound xs db = ([], (xs, db))

abbrev pub is_live : TaskContext → Bool
is_live x = not x.settled && not x.lease_lost

abbrev pub renewal : Text → List (Text × Bool) → Option Bool
renewal id [] = none
renewal id ((i, requested) ∷ rest) = if i == id then some requested else renewal id rest

-- The reply's entry, as a context reads it; an absence is a lost lease only if the context is not
-- settled by then.
abbrev pub heard : Option Bool → TaskContext → TaskContext
heard none x = if x.settled then x else mark_lease_lost x
heard (some requested) x = observe_cancel requested x

-- A context after the reply to a beat, and whether it was among the live ones that the beat renews.
unfoldable pub after_beat : List (Text × Bool) → Bool → TaskContext → TaskContext
after_beat renewed live x = if live then heard (renewal x.task.id renewed) x else x

-- One beat of the contexts of a call, which share the worker and the lease. The handler runs while the
-- beat's statement is awaited: `meanwhile` is what it makes of each context until the reply is read.
-- A beat whose statement raises is reported and touches no context.
unfoldable pub beat :
    ℕ → Text → ℕ → (TaskContext → TaskContext) → List TaskContext → Db → List TaskContext × Db
unfolding after_beat
beat now worker lease_ms meanwhile xs db =
    let live = map (λ x. x.task.id) (filter is_live xs) in
    let r = Owned.heartbeat_batch now worker live lease_ms db in
    (map (λ x. after_beat r.0 (is_live x) (meanwhile x)) xs, r.1)
