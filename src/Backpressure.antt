-- ===== src/Backpressure.antt =====
-- `QueueDepthGate` (cairnq-py/cairnq/backpressure.py): a producer's grant of submits on a queue, and
-- the probe that renews it.
pub mod Acquire
pub mod Market
pub mod Overshoot
mod Examples
use cairnq.Prelude.{
  ℕ, zero, suc, ◌+◌, ◌-◌, ◌*◌, min, Bool, true, false, Option, none, some, List, [], ◌∷◌, Text, leb,
  ltb, ◌==◌, if◌then◌else◌,
}
use cairnq.Prelude.Int.{ℤ, pos, ltb_ℤ, pos_part}
use cairnq.Errors.{Result, ok, raise, ◌>>=◌, ◌>>◌, raise_if, value_error, queue_full}
use cairnq.Db.{Db}
use cairnq.Store.Reads
use cairnq.Worker.Planner.{Counts, count_of, set_count}

abbrev pub max_grant : ℕ
max_grant = 64

abbrev pub initial_probe_interval_ms : ℕ
initial_probe_interval_ms = 250

abbrev pub max_probe_interval_ms : ℕ
max_probe_interval_ms = 5000

-- `QueueDepthLimit`: one limit for every queue, or one for each of the queues named.
pub data QueueDepthLimit : Type 0 where
  every : ℤ → QueueDepthLimit
  only : List (Text × ℤ) → QueueDepthLimit

-- `_validate`, for each limit given.
abbrev pub validate : ℤ → Result (Unit {0})
validate limit = raise_if (ltb_ℤ limit (pos 1)) value_error

unfoldable pub validate_all : List (Text × ℤ) → Result (Unit {0})
validate_all [] = ok tt
validate_all ((queue, limit) ∷ rest) = validate limit >> validate_all rest

unfoldable pub validate_limits : QueueDepthLimit → Result (Unit {0})
unfolding validate_all
validate_limits (every limit) = validate limit
validate_limits (only limits) = validate_all limits

abbrev pub named_limit : Text → List (Text × ℤ) → Option ℤ
named_limit queue [] = none
named_limit queue ((q, limit) ∷ rest) = if q == queue then some limit else named_limit queue rest

unfoldable pub limit_for : QueueDepthLimit → Text → Option ℤ
limit_for (every limit) queue = some limit
limit_for (only limits) queue = named_limit queue limits

-- `_refresh`: the answer of the store, or its error, and the grants with the new one.
unfoldable pub refresh : Text → ℤ → Db → Counts → Result Counts
refresh queue limit db headroom =
    Reads.queue_depth queue limit db >>= λ room. ok (set_count queue (min room max_grant) headroom)

-- `acquire` consumes one unit of the grant.
abbrev pub take_unit : Text → Counts → Counts
take_unit queue headroom = set_count queue (count_of queue headroom - 1) headroom

-- The loop of `acquire`. `dbs` and `clock` are the database and the time at each probe; the loop
-- returns the sleeps, and the new grants or the error, unless the fuel ran out.
unfoldable pub acquire_loop :
    Text
    → ℤ
    → ℕ
    → (ℕ → Db)
    → (ℕ → ℕ)
    → ℕ
    → ℕ
    → ℕ
    → ℕ
    → Counts
    → List ℕ × Option (Result (Unit {0}) × Counts)
unfolding refresh
acquire_loop queue limit max_wait_ms dbs clock started zero i wait_ms headroom = ([], none)
acquire_loop queue limit max_wait_ms dbs clock started (suc fuel) i wait_ms headroom =
    let again = acquire_loop queue limit max_wait_ms dbs clock started fuel in
    let waited = clock i - started in
    if ltb 0 (count_of queue headroom)
    then ([], some (ok tt, take_unit queue headroom))
    else elim (refresh queue limit (dbs i) headroom) [
      | raise e ↦ ([], some (raise e, headroom))
      | ok granted ↦
          if ltb 0 (count_of queue granted)
          then again (suc i) wait_ms granted
          else if leb max_wait_ms waited
          then ([], some (raise (queue_full queue (pos_part limit) waited), granted))
          else (let rest = again (suc i) (min (wait_ms * 2) max_probe_interval_ms) granted in
              (min wait_ms (max_wait_ms - waited) ∷ rest.0, rest.1))
    ]

-- `acquire`: an ungated queue is let through at once.
unfoldable pub acquire :
    QueueDepthLimit
    → ℕ
    → Text
    → (ℕ → Db)
    → (ℕ → ℕ)
    → ℕ
    → ℕ
    → Counts
    → List ℕ × Option (Result (Unit {0}) × Counts)
unfolding acquire_loop
acquire limits max_wait_ms queue dbs clock started fuel headroom = elim (limit_for limits queue) [
  | none ↦ ([], some (ok tt, headroom))
  | some limit ↦
      acquire_loop queue limit max_wait_ms dbs clock started fuel 0 initial_probe_interval_ms
        headroom
]
