-- ===== src/Backpressure/Acquire.antt =====
-- A submit behind the gate is let through or refused, in time.
use cairnq.Prelude.{
  ℕ, zero, suc, ◌+◌, ◌-◌, ◌≤◌, ◌<◌, true, false, ◌≡◌, refl, ◌≢◌, subst, Option, none, some, List,
  [], ◌∷◌, Text, arith, leb, ltb, Bool-cases, inl, inr, if◌then◌else◌, min, ◌*◌, leb→le,
}
use cairnq.Prelude.Int.{pos}
use cairnq.Models.{queued}
use cairnq.Errors.{Result, ok, raise, queue_full}
use cairnq.Db.{Db, count_status}
use cairnq.Store.Reads.Depth.{queue_depth_headroom}
use cairnq.Worker.Planner.{Counts, count_of, set_count}
use cairnq.Worker.Planner.Counts.{count_of-set_count}
use cairnq.Backpressure.{
  QueueDepthLimit, limit_for, acquire, initial_probe_interval_ms, refresh, acquire_loop, max_grant,
  max_probe_interval_ms,
}

-- The grant that a probe gives at this depth.
abbrev pub renewed : ℕ → ℕ → ℕ
renewed limit depth = min (limit - depth) max_grant

granted_by :
    (queue : Text) (limit : ℕ) (db : Db) (headroom : Counts)
    → refresh queue (pos limit) db headroom
      ≡ ok (set_count queue (renewed limit (count_status queue queued db)) headroom)
unfolding refresh
granted_by queue limit db headroom = rw (queue_depth_headroom queue limit db) refl

-- A probe renews the grant of its queue to the room under the limit that the tasks queued there
-- leave, 64 at most, and leaves the grants of the other queues as they are.
pub refresh_lem :
    (queue other : Text) (limit : ℕ) (db : Db) (headroom : Counts)
    → (granted : Counts) × (refresh queue (pos limit) db headroom ≡ ok granted)
      × (count_of queue granted ≡ renewed limit (count_status queue queued db))
      × (queue ≢ other → count_of other granted ≡ count_of other headroom)
refresh_lem queue other limit db headroom = (
  _,
  granted_by queue limit db headroom,
  ground (
    arith,
    count_of-set_count queue queue (renewed limit (count_status queue queued db)) headroom,
  ),
  λ d. ground (
    arith,
    count_of-set_count other queue (renewed limit (count_status queue queued db)) headroom,
  ),
)

module _ (queue : Text) (limit max_wait_ms : ℕ) (dbs : ℕ → Db) (clock : ℕ → ℕ) (started : ℕ) where
  -- How the loop may end: let through; or refused, when the wait was over and the last probe had found
  -- the queue at its limit.
  abbrev pub IsDecision : Option (Result (Unit {0}) × Counts) → Type 0
  IsDecision none = ⊥
  IsDecision (some (ok u, granted)) = Unit {0}
  IsDecision (some (raise e, granted)) =
      (i : ℕ) × (e ≡ queue_full queue limit (clock i - started))
      × (max_wait_ms ≤ clock i - started)
      × (limit ≤ count_status queue queued (dbs i))

  abbrev pub loop : ℕ → ℕ → ℕ → Counts → List ℕ × Option (Result (Unit {0}) × Counts)
  loop = acquire_loop queue (pos limit) max_wait_ms dbs clock started

  loop_takes :
      (fuel i wait_ms : ℕ) (headroom : Counts)
      → ltb 0 (count_of queue headroom) ≡ true
      → IsDecision (loop (suc fuel) i wait_ms headroom).1
  unfolding acquire_loop
  loop_takes fuel i wait_ms headroom e = rw (e, acquire_loop) tt

  -- The grants after the probe at `i`.
  abbrev pub probed : ℕ → Counts → Counts
  probed i headroom = set_count queue (renewed limit (count_status queue queued (dbs i))) headroom

  -- What follows the probe.
  abbrev pub after : ℕ → ℕ → ℕ → Counts → List ℕ × Option (Result (Unit {0}) × Counts)
  after fuel i wait_ms granted =
      if ltb 0 (count_of queue granted)
      then loop fuel (suc i) wait_ms granted
      else if leb max_wait_ms (clock i - started)
      then ([], some (raise (queue_full queue limit (clock i - started)), granted))
      else (let rest = loop fuel (suc i) (min (wait_ms * 2) max_probe_interval_ms) granted in
          (min wait_ms (max_wait_ms - (clock i - started)) ∷ rest.0, rest.1))

  pub loop_probes :
      (fuel i wait_ms : ℕ) (headroom : Counts)
      → ltb 0 (count_of queue headroom) ≡ false
      → loop (suc fuel) i wait_ms headroom ≡ after fuel i wait_ms (probed i headroom)
  unfolding acquire_loop
  loop_probes fuel i wait_ms headroom e =
      rw (e, acquire_loop) (rw (granted_by queue limit (dbs i) headroom, acquire_loop) refl)

  nothing_left :
      (i : ℕ) (headroom : Counts)
      → ltb 0 (count_of queue (probed i headroom)) ≡ false
      → limit ≤ count_status queue queued (dbs i)
  nothing_left i headroom e = ground (
    arith,
    count_of-set_count queue queue (renewed limit (count_status queue queued (dbs i))) headroom,
  )

  still_waiting :
      (n fuel i wait_ms : ℕ) (headroom : Counts)
      → max_wait_ms ≤ clock (i + n) - started
      → leb max_wait_ms (clock i - started) ≡ false
      → ((m : ℕ) (w : ℕ) (g : Counts) → n ≡ suc m → IsDecision (loop fuel (suc i) w g).1)
      → IsDecision
          (loop fuel (suc i) (min (wait_ms * 2) max_probe_interval_ms) (probed i headroom)).1
  still_waiting zero fuel i wait_ms headroom h q k =
      let now : max_wait_ms ≤ clock i - started =
        subst (λ j. max_wait_ms ≤ clock j - started) (omega arith) h in
      absurd (ground (arith, now))
  still_waiting (suc n) fuel i wait_ms headroom h q k = k n _ _ refl

  waits_on :
      (n fuel i wait_ms : ℕ) (headroom : Counts)
      → max_wait_ms ≤ clock (i + n) - started
      → n + 1 < suc fuel
      → ((m : ℕ) (w : ℕ) (g : Counts) → n ≡ suc m → IsDecision (loop fuel (suc i) w g).1)
      → IsDecision (after fuel i wait_ms (probed i headroom)).1
  waits_on n zero i wait_ms headroom h f k = absurd (omega arith)
  waits_on n (suc fuel) i wait_ms headroom h f k =
      elim (Bool-cases (ltb 0 (count_of queue (probed i headroom)))) [
        | inl e ↦ rw e (loop_takes fuel (suc i) wait_ms (probed i headroom) e)
        | inr e ↦ elim (Bool-cases (leb max_wait_ms (clock i - started))) [
          | inl q ↦ rw (e, q) (i, refl, leb→le _ _ q, nothing_left i headroom e)
          | inr q ↦ rw (e, q) (still_waiting n (suc fuel) i wait_ms headroom h q k)
        ]
      ]

  loop_decides :
      (n fuel i wait_ms : ℕ) (headroom : Counts)
      → max_wait_ms ≤ clock (i + n) - started
      → n + 1 < fuel
      → IsDecision (loop fuel i wait_ms headroom).1
  loop_decides n zero i wait_ms headroom h f = absurd (omega arith)
  loop_decides n (suc fuel) i wait_ms headroom h f =
      elim (Bool-cases (ltb 0 (count_of queue headroom))) [
        | inl e ↦ loop_takes fuel i wait_ms headroom e
        | inr e ↦ rw (loop_probes fuel i wait_ms headroom e) (
            waits_on n fuel i wait_ms headroom h f (λ m w g q.
              loop_decides m fuel (suc i) w g
                (subst (λ j. max_wait_ms ≤ clock j - started) (omega arith) h) (omega arith)))
      ]

-- On a queue with a limit, where the clock has used up the whole wait at probe `n`, `acquire` ends
-- within `n + 2` rounds: it lets the submit through, or raises `QueueFull` after at least the whole
-- wait and only if the last probe found as many tasks queued as the limit allows.
pub acquire_decides :
    (limits : QueueDepthLimit) (queue : Text) (limit max_wait_ms : ℕ) (dbs : ℕ → Db) (clock : ℕ → ℕ)
    (started n fuel : ℕ) (headroom : Counts)
    → limit_for limits queue ≡ some (pos limit)
    → max_wait_ms ≤ clock n - started
    → n + 1 < fuel
    → IsDecision queue limit max_wait_ms dbs clock started
        (acquire limits max_wait_ms queue dbs clock started fuel headroom).1
unfolding acquire
acquire_decides limits queue limit max_wait_ms dbs clock started n fuel headroom e h f =
    rw (e, acquire)
      (loop_decides queue limit max_wait_ms dbs clock started n fuel 0 initial_probe_interval_ms
        headroom (subst (λ j. max_wait_ms ≤ clock j - started) (omega arith) h) f)
