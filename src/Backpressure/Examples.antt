-- ===== src/Backpressure/Examples.antt =====
-- Runs of the gate.
use cairnq.Prelude.{ℕ, ◌+◌, ◌*◌, ◌≤◌, ◌≡◌, refl, some, [], ◌∷◌, arith}
use cairnq.Prelude.Int.{pos}
use cairnq.Scenario.{shop, waiting}
use cairnq.Models.{queued}
use cairnq.Errors.{ok}
use cairnq.Db
use cairnq.Db.{Db, count_status}
use cairnq.Store.Reads
use cairnq.Worker.Planner.{Counts}
use cairnq.Backpressure.{every, limit_for, acquire, acquire_loop, refresh, max_grant}
use cairnq.Backpressure.Acquire.{IsDecision, acquire_decides}
use cairnq.Backpressure.Market.{producer, Steps, stay, then_step, probe, take, insert}
use cairnq.Backpressure.Overshoot.{idle, overshoot}

-- One task is queued on queue 10, so that a limit of 1 holds the producer back until it gives up.
gated : limit_for (every (pos 1)) 10 ≡ some (pos 1)
unfolding limit_for
gated = refl

acquire_decides_example :
    IsDecision 10 1 500
      (λ i. shop)
      (λ i. 300 * i)
      0
      (acquire (every (pos 1)) 500 10 (λ i. shop) (λ i. 300 * i) 0 4 []).1
acquire_decides_example =
    acquire_decides (every (pos 1)) 10 1 500 (λ i. shop) (λ i. 300 * i) 0 2 4 [] gated (omega arith)
      (omega arith)

-- The small database with a second task queued on queue 10, and with a third.
abbrev fuller : Db
fuller = record shop { tasks = record waiting { id = 4 } ∷ shop.tasks }

abbrev overfull : Db
overfull = record fuller { tasks = record waiting { id = 5 } ∷ fuller.tasks }

depth_tests :
    (count_status 10 queued shop ≡ 1)
    × (count_status 10 queued fuller ≡ 2)
    × (count_status 10 queued overfull ≡ 3)
unfolding count_status
depth_tests = (refl, refl, refl)

-- The grant of a producer on queue 10.
abbrev units : ℕ → Counts
units n = (10, n) ∷ []

room_test : refresh 10 (pos 2) shop [] ≡ ok (units 1)
unfolding refresh Reads.queue_depth Db.queue_depth
room_test = refl

let_through :
    (acquire_loop 10 (pos 2) 500 (λ i. shop) (λ i. 0) 0 1 0 250 (units 1)).1 ≡ some (ok tt, units 0)
unfolding acquire_loop
let_through = refl

-- Two producers at a limit of two tasks: both probe before either inserts.
two_probes : Steps 10 2 (shop, idle 2) (overfull, producer (units 0) 0 ∷ producer (units 0) 0 ∷ [])
two_probes =
    then_step
      (then_step
        (then_step
          (then_step
            (then_step
              (then_step stay (probe shop [] (units 1) [] (producer [] 0 ∷ []) refl room_test))
              (probe shop [] (units 1) (producer (units 1) 0 ∷ []) [] refl room_test))
            (take shop (units 1) (units 0) [] (producer (units 1) 0 ∷ []) 500 (λ i. shop) (λ i. 0) 0
              0 250 let_through))
          (insert shop fuller (units 0) [] (producer (units 1) 0 ∷ [])
            (omega (arith, depth_tests))))
        (take fuller (units 1) (units 0) (producer (units 0) 0 ∷ []) [] 500 (λ i. shop) (λ i. 0) 0 0
          250 let_through))
      (insert fuller overfull (units 0) (producer (units 0) 0 ∷ []) [] (omega (arith, depth_tests)))

overshoot_example : count_status 10 queued overfull ≤ 2 + 1 * max_grant
overshoot_example =
    overshoot 10 2 1 shop overfull (producer (units 0) 0 ∷ producer (units 0) 0 ∷ [])
      (omega (arith, depth_tests.0)) two_probes
