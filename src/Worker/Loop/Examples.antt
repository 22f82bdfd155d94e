-- ===== src/Worker/Loop/Examples.antt =====
-- A worker with one resource: two registrations, a poll, a claim, and a call that settles.
use cairnq.Prelude.{◌≡◌, refl, ◌≤◌, true, none, some, List, [], ◌∷◌, Text, length}
use cairnq.Db
use cairnq.Db.{Db, claimable, select_due}
use cairnq.Due.{sort_due, before}
use cairnq.Prelude.Sort.{insert_by, sort_by}
use cairnq.Scenario.{waiting, shop, shop-IsValid}
use cairnq.Store.Session.{ClaimEnv, draw, draw_filter, has_claimable_work, draw_filter_general}
use cairnq.Rows.{lease_expired, claim_row}
use cairnq.Worker.Registry.{rebuild}
use cairnq.Worker.Deliveries.{deliveries}
use cairnq.Worker.Planner.{Counts, count_of, headroom}
use cairnq.Worker.Loop.{
  new_run, Action, polls, session_opened, draw_asked, draw_done, claim_error, dispatches, settles,
  registration, stops, elsewhere, act, acts,
}
use cairnq.Worker.Loop.Charges.{running_on}
use cairnq.Worker.Loop.Budgets.{AreAllowed, acts_within}

abbrev env : ClaimEnv
env = record { now = 60; queues = 10 ∷ []; worker = 8; lease_ms = 1000; lease_expired_error = 0 }

abbrev capacities : Counts
capacities = (30, 1) ∷ []

abbrev life : List Action
life =
    registration (30 ∷ []) 20
      (record { fn = 0; wants_payload = true; is_async = true; batch = some 2; resource = some 30 })
    ∷ registration (30 ∷ []) 21
        (record { fn = 1; wants_payload = true; is_async = true; batch = none; resource = none })
    ∷ polls
    ∷ claim_error
    ∷ polls
    ∷ session_opened env
    ∷ draw_asked
    ∷ draw_done env
    ∷ draw_asked
    ∷ draw_done env
    ∷ draw_asked
    ∷ dispatches
    ∷ elsewhere shop
    ∷ settles 0
    ∷ polls
    ∷ stops
    ∷ []

life-AreAllowed : AreAllowed 4 life (new_run capacities, shop)
unfolding act
life-AreAllowed = (
  tt,
  (
    tt,
    (
      tt,
      (tt, (tt, (tt, (tt, (tt, (tt, (tt, (tt, (tt, (shop-IsValid, (tt, (tt, (tt, tt))))))))))))),
    ),
  ),
)

acts_within_example :
    (length (acts 4 life (new_run capacities, shop)).0.running ≤ 4)
    × ((r : Text)
        → running_on r (acts 4 life (new_run capacities, shop)).0.running ≤ count_of r capacities)
acts_within_example = acts_within 4 capacities life shop life-AreAllowed shop-IsValid

-- Two tasks of one name are queued.
abbrev two_queued : Db
two_queued = record shop { tasks = record waiting { id = 4 } ∷ shop.tasks }

-- The name 20, registered again with a smaller batch while a draw of two is awaited.
abbrev overrun : List Action
overrun =
    registration [] 20
      (record { fn = 0; wants_payload = true; is_async = true; batch = some 2; resource = none })
    ∷ polls
    ∷ session_opened env
    ∷ draw_asked
    ∷ registration [] 20
        (record { fn = 0; wants_payload = true; is_async = true; batch = none; resource = none })
    ∷ draw_done env
    ∷ draw_asked
    ∷ dispatches
    ∷ []

-- Two calls run at a concurrency of one.
overrun_test : length (acts 1 overrun (new_run [], two_queued)).0.running ≡ 2
unfolding acts draw Db.claim claimable select_due sort_due draw_filter insert_by sort_by rebuild
    has_claimable_work Db.claimable_probe draw_filter_general headroom Db.recover_leases
    lease_expired before deliveries claim_row
overrun_test = refl
