-- ===== src/Worker/Planner/Examples.antt =====
-- A poll of the small database by a worker with one resource.
use cairnq.Prelude.{◌+◌, ◌≤◌, true, refl, none, some, [], ◌∷◌, Text}
use cairnq.Scenario.{shop, shop-IsValid}
use cairnq.Store.Session.{ClaimEnv}
use cairnq.Worker.Registry.{Handlers, rebuild}
use cairnq.Worker.Deliveries.{deliveries}
use cairnq.Worker.Planner.{Planner, plan, count_of}
use cairnq.Worker.Planner.Budget.{total_calls, calls_on}
use cairnq.Worker.Planner.Sources.{valid_draw, poll_within}

abbrev env : ClaimEnv
env = record { now = 60; queues = 10 ∷ []; worker = 8; lease_ms = 1000; lease_expired_error = 0 }

-- The name 20 is delivered two at a time and uses the resource 30; the name 21 limits nothing.
abbrev handlers : Handlers
handlers =
    (
      20,
      record { fn = 0; wants_payload = true; is_async = true; batch = some 2; resource = some 30 },
    )
    ∷ (21, record { fn = 1; wants_payload = true; is_async = true; batch = none; resource = none })
    ∷ []

abbrev planner : Planner
planner = record {
  capacities = (30, 2) ∷ [];
  sources = rebuild handlers;
  in_flight = (30, 1) ∷ [];
  cursor = 1;
}

poll_within_example :
    (total_calls (plan planner (deliveries handlers) (valid_draw env) 4 (shop, shop-IsValid)).0.0
      ≤ 4)
    × ((r : Text)
        → count_of r planner.in_flight ≤ count_of r planner.capacities
        → count_of r planner.in_flight
            + calls_on r
                (plan planner (deliveries handlers) (valid_draw env) 4 (shop, shop-IsValid)).0.0
          ≤ count_of r planner.capacities)
poll_within_example = poll_within env handlers planner 4 shop shop-IsValid (refl, (refl, tt)) refl
