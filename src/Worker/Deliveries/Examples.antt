-- ===== src/Worker/Deliveries/Examples.antt =====
-- A claim of three tasks split into calls.
use cairnq.Prelude.{true, none, some, [], ◌∷◌, All}
use mathlib.Core.List.{Perm}
use cairnq.Worker.Registry.{Handlers}
use cairnq.Worker.Deliveries.{deliveries}
use cairnq.Worker.Deliveries.Calls.{tasks_of, IsCall, deliveries_lem}
use cairnq.Scenario.{waiting, held, over}

-- The name 20 is delivered two tasks at a time.
abbrev pairs : Handlers
pairs =
    (20, record { fn = 0; wants_payload = true; is_async = true; batch = some 2; resource = none })
    ∷ []

deliveries_lem_example :
    Perm (tasks_of (deliveries pairs (waiting ∷ held ∷ over ∷ []))) (waiting ∷ held ∷ over ∷ [])
    × All (IsCall pairs) (deliveries pairs (waiting ∷ held ∷ over ∷ []))
deliveries_lem_example = deliveries_lem pairs (waiting ∷ held ∷ over ∷ [])
