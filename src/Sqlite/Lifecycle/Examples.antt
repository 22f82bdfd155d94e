-- ===== src/Sqlite/Lifecycle/Examples.antt =====
-- Connects and closes of two callers.
use cairnq.Prelude.{false, ◌≡◌, refl, some, List, [], ◌∷◌}
use cairnq.Sqlite.Lifecycle.{
  new_life, Action, connect_called, lock_taken, open_failed, open_ended, close_called, close_begun,
  close_ended, acts,
}
use cairnq.Sqlite.Lifecycle.Accounts.{overtaken}

-- One opening fails; the next is overtaken by a close; a third is published.
abbrev callers : List Action
callers =
    connect_called ∷ lock_taken ∷ open_failed ∷ connect_called ∷ lock_taken ∷ close_called
    ∷ close_begun ∷ open_ended ∷ close_ended ∷ connect_called ∷ lock_taken ∷ open_ended ∷ []

-- Two calls wait for the init lock when close() runs; the second opens in the new generation.
abbrev late : List Action
late =
    connect_called ∷ connect_called ∷ lock_taken ∷ close_called ∷ close_begun ∷ close_ended
    ∷ open_ended ∷ lock_taken ∷ open_ended ∷ []

late_test : (acts late (new_life false)).conn ≡ some 1
unfolding acts
late_test = refl

-- The actions up to the end of the opening that the close overtakes.
abbrev overrun : List Action
overrun =
    connect_called ∷ lock_taken ∷ open_failed ∷ connect_called ∷ lock_taken ∷ close_called
    ∷ close_begun ∷ []

overrun_test :
    overtaken (acts overrun (new_life false)).opening (acts overrun (new_life false)).generation ≡ 1
unfolding acts
overrun_test = refl

callers_test : (acts callers (new_life false)).conn ≡ some 2
unfolding acts
callers_test = refl
