-- ===== src/Statement/Examples.antt =====
-- Runs of the statements on the small database.
use cairnq.Prelude.{true, ◌≡◌, refl, none, some, arith}
use cairnq.Scenario.{held, over, shop, shop-IsValid}
use cairnq.Db
use cairnq.Statement.Attempts.{IsBudgeted, StaysBudgeted, run-IsBudgeted}
use cairnq.Statement.{recover_leases, claim, cancel, heartbeat, complete, run, here, next}
use cairnq.Statement.Valid.{IsValid, Reach-IsValid}
use cairnq.Statement.Edges.{Follows, run-Follows, IsUnchanged, run-IsUnchanged}
use cairnq.Statement.Exclusive.{IsHeld, KeepsAttempt, run-KeepsAttempt}

-- Cancel the held task, then settle it: two statements of a history.
Reach-IsValid_example : IsValid (run 60 (complete 7 2 none) (run 50 (cancel 2) shop))
Reach-IsValid_example =
    Reach-IsValid (next (next here 50 (cancel 2)) 60 (complete 7 2 none)) shop-IsValid

found_held : Db.get 2 shop ≡ some held
unfolding Db.get
found_held = refl

found_over : Db.get 3 shop ≡ some over
unfolding Db.get
found_over = refl

run-Follows_example : Follows held (Db.get 2 (run 60 (complete 7 2 none) shop))
run-Follows_example = run-Follows 60 2 shop held shop-IsValid found_held (complete 7 2 none)

run-IsUnchanged_example : IsUnchanged over (Db.get 3 (run 60 (heartbeat 7 3 1000) shop))
run-IsUnchanged_example =
    run-IsUnchanged 60 3 shop over shop-IsValid found_over refl (heartbeat 7 3 1000) refl

held-IsHeld : IsHeld 60 7 held
held-IsHeld = record {
  is_running = refl;
  holder = refl;
  until = 100;
  lease = refl;
  live = omega arith;
}

run-KeepsAttempt_example : KeepsAttempt held (Db.get 2 (run 60 (claim 8 1000 (λ t. true) 5) shop))
run-KeepsAttempt_example =
    run-KeepsAttempt 60 2 7 shop held shop-IsValid found_held held-IsHeld
      (claim 8 1000 (λ t. true) 5) refl

held-IsBudgeted : IsBudgeted held
held-IsBudgeted = record { within = omega arith; left = λ h. cc }

run-IsBudgeted_example : StaysBudgeted held (Db.get 2 (run 200 (recover_leases 0) shop))
run-IsBudgeted_example =
    run-IsBudgeted 200 2 shop held shop-IsValid found_held (omega arith) held-IsBudgeted
      (recover_leases 0) refl
