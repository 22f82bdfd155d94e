-- ===== src/Retention/Examples.antt =====
-- A sweep of the small database, one row at a time.
use cairnq.Prelude.{ℕ, false, ◌≡◌, refl, some, [], ◌∷◌, arith}
use cairnq.Prelude.Int.{pos}
use cairnq.Models.{succeeded, failed}
use cairnq.Errors.{ok}
use cairnq.Db.{Db}
use cairnq.Scenario.{shop, shop-IsValid}
use cairnq.Store.Reads.{validate_purge_input}
use cairnq.Retention.{Retention, by_status, rules, validate_rules, post_init, sweep}
use cairnq.Retention.Sweep.{IsSwept, sweep_drains}

abbrev tiers : Retention
tiers = record {
  older_than_ms = by_status ((succeeded, pos 10) ∷ (failed, pos 1000) ∷ []);
  interval_ms = pos 3600000;
  limit = pos 1;
}

accepted : post_init tiers ≡ ok tt
unfolding post_init validate_rules rules validate_purge_input
accepted = refl

sweep_drains_example :
    (n : ℕ) × (db' : Db) × (sweep 90 tiers (λ i. false) 4 shop ≡ some (ok n, db'))
    × IsSwept 90 (rules tiers) shop db' n
sweep_drains_example =
    sweep_drains 90 1 4 tiers (λ i. false) shop (λ i. refl) refl accepted shop-IsValid (omega arith)
