-- ===== src/Retention.antt =====
-- cairnq-py/cairnq/retention.py: the rules of a retention, their validation, and the sweep that
-- deletes what they name.
pub mod Sweep
mod Examples
use cairnq.Prelude.{
  ℕ, zero, suc, ◌+◌, Bool, true, false, Option, none, some, List, [], ◌∷◌, map, Text, leb, ltb,
  if◌then◌else◌, length,
}
use cairnq.Prelude.Int.{ℤ, pos, ltb_ℤ}
use cairnq.Models.{Status}
use cairnq.Errors.{Result, ok, raise, ◌>>=◌, ◌>>◌, raise_if, value_error, Error}
use cairnq.Db.{Db}
use cairnq.Store.Reads
use cairnq.Store.Reads.{validate_purge_input}

pub record RetentionRule : Type 0 where
  pub older_than_ms : ℤ
  pub queue : Option Text
  pub status : Option Status
  pub name : Option Text

-- The three forms of `older_than_ms`.
pub data Spec : Type 0 where
  all_rows : ℤ → Spec
  by_status : List (Status × ℤ) → Spec
  by_rule : List RetentionRule → Spec

pub record Retention : Type 0 where
  pub older_than_ms : Spec
  pub interval_ms : ℤ
  pub limit : ℤ

unfoldable pub rules : Retention → List RetentionRule
rules r = elim r.older_than_ms [
  | all_rows ms ↦ record { older_than_ms = ms; queue = none; status = none; name = none } ∷ []
  | by_status tiers ↦
      map
        (λ tier. record { older_than_ms = tier.1; queue = none; status = some tier.0; name = none })
        tiers
  | by_rule listed ↦ listed
]

abbrev pub is_empty : List RetentionRule → Bool
is_empty [] = true
is_empty (rule ∷ rest) = false

unfoldable pub validate_rules : ℤ → List RetentionRule → Result (Unit {0})
validate_rules limit [] = ok tt
validate_rules limit (rule ∷ rest) =
    validate_purge_input rule.older_than_ms rule.status limit >> validate_rules limit rest

-- `__post_init__`
unfoldable pub post_init : Retention → Result (Unit {0})
unfolding rules validate_rules
post_init r = do
  raise_if (is_empty (rules r)) value_error
  raise_if (ltb_ℤ r.interval_ms (pos 1)) value_error
  validate_rules r.limit (rules r)

-- How one rule's batches ended: short of a full batch, by `stop`, or by an error of the store.
pub data Ending : Type 0 where
  drained stopped : Ending
  failed : Error → Ending

-- What the sweep of one rule comes to: the ending, the number of rows deleted, the number of the next
-- batch, and the database.
abbrev pub Swept : Type 0
Swept = Ending × ℕ × ℕ × Db

-- The rest of the loop's body after a batch; `stopping` is `self._stop.is_set()`.
unfoldable pub after_purge :
    (ℕ → Db → Option Swept) → ℤ → Bool → ℕ → ℕ → Result (List Text) × Db → Option Swept
after_purge again limit stopping i deleted (raise e, db) = some (failed e, deleted, suc i, db)
after_purge again limit stopping i deleted (ok ids, db) =
    if stopping
    then some (stopped, deleted + length ids, suc i, db)
    else if ltb_ℤ (pos (length ids)) limit
    then some (drained, deleted + length ids, suc i, db)
    else again (deleted + length ids) db

-- `while True` of `sweep` for one rule. `stop i` is whether the handle was closing after batch `i`; the
-- result is none where the fuel ran out.
unfoldable pub sweep_rule : ℕ → ℤ → RetentionRule → (ℕ → Bool) → ℕ → ℕ → ℕ → Db → Option Swept
unfolding after_purge
sweep_rule now limit rule stop zero i deleted db = none
sweep_rule now limit rule stop (suc fuel) i deleted db =
    after_purge (λ total db'. sweep_rule now limit rule stop fuel (suc i) total db') limit (stop i)
      i deleted (Reads.purge now rule.older_than_ms rule.queue rule.status rule.name limit db)

-- The loop over the rules: a stop and an error end the sweep.
unfoldable pub sweep_rules :
    ℕ → ℤ → (ℕ → Bool) → ℕ → List RetentionRule → ℕ → ℕ → Db → Option (Result ℕ × Db)
unfolding sweep_rule
sweep_rules now limit stop fuel [] i deleted db = some (ok deleted, db)
sweep_rules now limit stop fuel (rule ∷ rest) i deleted db =
    let next = sweep_rules now limit stop fuel rest in
    elim (sweep_rule now limit rule stop fuel i deleted db) [
      | none ↦ none
      | some (drained, total, j, db') ↦ next j total db'
      | some (stopped, total, j, db') ↦ some (ok total, db')
      | some (failed e, total, j, db') ↦ some (raise e, db')
    ]

unfoldable pub sweep : ℕ → Retention → (ℕ → Bool) → ℕ → Db → Option (Result ℕ × Db)
unfolding sweep_rules rules
sweep now r stop fuel db = sweep_rules now r.limit stop fuel (rules r) 0 0 db
