-- ===== src/Due.antt =====
-- The ORDER BY clauses of cairnq-protocol/sql/sqlite: claim.sql, purge.sql and list.sql.
pub mod Order
use cairnq.Prelude.{ℕ, Bool, true, false, Option, none, some, List, ltb, leb, if◌then◌else◌}
use cairnq.Prelude.Int.{ltb_ℤ}
use cairnq.Prelude.Sort.{sort_by}
use cairnq.Models.{Task}

-- `order by priority desc, run_at_ms asc, id asc`: whether a row comes before another, or is level
-- with it.
unfoldable pub before : Task → Task → Bool
before a b =
    if ltb_ℤ b.priority a.priority
    then true
    else if ltb_ℤ a.priority b.priority
    then false
    else if ltb a.run_at_ms b.run_at_ms
    then true
    else if ltb b.run_at_ms a.run_at_ms
    then false
    else leb a.id b.id

unfoldable pub sort_due : List Task → List Task
sort_due ts = sort_by before ts

-- `order by completed_at_ms asc`; a null comes first.
abbrev completed_or_zero : Option ℕ → ℕ
completed_or_zero none = 0
completed_or_zero (some n) = n

unfoldable pub completed_before : Task → Task → Bool
completed_before a b =
    leb (completed_or_zero a.completed_at_ms) (completed_or_zero b.completed_at_ms)

-- `order by created_at_ms desc, id desc`
unfoldable pub newer : Task → Task → Bool
newer a b =
    if ltb b.created_at_ms a.created_at_ms
    then true
    else if ltb a.created_at_ms b.created_at_ms
    then false
    else leb b.id a.id
