-- ===== src/Store/Reads.antt =====
-- `purge`, `list`, `queue_depth` and the lookups of cairnq-py/cairnq/store/base.py.
pub mod Purges
pub mod Depth
mod Examples
use cairnq.Prelude.{ℕ, Bool, true, false, ◌||◌, not, Option, none, some, List, Text, ◌-◌}
use cairnq.Prelude.Int.{ℤ, pos, pos_part, neg_part, ltb_ℤ}
use cairnq.Models.{Status, Task, TaskRef, to_ref, is_terminal_status}
use cairnq.Errors.{Result, ok, raise, ◌>>=◌, ◌>>◌, raise_if, value_error}
use cairnq.Db
use cairnq.Db.{Db, ListFilter}

-- `status is not None and not is_terminal_status(status)`
abbrev pub bad_status : Option Status → Bool
bad_status none = false
bad_status (some s) = not (is_terminal_status s)

unfoldable pub validate_purge_input : ℤ → Option Status → ℤ → Result (Unit {0})
validate_purge_input older_than_ms status limit = do
  raise_if (ltb_ℤ older_than_ms (pos 0)) value_error
  raise_if (ltb_ℤ limit (pos 1)) value_error
  raise_if (bad_status status) value_error
  ok tt

unfoldable pub purge :
    ℕ → ℤ → Option Text → Option Status → Option Text → ℤ → Db → Result (List Text) × Db
purge now older_than_ms queue status name limit db =
    elim (validate_purge_input older_than_ms status limit) [
      | raise e ↦ (raise e, db)
      | ok valid ↦
          let r = Db.purge (now - pos_part older_than_ms) queue status name (pos_part limit) db in
          (ok r.0, r.1)
    ]

unfoldable pub list_tasks : ListFilter → ℤ → ℤ → Db → Result (List Task)
list_tasks f limit offset db = do
  raise_if (ltb_ℤ limit (pos 0) || ltb_ℤ offset (pos 0)) value_error
  ok (Db.list_tasks f (pos_part limit) (pos_part offset) db)

unfoldable pub queue_depth : Text → ℤ → Db → Result ℕ
queue_depth queue max_depth db = do
  raise_if (ltb_ℤ max_depth (pos 0)) value_error
  ok (Db.queue_depth queue (pos_part max_depth) db)

unfoldable pub get_status : Text → Db → Option TaskRef
get_status id db = elim (Db.get id db) [ none ↦ none | some t ↦ some (to_ref t) ]

unfoldable pub get_status_by_key : Text → Db → Option TaskRef
get_status_by_key key db = elim (Db.get_by_key key db) [ none ↦ none | some t ↦ some (to_ref t) ]
