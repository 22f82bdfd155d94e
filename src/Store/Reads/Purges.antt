-- ===== src/Store/Reads/Purges.antt =====
-- What one purge deletes.
use cairnq.Prelude.{
  ℕ, ◌+◌, Bool, true, ◌≡◌, ◌∙◌, Option, List, [], ◌∷◌, Text, arith, All, filter, elem, not, length,
  length-take, min, ap,
}
use cairnq.Prelude.Sort.{length-sort_by}
use cairnq.Models.{Status, Task}
use cairnq.Table.{chosen_passes, subquery}
use cairnq.Table.Counting.{length-selected, length-ids}
use cairnq.Due.{completed_before}
use cairnq.Rows.{purgeable}
use cairnq.Db
use cairnq.Db.{Db, select_purged, delete_tasks}
use cairnq.Statement.Valid.{IsValid}

pub length-filter-not :
    (p : Task → Bool) (ts : List Task)
    → length (filter (λ t. not (p t)) ts) + length (filter p ts) ≡ length ts
length-filter-not p [] = omega arith
length-filter-not p (t ∷ ts) = ground (arith, length-filter-not p ts)

module _ (before_ms : ℕ) (queue : Option Text) (status : Option Status) (name : Option Text)
    (limit : ℕ) (db : Db) where
  abbrev pub over : Task → Bool
  over = purgeable before_ms queue status name

  abbrev pub gone : List Text
  gone = (Db.purge before_ms queue status name limit db).0

  -- In a valid database a purge returns the ids of as many tasks past the cutoff as its limit allows;
  -- a task whose id it returns is one that its filters name; and the table is shorter by exactly as
  -- many rows as it returns ids.
  pub purge_lem :
      IsValid db
      → (length gone ≡ min limit (length (filter over db.tasks)))
        × All (λ t. elem t.id gone ≡ true → over t ≡ true) db.tasks
        × (length (Db.purge before_ms queue status name limit db).1.tasks + length gone
            ≡ length db.tasks)
  unfolding Db.purge select_purged
  purge_lem v =
      let chosen = subquery completed_before over limit db.tasks in
      let count = length-selected completed_before over limit db.tasks v.unique in
      let size : length gone ≡ min limit (length (filter over db.tasks)) =
        length-ids chosen
        ∙ (length-take limit _ ∙ ap (min limit) (length-sort_by completed_before _)) in
      (
        size,
        chosen_passes completed_before over limit db.tasks v.unique,
        omega (arith, size, count, length-filter-not (λ t. elem t.id gone) db.tasks),
      )
