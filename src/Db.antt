-- ===== src/Db.antt =====
-- The database: the rows of cairnq_tasks and of cairnq_task_keys
-- (cairnq-protocol/migrations/sqlite/0001_init.sql), and the protocol's statements as functions of
-- it. A statement returns the rows of its RETURNING clause, in table order, and the new database.
use cairnq.Prelude.{
  ℕ, Bool, Option, none, some, List, [], ◌∷◌, ◌++◌, map, Text, Json, ◌==◌, leb, if◌then◌else◌, elem,
  take, filter, find?, any, drop, length, not, ◌&&◌, ◌||◌, ◌-◌, filter_eq, eq_some, true,
}
use cairnq.Models.{Status, queued, Progress, Task, status_eq}
use cairnq.Table.{ids, update_where}
use cairnq.Rows.{
  NewTask, new_row, cancelable, cancel_row, retryable_row, retry_row, owned, heartbeat_row,
  owned_among, progress_row, succeed_row, complete_row, fail_row, lease_expired, recover_row,
  claim_row, purgeable,
}
use cairnq.Prelude.Sort.{sort_by}
use cairnq.Due.{sort_due, completed_before, newer}
use cairnq.Errors.{Result, ok, raise, integrity_error}

-- The times of a row of cairnq_task_keys are left out: no statement reads them.
pub record Db : Type 0 where
  pub tasks : List Task
  pub keys : List (Text × Text)

abbrev pub empty_db : Db
empty_db = record { tasks = []; keys = [] }

-- UPDATE … SET f WHERE p RETURNING *
abbrev pub update : (Task → Bool) → (Task → Task) → Db → List Task × Db
update p f db = (map f (filter p db.tasks), record db { tasks = update_where p f db.tasks })

abbrev pub lookup : Text → List (Text × Text) → Option Text
lookup key [] = none
lookup key ((k, id) ∷ rest) = if k == key then some id else lookup key rest

-- insert_task.sql: the primary key refuses an id that is there.
unfoldable pub insert_task : ℕ → NewTask → Db → Result (Task × Db)
insert_task now n db =
    if elem n.id (ids db.tasks)
    then raise integrity_error
    else ok (new_row now n, record db { tasks = db.tasks ++ new_row now n ∷ [] })

-- get.sql
unfoldable pub get : Text → Db → Option Task
get id db = find? (λ t. t.id == id) db.tasks

-- get_key.sql
unfoldable pub get_key : Text → Db → Option Text
get_key key db = lookup key db.keys

-- get_by_key.sql: the join of the two tables.
unfoldable pub get_by_key : Text → Db → Option Task
get_by_key key db = elim (get_key key db) [ none ↦ none | some id ↦ get id db ]

abbrev pub put_key : Text → Text → List (Text × Text) → List (Text × Text)
put_key key id [] = (key, id) ∷ []
put_key key id ((k, j) ∷ rest) = if k == key then (k, id) ∷ rest else (k, j) ∷ put_key key id rest

-- upsert_key.sql: the foreign key refuses an id that no task has.
unfoldable pub upsert_key : Text → Text → Db → Result Db
upsert_key key id db =
    if elem id (ids db.tasks)
    then ok (record db { keys = put_key key id db.keys })
    else raise integrity_error

unfoldable pub cancel : ℕ → Text → Db → List Task × Db
cancel now id db = update (cancelable id) (cancel_row now) db

unfoldable pub retry : ℕ → Text → Bool → Db → List Task × Db
retry now id reset_attempt db = update (retryable_row id) (retry_row now reset_attempt) db

unfoldable pub heartbeat : ℕ → Text → Text → ℕ → Db → List Task × Db
heartbeat now worker id lease_ms db = update (owned now worker id) (heartbeat_row now lease_ms) db

unfoldable pub heartbeat_batch : ℕ → Text → List Text → ℕ → Db → List Task × Db
heartbeat_batch now worker task_ids lease_ms db =
    update (owned_among now worker task_ids) (heartbeat_row now lease_ms) db

unfoldable pub progress : ℕ → Text → Text → Option Progress → Option Text → Db → List Task × Db
progress now worker id value message db =
    update (owned now worker id) (progress_row now value message) db

unfoldable pub succeed : ℕ → Text → Text → Option Json → Option Text → Db → List Task × Db
succeed now worker id result message db =
    update (owned now worker id) (succeed_row now result message) db

unfoldable pub complete : ℕ → Text → Text → Option Json → Db → List Task × Db
complete now worker id result db = update (owned now worker id) (complete_row now result) db

unfoldable pub fail : ℕ → Text → Text → Json → Bool → ℕ → Db → List Task × Db
fail now worker id error retryable delay_ms db =
    update (owned now worker id) (fail_row now error retryable delay_ms) db

unfoldable pub recover_leases : ℕ → Json → Db → List Task × Db
recover_leases now lease_expired_error db =
    update (lease_expired now) (recover_row now lease_expired_error) db

-- The WHERE clause of the subquery of claim.sql. Its variants differ in the filter of queues and
-- names, `p`, alone.
unfoldable pub claimable : ℕ → (Task → Bool) → Task → Bool
claimable now p t = status_eq t.status queued && (p t && leb t.run_at_ms now)

-- The subquery: the first `limit` claimable rows in claim order.
unfoldable pub select_due : ℕ → (Task → Bool) → ℕ → Db → List Task
select_due now p limit db = take limit (sort_due (filter (claimable now p) db.tasks))

unfoldable pub claim : ℕ → Text → ℕ → (Task → Bool) → ℕ → Db → List Task × Db
claim now worker lease_ms p limit db =
    let chosen = ids (select_due now p limit db) in
    update (λ t. elem t.id chosen) (claim_row now worker lease_ms) db

-- purge.sql, with the keys that ON DELETE CASCADE takes along.
unfoldable pub select_purged : ℕ → Option Text → Option Status → Option Text → ℕ → Db → List Task
select_purged before_ms queue status name limit db =
    take limit (sort_by completed_before (filter (purgeable before_ms queue status name) db.tasks))

unfoldable pub delete_tasks : List Text → Db → Db
delete_tasks gone db = record {
  tasks = filter (λ t. not (elem t.id gone)) db.tasks;
  keys = filter (λ k. not (elem k.1 gone)) db.keys;
}

unfoldable pub purge : ℕ → Option Text → Option Status → Option Text → ℕ → Db → List Text × Db
unfolding delete_tasks
purge before_ms queue status name limit db =
    let gone = ids (select_purged before_ms queue status name limit db) in
    (gone, delete_tasks gone db)

-- queue_depth.sql: the count stops at `max_depth` rows.
unfoldable pub queue_depth : Text → ℕ → Db → ℕ
queue_depth queue max_depth db =
    max_depth
    - length (take max_depth (filter (λ t. t.queue == queue && status_eq t.status queued) db.tasks))

-- claimable_probe.sql
unfoldable pub claimable_probe : ℕ → (Task → Bool) → Db → Bool
claimable_probe now p db = any (λ t. claimable now p t || lease_expired now t) db.tasks

-- stats.sql, as the count of a group.
unfoldable pub count_status : Text → Status → Db → ℕ
count_status queue status db =
    length (filter (λ t. t.queue == queue && status_eq t.status status) db.tasks)

-- The filters of list.sql.
pub record ListFilter : Type 0 where
  pub status : Option Status
  pub queue : Option Text
  pub name : Option Text
  pub root_id : Option Text
  pub correlation_id : Option Text

unfoldable pub listed : ListFilter → Task → Bool
listed f t =
    elim f.status [ none ↦ true | some s ↦ status_eq t.status s ]
    && (filter_eq f.queue t.queue
        && (filter_eq f.name t.name
            && (elim f.root_id [ none ↦ true | some r ↦ eq_some t.root_id r ]
                && elim f.correlation_id [ none ↦ true | some c ↦ eq_some t.correlation_id c ])))

unfoldable pub list_tasks : ListFilter → ℕ → ℕ → Db → List Task
list_tasks f limit offset db = take limit (drop offset (sort_by newer (filter (listed f) db.tasks)))
