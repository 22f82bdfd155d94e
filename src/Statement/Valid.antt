-- ===== src/Statement/Valid.antt =====
-- What holds of the database, whatever statements have run.
use cairnq.Prelude.{
  ℕ, Bool, true, false, ◌≡◌, refl, List, [], ◌∷◌, map, Text, arith, All, All-append, All-filter,
  All-filter_with, All-mono, not, elem, Bool-cases, inl, inr, ◌==◌, &&-left, filter,
}
use cairnq.Models.{queued, Task, status_eq}
use cairnq.Table.{
  ids, IsDistinct, ids-update_where, All-update_where, All-of, chosen_passes, elem-append_left,
  IsDistinct-append, IsDistinct-filter, elem-delete,
}
use cairnq.Due.{before, sort_due}
use cairnq.Rows.{
  NewTask, new_row, cancel_row, retry_row, heartbeat_row, progress_row, succeed_row, complete_row,
  fail_row, recover_row, claim_row,
}
use cairnq.Db
use cairnq.Db.{Db, update, put_key, claimable, delete_tasks}
use cairnq.Statement.{
  Statement, insert_task, upsert_key, cancel, retry, recover_leases, claim, heartbeat,
  heartbeat_batch, progress, succeed, complete, fail, purge, run, Reach, here, next,
}
use cairnq.Statement.Rows.{
  IsValidRow, new_row-IsValidRow, cancel_row-IsValidRow, retry_row-IsValidRow,
  recover_row-IsValidRow, claim_row-IsValidRow, heartbeat_among-IsValidRow,
  heartbeat_row-IsValidRow, progress_row-IsValidRow, succeed_row-IsValidRow,
  complete_row-IsValidRow, fail_row-IsValidRow,
}

abbrev names_of : List (Text × Text) → List Text
names_of ks = map (λ k. k.0) ks

-- Every row is valid, ids and keys are unique, and every key points at a task that is there.
pub record IsValid (db : Db) : Type 0 where
  pub rows : All IsValidRow db.tasks
  pub unique : IsDistinct (ids db.tasks)
  pub single : IsDistinct (names_of db.keys)
  pub pointed : All (λ k. elem k.1 (ids db.tasks) ≡ true) db.keys

pub update-IsValid :
    (p : Task → Bool) (f : Task → Task) (db : Db)
    → ((t : Task) → (f t).id ≡ t.id)
    → All (λ t. IsValidRow t → p t ≡ true → IsValidRow (f t)) db.tasks
    → IsValid db
    → IsValid (update p f db).1
update-IsValid p f db keep step v = record {
  rows = All-update_where IsValidRow p f db.tasks v.rows step;
  unique = rw (ids-update_where p f keep db.tasks) v.unique;
  single = v.single;
  pointed = rw (ids-update_where p f keep db.tasks) v.pointed;
}

insert_task-IsValid :
    (now : ℕ) (n : NewTask) (db : Db) → IsValid db → IsValid (run now (insert_task n) db)
unfolding run Db.insert_task
insert_task-IsValid now n db v = elim (Bool-cases (elem n.id (ids db.tasks))) [
  | inl e ↦ rw (e, run) v
  | inr e ↦
      rw (e, run)
        (record {
          rows = All-append IsValidRow db.tasks _ v.rows (new_row-IsValidRow now n, tt);
          unique = IsDistinct-append db.tasks (new_row now n) v.unique (unfold new_row in e);
          single = v.single;
          pointed =
              All-mono (λ k h. elem-append_left k.1 db.tasks (new_row now n ∷ []) h) db.keys
                v.pointed;
        })
]

module _ (key id : Text) where
  put_key_absent :
      (a : Text) (ks : List (Text × Text))
      → elem a (names_of ks) ≡ false
      → (key == a) ≡ false
      → elem a (names_of (put_key key id ks)) ≡ false
  put_key_absent a [] h e = ground arith
  put_key_absent a ((k, j) ∷ ks) h e = ground (arith, put_key_absent a ks)

  put_key_single :
      (ks : List (Text × Text))
      → IsDistinct (names_of ks)
      → IsDistinct (names_of (put_key key id ks))
  put_key_single [] d = (refl, tt)
  put_key_single ((k, j) ∷ ks) d = elim (Bool-cases (k == key)) [
    | inl e ↦ rw e d
    | inr e ↦ rw e (put_key_absent k ks d.0 (ground arith), put_key_single ks d.1)
  ]

  put_key_pointed :
      (known : List Text) (ks : List (Text × Text))
      → elem id known ≡ true
      → All (λ k. elem k.1 known ≡ true) ks
      → All (λ k. elem k.1 known ≡ true) (put_key key id ks)
  put_key_pointed known [] h d = (h, tt)
  put_key_pointed known ((k, j) ∷ ks) h d = elim (Bool-cases (k == key)) [
    | inl e ↦ rw e (h, d.1)
    | inr e ↦ rw e (d.0, put_key_pointed known ks h d.1)
  ]

upsert_key-IsValid :
    (now : ℕ) (key id : Text) (db : Db) → IsValid db → IsValid (run now (upsert_key key id) db)
unfolding run Db.upsert_key
upsert_key-IsValid now key id db v = elim (Bool-cases (elem id (ids db.tasks))) [
  | inl e ↦
      rw (e, run)
        (record {
          rows = v.rows;
          unique = v.unique;
          single = put_key_single key id db.keys v.single;
          pointed = put_key_pointed key id (ids db.tasks) db.keys e v.pointed;
        })
  | inr e ↦ rw (e, run) v
]

claimable_queued :
    (now : ℕ) (p : Task → Bool) (t : Task)
    → claimable now p t ≡ true
    → status_eq t.status queued ≡ true
unfolding claimable
claimable_queued now p t h = &&-left _ _ h

claim-IsValid :
    (now : ℕ) (worker : Text) (lease_ms : ℕ) (p : Task → Bool) (limit : ℕ) (db : Db)
    → IsValid db
    → IsValid (run now (claim worker lease_ms p limit) db)
unfolding run Db.claim Db.select_due sort_due
claim-IsValid now worker lease_ms p limit db v =
    update-IsValid _ (claim_row now worker lease_ms) db (λ t. unfold claim_row in refl)
      (All-mono
        (λ t passes h e.
          claim_row-IsValidRow now t h worker lease_ms (claimable_queued now p t (passes e)))
        db.tasks (chosen_passes before (claimable now p) limit db.tasks v.unique))
      v

names_filter :
    (p : Text × Text → Bool) (a : Text) (ks : List (Text × Text))
    → elem a (names_of ks) ≡ false
    → elem a (names_of (filter p ks)) ≡ false
names_filter p a [] h = h
names_filter p a (k ∷ ks) h = ground (arith, names_filter p a ks)

single_filter :
    (p : Text × Text → Bool) (ks : List (Text × Text))
    → IsDistinct (names_of ks)
    → IsDistinct (names_of (filter p ks))
single_filter p [] d = tt
single_filter p (k ∷ ks) d = elim (Bool-cases (p k)) [
  | inl e ↦ rw e (names_filter p k.0 ks d.0, single_filter p ks d.1)
  | inr e ↦ rw e (single_filter p ks d.1)
]

not-true : (b : Bool) → not b ≡ true → b ≡ false
not-true b h = ground arith

pub delete_tasks-IsValid :
    (gone : List Text) (db : Db) → IsValid db → IsValid (delete_tasks gone db)
unfolding delete_tasks
delete_tasks-IsValid gone db v = record {
  rows = All-filter IsValidRow _ db.tasks v.rows;
  unique = IsDistinct-filter _ db.tasks v.unique;
  single = single_filter _ db.keys v.single;
  pointed =
      All-filter_with _ _ (λ k h kept. elem-delete k.1 gone db.tasks (not-true _ kept) h) db.keys
        v.pointed;
}

-- Every statement, at any time and with any arguments, keeps the database valid.
pub run-IsValid : (now : ℕ) (s : Statement) (db : Db) → IsValid db → IsValid (run now s db)
unfolding run Db.cancel Db.retry Db.recover_leases Db.heartbeat Db.heartbeat_batch Db.progress
    Db.succeed Db.complete Db.fail Db.purge
run-IsValid now (insert_task n) db v = insert_task-IsValid now n db v
run-IsValid now (upsert_key key id) db v = upsert_key-IsValid now key id db v
run-IsValid now (cancel id) db v =
    update-IsValid _ (cancel_row now) db (λ t. unfold cancel_row in refl)
      (All-of _ (λ t h p. cancel_row-IsValidRow now t h id p) db.tasks) v
run-IsValid now (retry id reset_attempt) db v =
    update-IsValid _ (retry_row now reset_attempt) db (λ t. unfold retry_row in refl)
      (All-of _ (λ t h p. retry_row-IsValidRow now t h reset_attempt) db.tasks) v
run-IsValid now (recover_leases error) db v =
    update-IsValid _ (recover_row now error) db (λ t. unfold recover_row in refl)
      (All-of _ (λ t h p. recover_row-IsValidRow now t h error p) db.tasks) v
run-IsValid now (claim worker lease_ms p limit) db v =
    claim-IsValid now worker lease_ms p limit db v
run-IsValid now (heartbeat worker id lease_ms) db v =
    update-IsValid _ (heartbeat_row now lease_ms) db (λ t. unfold heartbeat_row in refl)
      (All-of _ (λ t h p. heartbeat_row-IsValidRow now worker id t h p lease_ms) db.tasks) v
run-IsValid now (heartbeat_batch worker task_ids lease_ms) db v =
    update-IsValid _ (heartbeat_row now lease_ms) db (λ t. unfold heartbeat_row in refl)
      (All-of _ (λ t h p. heartbeat_among-IsValidRow now t h worker task_ids lease_ms p) db.tasks) v
run-IsValid now (progress worker id value message) db v =
    update-IsValid _ (progress_row now value message) db (λ t. unfold progress_row in refl)
      (All-of _ (λ t h p. progress_row-IsValidRow now worker id t h p value message) db.tasks) v
run-IsValid now (succeed worker id result message) db v =
    update-IsValid _ (succeed_row now result message) db (λ t. unfold succeed_row in refl)
      (All-of _ (λ t h p. succeed_row-IsValidRow now worker id t h p result message) db.tasks) v
run-IsValid now (complete worker id result) db v =
    update-IsValid _ (complete_row now result) db (λ t. unfold complete_row in refl)
      (All-of _ (λ t h p. complete_row-IsValidRow now worker id t h p result) db.tasks) v
run-IsValid now (fail worker id error retryable delay_ms) db v =
    update-IsValid _ (fail_row now error retryable delay_ms) db (λ t. unfold fail_row in refl)
      (All-of _ (λ t h p. fail_row-IsValidRow now worker id t h p error retryable delay_ms)
        db.tasks)
      v
run-IsValid now (purge before_ms queue status name limit) db v =
    delete_tasks-IsValid (ids (Db.select_purged before_ms queue status name limit db)) db v

-- From a valid database every history of statements leads to a valid one: a running task has an
-- owner, a lease and an attempt, no other has a lease, a task has a completion time exactly when it
-- is terminal, a queued one carries no owner, cancel request or progress, ids and keys are unique,
-- and every key points at a task that is there.
pub Reach-IsValid : {db db' : Db} → Reach db db' → IsValid db → IsValid db'
Reach-IsValid here v = v
Reach-IsValid (next r now s) v = run-IsValid now s _ (Reach-IsValid r v)
