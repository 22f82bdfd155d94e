-- ===== src/Statement/Effect.antt =====
-- What one statement does to one row: a statement seen through `get`.
use cairnq.Prelude.{
  ℕ, Bool, true, false, ◌≡◌, refl, sym, ap, ◌∙◌, Option, none, some, List, [], ◌∷◌, ◌++◌, Text,
  arith, All, not, elem, Bool-cases, inl, inr, ◌==◌, ==_iff, find?, filter, if◌then◌else◌,
}
use cairnq.Models.{Status, Task}
use cairnq.Table.{ids, update_where, chosen_passes}
use cairnq.Due.{before, completed_before, sort_due}
use cairnq.Rows.{
  NewTask, cancelable, cancel_row, retryable_row, retry_row, owned, owned_among, heartbeat_row,
  progress_row, succeed_row, complete_row, fail_row, lease_expired, recover_row, claim_row,
  purgeable,
}
use cairnq.Db
use cairnq.Db.{Db, update, claimable, select_due, select_purged, delete_tasks}
use cairnq.Statement.{
  Statement, insert_task, upsert_key, cancel, retry, recover_leases, claim, heartbeat,
  heartbeat_batch, progress, succeed, complete, fail, purge, run,
}
use cairnq.Statement.Valid.{IsValid}

abbrev when : Bool → Task → Task → Option Task
when b changed t = if b then some changed else some t

-- The row that a statement leaves of a row that was there, or none where it deletes it.
unfoldable pub effect : ℕ → Statement → Db → Task → Option Task
effect now (insert_task n) db t = some t
effect now (upsert_key key id) db t = some t
effect now (cancel id) db t = when (cancelable id t) (cancel_row now t) t
effect now (retry id reset_attempt) db t =
    when (retryable_row id t) (retry_row now reset_attempt t) t
effect now (recover_leases error) db t = when (lease_expired now t) (recover_row now error t) t
effect now (claim worker lease_ms p limit) db t =
    when (elem t.id (ids (select_due now p limit db))) (claim_row now worker lease_ms t) t
effect now (heartbeat worker id lease_ms) db t =
    when (owned now worker id t) (heartbeat_row now lease_ms t) t
effect now (heartbeat_batch worker task_ids lease_ms) db t =
    when (owned_among now worker task_ids t) (heartbeat_row now lease_ms t) t
effect now (progress worker id value message) db t =
    when (owned now worker id t) (progress_row now value message t) t
effect now (succeed worker id result message) db t =
    when (owned now worker id t) (succeed_row now result message t) t
effect now (complete worker id result) db t =
    when (owned now worker id t) (complete_row now result t) t
effect now (fail worker id error retryable delay_ms) db t =
    when (owned now worker id t) (fail_row now error retryable delay_ms t) t
effect now (purge before_ms queue status name limit) db t =
    if elem t.id (ids (select_purged before_ms queue status name limit db)) then none else some t

pub find?-update_where :
    (p : Task → Bool) (f : Task → Task)
    → ((t : Task) → (f t).id ≡ t.id)
    → (id : Text) (ts : List Task) → (t : Task) → find? (λ u. u.id == id) ts ≡ some t
    → find? (λ u. u.id == id) (update_where p f ts) ≡ when (p t) (f t) t
find?-update_where p f keep id [] t h = cc
find?-update_where p f keep id (u ∷ us) t h =
    ground (arith, keep u, find?-update_where p f keep id us t)

find?-append :
    (id : Text) (ts us : List Task) (t : Task)
    → find? (λ u. u.id == id) ts ≡ some t
    → find? (λ u. u.id == id) (ts ++ us) ≡ some t
find?-append id [] us t h = cc
find?-append id (u ∷ ts) us t h = ground (arith, find?-append id ts us t)

pub find?-id :
    (id : Text) (ts : List Task) (t : Task) → find? (λ u. u.id == id) ts ≡ some t → t.id ≡ id
find?-id id [] t h = cc
find?-id id (u ∷ ts) t h = ground (arith, find?-id id ts t)

gone_at :
    (gone : List Text) (id : Text) (u : Task) → (u.id == id) ≡ true → elem u.id gone ≡ elem id gone
gone_at gone id u e = ap (λ i. elem i gone) ((==_iff u.id id).0 e)

find?-deleted :
    (gone : List Text) (id : Text) (ts : List Task)
    → elem id gone ≡ true
    → find? (λ u. u.id == id) (filter (λ u. not (elem u.id gone)) ts) ≡ none
find?-deleted gone id [] h = refl
find?-deleted gone id (u ∷ ts) h = elim (Bool-cases (u.id == id)) [
  | inl e ↦ rw (gone_at gone id u e ∙ h) (find?-deleted gone id ts h)
  | inr e ↦ elim (Bool-cases (elem u.id gone)) [
    | inl q ↦ rw q (find?-deleted gone id ts h)
    | inr q ↦ rw q (rw e (find?-deleted gone id ts h))
  ]
]

find?-kept :
    (gone : List Text) (id : Text) (ts : List Task)
    → elem id gone ≡ false
    → find? (λ u. u.id == id) (filter (λ u. not (elem u.id gone)) ts) ≡ find? (λ u. u.id == id) ts
find?-kept gone id [] h = refl
find?-kept gone id (u ∷ ts) h = elim (Bool-cases (u.id == id)) [
  | inl e ↦ rw (gone_at gone id u e ∙ h) (rw e refl)
  | inr e ↦ elim (Bool-cases (elem u.id gone)) [
    | inl q ↦ rw q (rw e (find?-kept gone id ts h))
    | inr q ↦ rw q (rw e (find?-kept gone id ts h))
  ]
]

find?-delete :
    (gone : List Text) (id : Text) (ts : List Task) (t : Task)
    → find? (λ u. u.id == id) ts ≡ some t
    → find? (λ u. u.id == id) (filter (λ u. not (elem u.id gone)) ts)
      ≡ (if elem id gone then none else some t)
find?-delete gone id ts t h = elim (Bool-cases (elem id gone)) [
  | inl e ↦ rw e (find?-deleted gone id ts e)
  | inr e ↦ rw e (find?-kept gone id ts e ∙ h)
]

-- What holds of every row holds of the one that `get` finds.
pub All-find? {κ} :
    (P : Task → Type κ) (q : Task → Bool) (ts : List Task) (t : Task)
    → All P ts
    → find? q ts ≡ some t
    → P t
All-find? P q [] t a h = cc
All-find? P q (u ∷ ts) t a h = elim (Bool-cases (q u)) [
  | inl e ↦ let same : u ≡ t = ground arith in rw same at a.0
  | inr e ↦ All-find? P q ts t a.1 (ground arith)
]

module _ (now : ℕ) (id : Text) (db : Db) (t : Task) (found : Db.get id db ≡ some t) where
  get-update :
      (p : Task → Bool) (f : Task → Task)
      → ((u : Task) → (f u).id ≡ u.id)
      → Db.get id (update p f db).1 ≡ when (p t) (f t) t
  unfolding Db.get
  get-update p f keep = find?-update_where p f keep id db.tasks t found

  get-insert : (n : NewTask) → Db.get id (run now (insert_task n) db) ≡ some t
  unfolding Db.get Db.insert_task run
  get-insert n = elim (Bool-cases (elem n.id (ids db.tasks))) [
    | inl e ↦ rw (e, run) found
    | inr e ↦ rw (e, run) (find?-append id db.tasks _ t found)
  ]

  get-upsert : (key j : Text) → Db.get id (run now (upsert_key key j) db) ≡ some t
  unfolding Db.get Db.upsert_key run
  get-upsert key j = elim (Bool-cases (elem j (ids db.tasks))) [
    | inl e ↦ rw (e, run) found
    | inr e ↦ rw (e, run) found
  ]

  get-delete :
      (gone : List Text)
      → Db.get id (delete_tasks gone db) ≡ (if elem t.id gone then none else some t)
  unfolding Db.get delete_tasks
  get-delete gone =
      find?-delete gone id db.tasks t found
      ∙ ap (λ i. if elem i gone then none else some t) (sym (find?-id id db.tasks t found))

  -- A statement changes a row that is there to what its effect says, or deletes it.
  pub get-run : (s : Statement) → Db.get id (run now s db) ≡ effect now s db t
  unfolding run effect Db.cancel Db.retry Db.recover_leases Db.heartbeat Db.heartbeat_batch
      Db.progress Db.succeed Db.complete Db.fail Db.purge Db.claim
  get-run (insert_task n) = get-insert n
  get-run (upsert_key key j) = get-upsert key j
  get-run (cancel j) = get-update _ (cancel_row now) (λ u. unfold cancel_row in refl)
  get-run (retry j reset) = get-update _ (retry_row now reset) (λ u. unfold retry_row in refl)
  get-run (recover_leases error) =
      get-update _ (recover_row now error) (λ u. unfold recover_row in refl)
  get-run (claim worker lease_ms p limit) =
      get-update _ (claim_row now worker lease_ms) (λ u. unfold claim_row in refl)
  get-run (heartbeat worker j lease_ms) =
      get-update _ (heartbeat_row now lease_ms) (λ u. unfold heartbeat_row in refl)
  get-run (heartbeat_batch worker task_ids lease_ms) =
      get-update _ (heartbeat_row now lease_ms) (λ u. unfold heartbeat_row in refl)
  get-run (progress worker j value message) =
      get-update _ (progress_row now value message) (λ u. unfold progress_row in refl)
  get-run (succeed worker j result message) =
      get-update _ (succeed_row now result message) (λ u. unfold succeed_row in refl)
  get-run (complete worker j result) =
      get-update _ (complete_row now result) (λ u. unfold complete_row in refl)
  get-run (fail worker j error retryable delay_ms) =
      get-update _ (fail_row now error retryable delay_ms) (λ u. unfold fail_row in refl)
  get-run (purge before_ms queue status name limit) =
      get-delete (ids (select_purged before_ms queue status name limit db))

module _ (db : Db) (v : IsValid db) (id : Text) (t : Task) (found : Db.get id db ≡ some t) where
  -- A claim takes claimable rows only.
  pub chosen-claimable :
      (now : ℕ) (p : Task → Bool) (limit : ℕ)
      → elem t.id (ids (select_due now p limit db)) ≡ true
      → claimable now p t ≡ true
  unfolding select_due sort_due Db.get
  chosen-claimable now p limit =
      All-find? _ (λ u. u.id == id) db.tasks t
        (chosen_passes before (claimable now p) limit db.tasks v.unique) found

  -- A purge deletes purgeable rows only.
  pub chosen-purgeable :
      (before_ms : ℕ) (queue : Option Text) (status : Option Status) (name : Option Text)
      (limit : ℕ)
      → elem t.id (ids (select_purged before_ms queue status name limit db)) ≡ true
      → purgeable before_ms queue status name t ≡ true
  unfolding select_purged Db.get
  chosen-purgeable before_ms queue status name limit =
      All-find? _ (λ u. u.id == id) db.tasks t
        (chosen_passes completed_before (purgeable before_ms queue status name) limit db.tasks
          v.unique)
        found
