-- ===== src/Store/Submit.antt =====
-- `TaskStore.submit`, `cancel_by_key` and `retry_by_key` (cairnq-py/cairnq/store/base.py). A keyed
-- submit is one transaction: a raise inside it leaves the database as it was.
pub mod Keyed
pub mod Decisions
mod Examples
use cairnq.Prelude.{
  ◌==◌, ℕ, Bool, true, false, ◌&&◌, not, Option, none, some, List, Text, Json, Value, get_or, head?,
  if◌then◌else◌,
}
use cairnq.Prelude.Int.{ℤ, pos, pos_part, ltb_ℤ}
use cairnq.Models.{Status, succeeded, Task, is_terminal_status, status_eq}
use cairnq.Errors.{
  Result, ok, raise, ◌>>=◌, ◌>>◌, raise_if, Error, value_error, already_exists, serialization_error,
  Codec, empty_details,
}
use cairnq.Rows.{NewTask}
use cairnq.Db
use cairnq.Db.{Db}

-- A conflict strategy; `unknown` is any other text that an untyped caller passes.
pub data Conflict : Type 0 where
  reuse reuse_succeeded reject replace : Conflict
  unknown : Text → Conflict

-- `conflict in CONFLICTS`
abbrev pub is_conflict : Conflict → Bool
is_conflict (unknown text) = false
is_conflict reuse = true
is_conflict reuse_succeeded = true
is_conflict reject = true
is_conflict replace = true

abbrev pub is_replace : Conflict → Bool
is_replace replace = true
is_replace _ = false

abbrev pub is_reject : Conflict → Bool
is_reject reject = true
is_reject _ = false

abbrev pub is_reuse_succeeded : Conflict → Bool
is_reuse_succeeded reuse_succeeded = true
is_reuse_succeeded _ = false

-- `_reusable`
unfoldable pub reusable : Conflict → Status → Bool
reusable conflict status =
    if is_replace conflict
    then false
    else if not (is_terminal_status status)
    then true
    else is_reuse_succeeded conflict && status_eq status succeeded

pub record SubmitArgs : Type 0 where
  pub name : Text
  pub payload : Option Value
  pub queue : Text
  pub key : Option Text
  pub conflict : Conflict
  pub max_attempts : ℤ
  pub priority : ℤ
  pub metadata : Option Value
  pub parent_id : Option Text
  pub root_id : Option Text
  pub correlation_id : Option Text
  pub delay_ms : ℤ

abbrev pub dump_json : Codec → Value → Result Json
dump_json c v = elim (c.encode v) [ none ↦ raise serialization_error | some j ↦ ok j ]

abbrev pub empty_text : Text
empty_text = 0

-- `root_id or task_id`: an empty text is as good as none.
abbrev pub or_text : Option Text → Text → Text
or_text none other = other
or_text (some t) other = if t == empty_text then other else t

-- The parameters `ins`, once validated and encoded.
unfoldable pub new_task : Codec → Text → SubmitArgs → Result NewTask
new_task c task_id a = do
  payload ← dump_json c (get_or a.payload empty_details)
  metadata ← dump_json c (get_or a.metadata empty_details)
  ok (record {
    id = task_id;
    name = a.name;
    queue = a.queue;
    payload = payload;
    metadata = metadata;
    max_attempts = pos_part a.max_attempts;
    priority = a.priority;
    delay_ms = pos_part a.delay_ms;
    parent_id = a.parent_id;
    root_id = or_text a.root_id task_id;
    correlation_id = a.correlation_id;
  })

-- The end of the keyed transaction: insert the task and point the key at it.
unfoldable pub insert_keyed : ℕ → Text → NewTask → Db → Result (Task × Db)
insert_keyed now key n db = Db.insert_task now n db >>= λ inserted.
    Db.upsert_key key n.id inserted.1 >>= λ pointed. ok (inserted.0, pointed)

-- What the transaction does about the task that the key points at.
unfoldable pub resolve_conflict : ℕ → Text → Conflict → NewTask → Task → Db → Result (Task × Db)
resolve_conflict now key conflict n t db =
    if is_reject conflict
    then raise (already_exists key)
    else if reusable conflict t.status
    then ok (t, db)
    else insert_keyed now key n
        (if not (is_terminal_status t.status) then (Db.cancel now t.id db).1 else db)

-- The task that a key points at, unless it vanished.
unfoldable pub existing : Text → Db → Option Task
existing key db = elim (Db.get_key key db) [ none ↦ none | some id ↦ Db.get id db ]

unfoldable pub keyed_submit : ℕ → Text → Conflict → NewTask → Db → Result (Task × Db)
keyed_submit now key conflict n db = elim (existing key db) [
  | none ↦ insert_keyed now key n db
  | some t ↦ resolve_conflict now key conflict n t db
]

-- A transaction: its database is kept on success alone.
abbrev pub transact {ℓ} : {A : Type ℓ} → Result (A × Db) → Db → Result A × Db
transact (ok r) db = (ok r.0, r.1)
transact (raise e) db = (raise e, db)

-- What `submit` checks before it writes, and the row that it is about to write; `admit` is the
-- answer of the backpressure gate.
unfoldable pub prepare : Codec → Result (Unit {0}) → Text → SubmitArgs → Result NewTask
unfolding new_task
prepare c admit task_id a = do
  raise_if (not (is_conflict a.conflict)) value_error
  raise_if (ltb_ℤ a.max_attempts (pos 1)) value_error
  raise_if (ltb_ℤ a.delay_ms (pos 0)) value_error
  admit
  new_task c task_id a

unfoldable pub write_task : ℕ → SubmitArgs → NewTask → Db → Result (Task × Db)
write_task now a n db = elim a.key [
  | none ↦ Db.insert_task now n db
  | some key ↦ keyed_submit now key a.conflict n db
]

unfoldable pub submit : Codec → Result (Unit {0}) → ℕ → Text → SubmitArgs → Db → Result Task × Db
submit c admit now task_id a db =
    transact (prepare c admit task_id a >>= λ n. write_task now a n db) db

-- `_by_key`: resolve the key, then act on the task it points at.
unfoldable pub by_key : Text → (Text → Db → List Task × Db) → Db → Option Task × Db
by_key key act db = elim (Db.get_key key db) [
  | none ↦ (none, db)
  | some id ↦ let r = act id db in (head? r.0, r.1)
]

unfoldable pub cancel : ℕ → Text → Db → Option Task × Db
cancel now id db = let r = Db.cancel now id db in (head? r.0, r.1)

unfoldable pub retry : ℕ → Text → Bool → Db → Option Task × Db
retry now id reset_attempt db = let r = Db.retry now id reset_attempt db in (head? r.0, r.1)

unfoldable pub cancel_by_key : ℕ → Text → Db → Option Task × Db
cancel_by_key now key db = by_key key (Db.cancel now) db

unfoldable pub retry_by_key : ℕ → Text → Bool → Db → Option Task × Db
retry_by_key now key reset_attempt db = by_key key (λ id. Db.retry now id reset_attempt) db
