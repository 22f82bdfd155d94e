-- ===== src/Store/Submit/Decisions.antt =====
-- The key conflict rules of cairnq-protocol/PROTOCOL.md, "Key conflict", as a table.
use cairnq.Prelude.{ℕ, true, ◌≡◌, refl, some, Text, arith}
use cairnq.Models.{Status, queued, running, succeeded, failed, canceled, Task}
use cairnq.Errors.{Result, ok, raise, already_exists}
use cairnq.Rows.{NewTask}
use cairnq.Db
use cairnq.Db.{Db}
use cairnq.Store.Submit.{
  Conflict, reuse, reuse_succeeded, reject, replace, unknown, is_conflict, reusable, insert_keyed,
  resolve_conflict, existing, keyed_submit,
}

-- Return the recorded task; refuse; insert a new task and repoint the key; or cancel the recorded
-- task first.
pub data Decision : Type 0 where
  serve refuse repoint cancel_and_repoint : Decision

abbrev pub decide : Conflict → Status → Decision
decide reuse queued = serve
decide reuse running = serve
decide reuse succeeded = repoint
decide reuse failed = repoint
decide reuse canceled = repoint
decide reuse_succeeded queued = serve
decide reuse_succeeded running = serve
decide reuse_succeeded succeeded = serve
decide reuse_succeeded failed = repoint
decide reuse_succeeded canceled = repoint
decide replace queued = cancel_and_repoint
decide replace running = cancel_and_repoint
decide replace succeeded = repoint
decide replace failed = repoint
decide replace canceled = repoint
decide reject _ = refuse
decide (unknown text) _ = refuse

abbrev pub carry_out : ℕ → Text → NewTask → Task → Db → Decision → Result (Task × Db)
carry_out now key n t db serve = ok (t, db)
carry_out now key n t db refuse = raise (already_exists key)
carry_out now key n t db repoint = insert_keyed now key n db
carry_out now key n t db cancel_and_repoint = insert_keyed now key n (Db.cancel now t.id db).1

decide_cases :
    (now : ℕ) (key : Text) (conflict : Conflict) (n : NewTask) (t : Task) (db : Db) (s : Status)
    → t.status ≡ s
    → is_conflict conflict ≡ true
    → resolve_conflict now key conflict n t db ≡ carry_out now key n t db (decide conflict s)
unfolding resolve_conflict reusable
decide_cases now key conflict n t db s e h = ground arith

-- When the key points at a task, a keyed submit with one of the four strategies does what the table
-- says for the strategy and the task's status: it returns the recorded task and writes nothing,
-- raises `AlreadyExists`, or inserts and repoints, a live recorded task being canceled before.
pub keyed_submit-decide :
    (now : ℕ) (key : Text) (conflict : Conflict) (n : NewTask) (t : Task) (db : Db)
    → is_conflict conflict ≡ true
    → existing key db ≡ some t
    → keyed_submit now key conflict n db ≡ carry_out now key n t db (decide conflict t.status)
unfolding keyed_submit
keyed_submit-decide now key conflict n t db h e =
    rw (e, keyed_submit) (decide_cases now key conflict n t db t.status refl h)
