-- ===== src/Context/Outcome.antt =====
-- What `ctx.succeed` does to the task, the context and the database together.
use cairnq.Prelude.{
  ℕ, Bool, true, false, ◌||◌, ◌≡◌, refl, ap, ◌∙◌, Option, none, some, Json, Value, arith,
  if◌then◌else◌,
}
use cairnq.Models.{Task, cancel_requested}
use cairnq.Errors.{Result, ok, raise, lost_lease, Codec}
use cairnq.Rows.{complete_row}
use cairnq.Rows
use cairnq.Db
use cairnq.Db.{Db}
use cairnq.Statement.Valid.{IsValid}
use cairnq.Store.Owned
use cairnq.Store.Owned.{dump_result}
use cairnq.Store.Owned.Ownership.{complete_outcome}
use cairnq.Context.{
  TaskContext, require_lease, owned, settle, observe, observe_cancel, mark_lease_lost, mark_settled,
  succeed,
}

through_gate :
    (write : Db → Result Task × Db) (x : TaskContext) (db : Db)
    → x.lease_lost ≡ false
    → x.settled ≡ false
    → owned write x db ≡ ((write db).0, (observe (write db).0 x, (write db).1))
unfolding owned require_lease
through_gate write x db e q = ground arith

completed_row_flag :
    (now : ℕ) (json : Option Json) (t : Task)
    → cancel_requested (complete_row now json t) ≡ cancel_requested t
unfolding complete_row
completed_row_flag now json t = ground arith

-- The answer of the store, seen and marked.
answered : TaskContext → Result Task × Db → Result (Option Task) × (TaskContext × Db)
answered x r = settle (r.0, (observe r.0 x, r.1))

unsettled :
    (c : Codec) (now : ℕ) (result : Option Value) (x : TaskContext) (db : Db)
    → x.settled ≡ false
    → succeed c now result x db
      ≡ settle (owned (Owned.complete c now x.worker_id x.task.id result) x db)
unfolding succeed
unsettled c now result x db e =
    ap
      (λ b.
        if b
        then (ok none, (x, db))
        else settle (owned (Owned.complete c now x.worker_id x.task.id result) x db))
      e

answered_cases :
    (b : Bool) (now : ℕ) (json : Option Json) (t : Task) (x : TaskContext) (db db' : Db)
    → answered x
        (if b then (ok (complete_row now json t), db') else (raise (lost_lease x.task.id), db))
      ≡ (if b
          then (
            ok (some (complete_row now json t)),
            (record x { settled = true; cancel_seen = cancel_requested t || x.cancel_seen }, db'),
          )
          else (raise (lost_lease x.task.id), (record x { lease_lost = true }, db)))
unfolding answered settle observe observe_cancel mark_lease_lost mark_settled
answered_cases true now json t x db db' =
    ap
      (λ flag. (
        ok (some (complete_row now json t)),
        (record x { settled = true; cancel_seen = flag || x.cancel_seen }, db'),
      ))
      (completed_row_flag now json t)
answered_cases false now json t x db db' = refl

-- On a task of a valid database, with a context that is neither settled nor knows its lease lost and
-- a result that serializes: where the worker holds the task's live lease, `succeed` returns the
-- settled row, marks the context settled and notes the row's cancel flag; otherwise it raises
-- `LostLease`, marks the lease lost, and leaves the database as it was.
pub succeed_outcome :
    (c : Codec) (now : ℕ) (result : Option Value) (json : Option Json) (x : TaskContext) (db : Db)
    (t : Task)
    → IsValid db
    → Db.get x.task.id db ≡ some t
    → dump_result c result ≡ ok json
    → x.lease_lost ≡ false
    → x.settled ≡ false
    → succeed c now result x db ≡ (
        if Rows.owned now x.worker_id x.task.id t
        then (
          ok (some (complete_row now json t)),
          (
            record x { settled = true; cancel_seen = cancel_requested t || x.cancel_seen },
            (Db.complete now x.worker_id x.task.id json db).1,
          ),
        )
        else (raise (lost_lease x.task.id), (record x { lease_lost = true }, db)))
unfolding answered
succeed_outcome c now result json x db t v found e lost fresh =
    let write = Owned.complete c now x.worker_id x.task.id result in
    unsettled c now result x db fresh
    ∙ (ap settle (through_gate write x db lost fresh)
        ∙ (ap (answered x) (complete_outcome c now x.worker_id x.task.id result json db t v found e)
            ∙ answered_cases (Rows.owned now x.worker_id x.task.id t) now json t x db
                (Db.complete now x.worker_id x.task.id json db).1))
