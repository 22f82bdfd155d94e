-- ===== src/Statement.antt =====
-- The writes of the protocol (cairnq-protocol/sql/sqlite), as one type of statements with a step on
-- the database, and the histories that steps make.
pub mod Rows
pub mod Valid
pub mod Effect
pub mod Edges
pub mod Exclusive
pub mod Attempts
mod Examples
use cairnq.Prelude.{ℕ, Bool, Option, List, Text, Json}
use cairnq.Models.{Status, Progress, Task}
use cairnq.Errors.{ok, raise}
use cairnq.Rows.{NewTask}
use cairnq.Db
use cairnq.Db.{Db}

pub data Statement : Type 0 where
  insert_task : NewTask → Statement
  upsert_key : Text → Text → Statement
  cancel : Text → Statement
  retry : Text → Bool → Statement
  recover_leases : Json → Statement
  claim : Text → ℕ → (Task → Bool) → ℕ → Statement
  heartbeat : Text → Text → ℕ → Statement
  heartbeat_batch : Text → List Text → ℕ → Statement
  progress : Text → Text → Option Progress → Option Text → Statement
  succeed : Text → Text → Option Json → Option Text → Statement
  complete : Text → Text → Option Json → Statement
  fail : Text → Text → Json → Bool → ℕ → Statement
  purge : ℕ → Option Text → Option Status → Option Text → ℕ → Statement

-- The database after a statement at a time; a refused one leaves it as it was.
unfoldable pub run : ℕ → Statement → Db → Db
run now (insert_task n) db = elim (Db.insert_task now n db) [ ok (t, db') ↦ db' | raise e ↦ db ]
run now (upsert_key key id) db = elim (Db.upsert_key key id db) [ ok db' ↦ db' | raise e ↦ db ]
run now (cancel id) db = (Db.cancel now id db).1
run now (retry id reset_attempt) db = (Db.retry now id reset_attempt db).1
run now (recover_leases error) db = (Db.recover_leases now error db).1
run now (claim worker lease_ms p limit) db = (Db.claim now worker lease_ms p limit db).1
run now (heartbeat worker id lease_ms) db = (Db.heartbeat now worker id lease_ms db).1
run now (heartbeat_batch worker task_ids lease_ms) db =
    (Db.heartbeat_batch now worker task_ids lease_ms db).1
run now (progress worker id value message) db = (Db.progress now worker id value message db).1
run now (succeed worker id result message) db = (Db.succeed now worker id result message db).1
run now (complete worker id result) db = (Db.complete now worker id result db).1
run now (fail worker id error retryable delay_ms) db =
    (Db.fail now worker id error retryable delay_ms db).1
run now (purge before_ms queue status name limit) db =
    (Db.purge before_ms queue status name limit db).1

-- The databases that a history of statements, each at its time, can lead to.
pub data Reach (db : Db) : Db → Type 0 where
  here : Reach db db
  next : {db' : Db} → Reach db db' → (now : ℕ) (s : Statement) → Reach db (run now s db')
