-- ===== src/Backpressure/Market.antt =====
-- Several producers, each behind a gate of its own and submitting one task at a time, and the workers.
use cairnq.Prelude.{some, ℕ, suc, ◌≤◌, ◌≡◌, false, List, ◌∷◌, ◌++◌, Text, ltb}
use cairnq.Prelude.Int.{pos}
use cairnq.Models.{queued}
use cairnq.Errors.{ok}
use cairnq.Db.{Db, count_status}
use cairnq.Worker.Planner.{Counts, count_of}
use cairnq.Backpressure.{refresh, acquire_loop}

-- A producer: the grants that its gate holds, and the submits let through (0 or 1) that have not
-- reached the database.
pub record Producer : Type 0 where
  pub headroom : Counts
  pub under_way : ℕ

abbrev pub Market : Type 0
Market = Db × List Producer

abbrev pub producer : Counts → ℕ → Producer
producer h u = record { headroom = h; under_way = u }

-- One step of one producer, or of the workers: `_refresh`, with the grant used up; a submit that a
-- round of the loop of `acquire` lets through; its transaction, which adds one task to the queue at most; the end of one
-- that adds none; and what the workers do, which adds none either.
pub data Step (queue : Text) (limit : ℕ) : Market → Market → Type 0 where
  probe :
      (db : Db) (h h' : Counts) (ps qs : List Producer)
      → ltb 0 (count_of queue h) ≡ false
      → refresh queue (pos limit) db h ≡ ok h'
      → Step queue limit (db, ps ++ producer h 0 ∷ qs) (db, ps ++ producer h' 0 ∷ qs)
  take :
      (db : Db) (h h' : Counts) (ps qs : List Producer) (max_wait_ms : ℕ) (dbs : ℕ → Db)
      (clock : ℕ → ℕ) (started i wait_ms : ℕ)
      → (acquire_loop queue (pos limit) max_wait_ms dbs clock started 1 i wait_ms h).1
        ≡ some (ok tt, h')
      → Step queue limit (db, ps ++ producer h 0 ∷ qs) (db, ps ++ producer h' 1 ∷ qs)
  insert :
      (db db' : Db) (h : Counts) (ps qs : List Producer)
      → count_status queue queued db' ≤ suc (count_status queue queued db)
      → Step queue limit (db, ps ++ producer h 1 ∷ qs) (db', ps ++ producer h 0 ∷ qs)
  drop :
      (db : Db) (h : Counts) (ps qs : List Producer)
      → Step queue limit (db, ps ++ producer h 1 ∷ qs) (db, ps ++ producer h 0 ∷ qs)
  drain :
      (db db' : Db) (ps : List Producer)
      → count_status queue queued db' ≤ count_status queue queued db
      → Step queue limit (db, ps) (db', ps)

pub data Steps (queue : Text) (limit : ℕ) (m : Market) : Market → Type 0 where
  stay : Steps queue limit m m
  then_step :
      {m' m'' : Market} → Steps queue limit m m' → Step queue limit m' m'' → Steps queue limit m m''
