-- ===== src/Sqlite.antt =====
-- The group commit of cairnq-py/cairnq/store/sqlite.py: the writes that wait for the shared
-- connection, and one turn on its lock. The connection and SQLite behind it are a driver: functions
-- on a connection of any type, with the laws that SQLite documents.
pub mod Serial
pub mod Turn
pub mod Retry
pub mod Loop
pub mod Transaction
pub mod Lifecycle
mod Examples
use cairnq.Prelude.{
  ℕ, Bool, true, false, ◌==◌, ◌||◌, ◌&&◌, ◌≡◌, Option, none, some, List, [], ◌∷◌, ◌++◌,
  if◌then◌else◌,
}
use cairnq.Driver.{Exc, is_busy, Reply, rows, raised, Driver}

-- `_Pending`; the future is known by the number `id`.
pub record Pending (Q : Type 0) : Type 0 where
  pub id : ℕ
  pub query : Q

abbrev pub Futures : Type 0 → Type 0
Futures R = List (ℕ × Reply R)

-- The connection, `_pending`, and the outcome of every future that is done.
pub record Flusher (C Q R : Type 0) : Type 0 where
  pub conn : C
  pub pending : List (Pending Q)
  pub futures : Futures R

-- The writes that other tasks append during a turn: before `_flush` takes its batch, and after.
pub record Arrivals (Q : Type 0) : Type 0 where
  pub before : List (Pending Q)
  pub during : List (Pending Q)

module _ {R : Type 0} where
  abbrev pub is_done : ℕ → Futures R → Bool
  is_done id [] = false
  is_done id (f ∷ fs) = (f.0 == id) || is_done id fs

  -- The exception of a statement that took the transaction down with it.
  abbrev pub torn : Bool → Reply R → Option Exc
  torn alive (rows r) = none
  torn true (raised e) = none
  torn false (raised e) = some e

module _ {Q R : Type 0} where
  -- `resolve` and `reject`
  unfoldable pub set_outcome : Pending Q → Reply R → Futures R → Futures R
  set_outcome w a fs = if is_done w.id fs then fs else (w.id, a) ∷ fs

  unfoldable pub set_outcomes : List (Pending Q) → List (Reply R) → Futures R → Futures R
  unfolding set_outcome
  set_outcomes [] answers fs = fs
  set_outcomes (w ∷ ws) [] fs = fs
  set_outcomes (w ∷ ws) (a ∷ answers) fs = set_outcomes ws answers (set_outcome w a fs)

  -- The same exception for every member.
  abbrev pub all_raised : Exc → List (Pending Q) → List (Reply R)
  all_raised e [] = []
  all_raised e (w ∷ ws) = raised e ∷ all_raised e ws

module _ {C Q R : Type 0} (d : Driver C Q R) where
  -- The connection after some of a transaction, the outcomes so far, and what ended it if not COMMIT.
  abbrev pub Batch : Type 0
  Batch = C × List (Reply R) × Option Exc

  abbrev pub after_member : C → Reply R → Option Exc → Batch → Batch
  after_member c a (some e) rest = (c, [], some e)
  after_member c a none rest = (rest.0, a ∷ rest.1, rest.2)

  -- The `for write in batch` of `_flush`.
  unfoldable pub run_batch : List (Pending Q) → C → Batch
  run_batch [] c = (c, [], none)
  run_batch (w ∷ ws) c =
      let c' = (d.execute w.query c).0 in
      let a = (d.execute w.query c).1 in
      let rest = run_batch ws c' in after_member c' a (torn (d.in_transaction c') a) rest

  abbrev pub committed : Batch → Batch
  committed (c, answers, some e) = (c, answers, some e)
  committed (c, answers, none) = ((d.commit c).0, answers, (d.commit c).1)

  -- The `except` of `_flush`: back to the head of the queue, or an exception for every member.
  unfoldable pub undo :
      List (Pending Q) → List (Pending Q) → C → Futures R → Exc → Bool → Flusher C Q R × Option Exc
  unfolding set_outcomes
  undo batch later c fs e true =
      (record { conn = c; pending = batch ++ later; futures = fs }, some e)
  undo batch later c fs e false = (
    record { conn = c; pending = later; futures = set_outcomes batch (all_raised e batch) fs },
    none,
  )

  -- `if not batch: batch, self._pending = self._pending, []`
  abbrev pub undo_taken :
      List (Pending Q) → List (Pending Q) → C → Futures R → Exc → Flusher C Q R × Option Exc
  undo_taken [] later c fs e = undo later [] c fs e (is_busy e)
  undo_taken (w ∷ ws) later c fs e = undo (w ∷ ws) later c fs e (is_busy e)

  abbrev pub rolled_back : C → C
  rolled_back c = if d.in_transaction c then d.rollback c else c

  abbrev pub after_commit :
      List (Pending Q) → List (Pending Q) → Futures R → Batch → Flusher C Q R × Option Exc
  after_commit batch later fs (c, answers, none) =
      (record { conn = c; pending = later; futures = set_outcomes batch answers fs }, none)
  after_commit batch later fs (c, answers, some e) = undo_taken batch later (rolled_back c) fs e

  -- The batch is taken once BEGIN has succeeded; if it has not, it is the whole queue.
  abbrev pub after_begin :
      List (Pending Q) → List (Pending Q) → Futures R → C × Option Exc → Flusher C Q R × Option Exc
  after_begin queue during fs (c, some e) = undo_taken [] (queue ++ during) (rolled_back c) fs e
  after_begin queue during fs (c, none) =
      after_commit queue during fs (committed (run_batch queue c))

  abbrev pub after_alone :
      Pending Q → List (Pending Q) → Futures R → C × Reply R → Flusher C Q R × Option Exc
  after_alone only later fs (c, rows r) =
      (record { conn = c; pending = later; futures = set_outcome only (rows r) fs }, none)
  after_alone only later fs (c, raised e) = undo (only ∷ []) later c fs e (is_busy e)

  -- One writer waiting is run alone; any other number, in a transaction.
  abbrev pub flush_queue :
      List (Pending Q) → Flusher C Q R → Arrivals Q → Flusher C Q R × Option Exc
  flush_queue (only ∷ []) st a =
      after_alone only (a.before ++ a.during) st.futures (d.execute only.query st.conn)
  flush_queue queue st a = after_begin (queue ++ a.before) a.during st.futures (d.begin st.conn)

  -- `_flush`: the store after it, and the exception that it raised.
  unfoldable pub flush : Flusher C Q R → Arrivals Q → Flusher C Q R × Option Exc
  unfolding run_batch set_outcome set_outcomes undo is_busy
  flush st a = flush_queue st.pending st a
