-- ===== src/Driver.antt =====
-- The driver under cairnq-py/cairnq/store/sqlite.py: the connection's calls and the laws that SQLite
-- documents of them, and `_is_busy`, the store's reading of their errors.
use cairnq.Prelude.{ℕ, Bool, true, false, ◌==◌, ◌&&◌, ◌≡◌, Option, none, some, List, [], ◌∷◌}

-- An exception: whether it is an `OperationalError`, its `sqlite_errorname` where the interpreter
-- has one, and its message, both as the codes of their characters.
pub record Exc : Type 0 where
  pub operational : Bool
  pub errorname : Option (List ℕ)
  pub message : List ℕ

abbrev pub starts_with : List ℕ → List ℕ → Bool
starts_with cs [] = true
starts_with [] (d ∷ ds) = false
starts_with (c ∷ cs) (d ∷ ds) = (c == d) && starts_with cs ds

-- "SQLITE_BUSY"
abbrev pub sqlite_busy : List ℕ
sqlite_busy = 83 ∷ 81 ∷ 76 ∷ 73 ∷ 84 ∷ 69 ∷ 95 ∷ 66 ∷ 85 ∷ 83 ∷ 89 ∷ []

-- "database is locked"
abbrev pub database_is_locked : List ℕ
database_is_locked =
    100 ∷ 97 ∷ 116 ∷ 97 ∷ 98 ∷ 97 ∷ 115 ∷ 101 ∷ 32 ∷ 105 ∷ 115 ∷ 32 ∷ 108 ∷ 111 ∷ 99 ∷ 107 ∷ 101
    ∷ 100 ∷ []

abbrev pub busy_name : Option (List ℕ) → List ℕ → Bool
busy_name (some name) message = starts_with name sqlite_busy
busy_name none message = starts_with message database_is_locked

unfoldable pub is_busy : Exc → Bool
is_busy exc = exc.operational && busy_name exc.errorname exc.message

-- What awaiting a statement or a future gives: its rows, or an exception.
pub data Reply (R : Type 0) : Type 0 where
  rows : R → Reply R
  raised : Exc → Reply R

-- The calls of the connection, each with the connection that it leaves: `BEGIN IMMEDIATE`, a
-- statement of the protocol (`_run`), `COMMIT`, `ROLLBACK`, and the `in_transaction` flag.
pub record Driver (C Q R : Type 0) : Type 0 where
  pub begin : C → C × Option Exc
  pub execute : Q → C → C × Reply R
  pub commit : C → C × Option Exc
  pub rollback : C → C
  pub in_transaction : C → Bool

-- What SQLite documents of these calls, for the database `durable` that other connections see, the
-- one `working` that the open transaction sees, and the effect of a statement on a database.
pub record IsSqlite {C Q R : Type 0} (S : Type 0) (d : Driver C Q R) (effect : Q → S → S × R)
    : Type 0 where
  pub durable : C → S
  pub working : C → S
  -- A transaction that opens sees the database as it is; one that does not open changes nothing.
  pub begin_opens :
      (c : C)
      → (d.begin c).1 ≡ none
      → (d.in_transaction (d.begin c).0 ≡ true) × (working (d.begin c).0 ≡ durable c)
  pub begin_fails :
      (c : C) (e : Exc)
      → (d.begin c).1 ≡ some e
      → d.in_transaction (d.begin c).0 ≡ d.in_transaction c
  pub begin_durable : (c : C) → durable (d.begin c).0 ≡ durable c
  -- RunsInside a transaction a statement works on the transaction's view.
  pub inside_rows :
      (c : C) (q : Q) (r : R)
      → d.in_transaction c ≡ true
      → (d.execute q c).1 ≡ rows r
      → (d.in_transaction (d.execute q c).0 ≡ true)
        × (effect q (working c) ≡ (working (d.execute q c).0, r))
  pub inside_raised :
      (c : C) (q : Q) (e : Exc)
      → d.in_transaction c ≡ true
      → (d.execute q c).1 ≡ raised e
      → d.in_transaction (d.execute q c).0 ≡ true
      → working (d.execute q c).0 ≡ working c
  pub inside_durable :
      (c : C) (q : Q) → d.in_transaction c ≡ true → durable (d.execute q c).0 ≡ durable c
  -- Outside one it commits by itself, or changes nothing.
  pub alone_rows :
      (c : C) (q : Q) (r : R)
      → d.in_transaction c ≡ false
      → (d.execute q c).1 ≡ rows r
      → effect q (durable c) ≡ (durable (d.execute q c).0, r)
  pub alone_raised :
      (c : C) (q : Q) (e : Exc)
      → d.in_transaction c ≡ false
      → (d.execute q c).1 ≡ raised e
      → durable (d.execute q c).0 ≡ durable c
  pub alone_outside :
      (c : C) (q : Q) → d.in_transaction c ≡ false → d.in_transaction (d.execute q c).0 ≡ false
  -- A commit that succeeds makes the view durable; one that fails makes nothing durable.
  pub commit_lands :
      (c : C)
      → (d.commit c).1 ≡ none
      → (d.in_transaction (d.commit c).0 ≡ false) × (durable (d.commit c).0 ≡ working c)
  pub commit_fails :
      (c : C) (e : Exc) → (d.commit c).1 ≡ some e → durable (d.commit c).0 ≡ durable c
  pub rollback_ends : (c : C) → d.in_transaction (d.rollback c) ≡ false
  pub rollback_durable : (c : C) → durable (d.rollback c) ≡ durable c
