-- ===== src/Sqlite/Examples.antt =====
-- A small database behind the laws, and the turns of a flusher on it.
use cairnq.Prelude.{
  ℕ, zero, suc, ◌+◌, true, false, ◌≡◌, refl, sym, ap, Option, none, some, [], ◌∷◌, arith, get_or,
  is_some,
}
use cairnq.Driver.{Exc, sqlite_busy, Reply, rows, raised, Driver, IsSqlite}
use cairnq.Sqlite.{Pending, Flusher, Arrivals, flush}
use cairnq.Sqlite.Turn.{IsTurn, flush-IsTurn}
use cairnq.Sqlite.Retry.{Env, Clocked, Returns, busy_deadline, with_lock, with_lock-Returns}
use cairnq.Sqlite.Loop.{Shared, flush_once, flush_loop}
use cairnq.Sqlite.Loop.Settles.{IsSettled, flush_loop-IsSettled}
use cairnq.Sqlite.Transaction.{transaction, IsAtomic, transaction-IsAtomic}

-- A database of one number, a transaction's view of it, and the BEGINs that will be refused.
record Conn : Type 0 where
  db : ℕ
  view : Option ℕ
  refusals : ℕ

abbrev busy : Exc
busy = record { operational = true; errorname = some sqlite_busy; message = [] }

abbrev constraint : Exc
constraint = record { operational = false; errorname = none; message = [] }

abbrev begin_conn : ℕ → Conn → Conn × Option Exc
begin_conn zero c = (record { db = c.db; view = some c.db; refusals = 0 }, none)
begin_conn (suc n) c = (record { db = c.db; view = c.view; refusals = n }, some busy)

-- A statement adds its number and gives the old one; 0 breaks a constraint.
abbrev run_conn : Option ℕ → ℕ → Conn → Conn × Reply ℕ
run_conn v zero c = (c, raised constraint)
run_conn none (suc n) c =
    (record { db = c.db + suc n; view = none; refusals = c.refusals }, rows c.db)
run_conn (some v) (suc n) c =
    (record { db = c.db; view = some (v + suc n); refusals = c.refusals }, rows v)

abbrev adder : Driver Conn ℕ ℕ
adder = record {
  begin = λ c. begin_conn c.refusals c;
  execute = λ q c. run_conn c.view q c;
  commit = λ c. (record { db = get_or c.view c.db; view = none; refusals = c.refusals }, none);
  rollback = λ c. record { db = c.db; view = none; refusals = c.refusals };
  in_transaction = λ c. is_some c.view;
}

abbrev add : ℕ → ℕ → ℕ × ℕ
add q s = (s + q, s)

begin_opens :
    (n : ℕ) (c : Conn)
    → (begin_conn n c).1 ≡ none
    → (is_some (begin_conn n c).0.view ≡ true)
      × (get_or (begin_conn n c).0.view (begin_conn n c).0.db ≡ c.db)
begin_opens zero c h = (refl, refl)
begin_opens (suc n) c h = cc

begin_fails :
    (n : ℕ) (c : Conn) (e : Exc)
    → (begin_conn n c).1 ≡ some e
    → is_some (begin_conn n c).0.view ≡ is_some c.view
begin_fails zero c e h = cc
begin_fails (suc n) c e h = refl

begin_durable : (n : ℕ) (c : Conn) → (begin_conn n c).0.db ≡ c.db
begin_durable zero c = refl
begin_durable (suc n) c = refl

abbrev answer : Reply ℕ → ℕ
answer (rows a) = a
answer (raised x) = 0

abbrev RunsInside : Option ℕ → Conn → Conn × Reply ℕ → ℕ → Type 0
RunsInside v c out q =
    (r : ℕ)
    → is_some v ≡ true
    → out.1 ≡ rows r
    → (is_some out.0.view ≡ true) × (add q (get_or v c.db) ≡ (get_or out.0.view out.0.db, r))

inside_rows : (v : Option ℕ) (q : ℕ) (c : Conn) → RunsInside v c (run_conn v q c) q
inside_rows none q c r h e = cc
inside_rows (some v) zero c r h e = cc
inside_rows (some v) (suc n) c r h e = (refl, ap (λ a. (v + suc n, answer a)) e)

inside_raised :
    (v : Option ℕ) (q : ℕ) (c : Conn) (e : Exc)
    → v ≡ c.view
    → is_some v ≡ true
    → (run_conn v q c).1 ≡ raised e
    → get_or (run_conn v q c).0.view (run_conn v q c).0.db ≡ get_or v c.db
inside_raised none q c e same h k = cc
inside_raised (some v) zero c e same h k = ap (λ o. get_or o c.db) (sym same)
inside_raised (some v) (suc n) c e same h k = cc

inside_durable : (v : Option ℕ) (q : ℕ) (c : Conn) → is_some v ≡ true → (run_conn v q c).0.db ≡ c.db
inside_durable none q c h = cc
inside_durable (some v) zero c h = refl
inside_durable (some v) (suc n) c h = refl

alone_rows :
    (v : Option ℕ) (q : ℕ) (c : Conn) (r : ℕ)
    → is_some v ≡ false
    → (run_conn v q c).1 ≡ rows r
    → add q c.db ≡ ((run_conn v q c).0.db, r)
alone_rows none zero c r h e = cc
alone_rows none (suc n) c r h e = ap (λ a. (c.db + suc n, answer a)) e
alone_rows (some v) q c r h e = cc

alone_raised :
    (v : Option ℕ) (q : ℕ) (c : Conn) (e : Exc)
    → is_some v ≡ false
    → (run_conn v q c).1 ≡ raised e
    → (run_conn v q c).0.db ≡ c.db
alone_raised none zero c e h k = refl
alone_raised none (suc n) c e h k = cc
alone_raised (some v) q c e h k = cc

alone_outside :
    (v : Option ℕ) (q : ℕ) (c : Conn)
    → v ≡ c.view
    → is_some v ≡ false
    → is_some (run_conn v q c).0.view ≡ false
alone_outside none zero c same h = ap (λ o. is_some o) (sym same)
alone_outside none (suc n) c same h = refl
alone_outside (some v) q c same h = cc

abbrev adder-IsSqlite : IsSqlite ℕ adder add
adder-IsSqlite = record {
  durable = λ c. c.db;
  working = λ c. get_or c.view c.db;
  begin_opens = λ c h. begin_opens c.refusals c h;
  begin_fails = λ c e h. begin_fails c.refusals c e h;
  begin_durable = λ c. begin_durable c.refusals c;
  inside_rows = λ c q r h e. inside_rows c.view q c r h e;
  inside_raised = λ c q e h k live. inside_raised c.view q c e refl h k;
  inside_durable = λ c q h. inside_durable c.view q c h;
  alone_rows = λ c q r h e. alone_rows c.view q c r h e;
  alone_raised = λ c q e h k. alone_raised c.view q c e h k;
  alone_outside = λ c q h. alone_outside c.view q c refl h;
  commit_lands = λ c h. (refl, refl);
  commit_fails = λ c e h. cc;
  rollback_ends = λ c. refl;
  rollback_durable = λ c. refl;
}

abbrev write : ℕ → ℕ → Pending ℕ
write id q = record { id = id; query = q }

-- Three writes wait, the second of which breaks the constraint, and one BEGIN will be refused.
abbrev waiting : Flusher Conn ℕ ℕ
waiting = record {
  conn = record { db = 10; view = none; refusals = 1 };
  pending = write 1 5 ∷ write 2 0 ∷ write 3 7 ∷ [];
  futures = [];
}

abbrev arriving : Arrivals ℕ
arriving = record { before = write 4 1 ∷ []; during = write 5 2 ∷ [] }

abbrev env : Env
env = record { took = λ n. 200; jitter = λ n. 100 }

abbrev start : Clocked (Shared adder)
start = record { state = (waiting, arriving ∷ []); held = false; clock = 0; attempts = 0 }

abbrev idle : Clocked Conn
idle = record { state = waiting.conn; held = false; clock = 0; attempts = 0 }

flush_test : (flush adder waiting arriving).1 ≡ some busy
unfolding flush
flush_test = refl

flush-IsTurn_example :
    IsTurn adder add adder-IsSqlite waiting arriving (flush adder waiting arriving)
flush-IsTurn_example = flush-IsTurn adder add adder-IsSqlite waiting arriving refl

flush_loop-IsSettled_example :
    IsSettled adder add adder-IsSqlite (waiting, arriving ∷ []) (flush_loop adder env 5 11 3 start)
flush_loop-IsSettled_example =
    flush_loop-IsSettled adder add adder-IsSqlite env 5 11 3 start (omega arith) (omega arith) refl

with_lock-Returns_example :
    Returns (busy_deadline 5 start) (with_lock env 5 (flush_once adder) 11 start)
with_lock-Returns_example = with_lock-Returns env 5 (flush_once adder) 11 start (omega arith)

-- Two statements, as a keyed submit has.
abbrev block : Conn → Conn × Reply ℕ
block c = run_conn (run_conn c.view 4 c).0.view 6 (run_conn c.view 4 c).0

block_durable :
    (v : Option ℕ) (c : Conn)
    → v ≡ c.view
    → is_some v ≡ true
    → (run_conn (run_conn v 4 c).0.view 6 (run_conn v 4 c).0).0.db ≡ c.db
block_durable none c same h = cc
block_durable (some v) c same h = refl

transaction-IsAtomic_example :
    (out : Clocked Conn × Reply ℕ) × (transaction adder env 5 block 11 idle ≡ some out)
    × IsAtomic adder add adder-IsSqlite env block (λ c h. block_durable c.view c refl h) 10 out
transaction-IsAtomic_example =
    transaction-IsAtomic adder add adder-IsSqlite env block (λ c h. block_durable c.view c refl h) 5
      11 idle (omega arith) refl refl
