-- ===== src/Lib.antt =====
-- CairnQ, a durable task queue over one SQL database: producers submit tasks, workers claim them under
-- leases and settle them, and a key points at the task that is current under it.
--
-- The parts and how they interact. The protocol (cairnq-protocol) is a set of SQL statements over two
-- tables; the Python SDK (cairnq-py/cairnq) is a store that runs them, a worker and its task context,
-- and a client. Nothing but a statement changes the tables, so that the statements carry the invariant
-- and the SDK's operations are compositions of statements.
--
--   Prelude     the names that all files share: numbers, tests, list lemmas, integers, sorting
--   Models      models.py and the columns of migrations/sqlite/0001_init.sql: statuses, rows
--   Errors      errors.py: the errors as values, the envelope, as_envelope, results
--   Backoff     _backoff.py: the delay before a retry; Bounds has its range
--   Rows        what each statement of sql/sqlite does to one row, and the rows it selects
--   Table       lists of rows under WHERE clauses, unique ids, a subquery with a limit
--   Due         the ORDER BY clauses of claim, purge and list
--   Db          the two tables and each statement as a function of them
--   Statement   the writes as one type with a step, run, and the histories Reach that steps make;
--               Valid is the invariant, Edges the life of a task, Exclusive the lease, Attempts the
--               attempt budget, Effect what a step does to one row
--   Store       store/base.py: Submit (submit, the key conflicts, cancel, retry), Owned (the worker's
--               writes, complete_in), Session (claim_session, claim), Reads (purge, list, queue_depth,
--               the status probes)
--   Sql         the named parameters of the SQL files: statement_params (store/base.py), and
--               positional_statement and to_positional (store/postgres.py)
--   Setup       what a connect checks and applies first: the schema check, the protocol version, and
--               the migrations of processes that start together (store/sqlite.py, store/postgres.py)
--   Driver      the calls of the SQLite connection and the laws that SQLite documents, and _is_busy
--   Sqlite      store/sqlite.py over such a driver: one turn of the group commit (_flush), and in its
--               children Retry (_busy_backoff, _with_lock), Loop (_flush_loop), Transaction (_begin,
--               _transaction), Lifecycle (connect, close)
--   Postgres    store/postgres.py: the wake channel, its listener and its notifications
--   Ids         _ids.py: new_ulid
--   Worker      worker.py: Registry (register, rebuild), Deliveries (_deliveries), Planner (plan,
--               acquire, release), Execution (_outcome_of, _succeed_one, _safe_fail, _settle_each, the
--               end of _run_call, a beat of _heartbeat_loop), Loop (run: polls, claims, dispatches,
--               settlements); Planner.Sources puts the planner, the registry and the store
--               together, and Loop the run with the claim session
--   Context     context.py: the gate in front of a handler's writes, and settlement
--   Wait        _wait.py: the polling behind wait; call_result is the end of client.py's call
--   Backpressure  backpressure.py: the gate of a producer; Market has several of them
--   Retention   retention.py: rules, validation, the sweep
--   Scenario    a small database for the witnesses, which stand in the modules named Examples
--
-- Modelling. A text that the code only compares is a number, the empty one 0, and so is a JSON
-- document; a statement takes the time as an argument; an operation that raises returns a result,
-- and a transaction that raises returns the database it began with. The JSON encoder is a parameter
-- (Codec), as is the random draw of the backoff, whose documented range is a hypothesis. Numbers
-- are unbounded, as in Python; SQLite's 64-bit columns hold milliseconds and counts far below their
-- range.
--
-- Fuel. The loop of _deliveries cuts a task at least per round, so the group's length is enough. The
-- wait loop takes a beat per unit, and ends at the first beat at the deadline; the gate's loop ends two
-- rounds after the wait is over; a sweep's batches each delete a row, so more fuel than rows is enough.
-- The SQLite retry sleeps at least half a millisecond per attempt, so twice the budget's milliseconds and
-- one more attempts are enough; the flusher's loop takes a turn per arrival of writes at most, and two
-- more.
--
-- Concurrency. Where several tasks of the event loop share an object, the code between two awaits
-- is one action, and the theorems are about every sequence of actions: Worker.Loop, Postgres,
-- Sqlite.Lifecycle, Setup.Migrations, Backpressure.Market. In Worker.Loop the plan of a claim,
-- which Worker.Planner has as one function that nothing disturbs, asks for a draw in one action and
-- reads its rows in another; a registration during a claim is excluded by a condition, since the
-- batch sizes of the draws would not be those of the calls then. What other tasks append to the
-- queue of writes during a turn of the group commit is an argument of the turn, and what a handler
-- does to its contexts during a beat is one of the beat.
--
-- Not modelled: the timers around a call, _idle, serve and background (worker.py), statistics, the WAL
-- switch and the binding of values (store/sqlite.py), the pool and the wire form of JSON
-- (store/pg_pool.py, store/pg_executor.py), the rewriting of optional filters (store/base.py), loading
-- of statements (_sql.py), the retention timer, the probe that concurrent submits of one process share
-- (backpressure.py), the TypeScript SDK (cairnq-node), tests and benchmarks: I/O against drivers and
-- timers of the event loop, or no logic of the program.
pub mod Backoff
pub mod Backpressure
pub mod Context
pub mod Db
pub mod Driver
pub mod Due
pub mod Errors
pub mod Ids
pub mod Models
pub mod Postgres
pub mod Prelude
pub mod Retention
pub mod Rows
pub mod Scenario
pub mod Setup
pub mod Sql
pub mod Sqlite
pub mod Statement
pub mod Store
pub mod Table
pub mod Wait
pub mod Worker
