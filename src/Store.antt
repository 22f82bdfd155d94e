-- ===== src/Store.antt =====
-- cairnq-py/cairnq/store/base.py: the protocol decisions of TaskStore over the statements of the
-- database. Each operation is a function of the time at which its statements run; an operation that
-- raises returns the error beside the database.
pub mod Submit
pub mod Owned
pub mod Session
pub mod Reads
