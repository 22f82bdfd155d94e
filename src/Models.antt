-- ===== src/Models.antt =====
-- cairnq-py/cairnq/models.py and the table of cairnq-protocol/migrations/sqlite/0001_init.sql: a
-- task's status, its row, and the reference that a wait loop polls.
use cairnq.Prelude.{ℕ, Bool, true, false, Option, Text, Json, is_some}
use cairnq.Prelude.Int.{ℤ}

pub data Status : Type 0 where
  queued running succeeded failed canceled : Status

abbrev pub is_terminal_status : Status → Bool
is_terminal_status queued = false
is_terminal_status running = false
is_terminal_status succeeded = true
is_terminal_status failed = true
is_terminal_status canceled = true

-- Equality of statuses, as SQL's `status = 'queued'`.
abbrev pub status_eq : Status → Status → Bool
status_eq queued queued = true
status_eq running running = true
status_eq succeeded succeeded = true
status_eq failed failed = true
status_eq canceled canceled = true
status_eq _ _ = false

-- A fraction done. The code itself writes `1.0` and passes on what a handler reports.
pub data Progress : Type 0 where
  full : Progress
  reported : ℕ → Progress

pub record Task : Type 0 where
  pub id : Text
  pub name : Text
  pub queue : Text
  pub status : Status
  pub payload : Json
  pub metadata : Json
  pub result : Option Json
  pub error : Option Json
  pub progress : Option Progress
  pub message : Option Text
  pub attempt : ℕ
  pub max_attempts : ℕ
  pub priority : ℤ
  pub worker_id : Option Text
  pub lease_until_ms : Option ℕ
  pub run_at_ms : ℕ
  pub cancel_requested_at_ms : Option ℕ
  pub parent_id : Option Text
  pub root_id : Option Text
  pub correlation_id : Option Text
  pub created_at_ms : ℕ
  pub updated_at_ms : ℕ
  pub completed_at_ms : Option ℕ

abbrev pub is_terminal : Task → Bool
is_terminal t = is_terminal_status t.status

abbrev pub cancel_requested : Task → Bool
cancel_requested t = is_some t.cancel_requested_at_ms

abbrev pub is_status : Task → Status → Bool
is_status t s = status_eq t.status s

pub record TaskRef : Type 0 where
  pub id : Text
  pub status : Status

abbrev pub to_ref : Task → TaskRef
to_ref t = record { id = t.id; status = t.status }

abbrev pub ref_is_terminal : TaskRef → Bool
ref_is_terminal r = is_terminal_status r.status
