-- ===== src/Scenario.antt =====
-- A small database for the tests: a task that waits, one that a worker holds, one that succeeded.
use cairnq.Prelude.{refl, none, some, [], ◌∷◌, arith}
use cairnq.Prelude.Int.{pos}
use cairnq.Models.{queued, running, succeeded, Task}
use cairnq.Errors.{Codec}
use cairnq.Rows.{NewTask}
use cairnq.Db.{Db}
use cairnq.Statement.Rows.{IsValidRow}
use cairnq.Statement.Valid.{IsValid}

-- Task 1, queued on queue 10 under the name 20.
abbrev pub waiting : Task
waiting = record {
  id = 1;
  name = 20;
  queue = 10;
  status = queued;
  payload = 0;
  metadata = 0;
  result = none;
  error = none;
  progress = none;
  message = none;
  attempt = 0;
  max_attempts = 3;
  priority = pos 0;
  worker_id = none;
  lease_until_ms = none;
  run_at_ms = 5;
  cancel_requested_at_ms = none;
  parent_id = none;
  root_id = some 1;
  correlation_id = none;
  created_at_ms = 5;
  updated_at_ms = 5;
  completed_at_ms = none;
}

-- Task 2, which worker 7 holds until 100.
abbrev pub held : Task
held = record waiting {
  id = 2;
  status = running;
  attempt = 1;
  worker_id = some 7;
  lease_until_ms = some 100;
}

-- Task 3, which succeeded at 40.
abbrev pub over : Task
over = record waiting {
  id = 3;
  status = succeeded;
  attempt = 1;
  worker_id = some 7;
  result = some 0;
  completed_at_ms = some 40;
}

-- Key 50 points at task 1 and key 51 at task 3.
abbrev pub shop : Db
shop = record { tasks = waiting ∷ held ∷ over ∷ []; keys = (50, 1) ∷ (51, 3) ∷ [] }

waiting-IsValidRow : IsValidRow waiting
waiting-IsValidRow = ground arith

held-IsValidRow : IsValidRow held
held-IsValidRow = ground arith

over-IsValidRow : IsValidRow over
over-IsValidRow = ground arith

pub shop-IsValid : IsValid shop
shop-IsValid = record {
  rows = (waiting-IsValidRow, (held-IsValidRow, (over-IsValidRow, tt)));
  unique = (refl, (refl, (refl, tt)));
  single = (refl, (refl, tt));
  pointed = (refl, (refl, tt));
}

-- A submit's row with the id 4.
abbrev pub fourth : NewTask
fourth = record {
  id = 4;
  name = 20;
  queue = 10;
  payload = 0;
  metadata = 0;
  max_attempts = 3;
  priority = pos 0;
  delay_ms = 0;
  parent_id = none;
  root_id = 4;
  correlation_id = none;
}

-- An encoder that takes every value.
abbrev pub plain_codec : Codec
plain_codec = record { encode = λ v. some v; encode_envelope = λ e. some 9 }
