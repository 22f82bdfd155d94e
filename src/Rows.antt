-- ===== src/Rows.antt =====
-- The row updates of the protocol's statements (cairnq-protocol/sql/sqlite/*.sql): for each, its
-- WHERE clause as a test of a row, and its SET clause as a function of the row.
use cairnq.Prelude.{
  ℕ, ◌+◌, Bool, true, ◌&&◌, ◌||◌, Option, none, some, List, Text, Json, ltb, leb, ◌==◌,
  if◌then◌else◌, elem, is_none, is_some, eq_some, gt_some, le_some, lt_some, filter_eq,
}
use cairnq.Prelude.Int.{ℤ}
use cairnq.Models.{
  Status, queued, running, succeeded, failed, canceled, Progress, full, Task, status_eq,
  is_terminal_status,
}

-- The parameters of insert_task.sql; `run_at_ms` is bound from the delay.
pub record NewTask : Type 0 where
  pub id : Text
  pub name : Text
  pub queue : Text
  pub payload : Json
  pub metadata : Json
  pub max_attempts : ℕ
  pub priority : ℤ
  pub delay_ms : ℕ
  pub parent_id : Option Text
  pub root_id : Text
  pub correlation_id : Option Text

-- insert_task.sql, the columns it leaves out taking the table's defaults.
unfoldable pub new_row : ℕ → NewTask → Task
new_row now n = record {
  id = n.id;
  name = n.name;
  queue = n.queue;
  status = queued;
  payload = n.payload;
  metadata = n.metadata;
  result = none;
  error = none;
  progress = none;
  message = none;
  attempt = 0;
  max_attempts = n.max_attempts;
  priority = n.priority;
  worker_id = none;
  lease_until_ms = none;
  run_at_ms = now + n.delay_ms;
  cancel_requested_at_ms = none;
  parent_id = n.parent_id;
  root_id = some n.root_id;
  correlation_id = n.correlation_id;
  created_at_ms = now;
  updated_at_ms = now;
  completed_at_ms = none;
}

-- cancel.sql
unfoldable pub cancelable : Text → Task → Bool
cancelable id t = t.id == id && (status_eq t.status queued || status_eq t.status running)

unfoldable pub cancel_row : ℕ → Task → Task
cancel_row now t = record t {
  status = if status_eq t.status queued then canceled else t.status;
  cancel_requested_at_ms =
      if status_eq t.status running then some now else t.cancel_requested_at_ms;
  completed_at_ms = if status_eq t.status queued then some now else t.completed_at_ms;
  updated_at_ms = now;
}

-- retry.sql
unfoldable pub retryable_row : Text → Task → Bool
retryable_row id t = t.id == id && (status_eq t.status failed || status_eq t.status canceled)

unfoldable pub retry_row : ℕ → Bool → Task → Task
retry_row now reset_attempt t = record t {
  status = queued;
  error = none;
  worker_id = none;
  lease_until_ms = none;
  run_at_ms = now;
  cancel_requested_at_ms = none;
  completed_at_ms = none;
  progress = none;
  message = none;
  attempt = if reset_attempt then 0 else t.attempt;
  updated_at_ms = now;
}

-- The WHERE clause that the owned writes share.
unfoldable pub owned : ℕ → Text → Text → Task → Bool
owned now worker id t =
    t.id == id
    && (status_eq t.status running && (eq_some t.worker_id worker && gt_some t.lease_until_ms now))

-- heartbeat.sql; heartbeat_batch.sql has the list of ids in place of the id.
unfoldable pub heartbeat_row : ℕ → ℕ → Task → Task
heartbeat_row now lease_ms t = record t {
  lease_until_ms = some (now + lease_ms);
  updated_at_ms = now;
}

unfoldable pub owned_among : ℕ → Text → List Text → Task → Bool
owned_among now worker ids t =
    elem t.id ids
    && (status_eq t.status running && (eq_some t.worker_id worker && gt_some t.lease_until_ms now))

-- SQL's `coalesce(:p, col)`.
abbrev coalesce {ℓ} : {A : Type ℓ} → Option A → Option A → Option A
coalesce none col = col
coalesce (some p) col = some p

-- progress.sql
unfoldable pub progress_row : ℕ → Option Progress → Option Text → Task → Task
progress_row now progress message t = record t {
  progress = coalesce progress t.progress;
  message = coalesce message t.message;
  updated_at_ms = now;
}

-- succeed.sql
unfoldable pub succeed_row : ℕ → Option Json → Option Text → Task → Task
succeed_row now result message t = record t {
  status = succeeded;
  result = result;
  progress = some full;
  message = coalesce message t.message;
  lease_until_ms = none;
  completed_at_ms = some now;
  updated_at_ms = now;
}

-- complete.sql
unfoldable pub complete_row : ℕ → Option Json → Task → Task
complete_row now result t =
    let cancel = is_some t.cancel_requested_at_ms in
    record t {
      status = if cancel then canceled else succeeded;
      result = if cancel then t.result else result;
      progress = if cancel then t.progress else some full;
      lease_until_ms = none;
      completed_at_ms = some now;
      updated_at_ms = now;
    }

-- fail.sql
unfoldable pub fail_row : ℕ → Json → Bool → ℕ → Task → Task
fail_row now error retryable delay_ms t =
    let cancel = is_some t.cancel_requested_at_ms in
    let again = retryable && ltb t.attempt t.max_attempts in
    let requeue = is_none t.cancel_requested_at_ms && again in
    record t {
      status = if cancel then canceled else if again then queued else failed;
      error = some error;
      worker_id = if requeue then none else t.worker_id;
      lease_until_ms = none;
      run_at_ms = if requeue then now + delay_ms else t.run_at_ms;
      completed_at_ms = if requeue then none else some now;
      progress = if requeue then none else t.progress;
      message = if requeue then none else t.message;
      updated_at_ms = now;
    }

-- recover_leases.sql
unfoldable pub lease_expired : ℕ → Task → Bool
lease_expired now t = status_eq t.status running && le_some t.lease_until_ms now

unfoldable pub recover_row : ℕ → Json → Task → Task
recover_row now lease_expired_error t =
    let cancel = is_some t.cancel_requested_at_ms in
    let again = ltb t.attempt t.max_attempts in
    let requeue = is_none t.cancel_requested_at_ms && again in
    record t {
      status = if cancel then canceled else if again then queued else failed;
      worker_id = if requeue then none else t.worker_id;
      lease_until_ms = none;
      run_at_ms = if requeue then now else t.run_at_ms;
      error =
          if is_none t.cancel_requested_at_ms && leb t.max_attempts t.attempt
          then some lease_expired_error
          else t.error;
      completed_at_ms = if requeue then t.completed_at_ms else some now;
      progress = if requeue then none else t.progress;
      message = if requeue then none else t.message;
      updated_at_ms = now;
    }

-- The SET clause of claim.sql and its variants.
unfoldable pub claim_row : ℕ → Text → ℕ → Task → Task
claim_row now worker lease_ms t = record t {
  status = running;
  worker_id = some worker;
  lease_until_ms = some (now + lease_ms);
  attempt = t.attempt + 1;
  updated_at_ms = now;
}

-- The WHERE clause of purge.sql; `before_ms` is bound as `now - older_than_ms`, and completion times
-- are natural numbers, so a negative bound matches nothing, as 0 does.
unfoldable pub purgeable : ℕ → Option Text → Option Status → Option Text → Task → Bool
purgeable before_ms queue status name t =
    is_terminal_status t.status
    && (filter_eq queue t.queue
        && (elim status [ none ↦ true | some s ↦ status_eq t.status s ]
            && (filter_eq name t.name && lt_some t.completed_at_ms before_ms)))
