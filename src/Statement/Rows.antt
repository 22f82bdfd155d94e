-- ===== src/Statement/Rows.antt =====
-- What holds of one row of cairnq_tasks, and that each row update keeps it.
use cairnq.Prelude.{ℕ, ◌<◌, Bool, true, ◌≡◌, ◌≢◌, Option, none, Text, Json, arith, is_some, List}
use cairnq.Models.{queued, running, Progress, Task, is_terminal, status_eq}
use cairnq.Rows.{
  NewTask, new_row, cancelable, cancel_row, retry_row, owned, heartbeat_row, owned_among,
  progress_row, succeed_row, complete_row, fail_row, lease_expired, recover_row, claim_row,
}

-- A running row has an owner, a lease and an attempt; no other row has a lease; a row is complete
-- when its status is terminal; a queued row carries nothing of an earlier attempt.
pub record IsValidRow (t : Task) : Type 0 where
  pub owned_when_running : t.status ≡ running → is_some t.worker_id ≡ true
  pub leased_when_running : t.status ≡ running → is_some t.lease_until_ms ≡ true
  pub attempted_when_running : t.status ≡ running → 0 < t.attempt
  pub unleased_otherwise : t.status ≢ running → t.lease_until_ms ≡ none
  pub complete_when_terminal : is_some t.completed_at_ms ≡ is_terminal t
  pub fresh_worker : t.status ≡ queued → t.worker_id ≡ none
  pub fresh_cancel : t.status ≡ queued → t.cancel_requested_at_ms ≡ none
  pub fresh_progress : t.status ≡ queued → t.progress ≡ none
  pub fresh_message : t.status ≡ queued → t.message ≡ none

pub new_row-IsValidRow : (now : ℕ) (n : NewTask) → IsValidRow (new_row now n)
unfolding new_row
new_row-IsValidRow now n = ground arith

module _ (now : ℕ) (t : Task) (h : IsValidRow t) where
  pub cancel_row-IsValidRow : (id : Text) → cancelable id t ≡ true → IsValidRow (cancel_row now t)
  unfolding cancelable cancel_row
  cancel_row-IsValidRow id p = ground arith

  pub retry_row-IsValidRow : (reset_attempt : Bool) → IsValidRow (retry_row now reset_attempt t)
  unfolding retry_row
  retry_row-IsValidRow reset_attempt = ground arith

  pub recover_row-IsValidRow :
      (error : Json) → lease_expired now t ≡ true → IsValidRow (recover_row now error t)
  unfolding lease_expired recover_row
  recover_row-IsValidRow error p = ground arith

  pub claim_row-IsValidRow :
      (worker : Text) (lease_ms : ℕ)
      → status_eq t.status queued ≡ true
      → IsValidRow (claim_row now worker lease_ms t)
  unfolding claim_row
  claim_row-IsValidRow worker lease_ms p = ground arith

  pub heartbeat_among-IsValidRow :
      (worker : Text) (task_ids : List Text) (lease_ms : ℕ)
      → owned_among now worker task_ids t ≡ true
      → IsValidRow (heartbeat_row now lease_ms t)
  unfolding owned_among heartbeat_row
  heartbeat_among-IsValidRow worker task_ids lease_ms p = ground arith

module _ (now : ℕ) (worker id : Text) (t : Task) (h : IsValidRow t)
    (p : owned now worker id t ≡ true) where
  pub heartbeat_row-IsValidRow : (lease_ms : ℕ) → IsValidRow (heartbeat_row now lease_ms t)
  unfolding owned heartbeat_row
  heartbeat_row-IsValidRow lease_ms = ground arith

  pub progress_row-IsValidRow :
      (value : Option Progress) (message : Option Text)
      → IsValidRow (progress_row now value message t)
  unfolding owned progress_row
  progress_row-IsValidRow value message = ground arith

  pub succeed_row-IsValidRow :
      (result : Option Json) (message : Option Text) → IsValidRow (succeed_row now result message t)
  unfolding owned succeed_row
  succeed_row-IsValidRow result message = ground arith

  pub complete_row-IsValidRow : (result : Option Json) → IsValidRow (complete_row now result t)
  unfolding owned complete_row
  complete_row-IsValidRow result = ground arith

  pub fail_row-IsValidRow :
      (error : Json) (retryable : Bool) (delay_ms : ℕ)
      → IsValidRow (fail_row now error retryable delay_ms t)
  unfolding owned fail_row
  fail_row-IsValidRow error retryable delay_ms = ground arith
