-- ===== src/Wait.antt =====
-- The polling behind `wait` and `call` (cairnq-py/cairnq/_wait.py and client.py). A beat of the loop
-- is a probe, the clock and, where the code reads it, the whole row; the beats are functions of their
-- number, so that the other processes may do anything in between.
pub mod Polling
mod Examples
use cairnq.Prelude.{
  ℕ, zero, suc, ◌+◌, ◌-◌, ◌*◌, ◌/◌, min, max, Bool, true, false, ◌&&◌, ◌||◌, Option, none, some,
  List, [], ◌∷◌, Text, Json, leb, is_some, if◌then◌else◌, get_or,
}
use cairnq.Models.{
  Task, TaskRef, Status, succeeded, failed, is_terminal, ref_is_terminal, is_status,
}
use cairnq.Errors.{Result, ok, raise, Error, task_timeout, task_failed, task_canceled}

-- `int(current * 1.5)`, which is exact for every interval in use.
unfoldable pub next_poll_ms : ℕ → ℕ → ℕ
next_poll_ms current max_ms = min max_ms (max (current + 1) (current * 3 / 2))

pub record Beats : Type 0 where
  pub probe : ℕ → Option TaskRef
  pub clock : ℕ → ℕ
  pub read : ℕ → Option Task

-- `ref is not None and (ref.is_terminal or remaining <= 0)`
abbrev pub wants_row : Option TaskRef → Bool → Bool
wants_row none late = false
wants_row (some ref) late = ref_is_terminal ref || late

-- The row that a beat has read.
unfoldable pub beat_row : Beats → ℕ → ℕ → Option Task
beat_row b deadline i = if wants_row (b.probe i) (leb deadline (b.clock i)) then b.read i else none

abbrev pub done : Option Task → Bool
done none = false
done (some t) = is_terminal t

-- `TaskTimeout(ref.id if ref is not None else subject, …, task=task, key=key)`
abbrev pub timeout_error : Text → Option Text → Option TaskRef → Option Task → Error
timeout_error subject key none task = task_timeout subject task key
timeout_error subject key (some ref) task = task_timeout ref.id task key

-- What a beat decides: a result, or none to sleep on.
unfoldable pub beat : Text → Option Text → Beats → ℕ → ℕ → Option (Result Task)
unfolding beat_row
beat subject key b deadline i = elim (beat_row b deadline i) [
  | none ↦
      if leb deadline (b.clock i)
      then some (raise (timeout_error subject key (b.probe i) none))
      else none
  | some t ↦
      if is_terminal t
      then some (ok t)
      else if leb deadline (b.clock i)
      then some (raise (timeout_error subject key (b.probe i) (some t)))
      else none
]

-- The loop of `_poll`, from beat `i` on: the sleeps, and the result unless the fuel ran out.
unfoldable pub poll_loop :
    Text → Option Text → Beats → ℕ → ℕ → ℕ → ℕ → ℕ → List ℕ × Option (Result Task)
unfolding beat next_poll_ms
poll_loop subject key b deadline max_poll_ms zero i interval = ([], none)
poll_loop subject key b deadline max_poll_ms (suc fuel) i interval =
    let rest =
      poll_loop subject key b deadline max_poll_ms fuel (suc i)
        (next_poll_ms interval max_poll_ms) in
    elim (beat subject key b deadline i) [
      | some r ↦ ([], some r)
      | none ↦ (min interval (deadline - b.clock i) ∷ rest.0, rest.1)
    ]

-- `_poll`, begun at `start`; `poll_wait` and `poll_wait_by_key` are its uses with no key and with one.
unfoldable pub poll : Text → Option Text → Beats → ℕ → ℕ → ℕ → ℕ → ℕ → List ℕ × Option (Result Task)
unfolding poll_loop
poll subject key b start timeout_ms poll_ms max_poll_ms fuel =
    poll_loop subject key b (start + timeout_ms) max_poll_ms fuel 0 poll_ms

-- The end of `CairnQ.call`: the result of the final row, or the error for its status.
unfoldable pub call_result : Task → Result (Option Json)
call_result final =
    if is_status final succeeded
    then ok final.result
    else if is_status final failed
    then raise (task_failed final.error)
    else raise (task_canceled final.id)
