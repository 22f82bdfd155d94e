-- ===== src/Backoff.antt =====
-- cairnq-py/cairnq/_backoff.py: the delay before a failed task runs again. `scale k` stands for
-- Python's `int(rand() * k)`. The configured milliseconds are natural numbers, so `base_ms <= 0` is
-- the test for zero.
pub mod Bounds
mod Examples
use cairnq.Prelude.{ℕ, ◌+◌, ◌-◌, ◌*◌, ◌/◌, ◌^◌, min, Bool, not, leb, if◌then◌else◌}

abbrev pub default_retry_backoff_ms : ℕ
default_retry_backoff_ms = 1000

abbrev pub default_retry_backoff_max_ms : ℕ
default_retry_backoff_max_ms = 30000

-- `min(max_ms, base_ms * 2 ** max(0, attempt - 1))`
unfoldable pub window : ℕ → ℕ → ℕ → ℕ
window attempt base_ms max_ms = min max_ms (base_ms * 2 ^ (attempt - 1))

unfoldable pub retry_delay_ms : (ℕ → ℕ) → ℕ → ℕ → ℕ → ℕ
retry_delay_ms scale attempt base_ms max_ms =
    if leb base_ms 0
    then 0
    else let w = window attempt base_ms max_ms in let floor = w / 2 in floor + scale (w - floor)

unfoldable pub fail_delay_ms : (ℕ → ℕ) → ℕ → Bool → ℕ → ℕ → ℕ
fail_delay_ms scale attempt retryable base_ms max_ms =
    if not retryable then 0 else retry_delay_ms scale attempt base_ms max_ms
