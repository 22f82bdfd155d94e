-- ===== src/Backoff/Bounds.antt =====
-- Bounds on the retry delay of cairnq-py/cairnq/_backoff.py.
use cairnq.Prelude.{
  ℕ, zero, suc, ◌-◌, ◌*◌, ◌/◌, ◌^◌, ◌≤◌, ◌<◌, min, ◌≡◌, refl, ap, Bool, false, arith,
}
use native.Mathlib.Nat.{pow-suc}
use cairnq.Backoff.{window, retry_delay_ms, fail_delay_ms}

-- `random.random()` lies in [0, 1), so `int(rand() * k)` lies below `k`.
pub record IsScale (scale : ℕ → ℕ) : Type 0 where
  pub below : (k : ℕ) → 0 < k → scale k < k

pow_pos : (n : ℕ) → 0 < 2 ^ n
pow_pos zero = omega arith
pow_pos (suc n) = omega (arith, pow_pos n, pow-suc 2 n)

mul_pos : (b p : ℕ) → 0 < b → 0 < p → 0 < b * p
mul_pos b p h k = grind arith

window_pos : (attempt base max_ms : ℕ) → 0 < base → 0 < max_ms → 0 < window attempt base max_ms
unfolding window
window_pos attempt base max_ms h k =
    omega (arith, mul_pos base (2 ^ (attempt - 1)) h (pow_pos (attempt - 1)))

-- With a positive base and ceiling, the delay lies in the upper half of the attempt's window, from
-- half of it up to but excluding the whole, whatever the jitter draws.
pub retry_delay_ms_bounds :
    (scale : ℕ → ℕ) (attempt base max_ms : ℕ)
    → IsScale scale
    → 0 < base
    → 0 < max_ms
    → (window attempt base max_ms / 2 ≤ retry_delay_ms scale attempt base max_ms)
      × (retry_delay_ms scale attempt base max_ms < window attempt base max_ms)
unfolding retry_delay_ms
retry_delay_ms_bounds scale attempt base max_ms s h k =
    let w = window attempt base max_ms in
    ground (arith, window_pos attempt base max_ms h k, s.below (w - w / 2))

doubled : (base n : ℕ) → base * 2 ^ suc n ≡ 2 * (base * 2 ^ n)
doubled base n = rw (pow-suc 2 n) (omega arith)

mul_one : (base : ℕ) → base * 2 ^ 0 ≡ base
mul_one base = omega arith

pred_suc : (n : ℕ) → suc n - 1 ≡ n
pred_suc n = omega arith

-- The window of the next attempt is twice this one, up to the ceiling: the first attempt's window is
-- the base, and no window passes the ceiling.
pub window-suc :
    (attempt base max_ms : ℕ)
    → (window 1 base max_ms ≡ min max_ms base)
      × (window (suc (suc attempt)) base max_ms ≡ min max_ms (2 * window (suc attempt) base max_ms))
unfolding window
window-suc attempt base max_ms = (
  rw (mul_one base) refl,
  omega (
    arith,
    doubled base attempt,
    ap (λ e. base * 2 ^ e) (pred_suc (suc attempt)),
    ap (λ e. base * 2 ^ e) (pred_suc attempt),
  ),
)

-- A permanent failure is delayed by nothing; a retryable one by less than the ceiling, whatever the
-- attempt.
pub fail_delay_ms-lt :
    (scale : ℕ → ℕ) (attempt : ℕ) (retryable : Bool) (base max_ms : ℕ)
    → IsScale scale
    → 0 < max_ms
    → (fail_delay_ms scale attempt false base max_ms ≡ 0)
      × (fail_delay_ms scale attempt retryable base max_ms < max_ms)
unfolding fail_delay_ms retry_delay_ms window
fail_delay_ms-lt scale attempt retryable base max_ms s k =
    let w = window attempt base max_ms in
    (ground arith, ground (arith, window_pos attempt base max_ms, s.below (w - w / 2)))
