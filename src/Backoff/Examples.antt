-- ===== src/Backoff/Examples.antt =====
-- Runs of the retry delay.
use cairnq.Prelude.{ℕ, ◌/◌, ◌≤◌, ◌<◌, ◌≡◌, refl, arith}
use cairnq.Backoff.{window, retry_delay_ms}
use cairnq.Backoff.Bounds.{IsScale, retry_delay_ms_bounds}

-- `rand` that returns one half.
abbrev half : ℕ → ℕ
half k = k / 2

half-IsScale : IsScale half
half-IsScale = record { below = λ k h. omega arith }

third_attempt : retry_delay_ms half 3 1000 30000 ≡ 3000
unfolding retry_delay_ms window
third_attempt = refl

retry_delay_ms_bounds_example :
    (window 3 1000 30000 / 2 ≤ retry_delay_ms half 3 1000 30000)
    × (retry_delay_ms half 3 1000 30000 < window 3 1000 30000)
retry_delay_ms_bounds_example =
    retry_delay_ms_bounds half 3 1000 30000 half-IsScale (omega arith) (omega arith)
