-- ===== src/Wait/Polling.antt =====
-- A wait ends, at the first beat that can end it.
use cairnq.Prelude.{
  ℕ, zero, suc, ◌+◌, ◌≤◌, ◌<◌, max, true, ◌≡◌, Option, none, some, Text, arith, All, Option-cases,
  inl, inr,
}
use cairnq.Models.{Task, is_terminal}
use cairnq.Errors.{Result, ok, raise}
use cairnq.Wait.{next_poll_ms, Beats, beat, poll_loop, poll}

-- The interval grows, strictly below the ceiling, and never passes it.
pub next_poll_ms_grows :
    (current max_ms : ℕ)
    → (next_poll_ms current max_ms ≤ max_ms)
      × (current < max_ms → current < next_poll_ms current max_ms)
unfolding next_poll_ms
next_poll_ms_grows current max_ms = (omega arith, λ h. omega arith)

module _ (subject : Text) (key : Option Text) (b : Beats) (deadline : ℕ) where
  not_late : (i : ℕ) → beat subject key b deadline i ≡ none → b.clock i < deadline
  unfolding beat
  not_late i e = ground arith

  -- The beats from `i` on, `n` of them, decide nothing.
  abbrev pub IsQuiet : ℕ → ℕ → Type 0
  IsQuiet i zero = Unit {0}
  IsQuiet i (suc n) = (beat subject key b deadline i ≡ none) × IsQuiet (suc i) n

  -- What an answer of beat `i` is: a terminal row that the beat read, or an error at a time when the
  -- deadline had come.
  abbrev pub IsAnswer : ℕ → Result Task → Type 0
  IsAnswer i (ok t) = (is_terminal t ≡ true) × (b.read i ≡ some t)
  IsAnswer i (raise e) = deadline ≤ b.clock i

  abbrev pub IsSleep : ℕ → ℕ → Type 0
  IsSleep longest ms = (0 < ms) × (ms ≤ longest)

  poll_loop_sleeps :
      (longest max_poll_ms fuel i interval : ℕ)
      → 0 < max_poll_ms
      → max_poll_ms ≤ longest
      → IsSleep longest interval
      → All (IsSleep longest) (poll_loop subject key b deadline max_poll_ms fuel i interval).0
  unfolding poll_loop
  poll_loop_sleeps longest max_poll_ms zero i interval p h s = tt
  poll_loop_sleeps longest max_poll_ms (suc fuel) i interval p h s =
      elim (Option-cases (beat subject key b deadline i)) [
        | inr (r, e) ↦ rw (e, poll_loop) tt
        | inl e ↦
            let early : b.clock i < deadline = not_late i e in
            rw (e, poll_loop)
              (
                (omega arith, omega arith),
                poll_loop_sleeps longest max_poll_ms fuel (suc i)
                    (next_poll_ms interval max_poll_ms) p h
                    (unfold next_poll_ms in (omega arith, omega arith)),
              )
      ]

-- A wait neither spins nor oversleeps: each of its sleeps takes a millisecond at least, and no more
-- than the first interval and the ceiling allow, where these are positive.
pub poll_sleeps :
    (subject : Text) (key : Option Text) (b : Beats) (start timeout_ms poll_ms max_poll_ms fuel : ℕ)
    → 0 < poll_ms
    → 0 < max_poll_ms
    → All
        (λ ms. (0 < ms) × (ms ≤ max poll_ms max_poll_ms))
        (poll subject key b start timeout_ms poll_ms max_poll_ms fuel).0
unfolding poll
poll_sleeps subject key b start timeout_ms poll_ms max_poll_ms fuel p q =
    poll_loop_sleeps subject key b (start + timeout_ms) (max poll_ms max_poll_ms) max_poll_ms fuel 0
      poll_ms q (omega arith) (p, omega arith)
