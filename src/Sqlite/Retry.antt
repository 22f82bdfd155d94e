-- ===== src/Sqlite/Retry.antt =====
-- `_busy_backoff`, and the loop of `_with_lock` and `_begin` over it. Times are in microseconds; what
-- an attempt takes and the jitter of a sleep are functions of the attempt's number.
use cairnq.Prelude.{
  ℕ, zero, suc, ◌+◌, ◌*◌, ◌/◌, ◌≤◌, ◌<◌, min, Bool, true, false, ◌||◌, not, ◌≡◌, refl, ◌⊎◌, Option,
  none, some, arith, leb, if◌then◌else◌, inl, inr, Bool-cases, get_or, ap, ◌∙◌,
}
use cairnq.Driver.{Exc, is_busy, Reply, rows, raised}

-- `_BUSY_RETRY_BASE_S` and `_BUSY_RETRY_MAX_DELAY_S`
abbrev pub busy_retry_base : ℕ
busy_retry_base = 1000

abbrev pub busy_retry_max_delay : ℕ
busy_retry_max_delay = 50000

-- The environment: how long an attempt takes, and `random.random()` in thousandths.
pub record Env : Type 0 where
  pub took : ℕ → ℕ
  pub jitter : ℕ → ℕ

-- What an attempt works on, the store's lock, the clock, and the number of attempts so far.
pub record Clocked (X : Type 0) : Type 0 where
  pub state : X
  pub held : Bool
  pub clock : ℕ
  pub attempts : ℕ

-- `delay * (0.5 + random.random())`
abbrev pub jittered : ℕ → ℕ → ℕ
jittered delay jitter = delay * (500 + jitter) / 1000

abbrev pub next_delay : ℕ → ℕ
next_delay delay = min (delay * 2) busy_retry_max_delay

module _ {X : Type 0} (env : Env) where
  abbrev pub pause : ℕ → Clocked X → Clocked X
  pause delay w = record w { clock = w.clock + jittered delay (env.jitter w.attempts) }

module _ {X : Type 0} where
  -- `wait(exc)`: whether it raises.
  abbrev pub gives_up : ℕ → Clocked X → Exc → Bool
  gives_up deadline w exc = not (is_busy exc) || leb deadline w.clock

  -- The deadline of `_busy_backoff`.
  abbrev pub busy_deadline : ℕ → Clocked X → ℕ
  busy_deadline busy_timeout_ms w = w.clock + busy_timeout_ms * 1000

module _ {X A : Type 0} where
  abbrev pub after_attempt :
      ℕ → Option (Clocked X × Reply A) → Clocked X × Reply A → Option (Clocked X × Reply A)
  after_attempt deadline rest (w, rows a) = some (w, rows a)
  after_attempt deadline rest (w, raised e) =
      if gives_up deadline w e then some (w, raised e) else rest

module _ {X A : Type 0} (env : Env) where
  -- The `while True` of `_with_lock` and `_begin`, for an attempt of either; none when the fuel ran
  -- out.
  unfoldable pub retrying :
      (Clocked X → Clocked X × Reply A) → ℕ → ℕ → ℕ → Clocked X → Option (Clocked X × Reply A)
  unfolding is_busy
  retrying attempt zero deadline delay w = none
  retrying attempt (suc fuel) deadline delay w =
      let rest =
        retrying attempt fuel deadline (next_delay delay) (pause env delay (attempt w).0) in
      after_attempt deadline rest (attempt w)

  -- `async with self._lock: return await fn()`
  abbrev pub locked : (X → X × Reply A) → Clocked X → Clocked X × Reply A
  locked fn w = (
    record {
      state = (fn w.state).0;
      held = false;
      clock = w.clock + env.took w.attempts;
      attempts = suc w.attempts;
    },
    (fn w.state).1,
  )

  -- `_with_lock`
  unfoldable pub with_lock : ℕ → (X → X × Reply A) → ℕ → Clocked X → Option (Clocked X × Reply A)
  unfolding retrying
  with_lock busy_timeout_ms fn fuel w =
      retrying (locked fn) fuel (busy_deadline busy_timeout_ms w) busy_retry_base w

mul_half : (d e : ℕ) → 1000 ≤ d → 500 ≤ e → 500000 ≤ d * e
mul_half d e h k = grind arith

half_delay : (delay jitter : ℕ) → 1000 ≤ delay → 500 ≤ jittered delay jitter
half_delay delay jitter h = omega (arith, mul_half delay (500 + jitter) h (omega arith))

final_error :
    {X : Type 0}
    → (deadline : ℕ) (w : Clocked X) (e : Exc) → gives_up deadline w e ≡ true
    → (is_busy e ≡ false) ⊎ (deadline ≤ w.clock)
final_error deadline w e h = elim (Bool-cases (is_busy e)) [
  | inl b ↦ inr (ground (arith, h, b))
  | inr b ↦ inl b
]

goes_on :
    {X : Type 0}
    → (deadline : ℕ) (w : Clocked X) (e : Exc) → gives_up deadline w e ≡ false
    → w.clock < deadline
goes_on deadline w e h = ground arith

module _ {X A : Type 0} where
  -- An outcome that may end the loop.
  abbrev pub IsFinal : ℕ → Clocked X × Reply A → Type 0
  IsFinal deadline (w, rows a) = Unit {0}
  IsFinal deadline (w, raised e) = (is_busy e ≡ false) ⊎ (deadline ≤ w.clock)

  abbrev pub Returns : ℕ → Option (Clocked X × Reply A) → Type 0
  Returns deadline o = (out : Clocked X × Reply A) × (o ≡ some out) × IsFinal deadline out

  after_attempt-Returns :
      (deadline : ℕ) (rest : Option (Clocked X × Reply A)) (out : Clocked X × Reply A)
      → (out.0.clock < deadline → Returns deadline rest)
      → Returns deadline (after_attempt deadline rest out)
  after_attempt-Returns deadline rest (w, rows a) h = ((w, rows a), refl, tt)
  after_attempt-Returns deadline rest (w, raised e) h = elim (Bool-cases (gives_up deadline w e)) [
    | inl g ↦ rw g ((w, raised e), refl, final_error deadline w e g)
    | inr g ↦ rw g (h (goes_on deadline w e g))
  ]

module _ {X A : Type 0} (env : Env) where
  abbrev pub HasTime : (Clocked X → Clocked X × Reply A) → Type 0
  HasTime attempt = (w : Clocked X) → w.clock ≤ (attempt w).0.clock

  pub retrying-Returns :
      (attempt : Clocked X → Clocked X × Reply A) (fuel deadline delay : ℕ) (w : Clocked X)
      → HasTime attempt
      → 1000 ≤ delay
      → deadline + 500 ≤ w.clock + 500 * fuel
      → 0 < fuel
      → Returns deadline (retrying env attempt fuel deadline delay w)
  unfolding retrying
  retrying-Returns attempt zero deadline delay w t h k p = absurd (omega arith)
  retrying-Returns attempt (suc fuel) deadline delay w t h k p =
      let w' = (attempt w).0 in
      after_attempt-Returns deadline
        (retrying env attempt fuel deadline (next_delay delay) (pause env delay w')) (attempt w)
        (λ early.
          retrying-Returns attempt fuel deadline (next_delay delay) (pause env delay w') t
            (omega arith) (omega (arith, half_delay delay (env.jitter w'.attempts) h, t w))
            (omega (arith, t w)))

  -- `_with_lock` returns within twice its budget's milliseconds of attempts, and one more: with the
  -- operation's result, with an error that is not a lost write lock, or with one when the budget is
  -- spent.
  pub with_lock-Returns :
      (busy_timeout_ms : ℕ) (fn : X → X × Reply A) (fuel : ℕ) (w : Clocked X)
      → 2 * busy_timeout_ms < fuel
      → Returns (busy_deadline busy_timeout_ms w) (with_lock env busy_timeout_ms fn fuel w)
  unfolding with_lock
  with_lock-Returns busy_timeout_ms fn fuel w h =
      retrying-Returns (locked env fn) fuel (busy_deadline busy_timeout_ms w) busy_retry_base w
        (λ v. omega arith) (omega arith) (omega arith) (omega arith)

taken_branch {ℓ} :
    {A : Type ℓ}
    → (b : Bool) (x y : A) (o : Option A) → b ≡ true
    → (if b then some x else o) ≡ some y
    → x ≡ y
taken_branch true x y o h e = ap (λ o. get_or o y) e
taken_branch false x y o h e = cc

other_branch {ℓ} :
    {A : Type ℓ}
    → (b : Bool) (x y : A) (o : Option A) → b ≡ false
    → (if b then some x else o) ≡ some y
    → o ≡ some y
other_branch true x y o h e = cc
other_branch false x y o h e = e

module _ {X A : Type 0} (env : Env) (P : Clocked X → Type 0)
    (attempt : Clocked X → Clocked X × Reply A) where
  last_or :
      (deadline : ℕ) (w : Clocked X) (rest : Option (Clocked X × Reply A))
      (out : Clocked X × Reply A)
      → P w
      → (r : Reply A) → (attempt w).1 ≡ r
      → after_attempt deadline rest ((attempt w).0, r) ≡ some out
      → ((x : Exc)
          → (attempt w).1 ≡ raised x
          → rest ≡ some out
          → (v : Clocked X) × P v × (attempt v ≡ out))
      → (v : Clocked X) × P v × (attempt v ≡ out)
  last_or deadline w rest out p (rows a) h e later =
      (w, p, ap (λ o. ((attempt w).0, o)) h ∙ ap (λ o. get_or o out) e)
  last_or deadline w rest out p (raised x) h e later =
      elim (Bool-cases (gives_up deadline (attempt w).0 x)) [
        | inl g ↦ (
          w,
          p,
          ap (λ o. ((attempt w).0, o)) h
              ∙ taken_branch (gives_up deadline (attempt w).0 x) ((attempt w).0, raised x) out rest
                  g e,
        )
        | inr g ↦ later x h (
            other_branch (gives_up deadline (attempt w).0 x) ((attempt w).0, raised x) out rest g e)
      ]

  -- What every attempt that raises and every sleep keeps holds before the last attempt, whose outcome is the
  -- loop's.
  pub retrying_last :
      (fuel deadline delay : ℕ) (w : Clocked X) (out : Clocked X × Reply A)
      → ((v : Clocked X) (e : Exc) → P v → (attempt v).1 ≡ raised e → P (attempt v).0)
      → ((delay : ℕ) (v : Clocked X) → P v → P (pause env delay v))
      → P w
      → retrying env attempt fuel deadline delay w ≡ some out
      → (v : Clocked X) × P v × (attempt v ≡ out)
  unfolding retrying
  retrying_last zero deadline delay w out step slept p e = cc
  retrying_last (suc fuel) deadline delay w out step slept p e =
      last_or deadline w
        (retrying env attempt fuel deadline (next_delay delay) (pause env delay (attempt w).0)) out
        p (attempt w).1 refl e
        (λ x h.
          retrying_last fuel deadline (next_delay delay) (pause env delay (attempt w).0) out step
            slept (slept delay (attempt w).0 (step w x p h)))
