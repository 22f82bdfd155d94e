-- ===== src/Backpressure/Overshoot.antt =====
-- How far several producers, each behind a gate of its own and submitting one task at a time, can
-- overshoot the limit of a queue that nothing else adds to.
use cairnq.Prelude.{
  Option, leb, min, Bool, Bool-cases, inl, inr, if◌then◌else◌, some, none, subst, ℕ, zero, suc, ◌+◌,
  ◌*◌, ◌-◌, ◌≤◌, ◌≡◌, true, false, refl, List, [], ◌∷◌, ◌++◌, arith, All, All-append, length,
  length-append, Text, ltb, ==_refl,
}
use cairnq.Prelude.Int.{pos}
use cairnq.Models.{queued}
use cairnq.Errors.{Result, ok, raise, Error, queue_full}
use cairnq.Db.{Db, count_status}
use cairnq.Worker.Planner.{Counts, count_of}
use cairnq.Worker.Planner.Counts.{count_of-set_count}
use cairnq.Backpressure.{max_grant, refresh, take_unit, acquire_loop}
use cairnq.Backpressure.Market.{
  Producer, Market, producer, Step, probe, take, insert, drop, drain, Steps, stay, then_step,
}
use cairnq.Backpressure.Acquire.{renewed, refresh_lem, probed, loop_probes}

abbrev depth_of : Text → Db → ℕ
depth_of queue db = count_status queue queued db

-- What a producer may still add without another probe.
abbrev to_come : Text → Producer → ℕ
to_come queue p = count_of queue p.headroom + p.under_way

abbrev outstanding : Text → List Producer → ℕ
outstanding queue [] = 0
outstanding queue (p ∷ ps) = to_come queue p + outstanding queue ps

abbrev IsSmall : Text → Producer → Type 0
IsSmall queue p = to_come queue p ≤ max_grant

module _ (queue : Text) where
  outstanding-append :
      (ps qs : List Producer)
      → outstanding queue (ps ++ qs) ≡ outstanding queue ps + outstanding queue qs
  outstanding-append [] qs = omega arith
  outstanding-append (p ∷ ps) qs = omega (arith, outstanding-append ps qs)

  outstanding-le :
      (ps : List Producer) → All (IsSmall queue) ps → outstanding queue ps ≤ length ps * max_grant
  outstanding-le [] h = omega arith
  outstanding-le (p ∷ ps) h = omega (arith, h.0, outstanding-le ps h.1)

  All-left : (ps qs : List Producer) → All (IsSmall queue) (ps ++ qs) → All (IsSmall queue) ps
  All-left [] qs h = tt
  All-left (p ∷ ps) qs h = (h.0, All-left ps qs h.1)

  All-right : (ps qs : List Producer) → All (IsSmall queue) (ps ++ qs) → All (IsSmall queue) qs
  All-right [] qs h = h
  All-right (p ∷ ps) qs h = All-right ps qs h.1

  taken_unit :
      (h : Counts)
      → ltb 0 (count_of queue h) ≡ true
      → count_of queue (take_unit queue h) + 1 ≡ count_of queue h
  taken_unit h e =
      ground (arith, count_of-set_count queue queue (count_of queue h - 1) h, ==_refl queue)

  abbrev passed : Counts → Option (Result (Unit {0}) × Counts)
  passed g = some (ok tt, g)

  abbrev round :
      Bool → Bool → Error → Counts → List ℕ → List ℕ × Option (Result (Unit {0}) × Counts)
  round b c x g r = if b then ([], none) else if c then ([], some (raise x, g)) else (r, none)

  -- A round that probes lets nothing through.
  not_yet :
      (b c : Bool) (x : Error) (g h' : Counts) (r : List ℕ) → (round b c x g r).1 ≡ passed h' → ⊥
  not_yet true c x g h' r e = cc
  not_yet false true x g h' r e = cc
  not_yet false false x g h' r e = cc

  passed_one : (g h : Counts) → passed g ≡ passed h → h ≡ g
  passed_one g h e = cc

  acquired :
      (limit max_wait_ms : ℕ) (dbs : ℕ → Db) (clock : ℕ → ℕ) (started i wait_ms : ℕ) (h h' : Counts)
      → (acquire_loop queue (pos limit) max_wait_ms dbs clock started 1 i wait_ms h).1
        ≡ some (ok tt, h')
      → count_of queue h' + 1 ≡ count_of queue h
  unfolding acquire_loop
  acquired limit max_wait_ms dbs clock started i wait_ms h h' e =
      elim (Bool-cases (ltb 0 (count_of queue h))) [
        | inl q ↦
            let same : passed (take_unit queue h) ≡ passed h' = rw (q, acquire_loop) at e in
            rw (passed_one (take_unit queue h) h' same) (taken_unit h q)
        | inr q ↦
            let g = probed queue limit max_wait_ms dbs clock started i h in
            absurd (
              not_yet (ltb 0 (count_of queue g)) (leb max_wait_ms (clock i - started))
                (queue_full queue limit (clock i - started)) g h'
                (min wait_ms (max_wait_ms - (clock i - started)) ∷ [])
                (subst (λ o. o.1 ≡ passed h')
                  (loop_probes queue limit max_wait_ms dbs clock started 0 i wait_ms h q) e))
      ]

  granted :
      (limit : ℕ) (db : Db) (h h' : Counts)
      → refresh queue (pos limit) db h ≡ ok h'
      → count_of queue h' ≡ renewed limit (depth_of queue db)
  granted limit db h h' e =
      let (g, same, count, others) = refresh_lem queue queue limit db h in
      let one : h' ≡ g = cc in rw one count

record IsBounded (queue : Text) (limit n : ℕ) (m : Market) : Type 0 where
  count : length m.1 ≡ suc n
  small : All (IsSmall queue) m.1
  bound : depth_of queue m.0 + outstanding queue m.1 ≤ limit + n * max_grant

-- One producer changes among the others.
module _ (queue : Text) (limit n : ℕ) (db db' : Db) (ps qs : List Producer) (p p' : Producer) where
  change :
      IsBounded queue limit n (db, ps ++ p ∷ qs)
      → IsSmall queue p'
      → (outstanding queue ps + outstanding queue qs ≤ n * max_grant
          → depth_of queue db + (outstanding queue ps + (to_come queue p + outstanding queue qs))
            ≤ limit + n * max_grant
          → depth_of queue db' + (outstanding queue ps + (to_come queue p' + outstanding queue qs))
            ≤ limit + n * max_grant)
      → IsBounded queue limit n (db', ps ++ p' ∷ qs)
  change b small step =
      let left = All-left queue ps (p ∷ qs) b.small in
      let right = All-right queue ps (p ∷ qs) b.small in
      let sizes = length-append ps (p ∷ qs) in
      let sums = outstanding-append queue ps (p ∷ qs) in
      let others : outstanding queue ps + outstanding queue qs ≤ n * max_grant =
        omega
          (arith, outstanding-le queue ps left, outstanding-le queue qs right.1, b.count, sizes) in
      let before : depth_of queue db
            + (outstanding queue ps + (to_come queue p + outstanding queue qs))
          ≤ limit + n * max_grant =
        omega (arith, b.bound, sums) in
      record {
        count = omega (arith, b.count, sizes, length-append ps (p' ∷ qs));
        small = All-append (IsSmall queue) ps (p' ∷ qs) left (small, right.1);
        bound = omega (arith, step others before, outstanding-append queue ps (p' ∷ qs));
      }

module _ (queue : Text) (limit n : ℕ) where
  step-IsBounded :
      (m m' : Market)
      → Step queue limit m m'
      → IsBounded queue limit n m
      → IsBounded queue limit n m'
  step-IsBounded m m' (probe db h h' ps qs empty e) b =
      let room = granted queue limit db h h' e in
      change queue limit n db db ps qs (producer h 0) (producer h' 0) b (omega (arith, room))
        (λ o k. omega (arith, room))
  step-IsBounded m m' (take db h h' ps qs max_wait_ms dbs clock started i wait_ms e) b =
      let less = acquired queue limit max_wait_ms dbs clock started i wait_ms h h' e in
      change queue limit n db db ps qs (producer h 0) (producer h' 1) b
        (omega (arith, less, (All-right queue ps (producer h 0 ∷ qs) b.small).0))
        (λ o k. omega (arith, less))
  step-IsBounded m m' (insert db db' h ps qs e) b =
      change queue limit n db db' ps qs (producer h 1) (producer h 0) b
        (omega (arith, (All-right queue ps (producer h 1 ∷ qs) b.small).0))
        (λ o k. omega (arith, e))
  step-IsBounded m m' (drop db h ps qs) b =
      change queue limit n db db ps qs (producer h 1) (producer h 0) b
        (omega (arith, (All-right queue ps (producer h 1 ∷ qs) b.small).0)) (λ o k. omega arith)
  step-IsBounded m m' (drain db db' ps e) b = record {
    count = b.count;
    small = b.small;
    bound = omega (arith, b.bound, e);
  }

  Steps-IsBounded :
      (m m' : Market)
      → Steps queue limit m m'
      → IsBounded queue limit n m
      → IsBounded queue limit n m'
  Steps-IsBounded m m' stay b = b
  Steps-IsBounded m m' (then_step s step) b = step-IsBounded _ _ step (Steps-IsBounded m _ s b)

-- Producers that have probed nothing yet.
abbrev pub idle : ℕ → List Producer
idle zero = []
idle (suc n) = producer [] 0 ∷ idle n

length-idle : (n : ℕ) → length (idle n) ≡ n
length-idle zero = refl
length-idle (suc n) = omega (arith, length-idle n)

idle-IsSmall : (queue : Text) (n : ℕ) → All (IsSmall queue) (idle n)
idle-IsSmall queue zero = tt
idle-IsSmall queue (suc n) = (omega arith, idle-IsSmall queue n)

idle_sum : (queue : Text) (n : ℕ) → outstanding queue (idle n) ≡ 0
idle_sum queue zero = refl
idle_sum queue (suc n) = omega (arith, idle_sum queue n)

idle-IsBounded :
    (queue : Text) (limit n : ℕ) (db : Db)
    → depth_of queue db ≤ limit
    → IsBounded queue limit n (db, idle (suc n))
idle-IsBounded queue limit n db h = record {
  count = length-idle (suc n);
  small = idle-IsSmall queue (suc n);
  bound = omega (arith, idle_sum queue (suc n));
}

-- `n + 1` producers, each submitting one task at a time, and a queue that is within its limit and that
-- nothing else adds to: in whatever order they renew their grants by a probe, take from them and
-- insert, and the workers drain, the queue never holds more than `n` full grants of 64 over the limit;
-- a single producer keeps it exactly.
pub overshoot :
    (queue : Text) (limit n : ℕ) (db db' : Db) (ps : List Producer)
    → count_status queue queued db ≤ limit
    → Steps queue limit (db, idle (suc n)) (db', ps)
    → count_status queue queued db' ≤ limit + n * max_grant
overshoot queue limit n db db' ps h s =
    let b = Steps-IsBounded queue limit n _ (db', ps) s (idle-IsBounded queue limit n db h) in
    omega (arith, b.bound)
