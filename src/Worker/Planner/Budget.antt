-- ===== src/Worker/Planner/Budget.antt =====
-- A plan keeps to the worker's budget and to each resource's capacity.
use cairnq.Prelude.{
  List-cases, ℕ, ◌+◌, ◌-◌, ◌*◌, ◌%◌, ◌≤◌, true, ◌≡◌, Option, none, some, List, [], ◌∷◌, ◌++◌, Text,
  arith, leb, ◌==◌, if◌then◌else◌, All, All-append, All-take, All-drop, length, elem, take, drop,
  Bool-cases, inl, inr,
}
use cairnq.Models.{Task}
use cairnq.Worker.Registry.{Source}
use cairnq.Worker.Deliveries.{Call}
use cairnq.Worker.Planner.{
  Counts, count_of, headroom, quota_of, add_taken, Drawn, plan_loop, Planner, plan,
}
use cairnq.Worker.Planner.Counts.{count_of-set_count}

-- What the planner asks of `claim`: no more rows than the limit, and rows of the names alone.
pub record IsClaim {S : Type 0} (claim : List Text → ℕ → S → List Task × S) : Type 0 where
  pub bounded : (names : List Text) (limit : ℕ) (s : S) → length (claim names limit s).0 ≤ limit
  pub named :
      (names : List Text) (limit : ℕ) (s : S)
      → All (λ t. elem t.name names ≡ true) (claim names limit s).0

-- What it asks of `split` for a source: rows of the source's names that fit in `q` calls of its batch
-- size become at most `q` calls.
pub record SplitsWithin (split : List Task → List Call) (src : Source) : Type 0 where
  pub within :
      (rows : List Task) (q : ℕ)
      → All (λ t. elem t.name src.names ≡ true) rows
      → length rows ≤ src.batch * q
      → length (split rows) ≤ q

abbrev pub total_calls : Drawn → ℕ
total_calls [] = 0
total_calls ((src, calls) ∷ rest) = length calls + total_calls rest

-- The calls that a source charges to a resource.
abbrev pub charge : Text → Option Text → ℕ → ℕ
charge r none n = 0
charge r (some q) n = if q == r then n else 0

abbrev pub calls_on : Text → Drawn → ℕ
calls_on r [] = 0
calls_on r ((src, calls) ∷ rest) = charge r src.resource (length calls) + calls_on r rest

pub quota-le : (o : Option ℕ) (left : ℕ) → quota_of o left ≤ left
quota-le none left = omega arith
quota-le (some own) left = omega arith

pub taken_charge :
    (r : Text) (o : Option Text) (n : ℕ) (taken : Counts)
    → count_of r (add_taken o n taken) ≡ count_of r taken + charge r o n
taken_charge r none n taken = omega arith
taken_charge r (some q) n taken =
    ground (arith, count_of-set_count r q (count_of q taken + n) taken)

pub room :
    (capacities in_flight : Counts) (r : Text) (src : Source) (n left : ℕ) (taken : Counts)
    → n ≤ quota_of (headroom capacities in_flight src taken) left
    → count_of r in_flight + count_of r taken ≤ count_of r capacities
    → count_of r in_flight + count_of r taken + charge r src.resource n ≤ count_of r capacities
unfolding headroom
room capacities in_flight r src n left taken h k = ground arith

module _ {S : Type 0} (capacities in_flight : Counts) (split : List Task → List Call)
    (claim : List Text → ℕ → S → List Task × S) (law : IsClaim claim) where
  pub calls-le-quota :
      (src : Source) (q : ℕ) (s : S)
      → SplitsWithin split src
      → length (split (claim src.names (src.batch * q) s).0) ≤ q
  calls-le-quota src q s w =
      w.within _ q (law.named src.names (src.batch * q) s) (law.bounded src.names (src.batch * q) s)

  plan_loop-total :
      (srcs : List Source) (left : ℕ) (taken : Counts) (s : S)
      → All (SplitsWithin split) srcs
      → total_calls (plan_loop capacities in_flight split claim srcs left taken s).0 ≤ left
  unfolding plan_loop
  plan_loop-total [] left taken s w = omega arith
  plan_loop-total (src ∷ rest) left taken s w =
      let quota = quota_of (headroom capacities in_flight src taken) left in
      let asked = claim src.names (src.batch * quota) s in
      let calls = split asked.0 in
      elim (Bool-cases (leb left 0)) [
        | inl e ↦ rw e (omega arith)
        | inr e ↦ elim (Bool-cases (leb quota 0)) [
          | inl q ↦ rw (e, q) (plan_loop-total rest left taken s w.1)
          | inr q ↦ elim (List-cases asked.0) [
            | inl k ↦ rw (e, q, k) (plan_loop-total rest left taken asked.1 w.1)
            | inr (t, ts, k) ↦
                rw (e, q, k)
                  (omega (
                    arith,
                    plan_loop-total rest (left - length calls)
                        (add_taken src.resource (length calls) taken) asked.1 w.1,
                    calls-le-quota src quota s w.0,
                    quota-le (headroom capacities in_flight src taken) left,
                  ))
          ]
        ]
      ]

  module _ (r : Text) where
    plan_loop-capacity :
        (srcs : List Source) (left : ℕ) (taken : Counts) (s : S)
        → All (SplitsWithin split) srcs
        → count_of r in_flight + count_of r taken ≤ count_of r capacities
        → count_of r in_flight
            + count_of r taken
            + calls_on r (plan_loop capacities in_flight split claim srcs left taken s).0
          ≤ count_of r capacities
    unfolding plan_loop
    plan_loop-capacity [] left taken s w h = omega arith
    plan_loop-capacity (src ∷ rest) left taken s w h =
        let quota = quota_of (headroom capacities in_flight src taken) left in
        let asked = claim src.names (src.batch * quota) s in
        let calls = split asked.0 in
        let fits =
          room capacities in_flight r src (length calls) left taken (calls-le-quota src quota s w.0)
            h in
        let charged = taken_charge r src.resource (length calls) taken in
        elim (Bool-cases (leb left 0)) [
          | inl e ↦ rw e (omega arith)
          | inr e ↦ elim (Bool-cases (leb quota 0)) [
            | inl q ↦ rw (e, q) (plan_loop-capacity rest left taken s w.1 h)
            | inr q ↦ elim (List-cases asked.0) [
              | inl k ↦ rw (e, q, k) (plan_loop-capacity rest left taken asked.1 w.1 h)
              | inr (t, ts, k) ↦
                  rw (e, q, k)
                    (omega (
                      arith,
                      fits,
                      charged,
                      plan_loop-capacity rest (left - length calls)
                          (add_taken src.resource (length calls) taken) asked.1 w.1 (omega arith),
                    ))
            ]
          ]
        ]

pub All-rotate :
    (P : Source → Type 0) (n : ℕ) (xs : List Source) → All P xs → All P (drop n xs ++ take n xs)
All-rotate P n xs h = All-append P (drop n xs) (take n xs) (All-drop P n xs h) (All-take P n xs h)

-- A plan starts no more handler calls than the free budget, in however many draws; and, where the
-- calls in flight on a resource are within its capacity, they and the calls that the plan starts on
-- it together still are, however many sources share it. It asks of `claim` that it respects limit
-- and names, and of the sources that their rows split within their quota.
pub plan_within :
    {S : Type 0} (p : Planner) (split : List Task → List Call)
    (claim : List Text → ℕ → S → List Task × S) (free : ℕ) (s : S)
    → IsClaim claim
    → All (SplitsWithin split) p.sources
    → (total_calls (plan p split claim free s).0.0 ≤ free)
      × ((r : Text)
          → count_of r p.in_flight ≤ count_of r p.capacities
          → count_of r p.in_flight + calls_on r (plan p split claim free s).0.0
            ≤ count_of r p.capacities)
unfolding plan
plan_within p split claim free s law w =
    let n = p.cursor % length p.sources in
    let order = drop n p.sources ++ take n p.sources in
    let served = All-rotate (SplitsWithin split) n p.sources w in
    (
      plan_loop-total p.capacities p.in_flight split claim law order free [] s served,
      λ r h. omega (
        arith,
        plan_loop-capacity p.capacities p.in_flight split claim law r order free [] s served
            (omega arith),
      ),
    )
