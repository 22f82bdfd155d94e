-- ===== src/Worker/Planner.antt =====
-- `_ClaimPlanner` (cairnq-py/cairnq/worker.py): which sources draw, how much, and in what turn. The
-- claim transaction is a state `S` with a function that draws from it; `split` is `deliveries`.
pub mod Counts
pub mod Budget
pub mod Sources
mod Examples
use cairnq.Prelude.{
  ℕ, zero, suc, ◌+◌, ◌-◌, ◌*◌, ◌%◌, Option, none, some, List, [], ◌∷◌, ◌++◌, Text, ltb, leb, ◌==◌,
  if◌then◌else◌, length, take, drop, min,
}
use cairnq.Models.{Task}
use cairnq.Worker.Registry.{Source, Handlers, rebuild}
use cairnq.Worker.Deliveries.{Call}

-- A dictionary of counts; an absent key counts 0.
abbrev pub Counts : Type 0
Counts = List (Text × ℕ)

abbrev pub count_of : Text → Counts → ℕ
count_of r [] = 0
count_of r ((q, n) ∷ rest) = if q == r then n else count_of r rest

abbrev pub set_count : Text → ℕ → Counts → Counts
set_count r n [] = (r, n) ∷ []
set_count r n ((q, m) ∷ rest) = if q == r then (q, n) ∷ rest else (q, m) ∷ set_count r n rest

abbrev pub pop_count : Text → Counts → Counts
pop_count r [] = []
pop_count r ((q, m) ∷ rest) = if q == r then rest else (q, m) ∷ pop_count r rest

-- `dict.get(r, default)`
abbrev pub count_or : Text → ℕ → Counts → ℕ
count_or r default [] = default
count_or r default ((q, n) ∷ rest) = if q == r then n else count_or r default rest

pub record Planner : Type 0 where
  pub capacities : Counts
  pub sources : List Source
  pub in_flight : Counts
  pub cursor : ℕ

-- `_headroom`: `max(0, capacity - in flight - taken)`, or none where only the worker's budget
-- applies.
unfoldable pub headroom : Counts → Counts → Source → Counts → Option ℕ
headroom capacities in_flight src taken = elim src.resource [
  | none ↦ none
  | some r ↦ some (count_of r capacities - count_of r in_flight - count_of r taken)
]

abbrev pub quota_of : Option ℕ → ℕ → ℕ
quota_of none left = left
quota_of (some own) left = min own left

abbrev pub add_taken : Option Text → ℕ → Counts → Counts
add_taken none n taken = taken
add_taken (some r) n taken = set_count r (count_of r taken + n) taken

abbrev pub Drawn : Type 0
Drawn = List (Source × List Call)

module _ {S : Type 0} (capacities in_flight : Counts) (split : List Task → List Call)
    (claim : List Text → ℕ → S → List Task × S) where
  -- The loop of `plan` over the sources in turn, with the budget left and the units taken.
  unfoldable pub plan_loop : List Source → ℕ → Counts → S → Drawn × S
  unfolding headroom
  plan_loop [] left taken s = ([], s)
  plan_loop (src ∷ rest) left taken s =
      let quota = quota_of (headroom capacities in_flight src taken) left in
      let asked = claim src.names (src.batch * quota) s in
      let calls = split asked.0 in
      let skipped = plan_loop rest left taken s in
      let emptied = plan_loop rest left taken asked.1 in
      let more =
        plan_loop rest (left - length calls) (add_taken src.resource (length calls) taken)
          asked.1 in
      if leb left 0
      then ([], s)
      else if leb quota 0
      then skipped
      else elim asked.0 [ [] ↦ emptied | t ∷ ts ↦ ((src, calls) ∷ more.0, more.1) ]

module _ {S : Type 0} where
  unfoldable pub plan :
      Planner
      → (List Task → List Call)
      → (List Text → ℕ → S → List Task × S)
      → ℕ
      → S
      → (Drawn × Planner) × S
  plan p split claim free s =
      let n = length p.sources in
      let cursor = p.cursor % n in
      let order = drop cursor p.sources ++ take cursor p.sources in
      let r = plan_loop p.capacities p.in_flight split claim order free [] s in
      ((r.0, record p { cursor = (cursor + 1) % n }), r.1)

unfoldable pub acquire : Option Text → Planner → Planner
acquire none p = p
acquire (some r) p = record p { in_flight = set_count r (count_of r p.in_flight + 1) p.in_flight }

unfoldable pub release : Option Text → Planner → Planner
release none p = p
release (some r) p =
    let rest = count_or r 1 p.in_flight - 1 in
    record p {
      in_flight = if ltb 0 rest then set_count r rest p.in_flight else pop_count r p.in_flight;
    }
