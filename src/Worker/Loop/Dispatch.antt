-- ===== src/Worker/Loop/Dispatch.antt =====
-- The dispatch of a claim.
use cairnq.Prelude.{
  ℕ, suc, ◌+◌, ◌≡◌, refl, ◌∙◌, Option, none, some, List, [], ◌∷◌, Text, arith, length,
}
use cairnq.Worker.Deliveries.{Call}
use cairnq.Worker.Planner.{Drawn, Planner, acquire}
use cairnq.Worker.Planner.Budget.{total_calls, charge, calls_on}
use cairnq.Worker.Loop.{Run, start_calls, dispatch}
use cairnq.Worker.Loop.Charges.{running_on, IsCharged, acquire-IsCharged}

-- A dispatch charges its calls and starts them.
pub record IsStarted (n : ℕ) (on : Text → ℕ) (l l' : Run) : Type 0 where
  pub charged : IsCharged l'.planner l'.running
  pub size : length l'.running ≡ n + length l.running
  pub counts : (r : Text) → running_on r l'.running ≡ on r + running_on r l.running
  pub same_handlers : l'.handlers ≡ l.handlers
  pub same_sources : l'.planner.sources ≡ l.planner.sources
  pub same_capacities : l'.planner.capacities ≡ l.planner.capacities
  pub same_phase : l'.phase ≡ l.phase

charge_zero : (r : Text) (c : Option Text) → charge r c 0 ≡ 0
charge_zero r none = refl
charge_zero r (some q) = ground arith

charge-suc : (r : Text) (c : Option Text) (n : ℕ) → charge r c (suc n) ≡ charge r c 1 + charge r c n
charge-suc r none n = omega arith
charge-suc r (some q) n = ground arith

acquire-sources : (c : Option Text) (p : Planner) → (acquire c p).sources ≡ p.sources
unfolding acquire
acquire-sources none p = refl
acquire-sources (some r) p = refl

acquire-capacities : (c : Option Text) (p : Planner) → (acquire c p).capacities ≡ p.capacities
unfolding acquire
acquire-capacities none p = refl
acquire-capacities (some r) p = refl

start_calls-IsStarted :
    (c : Option Text) (calls : List Call) (l : Run)
    → IsCharged l.planner l.running
    → IsStarted (length calls) (λ r. charge r c (length calls)) l (start_calls c calls l)
unfolding start_calls
start_calls-IsStarted c [] l h = record {
  charged = h;
  size = omega arith;
  counts = λ r. omega (arith, charge_zero r c);
  same_handlers = refl;
  same_sources = refl;
  same_capacities = refl;
  same_phase = refl;
}
start_calls-IsStarted c (call ∷ calls) l h =
    let l1 : Run = record l { planner = acquire c l.planner; running = c ∷ l.running } in
    let rest = start_calls-IsStarted c calls l1 (acquire-IsCharged c l.planner l.running h) in
    record {
      charged = rest.charged;
      size = omega (arith, rest.size);
      counts = λ r. omega (arith, rest.counts r, charge-suc r c (length calls));
      same_handlers = rest.same_handlers;
      same_sources = rest.same_sources ∙ acquire-sources c l.planner;
      same_capacities = rest.same_capacities ∙ acquire-capacities c l.planner;
      same_phase = rest.same_phase;
    }

pub dispatch-IsStarted :
    (drawn : Drawn) (l : Run)
    → IsCharged l.planner l.running
    → IsStarted (total_calls drawn) (λ r. calls_on r drawn) l (dispatch drawn l)
unfolding dispatch
dispatch-IsStarted [] l h = record {
  charged = h;
  size = omega arith;
  counts = λ r. omega arith;
  same_handlers = refl;
  same_sources = refl;
  same_capacities = refl;
  same_phase = refl;
}
dispatch-IsStarted ((src, calls) ∷ drawn) l h =
    let first = start_calls-IsStarted src.resource calls l h in
    let rest = dispatch-IsStarted drawn (start_calls src.resource calls l) first.charged in
    record {
      charged = rest.charged;
      size = omega (arith, rest.size, first.size);
      counts = λ r. omega (arith, rest.counts r, first.counts r);
      same_handlers = rest.same_handlers ∙ first.same_handlers;
      same_sources = rest.same_sources ∙ first.same_sources;
      same_capacities = rest.same_capacities ∙ first.same_capacities;
      same_phase = rest.same_phase ∙ first.same_phase;
    }
