-- ===== src/Worker/Loop/Within.antt =====
-- What every action keeps: the calls in flight and those about to start are within the budgets.
use cairnq.Prelude.{
  ℕ, ◌+◌, ◌-◌, ◌≤◌, false, ◌≡◌, refl, sym, subst, ap, ◌∙◌, Option, none, some, List, [], ◌∷◌, Text,
  arith, ◌==◌, ==_iff, ◌⊎◌, leb, if◌then◌else◌, if_keeps, length, Bool-cases, inl, inr,
  Option-cases, elem, All,
}
use cairnq.Errors.{Error, value_error, ok, raise}
use cairnq.Statement.Valid.{IsValid}
use cairnq.Table.{IsDistinct}
use cairnq.Worker.Registry.{
  Registration, Handlers, names_of, set_handler, rebuild, register, less_than_one, undeclared,
}
use cairnq.Worker.Planner.{count_of, Drawn, Planner, release}
use cairnq.Worker.Planner.Budget.{total_calls, calls_on, charge, SplitsWithin}
use cairnq.Worker.Loop.{
  Phase, at_head, claiming, claimed, draining, Run, at_loop_head, no_sources, drawing, planning,
  dispatch, call_at, after_settled, settled, after_register, registers,
}
use cairnq.Worker.Deliveries.{deliveries}
use cairnq.Worker.Loop.Charges.{running_on, ==_sym, IsCharged, discard_lem, release-IsCharged}
use cairnq.Worker.Loop.Dispatch.{dispatch-IsStarted}

-- The calls that the loop has drawn, and those that it may still draw.
abbrev pub planned : Phase → ℕ
planned at_head = 0
planned (claiming free) = free
planned (planning undo order left taken drawn) = total_calls drawn + left
planned (drawing undo src quota rest left taken drawn) = total_calls drawn + left
planned (claimed drawn) = total_calls drawn
planned draining = 0

-- Those on a resource; a draw under way has its quota set aside.
abbrev pub planned_on : Text → Phase → ℕ
planned_on r (planning undo order left taken drawn) = calls_on r drawn
planned_on r (drawing undo src quota rest left taken drawn) =
    calls_on r drawn + charge r src.resource quota
planned_on r (claimed drawn) = calls_on r drawn
planned_on r phase = 0

-- The plan has its units right, sources that split within their quota, and a valid database to go
-- back to.
abbrev pub IsPlanning : Handlers → Phase → Type 0
IsPlanning hs (planning undo order left taken drawn) =
    IsValid undo
    × All (SplitsWithin (deliveries hs)) order
    × ((r : Text) → count_of r taken ≡ calls_on r drawn)
IsPlanning hs (drawing undo src quota rest left taken drawn) =
    IsValid undo
    × All (SplitsWithin (deliveries hs)) rest
    × ((r : Text) → count_of r taken ≡ calls_on r drawn)
    × SplitsWithin (deliveries hs) src
    × (quota ≤ left)
IsPlanning hs phase = Unit {0}

pub record IsWithin (concurrency : ℕ) (l : Run) : Type 0 where
  pub distinct : IsDistinct (names_of l.handlers)
  pub built : l.planner.sources ≡ rebuild l.handlers
  pub charged : IsCharged l.planner l.running
  pub slots : length l.running + planned l.phase ≤ concurrency
  pub room :
      (r : Text) → running_on r l.running + planned_on r l.phase ≤ count_of r l.planner.capacities
  pub plan : IsPlanning l.handlers l.phase

pub head-IsWithin :
    (concurrency : ℕ) (l : Run)
    → l.phase ≡ at_head
    → IsWithin concurrency l
    → IsWithin concurrency (at_loop_head concurrency l)
unfolding at_loop_head
head-IsWithin concurrency l h w =
    if_keeps (IsWithin concurrency) l.stopped (record l { phase = draining })
      (if leb (concurrency - length l.running) 0
        then l
        else if no_sources l.planner.sources
        then l
        else record l { freed = false; phase = claiming (concurrency - length l.running) })
      (λ e. record {
        distinct = w.distinct;
        built = w.built;
        charged = w.charged;
        slots = omega (arith, w.slots);
        room = λ r. omega (arith, w.room r);
        plan = tt;
      })
      (λ e.
        if_keeps (IsWithin concurrency) (leb (concurrency - length l.running) 0) l
          (if no_sources l.planner.sources
            then l
            else record l { freed = false; phase = claiming (concurrency - length l.running) })
          (λ d. w)
          (λ d.
            if_keeps (IsWithin concurrency) (no_sources l.planner.sources) l
              (record l { freed = false; phase = claiming (concurrency - length l.running) })
              (λ c. w)
              (λ c. record {
                distinct = w.distinct;
                built = w.built;
                charged = w.charged;
                slots = omega (arith, w.slots);
                room = λ r. omega (arith, w.room r);
                plan = tt;
              })))

release-sources : (c : Option Text) (p : Planner) → (release c p).sources ≡ p.sources
unfolding release
release-sources none p = refl
release-sources (some r) p = refl

pub release-capacities : (c : Option Text) (p : Planner) → (release c p).capacities ≡ p.capacities
unfolding release
release-capacities none p = refl
release-capacities (some r) p = refl

pub settled-IsWithin :
    (concurrency i : ℕ) (l : Run) → IsWithin concurrency l → IsWithin concurrency (settled i l)
unfolding settled
settled-IsWithin concurrency i l w = elim (Option-cases (call_at i l.running)) [
  | inl e ↦ subst (λ o. IsWithin concurrency (after_settled o i l)) (sym e) w
  | inr (c, e) ↦
      let (size, gone) = discard_lem i c l.running e in
      subst (λ o. IsWithin concurrency (after_settled o i l)) (sym e)
        (record {
          distinct = w.distinct;
          built = release-sources c l.planner ∙ w.built;
          charged = release-IsCharged i c l.planner l.running e w.charged;
          slots = omega (arith, w.slots, size);
          room = λ r.
              omega
                (arith, w.room r, gone r, ap (λ m. count_of r m) (release-capacities c l.planner));
          plan = w.plan;
        })
]

pub dispatch-IsWithin :
    (concurrency : ℕ) (drawn : Drawn) (l : Run)
    → l.phase ≡ claimed drawn
    → IsWithin concurrency l
    → IsWithin concurrency (dispatch drawn (record l { phase = at_head }))
dispatch-IsWithin concurrency drawn l h w =
    let s = dispatch-IsStarted drawn (record l { phase = at_head }) w.charged in
    record {
      distinct = subst (λ hs. IsDistinct (names_of hs)) (sym s.same_handlers) w.distinct;
      built = s.same_sources ∙ (w.built ∙ ap (λ hs. rebuild hs) (sym s.same_handlers));
      charged = s.charged;
      slots = omega (arith, s.size, w.slots, ap planned h, ap planned s.same_phase);
      room = λ r. omega (
        arith,
        s.counts r,
        w.room r,
        ap (λ f. planned_on r f) h,
        ap (λ f. planned_on r f) s.same_phase,
        ap (λ m. count_of r m) s.same_capacities,
      );
      plan =
          subst (λ f. IsPlanning (dispatch drawn (record l { phase = at_head })).handlers f)
            (sym s.same_phase) tt;
    }

names-set_handler :
    (other name : Text) (reg : Registration) (hs : Handlers)
    → elem other (names_of hs) ≡ false
    → (name == other) ≡ false
    → elem other (names_of (set_handler name reg hs)) ≡ false
names-set_handler other name reg [] h k = ground arith
names-set_handler other name reg ((n, old) ∷ hs) h k =
    ground (arith, names-set_handler other name reg hs, ==_iff n name)

IsDistinct-set_handler :
    (name : Text) (reg : Registration) (hs : Handlers)
    → IsDistinct (names_of hs)
    → IsDistinct (names_of (set_handler name reg hs))
IsDistinct-set_handler name reg [] d = (refl, tt)
IsDistinct-set_handler name reg ((n, old) ∷ hs) d =
    if_keeps (λ hs. IsDistinct (names_of hs)) (n == name) ((n, reg) ∷ hs)
      ((n, old) ∷ set_handler name reg hs) (λ e. d)
      (λ e. (
        names-set_handler n name reg hs d.0 (==_sym name n e),
        IsDistinct-set_handler name reg hs d.1,
      ))

pub register_cases :
    (resources : List Text) (name : Text) (reg : Registration) (hs : Handlers)
    → ((e : Error) × (register resources name reg hs ≡ raise e))
      ⊎ (register resources name reg hs
          ≡ ok (set_handler name reg hs, rebuild (set_handler name reg hs)))
unfolding register
register_cases resources name reg hs = elim (Bool-cases (less_than_one reg.batch)) [
  | inl e ↦ inl (value_error, rw e refl)
  | inr e ↦ elim (Bool-cases (undeclared reg.resource resources)) [
    | inl d ↦ inl (value_error, rw (e, d) refl)
    | inr d ↦ inr (rw (e, d) refl)
  ]
]

pub registers-IsWithin :
    (concurrency : ℕ) (resources : List Text) (name : Text) (reg : Registration) (l : Run)
    → ((hs : Handlers) → IsPlanning hs l.phase)
    → IsWithin concurrency l
    → IsWithin concurrency (registers resources name reg l)
unfolding registers
registers-IsWithin concurrency resources name reg l quiet w =
    elim (register_cases resources name reg l.handlers) [
      | inl (x, e) ↦ subst (λ o. IsWithin concurrency (after_register o l)) (sym e) w
      | inr e ↦
          subst (λ o. IsWithin concurrency (after_register o l)) (sym e)
            (record {
              distinct = IsDistinct-set_handler name reg l.handlers w.distinct;
              built = refl;
              charged = record { distinct = w.charged.distinct; counts = w.charged.counts };
              slots = w.slots;
              room = w.room;
              plan = quiet (set_handler name reg l.handlers);
            })
    ]
