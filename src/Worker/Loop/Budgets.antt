-- ===== src/Worker/Loop/Budgets.antt =====
-- A worker never runs more calls than its concurrency, nor more on a resource than its capacity.
use cairnq.Prelude.{ℕ, ◌≤◌, refl, ap, ◌∙◌, List, [], ◌∷◌, Text, arith, length}
use cairnq.Db.{Db}
use cairnq.Statement.Valid.{IsValid}
use cairnq.Worker.Registry.{Registration, Handlers, rebuild}
use cairnq.Worker.Planner.{Counts, count_of}
use cairnq.Worker.Loop.{
  Phase, at_head, claiming, planning, drawing, claimed, draining, Run, new_run, Action, polls,
  session_opened, draw_asked, draw_done, claim_error, dispatches, settles, registration, stops,
  elsewhere, act, acts,
}
use cairnq.Worker.Loop.Steps.{
  IsSafe, poll-IsSafe, open-IsSafe, ask-IsSafe, draw-IsSafe, error-IsSafe, dispatch-IsSafe,
  settled-capacities, registers-capacities,
}
use cairnq.Worker.Loop.Charges.{running_on}
use cairnq.Worker.Loop.Within.{IsPlanning, settled-IsWithin, registers-IsWithin}

-- What the other processes make of the database stays valid, and no registration comes from the poll
-- that begins a claim to the claim's end.
abbrev pub IsAllowed : Phase → Action → Type 0
IsAllowed phase (elsewhere db) = IsValid db
IsAllowed (claiming free) (registration resources name reg) = ⊥
IsAllowed (planning undo order left taken drawn) (registration resources name reg) = ⊥
IsAllowed (drawing undo src quota rest left taken drawn) (registration resources name reg) = ⊥
IsAllowed phase a = Unit {0}

-- Each action is allowed where it comes.
abbrev pub AreAllowed : ℕ → List Action → Run × Db → Type 0
AreAllowed concurrency [] w = Unit {0}
AreAllowed concurrency (a ∷ rest) w =
    IsAllowed w.0.phase a × AreAllowed concurrency rest (act concurrency a w)

elsewhere-IsValid : (f : Phase) (db : Db) → IsAllowed f (elsewhere db) → IsValid db
elsewhere-IsValid at_head db ok = ok
elsewhere-IsValid (claiming free) db ok = ok
elsewhere-IsValid (planning undo order left taken drawn) db ok = ok
elsewhere-IsValid (drawing undo src quota rest left taken drawn) db ok = ok
elsewhere-IsValid (claimed drawn) db ok = ok
elsewhere-IsValid draining db ok = ok

-- Where a registration may come, no plan relies on the handlers.
quiet :
    (f : Phase) (resources : List Text) (name : Text) (reg : Registration)
    → IsAllowed f (registration resources name reg)
    → (hs : Handlers) → IsPlanning hs f
quiet at_head resources name reg ok hs = tt
quiet (claiming free) resources name reg ok hs = tt
quiet (planning undo order left taken drawn) resources name reg ok hs = absurd ok
quiet (drawing undo src quota rest left taken drawn) resources name reg ok hs = absurd ok
quiet (claimed drawn) resources name reg ok hs = tt
quiet draining resources name reg ok hs = tt

act-IsSafe :
    (concurrency : ℕ) (capacities : Counts) (a : Action) (s : Run × Db)
    → IsAllowed s.0.phase a
    → IsSafe concurrency capacities s
    → IsSafe concurrency capacities (act concurrency a s)
unfolding act
act-IsSafe concurrency capacities polls (l, db) ok w =
    poll-IsSafe concurrency capacities l db l.phase refl w
act-IsSafe concurrency capacities (session_opened env) (l, db) ok w =
    open-IsSafe concurrency capacities env l db l.phase refl w
act-IsSafe concurrency capacities draw_asked (l, db) ok w =
    ask-IsSafe concurrency capacities l db l.phase refl w
act-IsSafe concurrency capacities (draw_done env) (l, db) ok w =
    draw-IsSafe concurrency capacities env l db l.phase refl w
act-IsSafe concurrency capacities claim_error (l, db) ok w =
    error-IsSafe concurrency capacities l db l.phase refl w
act-IsSafe concurrency capacities dispatches (l, db) ok w =
    dispatch-IsSafe concurrency capacities l db l.phase refl w
act-IsSafe concurrency capacities (settles i) (l, db) ok (w, v, same) =
    (settled-IsWithin concurrency i l w, v, settled-capacities i l ∙ same)
act-IsSafe concurrency capacities (registration resources name reg) (l, db) ok (w, v, same) = (
  registers-IsWithin concurrency resources name reg l (quiet l.phase resources name reg ok) w,
  v,
  registers-capacities resources name reg l ∙ same,
)
act-IsSafe concurrency capacities stops (l, db) ok (w, v, same) = (
  record {
    distinct = w.distinct;
    built = w.built;
    charged = w.charged;
    slots = w.slots;
    room = w.room;
    plan = w.plan;
  },
  v,
  same,
)
act-IsSafe concurrency capacities (elsewhere other) (l, db) ok (w, v, same) =
    (w, elsewhere-IsValid l.phase other ok, same)

acts-IsSafe :
    (concurrency : ℕ) (capacities : Counts) (actions : List Action) (s : Run × Db)
    → AreAllowed concurrency actions s
    → IsSafe concurrency capacities s
    → IsSafe concurrency capacities (acts concurrency actions s)
unfolding acts
acts-IsSafe concurrency capacities [] s ok w = w
acts-IsSafe concurrency capacities (a ∷ rest) s ok w =
    acts-IsSafe concurrency capacities rest (act concurrency a s) ok.1
      (act-IsSafe concurrency capacities a s ok.0 w)

-- A worker run over a valid database, from its beginning and in any interleaving of polls, claims,
-- the draws of their plans, failures of either, dispatches, settlements, registrations, stops and the
-- work of other processes that leaves the database valid, where no registration comes while a claim is
-- under way: the calls in flight are never more than the concurrency, and those on a resource never
-- more than its capacity, however many names and batch sizes share it.
pub acts_within :
    (concurrency : ℕ) (capacities : Counts) (actions : List Action) (db : Db)
    → AreAllowed concurrency actions (new_run capacities, db)
    → IsValid db
    → let l = (acts concurrency actions (new_run capacities, db)).0 in
      (length l.running ≤ concurrency)
      × ((r : Text) → running_on r l.running ≤ count_of r capacities)
unfolding rebuild
acts_within concurrency capacities actions db ok v =
    let (w, valid, same) =
      acts-IsSafe concurrency capacities actions (new_run capacities, db) ok
        (
          record {
            distinct = tt;
            built = unfold rebuild in refl;
            charged = record { distinct = tt; counts = λ r. refl };
            slots = omega arith;
            room = λ r. omega arith;
            plan = tt;
          },
          v,
          refl,
        ) in
    (omega (arith, w.slots), λ r. omega (arith, w.room r, ap (λ m. count_of r m) same))
