-- ===== src/Worker/Loop/Steps.antt =====
-- Each action of a run keeps to the budgets, leaves a valid database and the capacities as they are.
use cairnq.Prelude.{
  some, subst, ◌*◌, ℕ, ◌≡◌, refl, ◌∙◌, List, [], ◌∷◌, Text, arith, Option-cases, inl, inr,
}
use cairnq.Models.{Task}
use cairnq.Db.{Db}
use cairnq.Statement.Valid.{IsValid}
use cairnq.Store.Session.{ClaimEnv, draw}
use cairnq.Worker.Registry.{Registration, Source}
use cairnq.Worker.Planner.{Counts, Drawn}
use cairnq.Worker.Loop.{
  Phase, at_head, claiming, planning, drawing, claimed, draining, Run, at_loop_head, session_opens,
  plan_asks, plan_reads, draw_ends, claim_fails, call_at, settled, registers, on_poll, on_open,
  on_ask, on_draw, on_error, on_dispatch,
}
use cairnq.Worker.Loop.Planned.{session_opens-IsWithin, plan_asks-IsWithin, draw_ends-IsWithin}
use cairnq.Worker.Loop.Dispatch.{dispatch-IsStarted}
use cairnq.Worker.Loop.Within.{
  IsPlanning, IsWithin, head-IsWithin, dispatch-IsWithin, release-capacities, register_cases,
}

-- Within the budgets, over a valid database, with these capacities.
abbrev pub IsSafe : ℕ → Counts → Run × Db → Type 0
IsSafe concurrency capacities (l, db) =
    IsWithin concurrency l × IsValid db × (l.planner.capacities ≡ capacities)

head-capacities :
    (concurrency : ℕ) (l : Run)
    → (at_loop_head concurrency l).planner.capacities ≡ l.planner.capacities
unfolding at_loop_head
head-capacities concurrency l = ground arith

pub poll-IsSafe :
    (concurrency : ℕ) (capacities : Counts) (l : Run) (db : Db) (f : Phase)
    → l.phase ≡ f
    → IsSafe concurrency capacities (l, db)
    → IsSafe concurrency capacities (on_poll f concurrency l, db)
poll-IsSafe concurrency capacities l db at_head h (w, v, same) =
    (head-IsWithin concurrency l h w, v, head-capacities concurrency l ∙ same)
poll-IsSafe concurrency capacities l db (claiming free) h w = w
poll-IsSafe concurrency capacities l db (planning undo order left taken drawn) h w = w
poll-IsSafe concurrency capacities l db (drawing undo src quota rest left taken drawn) h w = w
poll-IsSafe concurrency capacities l db (claimed drawn) h w = w
poll-IsSafe concurrency capacities l db draining h w = w

opens-capacities :
    (env : ClaimEnv) (free : ℕ) (l : Run) (db : Db)
    → (session_opens env free l db).0.planner.capacities ≡ l.planner.capacities
unfolding session_opens
opens-capacities env free l db = ground arith

asks-capacities :
    (undo : Db) (order : List Source) (left : ℕ) (taken : Counts) (drawn : Drawn) (l : Run)
    → (plan_asks undo order left taken drawn l).planner.capacities ≡ l.planner.capacities
unfolding plan_asks
asks-capacities undo [] left taken drawn l = refl
asks-capacities undo (src ∷ rest) left taken drawn l = ground arith

reads-capacities :
    (undo : Db) (src : Source) (rows : List Task) (rest : List Source) (left : ℕ) (taken : Counts)
    (drawn : Drawn) (l : Run)
    → (plan_reads undo src rows rest left taken drawn l).planner.capacities ≡ l.planner.capacities
reads-capacities undo src [] rest left taken drawn l = refl
reads-capacities undo src (t ∷ ts) rest left taken drawn l = refl

pub open-IsSafe :
    (concurrency : ℕ) (capacities : Counts) (env : ClaimEnv) (l : Run) (db : Db) (f : Phase)
    → l.phase ≡ f
    → IsSafe concurrency capacities (l, db)
    → IsSafe concurrency capacities (on_open f env l db)
open-IsSafe concurrency capacities env l db at_head h w = w
open-IsSafe concurrency capacities env l db (claiming free) h (w, v, same) =
    let (within, valid) = session_opens-IsWithin concurrency env free l db h v w in
    (within, valid, opens-capacities env free l db ∙ same)
open-IsSafe concurrency capacities env l db (planning undo order left taken drawn) h w = w
open-IsSafe concurrency capacities env l db (drawing undo src quota rest left taken drawn) h w = w
open-IsSafe concurrency capacities env l db (claimed drawn) h w = w
open-IsSafe concurrency capacities env l db draining h w = w

pub ask-IsSafe :
    (concurrency : ℕ) (capacities : Counts) (l : Run) (db : Db) (f : Phase)
    → l.phase ≡ f
    → IsSafe concurrency capacities (l, db)
    → IsSafe concurrency capacities (on_ask f l, db)
ask-IsSafe concurrency capacities l db at_head h w = w
ask-IsSafe concurrency capacities l db (claiming free) h w = w
ask-IsSafe concurrency capacities l db (planning undo order left taken drawn) h (w, v, same) = (
  plan_asks-IsWithin concurrency undo left taken drawn l w order h,
  v,
  asks-capacities undo order left taken drawn l ∙ same,
)
ask-IsSafe concurrency capacities l db (drawing undo src quota rest left taken drawn) h w = w
ask-IsSafe concurrency capacities l db (claimed drawn) h w = w
ask-IsSafe concurrency capacities l db draining h w = w

pub draw-IsSafe :
    (concurrency : ℕ) (capacities : Counts) (env : ClaimEnv) (l : Run) (db : Db) (f : Phase)
    → l.phase ≡ f
    → IsSafe concurrency capacities (l, db)
    → IsSafe concurrency capacities (on_draw f env l db)
unfolding draw_ends
draw-IsSafe concurrency capacities env l db at_head h w = w
draw-IsSafe concurrency capacities env l db (claiming free) h w = w
draw-IsSafe concurrency capacities env l db (planning undo order left taken drawn) h w = w
draw-IsSafe concurrency capacities env l db (drawing undo src quota rest left taken drawn) h
      (w, v, same) =
    let (within, valid) =
      draw_ends-IsWithin concurrency undo left taken drawn l w env src quota rest db h v in
    (
      within,
      valid,
      reads-capacities undo src (draw env (some src.names) (src.batch * quota) db).0 rest left taken
            drawn l
          ∙ same,
    )
draw-IsSafe concurrency capacities env l db (claimed drawn) h w = w
draw-IsSafe concurrency capacities env l db draining h w = w

fails-IsSafe :
    (concurrency : ℕ) (capacities : Counts) (l : Run) (db undo : Db)
    → IsValid undo
    → IsSafe concurrency capacities (l, db)
    → IsSafe concurrency capacities (claim_fails l, undo)
unfolding claim_fails
fails-IsSafe concurrency capacities l db undo u (w, v, same) = (
  record {
    distinct = w.distinct;
    built = w.built;
    charged = record { distinct = w.charged.distinct; counts = w.charged.counts };
    slots = omega (arith, w.slots);
    room = λ r. omega (arith, w.room r);
    plan = tt;
  },
  u,
  same,
)

pub error-IsSafe :
    (concurrency : ℕ) (capacities : Counts) (l : Run) (db : Db) (f : Phase)
    → l.phase ≡ f
    → IsSafe concurrency capacities (l, db)
    → IsSafe concurrency capacities (on_error f l db)
error-IsSafe concurrency capacities l db at_head h w = w
error-IsSafe concurrency capacities l db (claiming free) h w =
    fails-IsSafe concurrency capacities l db db w.1 w
error-IsSafe concurrency capacities l db (planning undo order left taken drawn) h w =
    fails-IsSafe concurrency capacities l db undo
      (subst (λ f. IsPlanning l.handlers f) h w.0.plan).0 w
error-IsSafe concurrency capacities l db (drawing undo src quota rest left taken drawn) h w =
    fails-IsSafe concurrency capacities l db undo
      (subst (λ f. IsPlanning l.handlers f) h w.0.plan).0 w
error-IsSafe concurrency capacities l db (claimed drawn) h w = w
error-IsSafe concurrency capacities l db draining h w = w

pub dispatch-IsSafe :
    (concurrency : ℕ) (capacities : Counts) (l : Run) (db : Db) (f : Phase)
    → l.phase ≡ f
    → IsSafe concurrency capacities (l, db)
    → IsSafe concurrency capacities (on_dispatch f l, db)
dispatch-IsSafe concurrency capacities l db at_head h w = w
dispatch-IsSafe concurrency capacities l db (claiming free) h w = w
dispatch-IsSafe concurrency capacities l db (planning undo order left taken drawn) h w = w
dispatch-IsSafe concurrency capacities l db (drawing undo src quota rest left taken drawn) h w = w
dispatch-IsSafe concurrency capacities l db (claimed drawn) h (w, v, same) = (
  dispatch-IsWithin concurrency drawn l h w,
  v,
  (dispatch-IsStarted drawn (record l { phase = at_head }) w.charged).same_capacities ∙ same,
)
dispatch-IsSafe concurrency capacities l db draining h w = w

pub settled-capacities : (i : ℕ) (l : Run) → (settled i l).planner.capacities ≡ l.planner.capacities
unfolding settled
settled-capacities i l = elim (Option-cases (call_at i l.running)) [
  | inl e ↦ rw e refl
  | inr (c, e) ↦ rw e (release-capacities c l.planner)
]

pub registers-capacities :
    (resources : List Text) (name : Text) (reg : Registration) (l : Run)
    → (registers resources name reg l).planner.capacities ≡ l.planner.capacities
unfolding registers
registers-capacities resources name reg l = elim (register_cases resources name reg l.handlers) [
  | inl (x, e) ↦ rw e refl
  | inr e ↦ rw e refl
]
