-- ===== src/Worker/Planner/Sources.antt =====
-- The planner, the registrations and the store put together: the sources that the registrations give
-- keep the promise that a plan relies on, and so does the store's draw.
use cairnq.Prelude.{
  ℕ, ◌+◌, ◌≤◌, Bool, true, false, ◌≡◌, Option, none, some, List, [], ◌∷◌, ◌++◌, Text, arith, All,
  All-mono, All-append, elem, ==_iff, ==_refl, Bool-cases, inl, inr, if◌then◌else◌, min, leb, ◌||◌,
  &&-right,
}
use cairnq.Models.{Task}
use cairnq.Table.{IsDistinct}
use cairnq.Db
use cairnq.Db.{Db}
use cairnq.Statement.{claim, run}
use cairnq.Statement.Valid.{IsValid, run-IsValid}
use cairnq.Store.Session.{ClaimEnv, draw, draw_filter, draw_filter_general, names_nothing}
use cairnq.Store.Session.Claims.{IsClaimed, draw_lem}
use cairnq.Worker.Registry.{
  Registration, Handlers, handler, names_of, or_one, Source, self_limiting, rebuild_loop,
  with_shared, rebuild,
}
use cairnq.Worker.Deliveries.{deliveries}
use cairnq.Worker.Deliveries.Groups.{IsNamed}
use cairnq.Worker.Deliveries.Calls.{length-single, length-deliveries}
use cairnq.Worker.Planner.{Planner, plan, count_of}
use cairnq.Worker.Planner.Budget.{IsClaim, SplitsWithin, total_calls, calls_on, plan_within}

only_name : (name : Text) (t : Task) → elem t.name (name ∷ []) ≡ true → IsNamed name t
only_name name t h = ground (arith, ==_iff t.name name, ==_iff name t.name)

shared_within :
    (hs : Handlers) (names : List Text)
    → SplitsWithin (deliveries hs) (record { names = names; batch = 1; resource = none })
shared_within hs names = record {
  within = λ rows q named fits. omega (arith, length-deliveries hs rows);
}

single_within :
    (hs : Handlers) (name : Text) (reg : Registration)
    → handler name hs ≡ some reg
    → SplitsWithin
        (deliveries hs)
        (record { names = name ∷ []; batch = or_one reg.batch; resource = reg.resource })
single_within hs name reg e = record {
  within = λ rows q named fits.
      length-single hs name q rows (All-mono (only_name name) rows named) (rw e fits);
}

-- Each entry is what a lookup of its name finds.
abbrev IsListed : Handlers → Handlers → Type 0
IsListed hs part = All (λ h. handler h.0 hs ≡ some h.1) part

rebuild_loop-within :
    (hs part : Handlers) (sources : List Source) (shared : List Text)
    → IsListed hs part
    → All (SplitsWithin (deliveries hs)) sources
    → All (SplitsWithin (deliveries hs)) (rebuild_loop part sources shared).0
unfolding rebuild_loop
rebuild_loop-within hs [] sources shared l w = w
rebuild_loop-within hs ((name, reg) ∷ part) sources shared l w =
    elim (Bool-cases (self_limiting reg)) [
      | inl e ↦ rw e (
          rebuild_loop-within hs part _ shared l.1
            (All-append _ sources _ w (single_within hs name reg l.0, tt)))
      | inr e ↦ rw e (rebuild_loop-within hs part sources (shared ++ name ∷ []) l.1 w)
    ]

with_shared-within :
    (hs : Handlers) (r : List Source × List Text)
    → All (SplitsWithin (deliveries hs)) r.0
    → All (SplitsWithin (deliveries hs)) (with_shared r)
with_shared-within hs (sources, []) w = w
with_shared-within hs (sources, name ∷ names) w =
    All-append _ sources _ w (shared_within hs (name ∷ names), tt)

skip_other :
    (name : Text) (reg : Registration) (hs part : Handlers)
    → elem name (names_of part) ≡ false
    → IsListed hs part
    → IsListed ((name, reg) ∷ hs) part
skip_other name reg hs [] h l = tt
skip_other name reg hs ((n, r) ∷ part) h l =
    (ground (arith, l.0), skip_other name reg hs part (ground arith) l.1)

all-IsListed : (hs : Handlers) → IsDistinct (names_of hs) → IsListed hs hs
all-IsListed [] d = tt
all-IsListed ((name, reg) ∷ hs) d =
    (ground (arith, ==_refl name), skip_other name reg hs hs d.0 (all-IsListed hs d.1))

pub rebuild-SplitsWithin :
    (hs : Handlers) → IsDistinct (names_of hs) → All (SplitsWithin (deliveries hs)) (rebuild hs)
unfolding rebuild
rebuild-SplitsWithin hs d =
    with_shared-within hs (rebuild_loop hs [] [])
      (rebuild_loop-within hs hs [] [] (all-IsListed hs d) tt)

-- The transaction of a claim session over a valid database.
abbrev pub ValidDb : Type 0
ValidDb = (db : Db) × IsValid db

claim_keeps :
    (now : ℕ) (worker : Text) (lease_ms : ℕ) (p : Task → Bool) (limit : ℕ) (db : Db)
    → IsValid db
    → IsValid (Db.claim now worker lease_ms p limit db).1
unfolding run
claim_keeps now worker lease_ms p limit db v = run-IsValid now (claim worker lease_ms p limit) db v

pub draw-IsValid :
    (env : ClaimEnv) (names : Option (List Text)) (limit : ℕ) (db : Db)
    → IsValid db
    → IsValid (draw env names limit db).1
unfolding draw
draw-IsValid env names limit db v = elim (Bool-cases (leb limit 0 || names_nothing names)) [
  | inl e ↦ rw e v
  | inr e ↦
      rw e (claim_keeps env.now env.worker env.lease_ms (draw_filter env.queues names) limit db v)
]

-- A draw by names, over databases that come with their validity.
abbrev pub valid_draw : ClaimEnv → List Text → ℕ → ValidDb → List Task × ValidDb
valid_draw env names limit s =
    let r = draw env (some names) limit s.0 in
    (r.0, (r.1, draw-IsValid env (some names) limit s.0 s.1))

drawn_size : (b : Bool) (l limit k : ℕ) → l ≡ (if b then 0 else min limit k) → l ≤ limit
drawn_size true l limit k h = omega arith
drawn_size false l limit k h = omega arith

drawn_name :
    (env : ClaimEnv) (names : List Text) (t : Task)
    → IsClaimed env (some names) t
    → elem t.name names ≡ true
drawn_name env names t h =
    &&-right (elem t.queue env.queues) (elem t.name names) (unfold draw_filter_general in h.watched)

pub valid_draw-IsClaim : (env : ClaimEnv) → IsClaim (valid_draw env)
valid_draw-IsClaim env = record {
  bounded = λ names limit s.
      drawn_size (names_nothing (some names)) _ limit _ (draw_lem env (some names) limit s.0 s.1).1;
  named = λ names limit s.
      All-mono (drawn_name env names) _ (draw_lem env (some names) limit s.0 s.1).0;
}

-- One poll of a worker over a valid database, with the sources that `rebuild` makes of its
-- registrations, the split of `_deliveries` and the store's own draw: the poll starts no more handler
-- calls than the worker's free slots, and on each resource whose calls in flight are within its
-- capacity, those and the calls that it starts together still are.
pub poll_within :
    (env : ClaimEnv) (hs : Handlers) (p : Planner) (free : ℕ) (db : Db) (v : IsValid db)
    → IsDistinct (names_of hs)
    → p.sources ≡ rebuild hs
    → (total_calls (plan p (deliveries hs) (valid_draw env) free (db, v)).0.0 ≤ free)
      × ((r : Text)
          → count_of r p.in_flight ≤ count_of r p.capacities
          → count_of r p.in_flight
              + calls_on r (plan p (deliveries hs) (valid_draw env) free (db, v)).0.0
            ≤ count_of r p.capacities)
poll_within env hs p free db v d e =
    plan_within p (deliveries hs) (valid_draw env) free (db, v) (valid_draw-IsClaim env)
      (rw e (rebuild-SplitsWithin hs d))
