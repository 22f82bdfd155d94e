-- ===== src/Worker/Loop.antt =====
-- `Worker.run` (cairnq-py/cairnq/worker.py): the polls, the calls in flight and their settlements, in
-- any order. One action is the code between two of its awaits: the plan of a claim asks for a draw in
-- one action and reads its rows in another, and calls may end in between.
pub mod Planned
pub mod Charges
pub mod Dispatch
pub mod Within
pub mod Steps
pub mod Budgets
mod Examples
use cairnq.Prelude.{
  ℕ, zero, suc, ◌+◌, ◌-◌, ◌%◌, max, Bool, true, false, Option, none, some, List, [], ◌∷◌, ◌++◌,
  Text, leb, if◌then◌else◌, length, is_some, ◌*◌, drop, take,
}
use cairnq.Errors.{Result, ok, raise}
use cairnq.Models.{Task}
use cairnq.Db
use cairnq.Db.{Db}
use cairnq.Store.Session.{ClaimEnv, draw, has_claimable_work}
use cairnq.Worker.Registry.{Registration, Handlers, Source, names_of, register}
use cairnq.Worker.Deliveries.{Call, deliveries}
use cairnq.Worker.Planner.{Counts, Drawn, Planner, headroom, quota_of, add_taken, acquire, release}

-- Where `run` stands: at the head of its loop; in `claim_session`, with its free slots; in the loop of
-- `plan`, between two draws or with the one it has asked for; before the dispatch of what it claimed;
-- or past the loop. A plan has the database that its transaction began with, the sources to come, the
-- slots left, the units taken and the calls drawn; a draw that is asked for has its source and quota.
pub data Phase : Type 0 where
  at_head : Phase
  claiming : ℕ → Phase
  planning : Db → List Source → ℕ → Counts → Drawn → Phase
  drawing : Db → Source → ℕ → List Source → ℕ → Counts → Drawn → Phase
  claimed : Drawn → Phase
  draining : Phase

-- `running` has the resource of each call in flight; a call is known by its place.
pub record Run : Type 0 where
  pub handlers : Handlers
  pub planner : Planner
  pub running : List (Option Text)
  pub freed : Bool
  pub stopped : Bool
  pub phase : Phase
  pub reports : ℕ

-- The worker of `__init__`, with its resources and before any registration.
abbrev pub new_run : Counts → Run
new_run capacities = record {
  handlers = [];
  planner = record { capacities = capacities; sources = []; in_flight = []; cursor = 0 };
  running = [];
  freed = false;
  stopped = false;
  phase = at_head;
  reports = 0;
}

-- `max(1, concurrency or self._concurrency)`
abbrev pub effective_concurrency : Option ℕ → ℕ → ℕ
effective_concurrency none own = max 1 own
effective_concurrency (some zero) own = max 1 own
effective_concurrency (some (suc n)) own = suc n

abbrev pub no_sources : List Source → Bool
no_sources [] = true
no_sources (s ∷ rest) = false

-- The head of the loop: stop, wait for a slot, idle, or begin a claim.
unfoldable pub at_loop_head : ℕ → Run → Run
at_loop_head concurrency l =
    if l.stopped
    then record l { phase = draining }
    else if leb (concurrency - length l.running) 0
    then l
    else if no_sources l.planner.sources
    then l
    else record l { freed = false; phase = claiming (concurrency - length l.running) }

-- `plan` moves the cursor on, and serves the sources from where it was.
abbrev pub advanced : Planner → Planner
advanced p = record p { cursor = (p.cursor % length p.sources + 1) % length p.sources }

abbrev pub order_of : Planner → List Source
order_of p =
    drop (p.cursor % length p.sources) p.sources ++ take (p.cursor % length p.sources) p.sources

-- The claim session opens, and the plan begins; or there is nothing to claim.
unfoldable pub session_opens : ClaimEnv → ℕ → Run → Db → Run × Db
session_opens env free l db =
    if has_claimable_work env (some (names_of l.handlers)) db
    then (
      record l {
        planner = advanced l.planner;
        phase = planning db (order_of l.planner) free [] [];
      },
      (Db.recover_leases env.now env.lease_expired_error db).1,
    )
    else (record l { phase = claimed [] }, db)

abbrev pub quota_for : Planner → Source → ℕ → Counts → ℕ
quota_for p src left taken = quota_of (headroom p.capacities p.in_flight src taken) left

-- The loop of `plan`, up to its next `claim` or to its end.
unfoldable pub plan_asks : Db → List Source → ℕ → Counts → Drawn → Run → Run
plan_asks undo [] left taken drawn l = record l { phase = claimed drawn }
plan_asks undo (src ∷ rest) left taken drawn l =
    let quota = quota_for l.planner src left taken in
    if leb left 0
    then record l { phase = claimed drawn }
    else if leb quota 0
    then record l { phase = planning undo rest left taken drawn }
    else record l { phase = drawing undo src quota rest left taken drawn }

-- What the plan does about the rows of a draw.
abbrev pub plan_reads : Db → Source → List Task → List Source → ℕ → Counts → Drawn → Run → Run
plan_reads undo src [] rest left taken drawn l = record l {
  phase = planning undo rest left taken drawn;
}
plan_reads undo src (t ∷ ts) rest left taken drawn l =
    let calls = deliveries l.handlers (t ∷ ts) in
    record l {
      phase =
          planning undo rest (left - length calls) (add_taken src.resource (length calls) taken)
            (drawn ++ (src, calls) ∷ []);
    }

unfoldable pub draw_ends :
    ClaimEnv → Db → Source → ℕ → List Source → ℕ → Counts → Drawn → Run → Db → Run × Db
draw_ends env undo src quota rest left taken drawn l db =
    let asked = draw env (some src.names) (src.batch * quota) db in
    (plan_reads undo src asked.0 rest left taken drawn l, asked.1)

-- A claim that raises is reported, and its transaction undone.
unfoldable pub claim_fails : Run → Run
claim_fails l = record l { reports = suc l.reports; phase = at_head }

-- The inner loop of the dispatch: charge, and start.
unfoldable pub start_calls : Option Text → List Call → Run → Run
unfolding acquire
start_calls resource [] l = l
start_calls resource (call ∷ calls) l =
    start_calls resource calls
      (record l { planner = acquire resource l.planner; running = resource ∷ l.running })

unfoldable pub dispatch : Drawn → Run → Run
unfolding start_calls
dispatch [] l = l
dispatch ((src, calls) ∷ rest) l = dispatch rest (start_calls src.resource calls l)

-- `settled`, of the call at a place of `running`.
abbrev pub call_at : ℕ → List (Option Text) → Option (Option Text)
call_at i [] = none
call_at zero (c ∷ cs) = some c
call_at (suc i) (c ∷ cs) = call_at i cs

abbrev pub discard_at : ℕ → List (Option Text) → List (Option Text)
discard_at i [] = []
discard_at zero (c ∷ cs) = cs
discard_at (suc i) (c ∷ cs) = c ∷ discard_at i cs

abbrev pub after_settled : Option (Option Text) → ℕ → Run → Run
after_settled none i l = l
after_settled (some resource) i l = record l {
  running = discard_at i l.running;
  planner = release resource l.planner;
  freed = if is_some resource then true else l.freed;
}

unfoldable pub settled : ℕ → Run → Run
unfolding release
settled i l = after_settled (call_at i l.running) i l

-- `Worker.register` on a worker that may be running: an error changes nothing.
abbrev pub after_register : Result (Handlers × List Source) → Run → Run
after_register (raise e) l = l
after_register (ok r) l = record l { handlers = r.0; planner = record l.planner { sources = r.1 } }

unfoldable pub registers : List Text → Text → Registration → Run → Run
unfolding register
registers resources name reg l = after_register (register resources name reg l.handlers) l

-- What may happen next; `elsewhere` is what other processes have made of the database.
pub data Action : Type 0 where
  polls : Action
  session_opened : ClaimEnv → Action
  draw_asked : Action
  draw_done : ClaimEnv → Action
  claim_error : Action
  dispatches : Action
  settles : ℕ → Action
  registration : List Text → Text → Registration → Action
  stops : Action
  elsewhere : Db → Action

abbrev pub on_poll : Phase → ℕ → Run → Run
on_poll at_head concurrency l = at_loop_head concurrency l
on_poll phase concurrency l = l

abbrev pub on_open : Phase → ClaimEnv → Run → Db → Run × Db
on_open (claiming free) env l db = session_opens env free l db
on_open phase env l db = (l, db)

abbrev pub on_ask : Phase → Run → Run
on_ask (planning undo order left taken drawn) l = plan_asks undo order left taken drawn l
on_ask phase l = l

abbrev pub on_draw : Phase → ClaimEnv → Run → Db → Run × Db
on_draw (drawing undo src quota rest left taken drawn) env l db =
    draw_ends env undo src quota rest left taken drawn l db
on_draw phase env l db = (l, db)

abbrev pub on_error : Phase → Run → Db → Run × Db
on_error (claiming free) l db = (claim_fails l, db)
on_error (planning undo order left taken drawn) l db = (claim_fails l, undo)
on_error (drawing undo src quota rest left taken drawn) l db = (claim_fails l, undo)
on_error phase l db = (l, db)

abbrev pub on_dispatch : Phase → Run → Run
on_dispatch (claimed drawn) l = dispatch drawn (record l { phase = at_head })
on_dispatch phase l = l

unfoldable pub act : ℕ → Action → Run × Db → Run × Db
unfolding at_loop_head session_opens plan_asks draw_ends claim_fails dispatch settled registers
act concurrency polls (l, db) = (on_poll l.phase concurrency l, db)
act concurrency (session_opened env) (l, db) = on_open l.phase env l db
act concurrency draw_asked (l, db) = (on_ask l.phase l, db)
act concurrency (draw_done env) (l, db) = on_draw l.phase env l db
act concurrency claim_error (l, db) = on_error l.phase l db
act concurrency dispatches (l, db) = (on_dispatch l.phase l, db)
act concurrency (settles i) (l, db) = (settled i l, db)
act concurrency (registration resources name reg) (l, db) = (registers resources name reg l, db)
act concurrency stops (l, db) = (record l { stopped = true }, db)
act concurrency (elsewhere other) (l, db) = (l, other)

unfoldable pub acts : ℕ → List Action → Run × Db → Run × Db
unfolding act
acts concurrency [] w = w
acts concurrency (a ∷ rest) w = acts concurrency rest (act concurrency a w)
