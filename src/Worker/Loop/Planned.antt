-- ===== src/Worker/Loop/Planned.antt =====
-- What a claim keeps: its session opens, and its plan asks for draws and reads their rows.
use cairnq.Prelude.{
  if◌then◌else◌, Option, none, ℕ, ◌+◌, ◌-◌, ◌*◌, ◌%◌, ◌≤◌, ◌≡◌, refl, sym, subst, ap, some, List,
  [], ◌∷◌, ◌++◌, Text, arith, leb, length, All, if_keeps,
}
use cairnq.Models.{Task}
use cairnq.Db
use cairnq.Db.{Db}
use cairnq.Statement.{run, recover_leases}
use cairnq.Statement.Valid.{IsValid, run-IsValid}
use cairnq.Store.Session.{ClaimEnv, draw, has_claimable_work}
use cairnq.Worker.Registry.{Source, names_of}
use cairnq.Worker.Deliveries.{deliveries}
use cairnq.Worker.Planner.{Counts, count_of, headroom, add_taken, Drawn}
use cairnq.Worker.Planner.Budget.{
  total_calls, calls_on, charge, SplitsWithin, quota-le, calls-le-quota, taken_charge, room,
  All-rotate,
}
use cairnq.Worker.Planner.Sources.{
  rebuild-SplitsWithin, valid_draw, valid_draw-IsClaim, draw-IsValid,
}
use cairnq.Worker.Loop.{
  Phase, claiming, planning, drawing, claimed, Run, advanced, order_of, session_opens, quota_for,
  plan_asks, plan_reads, draw_ends,
}
use cairnq.Worker.Loop.Charges.{running_on}
use cairnq.Worker.Loop.Within.{planned, planned_on, IsPlanning, IsWithin}

total_calls-append : (xs ys : Drawn) → total_calls (xs ++ ys) ≡ total_calls xs + total_calls ys
total_calls-append [] ys = omega arith
total_calls-append ((src, calls) ∷ xs) ys = omega (arith, total_calls-append xs ys)

calls_on-append : (r : Text) (xs ys : Drawn) → calls_on r (xs ++ ys) ≡ calls_on r xs + calls_on r ys
calls_on-append r [] ys = omega arith
calls_on-append r ((src, calls) ∷ xs) ys = omega (arith, calls_on-append r xs ys)

charge_le : (r : Text) (o : Option Text) (m n : ℕ) → m ≤ n → charge r o m ≤ charge r o n
charge_le r none m n h = omega arith
charge_le r (some q) m n h = ground (arith, h)

-- A plan moves to a phase with no more calls in view.
moves :
    (concurrency : ℕ) (l : Run) (f : Phase)
    → IsWithin concurrency l
    → planned f ≤ planned l.phase
    → ((r : Text) → running_on r l.running + planned_on r f ≤ count_of r l.planner.capacities)
    → IsPlanning l.handlers f
    → IsWithin concurrency (record l { phase = f })
moves concurrency l f w total counts plan = record {
  distinct = w.distinct;
  built = w.built;
  charged = record { distinct = w.charged.distinct; counts = w.charged.counts };
  slots = omega (arith, w.slots, total);
  room = counts;
  plan = plan;
}

pub session_opens-IsWithin :
    (concurrency : ℕ) (env : ClaimEnv) (free : ℕ) (l : Run) (db : Db)
    → l.phase ≡ claiming free
    → IsValid db
    → IsWithin concurrency l
    → IsWithin concurrency (session_opens env free l db).0 × IsValid (session_opens env free l db).1
unfolding session_opens run
session_opens-IsWithin concurrency env free l db h v w =
    if_keeps {A = Run × Db} (λ o. IsWithin concurrency o.0 × IsValid o.1)
      (has_claimable_work env (some (names_of l.handlers)) db)
      (
        record l {
          planner = advanced l.planner;
          phase = planning db (order_of l.planner) free [] [];
        },
        (Db.recover_leases env.now env.lease_expired_error db).1,
      )
      (record l { phase = claimed [] }, db)
      (λ e. (
        record {
          distinct = w.distinct;
          built = w.built;
          charged = record { distinct = w.charged.distinct; counts = w.charged.counts };
          slots = omega (arith, w.slots, ap planned h);
          room = λ r. omega (arith, w.room r);
          plan = (
            v,
            All-rotate (SplitsWithin (deliveries l.handlers))
                (l.planner.cursor % length l.planner.sources) l.planner.sources
                (subst (λ ss. All (SplitsWithin (deliveries l.handlers)) ss) (sym w.built)
                  (rebuild-SplitsWithin l.handlers w.distinct)),
            λ r. refl,
          );
        },
        run-IsValid env.now (recover_leases env.lease_expired_error) db v,
      ))
      (λ e. (moves concurrency l (claimed []) w (omega arith) (λ r. omega (arith, w.room r)) tt, v))

module _ (concurrency : ℕ) (undo : Db) (left : ℕ) (taken : Counts) (drawn : Drawn) (l : Run)
    (w : IsWithin concurrency l) where
  pub plan_asks-IsWithin :
      (order : List Source)
      → l.phase ≡ planning undo order left taken drawn
      → IsWithin concurrency (plan_asks undo order left taken drawn l)
  unfolding plan_asks
  plan_asks-IsWithin [] h =
      moves concurrency l (claimed drawn) w (omega (arith, ap planned h))
        (λ r. omega (arith, w.room r, ap (λ f. planned_on r f) h)) tt
  plan_asks-IsWithin (src ∷ rest) h =
      let quota = quota_for l.planner src left taken in
      let (valid, within, units) = subst (λ f. IsPlanning l.handlers f) h w.plan in
      if_keeps (IsWithin concurrency) (leb left 0) (record l { phase = claimed drawn })
        (if leb quota 0
          then record l { phase = planning undo rest left taken drawn }
          else record l { phase = drawing undo src quota rest left taken drawn })
        (λ e.
          moves concurrency l (claimed drawn) w (omega (arith, ap planned h))
            (λ r. omega (arith, w.room r, ap (λ f. planned_on r f) h)) tt)
        (λ e.
          if_keeps (IsWithin concurrency) (leb quota 0)
            (record l { phase = planning undo rest left taken drawn })
            (record l { phase = drawing undo src quota rest left taken drawn })
            (λ q.
              moves concurrency l (planning undo rest left taken drawn) w
                (omega (arith, ap planned h))
                (λ r. omega (arith, w.room r, ap (λ f. planned_on r f) h)) (valid, within.1, units))
            (λ q.
              moves concurrency l (drawing undo src quota rest left taken drawn) w
                (omega (arith, ap planned h))
                (λ r. omega (
                  arith,
                  room l.planner.capacities l.planner.in_flight r src quota left taken (omega arith)
                      (omega
                        (arith, w.room r, ap (λ f. planned_on r f) h, units r, w.charged.counts r)),
                  units r,
                  w.charged.counts r,
                ))
                (
                  valid,
                  within.1,
                  units,
                  within.0,
                  quota-le (headroom l.planner.capacities l.planner.in_flight src taken) left,
                )))

  pub plan_reads-IsWithin :
      (src : Source) (quota : ℕ) (rest : List Source) (rows : List Task)
      → l.phase ≡ drawing undo src quota rest left taken drawn
      → length (deliveries l.handlers rows) ≤ quota
      → IsWithin concurrency (plan_reads undo src rows rest left taken drawn l)
  plan_reads-IsWithin src quota rest [] h fits =
      let (valid, within, units, one, small) = subst (λ f. IsPlanning l.handlers f) h w.plan in
      moves concurrency l (planning undo rest left taken drawn) w (omega (arith, ap planned h))
        (λ r. omega (arith, w.room r, ap (λ f. planned_on r f) h)) (valid, within, units)
  plan_reads-IsWithin src quota rest (t ∷ ts) h fits =
      let calls = deliveries l.handlers (t ∷ ts) in
      let (valid, within, units, one, small) = subst (λ f. IsPlanning l.handlers f) h w.plan in
      moves concurrency l
        (planning undo rest (left - length calls) (add_taken src.resource (length calls) taken)
          (drawn ++ (src, calls) ∷ []))
        w (omega (arith, ap planned h, total_calls-append drawn ((src, calls) ∷ []), fits, small))
        (λ r. omega (
          arith,
          w.room r,
          ap (λ f. planned_on r f) h,
          calls_on-append r drawn ((src, calls) ∷ []),
          charge_le r src.resource (length calls) quota fits,
        ))
        (
          valid,
          within,
          λ r. omega (
            arith,
            units r,
            taken_charge r src.resource (length calls) taken,
            calls_on-append r drawn ((src, calls) ∷ []),
          ),
        )

  pub draw_ends-IsWithin :
      (env : ClaimEnv) (src : Source) (quota : ℕ) (rest : List Source) (db : Db)
      → l.phase ≡ drawing undo src quota rest left taken drawn
      → IsValid db
      → IsWithin concurrency (draw_ends env undo src quota rest left taken drawn l db).0
        × IsValid (draw_ends env undo src quota rest left taken drawn l db).1
  unfolding draw_ends
  draw_ends-IsWithin env src quota rest db h v =
      let (valid, within, units, one, small) = subst (λ f. IsPlanning l.handlers f) h w.plan in
      (
        plan_reads-IsWithin src quota rest (draw env (some src.names) (src.batch * quota) db).0 h (
            calls-le-quota l.planner.capacities l.planner.in_flight (deliveries l.handlers)
              (valid_draw env) (valid_draw-IsClaim env) src quota (db, v) one),
        draw-IsValid env (some src.names) (src.batch * quota) db v,
      )
