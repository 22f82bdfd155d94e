-- ===== src/Worker/Execution/Gather.antt =====
-- Settling the tasks of a call one after another.
use cairnq.Prelude.{
  ℕ, Bool, true, false, ◌≡◌, refl, sym, ap, ◌∙◌, subst, Option, none, some, List, [], ◌∷◌, map,
  Text, Json, arith, All, elem, ◌==◌, ==_iff, Option-cases, inl, inr, if◌then◌else◌,
}
use cairnq.Models.{running, Task, status_eq}
use cairnq.Table.{IsDistinct}
use cairnq.Rows
use cairnq.Rows.{complete_row, fail_row}
use cairnq.Db
use cairnq.Db.{Db}
use cairnq.Statement.{Statement, complete, fail, run}
use cairnq.Statement.Valid.{IsValid, run-IsValid}
use cairnq.Statement.Effect.{effect, get-run, find?-id}
use cairnq.Context.{TaskContext, mark_settled}
use cairnq.Worker.Execution.{Settled, settle_each, Gathered, gather}

-- A settlement, and the statement that it is for a worker and a task.
pub data Settlement : Type 0 where
  completed : Option Json → Settlement
  failed : Json → Bool → ℕ → Settlement

abbrev pub statement : Text → Text → Settlement → Statement
statement worker id (completed json) = complete worker id json
statement worker id (failed error retryable delay_ms) = fail worker id error retryable delay_ms

-- The task is there and in no attempt.
abbrev pub IsOver : Option Task → Type 0
IsOver none = ⊥
IsOver (some t) = status_eq t.status running ≡ false

-- The worker of the context holds its task's live lease, and the task is not settled.
pub record IsHeldBy (now : ℕ) (db : Db) (x : TaskContext) : Type 0 where
  pub row : Task
  pub found : Db.get x.task.id db ≡ some row
  pub held : Rows.owned now x.worker_id x.task.id row ≡ true
  pub fresh : x.settled ≡ false

module _ (now : ℕ) (worker id : Text) (db : Db) (s : Settlement) where
  effect_other :
      (s : Settlement) (u : Task)
      → (u.id == id) ≡ false
      → effect now (statement worker id s) db u ≡ some u
  unfolding effect Rows.owned
  effect_other (completed json) u d = ground arith
  effect_other (failed error retryable delay_ms) u d = ground arith

  effect_over :
      (s : Settlement) (u : Task)
      → Rows.owned now worker id u ≡ true
      → IsOver (effect now (statement worker id s) db u)
  unfolding effect complete_row fail_row
  effect_over (completed json) u h = ground arith
  effect_over (failed error retryable delay_ms) u h = ground arith

  other_kept :
      (j : Text) (u : Task)
      → Db.get j db ≡ some u
      → (j == id) ≡ false
      → Db.get j (run now (statement worker id s) db) ≡ some u
  unfolding Db.get
  other_kept j u found d =
      get-run now j db u found (statement worker id s)
      ∙ effect_other s u (subst (λ i. (i == id) ≡ false) (sym (find?-id j db.tasks u found)) d)

  own_over :
      (u : Task)
      → Db.get id db ≡ some u
      → Rows.owned now worker id u ≡ true
      → IsOver (Db.get id (run now (statement worker id s) db))
  own_over u found h =
      subst IsOver (sym (get-run now id db u found (statement worker id s))) (effect_over s u h)

  over_kept :
      (j : Text)
      → IsOver (Db.get j db)
      → (j == id) ≡ false
      → IsOver (Db.get j (run now (statement worker id s) db))
  over_kept j h d = elim (Option-cases (Db.get j db)) [
    | inl e ↦ absurd (subst IsOver e h)
    | inr (u, e) ↦ subst IsOver (sym (other_kept j u e d)) (subst IsOver e h)
  ]

  held_kept :
      (x : TaskContext)
      → IsHeldBy now db x
      → (x.task.id == id) ≡ false
      → IsHeldBy now (run now (statement worker id s) db) x
  held_kept x h d = record {
    row = h.row;
    found = other_kept x.task.id h.row h.found d;
    held = h.held;
    fresh = h.fresh;
  }

-- What a settlement does for a context that holds its task.
pub record IsSettling (now : ℕ) (settle : TaskContext → Db → Settled) : Type 0 where
  pub lands :
      (x : TaskContext) (db : Db)
      → IsValid db
      → IsHeldBy now db x
      → (s : Settlement) × (settle x db
          ≡ (none, (mark_settled x, run now (statement x.worker_id x.task.id s) db)))

abbrev pub task_ids : List TaskContext → List Text
task_ids xs = map (λ x. x.task.id) xs

-- What the end of a call leaves: no report, contexts that are settled, and tasks that are in no attempt.
pub record IsFinished (xs : List TaskContext) (db : Db) (r : Gathered) : Type 0 where
  pub quiet : r.0 ≡ []
  pub settled : All (λ x. x.settled ≡ true) r.1.0
  pub valid : IsValid r.1.1
  pub over : All (λ x. IsOver (Db.get x.task.id r.1.1)) xs
  pub others :
      (j : Text) → elem j (task_ids xs) ≡ false → IsOver (Db.get j db) → IsOver (Db.get j r.1.1)

add_settled :
    (x : TaskContext) (xs : List TaskContext) (db db' : Db) (r : Gathered)
    → elem x.task.id (task_ids xs) ≡ false
    → IsOver (Db.get x.task.id db')
    → ((j : Text) → (j == x.task.id) ≡ false → IsOver (Db.get j db) → IsOver (Db.get j db'))
    → IsFinished xs db' r
    → IsFinished (x ∷ xs) db (r.0, (mark_settled x ∷ r.1.0, r.1.1))
unfolding mark_settled
add_settled x xs db db' r d own kept rest = record {
  quiet = rest.quiet;
  settled = (refl, rest.settled);
  valid = rest.valid;
  over = (rest.others x.task.id d own, rest.over);
  others = λ j e o.
      rest.others j (ground arith)
        (kept j (ground (arith, ==_iff j x.task.id, ==_iff x.task.id j)) o);
}

module _ (now : ℕ) (settle : TaskContext → Db → Settled) (law : IsSettling now settle) where
  held_among :
      (id worker : Text) (s : Settlement) (db : Db) (xs : List TaskContext)
      → elem id (task_ids xs) ≡ false
      → All (IsHeldBy now db) xs
      → All (IsHeldBy now (run now (statement worker id s) db)) xs
  held_among id worker s db [] d h = tt
  held_among id worker s db (x ∷ xs) d h = (
    held_kept now worker id db s x h.0 (ground arith),
    held_among id worker s db xs (ground arith) h.1,
  )

  pub settle_each-IsFinished :
      (xs : List TaskContext) (db : Db)
      → IsValid db
      → IsDistinct (task_ids xs)
      → All (IsHeldBy now db) xs
      → IsFinished xs db (settle_each settle xs db)
  unfolding settle_each
  settle_each-IsFinished [] db v d h = record {
    quiet = refl;
    settled = tt;
    valid = v;
    over = tt;
    others = λ j e k. k;
  }
  settle_each-IsFinished (x ∷ xs) db v d h =
      let (s, e) = law.lands x db v h.0 in
      let db' = run now (statement x.worker_id x.task.id s) db in
      let rest =
        settle_each-IsFinished xs db' (run-IsValid now (statement x.worker_id x.task.id s) db v) d.1
          (held_among x.task.id x.worker_id s db xs d.0 h.1) in
      let own = own_over now x.worker_id x.task.id db s h.0.row h.0.found h.0.held in
      let mine : (if x.settled then (none, (x, db)) else settle x db)
          ≡ (none, (mark_settled x, db')) =
        ap (λ b. if b then (none, (x, db)) else settle x db) h.0.fresh ∙ e in
      subst (λ m. IsFinished (x ∷ xs) db (gather m (λ next. settle_each settle xs next))) (sym mine)
        (add_settled x xs db db' (settle_each settle xs db') d.0 own
          (λ j k o. over_kept now x.worker_id x.task.id db s j o k) rest)
