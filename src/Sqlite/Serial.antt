-- ===== src/Sqlite/Serial.antt =====
-- A batch inside a transaction is a run of its writes, one after another.
use cairnq.Prelude.{Bool, true, false, ◌≡◌, refl, sym, ◌∙◌, ap, subst, none, some, List, [], ◌∷◌}
use cairnq.Driver.{Exc, Reply, rows, raised, Driver, IsSqlite}
use cairnq.Sqlite.{Pending, all_raised, torn, Batch, after_member, run_batch}

module _ {S Q R : Type 0} (effect : Q → S → S × R) where
  -- From one database to another by the writes in order: a write that gave rows took effect, with
  -- those rows, and a write that raised did not.
  abbrev pub Serial : List (Pending Q) → List (Reply R) → S → S → Type 0
  Serial [] [] s s' = s ≡ s'
  Serial [] (a ∷ answers) s s' = ⊥
  Serial (w ∷ ws) [] s s' = ⊥
  Serial (w ∷ ws) (rows r ∷ answers) s s' =
      ((effect w.query s).1 ≡ r) × Serial ws answers (effect w.query s).0 s'
  Serial (w ∷ ws) (raised e ∷ answers) s s' = Serial ws answers s s'

  pub all_raised-Serial :
      (e : Exc) (ws : List (Pending Q)) (s s' : S) → s ≡ s' → Serial ws (all_raised e ws) s s'
  all_raised-Serial e [] s s' h = h
  all_raised-Serial e (w ∷ ws) s s' h = all_raised-Serial e ws s s' h

module _ {C Q R S : Type 0} (d : Driver C Q R) (effect : Q → S → S × R)
    (law : IsSqlite S d effect) where
  -- The transaction that `run_batch` leaves: nothing durable, and, unless it was torn down, a view
  -- that the batch made in order.
  abbrev pub IsRun : List (Pending Q) → C → Batch d → Type 0
  IsRun ws c (c', answers, none) =
      (law.durable c' ≡ law.durable c)
      × (d.in_transaction c' ≡ true)
      × Serial effect ws answers (law.working c) (law.working c')
  IsRun ws c (c', answers, some e) = law.durable c' ≡ law.durable c

  raised-IsRun :
      (w : Pending Q) (ws : List (Pending Q)) (c : C) (x : Exc) (rest : Batch d)
      → d.in_transaction c ≡ true
      → (d.execute w.query c).1 ≡ raised x
      → (alive : Bool) → d.in_transaction (d.execute w.query c).0 ≡ alive
      → (d.in_transaction (d.execute w.query c).0 ≡ true → IsRun ws (d.execute w.query c).0 rest)
      → IsRun
          (w ∷ ws)
          c
          (after_member d (d.execute w.query c).0 (raised x) (torn {R = R} alive (raised x)) rest)
  raised-IsRun w ws c x rest h e false dead run = law.inside_durable c w.query h
  raised-IsRun w ws c x (c', answers, none) h e true alive run =
      let (same, inside, serial) = run alive in
      (
        same ∙ law.inside_durable c w.query h,
        inside,
        subst (λ s. Serial effect ws answers s (law.working c'))
            (law.inside_raised c w.query x h e alive) serial,
      )
  raised-IsRun w ws c x (c', answers, some y) h e true alive run =
      run alive ∙ law.inside_durable c w.query h

  member-IsRun :
      (w : Pending Q) (ws : List (Pending Q)) (c : C) (a : Reply R) (rest : Batch d)
      → d.in_transaction c ≡ true
      → (d.execute w.query c).1 ≡ a
      → (d.in_transaction (d.execute w.query c).0 ≡ true → IsRun ws (d.execute w.query c).0 rest)
      → IsRun (w ∷ ws) c (
          after_member d
            (d.execute w.query c).0
            a
            (torn (d.in_transaction (d.execute w.query c).0) a)
            rest)
  member-IsRun w ws c (rows r) (c', answers, none) h e run =
      let ran = law.inside_rows c w.query r h e in
      let (same, inside, serial) = run ran.0 in
      (
        same ∙ law.inside_durable c w.query h,
        inside,
        (
          ap (λ p. p.1) ran.1,
          subst (λ s. Serial effect ws answers s (law.working c')) (sym (ap (λ p. p.0) ran.1))
              serial,
        ),
      )
  member-IsRun w ws c (rows r) (c', answers, some x) h e run =
      run (law.inside_rows c w.query r h e).0 ∙ law.inside_durable c w.query h
  member-IsRun w ws c (raised x) rest h e run =
      raised-IsRun w ws c x rest h e (d.in_transaction (d.execute w.query c).0) refl run

  pub run_batch-IsRun :
      (ws : List (Pending Q)) (c : C) → d.in_transaction c ≡ true → IsRun ws c (run_batch d ws c)
  unfolding run_batch
  run_batch-IsRun [] c h = (refl, h, refl)
  run_batch-IsRun (w ∷ ws) c h =
      member-IsRun w ws c (d.execute w.query c).1 (run_batch d ws (d.execute w.query c).0) h refl
        (run_batch-IsRun ws (d.execute w.query c).0)
