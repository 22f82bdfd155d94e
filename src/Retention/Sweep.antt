-- ===== src/Retention/Sweep.antt =====
-- A sweep drains what its rules name.
use cairnq.Prelude.{
  ℕ, zero, suc, ◌+◌, ◌-◌, ◌<◌, Bool, true, false, not, ◌≡◌, refl, sym, subst, ◌∙◌, ap, Option, some,
  List, [], ◌∷◌, Text, arith, All, All-filter, filter, elem, length, min, Bool-cases, inl, inr,
  if◌then◌else◌,
}
use cairnq.Prelude.Int.{ℤ, pos, negsuc, pos_part, ltb_ℤ}
use cairnq.Models.{Status, Task}
use cairnq.Errors.{Result, ok, raise, ◌>>◌, raise_if, value_error}
use cairnq.Rows.{purgeable}
use cairnq.Db
use cairnq.Db.{Db, delete_tasks, select_purged}
use cairnq.Table.{ids}
use cairnq.Statement.Valid.{IsValid, delete_tasks-IsValid}
use cairnq.Store.Reads
use cairnq.Store.Reads.{validate_purge_input, bad_status}
use cairnq.Store.Reads.Purges.{purge_lem, length-filter-not}
use cairnq.Retention.{
  RetentionRule, Retention, rules, is_empty, validate_rules, post_init, drained, sweep_rule,
  sweep_rules, sweep,
}

-- The rows that a rule names at this time.
abbrev pub named_by : ℕ → RetentionRule → Task → Bool
named_by now rule = purgeable (now - pos_part rule.older_than_ms) rule.queue rule.status rule.name

none_over :
    (p : Task → Bool) (ts : List Task) → length (filter p ts) ≡ 0 → All (λ t. p t ≡ false) ts
none_over p [] h = tt
none_over p (t ∷ ts) h = elim (Bool-cases (p t)) [
  | inl e ↦ absurd (ground (arith, h))
  | inr e ↦ (e, none_over p ts (ground arith))
]

-- Deleting rows that all pass `p` leaves the others that do.
left_over :
    (p gone : Task → Bool) (ts : List Task)
    → All (λ t. gone t ≡ true → p t ≡ true) ts
    → length (filter p (filter (λ t. not (gone t)) ts)) + length (filter gone ts)
      ≡ length (filter p ts)
left_over p gone [] h = omega arith
left_over p gone (t ∷ ts) h = ground (arith, left_over p gone ts h.1)

-- What one batch does to a valid database.
record IsBatch (now : ℕ) (rule : RetentionRule) (limit : ℕ) (db db' : Db) (n : ℕ) : Type 0 where
  valid : IsValid db'
  count : length db'.tasks + n ≡ length db.tasks
  size : n ≡ min limit (length (filter (named_by now rule) db.tasks))
  rest :
      length (filter (named_by now rule) db'.tasks) + n
      ≡ length (filter (named_by now rule) db.tasks)
  kept : (q : Task → Bool) → All (λ t. q t ≡ false) db.tasks → All (λ t. q t ≡ false) db'.tasks

module _ (now : ℕ) (rule : RetentionRule) (l : ℕ) where
  batch : Db → List Text × Db
  batch = Db.purge (now - pos_part rule.older_than_ms) rule.queue rule.status rule.name l

  batch-IsBatch : (db : Db) → IsValid db → IsBatch now rule l db (batch db).1 (length (batch db).0)
  unfolding batch Db.purge delete_tasks
  batch-IsBatch db v =
      let before = now - pos_part rule.older_than_ms in
      let gone = ids (select_purged before rule.queue rule.status rule.name l db) in
      let lem = purge_lem before rule.queue rule.status rule.name l db v in
      let others = length-filter-not (λ t. elem t.id gone) db.tasks in
      record {
        valid = delete_tasks-IsValid gone db v;
        count = lem.2;
        size = lem.0;
        rest = omega (
          arith,
          left_over (named_by now rule) (λ t. elem t.id gone) db.tasks lem.1,
          others,
          lem.2,
        );
        kept = λ q h. All-filter (λ t. q t ≡ false) _ db.tasks h;
      }

  checked_batch :
      (db : Db)
      → validate_purge_input rule.older_than_ms rule.status (pos l) ≡ ok tt
      → Reads.purge now rule.older_than_ms rule.queue rule.status rule.name (pos l) db
        ≡ (ok (batch db).0, (batch db).1)
  unfolding Reads.purge batch
  checked_batch db e = rw (e, Reads.purge) refl

positive_limit :
    (a : ℤ) (s : Option Status) (l : ℕ) → validate_purge_input a s (pos l) ≡ ok tt → 0 < l
unfolding validate_purge_input
positive_limit (pos a) s l e = ground arith
positive_limit (negsuc a) s l e = ground arith

-- What the batches of one rule do together, ended by a short one.
record IsDrained (now : ℕ) (rule : RetentionRule) (db db' : Db) (n : ℕ) : Type 0 where
  valid : IsValid db'
  count : length db'.tasks + n ≡ length db.tasks
  empty : All (λ t. named_by now rule t ≡ false) db'.tasks
  kept : (q : Task → Bool) → All (λ t. q t ≡ false) db.tasks → All (λ t. q t ≡ false) db'.tasks

module _ (now : ℕ) (rule : RetentionRule) (l : ℕ) (stop : ℕ → Bool)
    (goes_on : (i : ℕ) → stop i ≡ false)
    (checked : validate_purge_input rule.older_than_ms rule.status (pos l) ≡ ok tt) where
  sweep_rule_step :
      (fuel i deleted : ℕ) (db : Db)
      → sweep_rule now (pos l) rule stop (suc fuel) i deleted db ≡ (
          if ltb_ℤ (pos (length (batch now rule l db).0)) (pos l)
          then some
              (drained, deleted + length (batch now rule l db).0, suc i, (batch now rule l db).1)
          else sweep_rule now
              (pos l)
              rule
              stop
              fuel
              (suc i)
              (deleted + length (batch now rule l db).0)
              (batch now rule l db).1)
  unfolding sweep_rule
  sweep_rule_step fuel i deleted db = rw (checked_batch now rule l db checked, goes_on i) refl

  short_batch :
      (db db' : Db) (n : ℕ) → IsBatch now rule l db db' n → n < l → IsDrained now rule db db' n
  short_batch db db' n b h = record {
    valid = b.valid;
    count = b.count;
    empty = none_over (named_by now rule) db'.tasks (omega (arith, b.rest, b.size));
    kept = b.kept;
  }

  after_batch :
      (db db' db'' : Db) (n m : ℕ)
      → IsBatch now rule l db db' n
      → IsDrained now rule db' db'' m
      → IsDrained now rule db db'' (n + m)
  after_batch db db' db'' n m b d = record {
    valid = d.valid;
    count = omega (arith, b.count, d.count);
    empty = d.empty;
    kept = λ q h. d.kept q (b.kept q h);
  }

  sweep_rule-IsDrained :
      (fuel i deleted : ℕ) (db : Db)
      → IsValid db
      → length db.tasks < fuel
      → (n : ℕ) × (j : ℕ) × (db' : Db) × (sweep_rule now (pos l) rule stop fuel i deleted db
          ≡ some (drained, deleted + n, j, db'))
        × IsDrained now rule db db' n
  sweep_rule-IsDrained zero i deleted db v f = absurd (omega arith)
  sweep_rule-IsDrained (suc fuel) i deleted db v f =
      let b = batch-IsBatch now rule l db v in
      let n = length (batch now rule l db).0 in
      let db' = (batch now rule l db).1 in
      let step = sweep_rule_step fuel i deleted db in
      elim (Bool-cases (ltb_ℤ (pos n) (pos l))) [
        | inl e ↦ (n, suc i, db', step ∙ rw e refl, short_batch db db' n b (ground arith))
        | inr e ↦
            let smaller : length db'.tasks < fuel =
              ground (arith, positive_limit rule.older_than_ms rule.status l checked, b.count) in
            let (m, j, db'', run, d) =
              sweep_rule-IsDrained fuel (suc i) (deleted + n) db' b.valid smaller in
            (
              n + m,
              j,
              db'',
              step ∙ (rw e (run ∙ ap (λ k. some (drained, k, j, db'')) (omega arith))),
              after_batch db db' db'' n m b d,
            )
      ]

bind_ok : (m k : Result (Unit {0})) → (m >> k) ≡ ok tt → (m ≡ ok tt) × (k ≡ ok tt)
bind_ok (ok u) k h = (refl, h)
bind_ok (raise e) k h = (cc, cc)

-- What a sweep leaves: a valid database, shorter by the number of rows that it returns, with no row
-- that any of the rules names.
pub record IsSwept (now : ℕ) (rs : List RetentionRule) (db db' : Db) (n : ℕ) : Type 0 where
  pub valid : IsValid db'
  pub count : length db'.tasks + n ≡ length db.tasks
  pub empty : All (λ rule. All (λ t. named_by now rule t ≡ false) db'.tasks) rs
  pub kept : (q : Task → Bool) → All (λ t. q t ≡ false) db.tasks → All (λ t. q t ≡ false) db'.tasks

module _ (now l : ℕ) (stop : ℕ → Bool) (goes_on : (i : ℕ) → stop i ≡ false) where
  after_rule :
      (rule : RetentionRule) (rs : List RetentionRule) (db db' db'' : Db) (n m : ℕ)
      → IsDrained now rule db db' n
      → IsSwept now rs db' db'' m
      → IsSwept now (rule ∷ rs) db db'' (n + m)
  after_rule rule rs db db' db'' n m d s = record {
    valid = s.valid;
    count = omega (arith, d.count, s.count);
    empty = (s.kept (named_by now rule) d.empty, s.empty);
    kept = λ q h. s.kept q (d.kept q h);
  }

  sweep_rules-IsSwept :
      (fuel : ℕ) (rs : List RetentionRule) (i deleted : ℕ) (db : Db)
      → validate_rules (pos l) rs ≡ ok tt
      → IsValid db
      → length db.tasks < fuel
      → (n : ℕ) × (db' : Db) × (sweep_rules now (pos l) stop fuel rs i deleted db
          ≡ some (ok (deleted + n), db'))
        × IsSwept now rs db db' n
  unfolding sweep_rules validate_rules
  sweep_rules-IsSwept fuel [] i deleted db h v f = (
    0,
    db,
    ap (λ k. some (ok k, db)) (omega arith),
    record { valid = v; count = omega arith; empty = tt; kept = λ q k. k },
  )
  sweep_rules-IsSwept fuel (rule ∷ rs) i deleted db h v f =
      let checks = bind_ok _ (validate_rules (pos l) rs) h in
      let (n, j, db', run, d) =
        sweep_rule-IsDrained now rule l stop goes_on checks.0 fuel i deleted db v f in
      let (m, db'', rest, s) =
        sweep_rules-IsSwept fuel rs j (deleted + n) db' checks.1 d.valid (omega (arith, d.count)) in
      (
        n + m,
        db'',
        rw (run, sweep_rules) (rest ∙ ap (λ k. some (ok k, db'')) (omega arith)),
        after_rule rule rs db db' db'' n m d s,
      )

post_init-rules : (r : Retention) → post_init r ≡ ok tt → validate_rules r.limit (rules r) ≡ ok tt
unfolding post_init
post_init-rules r h =
    (bind_ok (raise_if (ltb_ℤ r.interval_ms (pos 1)) value_error) (validate_rules r.limit (rules r))
      (bind_ok (raise_if (is_empty (rules r)) value_error) _ h).1).1

-- A sweep by an accepted retention, over a valid database that nothing else writes to meanwhile and by
-- a handle that is not being closed: with more fuel than there are rows it returns, without an error,
-- the number of rows by which the table is shorter, and leaves no row that any of its rules names at
-- that time, however small the batches.
pub sweep_drains :
    (now l fuel : ℕ) (r : Retention) (stop : ℕ → Bool) (db : Db)
    → ((i : ℕ) → stop i ≡ false)
    → r.limit ≡ pos l
    → post_init r ≡ ok tt
    → IsValid db
    → length db.tasks < fuel
    → (n : ℕ) × (db' : Db) × (sweep now r stop fuel db ≡ some (ok n, db'))
      × IsSwept now (rules r) db db' n
unfolding sweep
sweep_drains now l fuel r stop db goes_on e accepted v f =
    let checked : validate_rules (pos l) (rules r) ≡ ok tt =
      subst (λ k. validate_rules k (rules r) ≡ ok tt) e (post_init-rules r accepted) in
    let (n, db', run, s) =
      sweep_rules-IsSwept now l stop goes_on fuel (rules r) 0 0 db checked v f in
    (
      n,
      db',
      subst (λ k. sweep_rules now k stop fuel (rules r) 0 0 db ≡ some (ok (0 + n), db')) (sym e) run
          ∙ ap (λ k. some (ok k, db')) (omega arith),
      s,
    )
