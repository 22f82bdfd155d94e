-- ===== src/Store/Session/Twice.antt =====
-- The draws of one session do not overlap.
use cairnq.Prelude.{
  ℕ, Bool, true, false, ◌||◌, ◌≡◌, refl, sym, ◌∙◌, ap, subst, Option, List, [], ◌∷◌, map, Text,
  arith, All, filter, elem, Bool-cases, inl, inr, leb, ==_iff, ◌==◌,
}
use cairnq.Models.{queued, Task, status_eq}
use cairnq.Table.{ids, update_where, chosen_passes}
use cairnq.Due.{before, sort_due}
use cairnq.Rows.{claim_row}
use cairnq.Db
use cairnq.Db.{Db, claimable, select_due}
use cairnq.Statement.{claim, run}
use cairnq.Statement.Valid.{IsValid, run-IsValid}
use cairnq.Store.Session.{ClaimEnv, draw_filter, names_nothing, draw, draws}

false_not_true : false ≡ true → ⊥
false_not_true h = cc

-- No row of the id `i` is queued.
abbrev IsTaken : Text → List Task → Type 0
IsTaken i ts = All (λ r. (r.id == i) ≡ true → status_eq r.status queued ≡ false) ts

module _ (now : ℕ) (worker : Text) (lease_ms : ℕ) where
  ids-claim_row : (ts : List Task) → ids (map (claim_row now worker lease_ms) ts) ≡ ids ts
  unfolding claim_row
  ids-claim_row [] = refl
  ids-claim_row (t ∷ ts) = ap (λ l. t.id ∷ l) (ids-claim_row ts)

  among_chosen :
      (c : List Text) (i : Text) (ts : List Task)
      → elem i (ids (filter (λ t. elem t.id c) ts)) ≡ true
      → elem i c ≡ true
  among_chosen c i [] h = cc
  among_chosen c i (t ∷ ts) h = ground (arith, among_chosen c i ts, ==_iff t.id i, ==_iff i t.id)

  -- A row whose id was chosen is queued no more.
  taken :
      (c : List Text) (i : Text)
      → elem i c ≡ true
      → (ts : List Task)
      → IsTaken i (update_where (λ t. elem t.id c) (claim_row now worker lease_ms) ts)
  unfolding claim_row
  taken c i h [] = tt
  taken c i h (t ∷ ts) = elim (Bool-cases (elem t.id c)) [
    | inl e ↦ rw e (λ same. refl, taken c i h ts)
    | inr e ↦ rw e (
      λ same.
          absurd (
            false_not_true (sym e ∙ subst (λ j. elem j c ≡ true) (sym ((==_iff t.id i).0 same)) h)),
      taken c i h ts,
    )
  ]

  -- A claim queues nothing.
  taken_still :
      (c : List Text) (i : Text) (ts : List Task)
      → IsTaken i ts
      → IsTaken i (update_where (λ t. elem t.id c) (claim_row now worker lease_ms) ts)
  unfolding claim_row
  taken_still c i [] h = tt
  taken_still c i (t ∷ ts) h = elim (Bool-cases (elem t.id c)) [
    | inl e ↦ rw e (λ same. refl, taken_still c i ts h.1)
    | inr e ↦ rw e (h.0, taken_still c i ts h.1)
  ]

  none_of :
      (i : Text) (d : List Text) (p : Task → Bool) (ts : List Task)
      → IsTaken i ts
      → All (λ r. elem r.id d ≡ true → claimable now p r ≡ true) ts
      → elem i (ids (filter (λ t. elem t.id d) ts)) ≡ false
  unfolding claimable
  none_of i d p [] k l = refl
  none_of i d p (t ∷ ts) k l =
      ground (arith, none_of i d p ts k.1 l.1, ==_iff t.id i, ==_iff i t.id, k.0, l.0)

  claim_takes :
      (p : Task → Bool) (limit : ℕ) (db : Db) (i : Text)
      → elem i (ids (Db.claim now worker lease_ms p limit db).0) ≡ true
      → IsTaken i (Db.claim now worker lease_ms p limit db).1.tasks
  unfolding Db.claim
  claim_takes p limit db i h =
      let c = ids (select_due now p limit db) in
      let drawn : elem i (ids (filter (λ t. elem t.id c) db.tasks)) ≡ true =
        subst (λ l. elem i l ≡ true) (ids-claim_row (filter (λ t. elem t.id c) db.tasks)) h in
      taken c i (among_chosen c i db.tasks drawn) db.tasks

  claim_keeps :
      (p : Task → Bool) (limit : ℕ) (db : Db) (i : Text)
      → IsTaken i db.tasks
      → IsTaken i (Db.claim now worker lease_ms p limit db).1.tasks
  unfolding Db.claim
  claim_keeps p limit db i h = taken_still (ids (select_due now p limit db)) i db.tasks h

  claim_skips :
      (p : Task → Bool) (limit : ℕ) (db : Db)
      → IsValid db
      → (i : Text) → IsTaken i db.tasks
      → elem i (ids (Db.claim now worker lease_ms p limit db).0) ≡ false
  unfolding Db.claim select_due sort_due
  claim_skips p limit db v i h =
      let d = ids (select_due now p limit db) in
      subst (λ l. elem i l ≡ false) (sym (ids-claim_row (filter (λ t. elem t.id d) db.tasks)))
        (none_of i d p db.tasks h (chosen_passes before (claimable now p) limit db.tasks v.unique))

  claim-IsValid :
      (p : Task → Bool) (limit : ℕ) (db : Db)
      → IsValid db
      → IsValid (Db.claim now worker lease_ms p limit db).1
  unfolding run
  claim-IsValid p limit db v = run-IsValid now (claim worker lease_ms p limit) db v

module _ (env : ClaimEnv) where
  draw_takes :
      (names : Option (List Text)) (limit : ℕ) (db : Db) (i : Text)
      → elem i (ids (draw env names limit db).0) ≡ true
      → IsTaken i (draw env names limit db).1.tasks
  unfolding draw
  draw_takes names limit db i h = elim (Bool-cases (leb limit 0 || names_nothing names)) [
    | inl e ↦ (let none_there : elem i [] ≡ true = rw e at h in absurd (false_not_true none_there))
    | inr e ↦ rw e (
        claim_takes env.now env.worker env.lease_ms (draw_filter env.queues names) limit db i
          (rw e at h))
  ]

  draw_keeps :
      (names : Option (List Text)) (limit : ℕ) (db : Db) (i : Text)
      → IsTaken i db.tasks
      → IsTaken i (draw env names limit db).1.tasks
  unfolding draw
  draw_keeps names limit db i h = elim (Bool-cases (leb limit 0 || names_nothing names)) [
    | inl e ↦ rw e h
    | inr e ↦
        rw e
          (claim_keeps env.now env.worker env.lease_ms (draw_filter env.queues names) limit db i h)
  ]

  draw_skips :
      (names : Option (List Text)) (limit : ℕ) (db : Db)
      → IsValid db
      → (i : Text) → IsTaken i db.tasks
      → elem i (ids (draw env names limit db).0) ≡ false
  unfolding draw
  draw_skips names limit db v i h = elim (Bool-cases (leb limit 0 || names_nothing names)) [
    | inl e ↦ rw e refl
    | inr e ↦
        rw e (
          claim_skips env.now env.worker env.lease_ms (draw_filter env.queues names) limit db v i h)
  ]

  draw-IsValid :
      (names : Option (List Text)) (limit : ℕ) (db : Db)
      → IsValid db
      → IsValid (draw env names limit db).1
  unfolding draw
  draw-IsValid names limit db v = elim (Bool-cases (leb limit 0 || names_nothing names)) [
    | inl e ↦ rw e v
    | inr e ↦
        rw e
          (claim-IsValid env.now env.worker env.lease_ms (draw_filter env.queues names) limit db v)
  ]

  draws_skip :
      (between : List (Option (List Text) × ℕ)) (later : Option (List Text)) (more : ℕ) (db : Db)
      → IsValid db
      → (i : Text) → IsTaken i db.tasks
      → elem i (ids (draw env later more (draws env between db)).0) ≡ false
  unfolding draws
  draws_skip [] later more db v i h = draw_skips later more db v i h
  draws_skip ((names, limit) ∷ rest) later more db v i h =
      draws_skip rest later more (draw env names limit db).1 (draw-IsValid names limit db v) i
        (draw_keeps names limit db i h)

  -- Within one session over a valid database, a task that a draw hands out is handed out by no later
  -- draw, however many draws stand in between and whatever names and limits each asks for.
  pub draw_once :
      (names later : Option (List Text)) (limit more : ℕ) (between : List (Option (List Text) × ℕ))
      (db : Db)
      → IsValid db
      → (i : Text) → elem i (ids (draw env names limit db).0) ≡ true
      → elem i (ids (draw env later more (draws env between (draw env names limit db).1)).0) ≡ false
  draw_once names later limit more between db v i h =
      draws_skip between later more (draw env names limit db).1 (draw-IsValid names limit db v) i
        (draw_takes names limit db i h)
