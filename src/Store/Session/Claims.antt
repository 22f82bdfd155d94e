-- ===== src/Store/Session/Claims.antt =====
-- What one draw of a claim session returns.
use cairnq.Prelude.{
  ℕ, zero, suc, ◌+◌, ◌≤◌, ◌<◌, Bool, true, false, ◌||◌, ◌≡◌, refl, ap, ◌∙◌, fun_ext, Option, some,
  List, [], ◌∷◌, map, Text, arith, All, All-filter_with, filter, any, elem, length, Bool-cases, inl,
  inr, leb, leb→le, min, if◌then◌else◌,
}
use cairnq.Models.{running, Task}
use cairnq.Table.{ids, chosen_passes, none_updated}
use cairnq.Table.Counting.{length-selected}
use cairnq.Prelude.Sort.{sort_by}
use cairnq.Due.{before, sort_due}
use cairnq.Due.Order.{left_out_waits}
use cairnq.Rows.{claim_row, lease_expired, recover_row}
use cairnq.Db
use cairnq.Db.{Db, update, claimable, select_due}
use cairnq.Statement.Valid.{IsValid}
use cairnq.Store.Session.{
  ClaimEnv, draw_filter, draw_filter_general, names_nothing, draw, has_claimable_work,
}
use cairnq.Store.Session.Filters.{draw_filter-general}

length-map : (f : Task → Task) (ts : List Task) → length (map f ts) ≡ length ts
length-map f [] = refl
length-map f (t ∷ ts) = ap suc (length-map f ts)

All-map :
    (P : Task → Type 0) (f : Task → Task) (ts : List Task)
    → All (λ t. P (f t)) ts
    → All P (map f ts)
All-map P f [] h = tt
All-map P f (t ∷ ts) h = (h.0, All-map P f ts h.1)

module _ (now : ℕ) (worker : Text) (lease_ms : ℕ) (p : Task → Bool) (limit : ℕ) (db : Db)
    (v : IsValid db) where
  length-claim :
      length (Db.claim now worker lease_ms p limit db).0
      ≡ min limit (length (filter (claimable now p) db.tasks))
  unfolding Db.claim select_due sort_due
  length-claim =
      length-map (claim_row now worker lease_ms) _
      ∙ length-selected before (claimable now p) limit db.tasks v.unique

  All-claim :
      (P : Task → Type 0)
      → ((t : Task) → claimable now p t ≡ true → P (claim_row now worker lease_ms t))
      → All P (Db.claim now worker lease_ms p limit db).0
  unfolding Db.claim select_due sort_due
  All-claim P h = All-map P (claim_row now worker lease_ms) _ (
      All-filter_with _ _ (λ t passes e. h t (passes e)) db.tasks
        (chosen_passes before (claimable now p) limit db.tasks v.unique))

-- A task as a claim hands it out: running under the claimer's fresh lease, on a watched queue, of a
-- drawn name, and due.
pub record IsClaimed (env : ClaimEnv) (names : Option (List Text)) (t : Task) : Type 0 where
  pub is_running : t.status ≡ running
  pub holder : t.worker_id ≡ some env.worker
  pub lease : t.lease_until_ms ≡ some (env.now + env.lease_ms)
  pub watched : draw_filter_general env.queues names t ≡ true
  pub due : t.run_at_ms ≤ env.now
  pub attempted : 0 < t.attempt

claim_row-IsClaimed :
    (env : ClaimEnv) (names : Option (List Text)) (t : Task)
    → claimable env.now (draw_filter env.queues names) t ≡ true
    → IsClaimed env names (claim_row env.now env.worker env.lease_ms t)
unfolding claimable claim_row draw_filter_general
claim_row-IsClaimed env names t h = ground (arith, draw_filter-general env.queues names t)

or_true : (b : Bool) → (b || true) ≡ true
or_true true = refl
or_true false = refl

min_none : (n k : ℕ) → n ≤ 0 → 0 ≡ min n k
min_none n k h = omega arith

-- On a valid database a draw hands out as many tasks as its limit allows and are claimable, and no
-- more: each running under the caller's fresh lease, due, on a watched queue and of a drawn name. A
-- draw that asks for nothing, or for no names, hands out none.
pub draw_lem :
    (env : ClaimEnv) (names : Option (List Text)) (limit : ℕ) (db : Db)
    → IsValid db
    → All (IsClaimed env names) (draw env names limit db).0
      × (length (draw env names limit db).0 ≡ (
          if names_nothing names
          then 0
          else min limit
              (length (filter (claimable env.now (draw_filter env.queues names)) db.tasks))))
unfolding draw
draw_lem env names limit db v = elim (Bool-cases (names_nothing names)) [
  | inl e ↦ rw (e, or_true (leb limit 0)) (tt, refl)
  | inr e ↦ elim (Bool-cases (leb limit 0)) [
    | inl z ↦ rw (e, z) (tt, min_none limit _ (leb→le limit 0 z))
    | inr z ↦
        rw (e, z)
          (
            All-claim env.now env.worker env.lease_ms (draw_filter env.queues names) limit db v
                (IsClaimed env names) (claim_row-IsClaimed env names),
            length-claim env.now env.worker env.lease_ms (draw_filter env.queues names) limit db v,
          )
  ]
]

-- The tasks that a draw leaves: each claimable one that it does not take comes, in the order of
-- priority, due time and id, after every one that it takes.
pub claim_in_order :
    (now : ℕ) (p : Task → Bool) (limit : ℕ) (db : Db)
    → All
        (λ t.
          claimable now p t ≡ true
          → elem t.id (ids (select_due now p limit db)) ≡ false
          → All (λ c. before c t ≡ true) (select_due now p limit db))
        db.tasks
unfolding select_due
claim_in_order now p limit db = left_out_waits limit (claimable now p) db.tasks

nothing_due :
    (now : ℕ) (p : Task → Bool) (ts : List Task)
    → any (λ t. claimable now p t || lease_expired now t) ts ≡ false
    → (filter (claimable now p) ts ≡ []) × (filter (lease_expired now) ts ≡ [])
nothing_due now p [] h = (refl, refl)
nothing_due now p (t ∷ ts) h =
    let rest = nothing_due now p ts (ground arith) in (ground arith, ground arith)

same_filter :
    (env : ClaimEnv) (names : Option (List Text))
    → draw_filter env.queues names ≡ draw_filter_general env.queues names
same_filter env names = fun_ext (draw_filter-general env.queues names)

none_chosen : (ts : List Task) → filter (λ t. elem t.id []) ts ≡ []
none_chosen [] = refl
none_chosen (t ∷ ts) = none_chosen ts

idle_claim :
    (now : ℕ) (worker : Text) (lease_ms : ℕ) (p : Task → Bool) (limit : ℕ) (db : Db)
    → filter (claimable now p) db.tasks ≡ []
    → Db.claim now worker lease_ms p limit db ≡ ([], db)
unfolding Db.claim select_due sort_due sort_by
idle_claim now worker lease_ms p zero db e =
    rw
      (
        none_updated _ (claim_row now worker lease_ms) _ (none_chosen db.tasks),
        none_chosen db.tasks,
      )
      refl
idle_claim now worker lease_ms p (suc limit) db e = rw e (
    rw
      (
        none_updated _ (claim_row now worker lease_ms) _ (none_chosen db.tasks),
        none_chosen db.tasks,
      )
      refl)

-- When the probe finds nothing, the transaction that it saves would have done nothing: recovery
-- would leave the database as it is, and so would a draw of the names, of any size, which would
-- hand out no task.
pub probe_complete :
    (env : ClaimEnv) (names : Option (List Text)) (limit : ℕ) (db : Db)
    → has_claimable_work env names db ≡ false
    → ((Db.recover_leases env.now env.lease_expired_error db).1 ≡ db)
      × (draw env names limit db ≡ ([], db))
unfolding has_claimable_work Db.claimable_probe Db.recover_leases draw
probe_complete env names limit db h =
    let quiet = nothing_due env.now (draw_filter_general env.queues names) db.tasks h in
    (
      rw (none_updated _ (recover_row env.now env.lease_expired_error) _ quiet.1) refl,
      elim (Bool-cases (leb limit 0 || names_nothing names)) [
        | inl e ↦ rw e refl
        | inr e ↦ rw e (
            idle_claim env.now env.worker env.lease_ms (draw_filter env.queues names) limit db
              (rw (same_filter env names) quiet.0))
      ],
    )
