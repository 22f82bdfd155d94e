-- ===== src/Context/Settled.antt =====
-- A handler settles its task once.
use cairnq.Prelude.{
  Value, ℕ, ◌≤◌, Bool, true, false, ◌≡◌, refl, sym, ◌∙◌, Option, none, List, [], ◌∷◌, arith,
  Bool-cases, inl, inr, if◌then◌else◌,
}
use cairnq.Models.{Task}
use cairnq.Errors.{Result, ok, raise, Codec, as_envelope}
use cairnq.Db.{Db}
use cairnq.Backoff.{fail_delay_ms}
use cairnq.Store.Owned
use cairnq.Context
use cairnq.Context.{
  TaskContext, require_lease, owned, settle, observe, observe_cancel, mark_lease_lost, mark_settled,
  is_lost_lease, settled_task,
}
use cairnq.Context.Gate.{
  HandlerCall, progress, heartbeat, canceled, succeed, succeed_in, fail, submit, is_settlement,
  perform, perform_all, check_canceled_keeps,
}

true_not_false : true ≡ false → ⊥
true_not_false h = cc

observe_settled : (r : Result Task) (x : TaskContext) → (observe r x).settled ≡ x.settled
unfolding observe observe_cancel mark_lease_lost
observe_settled (ok t) x = refl
observe_settled (raise e) x = ground arith

owned_settled {ℓ} :
    {S : Type ℓ} (write : S → Result Task × S) (x : TaskContext) (db : S)
    → (owned write x db).1.0.settled ≡ x.settled
unfolding owned require_lease
owned_settled write x db = ground (arith, observe_settled (write db).0 x)

settle_marks {ℓ} :
    {S : Type ℓ} (r : Result Task × (TaskContext × S))
    → r.1.0.settled ≡ false
    → (settle r).1.0.settled ≡ is_settlement (settle r).0
unfolding settle mark_settled
settle_marks (ok t, (x, db)) e = refl
settle_marks (raise err, (x, db)) e = e

-- A call settles the task at most when the context is not settled, and the mark is then set.
abbrev IsMarked : TaskContext → Bool → TaskContext → Type 0
IsMarked x landed y =
    (x.settled ≡ true → (landed ≡ false) × (y.settled ≡ true))
    × (x.settled ≡ false → y.settled ≡ landed)

kept_mark : (x y : TaskContext) → y.settled ≡ x.settled → IsMarked x false y
kept_mark x y e = (λ h. (refl, e ∙ h), λ h. e ∙ h)

-- A settlement, behind the test of the mark.
abbrev guarded {ℓ} :
    {S : Type ℓ}
    → Bool
    → (S → Result Task × S)
    → TaskContext
    → S
    → Result (Option Task) × (TaskContext × S)
guarded settled write x db = if settled then (ok none, (x, db)) else settle (owned write x db)

settlement {ℓ} :
    {S : Type ℓ} (write : S → Result Task × S) (settled : Bool) (x : TaskContext) (db : S)
    → x.settled ≡ settled
    → IsMarked x (is_settlement (guarded settled write x db).0) (guarded settled write x db).1.0
settlement write true x db e = (λ h. (refl, e), λ h. absurd (true_not_false (sym e ∙ h)))
settlement write false x db e = (
  λ h. absurd (true_not_false (sym h ∙ e)),
  λ h. settle_marks (owned write x db) (owned_settled write x db ∙ e),
)

-- The write of `succeed_in`, to both tables.
abbrev write_in :
    {S : Type 0}
    → Codec
    → Bool
    → ℕ
    → (S → Result (Option Value × S))
    → TaskContext
    → S × Db
    → Result Task × (S × Db)
write_in c shares now write x w =
    let r = Owned.complete_in c shares now x.worker_id x.task.id write w.0 w.1 in
    (settled_task r.0, r.1)

perform-IsMarked :
    {S : Type 0} (c : Codec) (rand : ℕ → ℕ) (call : HandlerCall S) (x : TaskContext) (w : S × Db)
    → IsMarked x (perform c rand call x w).0 (perform c rand call x w).1.0
unfolding perform Context.progress Context.heartbeat Context.succeed Context.succeed_in Context.fail
perform-IsMarked c rand (progress now value message) x (s, db) =
    let write = Owned.progress now x.worker_id x.task.id value message in
    kept_mark x (owned write x db).1.0 (owned_settled write x db)
perform-IsMarked c rand (heartbeat now) x (s, db) =
    let write = Owned.heartbeat now x.worker_id x.task.id x.lease_ms in
    kept_mark x (owned write x db).1.0 (owned_settled write x db)
perform-IsMarked c rand canceled x (s, db) =
    kept_mark x (Context.check_canceled x db).1 (check_canceled_keeps x db).1
perform-IsMarked c rand (succeed now result) x (s, db) =
    settlement (Owned.complete c now x.worker_id x.task.id result) x.settled x db refl
perform-IsMarked c rand (succeed_in shares now write) x (s, db) =
    settlement (write_in c shares now write x) x.settled x (s, db) refl
perform-IsMarked c rand (fail now error retryable) x (s, db) =
    let e = as_envelope error retryable in
    settlement
      (Owned.fail c now x.worker_id x.task.id e.0 e.1
        (fail_delay_ms rand x.task.attempt e.1 x.retry_backoff_ms x.retry_backoff_max_ms))
      x.settled x db refl
perform-IsMarked c rand (submit admit now child_id a) x (s, db) = kept_mark x x refl

settled_count :
    {S : Type 0} (calls : List (HandlerCall S)) (c : Codec) (rand : ℕ → ℕ) (x : TaskContext)
    (w : S × Db)
    → x.settled ≡ true
    → (perform_all c rand calls x w).0 ≡ 0
unfolding perform_all
settled_count [] c rand x w e = refl
settled_count (call ∷ calls) c rand x w e =
    let r = perform c rand call x w in
    let m = (perform-IsMarked c rand call x w).0 e in
    rw m.0 (settled_count calls c rand r.1.0 r.1.1 m.1)

-- Whatever calls a handler makes through its context, in whatever order, at most one of them settles
-- the task.
pub settles_once :
    {S : Type 0} (c : Codec) (rand : ℕ → ℕ) (calls : List (HandlerCall S)) (x : TaskContext)
    (w : S × Db)
    → (perform_all c rand calls x w).0 ≤ 1
unfolding perform_all
settles_once c rand [] x w = omega arith
settles_once c rand (call ∷ calls) x w =
    let r = perform c rand call x w in
    let m = perform-IsMarked c rand call x w in
    let rest = settles_once c rand calls r.1.0 r.1.1 in
    elim (Bool-cases r.0) [
      | inr e ↦ rw e rest
      | inl e ↦ elim (Bool-cases x.settled) [
        | inl q ↦ absurd (true_not_false (sym e ∙ (m.0 q).0))
        | inr q ↦ rw e (omega (arith, settled_count calls c rand r.1.0 r.1.1 (m.1 q ∙ e)))
      ]
    ]
