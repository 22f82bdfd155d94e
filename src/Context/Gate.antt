-- ===== src/Context/Gate.antt =====
-- The handler's calls as one type, and the gate in front of their writes.
use cairnq.Prelude.{
  ℕ, ◌+◌, Bool, true, false, ◌≡◌, refl, ◌∙◌, Option, none, some, List, [], ◌∷◌, Text, Value,
  Bool-cases, inl, inr, if◌then◌else◌,
}
use cairnq.Models.{Progress, Task}
use cairnq.Errors.{Result, ok, raise, Codec, Reason}
use cairnq.Db
use cairnq.Db.{Db}
use cairnq.Store.Submit.{SubmitArgs}
use cairnq.Context
use cairnq.Context.{
  canceled_row, TaskContext, require_lease, owned, settle, observe, observe_cancel, mark_lease_lost,
  mark_settled,
}

-- `S` is the caller's own tables, which only `succeed_in` writes.
pub data HandlerCall (S : Type 0) : Type 0 where
  progress : ℕ → Option Progress → Option Text → HandlerCall S
  heartbeat : ℕ → HandlerCall S
  canceled : HandlerCall S
  succeed : ℕ → Option Value → HandlerCall S
  succeed_in : Bool → ℕ → (S → Result (Option Value × S)) → HandlerCall S
  fail : ℕ → Reason → Bool → HandlerCall S
  submit : Result (Unit {0}) → ℕ → Text → SubmitArgs → HandlerCall S

-- Whether a settlement landed.
abbrev pub is_settlement : Result (Option Task) → Bool
is_settlement (ok none) = false
is_settlement (ok (some t)) = true
is_settlement (raise e) = false

-- A call that leaves the caller's tables as they are.
abbrev pub beside : {S : Type 0} → S → TaskContext × Db → TaskContext × (S × Db)
beside s r = (r.0, (s, r.1))

-- A call's effect, with whether it settled the task.
unfoldable pub perform :
    {S : Type 0}
    → Codec
    → (ℕ → ℕ)
    → HandlerCall S
    → TaskContext
    → S × Db
    → Bool × (TaskContext × (S × Db))
perform c rand (progress now value message) x (s, db) =
    (false, beside s (Context.progress now value message x db).1)
perform c rand (heartbeat now) x (s, db) = (false, beside s (Context.heartbeat now x db).1)
perform c rand canceled x (s, db) = (false, ((Context.check_canceled x db).1, (s, db)))
perform c rand (succeed now result) x (s, db) =
    let r = Context.succeed c now result x db in (is_settlement r.0, beside s r.1)
perform c rand (succeed_in shares now write) x (s, db) =
    let r = Context.succeed_in c shares now write x (s, db) in (is_settlement r.0, r.1)
perform c rand (fail now error retryable) x (s, db) =
    let r = Context.fail c rand now error retryable x db in (is_settlement r.0, beside s r.1)
perform c rand (submit admit now child_id a) x (s, db) =
    (false, (x, (s, (Context.submit c admit now child_id a x db).1)))

-- The calls of a handler in turn, with the number of settlements that landed.
unfoldable pub perform_all :
    {S : Type 0}
    → Codec
    → (ℕ → ℕ)
    → List (HandlerCall S)
    → TaskContext
    → S × Db
    → ℕ × (TaskContext × (S × Db))
perform_all c rand [] x w = (0, (x, w))
perform_all c rand (call ∷ calls) x w =
    let r = perform c rand call x w in
    let rest = perform_all c rand calls r.1.0 r.1.1 in (if r.0 then rest.0 + 1 else rest.0, rest.1)

owned_lost {ℓ} :
    {S : Type ℓ} (write : S → Result Task × S) (x : TaskContext) (s : S)
    → x.lease_lost ≡ true
    → (owned write x s).1 ≡ (x, s)
unfolding owned require_lease
owned_lost write x s e = rw e refl

settle_lost :
    (write : Db → Result Task × Db) (x : TaskContext) (db : Db)
    → x.lease_lost ≡ true
    → (is_settlement (settle (owned write x db)).0 ≡ false)
      × ((settle (owned write x db)).1 ≡ (x, db))
unfolding owned require_lease settle
settle_lost write x db e = rw e (refl, refl)

-- The tables are the ones given, no settlement landed, and the lease is lost still.
abbrev pub IsShut : {S : Type 0} → S × Db → Bool × (TaskContext × (S × Db)) → Type 0
IsShut w r = (r.0 ≡ false) × ((r.1.0.lease_lost ≡ true) × (r.1.1 ≡ w))

-- The flags that a look at the cancel flag leaves as they are.
canceled_row_keeps :
    (o : Option Task) (x : TaskContext)
    → ((canceled_row o x).1.lease_lost ≡ x.lease_lost) × ((canceled_row o x).1.settled ≡ x.settled)
unfolding observe_cancel
canceled_row_keeps none x = (refl, refl)
canceled_row_keeps (some t) x = (refl, refl)

seen_keeps :
    (seen : Bool) (o : Option Task) (x : TaskContext)
    → ((if seen then (true, x) else canceled_row o x).1.lease_lost ≡ x.lease_lost)
      × ((if seen then (true, x) else canceled_row o x).1.settled ≡ x.settled)
seen_keeps true o x = (refl, refl)
seen_keeps false o x = canceled_row_keeps o x

pub check_canceled_keeps :
    (x : TaskContext) (db : Db)
    → ((Context.check_canceled x db).1.lease_lost ≡ x.lease_lost)
      × ((Context.check_canceled x db).1.settled ≡ x.settled)
unfolding Context.check_canceled
check_canceled_keeps x db = seen_keeps x.cancel_seen (Db.get x.task.id db) x

perform_lost :
    {S : Type 0} (c : Codec) (rand : ℕ → ℕ) (call : HandlerCall S) (x : TaskContext) (w : S × Db)
    → x.lease_lost ≡ true
    → IsShut w (perform c rand call x w)
unfolding perform Context.progress Context.heartbeat Context.check_canceled Context.succeed
    Context.succeed_in Context.fail Context.submit require_lease owned settle observe_cancel
perform_lost c rand (progress now value message) x (s, db) e = rw e (refl, (refl, refl))
perform_lost c rand (heartbeat now) x (s, db) e = rw e (refl, (refl, refl))
perform_lost c rand canceled x (s, db) e = (refl, ((check_canceled_keeps x db).0 ∙ e, refl))
perform_lost c rand (succeed now result) x (s, db) e = elim (Bool-cases x.settled) [
  | inl q ↦ rw q (refl, (e, refl))
  | inr q ↦ rw (q, e) (refl, (refl, refl))
]
perform_lost c rand (succeed_in shares now write) x (s, db) e = elim (Bool-cases x.settled) [
  | inl q ↦ rw q (refl, (e, refl))
  | inr q ↦ rw (q, e) (refl, (refl, refl))
]
perform_lost c rand (fail now error retryable) x (s, db) e = elim (Bool-cases x.settled) [
  | inl q ↦ rw q (refl, (e, refl))
  | inr q ↦ rw (q, e) (refl, (refl, refl))
]
perform_lost c rand (submit admit now child_id a) x (s, db) e = rw e (refl, (refl, refl))

-- Once the context has seen its lease lost, no sequence of the handler's calls settles the task,
-- submits a child or changes anything else in the database, nor anything in the tables that the
-- handler's own function writes in `succeed_in`.
pub perform_all-lost :
    {S : Type 0} (c : Codec) (rand : ℕ → ℕ) (calls : List (HandlerCall S)) (x : TaskContext)
    (w : S × Db)
    → x.lease_lost ≡ true
    → ((perform_all c rand calls x w).0 ≡ 0) × ((perform_all c rand calls x w).1.1 ≡ w)
unfolding perform_all
perform_all-lost c rand [] x w e = (refl, refl)
perform_all-lost c rand (call ∷ calls) x w e =
    let r = perform c rand call x w in
    let shut = perform_lost c rand call x w e in
    let rest = perform_all-lost c rand calls r.1.0 r.1.1 shut.1.0 in
    rw shut.0 (rest.0, rest.1 ∙ shut.1.1)
