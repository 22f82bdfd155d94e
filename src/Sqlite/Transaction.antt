-- ===== src/Sqlite/Transaction.antt =====
-- `_begin` and `_transaction`: several statements as one, with the store's lock held throughout.
use cairnq.Prelude.{
  ℕ, suc, ◌+◌, ◌*◌, ◌<◌, true, false, ◌≡◌, refl, sym, ◌∙◌, ap, Option, none, some, arith, is_none,
}
use cairnq.Driver.{Exc, Reply, rows, raised, Driver, IsSqlite}
use cairnq.Sqlite.Retry.{
  Env, Clocked, busy_retry_base, busy_deadline, retrying, retrying-Returns, retrying_last,
}

abbrev pub began : Option Exc → Reply (Unit {0})
began none = rows tt
began (some e) = raised e

module _ {C Q R : Type 0} (d : Driver C Q R) (env : Env) where
  -- One round of `_begin`: the lock is kept if the transaction opened.
  abbrev pub begin_attempt : Clocked C → Clocked C × Reply (Unit {0})
  begin_attempt w = (
    record {
      state = (d.begin w.state).0;
      held = is_none (d.begin w.state).1;
      clock = w.clock + env.took w.attempts;
      attempts = suc w.attempts;
    },
    began (d.begin w.state).1,
  )

  unfoldable pub begin : ℕ → ℕ → Clocked C → Option (Clocked C × Reply (Unit {0}))
  unfolding retrying
  begin busy_timeout_ms tries w =
      retrying env begin_attempt tries (busy_deadline busy_timeout_ms w) busy_retry_base w

module _ {C Q R A : Type 0} (d : Driver C Q R) (env : Env) where
  -- The COMMIT inside the `try`, and the ROLLBACK of its `except`.
  abbrev pub at_block_commit : C × Option Exc → A → C × Reply A
  at_block_commit (c, none) a = (c, rows a)
  at_block_commit (c, some e) a = (d.rollback c, raised e)

  abbrev pub after_block : C × Reply A → C × Reply A
  after_block (c, rows a) = at_block_commit (d.commit c) a
  after_block (c, raised e) = (d.rollback c, raised e)

  -- The block, and the release of the lock in `finally`.
  abbrev pub in_transaction_run :
      (C → C × Reply A) → Option (Clocked C × Reply (Unit {0})) → Option (Clocked C × Reply A)
  in_transaction_run block none = none
  in_transaction_run block (some (w, raised e)) = some (w, raised e)
  in_transaction_run block (some (w, rows u)) = some (
    record w { state = (after_block (block w.state)).0; held = false },
    (after_block (block w.state)).1,
  )

  -- `_transaction` around a block; none when the fuel of `_begin` ran out.
  unfoldable pub transaction : ℕ → (C → C × Reply A) → ℕ → Clocked C → Option (Clocked C × Reply A)
  unfolding begin
  transaction busy_timeout_ms block tries w =
      in_transaction_run block (begin d env busy_timeout_ms tries w)

module _ {C Q R A S : Type 0} (d : Driver C Q R) (effect : Q → S → S × R)
    (law : IsSqlite S d effect) (env : Env) (block : C → C × Reply A)
    (kept : (c : C) → d.in_transaction c ≡ true → law.durable (block c).0 ≡ law.durable c) where
  -- A transaction from `w` that ended: outside a transaction, with the lock released; and, if it
  -- returned, with what the block made of the database as durable, and otherwise with nothing changed.
  abbrev pub IsAtomic : S → Clocked C × Reply A → Type 0
  IsAtomic s (w, rows a) =
      (w.held ≡ false)
      × (d.in_transaction w.state ≡ false)
      × ((c : C) × (d.in_transaction c ≡ true)
          × (law.working c ≡ s)
          × ((block c).1 ≡ rows a)
          × (law.durable w.state ≡ law.working (block c).0))
  IsAtomic s (w, raised e) =
      (w.held ≡ false) × (d.in_transaction w.state ≡ false) × (law.durable w.state ≡ s)

  -- Before the transaction opens.
  abbrev IsIdle : S → Clocked C → Type 0
  IsIdle s v = (v.held ≡ false) × (d.in_transaction v.state ≡ false) × (law.durable v.state ≡ s)

  failed-IsIdle :
      (s : S) (v : Clocked C) (failed : Option Exc) (e : Exc)
      → IsIdle s v
      → (d.begin v.state).1 ≡ failed
      → began failed ≡ raised e
      → IsIdle s (begin_attempt d env v).0
  failed-IsIdle s v none e h k raise = cc
  failed-IsIdle s v (some x) e (free, outside, same) k raise = (
    ap (λ o. is_none o) k,
    law.begin_fails v.state x k ∙ outside,
    law.begin_durable v.state ∙ same,
  )

  -- The release of the lock in `finally`, after the block.
  abbrev released : Clocked C → C × Reply A → Clocked C × Reply A
  released w out = (record w { state = out.0; held = false }, out.1)

  module _ (s : S) (w : Clocked C) (inside : d.in_transaction w.state ≡ true)
      (same : law.durable w.state ≡ s) (view : law.working w.state ≡ s) where
    commit-IsAtomic :
        (a : A) (failed : Option Exc)
        → (block w.state).1 ≡ rows a
        → (d.commit (block w.state).0).1 ≡ failed
        → IsAtomic s (released w (at_block_commit d env ((d.commit (block w.state).0).0, failed) a))
    commit-IsAtomic a none ran e =
        let (outside, landed) = law.commit_lands (block w.state).0 e in
        (refl, outside, (w.state, inside, view, ran, landed))
    commit-IsAtomic a (some x) ran e =
        let c = (d.commit (block w.state).0).0 in
        (
          refl,
          law.rollback_ends c,
          law.rollback_durable c
              ∙ (law.commit_fails (block w.state).0 x e ∙ (kept w.state inside ∙ same)),
        )

    block-IsAtomic :
        (reply : Reply A)
        → (block w.state).1 ≡ reply
        → IsAtomic s (released w (after_block d env ((block w.state).0, reply)))
    block-IsAtomic (rows a) e = commit-IsAtomic a (d.commit (block w.state).0).1 e refl
    block-IsAtomic (raised x) e = (
      refl,
      law.rollback_ends (block w.state).0,
      law.rollback_durable (block w.state).0 ∙ (kept w.state inside ∙ same),
    )

  begun-IsAtomic :
      (s : S) (v : Clocked C) (failed : Option Exc)
      → IsIdle s v
      → (d.begin v.state).1 ≡ failed
      → (out : Clocked C × Reply A) × (in_transaction_run d env block
            (some ((begin_attempt d env v).0, began failed))
          ≡ some out)
        × IsAtomic s out
  begun-IsAtomic s v none (free, outside, same) e =
      let (inside, view) = law.begin_opens v.state e in
      let w = (begin_attempt d env v).0 in
      (
        released w (after_block d env (block w.state)),
        refl,
        block-IsAtomic s w inside (law.begin_durable v.state ∙ same) (view ∙ same) (block w.state).1
            refl,
      )
  begun-IsAtomic s v (some x) h e =
      (((begin_attempt d env v).0, raised x), refl, failed-IsIdle s v (some x) x h e refl)

  -- A transaction ends, given one attempt at its BEGIN more than twice the budget's milliseconds; it
  -- ends outside a transaction and with the lock released. When it returns, the block ran once, inside
  -- a transaction on the database as it was, and what it made of it is durable; when it raises, the
  -- database is as it was. The block is any that makes nothing durable inside a transaction.
  pub transaction-IsAtomic :
      (busy_timeout_ms tries : ℕ) (w : Clocked C)
      → 2 * busy_timeout_ms < tries
      → w.held ≡ false
      → d.in_transaction w.state ≡ false
      → (out : Clocked C × Reply A) × (transaction d env busy_timeout_ms block tries w ≡ some out)
        × IsAtomic (law.durable w.state) out
  unfolding transaction begin
  transaction-IsAtomic busy_timeout_ms tries w enough free outside =
      let deadline = busy_deadline busy_timeout_ms w in
      let s = law.durable w.state in
      let (begun, e, final) =
        retrying-Returns env (begin_attempt d env) tries deadline busy_retry_base w
          (λ v. omega arith) (omega arith) (omega arith) (omega arith) in
      let (v, idle, last) =
        retrying_last env (IsIdle s) (begin_attempt d env) tries deadline busy_retry_base w begun
          (λ v x h k. failed-IsIdle s v (d.begin v.state).1 x h refl k) (λ delay v h. h)
          (free, outside, refl) e in
      let (out, ran, atomic) = begun-IsAtomic s v (d.begin v.state).1 idle refl in
      (
        out,
        ap (λ o. in_transaction_run d env block o) (e ∙ ap (λ o. some o) (sym last)) ∙ ran,
        atomic,
      )
