-- ===== src/Sqlite/Loop/Tracks.antt =====
-- What the retries of one turn of the flusher leave, and how far they have come.
use cairnq.Prelude.{
  append_assoc, ℕ, zero, suc, ◌≤◌, false, ◌||◌, ◌≡◌, refl, sym, ◌∙◌, ap, subst, Option, none, some,
  List, [], ◌∷◌, ◌++◌, arith, length, drop,
}
use cairnq.Driver.{Exc, Reply, rows, Driver, IsSqlite}
use cairnq.Sqlite.{Pending, Flusher, Arrivals, flush}
use cairnq.Sqlite.Turn.{IsTurn, flush-IsTurn, append_empty}
use cairnq.Sqlite.Retry.{
  Env, Clocked, locked, busy_retry_base, busy_deadline, retrying_last, with_lock,
}
use cairnq.Sqlite.Loop.{next_arrivals, outcome, Shared, flush_once}
use cairnq.Sqlite.Loop.Known.{
  waits, arrives, arrives-append, or_trans, or_false_right, known, turn_known,
}

length-drop {ℓ} : {A : Type ℓ} → (n : ℕ) (xs : List A) → length (drop n xs) ≤ length xs
length-drop zero xs = omega arith
length-drop (suc n) [] = omega arith
length-drop (suc n) (x ∷ xs) = omega (arith, length-drop n xs)

-- The turns that a store can still take.
abbrev pub todo : {Q : Type 0} → List (Pending Q) → List (Arrivals Q) → ℕ
todo [] schedule = 0
todo (w ∷ ws) schedule = suc (length schedule)

pub todo-le :
    {Q : Type 0}
    → (ws : List (Pending Q)) (schedule : List (Arrivals Q))
    → todo ws schedule ≤ suc (length schedule)
todo-le [] schedule = omega arith
todo-le (w ∷ ws) schedule = omega arith

module _ {C Q R S : Type 0} (d : Driver C Q R) (effect : Q → S → S × R)
    (law : IsSqlite S d effect) where
  -- From one store to a later one: the arrivals `used`, and nothing lost or made up.
  abbrev pub Tracks : List (Arrivals Q) → Shared d → Shared d → Type 0
  Tracks used (st, schedule) (st', schedule') =
      (schedule ≡ used ++ schedule')
      × ((id : ℕ) → known id st' ≡ (arrives id used || known id st))
      × (d.in_transaction st'.conn ≡ false)

  Tracks-trans :
      (us vs : List (Arrivals Q)) (x y z : Shared d)
      → Tracks us x y
      → Tracks vs y z
      → Tracks (us ++ vs) x z
  Tracks-trans us vs (st, _) (st', _) (st'', rest) (split, same, outside)
        (split', same', outside') =
      (
        split ∙ (ap (λ ws. us ++ ws) split' ∙ sym (append_assoc us vs rest)),
        λ id.
            or_trans (known id st) (known id st') (known id st'') (arrives id us) (arrives id vs)
              (arrives id (us ++ vs)) (same id) (same' id) (arrives-append id us vs),
        outside',
      )

  IsTurn-outside :
      (st : Flusher C Q R) (a : Arrivals Q) (out : Flusher C Q R × Option Exc)
      → IsTurn d effect law st a out
      → d.in_transaction out.0.conn ≡ false
  IsTurn-outside st a (st', none) (_, _, _, _, _, outside) = outside
  IsTurn-outside st a (st', some e) (_, _, _, _, outside) = outside

  once-Tracks :
      (x : Shared d)
      → d.in_transaction x.0.conn ≡ false
      → (used : List (Arrivals Q)) × Tracks used x (flush_once d x).0
  once-Tracks (st, []) h =
      let a = next_arrivals {Q = Q} [] in
      let turn = flush-IsTurn d effect law st a h in
      (
        [],
        (
          refl,
          λ id. turn_known d effect law id st a (flush d st a) turn,
          IsTurn-outside st a (flush d st a) turn,
        ),
      )
  once-Tracks (st, a ∷ schedule) h =
      let turn = flush-IsTurn d effect law st a h in
      (
        a ∷ [],
        (
          refl,
          λ id.
              turn_known d effect law id st a (flush d st a) turn
              ∙ ap (λ b. b || known id st) (or_false_right (waits id (a.before ++ a.during))),
          IsTurn-outside st a (flush d st a) turn,
        ),
      )

  no_pending :
      (st : Flusher C Q R) (out : Flusher C Q R × Option Exc)
      → IsTurn d effect law st (next_arrivals []) out
      → outcome out.1 ≡ rows tt
      → out.0.pending ≡ []
  no_pending st (st', none) (_, extra, split, _, _, _) h =
      (append_empty extra st'.pending (sym split)).1
  no_pending st (st', some e) turn h = cc

  once_todo :
      (x : Shared d)
      → d.in_transaction x.0.conn ≡ false
      → (flush_once d x).1 ≡ rows tt
      → todo (flush_once d x).0.0.pending (flush_once d x).0.1 ≤ length x.1
  once_todo (st, []) h e =
      rw
        (no_pending st (flush d st (next_arrivals []))
          (flush-IsTurn d effect law st (next_arrivals []) h) e)
        (omega arith)
  once_todo (st, a ∷ schedule) h e = todo-le (flush d st a).0.pending schedule

  module _ (env : Env) (busy_timeout_ms tries : ℕ) where
    -- Before any attempt: what has happened since `x`.
    abbrev Since : Shared d → Clocked (Shared d) → Type 0
    Since x v =
        ((used : List (Arrivals Q)) × Tracks used x v.state) × (length v.state.1 ≤ length x.1)

    abbrev pub IsLocked : Shared d → Clocked (Shared d) × Reply (Unit {0}) → Type 0
    IsLocked x out =
        ((used : List (Arrivals Q)) × Tracks used x out.0.state)
        × (out.1 ≡ rows tt → todo out.0.state.0.pending out.0.state.1 ≤ length x.1)

    outside_of :
        (x : Shared d) (v : Clocked (Shared d))
        → Since x v
        → d.in_transaction v.state.0.conn ≡ false
    outside_of x v ((used, tracks), small) = tracks.2

    attempt-Since :
        (x : Shared d) (v : Clocked (Shared d))
        → Since x v
        → Since x (locked env (flush_once d) v).0
    attempt-Since x v h =
        let ((used, tracks), small) = h in
        let (more, next) = once-Tracks v.state (outside_of x v h) in
        (
          (used ++ more, Tracks-trans used more x v.state (flush_once d v.state).0 tracks next),
          omega (arith, length-drop 1 v.state.1),
        )

    attempt-IsLocked :
        (x : Shared d) (v : Clocked (Shared d))
        → Since x v
        → IsLocked x (locked env (flush_once d) v)
    attempt-IsLocked x v h =
        let (since, small) = attempt-Since x v h in
        (since, λ e. omega (arith, once_todo v.state (outside_of x v h) e, h.1))

    pub with_lock-IsLocked :
        (w : Clocked (Shared d)) (out : Clocked (Shared d) × Reply (Unit {0}))
        → d.in_transaction w.state.0.conn ≡ false
        → with_lock env busy_timeout_ms (flush_once d) tries w ≡ some out
        → IsLocked w.state out
    unfolding with_lock
    with_lock-IsLocked w out h e =
        let (v, since, last) =
          retrying_last env (Since w.state) (locked env (flush_once d)) tries
            (busy_deadline busy_timeout_ms w) busy_retry_base w out
            (λ v x p raise. attempt-Since w.state v p) (λ delay v p. p)
            (([], (refl, λ id. refl, h)), omega arith) e in
        subst (λ o. IsLocked w.state o) last (attempt-IsLocked w.state v since)
