-- ===== src/Sqlite/Loop/Settles.antt =====
-- The flusher ends, and no write waits for ever.
use cairnq.Prelude.{
  append_assoc, append_assoc, ℕ, zero, suc, ◌+◌, ◌*◌, ◌≤◌, ◌<◌, false, ◌||◌, ◌≡◌, refl, sym, ◌∙◌,
  ap, subst, Option, some, List, [], ◌∷◌, ◌++◌, arith, length,
}
use cairnq.Driver.{Exc, Reply, rows, raised, Driver, IsSqlite}
use cairnq.Sqlite.{Pending, Arrivals, is_done, all_raised}
use cairnq.Sqlite.Retry.{Env, Clocked, with_lock, with_lock-Returns}
use cairnq.Sqlite.Loop.{Shared, flush_once, strand, after_lock, while_pending, flush_loop}
use cairnq.Sqlite.Loop.Known.{
  waits, arrives, arrives-append, set_outcomes-is_done, length-all_raised, or_trans, known,
}
use cairnq.Sqlite.Loop.Tracks.{Tracks, todo, todo-le, IsLocked, with_lock-IsLocked}

module _ {C Q R S : Type 0} (d : Driver C Q R) (effect : Q → S → S × R)
    (law : IsSqlite S d effect) where
  -- `flush_loop` from `x` came to an end with nothing queued, after the arrivals `used`, and the writes
  -- that have an outcome are those that had one or were queued, and those that arrived.
  abbrev pub IsSettled : Shared d → Option (Clocked (Shared d)) → Type 0
  IsSettled x o =
      (w : Clocked (Shared d)) × (used : List (Arrivals Q)) × (o ≡ some w)
      × (x.1 ≡ used ++ w.state.1)
      × (w.state.0.pending ≡ [])
      × ((id : ℕ)
          → is_done id w.state.0.futures
            ≡ (arrives id used || (waits id x.0.pending || is_done id x.0.futures)))

  strand-done :
      (id : ℕ) (e : Exc) (w : Clocked (Shared d))
      → is_done id (strand d e w).state.0.futures
        ≡ (waits id w.state.0.pending || is_done id w.state.0.futures)
  unfolding strand
  strand-done id e w =
      set_outcomes-is_done id w.state.0.pending (all_raised e w.state.0.pending) w.state.0.futures
        (length-all_raised R e w.state.0.pending)

  later-IsSettled :
      (x y : Shared d) (used : List (Arrivals Q)) (o : Option (Clocked (Shared d)))
      → Tracks d effect law used x y
      → IsSettled y o
      → IsSettled x o
  later-IsSettled x y used o (split, same, outside) (w, more, e, split', empty, done) = (
    w,
    used ++ more,
    e,
    split ∙ (ap (λ ws. used ++ ws) split' ∙ sym (append_assoc used more w.state.1)),
    empty,
    λ id.
        or_trans (known id x.0) (known id y.0) (is_done id w.state.0.futures) (arrives id used)
          (arrives id more) (arrives id (used ++ more)) (same id) (done id)
          (arrives-append id used more),
  )

  module _ (env : Env) (busy_timeout_ms tries : ℕ) where
    after_lock-IsSettled :
        (x : Shared d) (w : Clocked (Shared d)) (r : Reply (Unit {0}))
        (rest : Clocked (Shared d) → Option (Clocked (Shared d)))
        → IsLocked d effect law env busy_timeout_ms tries x (w, r)
        → (todo w.state.0.pending w.state.1 ≤ length x.1
            → d.in_transaction w.state.0.conn ≡ false
            → IsSettled w.state (rest w))
        → IsSettled x (after_lock d (some (w, r)) rest)
    after_lock-IsSettled x w (rows u) rest ((used, tracks), small) next =
        later-IsSettled x w.state used (rest w) tracks (next (small refl) tracks.2)
    after_lock-IsSettled x w (raised e) rest ((used, tracks), small) next =
        later-IsSettled x w.state used (some (strand d e w)) tracks
          (unfold strand in (strand d e w, [], refl, refl, refl, λ id. strand-done id e w))

    while-IsSettled :
        (ps : List (Pending Q)) (w : Clocked (Shared d)) (body : Option (Clocked (Shared d)))
        → w.state.0.pending ≡ ps
        → (todo ps w.state.1 ≡ suc (length w.state.1) → IsSettled w.state body)
        → IsSettled w.state (while_pending d ps w body)
    while-IsSettled [] w body h k =
        (w, [], refl, refl, h, λ id. ap (λ ps. waits id ps || is_done id w.state.0.futures) (sym h))
    while-IsSettled (p ∷ ps) w body h k = k refl

    loop-IsSettled :
        (turns : ℕ) (w : Clocked (Shared d))
        → 2 * busy_timeout_ms < tries
        → todo w.state.0.pending w.state.1 < turns
        → d.in_transaction w.state.0.conn ≡ false
        → IsSettled w.state (flush_loop d env busy_timeout_ms tries turns w)
    unfolding flush_loop
    loop-IsSettled zero w enough t h = absurd (omega arith)
    loop-IsSettled (suc turns) w enough t h =
        let rest : Clocked (Shared d) → Option (Clocked (Shared d)) =
          λ v. flush_loop d env busy_timeout_ms tries turns v in
        let (out, e, final) = with_lock-Returns env busy_timeout_ms (flush_once d) tries w enough in
        while-IsSettled w.state.0.pending w
          (after_lock d (with_lock env busy_timeout_ms (flush_once d) tries w) rest) refl
          (λ size.
            subst (λ o. IsSettled w.state (after_lock d o rest)) (sym e)
              (after_lock-IsSettled w.state out.0 out.1 rest
                (with_lock-IsLocked d effect law env busy_timeout_ms tries w out h e)
                (λ small outside.
                  loop-IsSettled turns out.0 enough (omega (arith, small, size)) outside)))

    -- The flusher ends, given one attempt more than twice the budget's milliseconds for each turn and
    -- two turns more than the turns at which writes arrive. Nothing is queued then, and the writes
    -- that have an outcome are exactly those that had one, those that were queued, and those that
    -- arrived in the turns taken: no caller waits for ever.
    pub flush_loop-IsSettled :
        (turns : ℕ) (w : Clocked (Shared d))
        → 2 * busy_timeout_ms < tries
        → length w.state.1 + 1 < turns
        → d.in_transaction w.state.0.conn ≡ false
        → IsSettled w.state (flush_loop d env busy_timeout_ms tries turns w)
    flush_loop-IsSettled turns w enough t h =
        loop-IsSettled turns w enough (omega (arith, todo-le w.state.0.pending w.state.1)) h
