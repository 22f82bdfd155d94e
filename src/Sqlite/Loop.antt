-- ===== src/Sqlite/Loop.antt =====
-- `_flush_loop`: the flusher of the group commit, until no write waits.
pub mod Known
pub mod Tracks
pub mod Settles
use cairnq.Prelude.{ℕ, zero, suc, ◌≡◌, Option, none, some, List, [], ◌∷◌, drop}
use cairnq.Driver.{Exc, Reply, rows, raised, Driver}
use cairnq.Sqlite.{Pending, Flusher, Arrivals, set_outcomes, all_raised, flush}
use cairnq.Sqlite.Retry.{Env, Clocked, with_lock}

module _ {Q : Type 0} where
  abbrev pub next_arrivals : List (Arrivals Q) → Arrivals Q
  next_arrivals [] = record { before = []; during = [] }
  next_arrivals (a ∷ schedule) = a

abbrev pub outcome : Option Exc → Reply (Unit {0})
outcome none = rows tt
outcome (some e) = raised e

module _ {C Q R : Type 0} (d : Driver C Q R) where
  -- The store, and the writes that other tasks will append, turn by turn.
  abbrev pub Shared : Type 0
  Shared = Flusher C Q R × List (Arrivals Q)

  abbrev pub flush_once : Shared → Shared × Reply (Unit {0})
  flush_once (st, schedule) = (
    ((flush d st (next_arrivals schedule)).0, drop 1 schedule),
    outcome (flush d st (next_arrivals schedule)).1,
  )

  -- The writes still queued hear of the exception that ended the loop.
  unfoldable pub strand : Exc → Clocked Shared → Clocked Shared
  strand e w = record w {
    state = (
      record {
        conn = w.state.0.conn;
        pending = [];
        futures = set_outcomes w.state.0.pending (all_raised e w.state.0.pending) w.state.0.futures;
      },
      w.state.1,
    );
  }

  abbrev pub after_lock :
      Option (Clocked Shared × Reply (Unit {0}))
      → (Clocked Shared → Option (Clocked Shared))
      → Option (Clocked Shared)
  after_lock none rest = none
  after_lock (some (w, rows u)) rest = rest w
  after_lock (some (w, raised e)) rest = some (strand e w)

  -- `while self._pending`
  abbrev pub while_pending :
      List (Pending Q) → Clocked Shared → Option (Clocked Shared) → Option (Clocked Shared)
  while_pending [] w body = some w
  while_pending (p ∷ ps) w body = body

  -- `_flush_loop`, with fuel for its turns and for the attempts of each; none when either ran out.
  unfoldable pub flush_loop : Env → ℕ → ℕ → ℕ → Clocked Shared → Option (Clocked Shared)
  unfolding with_lock flush strand
  flush_loop env busy_timeout_ms tries zero w = none
  flush_loop env busy_timeout_ms tries (suc turns) w = while_pending w.state.0.pending w (
      after_lock (with_lock env busy_timeout_ms flush_once tries w)
        (λ v. flush_loop env busy_timeout_ms tries turns v))
