-- ===== src/Sqlite/Lifecycle.antt =====
-- `connect`, `close` and `_ensure` of SQLiteStore: which connections are open, and which one the store
-- hands out. The code between two of its awaits is one action, and the actions of several callers come
-- in any order.
pub mod Memory
pub mod Account
pub mod Accounts
mod Examples
use cairnq.Prelude.{
  ℕ, zero, suc, ◌+◌, Bool, true, false, ◌&&◌, ◌||◌, not, ◌==◌, Option, none, some, List, [], ◌∷◌,
  if◌then◌else◌, is_none,
}

-- `closer` is where the task of `_do_close` stands.
pub data Closer : Type 0 where
  no_closer : Closer
  spawned : Closer
  disowned : Closer

-- `conn` is `_conn`; `opened` has the connections that this process has open; `waiting` counts the
-- calls of `connect` in front of the init lock, and `opening` is the connection, with the generation,
-- of the one that holds it. `published` and `failures` count what became of the openings.
pub record Life : Type 0 where
  pub memory : Bool
  pub conn : Option ℕ
  pub opened : List ℕ
  pub generation : ℕ
  pub closing : Bool
  pub closer : Closer
  pub ever_opened : Bool
  pub waiting : ℕ
  pub opening : Option (ℕ × ℕ)
  pub next : ℕ
  pub published : ℕ
  pub failures : ℕ

-- `__init__`
abbrev pub new_life : Bool → Life
new_life memory = record {
  memory = memory;
  conn = none;
  opened = [];
  generation = 0;
  closing = false;
  closer = no_closer;
  ever_opened = false;
  waiting = 0;
  opening = none;
  next = 0;
  published = 0;
  failures = 0;
}

-- `connect`, up to the init lock; `_ensure` is the same, but that it returns the connection.
unfoldable pub connect_call : Life → Life
connect_call l =
    if l.closing then l else if is_none l.conn then record l { waiting = suc l.waiting } else l

-- The conn.close() of a connection.
abbrev pub discard : ℕ → List ℕ → List ℕ
discard c [] = []
discard c (d ∷ ds) = if d == c then ds else d ∷ discard c ds

-- With the init lock: another caller has connected, an in-memory database is gone, or a connection is
-- opened.
abbrev pub open_or_refuse : Life → Life
open_or_refuse l =
    if is_none l.conn
    then if l.memory && l.ever_opened then l else record l {
      opened = l.next ∷ l.opened;
      opening = some (l.next, l.generation);
      next = suc l.next;
    }
    else l

abbrev pub with_init_lock : ℕ → Option (ℕ × ℕ) → Life → Life
with_init_lock zero opening l = l
with_init_lock (suc n) (some o) l = l
with_init_lock (suc n) none l = open_or_refuse (record l { waiting = n })

unfoldable pub init_lock : Life → Life
init_lock l = with_init_lock l.waiting l.opening l

-- The pragmas, the WAL switch, the migrations or the last pragma raise.
abbrev pub failed : Option (ℕ × ℕ) → Life → Life
failed none l = l
failed (some o) l = record l { opening = none; failures = suc l.failures }

unfoldable pub open_fails : Life → Life
open_fails l = failed l.opening l

-- The end of `connect`: the connection is published, or closed since the store was.
abbrev pub publish_or_close : Option (ℕ × ℕ) → Life → Life
publish_or_close none l = l
publish_or_close (some (c, generation)) l =
    if generation == l.generation
    then record l { conn = some c; ever_opened = true; opening = none; published = suc l.published }
    else record l { opened = discard c l.opened; opening = none }

unfoldable pub open_ends : Life → Life
open_ends l = publish_or_close l.opening l

-- `close`: the barrier, and the task of `_do_close` unless one is there.
abbrev pub spawn : Closer → Closer
spawn no_closer = spawned
spawn spawned = spawned
spawn disowned = disowned

unfoldable pub close_call : Life → Life
close_call l = record l { closing = true; closer = spawn l.closer }

-- `_do_close`: the new generation; and, with the flusher awaited and the lock held, the end.
abbrev pub closer_disowns : Closer → Life → Life
closer_disowns spawned l = record l { generation = suc l.generation; closer = disowned }
closer_disowns no_closer l = l
closer_disowns disowned l = l

abbrev pub close_conn : Option ℕ → List ℕ → List ℕ
close_conn none opened = opened
close_conn (some c) opened = discard c opened

abbrev pub closer_ends : Closer → Life → Life
closer_ends disowned l = record l {
  conn = none;
  opened = close_conn l.conn l.opened;
  closing = false;
  closer = no_closer;
}
closer_ends no_closer l = l
closer_ends spawned l = l

unfoldable pub close_begins : Life → Life
close_begins l = closer_disowns l.closer l

unfoldable pub close_ends : Life → Life
close_ends l = closer_ends l.closer l

pub data Action : Type 0 where
  connect_called : Action
  lock_taken : Action
  open_failed : Action
  open_ended : Action
  close_called : Action
  close_begun : Action
  close_ended : Action

unfoldable pub act : Action → Life → Life
unfolding connect_call init_lock open_fails open_ends close_call close_begins close_ends
act connect_called l = connect_call l
act lock_taken l = init_lock l
act open_failed l = open_fails l
act open_ended l = open_ends l
act close_called l = close_call l
act close_begun l = close_begins l
act close_ended l = close_ends l

unfoldable pub acts : List Action → Life → Life
unfolding act
acts [] l = l
acts (a ∷ rest) l = acts rest (act a l)
