-- ===== src/Sqlite/Lifecycle/Memory.antt =====
-- A store stays in memory, or in its file.
use cairnq.Prelude.{ℕ, zero, suc, ◌≡◌, refl, ◌∙◌, Option, none, some, List, [], ◌∷◌, arith}
use cairnq.Sqlite.Lifecycle.{
  Closer, no_closer, spawned, disowned, Life, connect_call, with_init_lock, init_lock, failed,
  open_fails, publish_or_close, open_ends, close_call, closer_disowns, closer_ends, close_begins,
  close_ends, Action, connect_called, lock_taken, open_failed, open_ended, close_called,
  close_begun, close_ended, act, acts,
}

lock-memory : (n : ℕ) (o : Option (ℕ × ℕ)) (l : Life) → (with_init_lock n o l).memory ≡ l.memory
lock-memory zero o l = refl
lock-memory (suc n) (some o) l = refl
lock-memory (suc n) none l = ground arith

failed-memory : (o : Option (ℕ × ℕ)) (l : Life) → (failed o l).memory ≡ l.memory
failed-memory none l = refl
failed-memory (some o) l = refl

ends-memory : (o : Option (ℕ × ℕ)) (l : Life) → (publish_or_close o l).memory ≡ l.memory
ends-memory none l = refl
ends-memory (some (c, g)) l = ground arith

disowns-memory : (k : Closer) (l : Life) → (closer_disowns k l).memory ≡ l.memory
disowns-memory no_closer l = refl
disowns-memory spawned l = refl
disowns-memory disowned l = refl

closed-memory : (k : Closer) (l : Life) → (closer_ends k l).memory ≡ l.memory
closed-memory no_closer l = refl
closed-memory spawned l = refl
closed-memory disowned l = refl

act-memory : (a : Action) (l : Life) → (act a l).memory ≡ l.memory
unfolding act connect_call init_lock open_fails open_ends close_call close_begins close_ends
act-memory connect_called l = ground arith
act-memory lock_taken l = lock-memory l.waiting l.opening l
act-memory open_failed l = failed-memory l.opening l
act-memory open_ended l = ends-memory l.opening l
act-memory close_called l = refl
act-memory close_begun l = disowns-memory l.closer l
act-memory close_ended l = closed-memory l.closer l

pub acts-memory : (actions : List Action) (l : Life) → (acts actions l).memory ≡ l.memory
unfolding acts
acts-memory [] l = refl
acts-memory (a ∷ rest) l = acts-memory rest (act a l) ∙ act-memory a l
