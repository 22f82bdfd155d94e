-- ===== src/Worker/Deliveries.antt =====
-- `Worker._deliveries` (cairnq-py/cairnq/worker.py): one claim split into handler calls.
pub mod Chunks
pub mod Groups
pub mod Calls
mod Examples
use cairnq.Prelude.{
  ℕ, zero, suc, Option, none, some, List, [], ◌∷◌, ◌++◌, map, Text, ◌==◌, if◌then◌else◌, length,
  take, drop,
}
use cairnq.Models.{Task}
use cairnq.Worker.Registry.{Registration, Handlers, handler, or_one}

-- `by_name[task.name].append(task)`
unfoldable pub add_task : Task → List (Text × List Task) → List (Text × List Task)
add_task t [] = (t.name, t ∷ []) ∷ []
add_task t ((name, group) ∷ rest) =
    if name == t.name then (name, group ++ t ∷ []) ∷ rest else (name, group) ∷ add_task t rest

unfoldable pub group_loop : List Task → List (Text × List Task) → List (Text × List Task)
unfolding add_task
group_loop [] groups = groups
group_loop (t ∷ ts) groups = group_loop ts (add_task t groups)

-- `group[i : i + size] for i in range(0, len(group), size)`, in at most `fuel` rounds.
unfoldable pub chunks : ℕ → ℕ → List Task → List (List Task)
chunks fuel size [] = []
chunks zero size (t ∷ ts) = []
chunks (suc fuel) size (t ∷ ts) = take size (t ∷ ts) ∷ chunks fuel size (drop size (t ∷ ts))

-- `(reg.batch if reg else None) or 1`
abbrev pub call_size : Option Registration → ℕ
call_size none = 1
call_size (some reg) = or_one reg.batch

abbrev pub Call : Type 0
Call = Option Registration × List Task

-- The calls of one name's group; each round takes a task at least, so the group's length is fuel
-- enough.
unfoldable pub group_calls : Handlers → Text × List Task → List Call
unfolding chunks
group_calls handlers (name, group) =
    let reg = handler name handlers in
    map (λ tasks. (reg, tasks)) (chunks (length group) (call_size reg) group)

unfoldable pub calls_of : Handlers → List (Text × List Task) → List Call
unfolding group_calls
calls_of handlers [] = []
calls_of handlers (g ∷ gs) = group_calls handlers g ++ calls_of handlers gs

unfoldable pub deliveries : Handlers → List Task → List Call
unfolding group_loop calls_of
deliveries handlers claimed = calls_of handlers (group_loop claimed [])
