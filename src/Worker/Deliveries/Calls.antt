-- ===== src/Worker/Deliveries/Calls.antt =====
-- The handler calls that a claim becomes.
use cairnq.Prelude.{
  ℕ, zero, suc, ◌*◌, ◌≤◌, ◌<◌, ◌≡◌, refl, sym, subst, ap, ◌∙◌, Option, none, some, List, [], ◌∷◌,
  ◌++◌, map, Text, arith, All, All-append, length, length-append,
}
use mathlib.Core.List.{Perm, append_assoc, append-nil}
use cairnq.Models.{Task}
use cairnq.Worker.Registry.{Registration, Handlers, handler, or_one}
use cairnq.Worker.Deliveries.{
  chunks, call_size, Call, group_calls, calls_of, deliveries, group_loop, add_task,
}
use cairnq.Worker.Deliveries.Chunks.{
  concat, concat-chunks, chunks-length, chunks-All, length-chunks,
}
use cairnq.Worker.Deliveries.Groups.{
  IsNamed, IsGroup, group_loop-IsGroup, members, group_loop-perm, length-group_loop,
  group_loop-single,
}

-- The tasks that the calls carry, in order.
abbrev pub tasks_of : List Call → List Task
tasks_of [] = []
tasks_of (c ∷ cs) = c.1 ++ tasks_of cs

-- A call's tasks all have one name, its registration is the one of that name, and it is no larger
-- than that name's batch size.
pub record IsCall (handlers : Handlers) (c : Call) : Type 0 where
  pub name : Text
  pub registered : c.0 ≡ handler name handlers
  pub named : All (IsNamed name) c.1
  pub fits : length c.1 ≤ call_size c.0

pub or_one_pos : (b : Option ℕ) → 0 < or_one b
or_one_pos none = omega arith
or_one_pos (some zero) = omega arith
or_one_pos (some (suc n)) = omega arith

pub call_size_pos : (reg : Option Registration) → 0 < call_size reg
call_size_pos none = omega arith
call_size_pos (some reg) = or_one_pos reg.batch

pair_tasks :
    (reg : Option Registration) (gs : List (List Task))
    → tasks_of (map (λ g. (reg, g)) gs) ≡ concat gs
pair_tasks reg [] = refl
pair_tasks reg (g ∷ gs) = ap (λ l. g ++ l) (pair_tasks reg gs)

tasks_of-append : (cs ds : List Call) → tasks_of (cs ++ ds) ≡ tasks_of cs ++ tasks_of ds
tasks_of-append [] ds = refl
tasks_of-append (c ∷ cs) ds =
    ap (λ l. c.1 ++ l) (tasks_of-append cs ds) ∙ sym (append_assoc c.1 (tasks_of cs) (tasks_of ds))

tasks_of-group :
    (handlers : Handlers) (g : Text × List Task) → tasks_of (group_calls handlers g) ≡ g.1
unfolding group_calls
tasks_of-group handlers (name, group) =
    let reg = handler name handlers in
    pair_tasks reg (chunks (length group) (call_size reg) group)
    ∙ concat-chunks (length group) (call_size reg) group (call_size_pos reg) (omega arith)

tasks_of-calls :
    (handlers : Handlers) (gs : List (Text × List Task))
    → tasks_of (calls_of handlers gs) ≡ members gs
unfolding calls_of
tasks_of-calls handlers [] = refl
tasks_of-calls handlers (g ∷ gs) =
    tasks_of-append (group_calls handlers g) (calls_of handlers gs)
    ∙ (ap (λ l. l ++ tasks_of (calls_of handlers gs)) (tasks_of-group handlers g)
        ∙ ap (λ l. g.1 ++ l) (tasks_of-calls handlers gs))

pair_calls :
    (handlers : Handlers) (name : Text) (gs : List (List Task))
    → All (λ g. length g ≤ call_size (handler name handlers)) gs
    → All (λ g. All (IsNamed name) g) gs
    → All (IsCall handlers) (map (λ g. (handler name handlers, g)) gs)
pair_calls handlers name [] h k = tt
pair_calls handlers name (g ∷ gs) h k = (
  record { name = name; registered = refl; named = k.0; fits = h.0 },
  pair_calls handlers name gs h.1 k.1,
)

group_calls-IsCall :
    (handlers : Handlers) (g : Text × List Task)
    → IsGroup g
    → All (IsCall handlers) (group_calls handlers g)
unfolding group_calls
group_calls-IsCall handlers (name, group) h =
    let size = call_size (handler name handlers) in
    pair_calls handlers name _ (chunks-length (length group) size group)
      (chunks-All (IsNamed name) (length group) size group h)

calls_of-IsCall :
    (handlers : Handlers) (gs : List (Text × List Task))
    → All IsGroup gs
    → All (IsCall handlers) (calls_of handlers gs)
unfolding calls_of
calls_of-IsCall handlers [] h = tt
calls_of-IsCall handlers (g ∷ gs) h =
    All-append (IsCall handlers) (group_calls handlers g) (calls_of handlers gs)
      (group_calls-IsCall handlers g h.0) (calls_of-IsCall handlers gs h.1)

-- Splitting a claim into calls loses, adds and repeats no task; and each call carries tasks of one
-- name, under that name's registration, no more than its batch size.
pub deliveries_lem :
    (handlers : Handlers) (claimed : List Task)
    → Perm (tasks_of (deliveries handlers claimed)) claimed
      × All (IsCall handlers) (deliveries handlers claimed)
unfolding deliveries
deliveries_lem handlers claimed =
    let gs = group_loop claimed [] in
    (
      subst (λ l. Perm l claimed) (sym (tasks_of-calls handlers gs))
          (subst (Perm (members gs)) (append-nil claimed) (group_loop-perm claimed [])),
      calls_of-IsCall handlers gs (group_loop-IsGroup claimed [] tt),
    )

length-map {ℓ κ} :
    {A : Type ℓ} {B : Type κ} (f : A → B) (xs : List A) → length (map f xs) ≡ length xs
length-map f [] = refl
length-map f (x ∷ xs) = ap suc (length-map f xs)

at_least : (size n : ℕ) → 0 < size → n ≤ size * n
at_least size n h = grind arith

length-group_calls :
    (handlers : Handlers) (name : Text) (k : ℕ) (group : List Task)
    → length group ≤ call_size (handler name handlers) * k
    → length (group_calls handlers (name, group)) ≤ k
unfolding group_calls
length-group_calls handlers name k group q =
    let reg = handler name handlers in
    let cut = chunks (length group) (call_size reg) group in
    omega (
      arith,
      length-map {B = Call} (λ g. (reg, g)) cut,
      length-chunks (length group) (call_size reg) k group (call_size_pos reg) q,
    )

group_loop-named :
    (t : Task) (ts : List Task) (name : Text)
    → t.name ≡ name
    → All (IsNamed name) ts
    → group_loop (t ∷ ts) [] ≡ (name, t ∷ ts) ∷ []
unfolding group_loop add_task
group_loop-named t ts name e h =
    subst (λ n. All (IsNamed n) ts → group_loop (t ∷ ts) [] ≡ (n, t ∷ ts) ∷ []) e
      (group_loop-single t.name ts (t ∷ [])) h

-- A claim of a single name is cut by that name's batch size.
pub length-single :
    (handlers : Handlers) (name : Text) (k : ℕ) (claimed : List Task)
    → All (IsNamed name) claimed
    → length claimed ≤ call_size (handler name handlers) * k
    → length (deliveries handlers claimed) ≤ k
unfolding deliveries calls_of
length-single handlers name k [] h q = unfold group_loop in omega arith
length-single handlers name k (t ∷ ts) h q = rw (group_loop-named t ts name h.0 h.1) (
    omega (
      arith,
      length-append (group_calls handlers (name, t ∷ ts)) [],
      length-group_calls handlers name k (t ∷ ts) q,
    ))

-- A claim of names that are delivered one at a time becomes at most one call for each task.
length-calls_of :
    (handlers : Handlers) (gs : List (Text × List Task))
    → length (calls_of handlers gs) ≤ length (members gs)
unfolding calls_of
length-calls_of handlers [] = omega arith
length-calls_of handlers ((name, group) ∷ gs) = omega (
  arith,
  length-append (group_calls handlers (name, group)) (calls_of handlers gs),
  length-append group (members gs),
  length-calls_of handlers gs,
  length-group_calls handlers name (length group) group (
      at_least (call_size (handler name handlers)) (length group)
        (call_size_pos (handler name handlers))),
)

pub length-deliveries :
    (handlers : Handlers) (claimed : List Task)
    → length (deliveries handlers claimed) ≤ length claimed
unfolding deliveries
length-deliveries handlers claimed =
    omega (arith, length-calls_of handlers (group_loop claimed []), length-group_loop claimed [])
