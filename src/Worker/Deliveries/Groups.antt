-- ===== src/Worker/Deliveries/Groups.antt =====
-- Grouping a claim by task name.
use cairnq.Prelude.{
  ◌+◌, true, ◌≡◌, refl, sym, subst, ap, ◌∙◌, List, [], ◌∷◌, ◌++◌, Text, arith, All, All-append,
  length, length-append, Bool-cases, inl, inr, ◌==◌, ==_iff,
}
use mathlib.Core.List.{Perm, perm_middle, append_assoc, append-nil}
use mathlib.Core.List.Perm
use cairnq.Models.{Task}
use cairnq.Worker.Deliveries.{add_task, group_loop}

abbrev pub IsNamed : Text → Task → Type 0
IsNamed name t = t.name ≡ name

-- Every task of a group has the group's name.
abbrev pub IsGroup : Text × List Task → Type 0
IsGroup g = All (IsNamed g.0) g.1

named_of_test : (a b : Text) → (a == b) ≡ true → b ≡ a
named_of_test a b h = ground arith

add_task-IsGroup :
    (t : Task) (gs : List (Text × List Task)) → All IsGroup gs → All IsGroup (add_task t gs)
unfolding add_task
add_task-IsGroup t [] h = ((refl, tt), tt)
add_task-IsGroup t ((name, group) ∷ rest) h = elim (Bool-cases (name == t.name)) [
  | inl e ↦
      rw e (All-append (IsNamed name) group (t ∷ []) h.0 (named_of_test name t.name e, tt), h.1)
  | inr e ↦ rw e (h.0, add_task-IsGroup t rest h.1)
]

pub group_loop-IsGroup :
    (ts : List Task) (gs : List (Text × List Task))
    → All IsGroup gs
    → All IsGroup (group_loop ts gs)
unfolding group_loop
group_loop-IsGroup [] gs h = h
group_loop-IsGroup (t ∷ ts) gs h = group_loop-IsGroup ts (add_task t gs) (add_task-IsGroup t gs h)

-- The tasks of the groups.
abbrev pub members : List (Text × List Task) → List Task
members [] = []
members (g ∷ gs) = g.1 ++ members gs

add_task-perm :
    (t : Task) (gs : List (Text × List Task)) → Perm (members (add_task t gs)) (t ∷ members gs)
unfolding add_task
add_task-perm t [] = Perm.refl (t ∷ [])
add_task-perm t ((name, group) ∷ rest) = elim (Bool-cases (name == t.name)) [
  | inl e ↦ rw e (
      subst (λ l. Perm l (t ∷ group ++ members rest))
        (sym (append_assoc group (t ∷ []) (members rest))) (perm_middle group (members rest)))
  | inr e ↦ rw e (
      Perm.trans (Perm.append_left group (add_task-perm t rest)) (perm_middle group (members rest)))
]

pub group_loop-perm :
    (ts : List Task) (gs : List (Text × List Task))
    → Perm (members (group_loop ts gs)) (ts ++ members gs)
unfolding group_loop
group_loop-perm [] gs = Perm.refl (members gs)
group_loop-perm (t ∷ ts) gs =
    Perm.trans (group_loop-perm ts (add_task t gs))
      (Perm.trans (Perm.append_left ts (add_task-perm t gs)) (perm_middle ts (members gs)))

length-add_task :
    (t : Task) (gs : List (Text × List Task))
    → length (members (add_task t gs)) ≡ length (members gs) + 1
unfolding add_task
length-add_task t [] = omega arith
length-add_task t ((name, group) ∷ rest) = elim (Bool-cases (name == t.name)) [
  | inl e ↦ rw e (
      omega (
        arith,
        length-append (group ++ t ∷ []) (members rest),
        length-append group (t ∷ []),
        length-append group (members rest),
      ))
  | inr e ↦ rw e (
      omega (
        arith,
        length-append group (members (add_task t rest)),
        length-append group (members rest),
        length-add_task t rest,
      ))
]

pub length-group_loop :
    (ts : List Task) (gs : List (Text × List Task))
    → length (members (group_loop ts gs)) ≡ length ts + length (members gs)
unfolding group_loop
length-group_loop [] gs = omega arith
length-group_loop (t ∷ ts) gs =
    omega (arith, length-group_loop ts (add_task t gs), length-add_task t gs)

-- A claim of one name makes one group.
pub group_loop-single :
    (name : Text) (ts group : List Task)
    → All (IsNamed name) ts
    → group_loop ts ((name, group) ∷ []) ≡ (name, group ++ ts) ∷ []
unfolding group_loop add_task
group_loop-single name [] group h = ap (λ l. (name, l) ∷ []) (sym (append-nil group))
group_loop-single name (t ∷ ts) group h = rw ((==_iff name t.name).1 (sym h.0)) (
    group_loop-single name ts (group ++ t ∷ []) h.1
    ∙ ap (λ l. (name, l) ∷ []) (append_assoc group (t ∷ []) ts))
