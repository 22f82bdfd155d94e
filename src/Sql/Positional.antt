-- ===== src/Sql/Positional.antt =====
-- The positional statement binds what the named one binds.
use cairnq.Prelude.{
  ℕ, zero, suc, ◌+◌, ◌-◌, Bool, true, false, ◌&&◌, ◌||◌, ◌==◌, ◌≡◌, refl, sym, ap, ◌∙◌, Option,
  none, some, List, [], ◌∷◌, ◌++◌, map, arith, All, if◌then◌else◌, if_keeps, Bool-cases, inl, inr,
  ==_iff, ==_refl,
}
use cairnq.Sql.Text.{spell, spell-scan}
use cairnq.Sql.{
  Piece, strip, char, named, pieces, same_name, has_name, collect, statement_params, slot_from,
  Slotted, slot, slotted, positional_statement, to_positional,
}

-- A statement with its values in place: by the names, and by the slots.
pub data Bound (V : Type 0) : Type 0 where
  text : ℕ → Bound V
  value : Option V → Bound V

module _ {V : Type 0} where
  abbrev pub by_name : (List ℕ → V) → Piece → Bound V
  by_name params (char c) = text c
  by_name params (named n) = value (some (params n))

  -- `$k` stands for the value at place `k`, counted from 1.
  abbrev pub nth : ℕ → List V → Option V
  nth k [] = none
  nth zero (v ∷ vs) = some v
  nth (suc k) (v ∷ vs) = nth k vs

  abbrev pub at_slot : Option ℕ → List V → Option V
  at_slot none vs = none
  at_slot (some k) vs = nth (k - 1) vs

  abbrev pub by_slot : List V → Slotted → Bound V
  by_slot vs (Slotted.char c) = text c
  by_slot vs (slot k) = value (at_slot k vs)

same_name-eq : (n m : List ℕ) → same_name n m ≡ true → n ≡ m
same_name-eq [] [] h = refl
same_name-eq [] (d ∷ ds) h = cc
same_name-eq (c ∷ cs) [] h = cc
same_name-eq (c ∷ cs) (d ∷ ds) h = elim (Bool-cases (c == d)) [
  | inl e ↦
      let tails : same_name cs ds ≡ true = ap (λ b. b && same_name cs ds) (sym e) ∙ h in
      ap (λ k. k ∷ cs) ((==_iff c d).0 e) ∙ ap (λ ks. d ∷ ks) (same_name-eq cs ds tails)
  | inr e ↦ absurd (no_tail (same_name cs ds) (ap (λ b. b && same_name cs ds) (sym e) ∙ h))
]
  where
    no_tail : (b : Bool) → (false && b) ≡ true → ⊥
    no_tail b h = cc

same_name_refl : (n : List ℕ) → same_name n n ≡ true
same_name_refl [] = refl
same_name_refl (c ∷ cs) = rw (==_refl c) (same_name_refl cs)

has_name-append :
    (n : List ℕ) (ms ks : List (List ℕ)) → has_name n (ms ++ ks) ≡ (has_name n ms || has_name n ks)
has_name-append n [] ks = refl
has_name-append n (m ∷ ms) ks = ground (arith, has_name-append n ms ks)

or_left : (a b : Bool) → a ≡ true → (a || b) ≡ true
or_left true b h = refl
or_left false b h = cc

or_right : (a b : Bool) → b ≡ true → (a || b) ≡ true
or_right true b h = refl
or_right false b h = h

-- The names seen before stay.
abbrev with_name : List ℕ → List (List ℕ) → List (List ℕ)
with_name n seen = if has_name n seen then seen else seen ++ n ∷ []

with_name-keeps :
    (n m : List ℕ) (seen : List (List ℕ))
    → has_name n seen ≡ true
    → has_name n (with_name m seen) ≡ true
with_name-keeps n m seen h =
    if_keeps (λ ns. has_name n ns ≡ true) (has_name m seen) seen (seen ++ m ∷ []) (λ e. h)
      (λ e. has_name-append n seen (m ∷ []) ∙ or_left (has_name n seen) (has_name n (m ∷ [])) h)

with_name-has : (n : List ℕ) (seen : List (List ℕ)) → has_name n (with_name n seen) ≡ true
with_name-has n seen =
    if_keeps (λ ns. has_name n ns ≡ true) (has_name n seen) seen (seen ++ n ∷ []) (λ e. e)
      (λ e.
        has_name-append n seen (n ∷ [])
        ∙ or_right (has_name n seen) (has_name n (n ∷ []))
            (or_left (same_name n n) false (same_name_refl n)))

collect-keeps :
    (n : List ℕ) (ps : List Piece) (seen : List (List ℕ))
    → has_name n seen ≡ true
    → has_name n (collect ps seen) ≡ true
unfolding collect
collect-keeps n [] seen h = h
collect-keeps n (char c ∷ ps) seen h = collect-keeps n ps seen h
collect-keeps n (named m ∷ ps) seen h =
    collect-keeps n ps (with_name m seen) (with_name-keeps n m seen h)

-- Every name of the pieces is in the order.
abbrev IsListed : List (List ℕ) → Piece → Type 0
IsListed order (char c) = Unit {0}
IsListed order (named n) = has_name n order ≡ true

collect-IsListed : (ps : List Piece) (seen : List (List ℕ)) → All (IsListed (collect ps seen)) ps
unfolding collect
collect-IsListed [] seen = tt
collect-IsListed (char c ∷ ps) seen = (tt, collect-IsListed ps seen)
collect-IsListed (named n ∷ ps) seen = (
  collect-keeps n ps (with_name n seen) (with_name-has n seen),
  collect-IsListed ps (with_name n seen),
)

module _ {V : Type 0} (params : List ℕ → V) where
  nth-slot :
      (n : List ℕ) (ms : List (List ℕ)) (i : ℕ)
      → has_name n ms ≡ true
      → (j : ℕ) × (slot_from i n ms ≡ some (i + j)) × (nth j (map params ms) ≡ some (params n))
  nth-slot n [] i h = cc
  nth-slot n (m ∷ ms) i h = elim (Bool-cases (same_name m n)) [
    | inl e ↦
        (0, rw e (ap (λ k. some k) (omega arith)), ap (λ k. some (params k)) (same_name-eq m n e))
    | inr e ↦
        let (j, place, found) = nth-slot n ms (suc i) (ap (λ b. b || has_name n ms) (sym e) ∙ h) in
        (suc j, rw e (place ∙ ap (λ k. some k) (omega arith)), found)
  ]

  by_slot-by_name :
      (order : List (List ℕ)) (p : Piece)
      → IsListed order p
      → by_slot (map params order) (slotted order p) ≡ by_name params p
  by_slot-by_name order (char c) h = refl
  by_slot-by_name order (named n) h =
      let (j, place, found) = nth-slot n order 1 h in
      ap (λ k. value (at_slot k (map params order))) place
      ∙ (ap (λ k. value (nth k (map params order))) (omega arith) ∙ ap (λ o. value o) found)

  all_bound :
      (order : List (List ℕ)) (ps : List Piece)
      → All (IsListed order) ps
      → map (by_slot (map params order)) (map (slotted order) ps) ≡ map (by_name params) ps
  all_bound order [] h = refl
  all_bound order (p ∷ ps) h =
      ap (λ b. b ∷ map (by_slot (map params order)) (map (slotted order) ps))
        (by_slot-by_name order p h.0)
      ∙ ap (λ bs. by_name params p ∷ bs) (all_bound order ps h.1)

  -- Cutting a statement at its parameters keeps its text, without its comments; and the positional
  -- statement with its values is the named one with its parameters: at each place that the cut found a
  -- name, the slot is bound to that name's value, and every other character is kept.
  pub to_positional-binds :
      (sql : List ℕ)
      → let r = to_positional sql params in
        (spell (pieces sql) ≡ strip false sql)
        × (map (by_slot r.1) r.0 ≡ map (by_name params) (pieces sql))
  unfolding to_positional positional_statement statement_params pieces
  to_positional-binds sql = (
    spell-scan (strip false sql),
    all_bound (collect (pieces sql) []) (pieces sql) (collect-IsListed (pieces sql) []),
  )
