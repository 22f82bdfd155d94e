-- ===== src/Table/Counting.antt =====
-- How many rows a list of ids selects.
use cairnq.Prelude.{
  ℕ, zero, suc, ◌+◌, Bool, true, false, ◌≡◌, refl, sym, List, [], ◌∷◌, Text, ◌==◌, elem, take,
  filter, length, All, All-filter, All-take, Bool-cases, inl, inr, arith, ==_iff, ◌∙◌, ap, min,
  length-take,
}
use cairnq.Prelude.Sort.{insert_by, sort_by, All-sort_by, All-insert_by, length-sort_by}
use cairnq.Models.{Task}
use cairnq.Table.{
  ids, IsDistinct, IsOther, IsOther-of_elem, elem_of_other, IsDistinct-filter, self_elem,
}

none_selected :
    (c : Text) (ts : List Task) → elem c (ids ts) ≡ false → length (filter (λ t. c == t.id) ts) ≡ 0
none_selected c [] h = refl
none_selected c (t ∷ ts) h = ground (arith, none_selected c ts)

same_elem : (a c : Text) (xs : List Text) → (c == a) ≡ true → elem a xs ≡ elem c xs
same_elem a c xs e = ap (λ i. elem i xs) (sym ((==_iff c a).0 e))

one_selected :
    (c : Text) (ts : List Task)
    → IsDistinct (ids ts)
    → elem c (ids ts) ≡ true
    → length (filter (λ t. c == t.id) ts) ≡ 1
one_selected c [] d h = cc
one_selected c (t ∷ ts) d h = elim (Bool-cases (c == t.id)) [
  | inl e ↦ ground (arith, none_selected c ts (sym (same_elem t.id c (ids ts) e) ∙ d.0))
  | inr e ↦ ground (arith, one_selected c ts d.1)
]

either_selected :
    (c : Text) (cs : List Text) (ts : List Task)
    → elem c cs ≡ false
    → length (filter (λ t. elem t.id (c ∷ cs)) ts)
      ≡ length (filter (λ t. c == t.id) ts) + length (filter (λ t. elem t.id cs) ts)
either_selected c cs [] h = refl
either_selected c cs (t ∷ ts) h = elim (Bool-cases (c == t.id)) [
  | inl e ↦ ground (arith, either_selected c cs ts h, same_elem t.id c cs e)
  | inr e ↦ ground (arith, either_selected c cs ts h)
]

nothing_selected : (ts : List Task) → length (filter (λ t. elem t.id []) ts) ≡ 0
nothing_selected [] = refl
nothing_selected (t ∷ ts) = nothing_selected ts

-- Distinct ids that are all there select one row each.
length-filter-elem :
    (cs : List Text) (ts : List Task)
    → IsDistinct (ids ts)
    → IsDistinct cs
    → All (λ c. elem c (ids ts) ≡ true) cs
    → length (filter (λ t. elem t.id cs) ts) ≡ length cs
length-filter-elem [] ts d k h = nothing_selected ts
length-filter-elem (c ∷ cs) ts d k h = omega (
  arith,
  either_selected c cs ts k.0,
  one_selected c ts d h.0,
  length-filter-elem cs ts d k.1 h.1,
)

module _ (le : Task → Task → Bool) where
  insert_by-IsDistinct :
      (t : Task) (ts : List Task)
      → IsDistinct (ids ts)
      → IsOther t.id ts
      → IsDistinct (ids (insert_by le t ts))
  unfolding insert_by
  insert_by-IsDistinct t [] d h = (refl, tt)
  insert_by-IsDistinct t (u ∷ us) d h = elim (Bool-cases (le t u)) [
    | inl e ↦ rw e (elem_of_other t.id (u ∷ us) h, d)
    | inr e ↦ rw e (
      elem_of_other u.id _ (
          All-insert_by le (λ x. (x.id == u.id) ≡ false) t us (ground arith)
            (IsOther-of_elem u.id us d.0)),
      insert_by-IsDistinct t us d.1 h.1,
    )
  ]

  pub sort_by-IsDistinct : (ts : List Task) → IsDistinct (ids ts) → IsDistinct (ids (sort_by le ts))
  unfolding sort_by
  sort_by-IsDistinct [] d = tt
  sort_by-IsDistinct (t ∷ ts) d =
      insert_by-IsDistinct t (sort_by le ts) (sort_by-IsDistinct ts d.1)
        (All-sort_by le _ ts (IsOther-of_elem t.id ts d.0))

take-IsDistinct : (n : ℕ) (ts : List Task) → IsDistinct (ids ts) → IsDistinct (ids (take n ts))
take-IsDistinct zero ts d = tt
take-IsDistinct (suc n) [] d = tt
take-IsDistinct (suc n) (t ∷ ts) d =
    (elem_of_other t.id _ (All-take _ n ts (IsOther-of_elem t.id ts d.0)), take-IsDistinct n ts d.1)

All-map_id : (P : Text → Type 0) (ts : List Task) → All (λ t. P t.id) ts → All P (ids ts)
All-map_id P [] h = tt
All-map_id P (t ∷ ts) h = (h.0, All-map_id P ts h.1)

pub length-ids : (ts : List Task) → length (ids ts) ≡ length ts
length-ids [] = refl
length-ids (t ∷ ts) = ap suc (length-ids ts)

-- A subquery's ids select as many rows as the subquery returns: at most `n`, and all that pass the
-- filter when there is room for them.
pub length-selected :
    (le : Task → Task → Bool) (p : Task → Bool) (n : ℕ) (ts : List Task)
    → IsDistinct (ids ts)
    → length (filter (λ t. elem t.id (ids (take n (sort_by le (filter p ts))))) ts)
      ≡ min n (length (filter p ts))
length-selected le p n ts d =
    let chosen = take n (sort_by le (filter p ts)) in
    let known : All (λ t. elem t.id (ids ts) ≡ true) chosen =
      All-take _ n _ (All-sort_by le _ _ (All-filter _ p ts (self_elem ts))) in
    let count =
      length-filter-elem (ids chosen) ts d
        (take-IsDistinct n _ (sort_by-IsDistinct le _ (IsDistinct-filter p ts d)))
        (All-map_id (λ i. elem i (ids ts) ≡ true) chosen known) in
    omega (
      arith,
      count,
      length-ids chosen,
      length-take n (sort_by le (filter p ts)),
      length-sort_by le (filter p ts),
    )
