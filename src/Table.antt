-- ===== src/Table.antt =====
-- Rows with distinct ids: the primary key of cairnq_tasks
-- (cairnq-protocol/migrations/sqlite/0001_init.sql), and UPDATE and subqueries over such rows.
pub mod Counting
use cairnq.Prelude.{
  ℕ, zero, suc, Bool, true, false, ◌||◌, ◌≡◌, refl, sym, ap, ◌∙◌, List, [], ◌∷◌, ◌++◌, map, Text,
  ◌==◌, if◌then◌else◌, elem, take, filter, All, All-mono, All-filter, All-take, Bool-cases, ==_iff,
  not, inl, inr, arith,
}
use cairnq.Prelude.Sort.{sort_by, All-sort_by}
use cairnq.Models.{Task}

abbrev pub ids : List Task → List Text
ids ts = map (λ t. t.id) ts

abbrev pub update_where : (Task → Bool) → (Task → Task) → List Task → List Task
update_where p f [] = []
update_where p f (t ∷ ts) = (if p t then f t else t) ∷ update_where p f ts

abbrev pub IsDistinct : List Text → Type 0
IsDistinct [] = Unit
IsDistinct (x ∷ xs) = (elem x xs ≡ false) × IsDistinct xs

-- Statements that keep the id of each row.
pub ids-update_where :
    (p : Task → Bool) (f : Task → Task)
    → ((t : Task) → (f t).id ≡ t.id)
    → (ts : List Task) → ids (update_where p f ts) ≡ ids ts
ids-update_where p f keep [] = refl
ids-update_where p f keep (t ∷ ts) = ground (arith, keep t, ids-update_where p f keep ts)

pub All-update_where {κ} :
    (P : Task → Type κ) (p : Task → Bool) (f : Task → Task) (ts : List Task)
    → All P ts
    → All (λ t. P t → p t ≡ true → P (f t)) ts
    → All P (update_where p f ts)
All-update_where P p f [] h k = tt
All-update_where P p f (t ∷ ts) h k = elim (Bool-cases (p t)) [
  | inl e ↦ rw e (k.0 h.0 e, All-update_where P p f ts h.1 k.1)
  | inr e ↦ rw e (h.0, All-update_where P p f ts h.1 k.1)
]

-- A fact of every row.
pub All-of {κ} : (P : Task → Type κ) → ((t : Task) → P t) → (ts : List Task) → All P ts
All-of P f [] = tt
All-of P f (t ∷ ts) = (f t, All-of P f ts)

pub All-with {κ μ ν} :
    (P : Task → Type κ) (Q : Task → Type μ) (R : Task → Type ν)
    → ((t : Task) → P t → Q t → R t)
    → (ts : List Task) → All P ts
    → All Q ts
    → All R ts
All-with P Q R f [] h k = tt
All-with P Q R f (t ∷ ts) h k = (f t h.0 k.0, All-with P Q R f ts h.1 k.1)

-- An id that is no row's.
abbrev pub IsOther : Text → List Task → Type 0
IsOther a ts = All (λ t. (t.id == a) ≡ false) ts

pub IsOther-of_elem : (a : Text) (ts : List Task) → elem a (ids ts) ≡ false → IsOther a ts
IsOther-of_elem a [] h = tt
IsOther-of_elem a (t ∷ ts) h = (ground arith, IsOther-of_elem a ts (ground arith))

pub elem_of_other : (a : Text) (ts : List Task) → IsOther a ts → elem a (ids ts) ≡ false
elem_of_other a [] h = refl
elem_of_other a (t ∷ ts) h = ground (arith, elem_of_other a ts h.1)

extend-IsOther :
    (x : Task) (p : Task → Bool) (xs : List Task) (t : Task)
    → (t.id == x.id) ≡ false
    → (p t ≡ false → IsOther t.id (filter p xs))
    → p t ≡ false
    → IsOther t.id (filter p (x ∷ xs))
extend-IsOther x p xs t ne h e = elim (Bool-cases (p x)) [
  | inl q ↦ rw q (ground arith, h e)
  | inr q ↦ rw q (h e)
]

-- A row that fails a filter shares its id with no row that passes it.
failing-IsOther :
    (p : Task → Bool) (ts : List Task)
    → IsDistinct (ids ts)
    → All (λ t. p t ≡ false → IsOther t.id (filter p ts)) ts
failing-IsOther p [] d = tt
failing-IsOther p (x ∷ xs) d = (
  λ e. rw e (All-filter (λ t. (t.id == x.id) ≡ false) p xs (IsOther-of_elem x.id xs d.0)),
  All-with (λ t. (t.id == x.id) ≡ false) (λ t. p t ≡ false → IsOther t.id (filter p xs))
      (λ t. p t ≡ false → IsOther t.id (filter p (x ∷ xs))) (extend-IsOther x p xs) xs
      (IsOther-of_elem x.id xs d.0) (failing-IsOther p xs d.1),
)

module _ (le : Task → Task → Bool) (p : Task → Bool) (n : ℕ) (ts : List Task) where
  -- The first `n` rows that pass a filter, in an order.
  abbrev pub subquery : List Task
  subquery = take n (sort_by le (filter p ts))

  chosen_of :
      (t : Task)
      → (p t ≡ false → IsOther t.id (filter p ts))
      → elem t.id (ids subquery) ≡ true
      → p t ≡ true
  chosen_of t h e = elim (Bool-cases (p t)) [
    | inl q ↦ q
    | inr q ↦
        let o : IsOther t.id subquery = All-take _ n _ (All-sort_by le _ _ (h q)) in
        cc (e, elem_of_other t.id subquery o)
  ]

  -- A row whose id a subquery returned passes the subquery's filter.
  pub chosen_passes :
      IsDistinct (ids ts) → All (λ t. elem t.id (ids subquery) ≡ true → p t ≡ true) ts
  chosen_passes d = All-mono chosen_of ts (failing-IsOther p ts d)

-- Inserting and deleting rows.
pub elem-append_left :
    (a : Text) (ts us : List Task) → elem a (ids ts) ≡ true → elem a (ids (ts ++ us)) ≡ true
elem-append_left a [] us h = cc
elem-append_left a (t ∷ ts) us h = ground (arith, elem-append_left a ts us)

elem-append_none :
    (a : Text) (ts : List Task) (u : Task)
    → elem a (ids ts) ≡ false
    → (u.id == a) ≡ false
    → elem a (ids (ts ++ u ∷ [])) ≡ false
elem-append_none a [] u h k = ground arith
elem-append_none a (t ∷ ts) u h k = ground (arith, elem-append_none a ts u)

pub IsDistinct-append :
    (ts : List Task) (u : Task)
    → IsDistinct (ids ts)
    → elem u.id (ids ts) ≡ false
    → IsDistinct (ids (ts ++ u ∷ []))
IsDistinct-append [] u d h = (refl, tt)
IsDistinct-append (t ∷ ts) u d h =
    (elem-append_none t.id ts u d.0 (ground arith), IsDistinct-append ts u d.1 (ground arith))

pub IsDistinct-filter :
    (p : Task → Bool) (ts : List Task) → IsDistinct (ids ts) → IsDistinct (ids (filter p ts))
IsDistinct-filter p [] d = tt
IsDistinct-filter p (t ∷ ts) d = elim (Bool-cases (p t)) [
  | inl e ↦ rw e (
    elem_of_other t.id _
        (All-filter (λ u. (u.id == t.id) ≡ false) p ts (IsOther-of_elem t.id ts d.0)),
    IsDistinct-filter p ts d.1,
  )
  | inr e ↦ rw e (IsDistinct-filter p ts d.1)
]

-- A deletion by ids keeps the rows of every other id.
pub elem-delete :
    (a : Text) (gone : List Text) (ts : List Task)
    → elem a gone ≡ false
    → elem a (ids ts) ≡ true
    → elem a (ids (filter (λ t. not (elem t.id gone)) ts)) ≡ true
elem-delete a gone [] h k = k
elem-delete a gone (t ∷ ts) h k = elim (Bool-cases (t.id == a)) [
  | inl e ↦
      let same : elem t.id gone ≡ false = ap (λ i. elem i gone) ((==_iff t.id a).0 e) ∙ h in
      rw same (rw e refl)
  | inr e ↦
      let rest = elem-delete a gone ts h (rw e at k) in
      elim (Bool-cases (elem t.id gone)) [ inl q ↦ rw q rest | inr q ↦ rw q (rw e rest) ]
]

-- Each row's id is among the ids.
pub self_elem : (ts : List Task) → All (λ t. elem t.id (ids ts) ≡ true) ts
self_elem [] = tt
self_elem (t ∷ ts) = (ground arith, All-mono (λ u h. ground arith) ts (self_elem ts))

-- An update that no row passes changes nothing.
pub none_updated :
    (p : Task → Bool) (f : Task → Task) (ts : List Task)
    → filter p ts ≡ []
    → update_where p f ts ≡ ts
none_updated p f [] h = refl
none_updated p f (t ∷ ts) h = ground (arith, none_updated p f ts)
