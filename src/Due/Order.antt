-- ===== src/Due/Order.antt =====
-- The claim order is total and transitive, and a claim's subquery takes the first rows in it.
use cairnq.Prelude.{
  ℕ, Bool, true, false, ◌≡◌, subst, List, [], ◌∷◌, arith, All, All-mono, All-append, filter, take,
  drop, take-append-drop, elem, Bool-cases, inl, inr,
}
use cairnq.Prelude.Sort.{sort_by, sort_by-IsSorted, take-before-drop, All-of-sort_by}
use cairnq.Models.{Task}
use cairnq.Table.{ids, self_elem}
use cairnq.Due.{before, sort_due}

pub before_total : (a b : Task) → before a b ≡ false → before b a ≡ true
unfolding before
before_total a b h = ground arith

pub before_trans : (a b c : Task) → before a b ≡ true → before b c ≡ true → before a c ≡ true
unfolding before
before_trans a b c h k = ground arith

module _ {ℓ} {A : Type ℓ} (R : A → A → Bool) where
  extend-All :
      (c : A) (cs : List A) (rs : List A)
      → All (λ r. R c r ≡ true) rs
      → All (λ r. All (λ d. R d r ≡ true) cs) rs
      → All (λ r. All (λ d. R d r ≡ true) (c ∷ cs)) rs
  extend-All c cs [] h k = tt
  extend-All c cs (r ∷ rs) h k = ((h.0, k.0), extend-All c cs rs h.1 k.1)

  none-All : (rs : List A) → All (λ r. All (λ d. R d r ≡ true) []) rs
  none-All [] = tt
  none-All (r ∷ rs) = (tt, none-All rs)

  transpose :
      (cs rs : List A)
      → All (λ c. All (λ r. R c r ≡ true) rs) cs
      → All (λ r. All (λ c. R c r ≡ true) cs) rs
  transpose [] rs h = none-All rs
  transpose (c ∷ cs) rs h = extend-All c cs rs h.0 (transpose cs rs h.1)

All-of-filter :
    (P : Task → Type 0) (p : Task → Bool) (ts : List Task)
    → All P (filter p ts)
    → All (λ t. p t ≡ true → P t) ts
All-of-filter P p [] h = tt
All-of-filter P p (t ∷ ts) h = elim (Bool-cases (p t)) [
  | inl e ↦ let k : All P (t ∷ filter p ts) = rw e at h in (λ q. k.0, All-of-filter P p ts k.1)
  | inr e ↦ let k : All P (filter p ts) = rw e at h in (λ q. cc, All-of-filter P p ts k)
]

module _ (n : ℕ) (ts : List Task) where
  abbrev chosen : List Task
  chosen = take n (sort_due ts)

  abbrev Waits : Task → Type 0
  Waits t = elem t.id (ids chosen) ≡ false → All (λ c. before c t ≡ true) chosen

  sorted-Waits : All Waits (sort_due ts)
  unfolding sort_due
  sorted-Waits =
      let s = sort_by before ts in
      subst (All Waits) (take-append-drop n s) (
        All-append Waits (take n s) (drop n s)
          (All-mono (λ t h e. cc) (take n s) (self_elem (take n s)))
          (All-mono (λ t h e. h) (drop n s)
            (transpose before (take n s) (drop n s) (
              take-before-drop before n s (sort_by-IsSorted before before_total before_trans ts)))))

  pub unsorted-Waits : All Waits ts
  unfolding sort_due
  unsorted-Waits = All-of-sort_by before Waits ts (sorted-Waits)

-- A row that passes the filter and that a subquery leaves out comes after all that it takes.
pub left_out_waits :
    (n : ℕ) (p : Task → Bool) (ts : List Task)
    → All
        (λ t.
          p t ≡ true
          → elem t.id (ids (take n (sort_due (filter p ts)))) ≡ false
          → All (λ c. before c t ≡ true) (take n (sort_due (filter p ts))))
        ts
left_out_waits n p ts = All-of-filter _ p ts (unsorted-Waits n (filter p ts))
