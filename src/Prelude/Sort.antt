-- ===== src/Prelude/Sort.antt =====
-- Insertion sort by a Boolean order, for the ORDER BY clauses of the statements.
use cairnq.Prelude.Tests.{if◌then◌else◌, Bool-cases}
use cairnq.Prelude.Lists.{length, take, drop, All, All-mono}
use Prim.Native.Nat.{ℕ, zero, suc}
use mathlib.Core.Path.{◌≡◌, refl}
use mathlib.Core.Logic.{inl, inr}
use mathlib.Core.Bool.{Bool, true, false}
use mathlib.Core.List.{List, [], ◌∷◌}
use native.Mathlib.Omega.{arith}

module _ {ℓ} {A : Type ℓ} where
  unfoldable pub insert_by : (A → A → Bool) → A → List A → List A
  insert_by le t [] = t ∷ []
  insert_by le t (x ∷ xs) = if le t x then t ∷ x ∷ xs else x ∷ insert_by le t xs

  unfoldable pub sort_by : (A → A → Bool) → List A → List A
  unfolding insert_by
  sort_by le [] = []
  sort_by le (t ∷ ts) = insert_by le t (sort_by le ts)

  -- Each element comes before, or is level with, all that follow it.
  abbrev pub IsSorted : (A → A → Bool) → List A → Type ℓ
  IsSorted le [] = Unit
  IsSorted le (x ∷ xs) = All (λ y. le x y ≡ true) xs × IsSorted le xs

module _ {ℓ} {A : Type ℓ} (le : A → A → Bool) where
  length-insert_by : (t : A) (xs : List A) → length (insert_by le t xs) ≡ suc (length xs)
  unfolding insert_by
  length-insert_by t [] = refl
  length-insert_by t (x ∷ xs) = ground (arith, length-insert_by t xs)

  pub length-sort_by : (xs : List A) → length (sort_by le xs) ≡ length xs
  unfolding sort_by
  length-sort_by [] = refl
  length-sort_by (x ∷ xs) = omega (arith, length-insert_by x (sort_by le xs), length-sort_by xs)

module _ {ℓ κ} {A : Type ℓ} (le : A → A → Bool) (P : A → Type κ) where
  pub All-insert_by : (t : A) (xs : List A) → P t → All P xs → All P (insert_by le t xs)
  unfolding insert_by
  All-insert_by t [] h k = (h, tt)
  All-insert_by t (x ∷ xs) h k = elim (Bool-cases (le t x)) [
    | inl e ↦ rw e (h, k)
    | inr e ↦ rw e (k.0, All-insert_by t xs h k.1)
  ]

  pub All-sort_by : (xs : List A) → All P xs → All P (sort_by le xs)
  unfolding sort_by
  All-sort_by [] h = tt
  All-sort_by (x ∷ xs) h = All-insert_by x (sort_by le xs) h.0 (All-sort_by xs h.1)

  All-of-insert_by : (t : A) (xs : List A) → All P (insert_by le t xs) → P t × All P xs
  unfolding insert_by
  All-of-insert_by t [] h = h
  All-of-insert_by t (x ∷ xs) h = elim (Bool-cases (le t x)) [
    | inl e ↦ let k : All P (t ∷ x ∷ xs) = rw e at h in k
    | inr e ↦
        let k : All P (x ∷ insert_by le t xs) = rw e at h in
        let r = All-of-insert_by t xs k.1 in (r.0, (k.0, r.1))
  ]

  -- What holds of the sorted list holds of the list.
  pub All-of-sort_by : (xs : List A) → All P (sort_by le xs) → All P xs
  unfolding sort_by
  All-of-sort_by [] h = tt
  All-of-sort_by (x ∷ xs) h =
      let r = All-of-insert_by x (sort_by le xs) h in (r.0, All-of-sort_by xs r.1)

module _ {ℓ} {A : Type ℓ} (le : A → A → Bool) (total : (a b : A) → le a b ≡ false → le b a ≡ true)
    (trans : (a b c : A) → le a b ≡ true → le b c ≡ true → le a c ≡ true) where
  insert_by-IsSorted : (t : A) (xs : List A) → IsSorted le xs → IsSorted le (insert_by le t xs)
  unfolding insert_by
  insert_by-IsSorted t [] h = (tt, tt)
  insert_by-IsSorted t (x ∷ xs) h = elim (Bool-cases (le t x)) [
    | inl e ↦ rw e ((e, All-mono (λ y p. trans t x y e p) xs h.0), h)
    | inr e ↦
        rw e (
          All-insert_by le (λ y. le x y ≡ true) t xs (total t x e) h.0,
          insert_by-IsSorted t xs h.1,
        )
  ]

  pub sort_by-IsSorted : (xs : List A) → IsSorted le (sort_by le xs)
  unfolding sort_by
  sort_by-IsSorted [] = tt
  sort_by-IsSorted (x ∷ xs) = insert_by-IsSorted x (sort_by le xs) (sort_by-IsSorted xs)

module _ {ℓ} {A : Type ℓ} (le : A → A → Bool) where
  All-drop_le :
      (x : A) (n : ℕ) (xs : List A)
      → All (λ y. le x y ≡ true) xs
      → All (λ y. le x y ≡ true) (drop n xs)
  All-drop_le x zero xs h = h
  All-drop_le x (suc n) [] h = tt
  All-drop_le x (suc n) (y ∷ ys) h = All-drop_le x n ys h.1

  -- In a sorted list, each of the first `n` comes before each of the rest.
  pub take-before-drop :
      (n : ℕ) (xs : List A)
      → IsSorted le xs
      → All (λ c. All (λ r. le c r ≡ true) (drop n xs)) (take n xs)
  take-before-drop zero xs h = tt
  take-before-drop (suc n) [] h = tt
  take-before-drop (suc n) (x ∷ xs) h = (All-drop_le x n xs h.0, take-before-drop n xs h.1)
