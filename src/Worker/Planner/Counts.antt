-- ===== src/Worker/Planner/Counts.antt =====
-- The counts of a planner's dictionaries, and the charge and refund of a call.
use cairnq.Prelude.{
  ℕ, ◌+◌, ◌-◌, ◌<◌, false, ◌≡◌, refl, some, List, [], ◌∷◌, Text, arith, ◌==◌, if◌then◌else◌, map,
  elem,
}
use cairnq.Table.{IsDistinct}
use cairnq.Worker.Planner.{
  Counts, count_of, set_count, pop_count, count_or, Planner, acquire, release,
}

pub count_of-set_count :
    (r q n : ℕ) (m : Counts) → count_of r (set_count q n m) ≡ (if q == r then n else count_of r m)
count_of-set_count r q n [] = refl
count_of-set_count r q n ((p, k) ∷ m) = ground (arith, count_of-set_count r q n m)

abbrev pub keys_of : Counts → List Text
keys_of m = map (λ e. e.0) m

absent : (r : Text) (m : Counts) → elem r (keys_of m) ≡ false → count_of r m ≡ 0
absent r [] h = refl
absent r ((p, k) ∷ m) h = ground (arith, absent r m)

pub count_of-pop_count :
    (r q : Text) (m : Counts)
    → IsDistinct (keys_of m)
    → count_of r (pop_count q m) ≡ (if q == r then 0 else count_of r m)
count_of-pop_count r q [] d = ground arith
count_of-pop_count r q ((p, k) ∷ m) d = ground (arith, count_of-pop_count r q m d.1, absent p m d.0)

pub count_or_one : (r : Text) (m : Counts) → 0 < count_of r m → count_or r 1 m ≡ count_of r m
count_or_one r [] h = absurd (omega arith)
count_or_one r ((p, k) ∷ m) h = ground (arith, count_or_one r m)

-- Charging a call to a resource counts one more on it and the same on every other; refunding it
-- gives back the counts from before, where each resource has one entry.
pub release-acquire :
    (r q : Text) (p : Planner)
    → IsDistinct (keys_of (acquire (some q) p).in_flight)
    → (count_of r (acquire (some q) p).in_flight
        ≡ (if q == r then count_of r p.in_flight + 1 else count_of r p.in_flight))
      × (count_of r (release (some q) (acquire (some q) p)).in_flight ≡ count_of r p.in_flight)
unfolding acquire release
release-acquire r q p d =
    let m = set_count q (count_of q p.in_flight + 1) p.in_flight in
    ground (
      arith,
      count_of-set_count r q (count_of q p.in_flight + 1) p.in_flight,
      count_of-set_count q q (count_of q p.in_flight + 1) p.in_flight,
      count_or_one q m,
      count_of-set_count r q (count_or q 1 m - 1) m,
      count_of-pop_count r q m d,
    )
