-- ===== src/Worker/Loop/Charges.antt =====
-- The calls in flight and the planner's counts of them agree.
use cairnq.Prelude.{
  ℕ, zero, suc, ◌+◌, ◌-◌, ◌<◌, false, ◌≡◌, refl, ap, Option, none, some, List, [], ◌∷◌, Text, arith,
  ◌==◌, ==_iff, ==_refl, length, ltb, elem, if_keeps, get_or,
}
use cairnq.Table.{IsDistinct}
use cairnq.Worker.Planner.{
  Counts, count_of, set_count, pop_count, count_or, Planner, acquire, release,
}
use cairnq.Worker.Planner.Budget.{charge}
use cairnq.Worker.Planner.Counts.{count_of-set_count, count_of-pop_count, count_or_one, keys_of}
use cairnq.Worker.Loop.{call_at, discard_at}

-- The calls in flight on a resource.
abbrev pub running_on : Text → List (Option Text) → ℕ
running_on r [] = 0
running_on r (c ∷ cs) = charge r c 1 + running_on r cs

pub ==_sym : (q p : ℕ) → (p == q) ≡ false → (q == p) ≡ false
==_sym q p h = ground arith

keys-set_count :
    (r q n : ℕ) (m : Counts)
    → elem r (keys_of m) ≡ false
    → (q == r) ≡ false
    → elem r (keys_of (set_count q n m)) ≡ false
keys-set_count r q n [] h k = ground arith
keys-set_count r q n ((p, k) ∷ m) h e = ground (arith, keys-set_count r q n m, ==_iff p q)

IsDistinct-set_count :
    (q n : ℕ) (m : Counts) → IsDistinct (keys_of m) → IsDistinct (keys_of (set_count q n m))
IsDistinct-set_count q n [] d = (refl, tt)
IsDistinct-set_count q n ((p, k) ∷ m) d =
    if_keeps (λ m'. IsDistinct (keys_of m')) (p == q) ((p, n) ∷ m) ((p, k) ∷ set_count q n m)
      (λ e. d) (λ e. (keys-set_count p q n m d.0 (==_sym q p e), IsDistinct-set_count q n m d.1))

keys-pop_count :
    (r q : ℕ) (m : Counts) → elem r (keys_of m) ≡ false → elem r (keys_of (pop_count q m)) ≡ false
keys-pop_count r q [] h = h
keys-pop_count r q ((p, k) ∷ m) h = ground (arith, keys-pop_count r q m)

IsDistinct-pop_count :
    (q : ℕ) (m : Counts) → IsDistinct (keys_of m) → IsDistinct (keys_of (pop_count q m))
IsDistinct-pop_count q [] d = d
IsDistinct-pop_count q ((p, k) ∷ m) d =
    if_keeps (λ m'. IsDistinct (keys_of m')) (p == q) m ((p, k) ∷ pop_count q m) (λ e. d.1)
      (λ e. (keys-pop_count p q m d.0, IsDistinct-pop_count q m d.1))

-- The counts of the planner are those of the calls in flight.
pub record IsCharged (p : Planner) (running : List (Option Text)) : Type 0 where
  pub distinct : IsDistinct (keys_of p.in_flight)
  pub counts : (r : Text) → count_of r p.in_flight ≡ running_on r running

pub acquire-IsCharged :
    (c : Option Text) (p : Planner) (running : List (Option Text))
    → IsCharged p running
    → IsCharged (acquire c p) (c ∷ running)
unfolding acquire
acquire-IsCharged none p running h = record {
  distinct = h.distinct;
  counts = λ r. omega (arith, h.counts r);
}
acquire-IsCharged (some q) p running h = record {
  distinct = IsDistinct-set_count q (count_of q p.in_flight + 1) p.in_flight h.distinct;
  counts = λ r. ground (
    arith,
    count_of-set_count r q (count_of q p.in_flight + 1) p.in_flight,
    h.counts r,
    h.counts q,
  );
}

-- Taking a call away.
pub discard_lem :
    (i : ℕ) (c : Option Text) (cs : List (Option Text))
    → call_at i cs ≡ some c
    → (length cs ≡ suc (length (discard_at i cs)))
      × ((r : Text) → running_on r cs ≡ charge r c 1 + running_on r (discard_at i cs))
discard_lem i c [] h = cc
discard_lem zero c (b ∷ cs) h = (refl, λ r. ap (λ o. charge r (get_or o b) 1 + running_on r cs) h)
discard_lem (suc i) c (b ∷ cs) h =
    let (size, counts) = discard_lem i c cs h in (omega (arith, size), λ r. omega (arith, counts r))

-- The count after a refund.
count_of-release :
    (r q : Text) (p : Planner)
    → IsDistinct (keys_of p.in_flight)
    → 0 < count_of q p.in_flight
    → charge r (some q) 1 + count_of r (release (some q) p).in_flight ≡ count_of r p.in_flight
unfolding release
count_of-release r q p d h = ground (
  arith,
  count_or_one q p.in_flight h,
  count_of-set_count r q (count_or q 1 p.in_flight - 1) p.in_flight,
  count_of-pop_count r q p.in_flight d,
)

pub release-IsCharged :
    (i : ℕ) (c : Option Text) (p : Planner) (running : List (Option Text))
    → call_at i running ≡ some c
    → IsCharged p running
    → IsCharged (release c p) (discard_at i running)
unfolding release
release-IsCharged i none p running h k = record {
  distinct = k.distinct;
  counts = λ r. omega (arith, k.counts r, (discard_lem i none running h).1 r);
}
release-IsCharged i (some q) p running h k =
    let gone = (discard_lem i (some q) running h).1 in
    let here : charge q (some q) 1 ≡ 1 = rw (==_refl q) refl in
    let some_here : 0 < count_of q p.in_flight = omega (arith, k.counts q, gone q, here) in
    record {
      distinct =
          if_keeps (λ m. IsDistinct (keys_of m)) (ltb 0 (count_or q 1 p.in_flight - 1))
            (set_count q (count_or q 1 p.in_flight - 1) p.in_flight) (pop_count q p.in_flight)
            (λ e. IsDistinct-set_count q (count_or q 1 p.in_flight - 1) p.in_flight k.distinct)
            (λ e. IsDistinct-pop_count q p.in_flight k.distinct);
      counts = λ r. omega (arith, k.counts r, gone r, count_of-release r q p k.distinct some_here);
    }
