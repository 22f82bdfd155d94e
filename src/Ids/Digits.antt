-- ===== src/Ids/Digits.antt =====
-- An id gives back the time and the randomness that it was made of.
use cairnq.Prelude.{
  ℕ, zero, suc, ◌+◌, ◌*◌, ◌/◌, ◌%◌, ◌^◌, ◌<◌, Bool, true, false, ◌≡◌, refl, ap, ◌∙◌, List, [], ◌∷◌,
  arith, length, ◌==◌, if◌then◌else◌, ◌&&◌, Bool-cases, inl, inr, ==_iff, &&-left, &&-right,
}
use cairnq.Ids.{crockford, char_at, ulid_loop, new_ulid}

-- The place of a character in the alphabet.
abbrev pub place : ℕ → List ℕ → ℕ
place c [] = 0
place c (d ∷ ds) = if c == d then 0 else suc (place c ds)

-- The number that digits stand for, the most significant first.
abbrev pub value_of : ℕ → List ℕ → ℕ
value_of acc [] = acc
value_of acc (c ∷ cs) = value_of (32 * acc + place c crockford) cs

-- Whether a test holds of every number below `n`.
abbrev pub all_below : (ℕ → Bool) → ℕ → Bool
all_below p zero = true
all_below p (suc n) = p n && all_below p n

pub all_below_lem : (p : ℕ → Bool) (n d : ℕ) → all_below p n ≡ true → d < n → p d ≡ true
all_below_lem p zero d h k = absurd (omega arith)
all_below_lem p (suc n) d h k = elim (Bool-cases (d == n)) [
  | inl e ↦ let same : d ≡ n = (==_iff d n).0 e in rw same (&&-left _ _ h)
  | inr e ↦ all_below_lem p n d (&&-right _ _ h) (next_below d n k e)
]
  where
    next_below : (d n : ℕ) → d < suc n → (d == n) ≡ false → d < n
    next_below d n k e = ground arith

abbrev in_place : ℕ → Bool
in_place d = place (char_at d crockford) crockford == d

all_in_place : all_below in_place 32 ≡ true
all_in_place = refl

pub place-char_at : (d : ℕ) → d < 32 → place (char_at d crockford) crockford ≡ d
place-char_at d h = (==_iff _ d).0 (all_below_lem in_place 32 d all_in_place h)

pow_suc : (n : ℕ) → 32 ^ suc n ≡ 32 * 32 ^ n
pow_suc n = omega arith

value_of-ulid_loop :
    (n v : ℕ) (cs : List ℕ) → v < 32 ^ n → value_of 0 (ulid_loop n v cs) ≡ value_of v cs
unfolding ulid_loop
value_of-ulid_loop zero v cs h = let e : v ≡ 0 = omega arith in rw e refl
value_of-ulid_loop (suc n) v cs h =
    value_of-ulid_loop n (v / 32) (char_at (v % 32) crockford ∷ cs) (omega (arith, pow_suc n))
    ∙ ap (λ k. value_of k cs) (omega (arith, place-char_at (v % 32) (omega arith)))

length-ulid_loop : (n v : ℕ) (cs : List ℕ) → length (ulid_loop n v cs) ≡ n + length cs
unfolding ulid_loop
length-ulid_loop zero v cs = omega arith
length-ulid_loop (suc n) v cs =
    omega (arith, length-ulid_loop n (v / 32) (char_at (v % 32) crockford ∷ cs))

-- An id has 26 characters, and read as a number in base 32 it gives back both parts: the time, if that
-- is below 2 ^ 48, and the 80 random bits.
pub new_ulid_decodes :
    (ts_ms random : ℕ)
    → ts_ms < 2 ^ 48
    → random < 2 ^ 80
    → (length (new_ulid ts_ms random) ≡ 26)
      × (value_of 0 (new_ulid ts_ms random) / 2 ^ 80 ≡ ts_ms)
      × (value_of 0 (new_ulid ts_ms random) % 2 ^ 80 ≡ random)
unfolding new_ulid
new_ulid_decodes ts_ms random h k =
    let value = ts_ms * 2 ^ 80 + random in
    let whole : value_of 0 (ulid_loop 26 value []) ≡ value =
      value_of-ulid_loop 26 value [] (omega arith) in
    (length-ulid_loop 26 value [], rw whole (omega arith), rw whole (omega arith))
