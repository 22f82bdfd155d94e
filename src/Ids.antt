-- ===== src/Ids.antt =====
-- cairnq-py/cairnq/_ids.py: ULID-style ids. A character is its code; the clock and the ten random bytes
-- are arguments.
pub mod Digits
pub mod Order
mod Examples
use cairnq.Prelude.{ℕ, zero, suc, ◌+◌, ◌*◌, ◌/◌, ◌%◌, ◌^◌, List, [], ◌∷◌}

-- "0123456789ABCDEFGHJKMNPQRSTVWXYZ"
abbrev pub crockford : List ℕ
crockford =
    48 ∷ 49 ∷ 50 ∷ 51 ∷ 52 ∷ 53 ∷ 54 ∷ 55 ∷ 56 ∷ 57 ∷ 65 ∷ 66 ∷ 67 ∷ 68 ∷ 69 ∷ 70 ∷ 71 ∷ 72 ∷ 74
    ∷ 75 ∷ 77 ∷ 78 ∷ 80 ∷ 81 ∷ 82 ∷ 83 ∷ 84 ∷ 86 ∷ 87 ∷ 88 ∷ 89 ∷ 90 ∷ []

-- `_CROCKFORD[i]`, at an index that is there.
abbrev pub char_at : ℕ → List ℕ → ℕ
char_at i [] = 0
char_at zero (c ∷ cs) = c
char_at (suc i) (c ∷ cs) = char_at i cs

-- The loop, its list reversed as it grows: `value & 0x1F` is appended, and `value >>= 5`.
unfoldable pub ulid_loop : ℕ → ℕ → List ℕ → List ℕ
ulid_loop zero value chars = chars
ulid_loop (suc n) value chars = ulid_loop n (value / 32) (char_at (value % 32) crockford ∷ chars)

-- `(ts_ms << 80) | random`: the random part stays below 2 ^ 80, so that the two do not overlap.
unfoldable pub new_ulid : ℕ → ℕ → List ℕ
unfolding ulid_loop
new_ulid ts_ms random = ulid_loop 26 (ts_ms * 2 ^ 80 + random) []
