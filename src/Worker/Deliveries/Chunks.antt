-- ===== src/Worker/Deliveries/Chunks.antt =====
-- Cutting a group into calls.
use cairnq.Prelude.{
  ℕ, zero, suc, ◌-◌, ◌*◌, ◌≤◌, ◌<◌, ◌≡◌, refl, ap, ◌∙◌, List, [], ◌∷◌, ◌++◌, arith, All, length,
  take, drop, take-append-drop, length-take, length-drop, All-take, All-drop,
}
use cairnq.Models.{Task}
use cairnq.Worker.Deliveries.{chunks}

abbrev pub concat : List (List Task) → List Task
concat [] = []
concat (g ∷ gs) = g ++ concat gs

drop_shorter :
    (size : ℕ) (t : Task) (ts : List Task) → 0 < size → length (drop size (t ∷ ts)) ≤ length ts
drop_shorter zero t ts h = absurd (omega arith)
drop_shorter (suc n) t ts h = omega (arith, length-drop n ts)

-- With a size of at least one, the chunks put together are the group.
pub concat-chunks :
    (fuel size : ℕ) (ts : List Task)
    → 0 < size
    → length ts ≤ fuel
    → concat (chunks fuel size ts) ≡ ts
unfolding chunks
concat-chunks fuel size [] h k = refl
concat-chunks zero size (t ∷ ts) h k = absurd (omega arith)
concat-chunks (suc fuel) size (t ∷ ts) h k =
    ap (λ l. take size (t ∷ ts) ++ l)
      (concat-chunks fuel size (drop size (t ∷ ts)) h (omega (arith, drop_shorter size t ts h)))
    ∙ take-append-drop size (t ∷ ts)

-- No chunk is larger than the size.
pub chunks-length :
    (fuel size : ℕ) (ts : List Task) → All (λ g. length g ≤ size) (chunks fuel size ts)
unfolding chunks
chunks-length fuel size [] = tt
chunks-length zero size (t ∷ ts) = tt
chunks-length (suc fuel) size (t ∷ ts) =
    (omega (arith, length-take size (t ∷ ts)), chunks-length fuel size (drop size (t ∷ ts)))

pub chunks-All :
    (P : Task → Type 0) (fuel size : ℕ) (ts : List Task)
    → All P ts
    → All (λ g. All P g) (chunks fuel size ts)
unfolding chunks
chunks-All P fuel size [] a = tt
chunks-All P zero size (t ∷ ts) a = tt
chunks-All P (suc fuel) size (t ∷ ts) a = (
  All-take P size (t ∷ ts) a,
  chunks-All P fuel size (drop size (t ∷ ts)) (All-drop P size (t ∷ ts) a),
)

drop_quota : (size k n : ℕ) → n ≤ size * suc k → n - size ≤ size * k
drop_quota size k n h = omega arith

-- A group that fits in `k` calls of the size is cut into at most `k`.
pub length-chunks :
    (fuel size k : ℕ) (ts : List Task)
    → 0 < size
    → length ts ≤ size * k
    → length (chunks fuel size ts) ≤ k
unfolding chunks
length-chunks fuel size k [] h q = omega arith
length-chunks zero size k (t ∷ ts) h q = omega arith
length-chunks (suc fuel) size zero (t ∷ ts) h q = absurd (omega arith)
length-chunks (suc fuel) size (suc k) (t ∷ ts) h q = omega (
  arith,
  length-chunks fuel size k (drop size (t ∷ ts)) h
      (omega (arith, length-drop size (t ∷ ts), drop_quota size k (suc (length ts)) q)),
)
