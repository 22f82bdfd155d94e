-- ===== src/Ids/Order.antt =====
-- Ids sort by their time, as texts do.
use cairnq.Prelude.{
  ℕ, zero, suc, ◌+◌, ◌*◌, ◌/◌, ◌%◌, ◌^◌, ◌≤◌, ◌<◌, Bool, true, false, ◌&&◌, ◌≡◌, refl, sym, ap, ◌∙◌,
  List, [], ◌∷◌, arith, ◌==◌, ==_refl, if◌then◌else◌, Bool-cases, inl, inr, ltb,
}
use cairnq.Ids.{crockford, char_at, ulid_loop, new_ulid}
use cairnq.Ids.Digits.{all_below, all_below_lem}

-- `a < b` for texts, by their characters' codes.
abbrev pub text_lt : List ℕ → List ℕ → Bool
text_lt [] [] = false
text_lt [] (d ∷ ds) = true
text_lt (c ∷ cs) [] = false
text_lt (c ∷ cs) (d ∷ ds) = if ltb c d then true else (c == d) && text_lt cs ds

abbrev steps_up : ℕ → Bool
steps_up d = all_below (λ e. ltb (char_at e crockford) (char_at d crockford)) d

all_step_up : all_below steps_up 32 ≡ true
all_step_up = refl

char_at-lt : (d e : ℕ) → d < e → e < 32 → ltb (char_at d crockford) (char_at e crockford) ≡ true
char_at-lt d e h k =
    all_below_lem (λ i. ltb (char_at i crockford) (char_at e crockford)) e d
      (all_below_lem steps_up 32 e all_step_up k) h

ltb_lt : (a b : ℕ) → ltb a b ≡ true → a < b
ltb_lt a b h = ground arith

ltb_ge : (a b : ℕ) → ltb a b ≡ false → b ≤ a
ltb_ge a b h = ground arith

pow_suc : (n : ℕ) → 32 ^ suc n ≡ 32 * 32 ^ n
pow_suc n = omega arith

smaller_head : (c d : ℕ) (cs ds : List ℕ) → ltb c d ≡ true → text_lt (c ∷ cs) (d ∷ ds) ≡ true
smaller_head c d cs ds h = ground arith

same_head : (c : ℕ) (cs ds : List ℕ) → text_lt (c ∷ cs) (c ∷ ds) ≡ text_lt cs ds
same_head c cs ds = ground (arith, ==_refl c)

-- The loop compares by the digits above first, then by those below.
abbrev Compares : ℕ → ℕ → List ℕ → List ℕ → Bool → Type 0
Compares v w vs ws below = (v < w → text_lt vs ws ≡ true) × (v ≡ w → text_lt vs ws ≡ below)

last_digit :
    (v w : ℕ) (cs ds vs ws : List ℕ)
    → Compares
        (v / 32)
        (w / 32)
        vs
        ws
        (text_lt (char_at (v % 32) crockford ∷ cs) (char_at (w % 32) crockford ∷ ds))
    → Compares v w vs ws (text_lt cs ds)
last_digit v w cs ds vs ws h = (
  λ l. elim (Bool-cases (ltb (v / 32) (w / 32))) [
    | inl e ↦ h.0 (ltb_lt (v / 32) (w / 32) e)
    | inr e ↦
        let above : v / 32 ≡ w / 32 = omega (arith, ltb_ge (v / 32) (w / 32) e) in
        h.1 above
        ∙ smaller_head _ _ cs ds (char_at-lt (v % 32) (w % 32) (omega (arith, above)) (omega arith))
  ],
  λ e.
      h.1 (ap (λ k. k / 32) e)
      ∙ (ap (λ k. text_lt (char_at (v % 32) crockford ∷ cs) (char_at (k % 32) crockford ∷ ds))
            (sym e)
          ∙ same_head (char_at (v % 32) crockford) cs ds),
)

loop-text_lt :
    (n v w : ℕ) (cs ds : List ℕ)
    → v < 32 ^ n
    → w < 32 ^ n
    → Compares v w (ulid_loop n v cs) (ulid_loop n w ds) (text_lt cs ds)
unfolding ulid_loop
loop-text_lt zero v w cs ds h k = (λ l. absurd (omega arith), λ e. refl)
loop-text_lt (suc n) v w cs ds h k =
    last_digit v w cs ds (ulid_loop n (v / 32) (char_at (v % 32) crockford ∷ cs))
      (ulid_loop n (w / 32) (char_at (w % 32) crockford ∷ ds))
      (loop-text_lt n (v / 32) (w / 32) (char_at (v % 32) crockford ∷ cs)
        (char_at (w % 32) crockford ∷ ds) (omega (arith, pow_suc n)) (omega (arith, pow_suc n)))

-- Ids made at different milliseconds sort as texts by the time that they were made at, whatever their
-- random parts are, for times below 2 ^ 48.
pub new_ulid_sorts :
    (earlier later r s : ℕ)
    → earlier < later
    → later < 2 ^ 48
    → r < 2 ^ 80
    → s < 2 ^ 80
    → text_lt (new_ulid earlier r) (new_ulid later s) ≡ true
unfolding new_ulid
new_ulid_sorts earlier later r s h k p q =
    (loop-text_lt 26 (earlier * 2 ^ 80 + r) (later * 2 ^ 80 + s) [] [] (omega arith)
        (omega arith)).0
      (omega arith)
