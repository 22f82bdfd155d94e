-- ===== src/Sql/Text.antt =====
-- The scan of a statement keeps its text.
use cairnq.Prelude.{
  append-nil, append_assoc, ℕ, true, ◌==◌, ◌≡◌, refl, sym, ap, ◌∙◌, List, [], ◌∷◌, ◌++◌, Bool-cases,
  inl, inr, ==_iff,
}
use cairnq.Sql.{
  Piece, char, named, Scan, plain, colon, colons, name, is_word, plain_step, scan_step, scan_end,
  scan,
}

abbrev pub spell : List Piece → List ℕ
spell [] = []
spell (char c ∷ ps) = c ∷ spell ps
spell (named n ∷ ps) = 58 ∷ n ++ spell ps

-- What a state has read and not given out.
abbrev pending : Scan → List ℕ
pending plain = []
pending colon = 58 ∷ []
pending colons = []
pending (name n) = 58 ∷ n

spell-append : (ps qs : List Piece) → spell (ps ++ qs) ≡ spell ps ++ spell qs
spell-append [] qs = refl
spell-append (char c ∷ ps) qs = ap (λ ds. c ∷ ds) (spell-append ps qs)
spell-append (named n ∷ ps) qs =
    ap (λ ds. 58 ∷ n ++ ds) (spell-append ps qs)
    ∙ sym (ap (λ ds. 58 ∷ ds) (append_assoc n (spell ps) (spell qs)))

spell-plain_step : (c : ℕ) → spell (plain_step c).1 ++ pending (plain_step c).0 ≡ c ∷ []
spell-plain_step c = elim (Bool-cases (c == 58)) [
  | inl e ↦ rw e (ap (λ d. d ∷ []) (sym ((==_iff c 58).0 e)))
  | inr e ↦ rw e refl
]

colon_char : (c : ℕ) → (c == 58) ≡ true → 58 ≡ c
colon_char c e = sym ((==_iff c 58).0 e)

-- One step gives out what was pending and its character, but for what is pending after it.
spell-scan_step :
    (s : Scan) (c : ℕ) → spell (scan_step s c).1 ++ pending (scan_step s c).0 ≡ pending s ++ c ∷ []
spell-scan_step plain c = spell-plain_step c
spell-scan_step colon c = elim (Bool-cases (is_word c)) [
  | inl w ↦ rw w refl
  | inr w ↦ elim (Bool-cases (c == 58)) [
    | inl e ↦ rw (w, e) (ap (λ d. 58 ∷ d ∷ []) (colon_char c e))
    | inr e ↦ rw (w, e) refl
  ]
]
spell-scan_step colons c = elim (Bool-cases (c == 58)) [
  | inl e ↦ rw e (ap (λ d. d ∷ []) (colon_char c e))
  | inr e ↦ rw e refl
]
spell-scan_step (name n) c = elim (Bool-cases (is_word c)) [
  | inl w ↦ rw w refl
  | inr w ↦ rw w (
      ap (λ ds. 58 ∷ ds)
        (append_assoc n (spell (plain_step c).1) (pending (plain_step c).0)
          ∙ ap (λ ds. n ++ ds) (spell-plain_step c)))
]

spell-scan_end : (s : Scan) → spell (scan_end s) ≡ pending s
spell-scan_end plain = refl
spell-scan_end colon = refl
spell-scan_end colons = refl
spell-scan_end (name n) = ap (λ ds. 58 ∷ ds) (append-nil n)

spell-scan-pending : (s : Scan) (cs : List ℕ) → spell (scan s cs) ≡ pending s ++ cs
unfolding scan
spell-scan-pending s [] = spell-scan_end s ∙ sym (append-nil (pending s))
spell-scan-pending s (c ∷ cs) =
    let t = (scan_step s c).0 in
    let out = (scan_step s c).1 in
    spell-append out (scan t cs)
    ∙ (ap (λ ds. spell out ++ ds) (spell-scan-pending t cs)
        ∙ (sym (append_assoc (spell out) (pending t) cs)
            ∙ (ap (λ ds. ds ++ cs) (spell-scan_step s c) ∙ append_assoc (pending s) (c ∷ []) cs)))

pub spell-scan : (cs : List ℕ) → spell (scan plain cs) ≡ cs
spell-scan cs = spell-scan-pending plain cs
