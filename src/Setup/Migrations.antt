-- ===== src/Setup/Migrations.antt =====
-- Several processes that cold-start on one database apply each migration once, in order.
use cairnq.Prelude.{
  ℕ, zero, suc, ◌≤◌, ◌<◌, Bool, true, false, ◌||◌, ◌==◌, ◌≡◌, refl, sym, subst, ap, none, some,
  List, [], ◌∷◌, ◌++◌, arith, Text, elem, take, drop, All, All-mono, if◌then◌else◌, if_keeps,
  Bool-cases, inl, inr, ==_refl, ==_iff, get_or, head?, ltb, ltb→lt,
}
use cairnq.Table.{IsDistinct}
use cairnq.Setup.{Process, migrate, migrate_at, migrations}

elem_of_drop :
    (m : ℕ) (name : Text) (rest names : List Text)
    → drop m names ≡ name ∷ rest
    → elem name names ≡ true
elem_of_drop zero name rest names h = rw h (ap (λ b. b || elem name rest) (==_refl name))
elem_of_drop (suc m) name rest [] h = cc
elem_of_drop (suc m) name rest (x ∷ names) h = ground (arith, elem_of_drop m name rest names h)

drop-suc :
    (m : ℕ) (name : Text) (rest names : List Text)
    → drop m names ≡ name ∷ rest
    → drop (suc m) names ≡ rest
drop-suc zero name rest [] h = cc
drop-suc zero name rest (x ∷ names) h = ap (λ l. drop 1 l) h
drop-suc (suc m) name rest [] h = cc
drop-suc (suc m) name rest (x ∷ names) h = drop-suc m name rest names h

take-suc :
    (m : ℕ) (name : Text) (rest names : List Text)
    → drop m names ≡ name ∷ rest
    → take m names ++ name ∷ [] ≡ take (suc m) names
take-suc zero name rest [] h = cc
take-suc zero name rest (x ∷ names) h = ap (λ l. take 1 l) (sym h)
take-suc (suc m) name rest [] h = cc
take-suc (suc m) name rest (x ∷ names) h = ap (λ l. x ∷ l) (take-suc m name rest names h)

elem-take :
    (m n : ℕ) (name : Text) (rest names : List Text)
    → drop m names ≡ name ∷ rest
    → m < n
    → elem name (take n names) ≡ true
elem-take m zero name rest names h k = absurd (omega arith)
elem-take zero (suc n) name rest [] h k = cc
elem-take (suc m) (suc n) name rest [] h k = cc
elem-take zero (suc n) name rest (x ∷ names) h k =
    let same : x ≡ name = ap (λ l. get_or (head? l) name) h in
    ap (λ b. b || elem name (take n names)) (subst (λ k. (x == k) ≡ true) same (==_refl x))
elem-take (suc m) (suc n) name rest (x ∷ names) h k =
    ground (arith, elem-take m n name rest names h (omega arith))

not_yet :
    (m : ℕ) (name : Text) (rest names : List Text)
    → IsDistinct names
    → drop m names ≡ name ∷ rest
    → elem name (take m names) ≡ false
not_yet zero name rest names d h = refl
not_yet (suc m) name rest [] d h = cc
not_yet (suc m) name rest (x ∷ names) d h = elim (Bool-cases (x == name)) [
  | inl e ↦
      let there : elem name names ≡ true = elem_of_drop m name rest names h in
      let missing : elem name names ≡ false =
        subst (λ k. elem k names ≡ false) ((==_iff x name).0 e) d.0 in
      cc
  | inr e ↦ rw e (not_yet m name rest names d.1 h)
]

both : (b : Bool) → b ≡ true → b ≡ false → ⊥
both true h k = cc
both false h k = cc

take_all : (m k : ℕ) (names : List Text) → drop m names ≡ [] → m ≤ k → take k names ≡ names
take_all m zero [] h l = refl
take_all m (suc k) [] h l = refl
take_all zero k (x ∷ names) h l = cc
take_all (suc m) zero (x ∷ names) h l = absurd (omega arith)
take_all (suc m) (suc k) (x ∷ names) h l = ap (λ ns. x ∷ ns) (take_all m k names h (omega arith))

module _ (names : List Text) (distinct : IsDistinct names) where
  -- A process that has dealt with no more migrations than are applied, `n` of them.
  abbrev IsBehind : ℕ → Process → Type 0
  IsBehind n none = Unit {0}
  IsBehind n (some rest) = (m : ℕ) × (m ≤ n) × (drop m names ≡ rest)

  IsBehind-mono : (n k : ℕ) (p : Process) → n ≤ k → IsBehind n p → IsBehind k p
  IsBehind-mono n k none h b = tt
  IsBehind-mono n k (some rest) h (m, small, e) = (m, omega arith, e)

  -- After one transaction: the first `k` migrations, and this process behind them.
  abbrev IsMigrated : ℕ → Process × List Text → Type 0
  IsMigrated n (p, applied) = (k : ℕ) × (n ≤ k) × (applied ≡ take k names) × IsBehind k p

  applied_below :
      (m n : ℕ) (name : Text) (rest : List Text)
      → m ≤ n
      → drop m names ≡ name ∷ rest
      → elem name (take n names) ≡ true
      → suc m ≤ n
  applied_below m n name rest small e h = elim (Bool-cases (m == n)) [
    | inr d ↦ ground (arith, d)
    | inl d ↦
        let missing : elem name (take n names) ≡ false =
          subst (λ k. elem name (take k names) ≡ false) ((==_iff m n).0 d)
            (not_yet m name rest names distinct e) in
        absurd (both (elem name (take n names)) h missing)
  ]

  missing_last :
      (m n : ℕ) (name : Text) (rest : List Text)
      → m ≤ n
      → drop m names ≡ name ∷ rest
      → elem name (take n names) ≡ false
      → m ≡ n
  missing_last m n name rest small e h = elim (Bool-cases (ltb m n)) [
    | inr d ↦ ground (arith, d)
    | inl d ↦
        absurd (both (elem name (take n names)) (elem-take m n name rest names e (ltb→lt m n d)) h)
  ]

  migrate-IsMigrated :
      (runs : Bool) (n : ℕ) (p : Process)
      → IsBehind n p
      → IsMigrated n (migrate runs p (take n names))
  unfolding migrate
  migrate-IsMigrated runs n none b = (n, omega arith, refl, tt)
  migrate-IsMigrated runs n (some []) b = (n, omega arith, refl, b)
  migrate-IsMigrated runs n (some (name ∷ rest)) (m, small, e) =
      if_keeps (IsMigrated n) (elem name (take n names)) (some rest, take n names)
        (if runs then (some rest, take n names ++ name ∷ []) else (none, take n names))
        (λ h. (
          n,
          omega arith,
          refl,
          (suc m, applied_below m n name rest small e h, drop-suc m name rest names e),
        ))
        (λ h.
          let last : m ≡ n = missing_last m n name rest small e h in
          if_keeps (IsMigrated n) runs (some rest, take n names ++ name ∷ []) (none, take n names)
            (λ r. (
              suc n,
              omega arith,
              take-suc n name rest names (subst (λ k. drop k names ≡ name ∷ rest) last e),
              (suc m, omega (arith, last), drop-suc m name rest names e),
            ))
            (λ r. (n, omega arith, refl, tt)))

  migrate_at-keeps :
      (i : ℕ) (runs : Bool) (n : ℕ) (ps : List Process)
      → All (IsBehind n) ps
      → (k : ℕ) × (n ≤ k)
        × ((migrate_at i runs ps (take n names)).1 ≡ take k names)
        × All (IsBehind k) (migrate_at i runs ps (take n names)).0
  unfolding migrate_at
  migrate_at-keeps i runs n [] b = (n, omega arith, refl, tt)
  migrate_at-keeps zero runs n (p ∷ ps) b =
      let (k, more, same, behind) = migrate-IsMigrated runs n p b.0 in
      (k, more, same, (behind, All-mono (λ q. IsBehind-mono n k q more) ps b.1))
  migrate_at-keeps (suc i) runs n (p ∷ ps) b =
      let (k, more, same, behind) = migrate_at-keeps i runs n ps b.1 in
      (k, more, same, (IsBehind-mono n k p more b.0, behind))

  migrations-keeps :
      (steps : List (ℕ × Bool)) (n : ℕ) (ps : List Process)
      → All (IsBehind n) ps
      → (k : ℕ) × ((migrations steps ps (take n names)).1 ≡ take k names)
        × All (IsBehind k) (migrations steps ps (take n names)).0
  unfolding migrations
  migrations-keeps [] n ps b = (n, refl, b)
  migrations-keeps ((i, runs) ∷ steps) n ps b =
      let (k, more, same, behind) = migrate_at-keeps i runs n ps b in
      let ps' = (migrate_at i runs ps (take n names)).0 in
      subst
        (λ applied.
          (j : ℕ) × ((migrations steps ps' applied).1 ≡ take j names)
          × All (IsBehind j) (migrations steps ps' applied).0)
        (sym same) (migrations-keeps steps k ps' behind)

  -- What a process that has come to the end finds.
  abbrev pub Finds : List Text → Process → Type 0
  Finds applied (some []) = applied ≡ names
  Finds applied p = Unit {0}

  behind-Finds : (k : ℕ) (p : Process) → IsBehind k p → Finds (take k names) p
  behind-Finds k none b = tt
  behind-Finds k (some []) (m, small, e) = take_all m k names e small
  behind-Finds k (some (name ∷ rest)) b = tt

  -- However the transactions of several connecting processes interleave, and whichever of them fail,
  -- the migrations applied are the first ones of the list, each once and in its order, where the names
  -- are distinct; and a process that reaches the end without an error finds them all applied.
  pub migrations_once :
      (steps : List (ℕ × Bool)) (ps : List Process)
      → All (λ p. p ≡ some names) ps
      → let r = migrations steps ps [] in (k : ℕ) × (r.1 ≡ take k names) × All (Finds r.1) r.0
  migrations_once steps ps fresh =
      let (k, same, behind) =
        migrations-keeps steps 0 ps
          (All-mono (λ p e. subst (IsBehind 0) (sym e) (0, omega arith, refl)) ps fresh) in
      (
        k,
        same,
        subst (λ applied. All (Finds applied) (migrations steps ps []).0) (sym same)
            (All-mono (behind-Finds k) (migrations steps ps []).0 behind),
      )
