-- ===== src/Sqlite/Loop/Known.antt =====
-- Which writes are queued or have their outcome, and that a turn loses none.
use cairnq.Prelude.{
  ℕ, suc, Bool, true, false, ◌==◌, ◌||◌, ◌≡◌, refl, sym, ◌∙◌, ap, subst, Option, none, some, List,
  [], ◌∷◌, ◌++◌, arith, length, any, Bool-cases, inl, inr, ==_iff,
}
use cairnq.Driver.{Exc, Reply, rows, raised, Driver, IsSqlite}
use cairnq.Sqlite.{
  Pending, Futures, Flusher, Arrivals, is_done, set_outcome, set_outcomes, all_raised,
}
use cairnq.Sqlite.Serial.{Serial}
use cairnq.Sqlite.Turn.{IsTurn}

module _ {Q : Type 0} where
  abbrev pub waits : ℕ → List (Pending Q) → Bool
  waits id ws = any (λ w. w.id == id) ws

  -- Whether a write with this id is among those that arrive.
  abbrev pub arrives : ℕ → List (Arrivals Q) → Bool
  arrives id [] = false
  arrives id (a ∷ schedule) = waits id (a.before ++ a.during) || arrives id schedule

  waits-append :
      (id : ℕ) (ws vs : List (Pending Q)) → waits id (ws ++ vs) ≡ (waits id ws || waits id vs)
  waits-append id [] vs = refl
  waits-append id (w ∷ ws) vs = ground (arith, waits-append id ws vs)

  pub arrives-append :
      (id : ℕ) (us vs : List (Arrivals Q))
      → arrives id (us ++ vs) ≡ (arrives id us || arrives id vs)
  arrives-append id [] vs = refl
  arrives-append id (u ∷ us) vs = ground (arith, arrives-append id us vs)

done_or : (b f : Bool) → (b ≡ true → f ≡ true) → f ≡ (b || f)
done_or true f h = h refl
done_or false f h = refl

or_returned :
    (p x q f f' arrived waiting : Bool)
    → waiting ≡ (p || x)
    → f' ≡ (waiting || f)
    → (x || q) ≡ arrived
    → (q || f') ≡ (arrived || (p || f))
or_returned p x q f f' arrived waiting h k l = ground arith

or_raised : (p q f arrived : Bool) → q ≡ (p || arrived) → (q || f) ≡ (arrived || (p || f))
or_raised p q f arrived h = ground arith

pub or_trans :
    (known0 known1 known2 u v uv : Bool)
    → known1 ≡ (u || known0)
    → known2 ≡ (v || known1)
    → uv ≡ (u || v)
    → known2 ≡ (uv || known0)
or_trans known0 known1 known2 u v uv h k l = ground arith

module _ {Q R : Type 0} where
  set_outcome-is_done :
      (id : ℕ) (w : Pending Q) (a : Reply R) (fs : Futures R)
      → is_done id (set_outcome w a fs) ≡ ((w.id == id) || is_done id fs)
  unfolding set_outcome
  set_outcome-is_done id w a fs = elim (Bool-cases (is_done w.id fs)) [
    | inr e ↦ rw e refl
    | inl e ↦ rw e (
        done_or (w.id == id) (is_done id fs)
          (λ h. subst (λ k. is_done k fs ≡ true) ((==_iff w.id id).0 h) e))
  ]

  pub set_outcomes-is_done :
      (id : ℕ) (ws : List (Pending Q)) (answers : List (Reply R)) (fs : Futures R)
      → length ws ≡ length answers
      → is_done id (set_outcomes ws answers fs) ≡ (waits id ws || is_done id fs)
  unfolding set_outcomes
  set_outcomes-is_done id [] answers fs h = refl
  set_outcomes-is_done id (w ∷ ws) [] fs h = absurd (omega arith)
  set_outcomes-is_done id (w ∷ ws) (a ∷ answers) fs h = ground (
    arith,
    set_outcomes-is_done id ws answers (set_outcome w a fs) (omega arith),
    set_outcome-is_done id w a fs,
  )

pub length-all_raised :
    {Q : Type 0}
    → (R : Type 0) (e : Exc) (ws : List (Pending Q))
    → length ws ≡ length (all_raised {Q = Q} {R = R} e ws)
length-all_raised R e [] = refl
length-all_raised R e (w ∷ ws) = ap (λ n. suc n) (length-all_raised R e ws)

pub or_false_right : (b : Bool) → b ≡ (b || false)
or_false_right true = refl
or_false_right false = refl

length-Serial :
    {Q R S : Type 0}
    → (effect : Q → S → S × R) (ws : List (Pending Q)) (answers : List (Reply R)) (s s' : S)
    → Serial effect ws answers s s'
    → length ws ≡ length answers
length-Serial effect [] [] s s' h = refl
length-Serial effect [] (a ∷ answers) s s' h = absurd h
length-Serial effect (w ∷ ws) [] s s' h = absurd h
length-Serial effect (w ∷ ws) (rows r ∷ answers) s s' h =
    ap (λ n. suc n) (length-Serial effect ws answers (effect w.query s).0 s' h.1)
length-Serial effect (w ∷ ws) (raised e ∷ answers) s s' h =
    ap (λ n. suc n) (length-Serial effect ws answers s s' h)

-- Whether a write is queued or has its outcome.
abbrev pub known : {C Q R : Type 0} → ℕ → Flusher C Q R → Bool
known id st = waits id st.pending || is_done id st.futures

module _ {C Q R S : Type 0} (d : Driver C Q R) (effect : Q → S → S × R)
    (law : IsSqlite S d effect) where
  pub turn_known :
      (id : ℕ) (st : Flusher C Q R) (a : Arrivals Q) (out : Flusher C Q R × Option Exc)
      → IsTurn d effect law st a out
      → known id out.0 ≡ (waits id (a.before ++ a.during) || known id st)
  turn_known id st a (st', none) (answers, extra, split, serial, settled, outside) =
      let here = waits-append id st.pending extra in
      let there : (waits id extra || waits id st'.pending) ≡ waits id (a.before ++ a.during) =
        sym (waits-append id extra st'.pending) ∙ ap (λ ws. waits id ws) split in
      let fs : is_done id st'.futures ≡ (waits id (st.pending ++ extra) || is_done id st.futures) =
        ap (λ fs. is_done id fs) settled
        ∙ set_outcomes-is_done id (st.pending ++ extra) answers st.futures (
            length-Serial effect (st.pending ++ extra) answers (law.durable st.conn)
              (law.durable st'.conn) serial) in
      or_returned (waits id st.pending) (waits id extra) (waits id st'.pending)
        (is_done id st.futures) (is_done id st'.futures) (waits id (a.before ++ a.during))
        (waits id (st.pending ++ extra)) here fs there
  turn_known id st a (st', some e) (busy, same, futures, queue, outside) =
      ap (λ fs. waits id st'.pending || is_done id fs) futures
      ∙ or_raised (waits id st.pending) (waits id st'.pending) (is_done id st.futures)
          (waits id (a.before ++ a.during))
          (ap (λ ws. waits id ws) queue ∙ waits-append id st.pending (a.before ++ a.during))
