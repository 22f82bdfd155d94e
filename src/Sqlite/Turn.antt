-- ===== src/Sqlite/Turn.antt =====
-- One turn of the group commit is a run of its writes, one after another.
use cairnq.Prelude.{
  append-nil, append_assoc, Bool, true, false, ◌≡◌, refl, sym, ◌∙◌, ap, subst, Option, none, some,
  List, [], ◌∷◌, ◌++◌, Bool-cases, inl, inr,
}
use cairnq.Driver.{Exc, is_busy, Reply, rows, raised, Driver, IsSqlite}
use cairnq.Sqlite.{
  Pending, Flusher, Arrivals, set_outcomes, all_raised, Batch, run_batch, committed, undo,
  undo_taken, rolled_back, after_commit, after_begin, after_alone, flush_queue, flush,
}
use cairnq.Sqlite.Serial.{Serial, all_raised-Serial, IsRun, run_batch-IsRun}

pub append_empty {ℓ} : {A : Type ℓ} → (xs ys : List A) → [] ≡ xs ++ ys → (xs ≡ []) × (ys ≡ [])
append_empty [] ys h = (refl, sym h)
append_empty (x ∷ xs) ys h = cc

module _ {C Q R S : Type 0} (d : Driver C Q R) (effect : Q → S → S × R)
    (law : IsSqlite S d effect) where
  -- A turn that returns has run, in order, every write that waited when it began, and `extra` ones,
  -- and has given each its own outcome; a turn that raises was refused the write lock and has changed
  -- nothing, with every write in the queue in its order.
  abbrev pub IsTurn : Flusher C Q R → Arrivals Q → Flusher C Q R × Option Exc → Type 0
  IsTurn st a (st', none) =
      (answers : List (Reply R)) × (extra : List (Pending Q)) × (extra ++ st'.pending
        ≡ a.before ++ a.during)
      × Serial effect (st.pending ++ extra) answers (law.durable st.conn) (law.durable st'.conn)
      × (st'.futures ≡ set_outcomes (st.pending ++ extra) answers st.futures)
      × (d.in_transaction st'.conn ≡ false)
  IsTurn st a (st', some e) =
      (is_busy e ≡ true)
      × (law.durable st'.conn ≡ law.durable st.conn)
      × (st'.futures ≡ st.futures)
      × (st'.pending ≡ st.pending ++ (a.before ++ a.during))
      × (d.in_transaction st'.conn ≡ false)

  undo-IsTurn :
      (st : Flusher C Q R) (a : Arrivals Q) (extra later : List (Pending Q)) (c : C) (e : Exc)
      (b : Bool)
      → is_busy e ≡ b
      → extra ++ later ≡ a.before ++ a.during
      → law.durable c ≡ law.durable st.conn
      → d.in_transaction c ≡ false
      → IsTurn st a (undo d (st.pending ++ extra) later c st.futures e b)
  unfolding undo
  undo-IsTurn st a extra later c e true busy split same out = (
    busy,
    same,
    refl,
    append_assoc st.pending extra later ∙ ap (λ ws. st.pending ++ ws) split,
    out,
  )
  undo-IsTurn st a extra later c e false busy split same out = (
    all_raised e (st.pending ++ extra),
    extra,
    split,
    all_raised-Serial effect e (st.pending ++ extra) (law.durable st.conn) (law.durable c)
        (sym same),
    refl,
    out,
  )

  rolled_back-outside : (c : C) → d.in_transaction (rolled_back d c) ≡ false
  rolled_back-outside c = elim (Bool-cases (d.in_transaction c)) [
    | inl e ↦ rw e (law.rollback_ends c)
    | inr e ↦ rw e e
  ]

  rolled_back-durable : (c : C) → law.durable (rolled_back d c) ≡ law.durable c
  rolled_back-durable c = elim (Bool-cases (d.in_transaction c)) [
    | inl e ↦ rw e (law.rollback_durable c)
    | inr e ↦ rw e refl
  ]

  undo_as-IsTurn :
      (st : Flusher C Q R) (a : Arrivals Q) (extra later batch : List (Pending Q)) (c : C) (e : Exc)
      → batch ≡ st.pending ++ extra
      → extra ++ later ≡ a.before ++ a.during
      → law.durable c ≡ law.durable st.conn
      → d.in_transaction c ≡ false
      → IsTurn st a (undo d batch later c st.futures e (is_busy e))
  undo_as-IsTurn st a extra later batch c e taken split same out =
      subst (λ ws. IsTurn st a (undo d ws later c st.futures e (is_busy e))) (sym taken)
        (undo-IsTurn st a extra later c e (is_busy e) refl split same out)

  undo_taken-IsTurn :
      (st : Flusher C Q R) (a : Arrivals Q) (extra later : List (Pending Q)) (c : C) (e : Exc)
      → extra ++ later ≡ a.before ++ a.during
      → law.durable c ≡ law.durable st.conn
      → d.in_transaction c ≡ false
      → (batch : List (Pending Q)) → batch ≡ st.pending ++ extra
      → IsTurn st a (undo_taken d batch later c st.futures e)
  undo_taken-IsTurn st a extra later c e split same out [] taken =
      let (none_before, none_extra) = append_empty st.pending extra taken in
      undo_as-IsTurn st a later [] later c e (ap (λ ws. ws ++ later) (sym none_before))
        (append-nil later ∙ (ap (λ ws. ws ++ later) (sym none_extra) ∙ split)) same out
  undo_taken-IsTurn st a extra later c e split same out (w ∷ ws) taken =
      undo_as-IsTurn st a extra later (w ∷ ws) c e taken split same out

  -- What is left to say of the transaction at its COMMIT.
  abbrev IsCommitted : List (Pending Q) → S → Batch d → Type 0
  IsCommitted ws s (c', answers, none) =
      Serial effect ws answers s (law.durable c') × (d.in_transaction c' ≡ false)
  IsCommitted ws s (c', answers, some e) = law.durable c' ≡ s

  at_commit :
      (ws : List (Pending Q)) (s : S) (c : C) (answers : List (Reply R)) (failed : Option Exc)
      → Serial effect ws answers s (law.working c)
      → law.durable c ≡ s
      → (d.commit c).1 ≡ failed
      → IsCommitted ws s ((d.commit c).0, answers, failed)
  at_commit ws s c answers none serial same e =
      let (out, landed) = law.commit_lands c e in
      (subst (λ t. Serial effect ws answers s t) (sym landed) serial, out)
  at_commit ws s c answers (some x) serial same e = law.commit_fails c x e ∙ same

  committed-IsCommitted :
      (ws : List (Pending Q)) (s : S) (c : C) (b : Batch d)
      → law.durable c ≡ s
      → law.working c ≡ s
      → IsRun d effect law ws c b
      → IsCommitted ws s (committed d b)
  committed-IsCommitted ws s c (c', answers, none) same view (kept, inside, serial) =
      at_commit ws s c' answers (d.commit c').1
        (subst (λ t. Serial effect ws answers t (law.working c')) view serial) (kept ∙ same) refl
  committed-IsCommitted ws s c (c', answers, some e) same view kept = kept ∙ same

  after_commit-IsTurn :
      (st : Flusher C Q R) (a : Arrivals Q) (b : Batch d)
      → IsCommitted (st.pending ++ a.before) (law.durable st.conn) b
      → IsTurn st a (after_commit d (st.pending ++ a.before) a.during st.futures b)
  after_commit-IsTurn st a (c, answers, none) (serial, out) =
      (answers, a.before, refl, serial, refl, out)
  after_commit-IsTurn st a (c, answers, some e) same =
      undo_taken-IsTurn st a a.before a.during (rolled_back d c) e refl
        (rolled_back-durable c ∙ same) (rolled_back-outside c) (st.pending ++ a.before) refl

  after_begin-IsTurn :
      (st : Flusher C Q R) (a : Arrivals Q) (failed : Option Exc)
      → d.in_transaction st.conn ≡ false
      → (d.begin st.conn).1 ≡ failed
      → IsTurn st a
          (after_begin d (st.pending ++ a.before) a.during st.futures ((d.begin st.conn).0, failed))
  after_begin-IsTurn st a none h e =
      let (inside, view) = law.begin_opens st.conn e in
      let c = (d.begin st.conn).0 in
      after_commit-IsTurn st a (committed d (run_batch d (st.pending ++ a.before) c)) (
        committed-IsCommitted (st.pending ++ a.before) (law.durable st.conn) c
          (run_batch d (st.pending ++ a.before) c) (law.begin_durable st.conn) view
          (run_batch-IsRun d effect law (st.pending ++ a.before) c inside))
  after_begin-IsTurn st a (some x) h e =
      undo_as-IsTurn st a (a.before ++ a.during) [] ((st.pending ++ a.before) ++ a.during)
        (rolled_back d (d.begin st.conn).0) x (append_assoc st.pending a.before a.during)
        (append-nil (a.before ++ a.during))
        (rolled_back-durable (d.begin st.conn).0 ∙ law.begin_durable st.conn)
        (rolled_back-outside (d.begin st.conn).0)

  after_alone-IsTurn :
      (st : Flusher C Q R) (a : Arrivals Q) (only : Pending Q) (reply : Reply R)
      → st.pending ≡ only ∷ []
      → d.in_transaction st.conn ≡ false
      → (d.execute only.query st.conn).1 ≡ reply
      → IsTurn st a (
          after_alone d only
            (a.before ++ a.during)
            st.futures
            ((d.execute only.query st.conn).0, reply))
  unfolding set_outcomes
  after_alone-IsTurn st a only (rows r) one h e =
      let ran = law.alone_rows st.conn only.query r h e in
      let taken : only ∷ [] ≡ st.pending ++ [] = sym (append-nil st.pending ∙ one) in
      (
        rows r ∷ [],
        [],
        refl,
        subst
            (λ ws.
              Serial effect ws (rows r ∷ []) (law.durable st.conn)
                (law.durable (d.execute only.query st.conn).0))
            taken (ap (λ p. p.1) ran, ap (λ p. p.0) ran),
        ap (λ ws. set_outcomes ws (rows r ∷ []) st.futures) taken,
        law.alone_outside st.conn only.query h,
      )
  after_alone-IsTurn st a only (raised x) one h e =
      undo_as-IsTurn st a [] (a.before ++ a.during) (only ∷ []) (d.execute only.query st.conn).0 x
        (sym (append-nil st.pending ∙ one)) refl (law.alone_raised st.conn only.query x h e)
        (law.alone_outside st.conn only.query h)

  flush_queue-IsTurn :
      (st : Flusher C Q R) (a : Arrivals Q) (queue : List (Pending Q))
      → st.pending ≡ queue
      → d.in_transaction st.conn ≡ false
      → IsTurn st a (flush_queue d queue st a)
  flush_queue-IsTurn st a (only ∷ []) one h =
      after_alone-IsTurn st a only (d.execute only.query st.conn).1 one h refl
  flush_queue-IsTurn st a [] one h =
      subst
        (λ ws. IsTurn st a (after_begin d (ws ++ a.before) a.during st.futures (d.begin st.conn)))
        one (after_begin-IsTurn st a (d.begin st.conn).1 h refl)
  flush_queue-IsTurn st a (w ∷ v ∷ ws) one h =
      subst
        (λ ws. IsTurn st a (after_begin d (ws ++ a.before) a.during st.futures (d.begin st.conn)))
        one (after_begin-IsTurn st a (d.begin st.conn).1 h refl)

  -- A turn of the group commit that begins outside a transaction ends outside one. When it returns, it
  -- has run every write that waited at its start, and perhaps some that came after, one after another
  -- in the order of the queue: each write that was given rows took effect with those rows, each that
  -- was given an exception did not, and no other future changed. When it raises, SQLite refused the
  -- write lock, the database and the futures are as before, and every write is in the queue, in the
  -- order of its arrival.
  pub flush-IsTurn :
      (st : Flusher C Q R) (a : Arrivals Q)
      → d.in_transaction st.conn ≡ false
      → IsTurn st a (flush d st a)
  unfolding flush
  flush-IsTurn st a h = flush_queue-IsTurn st a st.pending refl h
