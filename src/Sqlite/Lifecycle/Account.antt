-- ===== src/Sqlite/Lifecycle/Account.antt =====
-- Every open connection is accounted for: what each action keeps.
use cairnq.Prelude.{
  ℕ, zero, suc, ◌+◌, ◌≤◌, Bool, true, false, ◌&&◌, ◌||◌, ◌==◌, ◌≡◌, refl, sym, subst, ap, ◌∙◌,
  Option, none, some, List, [], ◌∷◌, arith, length, elem, if◌then◌else◌, if_keeps, is_none, ==_refl,
}
use cairnq.Sqlite.Lifecycle.{
  Closer, no_closer, spawned, disowned, Life, connect_call, discard, open_or_refuse, with_init_lock,
  failed, publish_or_close, closer_disowns, close_conn, closer_ends,
}

abbrev pub one : {A : Type 0} → Option A → ℕ
one none = 0
one (some a) = 1

abbrev pub at_conn : Option ℕ → List ℕ → Bool
at_conn none opened = true
at_conn (some c) opened = elem c opened

abbrev pub at_opening : Option (ℕ × ℕ) → List ℕ → Bool
at_opening none opened = true
at_opening (some o) opened = elem o.0 opened

-- The connections open are the published one, the one being opened, and those whose opening failed.
pub record IsAccounted (l : Life) : Type 0 where
  pub total : length l.opened ≡ one l.conn + one l.opening + l.failures
  pub conn_open : at_conn l.conn l.opened ≡ true
  pub opening_open : at_opening l.opening l.opened ≡ true
  pub apart : (is_none l.conn || is_none l.opening) ≡ true
  pub once : l.memory ≡ true → l.published + one l.opening ≤ 1
  pub never : l.memory ≡ true → l.ever_opened ≡ false → l.published ≡ 0

pub length-discard :
    (c : ℕ) (ds : List ℕ) → elem c ds ≡ true → length ds ≡ suc (length (discard c ds))
length-discard c [] h = cc
length-discard c (d ∷ ds) h = ground (arith, h, length-discard c ds)

or_true : (b : Bool) → (b || true) ≡ true
or_true true = refl
or_true false = refl

conn_none :
    (k : Option ℕ) (o : Option (ℕ × ℕ)) (x : ℕ × ℕ)
    → (is_none k || is_none o) ≡ true
    → o ≡ some x
    → k ≡ none
conn_none none o x h e = refl
conn_none (some c) none x h e = cc
conn_none (some c) (some y) x h e = cc

none_at_conn : (k : Option ℕ) (ds : List ℕ) → is_none k ≡ true → (at_conn k ds ≡ true) × (one k ≡ 0)
none_at_conn none ds h = (refl, refl)
none_at_conn (some c) ds h = cc

ever_false : (m e : Bool) → (m && e) ≡ false → m ≡ true → e ≡ false
ever_false true e h k = h
ever_false false e h k = cc

length-close_conn :
    (k : Option ℕ) (ds : List ℕ)
    → at_conn k ds ≡ true
    → length ds ≡ one k + length (close_conn k ds)
length-close_conn none ds h = omega arith
length-close_conn (some c) ds h = omega (arith, length-discard c ds h)

still_opening :
    (k : Option ℕ) (o : Option (ℕ × ℕ)) (ds : List ℕ)
    → (is_none k || is_none o) ≡ true
    → at_opening o ds ≡ true
    → at_opening o (close_conn k ds) ≡ true
still_opening none o ds h e = e
still_opening (some c) none ds h e = refl
still_opening (some c) (some o) ds h e = cc

pub connect_call-IsAccounted : (l : Life) → IsAccounted l → IsAccounted (connect_call l)
unfolding connect_call
connect_call-IsAccounted l w =
    if_keeps IsAccounted l.closing l
      (if is_none l.conn then record l { waiting = suc l.waiting } else l) (λ e. w)
      (λ e.
        if_keeps IsAccounted (is_none l.conn) (record l { waiting = suc l.waiting }) l
          (λ d. record {
            total = w.total;
            conn_open = w.conn_open;
            opening_open = w.opening_open;
            apart = w.apart;
            once = w.once;
            never = w.never;
          })
          (λ d. w))

opens-IsAccounted : (l : Life) → l.opening ≡ none → IsAccounted l → IsAccounted (open_or_refuse l)
opens-IsAccounted l h w =
    let idle : one l.opening ≡ 0 = ap one h in
    if_keeps IsAccounted (is_none l.conn)
      (if l.memory && l.ever_opened then l else record l {
        opened = l.next ∷ l.opened;
        opening = some (l.next, l.generation);
        next = suc l.next;
      })
      l
      (λ e.
        if_keeps IsAccounted (l.memory && l.ever_opened) l
          (record l {
            opened = l.next ∷ l.opened;
            opening = some (l.next, l.generation);
            next = suc l.next;
          })
          (λ d. w)
          (λ d. record {
            total = omega (arith, w.total, idle);
            conn_open = (none_at_conn l.conn (l.next ∷ l.opened) e).0;
            opening_open = ap (λ b. b || elem l.next l.opened) (==_refl l.next);
            apart = ap (λ b. b || false) e;
            once = λ m. omega (arith, w.never m (ever_false l.memory l.ever_opened d m));
            never = w.never;
          }))
      (λ e. w)

pub lock-IsAccounted :
    (n : ℕ) (o : Option (ℕ × ℕ)) (l : Life)
    → l.opening ≡ o
    → IsAccounted l
    → IsAccounted (with_init_lock n o l)
lock-IsAccounted zero o l h w = w
lock-IsAccounted (suc n) (some o) l h w = w
lock-IsAccounted (suc n) none l h w =
    opens-IsAccounted (record l { waiting = n }) h
      (record {
        total = w.total;
        conn_open = w.conn_open;
        opening_open = w.opening_open;
        apart = w.apart;
        once = w.once;
        never = w.never;
      })

pub failed-IsAccounted :
    (o : Option (ℕ × ℕ)) (l : Life) → l.opening ≡ o → IsAccounted l → IsAccounted (failed o l)
failed-IsAccounted none l h w = w
failed-IsAccounted (some o) l h w =
    let held : one l.opening ≡ 1 = ap one h in
    record {
      total = omega (arith, w.total, held);
      conn_open = w.conn_open;
      opening_open = refl;
      apart = or_true (is_none l.conn);
      once = λ m. omega (arith, w.once m, held);
      never = w.never;
    }

pub ends-IsAccounted :
    (o : Option (ℕ × ℕ)) (l : Life)
    → l.opening ≡ o
    → IsAccounted l
    → IsAccounted (publish_or_close o l)
ends-IsAccounted none l h w = w
ends-IsAccounted (some (c, g)) l h w =
    let held : one l.opening ≡ 1 = ap one h in
    let here : elem c l.opened ≡ true = ap (λ o. at_opening o l.opened) (sym h) ∙ w.opening_open in
    let free : l.conn ≡ none = conn_none l.conn l.opening (c, g) w.apart h in
    let unheld : one l.conn ≡ 0 = ap one free in
    if_keeps IsAccounted (g == l.generation)
      (record l { conn = some c; ever_opened = true; opening = none; published = suc l.published })
      (record l { opened = discard c l.opened; opening = none })
      (λ e. record {
        total = omega (arith, w.total, held, unheld);
        conn_open = here;
        opening_open = refl;
        apart = refl;
        once = λ m. omega (arith, w.once m, held);
        never = λ m e. cc;
      })
      (λ e. record {
        total = omega (arith, w.total, held, length-discard c l.opened here);
        conn_open = subst (λ k. at_conn k (discard c l.opened) ≡ true) (sym free) refl;
        opening_open = refl;
        apart = or_true (is_none l.conn);
        once = λ m. omega (arith, w.once m, held);
        never = w.never;
      })

pub closer_disowns-IsAccounted :
    (k : Closer) (l : Life) → IsAccounted l → IsAccounted (closer_disowns k l)
closer_disowns-IsAccounted no_closer l w = w
closer_disowns-IsAccounted spawned l w = record {
  total = w.total;
  conn_open = w.conn_open;
  opening_open = w.opening_open;
  apart = w.apart;
  once = w.once;
  never = w.never;
}
closer_disowns-IsAccounted disowned l w = w

pub closer_ends-IsAccounted :
    (k : Closer) (l : Life) → IsAccounted l → IsAccounted (closer_ends k l)
closer_ends-IsAccounted no_closer l w = w
closer_ends-IsAccounted spawned l w = w
closer_ends-IsAccounted disowned l w = record {
  total = omega (arith, w.total, length-close_conn l.conn l.opened w.conn_open);
  conn_open = refl;
  opening_open = still_opening l.conn l.opening l.opened w.apart w.opening_open;
  apart = refl;
  once = w.once;
  never = w.never;
}
