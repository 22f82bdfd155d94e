-- ===== src/Worker/Execution/Beat.antt =====
-- What a beat tells the contexts of a call.
use cairnq.Prelude.{
  ℕ, Bool, true, false, ◌≡◌, refl, sym, ap, ◌∙◌, subst, Option, none, some, List, [], ◌∷◌, map,
  Text, arith, All, elem, ◌==◌, ==_iff, ==_refl, Bool-cases, inl, inr, if◌then◌else◌, filter, find?,
}
use cairnq.Models.{Task, cancel_requested}
use cairnq.Table.{ids, IsDistinct}
use cairnq.Rows
use cairnq.Rows.{owned_among, heartbeat_row}
use cairnq.Db
use cairnq.Db.{Db}
use cairnq.Statement.Valid.{IsValid}
use cairnq.Statement.Effect.{find?-id}
use cairnq.Store.Owned
use cairnq.Context.{TaskContext, mark_lease_lost, observe_cancel}
use cairnq.Worker.Execution.{is_live, renewal, heard, after_beat, beat}

abbrev reply : (Task → Task) → List Task → List (Text × Bool)
reply f ts = map (λ t. (t.id, cancel_requested t)) (map f ts)

module _ (p : Task → Bool) (f : Task → Task) (keep : (t : Task) → (f t).id ≡ t.id) (id : Text) where
  no_renewal :
      (ts : List Task) → elem id (ids ts) ≡ false → renewal id (reply f (filter p ts)) ≡ none
  no_renewal [] h = refl
  no_renewal (u ∷ us) h = ground (arith, keep u, no_renewal us, ==_iff u.id id, ==_iff id u.id)

  renewal_found :
      (ts : List Task) (t : Task)
      → IsDistinct (ids ts)
      → find? (λ u. u.id == id) ts ≡ some t
      → renewal id (reply f (filter p ts)) ≡ (if p t then some (cancel_requested (f t)) else none)
  renewal_found [] t d h = cc
  renewal_found (u ∷ us) t d h = elim (Bool-cases (u.id == id)) [
    | inl e ↦ ground (
      arith,
      keep u,
      no_renewal us (subst (λ i. elem i (ids us) ≡ false) ((==_iff u.id id).0 e) d.0),
    )
    | inr e ↦ ground (arith, keep u, renewal_found us t d.1)
  ]

missing :
    (id : Text) (ts : List Task) → find? (λ u. u.id == id) ts ≡ none → elem id (ids ts) ≡ false
missing id [] h = refl
missing id (u ∷ us) h = ground (arith, missing id us, ==_iff u.id id, ==_iff id u.id)

abbrev pub unless_settled : TaskContext → TaskContext
unless_settled x = if x.settled then x else mark_lease_lost x

-- A context after a beat, by the row of its task.
abbrev pub by_row : ℕ → Text → Option Task → TaskContext → TaskContext
by_row now worker none x = unless_settled x
by_row now worker (some t) x =
    if Rows.owned now worker x.task.id t
    then observe_cancel (cancel_requested t) x
    else unless_settled x

abbrev pub verdict : ℕ → Text → Db → Bool → TaskContext → TaskContext
verdict now worker db live x = if live then by_row now worker (Db.get x.task.id db) x else x

abbrev live_ids : List TaskContext → List Text
live_ids xs = map (λ x. x.task.id) (filter is_live xs)

false_not_true : false ≡ true → ⊥
false_not_true h = cc

told :
    (b c : Bool) (t : Task) (x : TaskContext)
    → b ≡ c
    → heard (if b then some (cancel_requested t) else none) x
      ≡ (if c then observe_cancel (cancel_requested t) x else unless_settled x)
told true true t x e = refl
told true false t x e = cc
told false true t x e = cc
told false false t x e = refl

ap2 : {x y : TaskContext} {xs ys : List TaskContext} → x ≡ y → xs ≡ ys → x ∷ xs ≡ y ∷ ys
ap2 p q = cc

weaken_live :
    (i : Text) (l : List Text) (xs : List TaskContext)
    → All (λ x. is_live x ≡ true → elem x.task.id l ≡ true) xs
    → All (λ x. is_live x ≡ true → elem x.task.id (i ∷ l) ≡ true) xs
weaken_live i l [] h = tt
weaken_live i l (x ∷ xs) h = (λ e. ground (arith, h.0 e), weaken_live i l xs h.1)

-- The live contexts are among `l`.
abbrev AreAmong : List TaskContext → List Text → Type 0
AreAmong xs l = All (λ x. is_live x ≡ true → elem x.task.id l ≡ true) xs

live_first :
    (x : TaskContext) (xs : List TaskContext)
    → is_live x ≡ true
    → live_ids (x ∷ xs) ≡ x.task.id ∷ live_ids xs
live_first x xs e = rw e refl

live_later :
    (x : TaskContext) (xs : List TaskContext) → is_live x ≡ false → live_ids (x ∷ xs) ≡ live_ids xs
live_later x xs e = rw e refl

all_live : (xs : List TaskContext) → AreAmong xs (live_ids xs)
all_live [] = tt
all_live (x ∷ xs) = elim (Bool-cases (is_live x)) [
  | inl e ↦
      subst (AreAmong (x ∷ xs)) (sym (live_first x xs e)) (
        λ h. ground (arith, ==_refl x.task.id),
        weaken_live x.task.id (live_ids xs) xs (all_live xs),
      )
  | inr e ↦
      subst (AreAmong (x ∷ xs)) (sym (live_later x xs e))
        (λ h. absurd (false_not_true (sym e ∙ h)), all_live xs)
]

module _ (now : ℕ) (worker : Text) (lease_ms : ℕ) (db : Db) (v : IsValid db) where
  replied :
      (l : List Text) (id : Text)
      → elem id l ≡ true
      → (Owned.heartbeat_batch now worker l lease_ms db).0
        ≡ reply (heartbeat_row now lease_ms) (filter (owned_among now worker l) db.tasks)
  unfolding Owned.heartbeat_batch Db.heartbeat_batch
  replied [] id h = cc
  replied (i ∷ l) id h = refl

  kept_id : (t : Task) → (heartbeat_row now lease_ms t).id ≡ t.id
  unfolding heartbeat_row
  kept_id t = refl

  kept_flag : (t : Task) → cancel_requested (heartbeat_row now lease_ms t) ≡ cancel_requested t
  unfolding heartbeat_row
  kept_flag t = refl

  among :
      (l : List Text) (id : Text) (t : Task)
      → elem id l ≡ true
      → t.id ≡ id
      → owned_among now worker l t ≡ Rows.owned now worker id t
  unfolding owned_among Rows.owned
  among l id t h e = ground (arith, ==_refl t.id, subst (λ i. elem i l ≡ true) (sym e) h)

  heard_row :
      (l : List Text) (x : TaskContext) (o : Option Task)
      → elem x.task.id l ≡ true
      → find? (λ u. u.id == x.task.id) db.tasks ≡ o
      → heard (renewal x.task.id (Owned.heartbeat_batch now worker l lease_ms db).0) x
        ≡ by_row now worker o x
  unfolding heartbeat_row
  heard_row l x none h e =
      ap (λ r. heard (renewal x.task.id r) x) (replied l x.task.id h)
      ∙ ap (λ o. heard o x)
          (no_renewal (owned_among now worker l) (heartbeat_row now lease_ms) kept_id x.task.id
            db.tasks (missing x.task.id db.tasks e))
  heard_row l x (some t) h e =
      ap (λ r. heard (renewal x.task.id r) x) (replied l x.task.id h)
      ∙ (ap (λ o. heard o x)
            (renewal_found (owned_among now worker l) (heartbeat_row now lease_ms) kept_id x.task.id
              db.tasks t v.unique e)
          ∙ told (owned_among now worker l t) (Rows.owned now worker x.task.id t) t x
              (among l x.task.id t h (find?-id x.task.id db.tasks t e)))

  -- The beat's verdict on a context, `y` of them when the reply is read.
  beat_one :
      (l : List Text) (live : Bool) (y : TaskContext)
      → (live ≡ true → elem y.task.id l ≡ true)
      → after_beat (Owned.heartbeat_batch now worker l lease_ms db).0 live y
        ≡ verdict now worker db live y
  unfolding after_beat Db.get
  beat_one l false y h = refl
  beat_one l true y h = heard_row l y _ (h refl) refl

  module _ (meanwhile : TaskContext → TaskContext)
      (same : (x : TaskContext) → (meanwhile x).task.id ≡ x.task.id) where
    beat_each :
        (l : List Text) (xs : List TaskContext)
        → AreAmong xs l
        → map
            (λ x.
              after_beat
                (Owned.heartbeat_batch now worker l lease_ms db).0
                (is_live x)
                (meanwhile x))
            xs
          ≡ map (λ x. verdict now worker db (is_live x) (meanwhile x)) xs
    beat_each l [] h = refl
    beat_each l (x ∷ xs) h =
        ap2
          (beat_one l (is_live x) (meanwhile x)
            (λ e. subst (λ i. elem i l ≡ true) (sym (same x)) (h.0 e)))
          (beat_each l xs h.1)

-- A beat reads each context's standing off its own row of a valid database, whatever the handler makes
-- of the contexts while the beat is in flight, short of giving them another task. A context that was
-- live when the beat began notes the row's cancel request where the worker holds the row's live lease;
-- where it does not, or where the row is gone, it is told that its lease is lost, unless it was
-- settled in the meantime. A context that was settled or lost before is left alone, and no context is
-- judged by another's row.
pub beat_verdicts :
    (now : ℕ) (worker : Text) (lease_ms : ℕ) (meanwhile : TaskContext → TaskContext)
    (xs : List TaskContext) (db : Db)
    → ((x : TaskContext) → (meanwhile x).task.id ≡ x.task.id)
    → IsValid db
    → (beat now worker lease_ms meanwhile xs db).0
      ≡ map (λ x. verdict now worker db (is_live x) (meanwhile x)) xs
unfolding beat
beat_verdicts now worker lease_ms meanwhile xs db same v =
    beat_each now worker lease_ms db v meanwhile same (live_ids xs) xs (all_live xs)
