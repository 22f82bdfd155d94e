-- ===== src/Store/Owned/Together.antt =====
-- `complete_in`: the caller's writes and the settlement land together or not at all.
use cairnq.Prelude.{
  ℕ, Bool, true, false, ◌≡◌, refl, Option, none, some, List, [], ◌∷◌, map, Text, Json, Value, arith,
  filter, head?, inl, inr,
}
use cairnq.Models.{Task, is_terminal}
use cairnq.Errors.{unsupported_backend, Result, ok, raise, Codec, Result-cases}
use cairnq.Rows.{owned, complete_row}
use cairnq.Db
use cairnq.Db.{Db, update}
use cairnq.Store.Owned.{dump_result, landed, settle_in, end_transaction, complete_in}

complete_row_terminal :
    (now : ℕ) (json : Option Json) (t : Task) → is_terminal (complete_row now json t) ≡ true
unfolding complete_row
complete_row_terminal now json t = ground arith

settled_terminal :
    (now : ℕ) (json : Option Json) (ts : List Task) (t : Task)
    → head? (map (complete_row now json) ts) ≡ some t
    → is_terminal t ≡ true
settled_terminal now json [] t h = cc
settled_terminal now json (u ∷ us) t h =
    let same : complete_row now json u ≡ t = cc in rw (← same) (complete_row_terminal now json u)

module _ {S : Type 0} (c : Codec) (now : ℕ) (worker id : Text) where
  -- What a run of `complete_in` from `s` and `db` may end in.
  abbrev pub Together :
      Bool
      → (S → Result (Option Value × S))
      → S
      → Db
      → Result (Task × Option Value) × (S × Db)
      → Type 0
  Together false write s db r = r ≡ (raise unsupported_backend, (s, db))
  Together true write s db (ok (t, value), (s', db')) =
      (write s ≡ ok (value, s'))
      × (is_terminal t ≡ true)
      × ((json : Option Json) × (dump_result c value ≡ ok json)
          × (db' ≡ (Db.complete now worker id json db).1))
  Together true write s db (raise e, (s', db')) = (s' ≡ s) × (db' ≡ db)

  landed-Together :
      (write : S → Result (Option Value × S)) (s s' : S) (value : Option Value) (db : Db)
      (json : Option Json) (o : Option Task)
      → write s ≡ ok (value, s')
      → dump_result c value ≡ ok json
      → head? (Db.complete now worker id json db).0 ≡ o
      → Together true write s db
          (end_transaction s db (landed id value s' o (Db.complete now worker id json db).1))
  unfolding landed end_transaction Db.complete
  landed-Together write s s' value db json none h q found = (refl, refl)
  landed-Together write s s' value db json (some t) h q found = (
    h,
    settled_terminal now json (filter (owned now worker id) db.tasks) t found,
    (json, q, refl),
  )

  settle_in-Together :
      (write : S → Result (Option Value × S)) (s s' : S) (value : Option Value) (db : Db)
      → write s ≡ ok (value, s')
      → Together true write s db (end_transaction s db (settle_in c now worker id value s' db))
  unfolding settle_in
  settle_in-Together write s s' value db h = elim (Result-cases (dump_result c value)) [
    | inr (e, q) ↦ rw (q, settle_in) (unfold end_transaction in (refl, refl))
    | inl (json, q) ↦ rw (q, settle_in) (landed-Together write s s' value db json _ h q refl)
  ]

  -- Where the backend shares its transaction, `complete_in` either commits what the caller wrote, a
  -- task that is terminal and the settlement with the value that the caller's function returned; or
  -- it raises, and both the caller's tables and the database are as they were: a lost lease takes
  -- the caller's writes back. A backend that shares none raises `UnsupportedBackend`, and changes
  -- neither.
  pub complete_in-Together :
      (shares : Bool) (write : S → Result (Option Value × S)) (s : S) (db : Db)
      → Together shares write s db (complete_in c shares now worker id write s db)
  unfolding complete_in
  complete_in-Together false write s db = refl
  complete_in-Together true write s db = elim (Result-cases (write s)) [
    | inr (e, q) ↦ rw (q, complete_in) (unfold end_transaction in (refl, refl))
    | inl ((value, s'), q) ↦ rw (q, complete_in) (settle_in-Together write s s' value db q)
  ]
