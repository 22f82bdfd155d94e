-- ===== src/Store/Owned/Ownership.antt =====
-- An owned write lands exactly when the worker holds the task's live lease.
use cairnq.Prelude.{
  ℕ, Bool, true, ◌&&◌, ◌≡◌, refl, sym, ap, ◌∙◌, Option, some, List, [], ◌∷◌, Text, Json, Value,
  arith, filter, find?, Bool-cases, Option-cases, inl, inr, ◌==◌, ==_iff, elem, if◌then◌else◌,
  is_some,
}
use cairnq.Models.{Task}
use cairnq.Errors.{ok, raise, lost_lease, Codec, Envelope}
use cairnq.Table.{ids, IsDistinct, IsOther, IsOther-of_elem, none_updated}
use cairnq.Rows.{owned, complete_row, fail_row}
use cairnq.Db
use cairnq.Db.{Db, update}
use cairnq.Statement.Valid.{IsValid}
use cairnq.Statement.Effect.{find?-id}
use cairnq.Store.Owned.{owned_write, dump_result, complete, stripped, error_text, fail}

-- A test that only the row of one id can pass.
abbrev at_id : Text → (Task → Bool) → Task → Bool
at_id id q t = t.id == id && q t

rows_of_other :
    (id : Text) (q : Task → Bool) (ts : List Task) → IsOther id ts → filter (at_id id q) ts ≡ []
rows_of_other id q [] o = refl
rows_of_other id q (t ∷ ts) o = ground (arith, rows_of_other id q ts o.1)

rows_found :
    (id : Text) (q : Task → Bool) (ts : List Task) (t : Task)
    → IsDistinct (ids ts)
    → find? (λ u. u.id == id) ts ≡ some t
    → filter (at_id id q) ts ≡ (if q t then t ∷ [] else [])
rows_found id q [] t d h = cc
rows_found id q (u ∷ us) t d h = elim (Bool-cases (u.id == id)) [
  | inl e ↦ ground (
    arith,
    rows_of_other id q us
        (IsOther-of_elem id us (sym (ap (λ i. elem i (ids us)) ((==_iff u.id id).0 e)) ∙ d.0)),
  )
  | inr e ↦ ground (arith, rows_found id q us t d.1)
]

owned_rows :
    (now : ℕ) (worker id : Text) (db : Db) (t : Task)
    → IsValid db
    → Db.get id db ≡ some t
    → filter (owned now worker id) db.tasks ≡ (if owned now worker id t then t ∷ [] else [])
unfolding owned Db.get
owned_rows now worker id db t v found =
    rows_found id _ db.tasks t v.unique found ∙ ground (arith, find?-id id db.tasks t found)

-- The outcome of an owned write by the update `f`: the updated row, or `LostLease` and a database
-- that is as it was.
pub owned-update :
    (now : ℕ) (worker id : Text) (f : Task → Task) (db : Db) (t : Task)
    → IsValid db
    → Db.get id db ≡ some t
    → owned_write id (update (owned now worker id) f db) ≡ (
        if owned now worker id t
        then (ok (f t), (update (owned now worker id) f db).1)
        else (raise (lost_lease id), db))
unfolding owned_write
owned-update now worker id f db t v found = elim (Bool-cases (owned now worker id t)) [
  | inl e ↦
      let rows : filter (owned now worker id) db.tasks ≡ t ∷ [] =
        rw e at (owned_rows now worker id db t v found) in
      rw e (rw (rows, owned_write) refl)
  | inr e ↦
      let rows : filter (owned now worker id) db.tasks ≡ [] =
        rw e at (owned_rows now worker id db t v found) in
      rw e (rw (none_updated _ f _ rows, rows, owned_write) refl)
]

error_text_total :
    (c : Codec) (e : Envelope) (retryable : Bool)
    → is_some (c.encode_envelope (stripped e retryable)) ≡ true
    → (json : Json) × (error_text c e retryable ≡ ok json)
unfolding error_text
error_text_total c e retryable h = elim (Option-cases (c.encode_envelope e)) [
  | inr (j, q) ↦ (j, rw (q, error_text) refl)
  | inl q ↦ elim (Option-cases (c.encode_envelope (stripped e retryable))) [
    | inr (j, k) ↦ (j, rw (q, error_text) (rw (k, error_text) refl))
    | inl k ↦ cc
  ]
]

encoded_write :
    (c : Codec) (now : ℕ) (worker id : Text) (result : Option Value) (json : Option Json) (db : Db)
    → dump_result c result ≡ ok json
    → complete c now worker id result db ≡ owned_write id (Db.complete now worker id json db)
unfolding complete
encoded_write c now worker id result json db e = rw (e, complete) refl

failed_write :
    (c : Codec) (now : ℕ) (worker id : Text) (error : Envelope) (retryable : Bool) (delay_ms : ℕ)
    (json : Json) (db : Db)
    → error_text c error retryable ≡ ok json
    → fail c now worker id error retryable delay_ms db
      ≡ owned_write id (Db.fail now worker id json retryable delay_ms db)
unfolding fail
failed_write c now worker id error retryable delay_ms json db e = rw (e, fail) refl

-- On a task of a valid database, a `complete` whose result serializes returns the settled row when
-- the worker holds the task's live lease; otherwise it raises `LostLease` and the whole database is
-- as it was.
pub complete_outcome :
    (c : Codec) (now : ℕ) (worker id : Text) (result : Option Value) (json : Option Json) (db : Db)
    (t : Task)
    → IsValid db
    → Db.get id db ≡ some t
    → dump_result c result ≡ ok json
    → complete c now worker id result db ≡ (
        if owned now worker id t
        then (ok (complete_row now json t), (Db.complete now worker id json db).1)
        else (raise (lost_lease id), db))
unfolding Db.complete
complete_outcome c now worker id result json db t v found e =
    encoded_write c now worker id result json db e
    ∙ owned-update now worker id (complete_row now json) db t v found

-- On a task of a valid database, `fail` never raises anything but `LostLease`, whatever envelope it
-- is given, if the encoder takes envelopes of plain fields: it records the failure when the worker
-- holds the live lease, and otherwise the whole database is as it was.
pub fail_outcome :
    (c : Codec) (now : ℕ) (worker id : Text) (error : Envelope) (retryable : Bool) (delay_ms : ℕ)
    (db : Db) (t : Task)
    → IsValid db
    → Db.get id db ≡ some t
    → ((e : Envelope) (r : Bool) → is_some (c.encode_envelope (stripped e r)) ≡ true)
    → (json : Json) × (fail c now worker id error retryable delay_ms db ≡ (
        if owned now worker id t
        then (
          ok (fail_row now json retryable delay_ms t),
          (Db.fail now worker id json retryable delay_ms db).1,
        )
        else (raise (lost_lease id), db)))
unfolding Db.fail
fail_outcome c now worker id error retryable delay_ms db t v found plain =
    let (json, e) = error_text_total c error retryable (plain error retryable) in
    (
      json,
      failed_write c now worker id error retryable delay_ms json db e
          ∙ owned-update now worker id (fail_row now json retryable delay_ms) db t v found,
    )
