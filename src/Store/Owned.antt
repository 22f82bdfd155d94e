-- ===== src/Store/Owned.antt =====
-- The worker's writes in cairnq-py/cairnq/store/base.py: `_owned_write` and what goes through it,
-- `heartbeat_batch` and `complete_in`.
pub mod Ownership
pub mod Together
mod Examples
use cairnq.Prelude.{
  ℕ, Bool, true, Option, none, some, List, [], ◌∷◌, map, Text, Json, Value, get_or, head?, is_some,
  if◌then◌else◌,
}
use Prim.Native.String.{String}
use cairnq.Models.{Progress, Task, cancel_requested}
use cairnq.Errors.{
  Result, ok, raise, ◌>>=◌, lost_lease, serialization_error, unsupported_backend, Envelope,
  error_envelope, Codec,
}
use cairnq.Db
use cairnq.Db.{Db}
use cairnq.Store.Submit.{dump_json}

-- `_owned_write`: no row back means that the lease was lost.
unfoldable pub owned_write : Text → List Task × Db → Result Task × Db
owned_write task_id written =
    (elim (head? written.0) [ none ↦ raise (lost_lease task_id) | some t ↦ ok t ], written.1)

unfoldable pub heartbeat : ℕ → Text → Text → ℕ → Db → Result Task × Db
heartbeat now worker id lease_ms db = owned_write id (Db.heartbeat now worker id lease_ms db)

-- The ids still held, each with whether a cancel was requested.
unfoldable pub heartbeat_batch : ℕ → Text → List Text → ℕ → Db → List (Text × Bool) × Db
heartbeat_batch now worker task_ids lease_ms db = elim task_ids [
  | [] ↦ ([], db)
  | id ∷ more ↦
      let written = Db.heartbeat_batch now worker (id ∷ more) lease_ms db in
      (map (λ t. (t.id, cancel_requested t)) written.0, written.1)
]

unfoldable pub progress : ℕ → Text → Text → Option Progress → Option Text → Db → Result Task × Db
progress now worker id value message db =
    owned_write id (Db.progress now worker id value message db)

-- `None if result is None else dump_json(result)`
unfoldable pub dump_result : Codec → Option Value → Result (Option Json)
dump_result c none = ok none
dump_result c (some v) = dump_json c v >>= λ j. ok (some j)

unfoldable pub succeed : Codec → ℕ → Text → Text → Option Value → Db → Result Task × Db
succeed c now worker id result db = elim (dump_result c result) [
  | raise e ↦ (raise e, db)
  | ok json ↦ owned_write id (Db.succeed now worker id json none db)
]

unfoldable pub complete : Codec → ℕ → Text → Text → Option Value → Db → Result Task × Db
complete c now worker id result db = elim (dump_result c result) [
  | raise e ↦ (raise e, db)
  | ok json ↦ owned_write id (Db.complete now worker id json db)
]

-- The envelope that `fail` records where the given one does not serialize: its string fields, with
-- the defaults of `error.get`.
unfoldable pub stripped : Envelope → Bool → Envelope
stripped e retryable =
    error_envelope (get_or e.type "TaskError") (get_or e.code "task_error") (get_or e.message "")
      retryable none

unfoldable pub error_text : Codec → Envelope → Bool → Result Json
error_text c e retryable = elim (c.encode_envelope e) [
  | some j ↦ ok j
  | none ↦ elim (c.encode_envelope (stripped e retryable)) [
    | some j ↦ ok j
    | none ↦ raise serialization_error
  ]
]

unfoldable pub fail : Codec → ℕ → Text → Text → Envelope → Bool → ℕ → Db → Result Task × Db
fail c now worker id error retryable delay_ms db = elim (error_text c error retryable) [
  | raise e ↦ (raise e, db)
  | ok json ↦ owned_write id (Db.fail now worker id json retryable delay_ms db)
]

-- `complete_in` over a backend whose transactions span the caller's own tables, of type `S`: the
-- caller's writes and the settlement, in one transaction. `shares` is whether the backend has a
-- session to hand out.
module _ {S : Type 0} where
  -- No settled row means a lost lease, which rolls the transaction back.
  unfoldable pub landed :
      Text → Option Value → S → Option Task → Db → Result ((Task × Option Value) × (S × Db))
  landed id value s none db = raise (lost_lease id)
  landed id value s (some t) db = ok ((t, value), (s, db))

  -- The end of the transaction: the settlement of what `write` returned.
  unfoldable pub settle_in :
      Codec → ℕ → Text → Text → Option Value → S → Db → Result ((Task × Option Value) × (S × Db))
  settle_in c now worker id value s db = dump_result c value >>= λ json.
      landed id value s (head? (Db.complete now worker id json db).0)
        (Db.complete now worker id json db).1

  -- Commit on success, roll back on a raise.
  unfoldable pub end_transaction :
      S → Db → Result ((Task × Option Value) × (S × Db)) → Result (Task × Option Value) × (S × Db)
  end_transaction s db (ok r) = (ok r.0, r.1)
  end_transaction s db (raise e) = (raise e, (s, db))

  unfoldable pub complete_in :
      Codec
      → Bool
      → ℕ
      → Text
      → Text
      → (S → Result (Option Value × S))
      → S
      → Db
      → Result (Task × Option Value) × (S × Db)
  complete_in c shares now worker id write s db =
      if shares
      then end_transaction s db
          (write s >>= λ written. settle_in c now worker id written.0 written.1 db)
      else (raise unsupported_backend, (s, db))
