-- ===== src/Worker/Execution/Settlement.antt =====
-- When a call ends, every task of it that the worker still holds is settled.
use Prim.Native.String.{String}
use cairnq.Prelude.{
  ℕ, Bool, true, false, ◌≡◌, refl, ap, ◌∙◌, ◌⊎◌, Option, none, some, List, Text, Json, Value, arith,
  All, Option-cases, inl, inr, if◌then◌else◌, is_some, ◌≢◌,
}
use cairnq.Errors.{Result, ok, raise, lost_lease, serialization_error, Codec, Envelope, as_envelope}
use cairnq.Backoff.{fail_delay_ms}
use cairnq.Table.{IsDistinct}
use cairnq.Rows.{complete_row, fail_row}
use cairnq.Db
use cairnq.Db.{Db}
use cairnq.Statement.{complete, run}
use cairnq.Statement.Valid.{IsValid}
use cairnq.Store.Owned
use cairnq.Store.Owned.{stripped, dump_result}
use cairnq.Store.Owned.Ownership.{complete_outcome, fail_outcome}
use cairnq.Context.{TaskContext, mark_settled}
use cairnq.Worker.Execution.{
  failed_context, safe_fail, succeeded_context, succeed_one, finish_call, returned, ended, unwound,
  outcome_of, unserializable, timeout_envelope, CallEnd, lease_raised, timed_out, reason,
}
use cairnq.Worker.Execution.Gather.{
  completed, failed, IsHeldBy, IsSettling, task_ids, IsFinished, settle_each-IsFinished,
}

-- What `dump_json` makes of the encoder's answer.
abbrev encoded : Option Json → Result (Option Json)
encoded none = raise serialization_error
encoded (some j) = ok (some j)

encoded_result :
    (c : Codec) (v : Value) (o : Option Json) → c.encode v ≡ o → dump_result c (some v) ≡ encoded o
unfolding dump_result
encoded_result c v none e = ground arith
encoded_result c v (some j) e = ground arith

dumped_or_not :
    (c : Codec) (result : Option Value)
    → ((json : Option Json) × (dump_result c result ≡ ok json))
      ⊎ (dump_result c result ≡ raise serialization_error)
unfolding dump_result
dumped_or_not c none = inl (none, refl)
dumped_or_not c (some v) = elim (Option-cases (c.encode v)) [
  | inl e ↦ inr (encoded_result c v none e)
  | inr (j, e) ↦ inl (some j, encoded_result c v (some j) e)
]

unencoded_write :
    (c : Codec) (now : ℕ) (worker id : Text) (result : Option Value) (db : Db)
    → dump_result c result ≡ raise serialization_error
    → Owned.complete c now worker id result db ≡ (raise serialization_error, db)
unfolding Owned.complete
unencoded_write c now worker id result db e = rw (e, Owned.complete) refl

module _ (c : Codec) (rand : ℕ → ℕ) (now : ℕ)
    (plain : (e : Envelope) (r : Bool) → is_some (c.encode_envelope (stripped e r)) ≡ true) where
  safe_fail-IsSettling :
      (e : Envelope) (retryable : Bool)
      → IsSettling now (λ x db. safe_fail c rand now e retryable x db)
  unfolding safe_fail failed_context run
  safe_fail-IsSettling e retryable = record {
    lands = λ x db v h.
        let delay =
          fail_delay_ms rand x.task.attempt retryable x.retry_backoff_ms x.retry_backoff_max_ms in
        let (json, q) =
          fail_outcome c now x.worker_id x.task.id e retryable delay db h.row v h.found plain in
        (
          failed json retryable delay,
          ap (failed_context x) (
              q
              ∙ ap
                  (λ b.
                    if b
                    then (
                      ok (fail_row now json retryable delay h.row),
                      (Db.fail now x.worker_id x.task.id json retryable delay db).1,
                    )
                    else (raise (lost_lease x.task.id), db))
                  h.held),
        );
  }

  completes :
      (message : String) (result : Option Value) (json : Option Json) (x : TaskContext) (db : Db)
      → IsValid db
      → (h : IsHeldBy now db x) → dump_result c result ≡ ok json
      → succeeded_context c rand now message x
          (Owned.complete c now x.worker_id x.task.id result db)
        ≡ (none, (mark_settled x, run now (complete x.worker_id x.task.id json) db))
  unfolding succeeded_context run
  completes message result json x db v h e = ap (succeeded_context c rand now message x) (
      complete_outcome c now x.worker_id x.task.id result json db h.row v h.found e
      ∙ ap
          (λ b.
            if b
            then (
              ok (complete_row now json h.row),
              (Db.complete now x.worker_id x.task.id json db).1,
            )
            else (raise (lost_lease x.task.id), db))
          h.held)

  fails_instead :
      (message : String) (result : Option Value) (x : TaskContext) (db : Db)
      → dump_result c result ≡ raise serialization_error
      → succeeded_context c rand now message x
          (Owned.complete c now x.worker_id x.task.id result db)
        ≡ safe_fail c rand now (unserializable message) false x db
  unfolding succeeded_context
  fails_instead message result x db e =
      ap (succeeded_context c rand now message x)
        (unencoded_write c now x.worker_id x.task.id result db e)

  unsettled :
      (message : String) (result : Option Value) (x : TaskContext) (db : Db)
      → x.settled ≡ false
      → succeed_one c rand now message result x db
        ≡ succeeded_context c rand now message x
            (Owned.complete c now x.worker_id x.task.id result db)
  unfolding succeed_one
  unsettled message result x db e =
      ap
        (λ b.
          if b
          then (none, (x, db))
          else succeeded_context c rand now message x
              (Owned.complete c now x.worker_id x.task.id result db))
        e

  succeed_one-IsSettling :
      (message : String) (results : Text → Option Value)
      → IsSettling now (λ x db. succeed_one c rand now message (results x.task.id) x db)
  succeed_one-IsSettling message results = record {
    lands = λ x db v h.
        let result = results x.task.id in
        let start = unsettled message result x db h.fresh in
        elim (dumped_or_not c result) [
          | inl (json, e) ↦ (completed json, start ∙ completes message result json x db v h e)
          | inr e ↦
              let (s, q) = (safe_fail-IsSettling (unserializable message) false).lands x db v h in
              (s, start ∙ (fails_instead message result x db e ∙ q))
        ];
  }

  -- When a handler call ends, by a return or by an `Exception` other than `LostLease`, on a valid
  -- database and with distinct tasks of which the worker holds every one's live lease and none is
  -- settled: nothing is reported, every context is settled, and every task is there and in no attempt,
  -- whether its result serializes or not. A call that another `BaseException` unwinds, such as a
  -- `CancelledError`, is left out, as is an encoder that cannot encode an error's envelope.
  pub finish_call_settles :
      (message : String) (end : CallEnd) (xs : List TaskContext) (db : Db)
      → end ≢ ended lease_raised
      → end ≢ unwound
      → IsValid db
      → IsDistinct (task_ids xs)
      → All (IsHeldBy now db) xs
      → IsFinished xs db (finish_call c rand now message end xs db)
  unfolding finish_call outcome_of
  finish_call_settles message (returned results) xs db n m v d h =
      settle_each-IsFinished now
        (λ x next. succeed_one c rand now message (results x.task.id) x next)
        (succeed_one-IsSettling message results) xs db v d h
  finish_call_settles message (ended lease_raised) xs db n m v d h = absurd (n refl)
  finish_call_settles message unwound xs db n m v d h = absurd (m refl)
  finish_call_settles message (ended timed_out) xs db n m v d h =
      settle_each-IsFinished now
        (λ x next. safe_fail c rand now (timeout_envelope message) true x next)
        (safe_fail-IsSettling (timeout_envelope message) true) xs db v d h
  finish_call_settles message (ended (reason r)) xs db n m v d h =
      let o = as_envelope r true in
      settle_each-IsFinished now (λ x next. safe_fail c rand now o.0 o.1 x next)
        (safe_fail-IsSettling o.0 o.1) xs db v d h
