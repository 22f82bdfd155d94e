-- ===== src/Worker/Execution/Examples.antt =====
-- The end of a call on the small database.
use cairnq.Prelude.{false, ◌≢◌, ◌≡◌, refl, some, [], ◌∷◌, map}
use cairnq.Scenario.{held, shop, shop-IsValid, plain_codec}
use cairnq.Db
use cairnq.Rows
use cairnq.Context.{TaskContext, mark_settled}
use cairnq.Worker.Execution.{
  CallEnd, returned, ended, lease_raised, unwound, is_live, finish_call, beat,
}
use cairnq.Worker.Execution.Beat.{verdict, beat_verdicts}
use cairnq.Worker.Execution.Gather.{IsHeldBy, IsFinished}
use cairnq.Worker.Execution.Settlement.{finish_call_settles}

abbrev context : TaskContext
context = record {
  task = held;
  worker_id = 7;
  lease_ms = 1000;
  retry_backoff_ms = 1000;
  retry_backoff_max_ms = 30000;
  lease_lost = false;
  cancel_seen = false;
  settled = false;
}

abbrev done : CallEnd
done = returned (λ id. some 5)

context-IsHeldBy : IsHeldBy 60 shop context
unfolding Db.get Rows.owned
context-IsHeldBy = record { row = held; found = refl; held = refl; fresh = refl }

not_lost : done ≢ ended lease_raised
not_lost h = cc

not_unwound : done ≢ unwound
not_unwound h = cc

finish_call_settles_example :
    IsFinished
      (context ∷ [])
      shop
      (finish_call plain_codec (λ k. 0) 60 "late" done (context ∷ []) shop)
finish_call_settles_example =
    finish_call_settles plain_codec (λ k. 0) 60 (λ e r. refl) "late" done (context ∷ []) shop
      not_lost not_unwound shop-IsValid (refl, tt) (context-IsHeldBy, tt)

-- The handler settles its task while the beat is in flight.
meanwhile : TaskContext → TaskContext
unfolding mark_settled
meanwhile x = mark_settled x

meanwhile_same : (x : TaskContext) → (meanwhile x).task.id ≡ x.task.id
unfolding meanwhile mark_settled
meanwhile_same x = refl

beat_verdicts_example :
    (beat 60 7 1000 meanwhile (context ∷ []) shop).0
    ≡ map (λ x. verdict 60 7 shop (is_live x) (meanwhile x)) (context ∷ [])
beat_verdicts_example =
    beat_verdicts 60 7 1000 meanwhile (context ∷ []) shop meanwhile_same shop-IsValid
