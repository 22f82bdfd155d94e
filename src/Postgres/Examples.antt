-- ===== src/Postgres/Examples.antt =====
-- A wake channel with one listener and two queues.
use cairnq.Prelude.{if◌then◌else◌, true, false, ◌≡◌, refl, List, [], ◌∷◌}
use cairnq.Postgres.{
  Push, new_push, listening, listen_failed, on_queued, close_begin, claim_round, claim_wake, woken,
  sleeps, Action, registers, asks, subscribed, queued, lost, claims, publishes, close_begins,
  close_ends, acts,
}
use cairnq.Postgres.Wake.{IsOff, close_begin-IsOff}
use cairnq.Postgres.Lossless.{on_queued-wakes}

abbrev busy_life : List Action
busy_life =
    registers (10 ∷ 11 ∷ [])
    ∷ publishes 5 0
    ∷ subscribed 6 true listen_failed
    ∷ asks 7
    ∷ asks 1007
    ∷ subscribed 1010 true listening
    ∷ queued 10
    ∷ []

abbrev after_life : List Action
after_life =
    claims (11 ∷ []) false
    ∷ lost
    ∷ asks 2000
    ∷ close_begins
    ∷ subscribed 2001 true listening
    ∷ close_ends
    ∷ []

abbrev busy_push : Push
busy_push = record (unfold new_push in new_push false) {
  wakeable_queues = 10 ∷ 11 ∷ [];
  connecting = true;
}

acts_test : (acts busy_life (new_push false)).listener ≡ true
unfolding acts new_push
acts_test = refl

close_begin-IsOff_example : IsOff (acts after_life (close_begin busy_push))
close_begin-IsOff_example =
    close_begin-IsOff busy_push after_life (tt, (tt, (tt, (tt, (tt, (tt, tt))))))

abbrev listening_push : Push
listening_push = record {
  provided = false;
  executor = true;
  listener = true;
  connecting = false;
  unavailable = false;
  retry_at = 0;
  backoff_ms = 1000;
  generation = 0;
  pending_queues = [];
  wakeable_queues = 10 ∷ 11 ∷ [];
  queued_event = false;
  done_waiters = [];
}

abbrev quiet_life : List Action
quiet_life = claims (11 ∷ []) false ∷ asks 2000 ∷ queued 11 ∷ []

on_queued-wakes_example :
    ((claim_round (11 ∷ 10 ∷ []) false (acts quiet_life (on_queued 10 listening_push))).0 ≡ woken)
    × ((claim_wake 2001 (11 ∷ 10 ∷ []) false (acts quiet_life (on_queued 10 listening_push))).0
        ≡ (if (acts quiet_life (on_queued 10 listening_push)).listener then woken else sleeps))
on_queued-wakes_example =
    on_queued-wakes 10 listening_push quiet_life 2001 (11 ∷ 10 ∷ []) false refl
      (refl, (tt, (tt, tt))) refl

-- The listener is there still, so that the claim returns at once.
quiet_life_test : (acts quiet_life (on_queued 10 listening_push)).listener ≡ true
unfolding acts on_queued
quiet_life_test = refl
