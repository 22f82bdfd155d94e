-- ===== src/Postgres.antt =====
-- The wake channel of cairnq-py/cairnq/store/postgres.py: the one connection that listens, the
-- notifications that wait for a claimer, and what connect() and close() do to both. The code between
-- two of its awaits is one action, and the actions come in any order.
pub mod Wake
pub mod Lossless
mod Examples
use cairnq.Prelude.{
  ℕ, zero, suc, ◌+◌, ◌*◌, min, Bool, true, false, ◌&&◌, ◌||◌, not, ◌==◌, List, [], ◌∷◌, map, Text,
  elem, any, filter, leb, if◌then◌else◌,
}

-- `LISTENER_RETRY_MS` and `LISTENER_RETRY_MAX_MS`
abbrev pub listener_retry_ms : ℕ
listener_retry_ms = 1000

abbrev pub listener_retry_max_ms : ℕ
listener_retry_max_ms = 30000

-- An event of `_done_waiters`, known by a number, with the task that it waits for.
pub record DoneWaiter : Type 0 where
  pub event : ℕ
  pub task : Text
  pub is_set : Bool

-- `executor` and `listener` are whether those fields hold one, `connecting` whether the task of
-- `_start_listener` is under way; `provided` is whether the caller handed the executor in.
pub record Push : Type 0 where
  pub provided : Bool
  pub executor : Bool
  pub listener : Bool
  pub connecting : Bool
  pub unavailable : Bool
  pub retry_at : ℕ
  pub backoff_ms : ℕ
  pub generation : ℕ
  pub pending_queues : List Text
  pub wakeable_queues : List Text
  pub queued_event : Bool
  pub done_waiters : List DoneWaiter

-- `__init__`
unfoldable pub new_push : Bool → Push
new_push provided = record {
  provided = provided;
  executor = false;
  listener = false;
  connecting = false;
  unavailable = false;
  retry_at = 0;
  backoff_ms = listener_retry_ms;
  generation = 0;
  pending_queues = [];
  wakeable_queues = [];
  queued_event = false;
  done_waiters = [];
}

-- `set.add` and `set.update`
abbrev pub set_add : Text → List Text → List Text
set_add q qs = if elem q qs then qs else q ∷ qs

abbrev pub set_update : List Text → List Text → List Text
set_update [] qs = qs
set_update (r ∷ rs) qs = set_update rs (set_add r qs)

unfoldable pub register_wakeable : List Text → Push → Push
register_wakeable queues p = record p { wakeable_queues = set_update queues p.wakeable_queues }

-- `_listener_ready`: the answer, and the task that it starts.
unfoldable pub listener_ready : ℕ → Push → Bool × Push
listener_ready now p =
    if p.listener
    then (true, p)
    else if not p.unavailable && (not p.connecting && leb p.retry_at now)
    then (false, record p { connecting = true })
    else (false, p)

-- How `executor.listen` ends: there is none, it is refused for good, it fails, or it listens.
pub data Listened : Type 0 where
  cannot_listen : Listened
  listen_unavailable : Listened
  listen_failed : Listened
  listening : Listened

-- The rest of `_start_listener`, with an executor at hand.
abbrev pub listened : ℕ → Listened → Push → Push
listened now cannot_listen p = record p { unavailable = true }
listened now listen_unavailable p = record p { unavailable = true }
listened now listen_failed p = record p {
  retry_at = now + p.backoff_ms;
  backoff_ms = min listener_retry_max_ms (p.backoff_ms * 2);
}
listened now listening p =
    if p.unavailable then p else record p { listener = true; backoff_ms = listener_retry_ms }

-- `_start_listener`, run to its end; `had_executor` is whether it found one at its beginning.
unfoldable pub start_listener : ℕ → Bool → Listened → Push → Push
start_listener now had_executor end p =
    if had_executor
    then record (listened now end p) { connecting = false }
    else record p { connecting = false }

abbrev pub wake_waiter : Text → DoneWaiter → DoneWaiter
wake_waiter task w = record w { is_set = w.is_set || (w.task == task) }

-- `_on_notification`, for each channel, with a payload that is not empty.
unfoldable pub on_queued : Text → Push → Push
on_queued payload p = record p {
  pending_queues =
      if elem payload p.wakeable_queues then set_add payload p.pending_queues else p.pending_queues;
  queued_event = true;
}

unfoldable pub on_done : Text → Push → Push
on_done payload p = record p { done_waiters = map (wake_waiter payload) p.done_waiters }

abbrev pub set_waiter : DoneWaiter → DoneWaiter
set_waiter w = record w { is_set = true }

unfoldable pub release_waiters : Push → Push
release_waiters p = record p { queued_event = true; done_waiters = map set_waiter p.done_waiters }

unfoldable pub on_listener_lost : Push → Push
unfolding release_waiters
on_listener_lost p = release_waiters (record p { listener = false })

-- What `claim_wake` comes to: a round of its loop returns, on a notification or at its deadline, or it
-- clears the event and waits; with no listener there is no loop, and the claim sleeps its time out.
pub data Round : Type 0 where
  woken : Round
  timed_out : Round
  waits : Round
  sleeps : Round

unfoldable pub claim_round : List Text → Bool → Push → Round × Push
claim_round queues late p =
    if any (λ q. elem q queues) p.pending_queues
    then (woken, record p { pending_queues = filter (λ q. not (elem q queues)) p.pending_queues })
    else if late
    then (timed_out, p)
    else (waits, record p { queued_event = false })

-- A claim, by the answer of `_listener_ready`.
abbrev pub begin_claim : List Text → Bool → Bool × Push → Round × Push
begin_claim queues late (true, p) = claim_round queues late p
begin_claim queues late (false, p) = (sleeps, p)

-- `claim_wake`, up to its first wait; the rounds after it are `claim_round`.
unfoldable pub claim_wake : ℕ → List Text → Bool → Push → Round × Push
unfolding listener_ready register_wakeable claim_round
claim_wake now queues late p =
    begin_claim queues late (listener_ready now (register_wakeable queues p))

-- `task_done_wake`: the waiter comes and goes.
unfoldable pub enter_done : ℕ → Text → Push → Push
enter_done event task p = record p {
  done_waiters = record { event = event; task = task; is_set = false } ∷ p.done_waiters;
}

unfoldable pub leave_done : ℕ → Push → Push
leave_done event p = record p { done_waiters = filter (λ w. not (w.event == event)) p.done_waiters }

unfoldable pub reset_listener_state : Push → Push
reset_listener_state p = record p {
  unavailable = false;
  retry_at = 0;
  backoff_ms = listener_retry_ms;
}

-- The end of `connect`, with the generation that it began in.
unfoldable pub publish : ℕ → ℕ → Push → Push
unfolding reset_listener_state listener_ready
publish now generation p =
    if generation == p.generation
    then (listener_ready now (reset_listener_state (record p { executor = true }))).1
    else p

-- `close`, up to its wait for the task of `_start_listener`, and from there on.
unfoldable pub close_begin : Push → Push
close_begin p = record p { generation = suc p.generation; unavailable = true; listener = false }

unfoldable pub close_end : Push → Push
unfolding release_waiters
close_end p = release_waiters (record p { executor = false; connecting = false })

-- What may happen next.
pub data Action : Type 0 where
  registers : List Text → Action
  asks : ℕ → Action
  subscribed : ℕ → Bool → Listened → Action
  queued : Text → Action
  done : Text → Action
  lost : Action
  claims : List Text → Bool → Action
  enters : ℕ → Text → Action
  leaves : ℕ → Action
  publishes : ℕ → ℕ → Action
  close_begins : Action
  close_ends : Action

unfoldable pub act : Action → Push → Push
unfolding register_wakeable listener_ready start_listener on_queued on_done on_listener_lost
    claim_round enter_done leave_done publish close_begin close_end
act (registers queues) p = register_wakeable queues p
act (asks now) p = (listener_ready now p).1
act (subscribed now had_executor end) p =
    if p.connecting then start_listener now had_executor end p else p
act (queued payload) p = on_queued payload p
act (done payload) p = on_done payload p
act lost p = on_listener_lost p
act (claims queues late) p = (claim_round queues late p).1
act (enters event task) p = enter_done event task p
act (leaves event) p = leave_done event p
act (publishes now generation) p = publish now generation p
act close_begins p = close_begin p
act close_ends p = close_end p

unfoldable pub acts : List Action → Push → Push
unfolding act
acts [] p = p
acts (a ∷ rest) p = acts rest (act a p)
