-- ===== src/Postgres/Wake.antt =====
-- The wake channel keeps its bounds, loses no notification and ends with the store.
use cairnq.Prelude.{
  ℕ, ◌≤◌, Bool, true, false, ◌&&◌, not, ◌==◌, ◌≡◌, refl, List, [], ◌∷◌, arith, Text, elem, any,
  filter, All, leb, if◌then◌else◌, if_keeps,
}
use cairnq.Postgres.{
  listener_retry_ms, listener_retry_max_ms, Push, new_push, register_wakeable, listener_ready,
  Listened, cannot_listen, listen_unavailable, listen_failed, listening, start_listener, on_queued,
  on_done, release_waiters, on_listener_lost, Round, woken, timed_out, waits, claim_round,
  enter_done, leave_done, reset_listener_state, publish, close_begin, close_end, Action, registers,
  asks, subscribed, queued, done, lost, claims, enters, leaves, publishes, close_begins, close_ends,
  act, acts,
}

-- No listener, and none being connected, where there must be none; and the backoff in its bounds.
pub record IsListening (p : Push) : Type 0 where
  pub off : p.unavailable ≡ true → p.listener ≡ false
  pub one : p.connecting ≡ true → p.listener ≡ false
  pub backoff : (listener_retry_ms ≤ p.backoff_ms) × (p.backoff_ms ≤ listener_retry_max_ms)

-- What holds after an action that tests, from what holds after each of its branches.
pub asks_keep :
    (P : Push → Type 0) (now : ℕ) (p : Push)
    → P p
    → (p.listener ≡ false → P (record p { connecting = true }))
    → P (listener_ready now p).1
unfolding listener_ready
asks_keep P now p h k =
    if_keeps {A = Bool × Push} (λ o. P o.1) p.listener (true, p)
      (if not p.unavailable && (not p.connecting && leb p.retry_at now)
        then (false, record p { connecting = true })
        else (false, p))
      (λ e. h)
      (λ e.
        if_keeps {A = Bool × Push} (λ o. P o.1)
          (not p.unavailable && (not p.connecting && leb p.retry_at now))
          (false, record p { connecting = true }) (false, p) (λ d. k e) (λ d. h))

pub claims_keep :
    (P : Push → Type 0) (queues : List Text) (late : Bool) (p : Push)
    → P p
    → P (record p { pending_queues = filter (λ q. not (elem q queues)) p.pending_queues })
    → P (record p { queued_event = false })
    → P (claim_round queues late p).1
unfolding claim_round
claims_keep P queues late p h k l =
    if_keeps {A = Round × Push} (λ o. P o.1) (any (λ q. elem q queues) p.pending_queues)
      (woken, record p { pending_queues = filter (λ q. not (elem q queues)) p.pending_queues })
      (if late then (timed_out, p) else (waits, record p { queued_event = false })) (λ e. k)
      (λ e.
        if_keeps {A = Round × Push} (λ o. P o.1) late (timed_out, p)
          (waits, record p { queued_event = false }) (λ d. h) (λ d. l))

asks-IsListening : (now : ℕ) (p : Push) → IsListening p → IsListening (listener_ready now p).1
asks-IsListening now p h =
    asks_keep IsListening now p h (λ e. record { off = h.off; one = λ c. e; backoff = h.backoff })

subscribed-IsListening :
    (now : ℕ) (had : Bool) (end : Listened) (p : Push)
    → p.connecting ≡ true
    → IsListening p
    → IsListening (start_listener now had end p)
unfolding start_listener
subscribed-IsListening now false end p c h = record {
  off = h.off;
  one = λ e. cc;
  backoff = h.backoff;
}
subscribed-IsListening now true cannot_listen p c h = record {
  off = λ e. h.one c;
  one = λ e. cc;
  backoff = h.backoff;
}
subscribed-IsListening now true listen_unavailable p c h = record {
  off = λ e. h.one c;
  one = λ e. cc;
  backoff = h.backoff;
}
subscribed-IsListening now true listen_failed p c h = record {
  off = h.off;
  one = λ e. cc;
  backoff = (omega (arith, h.backoff), omega arith);
}
subscribed-IsListening now true listening p c h =
    if_keeps (λ q. IsListening (record q { connecting = false })) p.unavailable p
      (record p { listener = true; backoff_ms = listener_retry_ms })
      (λ e. record { off = h.off; one = λ d. cc; backoff = h.backoff })
      (λ e. record { off = λ d. cc; one = λ d. cc; backoff = (omega arith, omega arith) })

act-IsListening : (a : Action) (p : Push) → IsListening p → IsListening (act a p)
unfolding act publish close_begin close_end reset_listener_state on_listener_lost release_waiters
    register_wakeable on_queued on_done claim_round enter_done leave_done
act-IsListening (registers queues) p h = record { off = h.off; one = h.one; backoff = h.backoff }
act-IsListening (asks now) p h = asks-IsListening now p h
act-IsListening (subscribed now had end) p h =
    if_keeps IsListening p.connecting (start_listener now had end p) p
      (λ c. subscribed-IsListening now had end p c h) (λ c. h)
act-IsListening (queued payload) p h = record { off = h.off; one = h.one; backoff = h.backoff }
act-IsListening (done payload) p h = record { off = h.off; one = h.one; backoff = h.backoff }
act-IsListening lost p h = record { off = λ e. refl; one = λ e. refl; backoff = h.backoff }
act-IsListening (claims queues late) p h =
    claims_keep IsListening queues late p h
      (record { off = h.off; one = h.one; backoff = h.backoff })
      (record { off = h.off; one = h.one; backoff = h.backoff })
act-IsListening (enters event task) p h = record { off = h.off; one = h.one; backoff = h.backoff }
act-IsListening (leaves event) p h = record { off = h.off; one = h.one; backoff = h.backoff }
act-IsListening (publishes now generation) p h =
    if_keeps IsListening (generation == p.generation)
      (listener_ready now (reset_listener_state (record p { executor = true }))).1 p
      (λ e.
        asks-IsListening now (reset_listener_state (record p { executor = true }))
          (record { off = λ d. cc; one = h.one; backoff = (omega arith, omega arith) }))
      (λ e. h)
act-IsListening close_begins p h = record { off = λ e. refl; one = λ e. refl; backoff = h.backoff }
act-IsListening close_ends p h = record { off = h.off; one = λ e. cc; backoff = h.backoff }

-- What every allowed action keeps, every run of allowed actions keeps.
pub acts_keep :
    (P : Push → Type 0) (Allowed : Action → Type 0) (actions : List Action) (p : Push)
    → ((a : Action) (p : Push) → Allowed a → P p → P (act a p))
    → All Allowed actions
    → P p
    → P (acts actions p)
unfolding acts
acts_keep P Allowed [] p step ok h = h
acts_keep P Allowed (a ∷ rest) p step ok h =
    acts_keep P Allowed rest (act a p) step ok.1 (step a p ok.0 h)

all_allowed : (actions : List Action) → All (λ a. Unit {0}) actions
all_allowed [] = tt
all_allowed (a ∷ rest) = (tt, all_allowed rest)

and_off : (a b : Bool) → (a ≡ true → b ≡ false) → (a && b) ≡ false
and_off true b h = h refl
and_off false b h = refl

-- Whatever happens from the store's beginning: a store that is closed, or was refused LISTEN, or is
-- still connecting its listener has no listener, and the backoff of its retries is between one second
-- and thirty.
pub acts_listening :
    (provided : Bool) (actions : List Action)
    → let p = acts actions (new_push provided) in
      ((p.unavailable && p.listener) ≡ false)
      × ((p.connecting && p.listener) ≡ false)
      × (listener_retry_ms ≤ p.backoff_ms)
      × (p.backoff_ms ≤ listener_retry_max_ms)
unfolding new_push
acts_listening provided actions =
    let p = acts actions (new_push provided) in
    let h =
      acts_keep IsListening (λ a. Unit {0}) actions (new_push provided)
        (λ a p ok h. act-IsListening a p h) (all_allowed actions)
        (record { off = λ e. refl; one = λ e. refl; backoff = (omega arith, omega arith) }) in
    (
      and_off p.unavailable p.listener h.off,
      and_off p.connecting p.listener h.one,
      h.backoff.0,
      h.backoff.1,
    )

-- No connect publishes an executor.
abbrev pub IsUnpublished : Action → Type 0
IsUnpublished (publishes now generation) = ⊥
IsUnpublished a = Unit {0}

abbrev pub IsOff : Push → Type 0
IsOff p = (p.unavailable ≡ true) × (p.listener ≡ false)

act-IsOff : (a : Action) (p : Push) → IsUnpublished a → IsOff p → IsOff (act a p)
unfolding act listener_ready start_listener close_begin close_end on_listener_lost release_waiters
    register_wakeable on_queued on_done claim_round enter_done leave_done
act-IsOff (registers queues) p ok h = h
act-IsOff (asks now) p ok h = asks_keep IsOff now p h (λ e. h)
act-IsOff (subscribed now had end) p ok h =
    if_keeps IsOff p.connecting (start_listener now had end p) p (λ c. off had end) (λ c. h)
  where
    off : (had : Bool) (end : Listened) → IsOff (start_listener now had end p)
    off false end = h
    off true cannot_listen = (refl, h.1)
    off true listen_unavailable = (refl, h.1)
    off true listen_failed = h
    off true listening =
        if_keeps (λ q. IsOff (record q { connecting = false })) p.unavailable p
          (record p { listener = true; backoff_ms = listener_retry_ms }) (λ e. h) (λ e. cc)
act-IsOff (queued payload) p ok h = h
act-IsOff (done payload) p ok h = h
act-IsOff lost p ok h = (h.0, refl)
act-IsOff (claims queues late) p ok h = claims_keep IsOff queues late p h h h
act-IsOff (enters event task) p ok h = h
act-IsOff (leaves event) p ok h = h
act-IsOff (publishes now generation) p ok h = absurd ok
act-IsOff close_begins p ok h = (refl, refl)
act-IsOff close_ends p ok h = h

-- After close() has begun, and until a connect publishes an executor, no listener is installed,
-- whatever else happens: a subscription that was under way, notifications, claims and further closes.
pub close_begin-IsOff :
    (p : Push) (actions : List Action)
    → All IsUnpublished actions
    → IsOff (acts actions (close_begin p))
unfolding close_begin
close_begin-IsOff p actions ok =
    acts_keep IsOff IsUnpublished actions (close_begin p) act-IsOff ok (refl, refl)
