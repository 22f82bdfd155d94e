-- ===== src/Postgres/Lossless.antt =====
-- A notification for a registered queue waits for the next claim that names the queue.
use cairnq.Prelude.{
  ℕ, if◌then◌else◌, Bool, true, false, ◌||◌, not, ◌==◌, ◌≡◌, refl, sym, ap, List, [], ◌∷◌, arith,
  Text, elem, any, filter, All, if_keeps, Bool-cases, inl, inr, ==_refl, ==_iff, subst,
}
use cairnq.Postgres.{
  listener_retry_ms, Push, set_add, register_wakeable, listener_ready, Listened, cannot_listen,
  listen_unavailable, listen_failed, listening, start_listener, on_queued, on_done, release_waiters,
  on_listener_lost, woken, sleeps, claim_round, claim_wake, begin_claim, enter_done, leave_done,
  reset_listener_state, publish, close_begin, close_end, Action, registers, asks, subscribed,
  queued, done, lost, claims, enters, leaves, publishes, close_begins, close_ends, act, acts,
}
use cairnq.Postgres.Wake.{asks_keep, claims_keep, acts_keep}

elem-set_add : (q r : Text) (qs : List Text) → elem q qs ≡ true → elem q (set_add r qs) ≡ true
elem-set_add q r qs h =
    if_keeps (λ ws. elem q ws ≡ true) (elem r qs) qs (r ∷ qs) (λ e. h) (λ e. ground (arith, h))

set_add-elem : (q : Text) (qs : List Text) → elem q (set_add q qs) ≡ true
set_add-elem q qs =
    if_keeps (λ ws. elem q ws ≡ true) (elem q qs) qs (q ∷ qs) (λ e. e)
      (λ e. ground (arith, ==_refl q))

tail_elem :
    (r q : Text) (qs : List Text) → (r == q) ≡ false → elem q (r ∷ qs) ≡ true → elem q qs ≡ true
tail_elem r q qs e h = ground (arith, e, h)

or_right : (a b : Bool) → b ≡ true → (a || b) ≡ true
or_right true b h = refl
or_right false b h = h

elem-filter :
    (q : Text) (p : Text → Bool) (qs : List Text)
    → p q ≡ true
    → elem q qs ≡ true
    → elem q (filter p qs) ≡ true
elem-filter q p [] ok h = cc
elem-filter q p (r ∷ qs) ok h = elim (Bool-cases (r == q)) [
  | inl e ↦
      let same : p r ≡ true = subst (λ k. p k ≡ true) (sym ((==_iff r q).0 e)) ok in
      rw (same, e) refl
  | inr e ↦
      if_keeps (λ ws. elem q ws ≡ true) (p r) (r ∷ filter p qs) (filter p qs)
        (λ d. rw e (elem-filter q p qs ok (tail_elem r q qs e h)))
        (λ d. elem-filter q p qs ok (tail_elem r q qs e h))
]

any-elem :
    (q : Text) (p : Text → Bool) (qs : List Text) → elem q qs ≡ true → p q ≡ true → any p qs ≡ true
any-elem q p [] h ok = cc
any-elem q p (r ∷ qs) h ok = elim (Bool-cases (r == q)) [
  | inl e ↦
      let same : p r ≡ true = subst (λ k. p k ≡ true) (sym ((==_iff r q).0 e)) ok in rw same refl
  | inr e ↦ or_right (p r) (any p qs) (any-elem q p qs (tail_elem r q qs e h) ok)
]

-- The action does not claim from `q`.
abbrev pub LeavesAlone : Text → Action → Type 0
LeavesAlone q (claims queues late) = elem q queues ≡ false
LeavesAlone q a = Unit {0}

-- The queue has a notification that no claim has taken.
abbrev IsBuffered : Text → Push → Type 0
IsBuffered q p = elem q p.pending_queues ≡ true

act-IsBuffered :
    (q : Text) (a : Action) (p : Push) → LeavesAlone q a → IsBuffered q p → IsBuffered q (act a p)
unfolding act start_listener publish reset_listener_state close_begin close_end on_listener_lost
    release_waiters register_wakeable on_queued on_done enter_done leave_done
act-IsBuffered q (registers queues) p ok h = h
act-IsBuffered q (asks now) p ok h = asks_keep (IsBuffered q) now p h (λ e. h)
act-IsBuffered q (subscribed now had end) p ok h =
    if_keeps (IsBuffered q) p.connecting (start_listener now had end p) p (λ c. on had end) (λ c. h)
  where
    on : (had : Bool) (end : Listened) → IsBuffered q (start_listener now had end p)
    on false end = h
    on true cannot_listen = h
    on true listen_unavailable = h
    on true listen_failed = h
    on true listening =
        if_keeps (λ v. IsBuffered q (record v { connecting = false })) p.unavailable p
          (record p { listener = true; backoff_ms = listener_retry_ms }) (λ e. h) (λ e. h)
act-IsBuffered q (queued payload) p ok h =
    if_keeps (λ qs. elem q qs ≡ true) (elem payload p.wakeable_queues)
      (set_add payload p.pending_queues) p.pending_queues
      (λ e. elem-set_add q payload p.pending_queues h) (λ e. h)
act-IsBuffered q (done payload) p ok h = h
act-IsBuffered q lost p ok h = h
act-IsBuffered q (claims queues late) p ok h =
    claims_keep (IsBuffered q) queues late p h
      (elem-filter q (λ r. not (elem r queues)) p.pending_queues (ap (λ b. not b) ok) h) h
act-IsBuffered q (enters event task) p ok h = h
act-IsBuffered q (leaves event) p ok h = h
act-IsBuffered q (publishes now generation) p ok h =
    if_keeps (IsBuffered q) (generation == p.generation)
      (listener_ready now (reset_listener_state (record p { executor = true }))).1 p
      (λ e.
        asks_keep (IsBuffered q) now (reset_listener_state (record p { executor = true })) h
          (λ d. h))
      (λ e. h)
act-IsBuffered q close_begins p ok h = h
act-IsBuffered q close_ends p ok h = h

hit_round :
    (queues : List Text) (late : Bool) (p : Push)
    → any (λ r. elem r queues) p.pending_queues ≡ true
    → (claim_round queues late p).0 ≡ woken
unfolding claim_round
hit_round queues late p h = rw h refl

ready_listener : (now : ℕ) (p : Push) → (listener_ready now p).0 ≡ p.listener
unfolding listener_ready
ready_listener now p = ground arith

hit_begins :
    (queues : List Text) (late b : Bool) (r : Bool × Push)
    → r.0 ≡ b
    → any (λ q. elem q queues) r.1.pending_queues ≡ true
    → (begin_claim queues late r).0 ≡ (if b then woken else sleeps)
hit_begins queues late true (true, p) e h = hit_round queues late p h
hit_begins queues late true (false, p) e h = cc
hit_begins queues late false (true, p) e h = cc
hit_begins queues late false (false, p) e h = refl

-- A claim that begins over a notification for its queues.
hit_claim :
    (now : ℕ) (queues : List Text) (late : Bool) (p : Push)
    → any (λ r. elem r queues) p.pending_queues ≡ true
    → (claim_wake now queues late p).0 ≡ (if p.listener then woken else sleeps)
unfolding claim_wake register_wakeable
hit_claim now queues late p h =
    hit_begins queues late p.listener (listener_ready now (register_wakeable queues p))
      (ready_listener now (register_wakeable queues p))
      (asks_keep (λ v. any (λ r. elem r queues) v.pending_queues ≡ true) now
        (register_wakeable queues p) h (λ e. h))

-- A notification for a queue that somebody has waited on is not lost, whatever happens after it but a
-- claim from that queue. A claim that names the queue and is in its loop by then returns at its next
-- round. One that begins then returns at once where a listener is installed; where none is, it falls
-- back to sleeping.
pub on_queued-wakes :
    (q : Text) (p : Push) (actions : List Action) (now : ℕ) (queues : List Text) (late : Bool)
    → elem q p.wakeable_queues ≡ true
    → All (LeavesAlone q) actions
    → elem q queues ≡ true
    → ((claim_round queues late (acts actions (on_queued q p))).0 ≡ woken)
      × ((claim_wake now queues late (acts actions (on_queued q p))).0
          ≡ (if (acts actions (on_queued q p)).listener then woken else sleeps))
unfolding on_queued
on_queued-wakes q p actions now queues late known ok named =
    let kept : IsBuffered q (acts actions (on_queued q p)) =
      acts_keep (IsBuffered q) (LeavesAlone q) actions (on_queued q p) (act-IsBuffered q) ok
        (rw known (set_add-elem q p.pending_queues)) in
    let hit =
      any-elem q (λ r. elem r queues) (acts actions (on_queued q p)).pending_queues kept named in
    (
      hit_round queues late (acts actions (on_queued q p)) hit,
      hit_claim now queues late (acts actions (on_queued q p)) hit,
    )
