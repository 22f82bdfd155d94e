-- ===== src/Store/Session.antt =====
-- `claim_session` and `claim` (cairnq-py/cairnq/store/base.py).
pub mod Filters
pub mod Claims
pub mod Twice
mod Examples
use cairnq.Prelude.{
  ℕ, Bool, true, false, ◌&&◌, ◌||◌, Option, none, some, List, [], ◌∷◌, Text, Json, leb, ◌==◌,
  if◌then◌else◌, elem, get_or,
}
use cairnq.Models.{Task}
use cairnq.Db
use cairnq.Db.{Db}

-- The filter of queues and names of one draw. The equality forms are those of
-- claim_one_queue_one_name.sql, claim_one_name.sql and claim_one_queue.sql, picked by whether one
-- queue is watched and one name drawn; the last is claim.sql.
unfoldable pub draw_filter : List Text → Option (List Text) → Task → Bool
draw_filter (queue ∷ []) (some (name ∷ [])) t = t.queue == queue && t.name == name
draw_filter queues (some (name ∷ [])) t = elem t.queue queues && t.name == name
draw_filter (queue ∷ []) names t =
    t.queue == queue && elim names [ none ↦ true | some ns ↦ elem t.name ns ]
draw_filter queues names t =
    elem t.queue queues && elim names [ none ↦ true | some ns ↦ elem t.name ns ]

-- The filter of claim.sql itself, which claimable_probe.sql repeats.
unfoldable pub draw_filter_general : List Text → Option (List Text) → Task → Bool
draw_filter_general queues names t =
    elem t.queue queues && elim names [ none ↦ true | some ns ↦ elem t.name ns ]

-- `draw_names == []`
abbrev pub names_nothing : Option (List Text) → Bool
names_nothing none = false
names_nothing (some []) = true
names_nothing (some (name ∷ names)) = false

-- What a session is opened with.
pub record ClaimEnv : Type 0 where
  pub now : ℕ
  pub queues : List Text
  pub worker : Text
  pub lease_ms : ℕ
  pub lease_expired_error : Json

-- `claim(draw_names, limit)` inside a session.
unfoldable pub draw : ClaimEnv → Option (List Text) → ℕ → Db → List Task × Db
draw env names limit db =
    if leb limit 0 || names_nothing names
    then ([], db)
    else Db.claim env.now env.worker env.lease_ms (draw_filter env.queues names) limit db

-- The draws of a plan, in turn.
unfoldable pub draws : ClaimEnv → List (Option (List Text) × ℕ) → Db → Db
draws env [] db = db
draws env ((names, limit) ∷ rest) db = draws env rest (draw env names limit db).1

-- The probe in front of the transaction filters by the union of names that the plan may ask for.
unfoldable pub has_claimable_work : ClaimEnv → Option (List Text) → Db → Bool
has_claimable_work env names db =
    Db.claimable_probe env.now (draw_filter_general env.queues names) db

-- Recovery and every draw of the plan share one transaction. `none` is the session that found
-- nothing claimable and opened none.
unfoldable pub claim_session {ℓ} :
    {A : Type ℓ}
    → ClaimEnv
    → Option (List Text)
    → ((Option (List Text) → ℕ → Db → List Task × Db) → Db → A × Db)
    → Db
    → Option A × Db
claim_session env names plan db =
    if has_claimable_work env names db
    then (let recovered = (Db.recover_leases env.now env.lease_expired_error db).1 in
        let planned = plan (draw env) recovered in (some planned.0, planned.1))
    else (none, db)

unfoldable pub claim : ClaimEnv → Option (List Text) → ℕ → Db → List Task × Db
claim env names limit db =
    let r = claim_session env names (λ draw_from. draw_from names limit) db in (get_or r.0 [], r.1)
