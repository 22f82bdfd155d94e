-- ===== src/Context/Examples.antt =====
-- A handler's calls on the small database.
use cairnq.Prelude.{
  Value, Option, ℕ, ◌+◌, ◌≤◌, true, false, ◌||◌, ◌≡◌, refl, none, some, List, [], ◌∷◌,
  if◌then◌else◌,
}
use cairnq.Models.{cancel_requested}
use cairnq.Errors.{Result, ok, raise, lost_lease, bare}
use cairnq.Rows
use cairnq.Rows.{complete_row}
use cairnq.Scenario.{held, shop, shop-IsValid, plain_codec}
use cairnq.Db
use cairnq.Store.Owned.{dump_result}
use cairnq.Context
use cairnq.Context.{TaskContext}
use cairnq.Context.Gate.{
  HandlerCall, heartbeat, succeed, succeed_in, fail, perform_all, perform_all-lost,
}
use cairnq.Context.Settled.{settles_once}
use cairnq.Context.Outcome.{succeed_outcome}

abbrev context : TaskContext
context = record {
  task = held;
  worker_id = 7;
  lease_ms = 1000;
  retry_backoff_ms = 1000;
  retry_backoff_max_ms = 30000;
  lease_lost = false;
  cancel_seen = false;
  settled = false;
}

-- The caller's own table is a counter.
abbrev count_up : ℕ → Result (Option Value × ℕ)
count_up n = ok (some n, n + 1)

abbrev calls : List (HandlerCall ℕ)
calls =
    heartbeat 60 ∷ succeed_in true 61 count_up ∷ succeed 61 none ∷ fail 62 (bare "late") true ∷ []

-- The context once its lease is lost.
abbrev abandoned : TaskContext
abandoned = record context { lease_lost = true }

perform_all-lost_example :
    ((perform_all plain_codec (λ k. 0) calls abandoned (0, shop)).0 ≡ 0)
    × ((perform_all plain_codec (λ k. 0) calls abandoned (0, shop)).1.1 ≡ (0, shop))
perform_all-lost_example = perform_all-lost plain_codec (λ k. 0) calls abandoned (0, shop) refl

settles_once_example : (perform_all plain_codec (λ k. 0) calls context (0, shop)).0 ≤ 1
settles_once_example = settles_once plain_codec (λ k. 0) calls context (0, shop)

found : Db.get 2 shop ≡ some held
unfolding Db.get
found = refl

dumped : dump_result plain_codec (some 5) ≡ ok (some 5)
unfolding dump_result
dumped = refl

succeed_outcome_example : Context.succeed plain_codec 60 (some 5) context shop ≡ (
    if Rows.owned 60 7 2 held
    then (
      ok (some (complete_row 60 (some 5) held)),
      (
        record context { settled = true; cancel_seen = cancel_requested held || false },
        (Db.complete 60 7 2 (some 5) shop).1,
      ),
    )
    else (raise (lost_lease 2), (abandoned, shop)))
succeed_outcome_example =
    succeed_outcome plain_codec 60 (some 5) (some 5) context shop held shop-IsValid found dumped
      refl refl
