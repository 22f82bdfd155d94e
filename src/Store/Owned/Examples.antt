-- ===== src/Store/Owned/Examples.antt =====
-- Runs of the owned writes on the small database.
use cairnq.Prelude.{ℕ, true, ◌≡◌, refl, Option, none, some, Json, Value, if◌then◌else◌}
use cairnq.Errors.{Result, ok, raise, lost_lease, Envelope, error_envelope}
use cairnq.Rows.{owned, complete_row, fail_row}
use cairnq.Scenario.{held, shop, shop-IsValid, plain_codec}
use cairnq.Db
use cairnq.Store.Owned.{complete, fail, dump_result, complete_in}
use cairnq.Store.Owned.Ownership.{complete_outcome, fail_outcome}
use cairnq.Store.Owned.Together.{Together, complete_in-Together}

found : Db.get 2 shop ≡ some held
unfolding Db.get
found = refl

dumped : dump_result plain_codec (some 5) ≡ ok (some 5)
unfolding dump_result
dumped = refl

complete_outcome_example : complete plain_codec 60 7 2 (some 5) shop ≡ (
    if owned 60 7 2 held
    then (ok (complete_row 60 (some 5) held), (Db.complete 60 7 2 (some 5) shop).1)
    else (raise (lost_lease 2), shop))
complete_outcome_example =
    complete_outcome plain_codec 60 7 2 (some 5) (some 5) shop held shop-IsValid found dumped

abbrev broken : Envelope
broken = error_envelope "TaskError" "bad" "no luck" true none

fail_outcome_example :
    (json : Json) × (fail plain_codec 60 7 2 broken true 500 shop ≡ (
      if owned 60 7 2 held
      then (ok (fail_row 60 json true 500 held), (Db.fail 60 7 2 json true 500 shop).1)
      else (raise (lost_lease 2), shop)))
fail_outcome_example =
    fail_outcome plain_codec 60 7 2 broken true 500 shop held shop-IsValid found (λ e r. refl)

-- The caller's table is a number that its write counts up.
abbrev count_up : ℕ → Result (Option Value × ℕ)
count_up n = ok (some n, 1)

complete_in-Together_example :
    Together plain_codec 60 7 2 true count_up 0 shop
      (complete_in plain_codec true 60 7 2 count_up 0 shop)
complete_in-Together_example = complete_in-Together plain_codec 60 7 2 true count_up 0 shop
