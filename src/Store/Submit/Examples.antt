-- ===== src/Store/Submit/Examples.antt =====
-- Runs of submit on the small database.
use cairnq.Prelude.{◌≡◌, refl, none, some}
use cairnq.Prelude.Int.{pos}
use cairnq.Models.{queued}
use cairnq.Errors.{ok}
use cairnq.Rows.{new_row}
use cairnq.Scenario.{waiting, shop, fourth, plain_codec}
use cairnq.Db
use cairnq.Store.Submit.{
  SubmitArgs, reuse, replace, existing, keyed_submit, submit, write_task, prepare, new_task,
  resolve_conflict, insert_keyed, reusable,
}
use cairnq.Store.Submit.Keyed.{submit-get_by_key}
use cairnq.Store.Submit.Decisions.{decide, carry_out, keyed_submit-decide}

abbrev again : SubmitArgs
again = record {
  name = 20;
  payload = none;
  queue = 10;
  key = some 51;
  conflict = reuse;
  max_attempts = pos 3;
  priority = pos 0;
  metadata = none;
  parent_id = none;
  root_id = none;
  correlation_id = none;
  delay_ms = pos 0;
}

-- Key 51 points at a succeeded task, so that `reuse` inserts a new one.
submitted : (submit plain_codec (ok tt) 70 4 again shop).0 ≡ ok (new_row 70 fourth)
unfolding submit write_task prepare new_task keyed_submit existing resolve_conflict insert_keyed
    reusable Db.insert_task Db.upsert_key Db.get_key Db.get new_row
submitted = refl

submit-get_by_key_example :
    Db.get_by_key 51 (submit plain_codec (ok tt) 70 4 again shop).1 ≡ some (new_row 70 fourth)
submit-get_by_key_example =
    submit-get_by_key plain_codec (ok tt) 70 4 51 again shop (new_row 70 fourth) refl submitted

found : existing 50 shop ≡ some waiting
unfolding existing Db.get_key Db.get
found = refl

keyed_submit-decide_example :
    keyed_submit 70 50 replace fourth shop
    ≡ carry_out 70 50 fourth waiting shop (decide replace queued)
keyed_submit-decide_example = keyed_submit-decide 70 50 replace fourth waiting shop refl found
