-- ===== src/Wait/Examples.antt =====
-- A wait for a task that is running at the first two beats.
use cairnq.Prelude.{◌+◌, ◌*◌, some, ltb, if◌then◌else◌}
use cairnq.Models.{to_ref}
use cairnq.Scenario.{held, over}
use cairnq.Wait.{Beats}

abbrev beats : Beats
beats = record {
  probe = λ i. some (to_ref (if ltb i 2 then held else over));
  clock = λ i. 100 + 100 * i;
  read = λ i. some (if ltb i 2 then held else over);
}
