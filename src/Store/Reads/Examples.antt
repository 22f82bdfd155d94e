-- ===== src/Store/Reads/Examples.antt =====
-- Runs of purge and queue_depth on the small database.
use cairnq.Prelude.{◌+◌, true, ◌≡◌, none, some, filter, length, elem, min, All}
use cairnq.Scenario.{shop, shop-IsValid}
use cairnq.Db
use cairnq.Db.{count_status}
use cairnq.Store.Reads.Purges.{over, gone, purge_lem}

purge_lem_example :
    (length (gone 90 none none (some 20) 10 shop)
      ≡ min 10 (length (filter (over 90 none none (some 20) 10 shop) shop.tasks)))
    × All
        (λ t.
          elem t.id (gone 90 none none (some 20) 10 shop) ≡ true
          → over 90 none none (some 20) 10 shop t ≡ true)
        shop.tasks
    × (length (Db.purge 90 none none (some 20) 10 shop).1.tasks
          + length (gone 90 none none (some 20) 10 shop)
        ≡ length shop.tasks)
purge_lem_example = purge_lem 90 none none (some 20) 10 shop shop-IsValid
