-- ===== src/Store/Reads/Depth.antt =====
-- The bounded count behind `queue_depth`.
use cairnq.Prelude.{ℕ, ◌-◌, ◌≡◌, Text, arith, length, length-take, filter, ◌==◌, ◌&&◌, min}
use cairnq.Prelude.Int.{pos}
use cairnq.Models.{queued, status_eq}
use cairnq.Errors.{ok}
use cairnq.Db
use cairnq.Db.{Db, count_status}
use cairnq.Store.Reads.{queue_depth}

bounded_count : (n k l : ℕ) → l ≡ min n k → n - l ≡ n - k
bounded_count n k l h = omega arith

-- The headroom that `queue_depth` reports, from at most `max_depth` rows, is the limit less the whole
-- number of queued tasks on the queue, and 0 from there on.
pub queue_depth_headroom :
    (queue : Text) (max_depth : ℕ) (db : Db)
    → queue_depth queue (pos max_depth) db ≡ ok (max_depth - count_status queue queued db)
unfolding queue_depth Db.queue_depth count_status
queue_depth_headroom queue max_depth db =
    let rows = filter (λ t. t.queue == queue && status_eq t.status queued) db.tasks in
    ground (arith, bounded_count max_depth (length rows) _ (length-take max_depth rows))
