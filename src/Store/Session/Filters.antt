-- ===== src/Store/Session/Filters.antt =====
-- The four forms of the claim statement choose the same rows.
use cairnq.Prelude.{◌≡◌, refl, Option, none, some, List, [], ◌∷◌, Text, arith}
use cairnq.Models.{Task}
use cairnq.Store.Session.{draw_filter, draw_filter_general}

-- Whichever statement a draw picks, by whether one queue is watched and one name drawn, it passes
-- exactly the rows that the list-valued filter of claim.sql passes.
pub draw_filter-general :
    (queues : List Text) (names : Option (List Text)) (t : Task)
    → draw_filter queues names t ≡ draw_filter_general queues names t
unfolding draw_filter draw_filter_general
draw_filter-general [] none t = refl
draw_filter-general [] (some []) t = refl
draw_filter-general [] (some (n ∷ [])) t = ground arith
draw_filter-general [] (some (n ∷ m ∷ ns)) t = refl
draw_filter-general (q ∷ []) none t = ground arith
draw_filter-general (q ∷ []) (some []) t = ground arith
draw_filter-general (q ∷ []) (some (n ∷ [])) t = ground arith
draw_filter-general (q ∷ []) (some (n ∷ m ∷ ns)) t = ground arith
draw_filter-general (q ∷ r ∷ qs) none t = refl
draw_filter-general (q ∷ r ∷ qs) (some []) t = refl
draw_filter-general (q ∷ r ∷ qs) (some (n ∷ [])) t = ground arith
draw_filter-general (q ∷ r ∷ qs) (some (n ∷ m ∷ ns)) t = refl
