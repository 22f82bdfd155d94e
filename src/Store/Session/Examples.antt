-- ===== src/Store/Session/Examples.antt =====
-- Draws from the small database.
use cairnq.Prelude.{true, false, ◌≡◌, refl, none, some, [], ◌∷◌, All, length, elem, filter, min}
use cairnq.Table.{ids}
use cairnq.Due.{before, sort_due}
use cairnq.Prelude.Sort.{insert_by, sort_by}
use cairnq.Store.Session.Twice.{draw_once}
use cairnq.Rows.{lease_expired, claim_row}
use cairnq.Scenario.{shop, shop-IsValid}
use cairnq.Db
use cairnq.Db.{claimable, select_due}
use cairnq.Store.Session.{
  ClaimEnv, draw_filter, draw_filter_general, draw, draws, has_claimable_work,
}
use cairnq.Store.Session.Claims.{IsClaimed, draw_lem, claim_in_order, probe_complete}

abbrev env : ClaimEnv
env = record { now = 60; queues = 10 ∷ []; worker = 8; lease_ms = 1000; lease_expired_error = 0 }

draw_lem_example :
    All (IsClaimed env (some (20 ∷ []))) (draw env (some (20 ∷ [])) 5 shop).0
    × (length (draw env (some (20 ∷ [])) 5 shop).0
        ≡ min 5
            (length (filter (claimable 60 (draw_filter (10 ∷ []) (some (20 ∷ [])))) shop.tasks)))
draw_lem_example = draw_lem env (some (20 ∷ [])) 5 shop shop-IsValid

claim_in_order_example :
    All
      (λ t.
        claimable 60 (λ u. true) t ≡ true
        → elem t.id (ids (select_due 60 (λ u. true) 5 shop)) ≡ false
        → All (λ c. before c t ≡ true) (select_due 60 (λ u. true) 5 shop))
      shop.tasks
claim_in_order_example = claim_in_order 60 (λ u. true) 5 shop

-- At time 1 nothing is due and no lease has run out.
abbrev early : ClaimEnv
early = record env { now = 1 }

nothing_yet : has_claimable_work early none shop ≡ false
unfolding has_claimable_work Db.claimable_probe claimable draw_filter_general lease_expired
nothing_yet = refl

probe_complete_example :
    ((Db.recover_leases 1 0 shop).1 ≡ shop) × (draw early none 3 shop ≡ ([], shop))
probe_complete_example = probe_complete early none 3 shop nothing_yet

drawn : elem 1 (ids (draw env none 1 shop).0) ≡ true
unfolding draw Db.claim claimable select_due sort_due draw_filter claim_row insert_by sort_by
drawn = refl

draw_once_example :
    elem 1
      (ids (draw env (some (20 ∷ [])) 5 (draws env ((none, 1) ∷ []) (draw env none 1 shop).1)).0)
    ≡ false
draw_once_example =
    draw_once env none (some (20 ∷ [])) 1 5 ((none, 1) ∷ []) shop shop-IsValid 1 drawn
