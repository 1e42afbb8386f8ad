-- ===== src/Fallback/First.antt =====
-- A request that the first zone of `__alloc_pages_bs` in mm/page_alloc.c serves.
use biscuit_os_memory.Common.{
  ℕ, ◌<◌, ◌≡◌, refl, ◌∙◌, ap, true, false, ◌||◌, not, nonzero, bit_and, update, Option, some, List,
  ◌∷◌, ok, Returns, returns, Returns-ok,
}
use biscuit_os_memory.Buddy.{Mm, max_order}
use biscuit_os_memory.Pcp.{buffered_rmqueue}
use biscuit_os_memory.Pcp.Grant.{Granted, ZeroAllowed}
use biscuit_os_memory.Pcp.Above.{Above, buffered_rmqueue-Handed}
use biscuit_os_memory.Fallback.{
  Zones, State, zone_idx, gfp_wait, Task, Local, at, take_from, got_or_next, walk, walk_low,
  got_pg_or, classzone, from_restart, alloc_pages,
}

-- One zone with the map of all pages
abbrev pub zone_of : Zones → ℕ → Mm
zone_of w z = record { mem = w.mem; zone = w.zone z }

-- The same in a call
abbrev pub zone_at : State → ℕ → Mm
zone_at w z = record { mem = w.mem; zone = w.zone z }

-- A block from one zone, and no other zone changes
pub record GotFrom (w : State) (z order : ℕ) (r : Option Local × State) : Type 0 where
  pub page : ℕ
  pub state : Mm
  pub result : r ≡ (some (at page), record w { mem = state.mem; zone = update w.zone z state.zone })
  pub granted : Granted (zone_at w z) page order state

module _ (p : Task) (gfp_mask order z tries : ℕ) (rest : List ℕ) (w : State) (several : 0 < order)
    (o : order < max_order) (clear : ZeroAllowed gfp_mask)
    (in_set : (not (nonzero (bit_and gfp_mask gfp_wait)) || p.allowed z) ≡ true)
    (a : Above (zone_at w z) order (w.zone z).pages_low (zone_idx z) false false) where
  served :
      (page : ℕ) × (t : Mm) × (buffered_rmqueue (zone_at w z) p.cpu order gfp_mask
        ≡ ok (some page, t))
      × Granted (zone_at w z) page order t
  served =
      let h = Returns-ok (
        buffered_rmqueue-Handed (zone_at w z) p.cpu order gfp_mask _ _ false false several o clear
          a) in
      let (page, t, e, g) = h.2 in (page, t, h.1 ∙ ap ok e, g)

  -- Where the first zone of the list is well formed and has fewer than 2^30 pages, its low mark
  -- and its reserve are together below 2^31, it is above its low mark for the order, and it is
  -- allowed if the request may wait: a request for an order from 1 to 10 that does not ask for a
  -- cleared page of high memory without waiting returns a block that this zone hands out, and no
  -- other zone changes.
  pub alloc_pages-GotFrom :
      Returns (GotFrom w z order) (alloc_pages p gfp_mask order (z ∷ rest) tries w)
  unfolding alloc_pages from_restart walk_low walk take_from got_or_next got_pg_or classzone
  alloc_pages-GotFrom =
      rw (a.above, in_set, served.2)
        (returns (record { page = served.0; state = served.1; result = refl; granted = served.3 }))
