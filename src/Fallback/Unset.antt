-- ===== src/Fallback/Unset.antt =====
-- A request that no zone of `__alloc_pages_bs` in mm/page_alloc.c is asked for.
use biscuit_os_memory.Common.{
  ℕ, ◌≡◌, refl, arith, Bool, true, false, ◌&&◌, ◌||◌, not, ==_self, nonzero, bit_and, contains,
  some, List, [], ◌∷◌, ok,
}
use biscuit_os_memory.Buddy.{Zone}
use biscuit_os_memory.Watermark.{zone_watermark_ok}
use biscuit_os_memory.Fallback.{
  State, gfp_wait, gfp_high, Task, Local, unset, walk, walk_low, walk_min, got_pg_or, classzone,
  can_try_harder, from_restart, alloc_pages,
}

-- A walk in which no zone passes changes nothing.
walk-none :
    (cpu order gfp_mask : ℕ) (enough : Zone → Bool) (allowed : ℕ → Bool) (zones : List ℕ)
    (page : Local) (w : State)
    → ((z : ℕ) → contains z zones ≡ true → enough (w.zone z) ≡ false)
    → walk cpu order gfp_mask enough allowed zones page w ≡ ok (page, w)
unfolding walk
walk-none cpu order gfp_mask enough allowed [] page w h = refl
walk-none cpu order gfp_mask enough allowed (z ∷ zones) page w h =
    rw (h z (ground (arith, ==_self z))) (
      walk-none cpu order gfp_mask enough allowed zones page w
        (λ y there. h y (ground (arith, there))))

-- No zone is above the low mark, nor above the least mark as it is lowered for the request.
pub record Short (p : Task) (gfp_mask order : ℕ) (zones : List ℕ) (w : State) : Type 0 where
  pub low :
      (z : ℕ)
      → contains z zones ≡ true
      → zone_watermark_ok (w.zone z) order (w.zone z).pages_low (classzone zones) false false
        ≡ false
  pub min :
      (z : ℕ)
      → contains z zones ≡ true
      → zone_watermark_ok
          (w.zone z)
          order
          (w.zone z).pages_min
          (classzone zones)
          (can_try_harder p gfp_mask order zones)
          (nonzero (bit_and gfp_mask gfp_high))
        ≡ false

-- A request that may not wait and may not use the reserves, over a list of zones none of which is
-- above its low mark or above its lowered least mark, returns the variable page without a value,
-- and the zones and the flags of the task are as they were.
pub alloc_pages-unset :
    (p : Task) (gfp_mask order z tries : ℕ) (rest : List ℕ) (w : State)
    → nonzero (bit_and gfp_mask gfp_wait) ≡ false
    → ((w.memalloc || w.memdie) && not p.interrupt) ≡ false
    → Short p gfp_mask order (z ∷ rest) w
    → alloc_pages p gfp_mask order (z ∷ rest) tries w ≡ ok (some unset, w)
unfolding alloc_pages from_restart walk_low walk_min got_pg_or
alloc_pages-unset p gfp_mask order z tries rest w atomic no_reserves s =
    rw
      (
        walk-none p.cpu order gfp_mask _ _ (z ∷ rest) unset w s.low,
        walk-none p.cpu order gfp_mask _ _ (z ∷ rest) unset w s.min,
        no_reserves,
        atomic,
      )
      refl
