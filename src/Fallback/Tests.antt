-- ===== src/Fallback/Tests.antt =====
-- The theorems on the walk over the zones, applied to one zone.
use biscuit_os_memory.Common.{◌≡◌, refl, arith, true, false, some, [], ◌∷◌, ok, Returns}
use biscuit_os_memory.Buddy.{put_block, set_free_pages}
use biscuit_os_memory.Pcp.Above.{Above}
use biscuit_os_memory.Watermark.{
  zone_watermark_ok, watermark_loop, lowered_mark, signed_leb, signed_half, signed_div,
}
use biscuit_os_memory.Samples.{full, stocked, stocked-Inv, stocked_above}
use biscuit_os_memory.Fallback.{State, Task, unset, alloc_pages, do_retry, can_try_harder}
use biscuit_os_memory.Fallback.First.{GotFrom, zone_at, alloc_pages-GotFrom}
use biscuit_os_memory.Fallback.Unset.{Short, alloc_pages-unset}
use biscuit_os_memory.Fallback.Retry.{Persists, alloc_pages-Persists}

abbrev plain_task : Task
plain_task = record {
  cpu = 0;
  rt = false;
  interrupt = false;
  allowed = λ _. true;
  try_to_free = λ w. (false, w);
  out_of_memory = λ w. w;
  host_high = 0x20;
}

abbrev stocked_zones : State
stocked_zones = record {
  mem = stocked.mem;
  zone = λ _. stocked.zone;
  memalloc = false;
  memdie = false;
}

abbrev full_zones : State
full_zones = record { mem = full.mem; zone = λ _. full.zone; memalloc = false; memdie = false }

stocked-Above : Above (zone_at stocked_zones 0) 1 2 0 false false
unfolding put_block set_free_pages
stocked-Above = record {
  inv = stocked-Inv;
  small = omega arith;
  mark_small = omega arith;
  above = stocked_above;
}

alloc_pages-GotFrom_example :
    Returns (GotFrom stocked_zones 0 1) (alloc_pages plain_task 0x10 1 (0 ∷ 1 ∷ []) 5 stocked_zones)
unfolding put_block set_free_pages
alloc_pages-GotFrom_example =
    alloc_pages-GotFrom plain_task 0x10 1 0 5 (1 ∷ []) stocked_zones (omega arith) (omega arith)
      (λ _. refl) refl stocked-Above

full-Short : Short plain_task 0x20 0 (0 ∷ []) full_zones
unfolding zone_watermark_ok watermark_loop lowered_mark signed_leb signed_half signed_div
    can_try_harder
full-Short = record { low = λ z there. refl; min = λ z there. refl }

alloc_pages-unset_example :
    alloc_pages plain_task 0x20 0 (0 ∷ []) 5 full_zones ≡ ok (some unset, full_zones)
alloc_pages-unset_example =
    alloc_pages-unset plain_task 0x20 0 0 5 [] full_zones refl refl full-Short

may_retry : do_retry 0x10 0 ≡ true
unfolding do_retry
may_retry = refl

alloc_pages-Persists_example :
    Persists plain_task (alloc_pages plain_task 0x10 0 (0 ∷ []) 5 full_zones)
alloc_pages-Persists_example =
    alloc_pages-Persists plain_task 0x10 0 5 0 [] full_zones refl may_retry
