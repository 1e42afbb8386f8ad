-- ===== src/Watermark/Tests.antt =====
-- The theorems on the marks, applied to a zone with one free block of 8 pages.
use biscuit_os_memory.Common.{ℕ, ◌+◌, ◌^◌, ◌<◌, ◌≡◌, refl, arith, true, false, some, Returns}
use biscuit_os_memory.Buddy.{Mm, put_block, set_free_pages, rmqueue}
use biscuit_os_memory.Buddy.Alloc.{Allocated}
use biscuit_os_memory.Watermark.{
  zone_watermark_ok, watermark_loop, lowered_mark, signed_leb, signed_half, signed_div,
}
use biscuit_os_memory.Watermark.Enough.{enough, spared_mark, pages_from, zone_watermark_ok-enough}
use biscuit_os_memory.Watermark.Supply.{zone_watermark_ok-Allocated}
use biscuit_os_memory.Samples.{stocked, stocked-Valid, stocked-Counted, stocked_above}

test-below : zone_watermark_ok stocked.zone 2 5 0 false false ≡ false
unfolding zone_watermark_ok watermark_loop lowered_mark signed_leb signed_half signed_div put_block
    set_free_pages
test-below = refl

stocked_small : 4 + pages_from 2 stocked.zone.nr_free 0 < 2 ^ 31
unfolding pages_from put_block set_free_pages
stocked_small = omega arith

zone_watermark_ok-enough_example :
    zone_watermark_ok stocked.zone 2 5 0 true true
    ≡ enough 2 stocked.zone.nr_free (spared_mark 5 true true) 0 8
unfolding put_block set_free_pages
zone_watermark_ok-enough_example =
    zone_watermark_ok-enough stocked.zone 2 5 0 true true (omega arith) (omega arith) stocked_small

zone_watermark_ok-Allocated_example :
    Returns
      (λ r. (page : ℕ) × (t : Mm) × (r ≡ (some page, t)) × Allocated stocked 1 page t)
      (rmqueue stocked 1)
unfolding put_block set_free_pages
zone_watermark_ok-Allocated_example =
    zone_watermark_ok-Allocated stocked-Valid stocked-Counted (omega arith) 1 2 0 false false
      (omega arith) (omega arith) stocked_above
