-- ===== src/Buddy/Tests.antt =====
-- The theorems of the buddy allocator, applied to the zone of Samples.antt.
use biscuit_os_memory.Common.{refl, arith, Returns}
use biscuit_os_memory.Buddy.{Mm, free_pages_bulk_one, rmqueue, put_block}
use biscuit_os_memory.Buddy.Cover.{hit-cases}
use biscuit_os_memory.Buddy.Valid.{Valid, Loose}
use biscuit_os_memory.Buddy.Valid.Put.{put_block-Valid}
use biscuit_os_memory.Buddy.Alloc.{Rmqueue, rmqueue-Rmqueue}
use biscuit_os_memory.Buddy.Free.{Freed, free_pages_bulk_one-Freed}
use biscuit_os_memory.Samples.{full, full-Valid, full-cover}

-- The first four pages, on no list.
four-Loose : Loose full 0 2
four-Loose = record {
  aligned = refl;
  inside = record { lo = omega arith; hi = omega arith };
  uncovered = λ q h. full-cover q;
  idle = λ q h. record { unused = ground (arith, hit-cases 0 2 q); free = refl; home = refl };
}

abbrev four : Mm
four = put_block full 0 2

four-Valid : Valid four
four-Valid = put_block-Valid full 0 (omega arith) full-Valid four-Loose

free_pages_bulk_one-Freed_example : Returns (Freed full 0 2) (free_pages_bulk_one full 0 2)
free_pages_bulk_one-Freed_example =
    free_pages_bulk_one-Freed full 0 2 (omega arith) full-Valid four-Loose

rmqueue-Rmqueue_example : Returns (Rmqueue four 1 1 10) (rmqueue four 1)
rmqueue-Rmqueue_example = rmqueue-Rmqueue four 1 (omega arith) four-Valid
