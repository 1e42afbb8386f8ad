-- ===== src/Samples.antt =====
-- A small zone for the tests: 16 pages, of which a user has the block of 8 at page 8.
use biscuit_os_memory.Common.{ℕ, ◌≡◌, refl, arith, true, false, [], ◌==◌, if◌then◌else◌}
use biscuit_os_memory.Page.{Flags, Page, page_is_buddy}
use biscuit_os_memory.Buddy.{Mm, Zone, Pcp, put_block, set_free_pages}
use biscuit_os_memory.Buddy.Valid.Put.{put_block-Valid}
use biscuit_os_memory.Buddy.Frame.{set_free_pages-Valid}
use biscuit_os_memory.Watermark.{
  zone_watermark_ok, watermark_loop, lowered_mark, signed_leb, signed_half, signed_div,
}
use biscuit_os_memory.Buddy.Cover.{cover, count_in, total, hit-cases}
use biscuit_os_memory.Buddy.Valid.{Valid, Loose}
use biscuit_os_memory.Pcp.Bulk.{Counted}
use biscuit_os_memory.Pcp.Held.{Inv, held, parked}
use biscuit_os_memory.Pcp.Grant.{Owned}

abbrev pub no_flags : Flags
no_flags = record {
  locked = false;
  error = false;
  referenced = false;
  uptodate = false;
  dirty = false;
  lru = false;
  active = false;
  slab = false;
  highmem = false;
  checked = false;
  arch_1 = false;
  reserved = false;
  has_private = false;
  writeback = false;
  swapcache = false;
  mappedtodisk = false;
  reclaim = false;
  zone = 0;
}

abbrev pub sample_page : ℕ → Page
sample_page count = record { flags = no_flags; count = count; mapcount = 0; order = 0; mapping = 0 }

abbrev pub sample_pcp : Pcp
sample_pcp = record { count = 0; low = 0; high = 6; batch = 2; list = [] }

abbrev pub sample_zone : Zone
sample_zone = record {
  free_pages = 0;
  pages_min = 1;
  pages_low = 2;
  pages_high = 3;
  lowmem_reserve = λ _. 0;
  pcp = λ _. sample_pcp;
  free_list = λ _. [];
  nr_free = λ _. 0;
  pages_scanned = 0;
  all_unreclaimable = false;
  zone_start_pfn = 0;
  spanned_pages = 16;
  present_pages = 16;
  index = 0;
  named_highmem = false;
}

-- The zone with no free page.
abbrev pub full : Mm
full = record { mem = λ p. sample_page (if p == 8 then 1 else 0); zone = sample_zone }

pub full-cover : (q : ℕ) → cover (λ _. []) q ≡ 0
unfolding cover count_in
full-cover q = refl

pub full-held : (q : ℕ) → held full q ≡ 0
unfolding cover parked count_in
full-held q = refl

pub full-Valid : Valid full
unfolding page_is_buddy
full-Valid = record {
  counts = λ order o. refl;
  blocks = λ order page o h. absurd (ground (arith, h));
  heads = λ order page o r h. absurd (ground (arith, h));
  once = λ page. omega (arith, full-cover page);
  idle = λ page h. absurd (omega (arith, full-cover page));
}

pub full-Counted : Counted full
unfolding total
full-Counted = refl

pub full-Inv : Inv full
full-Inv = record {
  valid = full-Valid;
  counted = full-Counted;
  lengths = λ k o. refl;
  placed = λ k q o h. absurd (ground (arith, h));
  once = λ q. omega (arith, full-held q);
}

pub full-Owned : Owned full 8 3
full-Owned = record {
  aligned = refl;
  inside = record { lo = omega arith; hi = omega arith };
  unheld = λ q h. full-held q;
  used = refl;
  clean = refl;
  unreserved = refl;
  home = refl;
  rest = λ q h e. record { unused = ground (arith, e); free = refl; home = refl };
}

-- The zone with one free block of 8 pages
abbrev counted : Mm
counted = set_free_pages full 8

abbrev pub stocked : Mm
stocked = put_block counted 0 3

eight-Loose : Loose counted 0 3
unfolding set_free_pages
eight-Loose = record {
  aligned = refl;
  inside = record { lo = omega arith; hi = omega arith };
  uncovered = λ q h. full-cover q;
  idle = λ q h. record { unused = ground (arith, hit-cases 0 3 q); free = refl; home = refl };
}

pub stocked-Valid : Valid stocked
stocked-Valid =
    put_block-Valid counted 0 (omega arith) (set_free_pages-Valid 8 full-Valid) eight-Loose

pub stocked-Counted : Counted stocked
unfolding put_block set_free_pages total
stocked-Counted = refl

pub stocked_above : zone_watermark_ok stocked.zone 1 2 0 false false ≡ true
unfolding zone_watermark_ok watermark_loop lowered_mark signed_leb signed_half signed_div put_block
    set_free_pages
stocked_above = refl

stocked-parked : (q : ℕ) → parked stocked.zone.pcp q ≡ 0
unfolding parked count_in put_block set_free_pages
stocked-parked q = refl

pub stocked-Inv : Inv stocked
unfolding put_block set_free_pages
stocked-Inv = record {
  valid = stocked-Valid;
  counted = stocked-Counted;
  lengths = λ k o. refl;
  placed = λ k q o h. absurd (ground (arith, h));
  once = λ q. omega (arith, stocked-Valid.once q, stocked-parked q);
}
