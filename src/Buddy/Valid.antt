-- ===== src/Buddy/Valid.antt =====
-- The invariant of a zone's free areas, and the two moves that keep it: a block is put on a free
-- list, or taken from one.
pub mod Put
pub mod Take
pub mod Split
use biscuit_os_memory.Common.{
  ℕ, zero, suc, ◌+◌, ◌*◌, ◌^◌, ◌%◌, ◌<◌, ◌≤◌, ◌≡◌, refl, sym, ◌∙◌, ap, ◌⊎◌, inl, inr, ◌≢◌, Bool,
  true, false, ◌&&◌, List, [], ◌∷◌, arith, ltb, leb, ◌==◌, ==-cases, ==_ne, ==_self, if◌then◌else◌,
  update, length, contains, erase, length-erase, contains-erase, contains-erase_ne, Bool-cases,
}
use biscuit_os_memory.Common.Bits.{pow-pos}
use biscuit_os_memory.Page.{Page, page_is_buddy, set_page_order, rmv_page_order}
use biscuit_os_memory.Buddy.{Mm, Zone, max_order, word, bad_range, put_block, take_block}
use biscuit_os_memory.Buddy.Cover.{
  hit, count_in, cover, hit_self, hit-cases, hit-le, cover-put, cover-take, hit-le-cover,
  count_in-erase, count_in-le-cover, hit-le-count_in,
}

-- The frame lies in the zone.
pub record InZone (s : Mm) (page order : ℕ) : Type 0 where
  pub lo : s.zone.zone_start_pfn ≤ page
  pub hi : page + 2 ^ order ≤ s.zone.zone_start_pfn + s.zone.spanned_pages

-- A block on a free list: marked with its order, aligned to its size, inside the zone.
pub record IsBlock (s : Mm) (page order : ℕ) : Type 0 where
  pub marked : (s.mem page).flags.has_private ≡ true
  pub recorded : (s.mem page).order ≡ order
  pub aligned : page % 2 ^ order ≡ 0
  pub inside : InZone s page order

-- A page with no users that may be on a free list.
pub record Idle (s : Mm) (page : ℕ) : Type 0 where
  pub unused : (s.mem page).count ≡ 0
  pub free : (s.mem page).flags.reserved ≡ false
  pub home : (s.mem page).flags.zone ≡ s.zone.index

pub record Valid (s : Mm) : Type 0 where
  -- `nr_free` is the length of its list.
  pub counts :
      (order : ℕ)
      → order < max_order
      → s.zone.nr_free order ≡ length (s.zone.free_list order) % word
  -- What a free list holds is a block of its order.
  pub blocks :
      (order page : ℕ)
      → order < max_order
      → contains page (s.zone.free_list order) ≡ true
      → IsBlock s page order
  -- A page that the coalescing test takes for a free block is on the list of that order.
  pub heads :
      (order page : ℕ)
      → order < max_order
      → bad_range s page ≡ false
      → page_is_buddy (s.mem page) order ≡ true
      → contains page (s.zone.free_list order) ≡ true
  -- No page is in two free blocks.
  pub once : (page : ℕ) → cover s.zone.free_list page ≤ 1
  pub idle : (page : ℕ) → 1 ≤ cover s.zone.free_list page → Idle s page

-- A block on no list, of pages that may be freed.
pub record Loose (s : Mm) (page order : ℕ) : Type 0 where
  pub aligned : page % 2 ^ order ≡ 0
  pub inside : InZone s page order
  pub uncovered : (q : ℕ) → hit page order q ≡ 1 → cover s.zone.free_list q ≡ 0
  pub idle : (q : ℕ) → hit page order q ≡ 1 → Idle s q

pub bad_range-false :
    {s : Mm} {page order : ℕ} → InZone s page order → Idle s page → bad_range s page ≡ false
unfolding bad_range
bad_range-false {s} {page} {order} i d = ground (arith, pow-pos order)
