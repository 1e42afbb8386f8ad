-- ===== src/Buddy.antt =====
-- The buddy allocator of mm/page_alloc.c, one zone of it (include/biscuitos/mmzone.h). An array of
-- the zone is a function of its index; `free_area[o]` is `free_list o` and `nr_free o`. A list of
-- pages is a list of frame numbers, head first. Every call runs under `zone->lock`.
pub mod Account
pub mod Alloc
pub mod Cover
pub mod Frame
pub mod Free
pub mod Index
mod Tests
pub mod Valid
use biscuit_os_memory.Common.{
  ℕ, zero, suc, ◌+◌, ◌-◌, ◌*◌, ◌/◌, ◌%◌, ◌^◌, Bool, true, false, ◌&&◌, ◌||◌, not, ltb, leb, ◌==◌,
  if◌then◌else◌, nonzero, update, Run, ok, bug, bug_on, ◌>>=◌, List, [], ◌∷◌, Option, none, some,
  erase, bit_and, bit_xor,
}
use biscuit_os_memory.Page.{Page, Memory, set_page_order, rmv_page_order, page_is_buddy}

-- `MAX_ORDER_BS`: a free block is of 2 ^ 0 up to 2 ^ 10 pages.
abbrev pub max_order : ℕ
max_order = 11

-- unsigned long, on a 32-bit machine
abbrev pub word : ℕ
word = 2 ^ 32

abbrev pub add_word : ℕ → ℕ → ℕ
add_word a b = (a + b) % word

abbrev pub sub_word : ℕ → ℕ → ℕ
sub_word a b = (a + word - b) % word

-- `struct per_cpu_pages_bs`
pub record Pcp : Type 0 where
  pub count : ℕ
  pub low : ℕ
  pub high : ℕ
  pub batch : ℕ
  pub list : List ℕ

-- `struct zone_bs`, as far as the allocator uses it. `pcp (2 * cpu + cold)` is
-- `pageset[cpu].pcp[cold]`; `index` is the zone's place in `zone_table_bs`,
-- and `named_highmem` says that its `name` is "HighMem".
pub record Zone : Type 0 where
  pub free_pages : ℕ
  pub pages_min : ℕ
  pub pages_low : ℕ
  pub pages_high : ℕ
  pub lowmem_reserve : ℕ → ℕ
  pub pcp : ℕ → Pcp
  pub free_list : ℕ → List ℕ
  pub nr_free : ℕ → ℕ
  pub pages_scanned : ℕ
  pub all_unreclaimable : Bool
  pub zone_start_pfn : ℕ
  pub spanned_pages : ℕ
  pub present_pages : ℕ
  pub index : ℕ
  pub named_highmem : Bool

-- A zone and the map of all pages.
pub record Mm : Type 0 where
  pub mem : Memory
  pub zone : Zone

-- CONFIG_HOLES_IN_ZONE is off.
unfoldable pub bad_range : Mm → ℕ → Bool
bad_range s page =
    leb (s.zone.zone_start_pfn + s.zone.spanned_pages) page
    || (ltb page s.zone.zone_start_pfn || not ((s.mem page).flags.zone == s.zone.index))

-- `set_page_order_bs`, `list_add` to the free list of that order, and `nr_free++`.
unfoldable pub put_block : Mm → ℕ → ℕ → Mm
unfolding set_page_order
put_block s page order = record s {
  mem = update s.mem page (set_page_order (s.mem page) order);
  zone = record (s.zone) {
    free_list = update s.zone.free_list order (page ∷ s.zone.free_list order);
    nr_free = update s.zone.nr_free order (add_word (s.zone.nr_free order) 1);
  };
}

-- `list_del`, `nr_free--` and `rmv_page_order_bs`.
unfoldable pub take_block : Mm → ℕ → ℕ → Mm
unfolding rmv_page_order
take_block s page order = record s {
  mem = update s.mem page (rmv_page_order (s.mem page));
  zone = record (s.zone) {
    free_list = update s.zone.free_list order (erase page (s.zone.free_list order));
    nr_free = update s.zone.nr_free order (sub_word (s.zone.nr_free order) 1);
  };
}

unfoldable pub set_free_pages : Mm → ℕ → Mm
set_free_pages s n = record s { zone = record (s.zone) { free_pages = n } }

-- The twin of a block in its pair, as an index in the naturally aligned 2 ^ 11 pages.
unfoldable pub buddy_index : ℕ → ℕ → ℕ
buddy_index page_idx order = bit_xor page_idx (2 ^ order)

-- `page_idx & ~(1 << order)`
unfoldable pub combined_index : ℕ → ℕ → ℕ
combined_index page_idx order = bit_and page_idx (word - 1 - 2 ^ order)

-- `page + (buddy_idx - page_idx)`: `page_idx` is at most `page`, so the pointer is this one also
-- where the difference is below zero.
unfoldable pub page_find_buddy : ℕ → ℕ → ℕ → ℕ
unfolding buddy_index
page_find_buddy page page_idx order = page + buddy_index page_idx order - page_idx

-- The loop of `__free_pages_bulk_bs`, for at most as many rounds as there are orders left.
unfoldable pub merge_buddies : ℕ → Mm → ℕ → ℕ → ℕ → Run Mm
unfolding put_block
merge_buddies zero s page page_idx order = ok (put_block s page order)
merge_buddies (suc rounds) s page page_idx order =
    let combined_idx = combined_index page_idx order in
    let buddy = page_find_buddy page page_idx order in
    let rest =
      merge_buddies rounds (take_block s buddy order) (page + combined_idx - page_idx) combined_idx
        (order + 1) in
    if bad_range s buddy
    then ok (put_block s page order)
    else if page_is_buddy (s.mem buddy) order
    then rest
    else ok (put_block s page order)

-- `__free_pages_bulk_bs`
unfoldable pub free_pages_bulk_one : Mm → ℕ → ℕ → Run Mm
unfolding bad_range set_free_pages
free_pages_bulk_one s page order =
    let page_idx = bit_and page (2 ^ max_order - 1) in
    bug_on (nonzero (bit_and page_idx (2 ^ order - 1))) (
      bug_on (bad_range s page) (
        merge_buddies (max_order - 1 - order)
          (set_free_pages s (add_word s.zone.free_pages (2 ^ order))) page page_idx order))

-- `expand_bs`: while the block is larger than asked for, its upper half goes back. The recursion
-- is on `high`.
unfoldable pub expand : Mm → ℕ → ℕ → ℕ → ℕ → Run Mm
expand s page low zero size = ok s
expand s page low (suc high) size =
    let half = size / 2 in
    let rest = expand (put_block s (page + half) high) page low high half in
    if ltb low (suc high) then bug_on (bad_range s (page + half)) rest else ok s

-- The loop of `__rmqueue_bs` over the orders from `current_order` on.
unfoldable pub rmqueue_from : ℕ → Mm → ℕ → ℕ → Run (Option ℕ × Mm)
rmqueue_from zero s order current_order = ok (none, s)
rmqueue_from (suc rounds) s order current_order = elim (s.zone.free_list current_order) [
  | [] ↦ rmqueue_from rounds s order (current_order + 1)
  | page ∷ _ ↦
      let t = take_block s page current_order in
      expand (set_free_pages t (sub_word t.zone.free_pages (2 ^ order))) page order current_order
        (2 ^ current_order)
      >>= λ u. ok (some page, u)
]

-- `__rmqueue_bs`
unfoldable pub rmqueue : Mm → ℕ → Run (Option ℕ × Mm)
rmqueue s order = rmqueue_from (max_order - order) s order order
