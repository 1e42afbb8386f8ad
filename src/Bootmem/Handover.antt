-- ===== src/Bootmem/Handover.antt =====
-- The end of the boot memory allocator of mm/bootmem.c: the pages that are free go to the page allocator,
-- and so do those of the map. `ffs` of the host kernel is a parameter. Pages are frame numbers.
use biscuit_os_memory.Common.{
  ℕ, zero, suc, ◌+◌, ◌-◌, ◌/◌, Bool, true, false, ltb, ◌==◌, not, if◌then◌else◌, ◌&&◌, ◌||◌, Run,
  ok, ◌>>=◌,
}
use biscuit_os_memory.Page.{Page, set_page_count, set_page_refs}
use biscuit_os_memory.Buddy.{Mm, sub_word}
use biscuit_os_memory.Pcp.{set_page, free_pages}
use biscuit_os_memory.Vmalloc.{page_size}
use biscuit_os_memory.Bootmem.{Bootmem}

abbrev pub bits_per_long : ℕ
bits_per_long = 32

-- `__ClearPageReserved_bs`
unfoldable pub clear_page_reserved : Page → Page
clear_page_reserved page = record page { flags = record (page.flags) { reserved = false } }

-- A free page, by itself
unfoldable pub free_one : Mm → ℕ → ℕ → Run Mm
unfolding set_page clear_page_reserved set_page_refs set_page_count
free_one s cpu page =
    free_pages (set_page s page (set_page_refs (clear_page_reserved (s.mem page)))) cpu page 0

-- `__ClearPageReserved_bs(page + j)`, for as many pages
unfoldable pub clear_rest : ℕ → Mm → ℕ → Mm
unfolding set_page clear_page_reserved
clear_rest zero s page = s
clear_rest (suc rounds) s page =
    clear_rest rounds (set_page s page (clear_page_reserved (s.mem page))) (page + 1)

-- The pages of a word of the map, as one block
unfoldable pub free_word : Mm → ℕ → ℕ → ℕ → Run Mm
unfolding set_page clear_page_reserved set_page_refs set_page_count
free_word s cpu page order =
    let first = set_page s page (set_page_refs (clear_page_reserved (s.mem page))) in
    free_pages (clear_rest (bits_per_long - 1) first (page + 1)) cpu page order

-- `v == ~0UL` and `v` for the word `v = ~map[i / BITS_PER_LONG_BS]`
unfoldable pub all_free : ℕ → (ℕ → Bool) → ℕ → Bool
all_free zero map i = true
all_free (suc rounds) map i = not (map i) && all_free rounds map (i + 1)

unfoldable pub any_free : ℕ → (ℕ → Bool) → ℕ → Bool
any_free zero map i = false
any_free (suc rounds) map i = not (map i) || any_free rounds map (i + 1)

module _ (map : ℕ → Bool) (idx base cpu : ℕ) where
  -- `for (m = 1; m && i < idx; m <<= 1, page++, i++)`, with the count
  unfoldable pub free_bits : ℕ → Mm → ℕ → ℕ → Run (ℕ × Mm)
  free_bits zero s i count = ok (count, s)
  free_bits (suc rounds) s i count =
      let freed : Run (ℕ × Mm) =
        if map i then ok (count, s) else (free_one s cpu (base + i) >>= λ t. ok (count + 1, t)) in
      if ltb i idx then (freed >>= λ r. free_bits rounds (r.1) (i + 1) (r.0)) else ok (count, s)

  -- A word of the map
  unfoldable pub free_bits_of_word : Bool → ℕ → Mm → ℕ → ℕ → Run (ℕ × Mm)
  free_bits_of_word gofast order s i count =
      if gofast && all_free bits_per_long map i
      then (free_word s cpu (base + i) order >>= λ t. ok (count + bits_per_long, t))
      else if any_free bits_per_long map i
      then free_bits bits_per_long s i count
      else ok (count, s)

  -- `for (i = 0; i < idx; )`. A word that the node's end cuts is the last one.
  unfoldable pub free_words : ℕ → Bool → ℕ → Mm → ℕ → ℕ → Run (ℕ × Mm)
  free_words zero gofast order s i count = ok (count, s)
  free_words (suc rounds) gofast order s i count =
      if ltb i idx
      then (free_bits_of_word gofast order s i count >>= λ r.
          free_words rounds gofast order (r.1) (i + bits_per_long) (r.0))
      else ok (count, s)

-- The pages of the map
unfoldable pub free_map : ℕ → Mm → ℕ → ℕ → ℕ → Run (ℕ × Mm)
unfolding set_page clear_page_reserved set_page_count
free_map zero s cpu page count = ok (count, s)
free_map (suc rounds) s cpu page count =
    free_pages (set_page s page (set_page_count (clear_page_reserved (s.mem page)) 1)) cpu page 0
    >>= λ t. free_map rounds t cpu (page + 1) (count + 1)

-- How many pages the map has
unfoldable pub map_pages : ℕ → ℕ
map_pages idx = (idx / 8 + page_size - 1) / page_size

-- `free_all_bootmem_core_bs`, on processor `cpu`: how many pages it has freed. The map is at page
-- `map_page`; that the node has no map afterwards is left out.
unfoldable pub free_all_bootmem_core : (ℕ → ℕ) → Bootmem → ℕ → ℕ → Mm → Run (ℕ × Mm)
free_all_bootmem_core ffs b map_page cpu s =
    let base = b.node_boot_start / page_size in
    let idx = sub_word b.node_low_pfn base in
    let gofast = b.node_boot_start == 0 || ltb (ffs bits_per_long) (ffs b.node_boot_start - 12) in
    free_words b.node_bootmem_map idx base cpu (idx / bits_per_long + 1) gofast
      (ffs bits_per_long - 1) s 0 0
    >>= λ r. free_map (map_pages idx) (r.1) cpu map_page 0 >>= λ q. ok (r.0 + q.0, q.1)
