-- ===== src/Bootmem/Search.antt =====
-- The search of `__alloc_bootmem_core_bs` in mm/bootmem.c for free pages, and the place of the buffer in
-- them. `ALIGN` and `find_next_zero_bit` of the host kernel are parameters.
use biscuit_os_memory.Common.{
  ℕ, zero, suc, ◌+◌, ◌-◌, ◌*◌, ◌/◌, ◌%◌, Bool, true, leb, ltb, ◌==◌, if◌then◌else◌, ◌&&◌, nonzero,
  bit_and, Option, none, some, List, [], ◌∷◌, update, Run, ok, bug, bug_on, ◌>>=◌,
}
use biscuit_os_memory.Buddy.{word, add_word, sub_word}
use biscuit_os_memory.Vmalloc.{page_size}
use biscuit_os_memory.Bootmem.{Bootmem}

-- The loop over `j`: the first page that is reserved or behind the node, if there is one.
unfoldable pub blocked_at : (ℕ → Bool) → ℕ → ℕ → ℕ → Option ℕ
blocked_at map eidx zero j = none
blocked_at map eidx (suc rounds) j =
    let rest = blocked_at map eidx rounds (j + 1) in
    if leb eidx j then some j else if map j then some j else rest

-- `x & ~(align - 1)`, and `(x + align - 1) & ~(align - 1)`
unfoldable pub mask_down : ℕ → ℕ → ℕ
mask_down x align = bit_and x (word - 1 - sub_word align 1)

unfoldable pub mask_up : ℕ → ℕ → ℕ
unfolding mask_down
mask_up x align = mask_down (sub_word (add_word x align) 1) align

-- The goto `restart_scan`
unfoldable pub restart : Option ℕ → Bool → Option ℕ → Option ℕ
restart (some start) lower again = some start
restart none lower again = if lower then again else none

module _ (align_up : ℕ → ℕ → ℕ) (find_next_zero_bit : (ℕ → Bool) → ℕ → ℕ → ℕ) where
  -- The end of a round at page `i`: the pages are found, or the search goes on behind `j`.
  unfoldable pub end_round : (ℕ → Option ℕ) → ℕ → ℕ → Option ℕ → Option ℕ
  end_round again incr i none = some i
  end_round again incr i (some j) = again (align_up j incr)

  -- The loop over `i`. Each round starts behind the last one, so it has at most as many rounds as pages.
  unfoldable pub scan : (ℕ → Bool) → ℕ → ℕ → ℕ → ℕ → ℕ → Option ℕ
  scan map eidx areasize incr zero i = none
  scan map eidx areasize incr (suc rounds) i =
      let again = λ (k : ℕ). scan map eidx areasize incr rounds (add_word k incr) in
      let i' = align_up (find_next_zero_bit map eidx i) incr in
      let taken = again i' in
      let ended =
        end_round again incr i' (blocked_at map eidx (add_word i' areasize - (i' + 1)) (i' + 1)) in
      if ltb i eidx then (if map i' then taken else ended) else none

  unfoldable pub find_start : (ℕ → Bool) → ℕ → ℕ → ℕ → ℕ → ℕ → Option ℕ
  unfolding restart
  find_start map eidx areasize incr preferred offset =
      restart (scan map eidx areasize incr (eidx + 1) preferred) (ltb offset preferred)
        (scan map eidx areasize incr (eidx + 1) offset)

-- Where the search starts, with the goal and without
unfoldable pub start_offset : Bootmem → ℕ → ℕ
start_offset b align =
    let odd = bit_and b.node_boot_start (sub_word align 1) in
    (if nonzero align && nonzero odd then sub_word align odd else 0) / page_size

unfoldable pub preferred_page : Bootmem → ℕ → ℕ → ℕ
unfolding mask_up start_offset
preferred_page b align goal =
    let wanted = sub_word goal b.node_boot_start in
    let preferred =
      if nonzero goal && leb b.node_boot_start goal && ltb (goal / page_size) b.node_low_pfn
      then (if leb wanted b.last_success then b.last_success else wanted)
      else 0 in
    add_word (mask_up preferred align / page_size) (start_offset b align)

-- The place of a buffer: its address, the pages to reserve for it, and its end.
pub record Place : Type 0 where
  pub ret : ℕ
  pub areasize : ℕ
  pub last_pos : ℕ
  pub last_offset : ℕ

-- How many pages a number of bytes has
unfoldable pub pages_of : ℕ → ℕ
pages_of size = add_word size (page_size - 1) / page_size

-- A buffer on pages of its own
unfoldable pub place_apart : Bootmem → ℕ → ℕ → Place
unfolding pages_of
place_apart b size start = record {
  ret = add_word (start * page_size % word) b.node_boot_start;
  areasize = pages_of size;
  last_pos = sub_word (add_word start (pages_of size)) 1;
  last_offset = size % page_size;
}

-- A buffer that begins on the last page of the buffer before it
unfoldable pub place_merged : Bootmem → ℕ → ℕ → ℕ → Place
unfolding pages_of
place_merged b size start offset =
    let left = page_size - offset in
    let over = size - left in
    let ret = add_word (add_word (b.last_pos * page_size % word) offset) b.node_boot_start in
    if ltb size left
    then record {
      ret = ret;
      areasize = 0;
      last_pos = b.last_pos;
      last_offset = (offset + size) % page_size;
    }
    else record {
      ret = ret;
      areasize = pages_of over;
      last_pos = sub_word (add_word start (pages_of over)) 1;
      last_offset = over % page_size;
    }

-- The loop that reserves the pages, which stops at one that is reserved.
unfoldable pub reserve_area : ℕ → (ℕ → Bool) → ℕ → Run (ℕ → Bool)
reserve_area zero map i = ok map
reserve_area (suc rounds) map i = bug_on (map i) (reserve_area rounds (update map i true) (i + 1))

-- What follows a search: nothing, or the buffer at the pages that it has found. The buffer's contents,
-- which are set to 0, are left out.
unfoldable pub place_at : Bootmem → ℕ → ℕ → ℕ → Run Place
unfolding mask_up place_apart place_merged
place_at b size align start =
    let offset = mask_up b.last_offset align in
    if ltb align page_size && nonzero b.last_offset && add_word b.last_pos 1 == start
    then bug_on (ltb page_size offset) (ok (place_merged b size start offset))
    else ok (place_apart b size start)

unfoldable pub take_pages : Bootmem → ℕ → ℕ → Option ℕ → Run (Option ℕ × Bootmem)
unfolding place_at reserve_area
take_pages b size align none = ok (none, b)
take_pages b size align (some start) =
    let eidx = sub_word b.node_low_pfn (b.node_boot_start / page_size) in
    bug_on (leb eidx start) (
      place_at b size align start >>= λ p.
      reserve_area p.areasize b.node_bootmem_map start >>= λ map. ok (
        some p.ret,
        record b {
          node_bootmem_map = map;
          last_offset = p.last_offset;
          last_pos = p.last_pos;
          last_success = start * page_size % word;
        },
      ))

-- The end of `__alloc_bootmem_bs` for a node: its buffer, or the nodes after it
unfoldable pub else_nodes :
    List Bootmem → Run (ℕ × List Bootmem) → Option ℕ × Bootmem → Run (ℕ × List Bootmem)
else_nodes others later (some ret, b) = ok (ret, b ∷ others)
else_nodes others later (none, b) = later >>= λ r. ok (r.0, b ∷ r.1)

module _ (align_up : ℕ → ℕ → ℕ) (find_next_zero_bit : (ℕ → Bool) → ℕ → ℕ → ℕ) where
  -- `__alloc_bootmem_core_bs`, with physical addresses for pointers
  unfoldable pub alloc_bootmem_core : Bootmem → ℕ → ℕ → ℕ → Run (Option ℕ × Bootmem)
  alloc_bootmem_core b size align goal =
      let eidx = sub_word b.node_low_pfn (b.node_boot_start / page_size) in
      let incr = if nonzero (align / page_size) then align / page_size else 1 in
      bug_on (size == 0) (
        bug_on (nonzero (bit_and align (sub_word align 1))) (
          take_pages b size align (
            find_start align_up find_next_zero_bit b.node_bootmem_map eidx (pages_of size) incr
              (preferred_page b align goal) (start_offset b align))))

  -- `__alloc_bootmem_bs`, which panics when no node has the memory
  unfoldable pub alloc_bootmem : List Bootmem → ℕ → ℕ → ℕ → Run (ℕ × List Bootmem)
  alloc_bootmem [] size align goal = bug
  alloc_bootmem (b ∷ others) size align goal =
      alloc_bootmem_core b size align goal
      >>= else_nodes others (alloc_bootmem others size align goal)
