-- ===== src/Highmem.antt =====
-- The mappings of high memory in mm/highmem.c: the table of page addresses and the kmap slots. A page is
-- its number. The hash of a page, whether a page is high memory, the address of a low page and where
-- the slots start are parameters.
use biscuit_os_memory.Common.{
  ℕ, zero, suc, ◌+◌, ◌-◌, ◌*◌, ◌/◌, Bool, true, false, ltb, ◌==◌, not, if◌then◌else◌, nonzero,
  bit_and, update, Option, none, some, List, [], ◌∷◌, ◌++◌, Run, ok, bug, bug_on, ◌>>=◌,
}
use biscuit_os_memory.Vmalloc.{page_size}
use biscuit_os_memory.Slab.{minus}
pub mod Table
pub mod Mapped
pub mod Rounds
pub mod Flush
pub mod Slots
pub mod Kmap
mod Tests

-- `LAST_PKMAP_BS`
abbrev pub last_pkmap : ℕ
last_pkmap = 512

-- The slots of the hash table, each a list of pages with their addresses (`page_address_map_bs`), the
-- number of descriptors in `page_address_pool_bs`, the counts of the kmap slots, the last slot tried, and
-- the page table of the slots.
pub record Highmem : Type 0 where
  pub htable : ℕ → List (ℕ × ℕ)
  pub pool : ℕ
  pub pkmap_count : ℕ → ℕ
  pub last_pkmap_nr : ℕ
  pub pkmap_page_table : ℕ → Option ℕ

-- The address of a page in a list, 0 when it is not there.
unfoldable pub find_page : ℕ → List (ℕ × ℕ) → ℕ
find_page page [] = 0
find_page page (pam ∷ pams) =
    let rest = find_page page pams in if pam.0 == page then pam.1 else rest

-- The list without the first entry of a page, and whether there was one.
unfoldable pub remove_page : ℕ → List (ℕ × ℕ) → Bool × List (ℕ × ℕ)
remove_page page [] = (false, [])
remove_page page (pam ∷ pams) =
    let rest = remove_page page pams in
    if pam.0 == page then (true, pams) else (rest.0, pam ∷ rest.1)

module _ (hash_ptr : ℕ → ℕ) (is_highmem : ℕ → Bool) (lowmem_page_address : ℕ → ℕ) where
  -- `page_address_bs`
  unfoldable pub page_address : Highmem → ℕ → ℕ
  page_address st page =
      if not (is_highmem page)
      then lowmem_page_address page
      else find_page page (st.htable (hash_ptr page))

  -- `set_page_address_bs`
  unfoldable pub set_page_address : Highmem → ℕ → ℕ → Run Highmem
  set_page_address st page virtual = bug_on (not (is_highmem page)) (
      if nonzero virtual
      then bug_on (st.pool == 0) (
          ok (record st {
            pool = st.pool - 1;
            htable =
                update st.htable (hash_ptr page)
                  (st.htable (hash_ptr page) ++ ((page, virtual) ∷ []));
          }))
      else (let r = remove_page page (st.htable (hash_ptr page)) in
          ok (record st {
            pool = if r.0 then st.pool + 1 else st.pool;
            htable = update st.htable (hash_ptr page) (r.1);
          })))

  -- A slot of `flush_all_zero_pkmaps_bs` with a count of 1.
  unfoldable pub flush_slot : ℕ → Highmem → Option ℕ → Run Highmem
  flush_slot i st none = bug
  flush_slot i st (some page) =
      set_page_address
        (record st {
          pkmap_count = update st.pkmap_count i 0;
          pkmap_page_table = update st.pkmap_page_table i none;
        })
        page 0

  -- The loop of `flush_all_zero_pkmaps_bs` from slot `i` on, with `rounds` slots to come
  unfoldable pub flush_loop : ℕ → ℕ → Highmem → Run Highmem
  flush_loop zero i st = ok st
  flush_loop (suc rounds) i st =
      (if st.pkmap_count i == 1 then flush_slot i st (st.pkmap_page_table i) else ok st) >>= λ st'.
      flush_loop rounds (i + 1) st'

  -- `flush_all_zero_pkmaps_bs`
  unfoldable pub flush_all_zero_pkmaps : Highmem → Run Highmem
  flush_all_zero_pkmaps st = flush_loop last_pkmap 0 st

  -- The loop of `map_new_virtual_bs` over the slots: a slot of count 0, or none when the caller has to
  -- sleep. It has at most 511 rounds before it is at the start of the slots, and 512 from there on.
  unfoldable pub find_slot : ℕ → ℕ → Highmem → Run (Option ℕ × Highmem)
  find_slot zero count st = ok (none, st)
  find_slot (suc rounds) count st =
      let nr = bit_and (st.last_pkmap_nr + 1) (last_pkmap - 1) in
      let count' = (if nr == 0 then last_pkmap else count) - 1 in
      let st' = record st { last_pkmap_nr = nr } in
      (if nr == 0 then flush_all_zero_pkmaps st' else ok st') >>= λ t.
      let rest = find_slot rounds count' t in
      if t.pkmap_count nr == 0
      then ok (some nr, t)
      else if nonzero count'
      then rest
      else ok (none, t)

module _ (hash_ptr : ℕ → ℕ) (is_highmem : ℕ → Bool) (lowmem_page_address : ℕ → ℕ)
    (pkmap_base : ℕ) where
  -- `PKMAP_ADDR_BS` and `PKMAP_NR_BS`
  unfoldable pub pkmap_addr : ℕ → ℕ
  pkmap_addr nr = pkmap_base + nr * page_size

  unfoldable pub pkmap_nr : ℕ → ℕ
  pkmap_nr virtual = minus virtual pkmap_base / page_size

  -- The end of `map_new_virtual_bs`, with the slot that it has found
  unfoldable pub map_slot : ℕ → ℕ → Highmem → Run Highmem
  map_slot page nr st =
      set_page_address hash_ptr is_highmem lowmem_page_address
        (record st {
          pkmap_page_table = update st.pkmap_page_table nr (some page);
          pkmap_count = update st.pkmap_count nr 1;
        })
        page (pkmap_addr nr)

  -- After the search for a slot: the page is mapped there, or the caller sleeps, and takes the mapping
  -- that somebody else has made, if there is one. `again` is the start of `map_new_virtual_bs`.
  unfoldable pub after_search :
      (Highmem → Highmem)
      → (Highmem → Run (Option ℕ × Highmem))
      → ℕ
      → Option ℕ × Highmem
      → Run (Option ℕ × Highmem)
  after_search others again page (some nr, st) =
      map_slot page nr st >>= λ t. ok (some (pkmap_addr nr), t)
  after_search others again page (none, st) =
      let st' = others st in
      let virtual = page_address hash_ptr is_highmem lowmem_page_address st' page in
      let rest = again st' in if nonzero virtual then ok (some virtual, st') else rest

  -- `map_new_virtual_bs`, with at most `tries` sleeps; none when it is still asleep. `others` is what
  -- happens while it sleeps.
  unfoldable pub map_new_virtual : (Highmem → Highmem) → ℕ → ℕ → Highmem → Run (Option ℕ × Highmem)
  map_new_virtual others zero page st = ok (none, st)
  map_new_virtual others (suc tries) page st =
      find_slot hash_ptr is_highmem lowmem_page_address (2 * last_pkmap) last_pkmap st
      >>= after_search others (λ t. map_new_virtual others tries page t) page

  -- The count of the page's slot goes up, at the end of `kmap_high_bs`.
  unfoldable pub count_up_slot : Option ℕ × Highmem → Run (Option ℕ × Highmem)
  count_up_slot (none, st) = ok (none, st)
  count_up_slot (some virtual, st) =
      let nr = pkmap_nr virtual in
      bug_on (ltb (st.pkmap_count nr + 1) 2) (
        ok (
          some virtual,
          record st { pkmap_count = update st.pkmap_count nr (st.pkmap_count nr + 1) },
        ))

  -- `kmap_high_bs`
  unfoldable pub kmap_high : (Highmem → Highmem) → ℕ → ℕ → Highmem → Run (Option ℕ × Highmem)
  kmap_high others tries page st =
      let virtual = page_address hash_ptr is_highmem lowmem_page_address st page in
      (if nonzero virtual then ok (some virtual, st) else map_new_virtual others tries page st)
      >>= count_up_slot

  -- `kunmap_high_bs`, and whether the slot is free for the next flush
  unfoldable pub kunmap_high : ℕ → Highmem → Run (Bool × Highmem)
  kunmap_high page st =
      let virtual = page_address hash_ptr is_highmem lowmem_page_address st page in
      let nr = pkmap_nr virtual in
      let count = minus (st.pkmap_count nr) 1 in
      bug_on (virtual == 0) (
        bug_on (count == 0)
          (ok (count == 1, record st { pkmap_count = update st.pkmap_count nr count })))

  -- `kmap_bs`
  unfoldable pub kmap : (Highmem → Highmem) → ℕ → ℕ → Highmem → Run (Option ℕ × Highmem)
  kmap others tries page st =
      if not (is_highmem page)
      then ok (some (page_address hash_ptr is_highmem lowmem_page_address st page), st)
      else kmap_high others tries page st

  -- `kunmap_bs`
  unfoldable pub kunmap : Bool → ℕ → Highmem → Run (Bool × Highmem)
  kunmap in_interrupt page st =
      bug_on in_interrupt (if not (is_highmem page) then ok (false, st) else kunmap_high page st)
