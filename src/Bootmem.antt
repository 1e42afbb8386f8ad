-- ===== src/Bootmem.antt =====
-- The map of reserved pages of mm/bootmem.c, from which memory is had before the page allocator runs.
pub mod Marks
pub mod Search
pub mod Found
pub mod Placed
pub mod Alloc
pub mod Handover
pub mod Handed
pub mod Sums
pub mod Handing
pub mod Total
pub mod Init
pub mod Nodes
mod Tests
use biscuit_os_memory.Common.{
  ℕ, zero, suc, ◌+◌, ◌-◌, ◌*◌, ◌/◌, ◌%◌, ◌^◌, Bool, true, false, leb, ltb, ◌==◌, not, if◌then◌else◌,
  update, Run, ok, bug, bug_on, ◌>>=◌,
}
use biscuit_os_memory.Buddy.{word, add_word, sub_word}
use biscuit_os_memory.Vmalloc.{page_size}

-- `bootmem_data_t_bs`: bit `i` of the map is set while page `i` of the node is reserved.
pub record Bootmem : Type 0 where
  pub node_boot_start : ℕ
  pub node_low_pfn : ℕ
  pub node_bootmem_map : ℕ → Bool
  pub last_offset : ℕ
  pub last_pos : ℕ
  pub last_success : ℕ

-- `for (i = sidx; i < eidx; i++)` of `free_bootmem_core_bs`, which stops at a page that is free.
unfoldable pub clear_bits : ℕ → (ℕ → Bool) → ℕ → Run (ℕ → Bool)
clear_bits zero map i = ok map
clear_bits (suc rounds) map i =
    bug_on (not (map i)) (clear_bits rounds (update map i false) (i + 1))

-- `free_bootmem_core_bs`
unfoldable pub free_bootmem_core : Bootmem → ℕ → ℕ → Run Bootmem
free_bootmem_core bdata addr size =
    let eidx = sub_word (add_word addr size) bdata.node_boot_start / page_size in
    let end = add_word addr size / page_size in
    let last_success = if ltb addr bdata.last_success then addr else bdata.last_success in
    let start = add_word addr (page_size - 1) / page_size in
    let sidx = sub_word start (bdata.node_boot_start / page_size) in
    bug_on (size == 0) (
      bug_on (ltb bdata.node_low_pfn end) (
        clear_bits (eidx - sidx) bdata.node_bootmem_map sidx >>= λ map.
        ok (record bdata { node_bootmem_map = map; last_success = last_success })))

-- The loop of `reserve_bootmem_core_bs`, which only prints where a page is reserved twice.
unfoldable pub set_bits : ℕ → (ℕ → Bool) → ℕ → (ℕ → Bool)
set_bits zero map i = map
set_bits (suc rounds) map i = set_bits rounds (update map i true) (i + 1)

-- `reserve_bootmem_core_bs`
unfoldable pub reserve_bootmem_core : Bootmem → ℕ → ℕ → Run Bootmem
reserve_bootmem_core bdata addr size =
    let sidx = sub_word addr bdata.node_boot_start / page_size in
    let eidx =
      add_word (sub_word (add_word addr size) bdata.node_boot_start) (page_size - 1) / page_size in
    let end = add_word (add_word addr size) (page_size - 1) / page_size in
    bug_on (size == 0) (
      bug_on (leb eidx sidx) (
        bug_on (leb bdata.node_low_pfn (addr / page_size)) (
          bug_on (ltb bdata.node_low_pfn end) (
            ok (record bdata {
              node_bootmem_map = set_bits (eidx - sidx) bdata.node_bootmem_map sidx;
            })))))
