-- ===== src/Setup.antt =====
-- Sizes and marks that a zone gets when it is set up (mm/page_alloc.c).
pub mod Sizes
pub mod Core
pub mod Fresh
pub mod Boot
pub mod Node
pub mod Zonelists
mod Tests
use biscuit_os_memory.Common.{
  ℕ, zero, suc, ◌+◌, ◌-◌, ◌*◌, ◌/◌, ◌%◌, ◌^◌, Bool, true, false, leb, ltb, if◌then◌else◌, min, max,
  List, [], ◌∷◌,
}
use biscuit_os_memory.Buddy.{word, add_word}

-- The loop of `wait_table_size_bs`: a size doubles while it is too small.
unfoldable pub double_up : ℕ → ℕ → ℕ → ℕ
double_up zero size pages = size
double_up (suc rounds) size pages =
    let rest = double_up rounds (size * 2 % word) pages in if ltb size pages then rest else size

-- `wait_table_size_bs`, with a round for each bit of a word
unfoldable pub wait_table_size : ℕ → ℕ
wait_table_size pages = max (min (double_up 32 1 (pages / 256)) 4096) 4

-- One zone of `setup_per_zone_pages_min_bs`: whether it is high memory, and its pages.
pub record Share : Type 0 where
  pub highmem : Bool
  pub present_pages : ℕ

pub record Marks : Type 0 where
  pub pages_min : ℕ
  pub pages_low : ℕ
  pub pages_high : ℕ

unfoldable pub lowmem_pages : List Share → ℕ
lowmem_pages [] = 0
lowmem_pages (z ∷ zones) =
    let rest = lowmem_pages zones in if z.highmem then rest else z.present_pages + rest

-- `zone->pages_min`; SWAP_CLUSTER_MAX_BS is 32.
unfoldable pub zone_pages_min : ℕ → ℕ → Share → ℕ
zone_pages_min pages_min lowmem z =
    if z.highmem
    then (let few = z.present_pages / 1024 in
        let enough = if ltb few 32 then 32 else few in if ltb 128 enough then 128 else enough)
    else pages_min * z.present_pages % word / lowmem

unfoldable pub zone_marks : ℕ → ℕ → Share → Marks
zone_marks pages_min lowmem z =
    let least = zone_pages_min pages_min lowmem z in
    record {
      pages_min = least;
      pages_low = least * 5 % word / 4;
      pages_high = least * 6 % word / 4;
    }
