-- ===== src/Setup/Boot.antt =====
-- A zone that is set up in mm/page_alloc.c and then gets its pages from the map of mm/bootmem.c.
use biscuit_os_memory.Common.{
  ℕ, ◌+◌, ◌*◌, ◌/◌, ◌<◌, ◌≤◌, ◌≡◌, ◌∙◌, arith, true, false, ◌||◌, inl, inr, Bool-cases, sum_below,
  if◌then◌else◌, Returns, Returns-mono,
}
use biscuit_os_memory.Buddy.{Mm}
use biscuit_os_memory.Pcp.{nr_cpus}
use biscuit_os_memory.Pcp.Held.{Inv, held}
use biscuit_os_memory.Vmalloc.{page_size}
use biscuit_os_memory.Bootmem.{Bootmem}
use biscuit_os_memory.Bootmem.Placed.{node_pages, Ready}
use biscuit_os_memory.Bootmem.Handover.{free_all_bootmem_core}
use biscuit_os_memory.Bootmem.Sums.{free_sum}
use biscuit_os_memory.Bootmem.Total.{
  is_free_page, is_map_page, whole_map_pages, FindsFirst, HandedOver,
  free_all_bootmem_core-HandedOver,
}
use biscuit_os_memory.Fallback.{Zones, max_nr_zones}
use biscuit_os_memory.Fallback.First.{zone_of}
use biscuit_os_memory.Setup.Core.{free_area_init_core}
use biscuit_os_memory.Setup.Fresh.{Empty}
use biscuit_os_memory.Setup.Node.{free_area_init_core-Empty}

-- The zone has the free pages of the node and those of the map, and no others.
pub record Booted (b : Bootmem) (map_page : ℕ) (r : ℕ × Mm) : Type 0 where
  pub inv : Inv (r.1)
  pub counted : r.0 ≡ free_sum b.node_bootmem_map (λ _. 1) (node_pages b) 0 + whole_map_pages b
  pub holds :
      (q : ℕ) → held (r.1) q ≡ (if is_free_page b q || is_map_page b map_page q then 1 else 0)

-- The node and its map lie in the zone, the map on pages that are reserved.
pub record Inside (b : Bootmem) (map_page start_pfn size : ℕ) : Type 0 where
  pub node_from : start_pfn ≤ b.node_boot_start / page_size
  pub node_to : b.node_low_pfn ≤ start_pfn + size
  pub map_from : start_pfn ≤ map_page
  pub map_to : map_page + whole_map_pages b ≤ start_pfn + size
  pub apart : (q : ℕ) → is_map_page b map_page q ≡ true → is_free_page b q ≡ false

free_page-in :
    {b : Bootmem} {map_page start_pfn size : ℕ} (i : Inside b map_page start_pfn size) (q : ℕ)
    → is_free_page b q ≡ true
    → (start_pfn ≤ q) × (q < start_pfn + size)
unfolding is_free_page
free_page-in i q h = (ground (arith, h, i.node_from), ground (arith, h, i.node_to))

map_page-in :
    {b : Bootmem} {map_page start_pfn size : ℕ} (i : Inside b map_page start_pfn size) (q : ℕ)
    → is_map_page b map_page q ≡ true
    → (start_pfn ≤ q) × (q < start_pfn + size)
unfolding is_map_page whole_map_pages
map_page-in i q h = (ground (arith, h, i.map_from), ground (arith, h, i.map_to))

HandedOver-Booted :
    {b : Bootmem} {map_page start_pfn size : ℕ} {s : Mm} {r : ℕ × Mm}
    → Inside b map_page start_pfn size
    → ((q : ℕ) → held s q ≡ 0)
    → HandedOver b map_page s r
    → Booted b map_page r
HandedOver-Booted {b} {map_page} i empty h = record {
  inv = h.inv;
  counted = h.counted;
  holds = λ q.
      h.held q
      ∙ rw (empty q) (elim (Bool-cases (is_map_page b map_page q)) [
        | inl e ↦ rw (e, i.apart q e) (ground arith)
        | inr e ↦ rw e (ground arith)
      ]);
}

-- The zones of a node none of whose pages has a private mark are set up, and then a node of the
-- boot memory in order, which lies in one of these zones, as its map does, on pages that the map
-- has as reserved, is handed over to this zone, where ffs finds the lowest bit: the hand-over
-- returns, the zone is well formed and holds exactly the pages that the map has as free and those
-- of the map that have the bits of 8 pages or more, of 32768 to a page, each once, and the number
-- returned is that of the free pages of the node with those of the map.
pub free_area_init_core-Booted :
    (fls ffs : ℕ → ℕ) (node : ℕ) (sizes holes : ℕ → ℕ) (node_start_pfn i : ℕ) (w : Zones)
    (b : Bootmem) (map_page cpu : ℕ)
    → i < max_nr_zones
    → 0 < sizes i
    → ((q : ℕ)
        → node_start_pfn ≤ q
        → q < node_start_pfn + sum_below max_nr_zones sizes
        → (w.mem q).flags.has_private ≡ false)
    → FindsFirst ffs b.node_boot_start
    → cpu < nr_cpus
    → Ready b
    → Inside b map_page (node_start_pfn + sum_below i sizes) (sizes i)
    → Returns (Booted b map_page) (
        free_all_bootmem_core ffs b map_page cpu (
          zone_of
            (free_area_init_core fls node sizes holes node_start_pfn w)
            (node * max_nr_zones + i)))
free_area_init_core-Booted fls ffs node sizes holes node_start_pfn i w b map_page cpu lt pos clean
      finds c ready inside =
    Returns-mono
      (free_all_bootmem_core-HandedOver ffs b map_page cpu _ finds c ready set_up.inv
        (λ q h. let r = free_page-in inside q h in set_up.waiting q (r.0) (r.1))
        (λ q h. let r = map_page-in inside q h in set_up.waiting q (r.0) (r.1)) inside.apart)
      (λ r h. HandedOver-Booted inside set_up.empty h)
  where
    set_up : Empty (node_start_pfn + sum_below i sizes) (sizes i) (
        zone_of
          (free_area_init_core fls node sizes holes node_start_pfn w)
          (node * max_nr_zones + i))
    set_up = free_area_init_core-Empty fls node sizes holes node_start_pfn i w lt pos clean
