-- ===== src/Setup/Zonelists.antt =====
-- The lists of zones that a request may be served from, and the pages kept from requests for higher zones
-- (mm/page_alloc.c). A zone is a number, three to a node.
pub mod Reach
pub mod Reserve
use biscuit_os_memory.Common.{
  ℕ, zero, suc, ◌+◌, ◌-◌, ◌*◌, ◌/◌, Bool, true, false, ltb, ◌==◌, if◌then◌else◌, nonzero, bit_and,
  update, List, [], ◌∷◌, ◌++◌,
}
use biscuit_os_memory.Buddy.{add_word, sub_word}
use biscuit_os_memory.Fallback.{max_nr_zones}

-- `if (zone->present_pages) zonelist->zones[j++] = zone`, with what follows
unfoldable pub add_zone : (ℕ → ℕ) → ℕ → List ℕ → List ℕ
add_zone present_pages zone rest = if nonzero (present_pages zone) then zone ∷ rest else rest

-- `build_zonelists_node_bs`, for `k` up to ZONE_HIGHMEM_BS, which is 2
unfoldable pub build_zonelists_node : (ℕ → ℕ) → ℕ → ℕ → List ℕ
unfolding add_zone
build_zonelists_node present_pages node k =
    let dma = add_zone present_pages (node * max_nr_zones) [] in
    let normal = add_zone present_pages (node * max_nr_zones + 1) dma in
    let highmem = add_zone present_pages (node * max_nr_zones + 2) normal in
    if k == 2 then highmem else if k == 1 then normal else dma

-- The loops over the other nodes
unfoldable pub add_nodes : (ℕ → Bool) → (ℕ → ℕ) → ℕ → ℕ → ℕ → List ℕ
add_nodes online present_pages k zero node = []
add_nodes online present_pages k (suc rounds) node =
    let rest = add_nodes online present_pages k rounds (node + 1) in
    if online node then build_zonelists_node present_pages node k ++ rest else rest

-- The highest zone for a type of request
unfoldable pub highest_zone : ℕ → ℕ
highest_zone i =
    let k = if nonzero (bit_and i 2) then 2 else 1 in if nonzero (bit_and i 1) then 0 else k

-- `build_zonelists_bs`, for one type of request and `max_nodes` nodes
unfoldable pub build_zonelist : ℕ → (ℕ → Bool) → (ℕ → ℕ) → ℕ → ℕ → List ℕ
unfolding highest_zone
build_zonelist max_nodes online present_pages local_node i =
    let k = highest_zone i in
    build_zonelists_node present_pages local_node k
    ++ (add_nodes online present_pages k (max_nodes - (local_node + 1)) (local_node + 1)
        ++ add_nodes online present_pages k local_node 0)

-- `nr_free_zone_pages_bs` for one list
unfoldable pub nr_free_zone_pages : (ℕ → ℕ) → (ℕ → ℕ) → List ℕ → ℕ
nr_free_zone_pages present_pages pages_high [] = 0
nr_free_zone_pages present_pages pages_high (z ∷ zones) =
    let rest = nr_free_zone_pages present_pages pages_high zones in
    if ltb (pages_high z) (present_pages z)
    then add_word (present_pages z - pages_high z) rest
    else rest

-- The loop of `setup_per_zone_lowmem_reserve_bs` over the zones below zone `j`, from the highest one:
-- `reserve zone j` is `lowmem_reserve[j]` of a zone.
unfoldable pub reserve_below : (ℕ → ℕ) → (ℕ → ℕ) → ℕ → ℕ → ℕ → (ℕ → ℕ → ℕ) → (ℕ → ℕ → ℕ)
reserve_below ratio present_pages j zero pages reserve = reserve
reserve_below ratio present_pages j (suc idx) pages reserve =
    let share = if ltb (ratio idx) 1 then 1 else ratio idx in
    reserve_below ratio present_pages j idx (add_word pages (present_pages idx))
      (update reserve idx (update (reserve idx) j (pages / share)))

-- `setup_per_zone_lowmem_reserve_bs` for the zones of a node from `j` on
unfoldable pub setup_lowmem_reserve : (ℕ → ℕ) → (ℕ → ℕ) → ℕ → ℕ → (ℕ → ℕ → ℕ) → (ℕ → ℕ → ℕ)
unfolding reserve_below
setup_lowmem_reserve ratio present_pages zero j reserve = reserve
setup_lowmem_reserve ratio present_pages (suc rounds) j reserve =
    setup_lowmem_reserve ratio present_pages rounds (j + 1) (
      reserve_below ratio present_pages j j (present_pages j)
        (update reserve j (update (reserve j) j 0)))
