-- ===== src/Setup/Tests.antt =====
-- The theorems on sizes and marks, applied to a machine of three zones.
use biscuit_os_memory.Common.{ℕ, if◌then◌else◌, ltb, ◌&&◌, ◌||◌, ◌==◌, occurs}
use biscuit_os_memory.Fallback.{max_nr_zones}
use biscuit_os_memory.Samples.{full}
use biscuit_os_memory.Fallback.First.{zone_of}
use biscuit_os_memory.Setup.Core.{free_area_init_core}
use biscuit_os_memory.Setup.Fresh.{Empty}
use biscuit_os_memory.Setup.Node.{free_area_init_core-Empty}
use biscuit_os_memory.Setup.Zonelists.{build_zonelist, highest_zone, setup_lowmem_reserve}
use biscuit_os_memory.Setup.Zonelists.Reach.{serves, build_zonelist-occurs}
use biscuit_os_memory.Setup.Zonelists.Reserve.{kept, setup_lowmem_reserve-kept}
use biscuit_os_memory.Common.{
  ◌+◌, ◌*◌, ◌/◌, ◌<◌, ◌≤◌, ◌≡◌, refl, arith, true, false, min, List, [], ◌∷◌,
}
use biscuit_os_memory.Setup.{Share, wait_table_size, double_up, zone_marks, zone_pages_min}
use biscuit_os_memory.Setup.Sizes.{wait_table_size-bounds}

abbrev normal : Share
normal = record { highmem = false; present_pages = 3000 }

abbrev zones : List Share
zones =
    record { highmem = false; present_pages = 1000 }
    ∷ normal
    ∷ record { highmem = true; present_pages = 50000 }
    ∷ []

test-table : wait_table_size 100000 ≡ 512
unfolding wait_table_size double_up
test-table = refl

test-marks :
    zone_marks 256 4000 normal ≡ record { pages_min = 192; pages_low = 240; pages_high = 288 }
unfolding zone_marks zone_pages_min
test-marks = refl

wait_table_size-bounds_example :
    (4 ≤ wait_table_size 100000)
    × (wait_table_size 100000 ≤ 4096)
    × (min (100000 / 256) 4096 ≤ wait_table_size 100000)
    × (wait_table_size 100000 < 2 * (100000 / 256) + 4 + 1)
wait_table_size-bounds_example = wait_table_size-bounds 100000 (omega arith)

-- Two nodes, of which the first has no high memory
abbrev node_pages : ℕ → ℕ
node_pages z = if z == 2 then 0 else 1024

build_zonelist-occurs_example : occurs 4 (build_zonelist 2 (λ _. true) node_pages 0 2) ≡ (
    if serves node_pages (highest_zone 2) 4
      && ltb (4 / max_nr_zones) 2
      && (4 / max_nr_zones == 0 || true)
    then 1
    else 0)
build_zonelist-occurs_example = build_zonelist-occurs 2 (λ _. true) node_pages 0 2 4 (omega arith)

-- The ratios of the source: 256 and 32
setup_lowmem_reserve-kept_example :
    setup_lowmem_reserve (λ z. if z == 0 then 256 else 32) (λ _. 4096) max_nr_zones 0 (λ _ _. 0) 0 2
    ≡ kept (λ z. if z == 0 then 256 else 32) (λ _. 4096) (λ _ _. 0) 0 2
setup_lowmem_reserve-kept_example =
    setup_lowmem_reserve-kept (λ z. if z == 0 then 256 else 32) (λ _. 4096) (λ _ _. 0) 0 2
      (omega arith) (omega arith)

-- A node whose second zone is empty
abbrev sizes : ℕ → ℕ
sizes z = if z == 1 then 0 else 8

free_area_init_core-Empty_example : Empty 24 8 (
    zone_of
      (free_area_init_core
        (λ _. 1)
        1
        sizes
        (λ _. 0)
        16
        (record { mem = full.mem; zone = λ _. full.zone }))
      (1 * max_nr_zones + 2))
free_area_init_core-Empty_example =
    free_area_init_core-Empty (λ _. 1) 1 sizes (λ _. 0) 16 2
      (record { mem = full.mem; zone = λ _. full.zone }) (omega arith) (omega arith)
      (λ q lo hi. refl)
