-- ===== src/Bootmem/Tests.antt =====
-- The theorems on the map, applied to a node of 64 pages.
use biscuit_os_memory.Common.{
  ℕ, zero, suc, ◌+◌, ◌-◌, ◌*◌, ◌/◌, ◌^◌, ◌<◌, ◌≤◌, ◌≡◌, refl, arith, true, false, Bool, inl, inr,
  ltb, leb, ◌==◌, ==-cases, Bool-cases, ◌&&◌, if◌then◌else◌, [], ◌∷◌, Returns,
}
use biscuit_os_memory.Vmalloc.Areas.{RoundsUp}
use biscuit_os_memory.Page.{page_is_buddy}
use biscuit_os_memory.Buddy.{Mm}
use biscuit_os_memory.Pcp.Held.{Inv}
use biscuit_os_memory.Samples.{no_flags, sample_page, full, full-cover, full-held, full-Counted}
use biscuit_os_memory.Bootmem.Search.{alloc_bootmem_core, alloc_bootmem}
use biscuit_os_memory.Bootmem.Found.{FindsZero}
use biscuit_os_memory.Bootmem.Placed.{Ready}
use biscuit_os_memory.Bootmem.Alloc.{Outcome, alloc_bootmem_core-Outcome}
use biscuit_os_memory.Bootmem.Nodes.{Suits, Served, alloc_bootmem-Served}
use biscuit_os_memory.Bootmem.Handover.{free_all_bootmem_core}
use biscuit_os_memory.Bootmem.Handed.{Waiting}
use biscuit_os_memory.Setup.Core.{free_area_init_core}
use biscuit_os_memory.Setup.Boot.{Inside, Booted, free_area_init_core-Booted}
use biscuit_os_memory.Fallback.{max_nr_zones}
use biscuit_os_memory.Fallback.First.{zone_of}
use biscuit_os_memory.Bootmem.Total.{
  FindsFirst, HandedOver, is_free_page, is_map_page, whole_map_pages,
  free_all_bootmem_core-HandedOver,
}
use biscuit_os_memory.Bootmem.{Bootmem, free_bootmem_core, reserve_bootmem_core}
use biscuit_os_memory.Bootmem.Marks.{
  Range, whole, touched, free_bootmem_core-whole, reserve_bootmem_core-touched,
}

abbrev node : Bootmem
node = record {
  node_boot_start = 0x20000;
  node_low_pfn = 96;
  node_bootmem_map = λ _. true;
  last_offset = 0;
  last_pos = 0;
  last_success = 0;
}

-- Of pages 1 to 4 the first and the last are not whole.
odd-Range : Range node 0x21800 0x3000
odd-Range = record {
  some_size = omega arith;
  aligned = refl;
  from_start = omega arith;
  words = omega arith;
}

free_bootmem_core-whole_example :
    Returns
      (λ (b : Bootmem).
        (i : ℕ) → b.node_bootmem_map i ≡ (if whole 0x20000 0x21800 0x3000 i then false else true))
      (free_bootmem_core node 0x21800 0x3000)
free_bootmem_core-whole_example =
    free_bootmem_core-whole node 0x21800 0x3000 odd-Range (omega arith) (λ i h. refl)

abbrev empty_node : Bootmem
empty_node = record node { node_bootmem_map = λ _. false }

empty-Range : Range empty_node 0x21800 0x3000
empty-Range = record {
  some_size = omega arith;
  aligned = refl;
  from_start = omega arith;
  words = omega arith;
}

reserve_bootmem_core-touched_example :
    Returns
      (λ (b : Bootmem).
        (i : ℕ) → b.node_bootmem_map i ≡ (if touched 0x20000 0x21800 0x3000 i then true else false))
      (reserve_bootmem_core empty_node 0x21800 0x3000)
reserve_bootmem_core-touched_example =
    reserve_bootmem_core-touched empty_node 0x21800 0x3000 empty-Range (omega arith)

-- `find_next_zero_bit` and `ALIGN` as functions
abbrev zero_from : (ℕ → Bool) → ℕ → ℕ → ℕ
zero_from map zero i = i
zero_from map (suc rounds) i = if map i then zero_from map rounds (i + 1) else i

zero_from_lem :
    (map : ℕ → Bool) (rounds i : ℕ)
    → (i ≤ zero_from map rounds i)
      × (zero_from map rounds i ≤ i + rounds)
      × ((j : ℕ) → i ≤ j → j < zero_from map rounds i → map j ≡ true)
zero_from_lem map zero i = (omega arith, omega arith, λ j lo hi. absurd (omega (arith, hi)))
zero_from_lem map (suc rounds) i = elim (Bool-cases (map i)) [
  | inl e ↦
      let rest = zero_from_lem map rounds (i + 1) in
      rw e (
        omega (arith, rest.0),
        omega (arith, rest.1),
        λ j lo hi. elim (==-cases i j) [
          | inl (_, same) ↦ rw same at e
          | inr (_, differ) ↦ rest.2 j (omega arith) hi
        ],
      )
  | inr e ↦ rw e (omega arith, omega arith, λ j lo hi. absurd (omega (arith, hi)))
]

abbrev next_zero : (ℕ → Bool) → ℕ → ℕ → ℕ
next_zero map size i = zero_from map (size - i) i

next_zero-FindsZero : FindsZero next_zero
next_zero-FindsZero map size i le =
    let found = zero_from_lem map (size - i) i in (found.0, omega (arith, found.1), found.2)

abbrev align_to : ℕ → ℕ → ℕ
align_to x align = (x + align - 1) / align * align

align_to-RoundsUp : (limit : ℕ) → RoundsUp align_to 1 limit
align_to-RoundsUp limit x le = omega arith

-- Pages 8 to 23 are free, and the last buffer ends on page 7.
abbrev half_node : Bootmem
half_node = record node {
  node_bootmem_map = λ i. if leb 8 i && ltb i 24 then false else true;
  last_offset = 100;
  last_pos = 7;
}

half_node-Ready : Ready half_node
half_node-Ready = record {
  aligned = refl;
  ordered = omega arith;
  words = omega arith;
  guard = λ j ge. ground arith;
  partial = omega arith;
  shared = λ pos. (omega arith, refl);
}

alloc_bootmem_core-Outcome_example :
    Returns
      (Outcome half_node 5000 (2 ^ 4))
      (alloc_bootmem_core align_to next_zero half_node 5000 (2 ^ 4) 0)
alloc_bootmem_core-Outcome_example =
    alloc_bootmem_core-Outcome half_node 5000 4 (omega arith) half_node-Ready (omega arith)
      (omega arith) refl align_to next_zero 0 next_zero-FindsZero (align_to-RoundsUp _)

half_node-Suits :
    Suits align_to next_zero 5000 4 0 next_zero-FindsZero
      (omega arith)
      (omega arith)
      (omega arith)
      half_node
half_node-Suits = record { ready = half_node-Ready; base = refl; up = align_to-RoundsUp _ }

alloc_bootmem-Served_example :
    Served
      (λ b. alloc_bootmem_core align_to next_zero b 5000 (2 ^ 4) 0)
      5000
      (2 ^ 4)
      (half_node ∷ [])
      (alloc_bootmem align_to next_zero (half_node ∷ []) 5000 (2 ^ 4) 0)
alloc_bootmem-Served_example =
    alloc_bootmem-Served align_to next_zero 5000 4 0 next_zero-FindsZero (omega arith) (omega arith)
      (omega arith) (half_node ∷ []) (half_node-Suits, tt)

-- A zone whose 16 pages the boot memory allocator still has, with the map on page 5
abbrev booting : Mm
booting = record full {
  mem = λ p. record (sample_page 0) { flags = record no_flags { reserved = true } };
}

booting-Inv : Inv booting
unfolding page_is_buddy
booting-Inv = record {
  valid = record {
    counts = λ order o. refl;
    blocks = λ order page o h. absurd (ground (arith, h));
    heads = λ order page o r h. absurd (ground (arith, h));
    once = λ page. omega (arith, full-cover page);
    idle = λ page h. absurd (omega (arith, full-cover page));
  };
  counted = full-Counted;
  lengths = λ k o. refl;
  placed = λ k q o h. absurd (ground (arith, h));
  once = λ q. omega (arith, full-held q);
}

booting-Waiting : (q : ℕ) → q < 16 → Waiting booting q
booting-Waiting q lt = record {
  unheld = full-held q;
  unused = refl;
  clean = refl;
  reserved = refl;
  home = refl;
  inside = record { lo = omega arith; hi = omega arith };
}

abbrev first_node : Bootmem
first_node = record node { node_boot_start = 0; node_low_pfn = 16; node_bootmem_map = λ i. leb 4 i }

first_node-Ready : Ready first_node
first_node-Ready = record {
  aligned = refl;
  ordered = omega arith;
  words = omega arith;
  guard = λ j ge. ground arith;
  partial = omega arith;
  shared = λ pos. absurd (omega (arith, pos));
}

abbrev first_set : ℕ → ℕ
first_set x = if x == 32 then 6 else 0

first_set-FindsFirst : FindsFirst first_set 0
first_set-FindsFirst = record { of_word = refl; below = λ k lt. absurd (omega (arith, lt)) }

free_page-lt : (q : ℕ) → is_free_page first_node q ≡ true → q < 4
unfolding is_free_page
free_page-lt q h = ground (arith, h)

map_page-is : (q : ℕ) → is_map_page first_node 5 q ≡ true → q ≡ 5
unfolding is_map_page
map_page-is q h = ground (arith, h)

first_node-apart : (q : ℕ) → is_map_page first_node 5 q ≡ true → is_free_page first_node q ≡ false
first_node-apart q h = elim (Bool-cases (is_free_page first_node q)) [
  | inl e ↦ absurd (omega (arith, free_page-lt q e, map_page-is q h))
  | inr e ↦ e
]

free_all_bootmem_core-HandedOver_example :
    Returns
      (HandedOver first_node 5 booting)
      (free_all_bootmem_core first_set first_node 5 0 booting)
free_all_bootmem_core-HandedOver_example =
    free_all_bootmem_core-HandedOver first_set first_node 5 0 booting first_set-FindsFirst
      (omega arith) first_node-Ready booting-Inv
      (λ q h. booting-Waiting q (omega (arith, free_page-lt q h)))
      (λ q h. booting-Waiting q (omega (arith, map_page-is q h))) first_node-apart

first_node-Inside : Inside first_node 5 0 16
first_node-Inside = record {
  node_from = omega arith;
  node_to = omega arith;
  map_from = omega arith;
  map_to = unfold whole_map_pages in omega arith;
  apart = first_node-apart;
}

-- A node whose second zone has the pages of the first node
abbrev sizes : ℕ → ℕ
sizes z = if z == 1 then 16 else 0

free_area_init_core-Booted_example : Returns (Booted first_node 5) (
    free_all_bootmem_core first_set first_node 5 0 (
      zone_of
        (free_area_init_core
          (λ _. 1)
          0
          sizes
          (λ _. 0)
          0
          (record { mem = full.mem; zone = λ _. full.zone }))
        (0 * max_nr_zones + 1)))
free_area_init_core-Booted_example =
    free_area_init_core-Booted (λ _. 1) first_set 0 sizes (λ _. 0) 0 1
      (record { mem = full.mem; zone = λ _. full.zone }) first_node 5 0 (omega arith) (omega arith)
      (λ q lo hi. refl) first_set-FindsFirst (omega arith) first_node-Ready first_node-Inside
