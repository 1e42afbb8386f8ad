-- ===== src/Bootmem/Init.antt =====
-- The start of the boot memory allocator of mm/bootmem.c for a node.
use biscuit_os_memory.Common.{
  ℕ, ◌+◌, ◌-◌, ◌*◌, ◌/◌, ◌%◌, ◌<◌, ◌≤◌, ◌≡◌, arith, Bool, true, ltb, ltb-cases, inl, inr,
  if◌then◌else◌, bit_and, refl,
}
use biscuit_os_memory.Common.Bits.{bit_and-mask, bit_and-others}
use biscuit_os_memory.Buddy.{word, add_word, sub_word}
use biscuit_os_memory.Vmalloc.{page_size}
use biscuit_os_memory.Bootmem.{Bootmem}
use biscuit_os_memory.Bootmem.Placed.{Ready}

-- `bootmem_bootmap_pages_bs`
unfoldable pub bootmem_bootmap_pages : ℕ → ℕ
bootmem_bootmap_pages pages =
    bit_and (add_word (add_word pages 7 / 8) (page_size - 1)) (word - page_size) / page_size

-- The bytes of the map, in whole words of 4
unfoldable pub map_bytes : ℕ → ℕ
map_bytes pages = bit_and (add_word (add_word pages 7 / 8) 3) (word - 1 - 3)

-- `init_bootmem_core_bs`: the node and the size of its map. The list of nodes and the address of the map
-- are left out; `map` is what the memory behind the map reads as.
unfoldable pub init_bootmem_core : Bootmem → (ℕ → Bool) → ℕ → ℕ → ℕ × Bootmem
unfolding map_bytes
init_bootmem_core b map start end =
    let mapsize = map_bytes (sub_word end start) in
    (
      mapsize,
      record b {
        node_bootmem_map = λ i. if ltb i (mapsize * 8) then true else map i;
        node_boot_start = start * page_size % word;
        node_low_pfn = end;
      },
    )

-- The map has a bit for each page, on whole words, with no word too many.
map_bytes-cover :
    (pages : ℕ)
    → pages + 64 ≤ word
    → (pages ≤ map_bytes pages * 8) × (map_bytes pages * 8 < pages + 32) × (map_bytes pages % 4 ≡ 0)
unfolding map_bytes
map_bytes-cover pages small = omega (
  arith,
  bit_and-others 32 (add_word (add_word pages 7 / 8) 3) 3 (omega arith) (omega arith),
  bit_and-mask 2 (add_word (add_word pages 7 / 8) 3),
)

-- A node that has no buffer yet, where what lies behind the map reads as reserved
pub init_bootmem_core-Ready :
    (b : Bootmem) (map : ℕ → Bool) (start end : ℕ)
    → start ≤ end
    → end * page_size < word
    → b.last_offset ≡ 0
    → ((i : ℕ) → end - start ≤ i → map i ≡ true)
    → Ready ((init_bootmem_core b map start end).1)
unfolding init_bootmem_core
init_bootmem_core-Ready b map start end le small fresh behind = record {
  aligned = omega (arith, small, le);
  ordered = omega (arith, small, le);
  words = small;
  guard = λ j ge. elim (ltb-cases j (map_bytes (sub_word end start) * 8)) [
    | inl (t, _) ↦ rw t refl
    | inr (t, _) ↦ rw t (behind j (omega (arith, ge, small, le)))
  ];
  partial = omega (arith, fresh);
  shared = λ pos. absurd (omega (arith, fresh, pos));
}
