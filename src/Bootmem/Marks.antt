-- ===== src/Bootmem/Marks.antt =====
-- Which pages the calls of the boot memory allocator mark.
use biscuit_os_memory.Common.{
  ℕ, zero, suc, ◌+◌, ◌-◌, ◌*◌, ◌/◌, ◌%◌, ◌<◌, ◌≤◌, ◌≡◌, sym, ◌∙◌, inl, inr, arith, Bool, true,
  false, ◌&&◌, leb, ltb, ◌==◌, ==-cases, if◌then◌else◌, update, Returns, returns, Returns-mono,
  Returns-bind,
}
use biscuit_os_memory.Buddy.{word, add_word, sub_word}
use biscuit_os_memory.Vmalloc.{page_size}
use biscuit_os_memory.Bootmem.{
  Bootmem, clear_bits, free_bootmem_core, set_bits, reserve_bootmem_core,
}

-- The page lies in the range as a whole, or has a byte of it.
unfoldable pub whole : ℕ → ℕ → ℕ → ℕ → Bool
whole start addr size i =
    leb addr (start + i * page_size) && leb (start + (i + 1) * page_size) (addr + size)

unfoldable pub touched : ℕ → ℕ → ℕ → ℕ → Bool
touched start addr size i =
    ltb (start + i * page_size) (addr + size) && ltb addr (start + (i + 1) * page_size)

within : ℕ → ℕ → ℕ → Bool
within i rounds j = leb i j && ltb j (i + rounds)

clear_bits-Returns :
    (rounds : ℕ) (map : ℕ → Bool) (i : ℕ)
    → ((j : ℕ) → i ≤ j → j < i + rounds → map j ≡ true)
    → Returns
        (λ map'. (j : ℕ) → map' j ≡ (if within i rounds j then false else map j))
        (clear_bits rounds map i)
unfolding clear_bits within
clear_bits-Returns zero map i h = returns (λ j. ground arith)
clear_bits-Returns (suc rounds) map i h = rw (h i (omega arith) (omega arith)) (
    Returns-mono (clear_bits-Returns rounds (update map i false) (i + 1) (λ j a b. still j a b))
      (λ map' g j. g j ∙ merged j))
  where
    still : (j : ℕ) → i + 1 ≤ j → j < i + 1 + rounds → update map i false j ≡ true
    still j a b = elim (==-cases i j) [
      | inl (_, e) ↦ absurd (omega arith)
      | inr (e, _) ↦ rw e (h j (omega arith) (omega arith))
    ]

    merged :
        (j : ℕ)
        → (if within (i + 1) rounds j then false else update map i false j)
          ≡ (if within i (suc rounds) j then false else map j)
    merged j = ground arith

within-true : (i rounds j : ℕ) → i ≤ j → j < i + rounds → within i rounds j ≡ true
unfolding within
within-true i rounds j a b = ground arith

set_bits-lem :
    (rounds : ℕ) (map : ℕ → Bool) (i j : ℕ)
    → set_bits rounds map i j ≡ (if within i rounds j then true else map j)
unfolding set_bits within
set_bits-lem zero map i j = ground arith
set_bits-lem (suc rounds) map i j = set_bits-lem rounds (update map i true) (i + 1) j ∙ ground arith

-- A range of the node, of bytes that words can number.
pub record Range (b : Bootmem) (addr size : ℕ) : Type 0 where
  pub some_size : 1 ≤ size
  pub aligned : b.node_boot_start % page_size ≡ 0
  pub from_start : b.node_boot_start ≤ addr
  pub words : addr + size + page_size < word

within-whole :
    (start addr size sidx eidx i : ℕ)
    → addr ≤ start + sidx * page_size
    → start + sidx * page_size < addr + page_size
    → start + eidx * page_size ≤ addr + size
    → addr + size < start + eidx * page_size + page_size
    → within sidx (eidx - sidx) i ≡ whole start addr size i
unfolding within whole
within-whole start addr size sidx eidx i a b c d = ground arith

within-touched :
    (start addr size sidx eidx i : ℕ)
    → start + sidx * page_size ≤ addr
    → addr < start + sidx * page_size + page_size
    → addr + size ≤ start + eidx * page_size
    → start + eidx * page_size < addr + size + page_size
    → within sidx (eidx - sidx) i ≡ touched start addr size i
unfolding within touched
within-touched start addr size sidx eidx i a b c d = ground arith

-- Freeing a range of one byte or more that starts in a node with an aligned start, ends below its
-- last page, and stays a page below 2^32, where the pages that lie in the range as a whole are
-- reserved: the call returns, exactly these pages become free, and every other page keeps its
-- mark.
pub free_bootmem_core-whole :
    (b : Bootmem) (addr size : ℕ)
    → Range b addr size
    → (addr + size) / page_size ≤ b.node_low_pfn
    → ((i : ℕ) → whole b.node_boot_start addr size i ≡ true → b.node_bootmem_map i ≡ true)
    → Returns
        (λ b'.
          (i : ℕ)
          → b'.node_bootmem_map i
            ≡ (if whole b.node_boot_start addr size i then false else b.node_bootmem_map i))
        (free_bootmem_core b addr size)
unfolding free_bootmem_core
free_bootmem_core-whole b addr size r low h =
    rw (some_size, low_enough)
      (Returns-bind (clear_bits-Returns (eidx - sidx) b.node_bootmem_map sidx reserved)
        (λ map g. returns (λ i. rw (same i) at (g i))))
  where
    eidx : ℕ
    eidx = sub_word (add_word addr size) b.node_boot_start / page_size

    sidx : ℕ
    sidx = sub_word (add_word addr (page_size - 1) / page_size) (b.node_boot_start / page_size)

    some_size : (size == 0) ≡ false
    some_size = ground (arith, r.some_size)

    low_enough : ltb b.node_low_pfn (add_word addr size / page_size) ≡ false
    low_enough =
        let fits : add_word addr size ≡ addr + size = omega (arith, r.words) in
        rw fits (ground (arith, low))

    same : (i : ℕ) → within sidx (eidx - sidx) i ≡ whole b.node_boot_start addr size i
    same i =
        within-whole b.node_boot_start addr size sidx eidx i
          (omega (arith, r.aligned, r.from_start, r.words))
          (omega (arith, r.aligned, r.from_start, r.words))
          (omega (arith, r.aligned, r.from_start, r.words))
          (omega (arith, r.aligned, r.from_start, r.words))

    reserved : (j : ℕ) → sidx ≤ j → j < sidx + (eidx - sidx) → b.node_bootmem_map j ≡ true
    reserved j p q = h j (sym (same j) ∙ within-true sidx (eidx - sidx) j p q)

-- Reserving a range of one byte or more that starts in a node with an aligned start, ends with
-- its last page below the node's end, and stays a page below 2^32: the call returns, exactly the
-- pages with a byte of the range become reserved, and every other page keeps its mark.
pub reserve_bootmem_core-touched :
    (b : Bootmem) (addr size : ℕ)
    → Range b addr size
    → (addr + size + (page_size - 1)) / page_size ≤ b.node_low_pfn
    → Returns
        (λ b'.
          (i : ℕ)
          → b'.node_bootmem_map i
            ≡ (if touched b.node_boot_start addr size i then true else b.node_bootmem_map i))
        (reserve_bootmem_core b addr size)
unfolding reserve_bootmem_core
reserve_bootmem_core-touched b addr size r low =
    rw (some_size, some_page, low_start, low_end)
      (returns (λ i. rw (same i) at (set_bits-lem (eidx - sidx) b.node_bootmem_map sidx i)))
  where
    sidx : ℕ
    sidx = sub_word addr b.node_boot_start / page_size

    eidx : ℕ
    eidx = add_word (sub_word (add_word addr size) b.node_boot_start) (page_size - 1) / page_size

    some_size : (size == 0) ≡ false
    some_size = ground (arith, r.some_size)

    some_page : leb eidx sidx ≡ false
    some_page =
        let more : sidx < eidx = omega (arith, r.aligned, r.from_start, r.words, r.some_size) in
        ground (arith, more)

    low_start : leb b.node_low_pfn (addr / page_size) ≡ false
    low_start =
        let more : addr / page_size < b.node_low_pfn = omega (arith, r.some_size, low) in
        ground (arith, more)

    low_end : ltb b.node_low_pfn (add_word (add_word addr size) (page_size - 1) / page_size) ≡ false
    low_end =
        let fits : add_word (add_word addr size) (page_size - 1) ≡ addr + size + (page_size - 1) =
          omega (arith, r.words) in
        rw fits (ground (arith, low))

    same : (i : ℕ) → within sidx (eidx - sidx) i ≡ touched b.node_boot_start addr size i
    same i =
        within-touched b.node_boot_start addr size sidx eidx i
          (omega (arith, r.aligned, r.from_start, r.words))
          (omega (arith, r.aligned, r.from_start, r.words))
          (omega (arith, r.aligned, r.from_start, r.words))
          (omega (arith, r.aligned, r.from_start, r.words))
