-- ===== src/Bootmem/Placed.antt =====
-- Where `__alloc_bootmem_core_bs` of mm/bootmem.c puts a buffer.
use biscuit_os_memory.Common.{
  ℕ, ◌+◌, ◌-◌, ◌*◌, ◌/◌, ◌%◌, ◌^◌, ◌<◌, ◌≤◌, ◌≡◌, refl, inl, inr, ◌⊎◌, arith, true, false, ltb,
  ◌==◌, ==→eq, ltb→lt, ◌&&◌, nonzero, leb-cases, ltb-cases, Bool-cases, if◌then◌else◌, bit_and,
  Returns, returns,
}
use biscuit_os_memory.Common.Bits.{bit_and-mask, bit_and-others, pow-pos, holds_below-at}
use biscuit_os_memory.Buddy.{word, add_word, sub_word}
use biscuit_os_memory.Vmalloc.{page_size}
use biscuit_os_memory.Bootmem.{Bootmem}
use biscuit_os_memory.Bootmem.Search.{
  mask_down, mask_up, Place, pages_of, place_apart, place_merged, place_at,
}
use Prim.Native.Nat.{◌∣◌}
use native.Mathlib.Nat.{
  mod-lt, div-add-mod', mul-mod_left, dvd_of_mod-eq-zero, le_of_dvd, dvd-sub, mod-eq-zero_of_dvd,
  dvd-add, dvd_refl, mul-dvd-mul, div-mul_cancel, dvd-mul_left_of_dvd,
}

-- Rounding with a mask goes up to the next multiple.
mask_up-lem :
    (x k : ℕ)
    → x + 2 ^ k ≤ word
    → (x ≤ mask_up x (2 ^ k)) × (mask_up x (2 ^ k) < x + 2 ^ k) × (mask_up x (2 ^ k) % 2 ^ k ≡ 0)
unfolding mask_up mask_down
mask_up-lem x k le =
    rw (sum, one_less, rounded)
      (
        omega (arith, div-add-mod' y (2 ^ k), mod-lt y (pow-pos k)),
        omega (arith, div-add-mod' y (2 ^ k), mod-lt y (pow-pos k)),
        mul-mod_left (y / 2 ^ k) (2 ^ k),
      )
  where
    y : ℕ
    y = x + 2 ^ k - 1

    sum : sub_word (add_word x (2 ^ k)) 1 ≡ y
    sum = omega (arith, le, pow-pos k)

    one_less : sub_word (2 ^ k) 1 ≡ 2 ^ k - 1
    one_less = omega (arith, le, pow-pos k)

    rounded : bit_and y (word - 1 - (2 ^ k - 1)) ≡ y / 2 ^ k * 2 ^ k
    rounded = omega (
      arith,
      bit_and-others 32 y (2 ^ k - 1) (omega (arith, le, pow-pos k)) (omega (arith, le, pow-pos k)),
      bit_and-mask k y,
      div-add-mod' y (2 ^ k),
    )

-- How many pages a node has
abbrev pub node_pages : Bootmem → ℕ
node_pages b = b.node_low_pfn - b.node_boot_start / page_size

-- A node whose map marks what lies behind it, and the page that the last buffer shares with the next
pub record Ready (b : Bootmem) : Type 0 where
  pub aligned : b.node_boot_start % page_size ≡ 0
  pub ordered : b.node_boot_start / page_size ≤ b.node_low_pfn
  pub words : b.node_low_pfn * page_size < word
  pub guard : (j : ℕ) → node_pages b ≤ j → b.node_bootmem_map j ≡ true
  pub partial : b.last_offset < page_size
  pub shared :
      0 < b.last_offset → (b.last_pos < node_pages b) × (b.node_bootmem_map b.last_pos ≡ true)

-- The place of a buffer fits the pages found at `start`.
pub record Fits (b : Bootmem) (size align start : ℕ) (p : Place) : Type 0 where
  pub no_more : p.areasize ≤ pages_of size
  pub to : p.ret + size ≤ b.node_boot_start + (start + p.areasize) * page_size
  pub tight :
      0 < p.areasize
      → b.node_boot_start + (start + p.areasize) * page_size < p.ret + size + page_size
  pub from :
      (p.ret ≡ b.node_boot_start + start * page_size)
      ⊎ ((0 < b.last_offset)
          × (b.last_pos + 1 ≡ start)
          × (b.node_boot_start + b.last_pos * page_size + b.last_offset ≤ p.ret)
          × (p.ret ≤ b.node_boot_start + start * page_size))
  pub aligned : p.ret % align ≡ 0
  pub partial : p.last_offset < page_size
  pub ends :
      0 < p.last_offset → p.ret + size ≡ b.node_boot_start + p.last_pos * page_size + p.last_offset
  pub shared :
      0 < p.last_offset
      → ((start ≤ p.last_pos) × (p.last_pos < start + p.areasize))
        ⊎ ((p.last_pos ≡ b.last_pos) × (0 < b.last_offset))

-- Enough pages of a node
pub record Room (b : Bootmem) (size start : ℕ) : Type 0 where
  pub in_node : start < node_pages b
  pub some_size : 0 < size
  pub small : size + page_size ≤ word
  pub enough : start + pages_of size ≤ node_pages b

-- The alignments that a word can hold divide the page, or are multiples of it.
page_or_power :
    (k : ℕ)
    → k < 32
    → (if ltb (2 ^ k) page_size then page_size % 2 ^ k == 0 else 2 ^ k % page_size == 0) ≡ true
page_or_power k lt =
    holds_below-at 32
      (λ k. if ltb (2 ^ k) page_size then page_size % 2 ^ k == 0 else 2 ^ k % page_size == 0) k lt
      refl

abbrev pub page_step : ℕ → ℕ
page_step align = if nonzero (align / page_size) then align / page_size else 1

power-dvd-pages : (k start : ℕ) → k < 32 → start % page_step (2 ^ k) ≡ 0 → 2 ^ k ∣ start * page_size
power-dvd-pages k start lt step = elim (ltb-cases (2 ^ k) page_size) [
  | inl (t, _) ↦
      dvd-mul_left_of_dvd (2 ^ k)
        (dvd_of_mod-eq-zero (2 ^ k) (==→eq (page_size % 2 ^ k) 0 (rw t at (page_or_power k lt))))
        start
  | inr (t, ge) ↦
      rw (div-mul_cancel page_size (of_pages t)) at
        (mul-dvd-mul (2 ^ k / page_size) page_size (steps ge) (dvd_refl page_size))
]
  where
    of_pages : ltb (2 ^ k) page_size ≡ false → page_size ∣ 2 ^ k
    of_pages t =
        dvd_of_mod-eq-zero page_size (==→eq (2 ^ k % page_size) 0 (rw t at (page_or_power k lt)))

    several : page_size ≤ 2 ^ k → nonzero (2 ^ k / page_size) ≡ true
    several ge = let pos : 0 < 2 ^ k / page_size = omega arith in ground (arith, pos)

    steps : page_size ≤ 2 ^ k → (2 ^ k / page_size) ∣ start
    steps ge = dvd_of_mod-eq-zero (2 ^ k / page_size) (rw (several ge) at step)

place_apart-Fits :
    (b : Bootmem) (size k start : ℕ)
    → k < 32
    → Ready b
    → Room b size start
    → b.node_boot_start % 2 ^ k ≡ 0
    → start % page_step (2 ^ k) ≡ 0
    → Fits b size (2 ^ k) start (place_apart b size start)
unfolding place_apart pages_of
place_apart-Fits b size k start lt r room base step =
    rw (address, last)
      (record {
        no_more = omega arith;
        to = omega (arith, room.small);
        tight = λ pos. omega (arith, room.small, room.some_size);
        from = inl refl;
        aligned =
            mod-eq-zero_of_dvd (2 ^ k)
              (dvd-add (2 ^ k) (dvd_of_mod-eq-zero (2 ^ k) base) (power-dvd-pages k start lt step));
        partial = omega arith;
        ends = λ pos. omega (arith, room.small, room.some_size, pos);
        shared = λ pos. inl (omega (arith, some_page), omega (arith, some_page));
      })
  where
    some_page : 0 < pages_of size
    some_page = omega (arith, room.small, room.some_size)

    address :
        add_word (start * page_size % word) b.node_boot_start
        ≡ b.node_boot_start + start * page_size
    address = omega (arith, r.aligned, r.words, room.in_node)

    last : sub_word (add_word start (pages_of size)) 1 ≡ start + pages_of size - 1
    last = omega (arith, r.words, room.enough, some_page)

-- Where the last buffer leaves off, up to the alignment, is still on its page, or at the end of it.
record Continues (b : Bootmem) (k offset : ℕ) : Type 0 where
  behind : b.last_offset ≤ offset
  on_page : offset ≤ page_size
  multiple : 2 ^ k ∣ offset

part_of_page : (k : ℕ) → k < 32 → ltb (2 ^ k) page_size ≡ true → 2 ^ k ∣ page_size
part_of_page k lt t =
    dvd_of_mod-eq-zero (2 ^ k) (==→eq (page_size % 2 ^ k) 0 (rw t at (page_or_power k lt)))

offset-Continues :
    (b : Bootmem) (k : ℕ)
    → k < 32
    → ltb (2 ^ k) page_size ≡ true
    → b.last_offset < page_size
    → Continues b k (mask_up b.last_offset (2 ^ k))
offset-Continues b k lt t part = record {
  behind = up.0;
  on_page = elim (leb-cases (mask_up b.last_offset (2 ^ k)) page_size) [
    | inl (_, le) ↦ le
    | inr (_, gt) ↦ absurd (
        omega (
          arith,
          up.1,
          le_of_dvd (omega (arith, gt))
              (dvd-sub (2 ^ k) (dvd_of_mod-eq-zero (2 ^ k) up.2) (part_of_page k lt t)),
        ))
  ];
  multiple = dvd_of_mod-eq-zero (2 ^ k) up.2;
}
  where
    up :
        (b.last_offset ≤ mask_up b.last_offset (2 ^ k))
        × (mask_up b.last_offset (2 ^ k) < b.last_offset + 2 ^ k)
        × (mask_up b.last_offset (2 ^ k) % 2 ^ k ≡ 0)
    up = mask_up-lem b.last_offset k (omega (arith, ltb→lt (2 ^ k) page_size t))

place_merged-Fits :
    (b : Bootmem) (size k start offset : ℕ)
    → Ready b
    → Room b size start
    → b.node_boot_start % 2 ^ k ≡ 0
    → 2 ^ k ∣ page_size
    → 0 < b.last_offset
    → b.last_pos + 1 ≡ start
    → Continues b k offset
    → Fits b size (2 ^ k) start (place_merged b size start offset)
unfolding place_merged pages_of
place_merged-Fits b size k start offset r room base part pos next c =
    elim (ltb-cases size (page_size - offset)) [
      | inl (t, fits) ↦
          rw (t, address)
            (record {
              no_more = omega arith;
              to = omega (arith, next);
              tight = λ some_page. absurd (omega (arith, some_page));
              from = inr (pos, next, omega (arith, c.behind), omega (arith, c.on_page, next));
              aligned = multiple;
              partial = omega arith;
              ends = λ some_left. omega arith;
              shared = λ some_left. inr (refl, pos);
            })
      | inr (t, over) ↦
          rw (t, address, last)
            (record {
              no_more = omega (arith, room.small);
              to = omega (arith, room.small, next, c.on_page);
              tight = λ some_page. omega (arith, room.small, next, c.on_page);
              from = inr (pos, next, omega (arith, c.behind), omega (arith, c.on_page, next));
              aligned = multiple;
              partial = omega arith;
              ends = λ some_left. omega (arith, room.small, next, c.on_page, over, some_left);
              shared = λ some_left. inl (
                omega (arith, room.small, over, some_left),
                omega (arith, room.small, over, some_left),
              );
            })
    ]
  where
    address :
        add_word (add_word (b.last_pos * page_size % word) offset) b.node_boot_start
        ≡ b.node_boot_start + b.last_pos * page_size + offset
    address = omega (arith, r.aligned, r.words, room.in_node, next, c.on_page)

    multiple : (b.node_boot_start + b.last_pos * page_size + offset) % 2 ^ k ≡ 0
    multiple = mod-eq-zero_of_dvd (2 ^ k) (
        dvd-add (2 ^ k)
          (dvd-add (2 ^ k) (dvd_of_mod-eq-zero (2 ^ k) base)
            (dvd-mul_left_of_dvd (2 ^ k) part b.last_pos))
          c.multiple)

    last :
        sub_word
          (add_word start (add_word (size - (page_size - offset)) (page_size - 1) / page_size))
          1
        ≡ start + add_word (size - (page_size - offset)) (page_size - 1) / page_size - 1
    last = omega (arith, r.words, room.enough, room.small, next)

-- The place of a buffer, on either branch
pub place_at-Fits :
    (b : Bootmem) (size k start : ℕ)
    → k < 32
    → Ready b
    → Room b size start
    → b.node_boot_start % 2 ^ k ≡ 0
    → start % page_step (2 ^ k) ≡ 0
    → Returns (Fits b size (2 ^ k) start) (place_at b size (2 ^ k) start)
unfolding place_at
place_at-Fits b size k start lt r room base step =
    elim (Bool-cases
      (ltb (2 ^ k) page_size && nonzero b.last_offset && add_word b.last_pos 1 == start)) [
        | inr t ↦ rw t (returns (place_apart-Fits b size k start lt r room base step))
        | inl t ↦
            let c = offset-Continues b k lt (small t) r.partial in
            rw (t, not_past c)
              (returns (
                place_merged-Fits b size k start (mask_up b.last_offset (2 ^ k)) r room base
                  (part_of_page k lt (small t)) (some_left t) (follows t) c))
      ]
  where
    small :
        (ltb (2 ^ k) page_size && nonzero b.last_offset && add_word b.last_pos 1 == start) ≡ true
        → ltb (2 ^ k) page_size ≡ true
    small t = ground (arith, t)

    some_left :
        (ltb (2 ^ k) page_size && nonzero b.last_offset && add_word b.last_pos 1 == start) ≡ true
        → 0 < b.last_offset
    some_left t = ground (arith, t)

    follows :
        (ltb (2 ^ k) page_size && nonzero b.last_offset && add_word b.last_pos 1 == start) ≡ true
        → b.last_pos + 1 ≡ start
    follows t =
        let one_more : add_word b.last_pos 1 ≡ start = ground (arith, t) in
        omega (arith, one_more, r.shared (some_left t), r.words)

    not_past :
        Continues b k (mask_up b.last_offset (2 ^ k))
        → ltb page_size (mask_up b.last_offset (2 ^ k)) ≡ false
    not_past c = ground (arith, c.on_page)
