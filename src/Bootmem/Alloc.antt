-- ===== src/Bootmem/Alloc.antt =====
-- What `__alloc_bootmem_core_bs` of mm/bootmem.c hands out.
use biscuit_os_memory.Common.{
  ℕ, zero, suc, ◌+◌, ◌-◌, ◌*◌, ◌/◌, ◌%◌, ◌^◌, ◌<◌, ◌≤◌, ◌≡◌, ap, refl, ◌∙◌, inl, inr, ◌⊎◌, arith,
  Bool, true, false, leb, ltb, ◌==◌, ltb→lt, ◌&&◌, nonzero, ltb-cases, ==-cases, Bool-cases,
  Option-cases, if◌then◌else◌, Option, none, some, bit_and, update, Returns, returns, Returns-bind,
  Returns-mono,
}
use biscuit_os_memory.Common.Bits.{bit_and-mask, pow-pos, holds_below-at}
use native.Mathlib.Nat.{mod_self}
use biscuit_os_memory.Buddy.{word, sub_word}
use biscuit_os_memory.Vmalloc.{page_size}
use biscuit_os_memory.Vmalloc.Areas.{RoundsUp}
use biscuit_os_memory.Bootmem.{Bootmem}
use biscuit_os_memory.Bootmem.Marks.{touched}
use biscuit_os_memory.Bootmem.Search.{
  Place, pages_of, reserve_area, take_pages, scan, restart, find_start, start_offset,
  preferred_page, alloc_bootmem_core,
}
use biscuit_os_memory.Bootmem.Found.{Free, Blocked, FindsZero, scan-Free, scan-Blocked}
use biscuit_os_memory.Bootmem.Placed.{node_pages, page_step, Ready, Room, Fits, place_at-Fits}

abbrev among : ℕ → ℕ → ℕ → Bool
among start count j = leb start j && ltb j (start + count)

reserve_area-among :
    (rounds : ℕ) (map : ℕ → Bool) (i : ℕ)
    → ((j : ℕ) → i ≤ j → j < i + rounds → map j ≡ false)
    → Returns
        (λ map'. (j : ℕ) → map' j ≡ (if among i rounds j then true else map j))
        (reserve_area rounds map i)
unfolding reserve_area
reserve_area-among zero map i h = returns (λ j. ground arith)
reserve_area-among (suc rounds) map i h = rw (h i (omega arith) (omega arith)) (
    Returns-mono (reserve_area-among rounds (update map i true) (i + 1) still)
      (λ map' g j. g j ∙ merged j))
  where
    still : (j : ℕ) → i + 1 ≤ j → j < i + 1 + rounds → update map i true j ≡ false
    still j a b = elim (==-cases i j) [
      | inl (_, e) ↦ absurd (omega arith)
      | inr (e, _) ↦ rw e (h j (omega arith) (omega arith))
    ]

    merged :
        (j : ℕ)
        → (if among (i + 1) rounds j then true else update map i true j)
          ≡ (if among i (suc rounds) j then true else map j)
    merged j = ground arith

-- A buffer that is handed out: it lies in the node, aligned, on pages that were free and now are not, but
-- for the part of the last buffer's last page that was left; every other page keeps its mark.
pub record Given (b : Bootmem) (size align ret : ℕ) (b' : Bootmem) : Type 0 where
  pub from : b.node_boot_start ≤ ret
  pub to : ret + size ≤ b.node_low_pfn * page_size
  pub aligned : ret % align ≡ 0
  pub mine :
      (i : ℕ)
      → touched b.node_boot_start ret size i ≡ true
      → (b'.node_bootmem_map i ≡ true)
        × ((b.node_bootmem_map i ≡ false)
            ⊎ ((i ≡ b.last_pos)
                × (0 < b.last_offset)
                × (b.node_boot_start + b.last_pos * page_size + b.last_offset ≤ ret)))
  pub others :
      (i : ℕ)
      → touched b.node_boot_start ret size i ≡ false
      → b'.node_bootmem_map i ≡ b.node_bootmem_map i
  pub same_start : b'.node_boot_start ≡ b.node_boot_start
  pub same_end : b'.node_low_pfn ≡ b.node_low_pfn
  pub left :
      0 < b'.last_offset → ret + size ≡ b.node_boot_start + b'.last_pos * page_size + b'.last_offset
  pub ready : Ready b'

after : Bootmem → ℕ → Place → (ℕ → Bool) → Bootmem
after b start p map = record b {
  node_bootmem_map = map;
  last_offset = p.last_offset;
  last_pos = p.last_pos;
  last_success = start * page_size % word;
}

module _ (b : Bootmem) (size k start : ℕ) (p : Place) (map : ℕ → Bool) (r : Ready b)
    (room : Room b size start) (fits : Fits b size (2 ^ k) start p)
    (free : (j : ℕ) → start ≤ j → j < start + p.areasize → b.node_bootmem_map j ≡ false)
    (taken : (j : ℕ)
      → map j ≡ (if among start p.areasize j then true else b.node_bootmem_map j)) where
  kept : (j : ℕ) → b.node_bootmem_map j ≡ true → map j ≡ true
  kept j e = ground (arith, taken j, e)

  touched-mine :
      (i : ℕ)
      → touched b.node_boot_start p.ret size i ≡ true
      → (map i ≡ true)
        × ((b.node_bootmem_map i ≡ false)
            ⊎ ((i ≡ b.last_pos)
                × (0 < b.last_offset)
                × (b.node_boot_start + b.last_pos * page_size + b.last_offset ≤ p.ret)))
  unfolding touched
  touched-mine i t = elim (ltb-cases i start) [
    | inl (_, lt) ↦ elim (fits.from) [
      | inl here ↦ absurd (ground (arith, here, t))
      | inr (pos, next, behind, upto) ↦
          let last : i ≡ b.last_pos = ground (arith, t, next, behind) in
          (kept i (ap b.node_bootmem_map last ∙ (r.shared pos).1), inr (last, pos, behind))
    ]
    | inr (_, ge) ↦
        let lt : i < start + p.areasize = ground (arith, fits.to, t) in
        (ground (arith, taken i), inl (free i ge lt))
  ]

  not_after : p.ret ≤ b.node_boot_start + start * page_size
  not_after = elim (fits.from) [ inl here ↦ omega (arith, here) | inr merged ↦ merged.3 ]

  not_before : b.node_boot_start ≤ p.ret
  not_before = elim (fits.from) [
    | inl here ↦ omega (arith, here)
    | inr merged ↦ omega (arith, merged.2)
  ]

  not_out :
      (i : ℕ)
      → touched b.node_boot_start p.ret size i ≡ false
      → start ≤ i
      → ¬ (i < start + p.areasize)
  unfolding touched
  not_out i t ge lt = absurd (ground (arith, t, not_after, fits.tight (omega arith), ge, lt))

  untouched-others :
      (i : ℕ) → touched b.node_boot_start p.ret size i ≡ false → map i ≡ b.node_bootmem_map i
  unfolding touched
  untouched-others i t = elim (Bool-cases (among start p.areasize i)) [
    | inr out ↦ taken i ∙ rw out refl
    | inl inside ↦ absurd (not_out i t (ground (arith, inside)) (ground (arith, inside)))
  ]

  Fits-Given : Given b size (2 ^ k) p.ret (after b start p map)
  unfolding after
  Fits-Given = record {
    from = not_before;
    to = omega (arith, fits.to, fits.no_more, room.enough, r.aligned, r.ordered);
    aligned = fits.aligned;
    mine = touched-mine;
    others = untouched-others;
    same_start = refl;
    same_end = refl;
    left = fits.ends;
    ready = record {
      aligned = r.aligned;
      ordered = r.ordered;
      words = r.words;
      guard = λ j ge. kept j (r.guard j ge);
      partial = fits.partial;
      shared = λ pos. elim (fits.shared pos) [
        | inl (ge, lt) ↦
            (omega (arith, lt, fits.no_more, room.enough), ground (arith, taken p.last_pos, ge, lt))
        | inr (last, pos') ↦ (
          omega (arith, last, r.shared pos'),
          kept p.last_pos (ap b.node_bootmem_map last ∙ (r.shared pos').1),
        )
      ];
    };
  }

-- A request is refused, with every place that the alignment by pages allows blocked, or granted.
pub data Outcome (b : Bootmem) (size align : ℕ) : Option ℕ × Bootmem → Type 0 where
  refused :
      (align ≤ page_size
        → (s : ℕ) → s + pages_of size ≤ node_pages b
        → (p : ℕ) × Blocked b.node_bootmem_map s (pages_of size) p)
      → Outcome b size align (none, b)
  granted :
      {ret : ℕ} {b' : Bootmem} → Given b size align ret b' → Outcome b size align (some ret, b')

word_power : (k : ℕ) → k < 32 → 2 ^ k < word
word_power k lt = ltb→lt (2 ^ k) word (holds_below-at 32 (λ k. ltb (2 ^ k) word) k lt refl)

module _ (b : Bootmem) (size k : ℕ) (lt : k < 32) (r : Ready b) (some_size : 0 < size)
    (small : size + page_size ≤ word) (base : b.node_boot_start % 2 ^ k ≡ 0) where
  end_index : sub_word b.node_low_pfn (b.node_boot_start / page_size) ≡ node_pages b
  end_index = omega (arith, r.ordered, r.words)

  some_pages : 0 < pages_of size
  unfolding pages_of
  some_pages = omega (arith, some_size, small)

  take_pages-Outcome :
      (start : ℕ)
      → Free b.node_bootmem_map (node_pages b) start (pages_of size)
        × (start % page_step (2 ^ k) ≡ 0)
      → Returns (Outcome b size (2 ^ k)) (take_pages b size (2 ^ k) (some start))
  unfolding take_pages after
  take_pages-Outcome start f =
      rw (end_index, not_behind)
        (Returns-bind (place_at-Fits b size k start lt r room base f.1) (λ p fits.
          Returns-bind (reserve_area-among p.areasize b.node_bootmem_map start (free p fits))
            (λ map taken.
              returns (granted (Fits-Given b size k start p map r room fits (free p fits) taken)))))
    where
      not_behind : leb (node_pages b) start ≡ false
      not_behind = ground (arith, (f.0).in_node)

      room : Room b size start
      room = record {
        in_node = (f.0).in_node;
        some_size = some_size;
        small = small;
        enough = omega (
          arith,
          some_pages,
          (f.0).inside (start + pages_of size - 1) (omega (arith, some_pages))
              (omega (arith, some_pages)),
        );
      }

      free :
          (p : Place)
          → Fits b size (2 ^ k) start p
          → (j : ℕ) → start ≤ j
          → j < start + p.areasize
          → b.node_bootmem_map j ≡ false
      free p fits j ge below = (f.0).free j ge (omega (arith, below, fits.no_more))

  one_less : sub_word (2 ^ k) 1 ≡ 2 ^ k - 1
  one_less = omega (arith, word_power k lt, pow-pos k)

  power : nonzero (bit_and (2 ^ k) (sub_word (2 ^ k) 1)) ≡ false
  power =
      let none_left : bit_and (2 ^ k) (sub_word (2 ^ k) 1) ≡ 0 =
        rw one_less (bit_and-mask k (2 ^ k) ∙ mod_self (2 ^ k)) in
      rw none_left refl

  start_offset-zero : start_offset b (2 ^ k) ≡ 0
  unfolding start_offset
  start_offset-zero =
      let even : bit_and b.node_boot_start (sub_word (2 ^ k) 1) ≡ 0 =
        rw one_less (bit_and-mask k b.node_boot_start ∙ base) in
      rw even (ground arith)

  few : node_pages b + pages_of size + 2 * page_step (2 ^ k) < word
  unfolding pages_of
  few = ground (arith, word_power k lt, r.words)

  module _ (align_up : ℕ → ℕ → ℕ) (find : (ℕ → Bool) → ℕ → ℕ → ℕ) (goal : ℕ)
      (zeros : FindsZero find)
      (up : RoundsUp align_up
        (page_step (2 ^ k))
        (node_pages b + pages_of size + page_step (2 ^ k))) where
    search : ℕ → Option ℕ
    search i =
        scan align_up find b.node_bootmem_map (node_pages b) (pages_of size) (page_step (2 ^ k))
          (node_pages b + 1) i

    search-Outcome :
        (i s : ℕ)
        → search i ≡ some s
        → Returns (Outcome b size (2 ^ k)) (take_pages b size (2 ^ k) (some s))
    unfolding search
    search-Outcome i s e = take_pages-Outcome s (
        scan-Free align_up find b.node_bootmem_map (node_pages b) (pages_of size)
          (page_step (2 ^ k)) zeros up few (node_pages b + 1) i s r.guard e)

    search-refused :
        search 0 ≡ none → Returns (Outcome b size (2 ^ k)) (take_pages b size (2 ^ k) none)
    unfolding search take_pages
    search-refused e = returns (
        refused (λ by_page s le.
          scan-Blocked align_up find b.node_bootmem_map (node_pages b) (pages_of size)
            (page_step (2 ^ k)) zeros up few (node_pages b + 1) 0 s (ground (arith, by_page))
            some_pages (omega arith) (omega arith) le e))

    restart-Outcome :
        (preferred : ℕ)
        → Returns
            (Outcome b size (2 ^ k))
            (take_pages b size (2 ^ k) (restart (search preferred) (ltb 0 preferred) (search 0)))
    unfolding restart
    restart-Outcome preferred = elim (Option-cases (search preferred)) [
      | inr (s, e) ↦ rw e (search-Outcome preferred s e)
      | inl e ↦ elim (ltb-cases 0 preferred) [
        | inr (t, le) ↦
            let at_start : preferred ≡ 0 = omega (arith, le) in
            rw (e, t) (search-refused (rw at_start at e))
        | inl (t, _) ↦ elim (Option-cases (search 0)) [
          | inr (s, e') ↦ rw (e, t, e') (search-Outcome 0 s e')
          | inl e' ↦ rw (e, t, e') (search-refused e')
        ]
      ]
    ]

    -- In a node in order whose start has the alignment, a power of two below 2^32, for a size of
    -- one byte or more with a page left below 2^32, where ALIGN and find_next_zero_bit do what
    -- they say: the call returns. It gives a buffer inside the node, aligned, on pages that were
    -- free and now are reserved, but for what the last buffer left of its page, changes no other
    -- page's mark, and leaves the node in order, with what is left of the last page behind the
    -- buffer; or it gives none, and then, if the alignment is at most a page, each run of as many
    -- pages has one that is reserved.
    pub alloc_bootmem_core-Outcome :
        Returns (Outcome b size (2 ^ k)) (alloc_bootmem_core align_up find b size (2 ^ k) goal)
    unfolding alloc_bootmem_core find_start search
    alloc_bootmem_core-Outcome =
        rw (nonempty, power, end_index, start_offset-zero)
          (restart-Outcome (preferred_page b (2 ^ k) goal))
      where
        nonempty : (size == 0) ≡ false
        nonempty = ground (arith, some_size)
