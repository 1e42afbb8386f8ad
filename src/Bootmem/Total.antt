-- ===== src/Bootmem/Total.antt =====
-- What `free_all_bootmem_core_bs` of mm/bootmem.c does as a whole.
use biscuit_os_memory.Common.{
  ℕ, zero, suc, ◌+◌, ◌-◌, ◌*◌, ◌/◌, ◌%◌, ◌^◌, ◌<◌, ◌≡◌, refl, ◌∙◌, inl, inr, arith, Bool, true,
  false, leb, ltb, ◌==◌, not, ◌&&◌, ◌||◌, ltb-cases, ==-cases, if◌then◌else◌, Returns, returns,
  Returns-bind, Returns-mono,
}
use biscuit_os_memory.Buddy.{Mm, sub_word}
use biscuit_os_memory.Buddy.Cover.{hit}
use biscuit_os_memory.Pcp.{nr_cpus}
use biscuit_os_memory.Pcp.Held.{Inv, held}
use biscuit_os_memory.Vmalloc.{page_size}
use biscuit_os_memory.Bootmem.{Bootmem}
use biscuit_os_memory.Bootmem.Placed.{node_pages, Ready}
use biscuit_os_memory.Bootmem.Handover.{
  bits_per_long, free_one, free_words, free_map, map_pages, free_all_bootmem_core,
}
use biscuit_os_memory.Bootmem.Handed.{Waiting, free_one-Taken}
use biscuit_os_memory.Bootmem.Sums.{
  free_sum, free_sum-add, free_sum-zero, free_sum-hit, free_sum-ones,
}
use biscuit_os_memory.Bootmem.Handing.{
  handed, Gain, AllWait, Gain-none, Gain-trans, Gain-AllWait, Gain-one, free_words-Gain,
}

-- A map in which the first `n` pages are free
abbrev pub first_pages : ℕ → ℕ → Bool
first_pages n j = leb n j

-- The loop over the pages of the map, of which there are `n`: as over a map with `n` free pages
module _ (n map_page cpu : ℕ) (c : cpu < nr_cpus) where
  free_map-Gain :
      (rounds : ℕ) (s : Mm) (i count : ℕ)
      → i + rounds ≡ n
      → Inv s
      → AllWait (first_pages n) map_page s i
      → Returns
          (Gain (first_pages n) map_page s count rounds i)
          (free_map rounds s cpu (map_page + i) count)
  unfolding free_map free_one
  free_map-Gain zero s i count e v w =
      returns (Gain-none (first_pages n) map_page s count 0 i v (λ j lo hi. absurd (omega arith)))
  free_map-Gain (suc rounds) s i count e v w =
      Returns-bind (free_one-Taken s cpu (map_page + i) c v (w i (omega arith) free)) (λ t k.
        let g : Gain (first_pages n) map_page s count 1 i (count + 1, t) =
          Gain-one (first_pages n) map_page count i free k in
        let shift : map_page + i + 1 ≡ map_page + (i + 1) = omega arith in
        Returns-mono
          (rw shift (
            free_map-Gain rounds t (i + 1) (count + 1) (omega (arith, e)) k.inv
              (Gain-AllWait (first_pages n) map_page count 1 i (i + 1) (omega arith) g w)))
          (λ r' h.
            Gain-trans (first_pages n) map_page count 1 rounds i (suc rounds) (i + 1) (omega arith)
              (omega arith) g h))
    where
      free : first_pages n i ≡ false
      free = ground (arith, e)

-- The pages of a node that its map has as free, and those of the map itself. A page of the map has 32768
-- bits. A last page that has the bits of fewer than 8 pages is left out: the hand-over does not free it.
unfoldable pub is_free_page : Bootmem → ℕ → Bool
is_free_page b q =
    let base = b.node_boot_start / page_size in
    leb base q && ltb q b.node_low_pfn && not (b.node_bootmem_map (q - base))

unfoldable pub is_map_page : Bootmem → ℕ → ℕ → Bool
is_map_page b map_page q = leb map_page q && leb ((q - map_page) * 32768 + 8) (node_pages b)

-- How many there are
unfoldable pub whole_map_pages : Bootmem → ℕ
whole_map_pages b = (node_pages b + 32760) / 32768

map_pages_lem : (b : Bootmem) → map_pages (node_pages b) ≡ whole_map_pages b
unfolding map_pages whole_map_pages
map_pages_lem b = omega arith

is_map_page_lem :
    (b : Bootmem) (map_page q : ℕ)
    → is_map_page b map_page q ≡ (leb map_page q && ltb q (map_page + map_pages (node_pages b)))
unfolding is_map_page map_pages
is_map_page_lem b map_page q = ground arith

-- All that waits is the page allocator's.
pub record HandedOver (b : Bootmem) (map_page : ℕ) (s : Mm) (r : ℕ × Mm) : Type 0 where
  pub inv : Inv (r.1)
  pub counted : r.0 ≡ free_sum b.node_bootmem_map (λ _. 1) (node_pages b) 0 + whole_map_pages b
  pub held :
      (q : ℕ)
      → held (r.1) q
        ≡ held s q
          + (if is_free_page b q then 1 else 0)
          + (if is_map_page b map_page q then 1 else 0)

-- `ffs(x)` is the number of the lowest bit of `x` that is set, from 1 on.
pub record FindsFirst (ffs : ℕ → ℕ) (x : ℕ) : Type 0 where
  pub of_word : ffs bits_per_long ≡ 6
  pub below : (k : ℕ) → k < ffs x → x % 2 ^ k ≡ 0

module _ (ffs : ℕ → ℕ) (b : Bootmem) (map_page cpu : ℕ) (s : Mm)
    (finds : FindsFirst ffs b.node_boot_start) (c : cpu < nr_cpus) (ready : Ready b) (v : Inv s)
    (pages_wait : (q : ℕ) → is_free_page b q ≡ true → Waiting s q)
    (map_waits : (q : ℕ) → is_map_page b map_page q ≡ true → Waiting s q)
    (apart : (q : ℕ) → is_map_page b map_page q ≡ true → is_free_page b q ≡ false) where
  base : ℕ
  base = b.node_boot_start / page_size

  rounds : ℕ
  rounds = node_pages b / bits_per_long + 1

  gofast : Bool
  gofast = b.node_boot_start == 0 || ltb 6 (ffs b.node_boot_start - 12)

  whole_words : gofast ≡ true → base % bits_per_long ≡ 0
  unfolding gofast base
  whole_words e = elim (==-cases b.node_boot_start 0) [
    | inl (_, z) ↦ omega (arith, z)
    | inr (t, _) ↦
        let far : 17 < ffs b.node_boot_start = ground (arith, e, t) in
        omega (arith, finds.below 17 far)
  ]

  is_free : (j : ℕ) → b.node_bootmem_map j ≡ false → is_free_page b (base + j) ≡ true
  unfolding base is_free_page
  is_free j e =
      let index : base + j - base ≡ j = omega arith in
      rw (index, e)
        (elim (ltb-cases j (node_pages b)) [
          | inl (_, lt) ↦ ground (arith, lt, ready.ordered)
          | inr (_, ge) ↦ absurd (ground (arith, ready.guard j ge, e))
        ])

  all_wait : AllWait b.node_bootmem_map base s 0
  unfolding base is_free_page
  all_wait j ge e = pages_wait (base + j) (is_free j e)

  words-Gain :
      Returns
        (Gain b.node_bootmem_map base s 0 (rounds * bits_per_long) 0)
        (free_words b.node_bootmem_map (node_pages b) base cpu rounds gofast 5 s 0 0)
  words-Gain =
      free_words-Gain b.node_bootmem_map base (node_pages b) cpu c ready.guard rounds gofast s 0 0
        whole_words (omega arith) v all_wait

  -- The sums over the rounds are those over the node.
  node_sum :
      (f : ℕ → ℕ)
      → free_sum b.node_bootmem_map f (rounds * bits_per_long) 0
        ≡ free_sum b.node_bootmem_map f (node_pages b) 0
  unfolding rounds
  node_sum f = omega (
    arith,
    free_sum-add b.node_bootmem_map f (node_pages b) (rounds * bits_per_long - node_pages b) 0
        (rounds * bits_per_long) (node_pages b) (omega arith) (omega arith),
    free_sum-zero b.node_bootmem_map f (rounds * bits_per_long - node_pages b) (node_pages b)
        (λ j lo hi e. absurd (ground (arith, ready.guard j lo, e))),
  )

  pages_handed :
      (q : ℕ)
      → handed b.node_bootmem_map base (rounds * bits_per_long) 0 q
        ≡ (if is_free_page b q then 1 else 0)
  unfolding is_free_page base
  pages_handed q =
      node_sum (λ j. hit (base + j) 0 q)
      ∙ free_sum-hit b.node_bootmem_map base (node_pages b) 0 q
      ∙ ground (arith, ready.ordered)

  map_handed :
      (q : ℕ)
      → handed (first_pages (map_pages (node_pages b))) map_page (map_pages (node_pages b)) 0 q
        ≡ (if is_map_page b map_page q then 1 else 0)
  map_handed q =
      free_sum-hit _ map_page (map_pages (node_pages b)) 0 q
      ∙ rw (is_map_page_lem b map_page q) (ground arith)

  end_index : sub_word b.node_low_pfn base ≡ node_pages b
  unfolding base
  end_index = omega (arith, ready.ordered, ready.words)

  map_Gain :
      (r : ℕ × Mm)
      → Gain b.node_bootmem_map base s 0 (rounds * bits_per_long) 0 r
      → Returns
          (Gain
            (first_pages (map_pages (node_pages b)))
            map_page
            (r.1)
            0
            (map_pages (node_pages b))
            0)
          (free_map (map_pages (node_pages b)) (r.1) cpu map_page 0)
  map_Gain r g = rw start at (
      free_map-Gain (map_pages (node_pages b)) map_page cpu c (map_pages (node_pages b)) (r.1) 0 0
        (omega arith) g.inv waits)
    where
      start : map_page + 0 ≡ map_page
      start = omega arith

      on_map :
          (j : ℕ)
          → first_pages (map_pages (node_pages b)) j ≡ false
          → is_map_page b map_page (map_page + j) ≡ true
      on_map j e = is_map_page_lem b map_page (map_page + j) ∙ ground (arith, e)

      waits : AllWait (first_pages (map_pages (node_pages b))) map_page (r.1) 0
      waits j ge e =
          g.waits (map_page + j)
            (pages_handed (map_page + j) ∙ rw (apart (map_page + j) (on_map j e)) refl)
            (map_waits (map_page + j) (on_map j e))

  total :
      (r q : ℕ × Mm)
      → Gain b.node_bootmem_map base s 0 (rounds * bits_per_long) 0 r
      → Gain
          (first_pages (map_pages (node_pages b)))
          map_page
          (r.1)
          0
          (map_pages (node_pages b))
          0
          q
      → HandedOver b map_page s (r.0 + q.0, q.1)
  total r q g h = record {
    inv = h.inv;
    counted = omega (arith, g.counted, h.counted, node_sum (λ _. 1), all_map, map_pages_lem b);
    held = λ p. omega (arith, g.held p, h.held p, pages_handed p, map_handed p);
  }
    where
      all_map :
          free_sum (first_pages (map_pages (node_pages b))) (λ _. 1) (map_pages (node_pages b)) 0
          ≡ map_pages (node_pages b)
      all_map = free_sum-ones _ (map_pages (node_pages b)) 0 (λ j lo hi. ground (arith, hi))

  -- Where ffs finds the lowest bit, the node is in order, the zone is well formed, and the pages
  -- that the map has as free, and those of the map that have the bits of 8 pages or more, of
  -- 32768 to a page, are apart, reserved, in the zone, without users, without a private mark and
  -- not held: the hand-over returns, the zone is well formed, it holds besides what it held
  -- exactly these pages, each once, and the number returned is that of the free pages of the node
  -- with those of the map. A last page of the map with the bits of fewer than 8 pages is not
  -- handed over.
  pub free_all_bootmem_core-HandedOver :
      Returns (HandedOver b map_page s) (free_all_bootmem_core ffs b map_page cpu s)
  unfolding free_all_bootmem_core base rounds gofast
  free_all_bootmem_core-HandedOver =
      rw (end_index, finds.of_word)
        (Returns-bind words-Gain
          (λ r g. Returns-bind (map_Gain r g) (λ q h. returns (total r q g h))))
