-- ===== src/Setup/Node.antt =====
-- The zones of a node after `free_area_init_core_bs` of mm/page_alloc.c.
use biscuit_os_memory.Common.{
  ℕ, zero, suc, ◌+◌, ◌*◌, ◌<◌, ◌≤◌, ◌≡◌, refl, ◌∙◌, sym, arith, inl, inr, false, leb, ltb, ◌==◌,
  ◌&&◌, ==-cases, ==_self, if◌then◌else◌, update, sum_below,
}
use biscuit_os_memory.Page.{Memory}
use biscuit_os_memory.Buddy.{Mm, bad_range}
use biscuit_os_memory.Fallback.{Zones, max_nr_zones}
use biscuit_os_memory.Fallback.First.{zone_of}
use biscuit_os_memory.Setup.Core.{
  nodezone, init_page, init_area, init_zone, init_zones, free_area_init_core,
}
use biscuit_os_memory.Setup.Fresh.{memmap_init_lem, Empty, Fresh, init_zone-Fresh}

init_zone_mem :
    (fls : ℕ → ℕ) (s : Mm) (node j size hole start_pfn q : ℕ)
    → (init_zone fls s node j size hole start_pfn).mem q ≡ (
        if leb start_pfn q && ltb q (start_pfn + size)
        then init_page (nodezone node j) (s.mem q)
        else s.mem q)
unfolding init_zone init_area
init_zone_mem fls s node j size hole start_pfn q = elim (==-cases size 0) [
  | inl (t, e) ↦ rw t (ground (arith, e))
  | inr (t, differ) ↦ rw t (memmap_init_lem size (nodezone node j) s.mem start_pfn q)
]

-- A zone without pages of its own stays so when pages of others change.
Empty-others :
    {start_pfn size : ℕ} (s : Mm) (m : Memory)
    → Empty start_pfn size s
    → ((q : ℕ) → start_pfn ≤ q → q < start_pfn + size → m q ≡ s.mem q)
    → Empty start_pfn size (record s { mem = m })
unfolding bad_range
Empty-others {start_pfn} {size} s m e same = record {
  inv = record {
    valid = record {
      counts = e.inv.valid.counts;
      blocks = λ order page o h. absurd (ground (arith, rw (e.no_block order o) at h));
      heads = λ order page o r h.
          let lo : start_pfn ≤ page = ground (arith, r, e.start) in
          let hi : page < start_pfn + size = ground (arith, r, e.start, e.spans) in
          e.inv.valid.heads order page o (rw (same page lo hi) at r) (rw (same page lo hi) at h);
      once = e.inv.valid.once;
      idle = λ page h. absurd (omega (arith, h, e.empty page));
    };
    counted = e.inv.counted;
    lengths = e.inv.lengths;
    placed = λ k q o h. absurd (ground (arith, rw (e.no_page k) at h));
    once = e.inv.once;
  };
  no_block = e.no_block;
  no_page = e.no_page;
  empty = e.empty;
  waiting = λ q lo hi.
      let w = e.waiting q lo hi in
      record {
        unheld = w.unheld;
        unused = rw (same q lo hi) w.unused;
        clean = rw (same q lo hi) w.clean;
        reserved = rw (same q lo hi) w.reserved;
        home = rw (same q lo hi) w.home;
        inside = record { lo = w.inside.lo; hi = w.inside.hi };
      };
  start = e.start;
  spans = e.spans;
}

sum_below_mono : (k n : ℕ) (f : ℕ → ℕ) → k ≤ n → sum_below k f ≤ sum_below n f
sum_below_mono k zero f le = let e : k ≡ 0 = omega (arith, le) in rw e (omega arith)
sum_below_mono k (suc n) f le = elim (==-cases k (suc n)) [
  | inl (_, e) ↦ rw e (omega arith)
  | inr (_, differ) ↦ omega (arith, sum_below_mono k n f (ground (arith, le, differ)))
]

sum_below-next : (k : ℕ) (f : ℕ → ℕ) → sum_below (k + 1) f ≡ f k + sum_below k f
sum_below-next k f = let same : k + 1 ≡ suc k = omega arith in rw same refl

module _ (fls : ℕ → ℕ) (node : ℕ) (sizes holes : ℕ → ℕ) where
  -- One round
  after : ℕ → ℕ → Zones → Mm
  after j start_pfn w =
      init_zone fls (zone_of w (node * max_nr_zones + j)) node j (sizes j) (holes j) start_pfn

  next : ℕ → ℕ → Zones → Zones
  unfolding after
  next j start_pfn w = record {
    mem = (after j start_pfn w).mem;
    zone = update w.zone (node * max_nr_zones + j) (after j start_pfn w).zone;
  }

  next-mem :
      (j start_pfn : ℕ) (w : Zones) (q : ℕ)
      → (leb start_pfn q && ltb q (start_pfn + sizes j)) ≡ false
      → (next j start_pfn w).mem q ≡ w.mem q
  unfolding next after
  next-mem j start_pfn w q out =
      init_zone_mem fls _ node j (sizes j) (holes j) start_pfn q ∙ rw out refl

  -- Later rounds leave the pages below, and the zones before, as they are.
  init_zones-mem :
      (rounds j start_pfn : ℕ) (w : Zones) (q : ℕ)
      → q < start_pfn
      → (init_zones fls node sizes holes rounds j start_pfn w).mem q ≡ w.mem q
  unfolding init_zones next after
  init_zones-mem zero j start_pfn w q lt = refl
  init_zones-mem (suc rounds) j start_pfn w q lt =
      init_zones-mem rounds (j + 1) (start_pfn + sizes j) (next j start_pfn w) q (omega (arith, lt))
      ∙ next-mem j start_pfn w q (ground (arith, lt))

  init_zones-zone :
      (rounds j start_pfn : ℕ) (w : Zones) (z : ℕ)
      → z < node * max_nr_zones + j
      → (init_zones fls node sizes holes rounds j start_pfn w).zone z ≡ w.zone z
  unfolding init_zones next after
  init_zones-zone zero j start_pfn w z lt = refl
  init_zones-zone (suc rounds) j start_pfn w z lt =
      let apart : (node * max_nr_zones + j == z) ≡ false = ground (arith, lt) in
      init_zones-zone rounds (j + 1) (start_pfn + sizes j) (next j start_pfn w) z
        (omega (arith, lt))
      ∙ rw apart refl

  -- The zones from `j` on, of which zone `i` is one; the first one starts at `start_pfn`.
  module _ (n base i : ℕ) (some_pages : 0 < sizes i) where
    -- The pages of the node from one on have no private mark.
    Clean : ℕ → Zones → Type 0
    Clean start_pfn w =
        (q : ℕ) → start_pfn ≤ q → q < base + sum_below n sizes → (w.mem q).flags.has_private ≡ false

    first-Empty :
        (rounds start_pfn : ℕ) (w : Zones)
        → i < n
        → start_pfn ≡ base + sum_below i sizes
        → Clean start_pfn w
        → Empty start_pfn (sizes i) (
            zone_of
              (init_zones fls node sizes holes rounds
                (i + 1)
                (start_pfn + sizes i)
                (next i start_pfn w))
              (node * max_nr_zones + i))
    unfolding next after Clean
    first-Empty rounds start_pfn w lt at clean = rw zone_is (
        Empty-others (after i start_pfn w) _ fresh.zone (λ q lo hi.
          init_zones-mem rounds (i + 1) (start_pfn + sizes i) (next i start_pfn w) q hi))
      where
        inside : start_pfn + sizes i ≤ base + sum_below n sizes
        inside =
            omega (
              arith,
              at,
              sum_below-next i sizes,
              sum_below_mono (i + 1) n sizes (omega (arith, lt)),
            )

        fresh :
            Fresh start_pfn (sizes i) (zone_of w (node * max_nr_zones + i)) (after i start_pfn w)
        fresh =
            init_zone-Fresh fls _ node i (sizes i) (holes i) start_pfn some_pages
              (λ q lo hi. clean q lo (omega (arith, hi, inside)))

        zone_is :
            (init_zones fls node sizes holes rounds
                (i + 1)
                (start_pfn + sizes i)
                (next i start_pfn w)).zone
              (node * max_nr_zones + i)
            ≡ (after i start_pfn w).zone
        zone_is =
            init_zones-zone rounds (i + 1) (start_pfn + sizes i) (next i start_pfn w)
              (node * max_nr_zones + i) (omega arith)
            ∙ rw (==_self (node * max_nr_zones + i)) refl

    init_zones-Empty :
        (rounds j start_pfn : ℕ) (w : Zones)
        → j ≤ i
        → i < n
        → j + rounds ≡ n
        → start_pfn ≡ base + sum_below j sizes
        → Clean start_pfn w
        → Empty (base + sum_below i sizes) (sizes i) (
            zone_of
              (init_zones fls node sizes holes rounds j start_pfn w)
              (node * max_nr_zones + i))
    unfolding init_zones next after Clean
    init_zones-Empty zero j start_pfn w le lt e at clean = absurd (omega (arith, le, lt, e))
    init_zones-Empty (suc rounds) j start_pfn w le lt e at clean = elim (==-cases j i) [
      | inl (_, same) ↦
          let there : start_pfn ≡ base + sum_below i sizes = at ∙ rw same refl in
          rw (sym there, same) (first-Empty rounds start_pfn w lt there clean)
      | inr (_, differ) ↦
          init_zones-Empty rounds (j + 1) (start_pfn + sizes j) (next j start_pfn w)
            (ground (arith, le, differ)) lt (omega (arith, e))
            (omega (arith, at, sum_below-next j sizes))
            (λ q lo hi.
              rw (next-mem j start_pfn w q (ground (arith, lo))) (clean q (omega (arith, lo)) hi))
    ]

-- Setting up the zones of a node, one behind the other, where no page of the node has a private
-- mark: each zone of at least one page is well formed and starts where the zones before it end,
-- it spans as many pages as it is given, its lists are empty, and every page of it waits to be
-- handed over: reserved, without users, and in this zone.
pub free_area_init_core-Empty :
    (fls : ℕ → ℕ) (node : ℕ) (sizes holes : ℕ → ℕ) (node_start_pfn i : ℕ) (w : Zones)
    → i < max_nr_zones
    → 0 < sizes i
    → ((q : ℕ)
        → node_start_pfn ≤ q
        → q < node_start_pfn + sum_below max_nr_zones sizes
        → (w.mem q).flags.has_private ≡ false)
    → Empty (node_start_pfn + sum_below i sizes) (sizes i) (
        zone_of
          (free_area_init_core fls node sizes holes node_start_pfn w)
          (node * max_nr_zones + i))
unfolding free_area_init_core Clean
free_area_init_core-Empty fls node sizes holes node_start_pfn i w lt some_pages clean =
    init_zones-Empty fls node sizes holes max_nr_zones node_start_pfn i some_pages max_nr_zones 0
      node_start_pfn w (omega arith) lt refl (omega arith) clean
