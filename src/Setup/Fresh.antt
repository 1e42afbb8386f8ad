-- ===== src/Setup/Fresh.antt =====
-- A zone after its set-up in mm/page_alloc.c.
use biscuit_os_memory.Common.{
  ℕ, zero, suc, ◌+◌, ◌%◌, ◌<◌, ◌≤◌, ◌≡◌, refl, ◌∙◌, sym, arith, inl, inr, false, leb, ltb, ◌==◌,
  ◌&&◌, ==-cases, ==_self, if◌then◌else◌, update, [], lt→ltb, Bool-cases, sum_below-ext,
}
use biscuit_os_memory.Page.{Memory, page_is_buddy}
use biscuit_os_memory.Buddy.{Mm, max_order, bad_range, sub_word}
use biscuit_os_memory.Buddy.Cover.{cover, count_in, total}
use biscuit_os_memory.Buddy.Valid.{Valid}
use biscuit_os_memory.Pcp.Bulk.{Counted}
use biscuit_os_memory.Pcp.Held.{Inv, held, parked, slots}
use biscuit_os_memory.Bootmem.Handed.{Waiting}
use biscuit_os_memory.Setup.Core.{
  nodezone, init_page, memmap_init, pcp_batch, init_pcp, zone_init_free_lists, init_counts,
  init_area, init_zone,
}

pub memmap_init_lem :
    (size index : ℕ) (mem : Memory) (page q : ℕ)
    → memmap_init size index mem page q
      ≡ (if leb page q && ltb q (page + size) then init_page index (mem q) else mem q)
unfolding memmap_init
memmap_init_lem zero index mem page q = ground arith
memmap_init_lem (suc size) index mem page q =
    memmap_init_lem size index (update mem page (init_page index (mem page))) (page + 1) q ∙ merged
  where
    merged :
        (if leb (page + 1) q && ltb q (page + 1 + size)
          then init_page index (update mem page (init_page index (mem page)) q)
          else update mem page (init_page index (mem page)) q)
        ≡ (if leb page q && ltb q (page + suc size) then init_page index (mem q) else mem q)
    merged = elim (==-cases page q) [
      | inl (_, e') ↦ rw (sym e', ==_self page) (ground arith)
      | inr (e, differ) ↦ rw e (ground arith)
    ]

module _ (s : Mm) (index size start_pfn : ℕ) (lists : (k : ℕ) → (s.zone.pcp k).list ≡ [])
    (counts : (k : ℕ) → (s.zone.pcp k).count ≡ 0) (none_free : s.zone.free_pages ≡ 0)
    (spans : s.zone.spanned_pages ≡ size)
    (clean : (q : ℕ)
      → start_pfn ≤ q
      → q < start_pfn + size
      → (s.mem q).flags.has_private ≡ false) where
  t : Mm
  t = init_area s index size start_pfn

  t-cover : (q : ℕ) → cover t.zone.free_list q ≡ 0
  unfolding t init_area zone_init_free_lists cover count_in
  t-cover q = refl

  t-parked : (q : ℕ) → parked t.zone.pcp q ≡ 0
  unfolding t init_area zone_init_free_lists parked count_in
  t-parked q =
      sum_below-ext slots (λ k. count_in 0 q (s.zone.pcp k).list) (λ _. 0)
        (λ k h. rw (lists k) refl)

  t-empty : (q : ℕ) → held t q ≡ 0
  t-empty q = omega (arith, t-cover q, t-parked q)

  t-page : (q : ℕ) → start_pfn ≤ q → q < start_pfn + size → t.mem q ≡ init_page index (s.mem q)
  unfolding t init_area
  t-page q lo hi = memmap_init_lem size index s.mem start_pfn q ∙ ground (arith, lo, hi)

  -- No page of the zone passes for a free block.
  t-clean :
      (q order : ℕ)
      → order < max_order
      → bad_range t q ≡ false
      → page_is_buddy (t.mem q) order ≡ false
  unfolding t init_area bad_range zone_init_free_lists
  t-clean q order o inside =
      let lo : start_pfn ≤ q = ground (arith, inside) in
      let hi : q < start_pfn + size = ground (arith, inside, spans) in
      rw (t-page q lo hi) (not_buddy q order (clean q lo hi))
    where
      not_buddy :
          (q order : ℕ)
          → (s.mem q).flags.has_private ≡ false
          → page_is_buddy (init_page index (s.mem q)) order ≡ false
      not_buddy q order e = unfold page_is_buddy init_page in rw e refl

  t-Valid : Valid t
  unfolding t init_area zone_init_free_lists
  t-Valid = record {
    counts = λ order o. rw (lt→ltb order max_order o) refl;
    blocks = λ order page o h. absurd (ground (arith, rw (lt→ltb order max_order o) at h));
    heads = λ order page o r h. absurd (ground (arith, t-clean page order o r, h));
    once = λ page. omega (arith, t-cover page);
    idle = λ page h. absurd (omega (arith, h, t-cover page));
  }

  t-Counted : Counted t
  unfolding t init_area zone_init_free_lists total
  t-Counted = rw none_free refl

  t-Inv : Inv t
  unfolding t init_area zone_init_free_lists
  t-Inv = record {
    valid = t-Valid;
    counted = t-Counted;
    lengths = λ k o. rw (lists k) (counts k);
    placed = λ k q o h. absurd (ground (arith, rw (lists k) at h));
    once = λ q. omega (arith, t-cover q, t-parked q);
  }

  t-Waiting : (q : ℕ) → start_pfn ≤ q → q < start_pfn + size → Waiting t q
  unfolding t
  t-Waiting q lo hi = record {
    unheld = omega (arith, t-cover q, t-parked q);
    unused = rw (t-page q lo hi) (unfold init_page in refl);
    clean = rw (t-page q lo hi) (unfold init_page in clean q lo hi);
    reserved = rw (t-page q lo hi) (unfold init_page in refl);
    home = rw (t-page q lo hi) (unfold init_page init_area zone_init_free_lists in refl);
    inside =
        unfold init_area zone_init_free_lists in record { lo = lo; hi = omega (arith, hi, spans) };
  }

init_pcp-empty : (batch k : ℕ) → ((init_pcp batch k).list ≡ []) × ((init_pcp batch k).count ≡ 0)
unfolding init_pcp
init_pcp-empty batch k = elim (Bool-cases (k % 2 == 0)) [
  | inl e ↦ rw e (refl, refl)
  | inr e ↦ rw e (refl, refl)
]

-- A zone that is set up: well formed, with nothing to give, and every page waits for the hand-over.
pub record Empty (start_pfn size : ℕ) (t : Mm) : Type 0 where
  pub inv : Inv t
  pub no_block : (order : ℕ) → order < max_order → t.zone.free_list order ≡ []
  pub no_page : (k : ℕ) → (t.zone.pcp k).list ≡ []
  pub empty : (q : ℕ) → held t q ≡ 0
  pub waiting : (q : ℕ) → start_pfn ≤ q → q < start_pfn + size → Waiting t q
  pub start : t.zone.zone_start_pfn ≡ start_pfn
  pub spans : t.zone.spanned_pages ≡ size

-- Besides, no other page has changed.
pub record Fresh (start_pfn size : ℕ) (s t : Mm) : Type 0 where
  pub zone : Empty start_pfn size t
  pub others : (q : ℕ) → (leb start_pfn q && ltb q (start_pfn + size)) ≡ false → t.mem q ≡ s.mem q

pub init_zone-Fresh :
    (fls : ℕ → ℕ) (s : Mm) (node zone_number size hole start_pfn : ℕ)
    → 0 < size
    → ((q : ℕ) → start_pfn ≤ q → q < start_pfn + size → (s.mem q).flags.has_private ≡ false)
    → Fresh start_pfn size s (init_zone fls s node zone_number size hole start_pfn)
unfolding init_zone init_counts t
init_zone-Fresh fls s node zone_number size hole start_pfn pos clean = rw some_pages (record {
  zone = record {
    inv = t-Inv counted index size start_pfn lists counts refl refl clean;
    no_block =
        λ order o. unfold init_area zone_init_free_lists in rw (lt→ltb order max_order o) refl;
    no_page = λ k. unfold init_area zone_init_free_lists in lists k;
    empty = t-empty counted index size start_pfn lists counts refl refl clean;
    waiting = t-Waiting counted index size start_pfn lists counts refl refl clean;
    start = unfold init_area zone_init_free_lists in refl;
    spans = unfold init_area zone_init_free_lists in refl;
  };
  others =
      λ q out. unfold init_area in (memmap_init_lem size index s.mem start_pfn q ∙ rw out refl);
})
  where
    index : ℕ
    index = nodezone node zone_number

    counted : Mm
    counted = record s { zone = init_counts fls s.zone zone_number size (sub_word size hole) }

    some_pages : (size == 0) ≡ false
    some_pages = ground (arith, pos)

    lists : (k : ℕ) → (counted.zone.pcp k).list ≡ []
    lists k = (init_pcp-empty (pcp_batch fls (sub_word size hole)) k).0

    counts : (k : ℕ) → (counted.zone.pcp k).count ≡ 0
    counts k = (init_pcp-empty (pcp_batch fls (sub_word size hole)) k).1
