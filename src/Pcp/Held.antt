-- ===== src/Pcp/Held.antt =====
-- The pages that a zone holds back for its users: those of its free blocks and those on its page
-- lists. The invariant of the zone, and the changes of one page and of one list that keep it.
use biscuit_os_memory.Common.{
  ℕ, ◌+◌, ◌<◌, ◌≤◌, ◌≡◌, ap, ◌⊎◌, inl, inr, arith, ◌==◌, ==_self, ==-cases, contains, length, true,
  false, update, sum_below, sum_below-change, sum_below-ge,
}
use biscuit_os_memory.Page.{Page, page_is_buddy}
use biscuit_os_memory.Buddy.{Mm, Pcp, max_order, bad_range}
use biscuit_os_memory.Buddy.Cover.{
  hit, count_in, cover, hit-cases, hit-le-count_in, hit_self, hit-le-cover,
}
use biscuit_os_memory.Buddy.Valid.{Valid, Idle, IsBlock}
use biscuit_os_memory.Buddy.Frame.{Frame}
use biscuit_os_memory.Pcp.{set_page}
use biscuit_os_memory.Pcp.Bulk.{Placed, Counted, Frame-Placed}

-- Two lists for each processor.
abbrev pub slots : ℕ
slots = 16

-- How often a page is on the page lists.
unfoldable pub parked : (ℕ → Pcp) → ℕ → ℕ
parked pcp q = sum_below slots (λ k. count_in 0 q (pcp k).list)

-- How often the zone holds a page.
abbrev pub held : Mm → ℕ → ℕ
held s q = cover s.zone.free_list q + parked s.zone.pcp q

pub record Inv (s : Mm) : Type 0 where
  pub valid : Valid s
  pub counted : Counted s
  -- The counts of the page lists are their lengths.
  pub lengths : (k : ℕ) → k < slots → (s.zone.pcp k).count ≡ length (s.zone.pcp k).list
  pub placed : (k q : ℕ) → k < slots → contains q (s.zone.pcp k).list ≡ true → Placed s q 0
  -- The zone holds no page twice.
  pub once : (q : ℕ) → held s q ≤ 1

pub parked-update :
    (pcp : ℕ → Pcp) (k : ℕ) (p : Pcp) (q : ℕ)
    → k < slots
    → parked (update pcp k p) q + count_in 0 q (pcp k).list ≡ parked pcp q + count_in 0 q p.list
unfolding parked
parked-update pcp k p q h =
    let changed =
      sum_below-change slots k (λ j. count_in 0 q (update pcp k p j).list)
        (λ j. count_in 0 q (pcp j).list) h (λ j e. rw e) in
    rw (==_self k) at changed

pub count_in-le-parked :
    (pcp : ℕ → Pcp) (k q : ℕ) → k < slots → count_in 0 q (pcp k).list ≤ parked pcp q
unfolding parked
count_in-le-parked pcp k q h = sum_below-ge slots k (λ j. count_in 0 q (pcp j).list) h

-- The invariant after a move of blocks that leaves the page lists.
module _ {s t : Mm} (f : Frame s t) where
  pub parked-Frame : (q : ℕ) → parked t.zone.pcp q ≡ parked s.zone.pcp q
  parked-Frame q = ap (λ p. parked p q) f.pcp

  pub Frame-Inv : Inv s → Valid t → Counted t → ((q : ℕ) → held t q ≤ 1) → Inv t
  Frame-Inv v w c u = record {
    valid = w;
    counted = c;
    lengths = λ k h. rw f.pcp (v.lengths k h);
    placed = λ k q h m. Frame-Placed f (v.placed k q h (rw f.pcp at m));
    once = u;
  }

-- A page that no test takes for the head of a free block.
abbrev pub Unmarked : Page → Type 0
Unmarked p = (order : ℕ) → order < max_order → page_is_buddy p order ≡ false

module _ {s : Mm} (page : ℕ) (p : Page) (v : Inv s) (u : held s page ≡ 0) (m : Unmarked p) where
  pub covered_ne : (q : ℕ) → 1 ≤ cover s.zone.free_list q → (page == q) ≡ false
  covered_ne q h = elim (==-cases page q) [
    | inl (_, e) ↦ absurd (omega (arith, u, (rw (← e) at h)))
    | inr (e, _) ↦ e
  ]

  head_ne : (k q : ℕ) → k < max_order → contains q (s.zone.free_list k) ≡ true → (page == q) ≡ false
  head_ne k q o h =
      covered_ne q (omega (arith, hit-le-cover s.zone.free_list k o q q h, hit_self q k))

  parked_ne : (k q : ℕ) → k < slots → contains q (s.zone.pcp k).list ≡ true → (page == q) ≡ false
  parked_ne k q o h = elim (==-cases page q) [
    | inl (_, e) ↦ absurd (
        omega (
          arith,
          u,
          hit-le-count_in 0 page page (s.zone.pcp k).list (rw e h),
          hit_self page 0,
          count_in-le-parked s.zone.pcp k page o,
        ))
    | inr (e, _) ↦ e
  ]

  pub set_page-Idle : (q : ℕ) → (page == q) ≡ false → Idle s q → Idle (set_page s page p) q
  unfolding set_page
  set_page-Idle q e d = record { unused = rw e d.unused; free = rw e d.free; home = rw e d.home }

  set_page-IsBlock :
      (k q : ℕ) → (page == q) ≡ false → IsBlock s q k → IsBlock (set_page s page p) q k
  unfolding set_page
  set_page-IsBlock k q e b = record {
    marked = rw e b.marked;
    recorded = rw e b.recorded;
    aligned = b.aligned;
    inside = record { lo = b.inside.lo; hi = b.inside.hi };
  }

  set_page-heads :
      (k q : ℕ)
      → k < max_order
      → bad_range (set_page s page p) q ≡ false
      → page_is_buddy ((set_page s page p).mem q) k ≡ true
      → contains q (s.zone.free_list k) ≡ true
  unfolding set_page bad_range
  set_page-heads k q o r h = elim (==-cases page q) [
    | inl (e, _) ↦ ground (arith, m k o)
    | inr (e, _) ↦ ground (arith, v.valid.heads k q o)
  ]

  set_page-Placed : (q : ℕ) → (page == q) ≡ false → Placed s q 0 → Placed (set_page s page p) q 0
  unfolding set_page
  set_page-Placed q e pl = record {
    aligned = pl.aligned;
    inside = record { lo = pl.inside.lo; hi = pl.inside.hi };
    idle = λ r h. set_page-Idle r (only r (hit-cases q 0 r) h) (pl.idle r h);
  }
    where
      only :
          (r : ℕ)
          → ((hit q 0 r ≡ 1) × (q ≤ r) × (r < q + 1)) ⊎ ((hit q 0 r ≡ 0) × (q ≤ r → q + 1 ≤ r))
          → hit q 0 r ≡ 1
          → (page == r) ≡ false
      only r (inl (_, a, b)) h = let same : q ≡ r = omega arith in rw (← same) e
      only r (inr (z, _)) h = absurd (omega arith)

  -- A page that the zone does not hold may change, if it does not pass for a free block.
  pub set_page-Inv : Inv (set_page s page p)
  unfolding set_page
  set_page-Inv = record {
    valid = record {
      counts = v.valid.counts;
      blocks = λ k q o h. set_page-IsBlock k q (head_ne k q o h) (v.valid.blocks k q o h);
      heads = set_page-heads;
      once = v.valid.once;
      idle = λ q h. set_page-Idle q (covered_ne q h) (v.valid.idle q h);
    };
    counted = v.counted;
    lengths = v.lengths;
    placed = λ k q o h. set_page-Placed q (parked_ne k q o h) (v.placed k q o h);
    once = v.once;
  }
