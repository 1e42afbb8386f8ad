-- ===== src/Pcp/Restock.antt =====
-- Putting a page list back into the zone, after pages moved between it and the free areas.
use biscuit_os_memory.Common.{
  ℕ, ◌+◌, ◌<◌, ◌≤◌, ◌≡◌, ap, inl, inr, arith, ==-cases, contains, length, true,
}
use biscuit_os_memory.Buddy.{Mm, Pcp, bad_range}
use biscuit_os_memory.Buddy.Cover.{count_in}
use biscuit_os_memory.Buddy.Valid.{Valid}
use biscuit_os_memory.Buddy.Frame.{Fixed}
use biscuit_os_memory.Pcp.{Batch, set_pcp}
use biscuit_os_memory.Pcp.Bulk.{Placed, Counted, Moved, Frame-Placed}
use biscuit_os_memory.Pcp.Held.{Inv, held, parked, parked-update, slots}

module _ {s : Mm} {b : Batch} (k : ℕ) (o : k < slots) (v : Inv s)
    (m : Moved s 0 (s.zone.pcp k).list b) (p : Pcp) where
  pub restock-held :
      (q : ℕ) → held (set_pcp b.state k p) q + count_in 0 q b.rest ≡ held s q + count_in 0 q p.list
  unfolding set_pcp
  restock-held q = omega (
    arith,
    m.cover q,
    parked-update b.state.zone.pcp k p q o,
    ap (λ (f : ℕ → Pcp). parked f q) m.frame.pcp,
    ap (λ (f : ℕ → Pcp). count_in 0 q (f k).list) m.frame.pcp,
  )

  pub same-Placed : (q : ℕ) → Placed b.state q 0 → Placed (set_pcp b.state k p) q 0
  unfolding set_pcp
  same-Placed q pl = record {
    aligned = pl.aligned;
    inside = record { lo = pl.inside.lo; hi = pl.inside.hi };
    idle = λ r h. let d = pl.idle r h in record { unused = d.unused; free = d.free; home = d.home };
  }

  same-Valid : Valid b.state → Valid (set_pcp b.state k p)
  unfolding set_pcp bad_range
  same-Valid w = record {
    counts = w.counts;
    blocks = λ j q o h.
        let x = w.blocks j q o h in
        record {
          marked = x.marked;
          recorded = x.recorded;
          aligned = x.aligned;
          inside = record { lo = x.inside.lo; hi = x.inside.hi };
        };
    heads = w.heads;
    once = w.once;
    idle = λ q h. let d = w.idle q h in record { unused = d.unused; free = d.free; home = d.home };
  }

  restock-lengths :
      p.count ≡ length p.list
      → (j : ℕ) → j < slots
      → ((set_pcp b.state k p).zone.pcp j).count ≡ length ((set_pcp b.state k p).zone.pcp j).list
  unfolding set_pcp
  restock-lengths e j h = elim (==-cases k j) [
    | inl (f, _) ↦ rw f e
    | inr (f, _) ↦ rw (f, m.frame.pcp) (v.lengths j h)
  ]

  restock-Placed :
      ((q : ℕ) → contains q p.list ≡ true → Placed b.state q 0)
      → (j q : ℕ) → j < slots
      → contains q ((set_pcp b.state k p).zone.pcp j).list ≡ true
      → Placed b.state q 0
  unfolding set_pcp
  restock-Placed pl j q h c = elim (==-cases k j) [
    | inl (f, _) ↦ pl q (rw f at c)
    | inr (f, _) ↦ Frame-Placed m.frame (v.placed j q h (rw (f, m.frame.pcp) at c))
  ]

  same-Counted : Counted (set_pcp b.state k p)
  unfolding set_pcp
  same-Counted = m.counted

  pub restock-Inv :
      p.count ≡ length p.list
      → ((q : ℕ) → contains q p.list ≡ true → Placed b.state q 0)
      → ((q : ℕ) → held s q + count_in 0 q p.list ≤ 1 + count_in 0 q b.rest)
      → Inv (set_pcp b.state k p)
  restock-Inv e pl u = record {
    valid = same-Valid m.valid;
    counted = same-Counted;
    lengths = restock-lengths e;
    placed = λ j q h c. same-Placed q (restock-Placed pl j q h c);
    once = λ q. omega (arith, restock-held q, u q);
  }

  pub restock-Fixed : Fixed s (set_pcp b.state k p)
  unfolding set_pcp
  restock-Fixed = record {
    start = m.frame.start;
    spanned = m.frame.spanned;
    index = m.frame.index;
    pages = m.frame.pages;
  }
