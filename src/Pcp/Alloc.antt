-- ===== src/Pcp/Alloc.antt =====
-- `buffered_rmqueue_bs`: a page of a list or a block of the free areas becomes its user's.
use biscuit_os_memory.Common.{
  ℕ, ◌+◌, ◌-◌, ◌<◌, ◌≡◌, refl, ap, inl, inr, arith, List, [], ◌∷◌, ==_self, contains, length, true,
  if◌then◌else◌,
}
use biscuit_os_memory.Buddy.{Mm, Pcp}
use biscuit_os_memory.Buddy.Cover.{hit, count_in}
use biscuit_os_memory.Buddy.Frame.{Fixed}
use biscuit_os_memory.Pcp.{Batch, set_pcp}
use biscuit_os_memory.Pcp.Bulk.{Placed, Moved}
use biscuit_os_memory.Common.{
  ok, Returns, returns, Returns-bind, Option, none, some, nonzero, leb, Bool-cases,
}
use biscuit_os_memory.Pcp.{pcp_alloc, rmqueue_bulk, unlist}
use biscuit_os_memory.Pcp.Bulk.{Moved-stay, rmqueue_bulk-Moved}
use biscuit_os_memory.Pcp.Held.{Inv, held, slots}
use biscuit_os_memory.Pcp.Restock.{restock-Inv, restock-held, restock-Fixed, same-Placed}

-- A block that has left the zone, not yet given its user's reference.
pub record Obtained (s : Mm) (page order : ℕ) (t : Mm) : Type 0 where
  pub inv : Inv t
  pub placed : Placed t page order
  pub held : (q : ℕ) → held t q + hit page order q ≡ held s q
  pub fixed : Fixed s t

-- A search that leaves the zone's pages as they are, or takes a block from them.
pub data Search (s : Mm) (order : ℕ) : Option ℕ × Mm → Type 0 where
  obtained : {page : ℕ} {t : Mm} → Obtained s page order t → Search s order (some page, t)
  nothing :
      {t : Mm} → Inv t → ((q : ℕ) → held t q ≡ held s q) → Fixed s t → Search s order (none, t)

module _ {s : Mm} {b : Batch} (k : ℕ) (o : k < slots) (v : Inv s)
    (m : Moved s 0 (s.zone.pcp k).list b) (p : Pcp) where
  -- The list as it is, put back.
  put_back-Search :
      p.count ≡ length p.list → p.list ≡ b.rest → Search s 0 (none, set_pcp b.state k p)
  put_back-Search e f =
      nothing (restock-Inv k o v m p e (rw f m.placed) (λ q. rw f (omega (arith, v.once q))))
        (λ q. omega (arith, restock-held k o v m p q, ap (λ (l : List ℕ). count_in 0 q l) f))
        (restock-Fixed k o v m p)

  unlist-Search :
      (rest : List ℕ)
      → b.rest ≡ rest
      → p.count ≡ length rest
      → 0 < p.count
      → Returns (Search s 0) (unlist b.state k p rest)
  unfolding unlist count_in
  unlist-Search [] f e h = absurd (omega arith)
  unlist-Search (page ∷ list) f e h =
      let left : Pcp = record p { count = p.count - 1; list = list } in
      let member : contains page b.rest ≡ true = rw f (ground (arith, ==_self page)) in
      let entries : (q : ℕ) → count_in 0 q b.rest ≡ hit page 0 q + count_in 0 q list = λ q. rw f in
      returns (
        obtained (record {
          inv =
              restock-Inv k o v m left (omega arith) (λ q c. m.placed q (rw f (ground arith)))
                (λ q. omega (arith, v.once q, entries q));
          placed = same-Placed k o v m left page (m.placed page member);
          held = λ q. omega (arith, restock-held k o v m left q, entries q);
          fixed = restock-Fixed k o v m left;
        }))

pub pcp_alloc-Search : (s : Mm) (k : ℕ) → k < slots → Inv s → Returns (Search s 0) (pcp_alloc s k)
unfolding pcp_alloc
pcp_alloc-Search s k o v = Returns-bind refilled (λ b m.
    elim (Bool-cases (nonzero ((s.zone.pcp k).count + b.moved))) [
      | inl e ↦ rw e (
          unlist-Search k o v (m.0) (counted b) b.rest refl (omega (arith, v.lengths k o, m.1))
            (ground arith))
      | inr e ↦ rw e (
          returns
            (put_back-Search k o v (m.0) (counted b) (omega (arith, v.lengths k o, m.1)) refl))
    ])
  where
    counted : Batch → Pcp
    counted b = record (s.zone.pcp k) { count = (s.zone.pcp k).count + b.moved; list = b.rest }

    refilled :
        Returns
          (λ b.
            Moved s 0 (s.zone.pcp k).list b
            × (b.moved + length (s.zone.pcp k).list ≡ length b.rest))
          (if leb (s.zone.pcp k).low (s.zone.pcp k).count
            then rmqueue_bulk s 0 (s.zone.pcp k).batch (s.zone.pcp k).list
            else ok (record { moved = 0; rest = (s.zone.pcp k).list; state = s }))
    refilled = elim (Bool-cases (leb (s.zone.pcp k).low (s.zone.pcp k).count)) [
      | inl e ↦
          rw e
            (rmqueue_bulk-Moved s 0 _ _ (omega arith) v.valid v.counted (λ p m. v.placed k p o m))
      | inr e ↦
          rw e (returns (Moved-stay 0 v.valid v.counted (λ p m. v.placed k p o m), omega arith))
    ]
