-- ===== src/Pcp/Grant.antt =====
-- `buffered_rmqueue_bs`: what its caller gets.
use biscuit_os_memory.Common.{
  ℕ, ◌+◌, ◌-◌, ◌^◌, ◌%◌, ◌<◌, ◌≤◌, ◌≡◌, refl, ◌∙◌, inl, inr, arith, [], ◌==◌, ==_self, ==-cases,
  true, false, Bool,
}
use biscuit_os_memory.Page.{Page, page_is_buddy}
use biscuit_os_memory.Buddy.{Mm, max_order}
use biscuit_os_memory.Buddy.Cover.{hit, hit_self}
use biscuit_os_memory.Buddy.Valid.{Idle, InZone}
use biscuit_os_memory.Buddy.Frame.{Fixed, SamePage}
use biscuit_os_memory.Pcp.{set_page, slot, nr_cpus}
use biscuit_os_memory.Common.{
  ok, ◌>>=◌, Returns, returns, Returns-bind, Returns-mono, Option, none, some, nonzero, bit_and,
  Bool-cases,
}
use biscuit_os_memory.Page.{prep_new_page}
use biscuit_os_memory.Buddy.{rmqueue}
use biscuit_os_memory.Buddy.Valid.{bad_range-false}
use biscuit_os_memory.Buddy.Alloc.{Rmqueue, found, exhausted, Allocated, rmqueue-Rmqueue}
use biscuit_os_memory.Buddy.Frame.{Frame-Fixed, Fixed-trans, Fixed-refl}
use biscuit_os_memory.Pcp.{
  pcp_alloc, prepare, buffered_rmqueue, gfp_zero, gfp_wait_highmem, gfp_highmem, gfp_cold,
}
use biscuit_os_memory.Pcp.Bulk.{Allocated-Counted}
use biscuit_os_memory.Pcp.Held.{
  Inv, held, slots, Unmarked, set_page-Inv, set_page-Idle, Frame-Inv, parked-Frame,
}
use biscuit_os_memory.Pcp.Alloc.{Obtained, Search, obtained, nothing, pcp_alloc-Search}

-- A block in use: the zone does not hold it, its first page has one reference, the others none.
pub record Owned (s : Mm) (page order : ℕ) : Type 0 where
  pub aligned : page % 2 ^ order ≡ 0
  pub inside : InZone s page order
  pub unheld : (q : ℕ) → hit page order q ≡ 1 → held s q ≡ 0
  pub used : (s.mem page).count ≡ 1
  pub clean : (s.mem page).flags.has_private ≡ false
  pub unreserved : (s.mem page).flags.reserved ≡ false
  pub home : (s.mem page).flags.zone ≡ s.zone.index
  pub rest : (q : ℕ) → hit page order q ≡ 1 → (page == q) ≡ false → Idle s q

-- The zone has given up the pages of one block, and no other page has changed.
pub record Granted (s : Mm) (page order : ℕ) (t : Mm) : Type 0 where
  pub inv : Inv t
  pub owned : Owned t page order
  pub held : (q : ℕ) → held t q + hit page order q ≡ held s q
  pub start : t.zone.zone_start_pfn ≡ s.zone.zone_start_pfn
  pub spanned : t.zone.spanned_pages ≡ s.zone.spanned_pages
  pub index : t.zone.index ≡ s.zone.index
  pub others : (q : ℕ) → (page == q) ≡ false → SamePage (s.mem q) (t.mem q)

pub data Grant (s : Mm) (order : ℕ) : Option ℕ × Mm → Type 0 where
  granted : {page : ℕ} {t : Mm} → Granted s page order t → Grant s order (some page, t)
  refused :
      {t : Mm}
      → Inv t
      → ((q : ℕ) → held t q ≡ held s q)
      → Fixed s t
      → ((k : ℕ) → order ≤ k → k < max_order → t.zone.free_list k ≡ [])
      → Grant s order (none, t)

-- A block is handed out.
abbrev pub Handed : Mm → ℕ → Option ℕ × Mm → Type 0
Handed s order r = (page : ℕ) × (t : Mm) × (r ≡ (some page, t)) × Granted s page order t

record Prepared (p : Page) (n : Page) : Type 0 where
  count : n.count ≡ 1
  clean : n.flags.has_private ≡ false
  reserved : n.flags.reserved ≡ p.flags.reserved
  zone : n.flags.zone ≡ p.flags.zone

prep_new_page-Prepared : (p : Page) → Prepared p (prep_new_page p)
unfolding prep_new_page
prep_new_page-Prepared p = ground arith

single_user-Unmarked : (p : Page) → p.count ≡ 1 → Unmarked p
unfolding page_is_buddy
single_user-Unmarked p h k o = ground arith

-- What `prep_zero_page_bs` asks of the flags.
abbrev pub ZeroAllowed : ℕ → Type 0
ZeroAllowed gfp =
    nonzero (bit_and gfp gfp_zero) ≡ true → (bit_and gfp gfp_wait_highmem == gfp_highmem) ≡ false

module _ {s : Mm} {page order : ℕ} {t : Mm} (v : Inv s) (ob : Obtained s page order t) where
  unheld : (q : ℕ) → hit page order q ≡ 1 → held t q ≡ 0
  unheld q h = omega (arith, ob.held q, v.once q)

  loose : held t page ≡ 0
  loose = unheld page (hit_self page order)

  new : Mm
  new = set_page t page (prep_new_page (t.mem page))

  facts : Prepared (t.mem page) (prep_new_page (t.mem page))
  facts = prep_new_page-Prepared (t.mem page)

  unmarked : Unmarked (prep_new_page (t.mem page))
  unmarked = single_user-Unmarked _ facts.count

  head : Idle t page
  head = ob.placed.idle page (hit_self page order)

  new-Owned : Owned new page order
  unfolding new set_page
  new-Owned = record {
    aligned = ob.placed.aligned;
    inside = record { lo = ob.placed.inside.lo; hi = ob.placed.inside.hi };
    unheld = unheld;
    used = rw (==_self page) facts.count;
    clean = rw (==_self page) facts.clean;
    unreserved = rw (==_self page) (facts.reserved ∙ head.free);
    home = rw (==_self page) (facts.zone ∙ head.home);
    rest = λ q h e. set_page-Idle page _ ob.inv loose unmarked q e (ob.placed.idle q h);
  }

  new-Granted : Granted s page order new
  unfolding new set_page
  new-Granted = record {
    inv = set_page-Inv page _ ob.inv loose unmarked;
    owned = new-Owned;
    held = ob.held;
    start = ob.fixed.start;
    spanned = ob.fixed.spanned;
    index = ob.fixed.index;
    others = λ q e. rw e (ob.fixed.pages q);
  }

  pub prepare-Handed : (gfp : ℕ) → ZeroAllowed gfp → Returns (Handed s order) (prepare t page gfp)
  unfolding prepare new
  prepare-Handed gfp z =
      rw (bad_range-false ob.placed.inside head)
        (elim (Bool-cases (nonzero (bit_and gfp gfp_zero))) [
          | inl e ↦ rw (e, z e) (returns (page, _, refl, new-Granted))
          | inr e ↦ rw e (returns (page, _, refl, new-Granted))
        ])

  prepare-Grant : (gfp : ℕ) → ZeroAllowed gfp → Returns (Grant s order) (prepare t page gfp)
  prepare-Grant gfp z =
      Returns-mono (prepare-Handed gfp z) (λ r h. let (page', t', e, g) = h in rw e (granted g))

pub Allocated-Obtained :
    {s t : Mm} {page order : ℕ}
    → order < max_order
    → Inv s
    → Allocated s order page t
    → Obtained s page order t
Allocated-Obtained {s} {t} {page} {order} o v a = record {
  inv =
      Frame-Inv a.frame v a.valid (Allocated-Counted o v.counted a)
        (λ q. omega (arith, moved q, v.once q));
  placed = record { aligned = a.block.aligned; inside = a.block.inside; idle = a.block.idle };
  held = moved;
  fixed = Frame-Fixed a.frame;
}
  where
    moved : (q : ℕ) → held t q + hit page order q ≡ held s q
    moved q = omega (arith, a.cover q, parked-Frame a.frame q)

Obtained-Fixed :
    {s t u : Mm} {page order : ℕ}
    → ((q : ℕ) → held t q ≡ held s q)
    → Fixed s t
    → Obtained t page order u
    → Obtained s page order u
Obtained-Fixed h f ob = record {
  inv = ob.inv;
  placed = ob.placed;
  held = λ q. omega (arith, ob.held q, h q);
  fixed = Fixed-trans f ob.fixed;
}

-- The free areas are tried where the page list gave nothing.
module _ {s : Mm} (order gfp : ℕ) (o : order < max_order) (z : ZeroAllowed gfp) (v : Inv s) where
  from_areas :
      {t : Mm}
      → Inv t
      → ((q : ℕ) → held t q ≡ held s q)
      → Fixed s t
      → Returns (Grant s order) (
          rmqueue t order >>= λ q. elim (q.0) [
            | none ↦ ok (none, q.1)
            | some page ↦ prepare (q.1) page gfp
          ])
  from_areas {t} w h f = Returns-bind (rmqueue-Rmqueue t order o w.valid) finish
    where
      finish :
          (q : Option ℕ × Mm)
          → Rmqueue t order order (max_order - order) q
          → Returns
              (Grant s order)
              (elim (q.0) [ none ↦ ok (none, q.1) | some page ↦ prepare (q.1) page gfp ])
      finish _ (found a) = prepare-Grant v (Obtained-Fixed h f (Allocated-Obtained o w a)) gfp z
      finish _ (exhausted e) = returns (refused w h f (λ k a b. e k a (omega arith)))

  after_list :
      (r : Option ℕ × Mm)
      → Search s order r
      → Returns (Grant s order) (elim (r.0) [
        | some page ↦ prepare (r.1) page gfp
        | none ↦ rmqueue (r.1) order >>= λ q. elim (q.0) [
          | none ↦ ok (none, q.1)
          | some page ↦ prepare (q.1) page gfp
        ]
      ])
  after_list _ (obtained ob) = prepare-Grant v ob gfp z
  after_list _ (nothing w h f) = from_areas w h f

pub slot-lt : (cpu : ℕ) (cold : Bool) → cpu < nr_cpus → slot cpu cold < slots
slot-lt cpu cold h = ground arith

-- In a well-formed zone a call returns, on any processor, for any order below 11, when a cleared
-- page is not asked for from high memory without waiting. It hands out one aligned block inside
-- the zone that the zone held and now does not, with one reference and no private mark, and
-- leaves every other page its counts, mapping, zone and reserved flag; or it leaves what the zone
-- holds as it is, with no free block of that order or above.
pub buffered_rmqueue-Grant :
    (s : Mm) (cpu order gfp : ℕ)
    → cpu < nr_cpus
    → order < max_order
    → ZeroAllowed gfp
    → Inv s
    → Returns (Grant s order) (buffered_rmqueue s cpu order gfp)
unfolding buffered_rmqueue
buffered_rmqueue-Grant s cpu order gfp c o z v = elim (==-cases order 0) [
  | inl (e, e') ↦
      let k = slot cpu (nonzero (bit_and gfp gfp_cold)) in
      let listed : Returns (Search s order) (pcp_alloc s k) =
        rw e' (pcp_alloc-Search s k (slot-lt cpu _ c) v) in
      rw e (Returns-bind listed (after_list order gfp o z v))
  | inr (e, _) ↦ rw e (after_list order gfp o z v _ (nothing v (λ q. refl) (Fixed-refl s)))
]
