-- ===== src/Pcp/Release.antt =====
-- `__free_pages_bs` and what it calls: the zone takes a block back.
use biscuit_os_memory.Common.{
  ℕ, ◌+◌, ◌-◌, ◌^◌, ◌<◌, ◌≤◌, ◌≡◌, refl, ◌∙◌, ap, inl, inr, arith, List, [], ◌∷◌, ◌==◌, ==-cases,
  contains, length, true, false, Bool, if◌then◌else◌,
}
use biscuit_os_memory.Page.{Page, page_is_buddy}
use biscuit_os_memory.Buddy.{Mm, Pcp, max_order}
use biscuit_os_memory.Buddy.Cover.{hit, count_in, hit-cases, hit_self}
use biscuit_os_memory.Buddy.Valid.{Idle}
use biscuit_os_memory.Buddy.Frame.{Fixed, SamePage, SamePage-trans}
use biscuit_os_memory.Pcp.{Batch, set_page, set_pcp, slot, nr_cpus}
use biscuit_os_memory.Pcp.Bulk.{Placed, Moved, Frame-Placed}
use biscuit_os_memory.Common.{ok, ◌>>=◌, Returns, returns, Returns-mono, Returns-bind, leb}
use biscuit_os_memory.Buddy.Frame.{Frame-Fixed}
use biscuit_os_memory.Pcp.Bulk.{Moved-stay}
use biscuit_os_memory.Pcp.Held.{
  Inv, held, slots, Unmarked, set_page-Inv, set_page-Idle, Frame-Inv, parked-Frame,
}
use biscuit_os_memory.Pcp.Restock.{restock-Inv, restock-held, restock-Fixed}
use biscuit_os_memory.Page.{free_pages_check, page_anon}
use biscuit_os_memory.Pcp.{check_pages, arch_free_page}
use biscuit_os_memory.Pcp.Back.{
  Back, BackFrom, BackFrom-trans, Touched, Touched-trans, touch, arch_free_page-Back,
  check_pages-Back, free_pages_check-Touched,
}
use biscuit_os_memory.Pcp.Bulk.{Listed, free_pages_bulk-Moved}
use biscuit_os_memory.Pcp.Held.{count_in-le-parked}
use biscuit_os_memory.Pcp.Grant.{Owned, slot-lt}
use biscuit_os_memory.Pcp.{free_pages_bulk, free_hot_cold_page, free_pages_ok, free_pages}
use biscuit_os_memory.Page.{put_page_testzero}

-- The zone has taken the pages of one block, and no other page has changed.
pub record Released (s : Mm) (page order : ℕ) (t : Mm) : Type 0 where
  pub inv : Inv t
  pub held : (q : ℕ) → held t q ≡ held s q + hit page order q
  pub start : t.zone.zone_start_pfn ≡ s.zone.zone_start_pfn
  pub spanned : t.zone.spanned_pages ≡ s.zone.spanned_pages
  pub index : t.zone.index ≡ s.zone.index
  pub others : (q : ℕ) → hit page order q ≡ 0 → SamePage (s.mem q) (t.mem q)

-- The block is given to the lists after its pages were looked at.
Released-after :
    {s t u : Mm} {page order : ℕ}
    → BackFrom s page order t
    → Released t page order u
    → Released s page order u
Released-after {order} f r = record {
  inv = r.inv;
  held = λ q. omega (arith, r.held q, f.1.held q);
  start = r.start ∙ f.1.start;
  spanned = r.spanned ∙ f.1.spanned;
  index = r.index ∙ f.1.index;
  others = λ q h. SamePage-trans (f.1.others q h) (r.others q h);
}

Released-Fixed :
    {s t : Mm} {page order : ℕ}
    → Inv t
    → ((q : ℕ) → held t q ≡ held s q + hit page order q)
    → Fixed s t
    → Released s page order t
Released-Fixed v h f = record {
  inv = v;
  held = h;
  start = f.start;
  spanned = f.spanned;
  index = f.index;
  others = λ q _. f.pages q;
}

module _ {s : Mm} {page : ℕ} (k : ℕ) (o : k < slots) (b : Back s page 0) where
  parked-Listed : Listed s 0 (s.zone.pcp k).list
  parked-Listed = record {
    placed = λ p m. b.inv.placed k p o m;
    apart = λ q. omega (arith, b.inv.once q, count_in-le-parked s.zone.pcp k q o);
  }

  -- The page is put on the list that is left.
  put_front :
      (r : Batch)
      → Moved s 0 (s.zone.pcp k).list r
      → r.moved + length r.rest ≡ length (s.zone.pcp k).list
      → Released s page 0 (
          set_pcp r.state k (record (s.zone.pcp k) {
            count = (s.zone.pcp k).count - r.moved + 1;
            list = page ∷ r.rest;
          }))
  unfolding count_in
  put_front r m e =
      Released-Fixed (restock-Inv k o b.inv m _ (omega (arith, b.inv.lengths k o, e)) fits once)
        (λ q. omega (arith, restock-held k o b.inv m (listed r) q)) (restock-Fixed k o b.inv m _)
    where
      listed : Batch → Pcp
      listed r = record (s.zone.pcp k) {
        count = (s.zone.pcp k).count - r.moved + 1;
        list = page ∷ r.rest;
      }

      once : (q : ℕ) → held s q + count_in 0 q (page ∷ r.rest) ≤ 1 + count_in 0 q r.rest
      once q = elim (hit-cases page 0 q) [
        | inl (h, _, _) ↦ omega (arith, b.unheld q h)
        | inr (h, _) ↦ omega (arith, b.inv.once q)
      ]

      fits : (q : ℕ) → contains q (page ∷ r.rest) ≡ true → Placed r.state q 0
      fits q c = elim (==-cases q page) [
        | inl (_, e') ↦ rw e' (Frame-Placed m.frame b.placed)
        | inr (e', _) ↦ m.placed q (ground (arith, e', c))
      ]

  drain : Returns (Released s page 0) (
      (if leb (s.zone.pcp k).high (s.zone.pcp k).count
        then free_pages_bulk s (s.zone.pcp k).batch (s.zone.pcp k).list 0
        else ok (record { moved = 0; rest = (s.zone.pcp k).list; state = s }))
      >>= λ r. ok (
          set_pcp r.state k (record (s.zone.pcp k) {
            count = (s.zone.pcp k).count - r.moved + 1;
            list = page ∷ r.rest;
          })))
  drain = Returns-bind (drained _) (λ r m. returns (put_front r m.0 m.1))
    where
      drained :
          (full : Bool)
          → Returns
              (λ r.
                Moved s 0 (s.zone.pcp k).list r
                × (r.moved + length r.rest ≡ length (s.zone.pcp k).list))
              (if full
                then free_pages_bulk s (s.zone.pcp k).batch (s.zone.pcp k).list 0
                else ok (record { moved = 0; rest = (s.zone.pcp k).list; state = s }))
      drained true =
          Returns-mono
            (free_pages_bulk-Moved s _ (s.zone.pcp k).list 0 (omega arith) b.inv.valid b.inv.counted
              parked-Listed)
            (λ r m. (m.0, m.1))
      drained false =
          returns
            (Moved-stay 0 b.inv.valid b.inv.counted (λ p c. b.inv.placed k p o c), omega arith)

unmapped-Touched :
    (p : Page) (anon : Bool) → Touched p (if anon then record p { mapping = 0 } else p)
unfolding page_is_buddy
unmapped-Touched p true = record { count = refl; reserved = refl; zone = refl; unmarked = λ m. m }
unmapped-Touched p false = record { count = refl; reserved = refl; zone = refl; unmarked = λ m. m }

module _ {s : Mm} {page : ℕ} (cpu : ℕ) (cold : Bool) (o : cpu < nr_cpus) (b : Back s page 0) where
  mapped : BackFrom s page 0 (arch_free_page s page 0)
  mapped = arch_free_page-Back s page 0 b

  head : Page
  head = (arch_free_page s page 0).mem page

  unmapped : Page
  unmapped = if page_anon head then record head { mapping = 0 } else head

  checked : BackFrom s page 0 (set_page (arch_free_page s page 0) page (free_pages_check unmapped))
  unfolding head unmapped
  checked =
      let idle : Idle (arch_free_page s page 0) page =
        mapped.0.placed.idle page (hit_self page 0) in
      let first : Touched head unmapped = unmapped-Touched head _ in
      BackFrom-trans mapped (
        touch mapped.0 page (hit_self page 0) _
          (Touched-trans first (free_pages_check-Touched unmapped (first.count ∙ idle.unused))))

  pub free_hot_cold_page-Released : Returns (Released s page 0) (free_hot_cold_page s cpu page cold)
  unfolding free_hot_cold_page head unmapped
  free_hot_cold_page-Released =
      Returns-mono (drain (slot cpu cold) (slot-lt cpu cold o) checked.0)
        (λ t r. Released-after checked r)

module _ {s : Mm} {page order : ℕ} (o : order < max_order) (b : Back s page order) where
  seen : BackFrom s page order (check_pages (2 ^ order) (arch_free_page s page order) page)
  seen =
      let mapped = arch_free_page-Back s page order b in
      BackFrom-trans mapped
        (check_pages-Back (2 ^ order) _ page page order (omega arith) (omega arith) mapped.0)

-- A list of the one block is emptied.
module _ {s : Mm} {page order : ℕ} (o : order < max_order) (b : Back s page order) where
  single-Listed : Listed s order (page ∷ [])
  unfolding count_in
  single-Listed = record {
    placed = λ p c. elim (==-cases p page) [
      | inl (_, e) ↦ rw e b.placed
      | inr (e, _) ↦ absurd (ground (arith, e, c))
    ];
    apart = λ q. elim (hit-cases page order q) [
      | inl (h, _, _) ↦ omega (arith, b.unheld q h)
      | inr (h, _) ↦ omega (arith, b.inv.once q)
    ];
  }

  emptied :
      (r : Batch) → Moved s order (page ∷ []) r → length r.rest ≡ 0 → Released s page order r.state
  unfolding count_in
  emptied r m e =
      Released-Fixed (Frame-Inv m.frame b.inv m.valid m.counted once) moved (Frame-Fixed m.frame)
    where
      none_left : (list : List ℕ) (q : ℕ) → length list ≡ 0 → count_in order q list ≡ 0
      none_left [] q h = refl
      none_left (x ∷ xs) q h = absurd (omega arith)

      moved : (q : ℕ) → held r.state q ≡ held s q + hit page order q
      moved q = omega (arith, m.cover q, none_left r.rest q e, parked-Frame m.frame q)

      once : (q : ℕ) → held r.state q ≤ 1
      once q = elim (hit-cases page order q) [
        | inl (h, _, _) ↦ omega (arith, moved q, b.unheld q h)
        | inr (h, _) ↦ omega (arith, moved q, b.inv.once q)
      ]

  bulk-Released :
      Returns (Released s page order) (free_pages_bulk s 1 (page ∷ []) order >>= λ r. ok (r.state))
  bulk-Released =
      Returns-bind
        (free_pages_bulk-Moved s 1 (page ∷ []) order o b.inv.valid b.inv.counted single-Listed)
        (λ r m. returns (emptied r m.0 (omega (arith, m.1))))

pub free_pages_ok-Released :
    {s : Mm} {page order : ℕ}
    → order < max_order
    → Back s page order
    → Returns (Released s page order) (free_pages_ok s page order)
unfolding free_pages_ok
free_pages_ok-Released o b =
    Returns-mono (bulk-Released o (seen o b).0) (λ t r. Released-after (seen o b) r)

-- A reference less on the block's first page.
module _ {s : Mm} {page order : ℕ} (v : Inv s) (w : Owned s page order) where
  loose : held s page ≡ 0
  loose = w.unheld page (hit_self page order)

  dropped : Page
  dropped = record (s.mem page) { count = 0 }

  unmarked : Unmarked dropped
  unfolding dropped page_is_buddy
  unmarked k o = rw (w.clean) refl

  dropped-Back : Back (set_page s page dropped) page order
  unfolding set_page dropped
  dropped-Back = record {
    inv = set_page-Inv page _ v loose unmarked;
    placed = record {
      aligned = w.aligned;
      inside = record { lo = w.inside.lo; hi = w.inside.hi };
      idle = idle;
    };
    unheld = w.unheld;
  }
    where
      idle : (q : ℕ) → hit page order q ≡ 1 → Idle (set_page s page dropped) q
      idle q h = elim (==-cases page q) [
        | inl (e, e') ↦ record { unused = rw e refl; free = rw e w.unreserved; home = rw e w.home }
        | inr (e, _) ↦ set_page-Idle page _ v loose unmarked q e (w.rest q h e)
      ]

  dropped-Released :
      {t : Mm} → Released (set_page s page dropped) page order t → Released s page order t
  unfolding set_page dropped
  dropped-Released r = record {
    inv = r.inv;
    held = r.held;
    start = r.start;
    spanned = r.spanned;
    index = r.index;
    others = λ q h. elim (==-cases page q) [
      | inl (_, e) ↦ absurd (omega (arith, hit_self page order, ap (hit page order) e))
      | inr (e, _) ↦ rw e at (r.others q h)
    ];
  }

to_lists :
    {s : Mm} {page : ℕ} (cpu order : ℕ)
    → cpu < nr_cpus
    → order < max_order
    → Back s page order
    → Returns
        (Released s page order)
        (if order == 0 then free_hot_cold_page s cpu page false else free_pages_ok s page order)
to_lists {s} {page} cpu order c o b = elim (==-cases order 0) [
  | inl (e, e') ↦
      let listed : Returns (Released s page order) (free_hot_cold_page s cpu page false) =
        rw e' (free_hot_cold_page-Released cpu false c (rw e' at b)) in
      rw e listed
  | inr (e, _) ↦ rw e (free_pages_ok-Released o b)
]

last_reference : (p : Page) → p.count ≡ 1 → put_page_testzero p ≡ ok (record p { count = 0 }, true)
unfolding put_page_testzero
last_reference p h = rw h refl

-- A user of a well-formed zone gives back a block of its own, of any order below 11, on any
-- processor, with one reference on its first page and none on the others, not reserved and
-- without a private mark: the call returns, the zone is well formed, holds the block's pages
-- besides those that it held, and every page outside the block keeps its counts, mapping, zone
-- and reserved flag.
pub free_pages-Released :
    (s : Mm) (cpu page order : ℕ)
    → cpu < nr_cpus
    → order < max_order
    → Inv s
    → Owned s page order
    → Returns (Released s page order) (free_pages s cpu page order)
unfolding free_pages dropped
free_pages-Released s cpu page order c o v w =
    simp (w.unreserved, last_reference (s.mem page) w.used)
      (Returns-mono (to_lists cpu order c o (dropped-Back v w)) (λ t r. dropped-Released v w r))
