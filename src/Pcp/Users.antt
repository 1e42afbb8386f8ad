-- ===== src/Pcp/Users.antt =====
-- All users of a zone together: calls of `buffered_rmqueue_bs` and `__free_pages_bs` from any
-- processor, one after the other, as `zone->lock` and the disabled interrupts order them.
use biscuit_os_memory.Common.{
  ℕ, ◌+◌, ◌<◌, ◌≤◌, ◌≡◌, refl, sym, ◌∙◌, ap, inl, inr, arith, List, [], ◌∷◌, ◌==◌, ==-cases, false,
  ok, Returns, returns, Returns-mono, Returns-result, Returns-ok, Returns-bind, ◌>>=◌, Option, none,
  some,
}
use biscuit_os_memory.Buddy.{Mm, max_order}
use biscuit_os_memory.Buddy.Cover.{hit, hit_self}
use biscuit_os_memory.Buddy.Valid.{Idle}
use biscuit_os_memory.Buddy.Frame.{Fixed, SamePage}
use biscuit_os_memory.Pcp.{nr_cpus, buffered_rmqueue, free_pages}
use biscuit_os_memory.Pcp.Held.{Inv, held}
use biscuit_os_memory.Pcp.Grant.{
  Owned, Granted, Grant, granted, refused, ZeroAllowed, buffered_rmqueue-Grant,
}
use biscuit_os_memory.Pcp.Release.{Released, free_pages-Released}

pub record Block : Type 0 where
  pub page : ℕ
  pub order : ℕ

-- The zone, and the blocks in use.
pub record World : Type 0 where
  pub mm : Mm
  pub blocks : List Block

-- How many of the blocks have the page.
unfoldable pub used : List Block → ℕ → ℕ
used [] q = 0
used (b ∷ bs) q = hit b.page b.order q + used bs q

-- One block is taken out of a list.
pub data Without (b : Block) : List Block → List Block → Type 0 where
  here : {bs : List Block} → Without b (b ∷ bs) bs
  there : {c : Block} {bs cs : List Block} → Without b bs cs → Without b (c ∷ bs) (c ∷ cs)

-- One call. A user frees a block that it has, once.
pub data Step : World → World → Type 0 where
  alloc :
      {w : World} {t : Mm} {page : ℕ} (cpu order gfp : ℕ)
      → cpu < nr_cpus
      → order < max_order
      → ZeroAllowed gfp
      → buffered_rmqueue w.mm cpu order gfp ≡ ok (some page, t)
      → Step w (record { mm = t; blocks = record { page = page; order = order } ∷ w.blocks })
  fail :
      {w : World} {t : Mm} (cpu order gfp : ℕ)
      → cpu < nr_cpus
      → order < max_order
      → ZeroAllowed gfp
      → buffered_rmqueue w.mm cpu order gfp ≡ ok (none, t)
      → Step w (record { mm = t; blocks = w.blocks })
  free :
      {w : World} {t : Mm} {b : Block} {rest : List Block} (cpu : ℕ)
      → cpu < nr_cpus
      → Without b w.blocks rest
      → free_pages w.mm cpu b.page b.order ≡ ok t
      → Step w (record { mm = t; blocks = rest })

pub data Steps : World → World → Type 0 where
  done : {w : World} → Steps w w
  next : {w v u : World} → Step w v → Steps v u → Steps w u

-- What a user may rely on.
pub record Mine (s : Mm) (b : Block) : Type 0 where
  pub order : b.order < max_order
  pub owned : Owned s b.page b.order

pub data AllMine (s : Mm) : List Block → Type 0 where
  all_none : AllMine s []
  all_more : {b : Block} {bs : List Block} → Mine s b → AllMine s bs → AllMine s (b ∷ bs)

pub record Safe (w : World) : Type 0 where
  pub inv : Inv w.mm
  pub mine : AllMine w.mm w.blocks
  -- A page is with the zone or with one user, and not twice with either.
  pub once : (q : ℕ) → held w.mm q + used w.blocks q ≤ 1

-- The pages of the zone and of its users are the same pages.
abbrev pub Conserved : World → World → Type 0
Conserved w v = (q : ℕ) → held v.mm q + used v.blocks q ≡ held w.mm q + used w.blocks q

-- The zone stands where it stood.
record Settled (s t : Mm) : Type 0 where
  start : t.zone.zone_start_pfn ≡ s.zone.zone_start_pfn
  spanned : t.zone.spanned_pages ≡ s.zone.spanned_pages
  index : t.zone.index ≡ s.zone.index

-- A block stays its user's while its pages do not change and stay off the zone.
module _ {s t : Mm} (f : Settled s t) where
  same-Idle : {q : ℕ} → SamePage (s.mem q) (t.mem q) → Idle s q → Idle t q
  same-Idle p d = record {
    unused = p.count ∙ d.unused;
    free = p.reserved ∙ d.free;
    home = p.zone ∙ (d.home ∙ sym f.index);
  }

  Owned-stay :
      {page order : ℕ}
      → ((q : ℕ) → hit page order q ≡ 1 → held t q ≡ 0)
      → ((q : ℕ) → hit page order q ≡ 1 → SamePage (s.mem q) (t.mem q))
      → Owned s page order
      → Owned t page order
  Owned-stay {page} {order} u p w =
      let h = p page (hit_self page order) in
      record {
        aligned = w.aligned;
        inside = record {
          lo = omega (arith, w.inside.lo, f.start);
          hi = omega (arith, w.inside.hi, f.start, f.spanned);
        };
        unheld = u;
        used = h.count ∙ w.used;
        clean = h.mark (inl (omega (arith, w.used))) ∙ w.clean;
        unreserved = h.reserved ∙ w.unreserved;
        home = h.zone ∙ (w.home ∙ sym f.index);
        rest = λ q k e. same-Idle (p q k) (w.rest q k e);
      }

  AllMine-stay :
      (bs : List Block)
      → ((q : ℕ) → 1 ≤ used bs q → held t q ≡ 0)
      → ((q : ℕ) → 1 ≤ used bs q → SamePage (s.mem q) (t.mem q))
      → AllMine s bs
      → AllMine t bs
  unfolding used
  AllMine-stay [] u p all_none = all_none
  AllMine-stay (b ∷ bs) u p (all_more m ms) =
      all_more
        (record {
          order = m.order;
          owned =
              Owned-stay (λ q h. u q (omega (arith, h))) (λ q h. p q (omega (arith, h))) m.owned;
        })
        (AllMine-stay bs (λ q h. u q (omega (arith, h))) (λ q h. p q (omega (arith, h))) ms)

Without-used :
    {b : Block} {bs cs : List Block}
    → Without b bs cs
    → (q : ℕ) → used bs q ≡ hit b.page b.order q + used cs q
unfolding used
Without-used here q = refl
Without-used (there w) q = omega (arith, Without-used w q)

Without-Mine :
    {s : Mm} {b : Block} {bs cs : List Block}
    → Without b bs cs
    → AllMine s bs
    → Mine s b × AllMine s cs
Without-Mine here (all_more m ms) = (m, ms)
Without-Mine (there w) (all_more m ms) = let r = Without-Mine w ms in (r.0, all_more m r.1)

module _ {w : World} (x : Safe w) where
  Granted-Safe :
      {page order : ℕ} {t : Mm}
      → order < max_order
      → Granted w.mm page order t
      → Safe (record { mm = t; blocks = record { page = page; order = order } ∷ w.blocks })
        × Conserved w (record { mm = t; blocks = record { page = page; order = order } ∷ w.blocks })
  unfolding used
  Granted-Safe {page} {order} {t} o g = (
    record {
      inv = g.inv;
      mine =
          all_more (record { order = o; owned = g.owned })
            (AllMine-stay settled w.blocks (λ q h. omega (arith, x.once q, g.held q))
              (λ q h. g.others q (apart q h)) x.mine);
      once = λ q. omega (arith, x.once q, g.held q);
    },
    (λ q. omega (arith, g.held q)),
  )
    where
      settled : Settled w.mm t
      settled = record { start = g.start; spanned = g.spanned; index = g.index }

      -- The new block's first page was the zone's.
      apart : (q : ℕ) → 1 ≤ used w.blocks q → (page == q) ≡ false
      apart q h = elim (==-cases page q) [
        | inl (_, e) ↦
            absurd (omega (arith, x.once q, g.held q, hit_self page order, ap (hit page order) e))
        | inr (e, _) ↦ e
      ]

  refused-Safe :
      {t : Mm}
      → Inv t
      → ((q : ℕ) → held t q ≡ held w.mm q)
      → Fixed w.mm t
      → Safe (record { mm = t; blocks = w.blocks })
        × Conserved w (record { mm = t; blocks = w.blocks })
  refused-Safe {t} v h f = (
    record {
      inv = v;
      mine =
          AllMine-stay (record { start = f.start; spanned = f.spanned; index = f.index }) w.blocks
            (λ q k. omega (arith, x.once q, h q)) (λ q k. f.pages q) x.mine;
      once = λ q. omega (arith, x.once q, h q);
    },
    (λ q. omega (arith, h q)),
  )

  Released-Safe :
      {b : Block} {rest : List Block} {t : Mm}
      → Without b w.blocks rest
      → Released w.mm b.page b.order t
      → Safe (record { mm = t; blocks = rest }) × Conserved w (record { mm = t; blocks = rest })
  Released-Safe {b} {rest} {t} d r = (
    record {
      inv = r.inv;
      mine =
          AllMine-stay (record { start = r.start; spanned = r.spanned; index = r.index }) rest
            (λ q k. omega (arith, x.once q, r.held q, Without-used d q))
            (λ q k. r.others q (omega (arith, x.once q, Without-used d q)))
            (Without-Mine d x.mine).1;
      once = λ q. omega (arith, x.once q, r.held q, Without-used d q);
    },
    (λ q. omega (arith, r.held q, Without-used d q)),
  )

-- Each call keeps the world safe and moves pages between the zone and its users only.
pub Step-Safe : {w v : World} → Step w v → Safe w → Safe v × Conserved w v
Step-Safe {w} (alloc {t} {page} cpu order gfp c o z e) x =
    elim (Returns-result (buffered_rmqueue-Grant w.mm cpu order gfp c o z x.inv) e) [
      | granted g ↦ Granted-Safe x o g
    ]
Step-Safe {w} (fail cpu order gfp c o z e) x =
    elim (Returns-result (buffered_rmqueue-Grant w.mm cpu order gfp c o z x.inv) e) [
      | refused v h f _ ↦ refused-Safe x v h f
    ]
Step-Safe {w} (free {b} cpu c d e) x =
    let m = (Without-Mine d x.mine).0 in
    Released-Safe x d
      (Returns-result (free_pages-Released w.mm cpu b.page b.order c m.order x.inv m.owned) e)

-- From a state in which the zone is well formed, every block in use is its user's and no page is
-- with the zone or the users twice, along every sequence of calls for blocks of orders below 11
-- and of frees of blocks in use, from any processors, where no cleared page is asked for from
-- high memory without waiting: that still holds, and each page is as often with the zone or a
-- user as before, so none is handed out twice, lost or made up.
pub Steps-Safe : {w v : World} → Steps w v → Safe w → Safe v × Conserved w v
Steps-Safe done x = (x, λ q. refl)
Steps-Safe (next a rest) x =
    let first = Step-Safe a x in
    let last = Steps-Safe rest first.0 in (last.0, λ q. last.1 q ∙ first.1 q)

-- A block that a user has can be freed, and a block can be asked for.
module _ {w : World} (x : Safe w) (cpu : ℕ) (c : cpu < nr_cpus) where
  -- In a world where the zone and its users are safe, a user can free any block that it has, on
  -- any processor: the call returns, and the block is no longer in use.
  pub Safe-free :
      {b : Block} {rest : List Block}
      → Without b w.blocks rest
      → (v : World) × Step w v × (v.blocks ≡ rest)
  Safe-free {b} {rest} d =
      let m = (Without-Mine d x.mine).0 in
      let (t, e, _) =
        Returns-ok (free_pages-Released w.mm cpu b.page b.order c m.order x.inv m.owned) in
      (record { mm = t; blocks = rest }, free cpu c d e, refl)

  pub Safe-alloc : (order gfp : ℕ) → order < max_order → ZeroAllowed gfp → (v : World) × Step w v
  Safe-alloc order gfp o z =
      let (r, e, g) = Returns-ok (buffered_rmqueue-Grant w.mm cpu order gfp c o z x.inv) in
      stepped r e g
    where
      stepped :
          (r : Option ℕ × Mm)
          → buffered_rmqueue w.mm cpu order gfp ≡ ok r
          → Grant w.mm order r
          → (v : World) × Step w v
      stepped _ e (granted {page} {t} g) = (
        record { mm = t; blocks = record { page = page; order = order } ∷ w.blocks },
        alloc cpu order gfp c o z e,
      )
      stepped _ e (refused {t} _ _ _ _) =
          (record { mm = t; blocks = w.blocks }, fail cpu order gfp c o z e)

-- In a well-formed zone, a block that is asked for and, if there is one, given back at once, also
-- on another processor, leaves a well-formed zone that holds the pages that it held, and both
-- calls return; the order is below 11, and no cleared page is asked for from high memory without
-- waiting.
pub alloc_free :
    (s : Mm) (cpu order gfp cpu' : ℕ)
    → cpu < nr_cpus
    → order < max_order
    → ZeroAllowed gfp
    → cpu' < nr_cpus
    → Inv s
    → Returns
        (λ u. Inv u × ((q : ℕ) → held u q ≡ held s q))
        (buffered_rmqueue s cpu order gfp >>= λ r. elim (r.0) [
          | none ↦ ok (r.1)
          | some page ↦ free_pages (r.1) cpu' page order
        ])
alloc_free s cpu order gfp cpu' c o z c' v =
    Returns-bind (buffered_rmqueue-Grant s cpu order gfp c o z v) given_back
  where
    given_back :
        (r : Option ℕ × Mm)
        → Grant s order r
        → Returns
            (λ u. Inv u × ((q : ℕ) → held u q ≡ held s q))
            (elim (r.0) [ none ↦ ok (r.1) | some page ↦ free_pages (r.1) cpu' page order ])
    given_back _ (refused w h _ _) = returns (w, h)
    given_back _ (granted {page} {t} g) =
        Returns-mono (free_pages-Released t cpu' page order c' o g.inv g.owned)
          (λ u r. (r.inv, λ q. omega (arith, r.held q, g.held q)))
