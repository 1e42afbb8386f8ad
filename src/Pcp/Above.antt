-- ===== src/Pcp/Above.antt =====
-- A zone above its mark serves a request for a block of several pages.
use biscuit_os_memory.Common.{
  ℕ, ◌+◌, ◌^◌, ◌<◌, ◌≡◌, sym, arith, Bool, true, ==-cases, inl, inr, Option, some, none, ok,
  Returns, Returns-bind,
}
use mathlib.Core.Path.{subst}
use biscuit_os_memory.Buddy.{Mm, max_order}
use biscuit_os_memory.Buddy.Alloc.{Allocated}
use biscuit_os_memory.Watermark.{zone_watermark_ok}
use biscuit_os_memory.Watermark.Supply.{zone_watermark_ok-Allocated}
use biscuit_os_memory.Pcp.{prepare, buffered_rmqueue}
use biscuit_os_memory.Pcp.Held.{Inv}
use biscuit_os_memory.Pcp.Grant.{Handed, ZeroAllowed, prepare-Handed, Allocated-Obtained}

-- A well-formed zone above a mark
pub record Above (s : Mm) (order mark classzone_idx : ℕ) (harder high : Bool) : Type 0 where
  pub inv : Inv s
  pub small : s.zone.spanned_pages < 2 ^ 30
  pub mark_small : mark + s.zone.lowmem_reserve classzone_idx < 2 ^ 31
  pub above : zone_watermark_ok s.zone order mark classzone_idx harder high ≡ true

pub buffered_rmqueue-Handed :
    (s : Mm) (cpu order gfp mark classzone_idx : ℕ) (harder high : Bool)
    → 0 < order
    → order < max_order
    → ZeroAllowed gfp
    → Above s order mark classzone_idx harder high
    → Returns (Handed s order) (buffered_rmqueue s cpu order gfp)
unfolding buffered_rmqueue
buffered_rmqueue-Handed s cpu order gfp mark classzone_idx harder high several o z a =
    elim (==-cases order 0) [
      | inl (_, e') ↦ absurd (omega (arith, e'))
      | inr (e, _) ↦ rw e (
          Returns-bind
            (zone_watermark_ok-Allocated a.inv.valid a.inv.counted a.small order mark classzone_idx
              harder high o a.mark_small a.above)
            served)
    ]
  where
    served :
        (q : Option ℕ × Mm)
        → (page : ℕ) × (t : Mm) × (q ≡ (some page, t)) × Allocated s order page t
        → Returns
            (Handed s order)
            (elim (q.0) [ none ↦ ok (none, q.1) | some page ↦ prepare (q.1) page gfp ])
    served q (page, t, e, all) =
        subst
          (λ (q : Option ℕ × Mm).
            Returns (Handed s order)
              (elim (q.0) [ none ↦ ok (none, q.1) | some page ↦ prepare (q.1) page gfp ]))
          (sym e) (prepare-Handed a.inv (Allocated-Obtained o a.inv all) gfp z)
