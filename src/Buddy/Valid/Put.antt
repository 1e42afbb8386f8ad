-- ===== src/Buddy/Valid/Put.antt =====
-- Putting a loose block on its free list keeps the invariant.
use biscuit_os_memory.Common.{
  ℕ, ◌+◌, ◌^◌, ◌%◌, ◌<◌, ◌≤◌, ◌≡◌, inl, inr, true, false, arith, ◌==◌, ==-cases, ==_self, length,
  contains,
}
use biscuit_os_memory.Page.{page_is_buddy, set_page_order}
use biscuit_os_memory.Buddy.{Mm, max_order, word, bad_range, put_block}
use biscuit_os_memory.Buddy.Cover.{
  hit, cover, hit_self, hit-cases, cover-put, hit-le-cover, total, total-put,
}
use biscuit_os_memory.Buddy.Valid.{Valid, Loose, Idle, IsBlock}

module _ (s : Mm) (page : ℕ) {order : ℕ} (o : order < max_order) where
  pub put_cover :
      (q : ℕ)
      → cover (put_block s page order).zone.free_list q
        ≡ cover s.zone.free_list q + hit page order q
  unfolding put_block
  put_cover q = cover-put s.zone.free_list order o page q

  pub put_total : total (put_block s page order).zone.free_list ≡ total s.zone.free_list + 2 ^ order
  unfolding put_block
  put_total = total-put s.zone.free_list order o page

  module _ (v : Valid s) (l : Loose s page order) where
    put-new :
        (k p : ℕ) → k < max_order → contains p (s.zone.free_list k) ≡ true → (page == p) ≡ false
    put-new k p ko h = elim (==-cases page p) [
      | inl (_, e) ↦ absurd (
          omega (
            arith,
            hit-le-cover s.zone.free_list k ko p p h,
            hit_self p k,
            l.uncovered p (rw (← e) (hit_self page order)),
          ))
      | inr (e, _) ↦ e
    ]

    put_counts :
        (k : ℕ)
        → k < max_order
        → (put_block s page order).zone.nr_free k
          ≡ length ((put_block s page order).zone.free_list k) % word
    unfolding put_block
    put_counts k ko = elim (==-cases order k) [
      | inl (e, e') ↦ rw e (rw e' (ground (arith, v.counts k ko)))
      | inr (e, _) ↦ rw e (v.counts k ko)
    ]

    put_old-IsBlock :
        (k p : ℕ)
        → k < max_order
        → contains p (s.zone.free_list k) ≡ true
        → IsBlock (put_block s page order) p k
    unfolding put_block
    put_old-IsBlock k p ko h =
        let b = v.blocks k p ko h in
        let other = put-new k p ko h in
        record {
          marked = rw other b.marked;
          recorded = rw other b.recorded;
          aligned = b.aligned;
          inside = record { lo = b.inside.lo; hi = b.inside.hi };
        }

    put_new-IsBlock : IsBlock (put_block s page order) page order
    unfolding put_block set_page_order
    put_new-IsBlock = record {
      marked = rw (==_self page);
      recorded = rw (==_self page);
      aligned = l.aligned;
      inside = record { lo = l.inside.lo; hi = l.inside.hi };
    }

    put_blocks :
        (k p : ℕ)
        → k < max_order
        → contains p ((put_block s page order).zone.free_list k) ≡ true
        → IsBlock (put_block s page order) p k
    unfolding put_block
    put_blocks k p ko h = elim (==-cases order k) [
      | inl (e, e') ↦ elim (==-cases page p) [
        | inl (f, f') ↦ rw (← e', ← f') put_new-IsBlock
        | inr (f, _) ↦ put_old-IsBlock k p ko (rw e' at (rw f at (rw e at h)))
      ]
      | inr (e, _) ↦ put_old-IsBlock k p ko (rw e at h)
    ]

    put_heads :
        (k p : ℕ)
        → k < max_order
        → bad_range (put_block s page order) p ≡ false
        → page_is_buddy ((put_block s page order).mem p) k ≡ true
        → contains p ((put_block s page order).zone.free_list k) ≡ true
    unfolding put_block set_page_order page_is_buddy bad_range
    put_heads k p ko r h = elim (==-cases page p) [
      | inl (f, f') ↦ ground arith
      | inr (f, _) ↦ ground (arith, v.heads k p ko)
    ]

    put-Idle : (q : ℕ) → Idle s q → Idle (put_block s page order) q
    unfolding put_block
    put-Idle q d = ground arith

    put_idle :
        (q : ℕ)
        → 1 ≤ cover (put_block s page order).zone.free_list q
        → Idle (put_block s page order) q
    unfolding put_block
    put_idle q h = elim (hit-cases page order q) [
      | inl (e, _, _) ↦ put-Idle q (l.idle q e)
      | inr (e, _) ↦
          put-Idle q (v.idle q (omega (arith, cover-put s.zone.free_list order o page q)))
    ]

    pub put_block-Valid : Valid (put_block s page order)
    unfolding put_block
    put_block-Valid = record {
      counts = put_counts;
      blocks = put_blocks;
      heads = put_heads;
      once = λ q. ground (
        arith,
        cover-put s.zone.free_list order o page q,
        hit-cases page order q,
        v.once q,
        l.uncovered q,
      );
      idle = put_idle;
    }
