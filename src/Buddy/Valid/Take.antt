-- ===== src/Buddy/Valid/Take.antt =====
-- Taking a block from its free list keeps the invariant and leaves the block loose.
use biscuit_os_memory.Common.{
  ℕ, ◌+◌, ◌^◌, ◌%◌, ◌<◌, ◌≡◌, sym, ◌∙◌, inl, inr, ◌≢◌, true, false, arith, ◌==◌, ==-cases, length,
  contains, erase, length-erase, contains-erase, contains-erase_ne, Bool-cases,
}
use mathlib.Core.Bool.{false≢true}
use biscuit_os_memory.Page.{page_is_buddy}
use biscuit_os_memory.Buddy.{Mm, max_order, word, bad_range, take_block}
use biscuit_os_memory.Buddy.Cover.{
  hit, cover, hit_self, cover-take, count_in-erase, total, total-take, count_in-le-cover,
  hit-le-count_in,
}
use biscuit_os_memory.Buddy.Valid.{Valid, Loose, Idle, IsBlock, InZone}

module _ {s : Mm} {order : ℕ} (page : ℕ) (o : order < max_order) (v : Valid s)
    (m : contains page (s.zone.free_list order) ≡ true) where
  block : IsBlock s page order
  block = v.blocks order page o m

  -- The block stands on its list once, and on no other.
  gone : contains page (erase page (s.zone.free_list order)) ≡ false
  gone = elim (Bool-cases (contains page (erase page (s.zone.free_list order)))) [
    | inl e ↦ absurd (
        omega (
          arith,
          hit-le-count_in order page page (erase page (s.zone.free_list order)) e,
          count_in-erase order page page (s.zone.free_list order) m,
          count_in-le-cover s.zone.free_list order o page,
          hit_self page order,
          v.once page,
        ))
    | inr e ↦ e
  ]

  take_counts :
      (k : ℕ)
      → k < max_order
      → (take_block s page order).zone.nr_free k
        ≡ length ((take_block s page order).zone.free_list k) % word
  unfolding take_block
  take_counts k ko = elim (==-cases order k) [
    | inl (e, e') ↦
        rw e (ground (arith, v.counts order o, length-erase page (s.zone.free_list order) m))
    | inr (e, _) ↦ rw e (v.counts k ko)
  ]

  apart : (p : ℕ) → contains p (erase page (s.zone.free_list order)) ≡ true → (page == p) ≡ false
  apart p kept = elim (==-cases page p) [
    | inl (_, e) ↦ absurd (false≢true (sym gone ∙ (rw (← e) at kept)))
    | inr (e, _) ↦ e
  ]

  elsewhere :
      (k p : ℕ)
      → k < max_order
      → order ≢ k
      → contains p (s.zone.free_list k) ≡ true
      → (page == p) ≡ false
  elsewhere k p ko ne old = elim (==-cases page p) [
    | inl (_, e) ↦
        let there = rw (← e) at (v.blocks k p ko old) in
        absurd (ne (sym block.recorded ∙ there.recorded))
    | inr (e, _) ↦ e
  ]

  still :
      (k p : ℕ)
      → k < max_order
      → contains p ((take_block s page order).zone.free_list k) ≡ true
      → (contains p (s.zone.free_list k) ≡ true) × ((page == p) ≡ false)
  unfolding take_block
  still k p ko h = elim (==-cases order k) [
    | inl (e, e') ↦
        let kept : contains p (erase page (s.zone.free_list order)) ≡ true = rw e at h in
        (rw (← e') (contains-erase p page (s.zone.free_list order) kept), apart p kept)
    | inr (e, ne) ↦
        let old : contains p (s.zone.free_list k) ≡ true = rw e at h in
        (old, elsewhere k p ko ne old)
  ]

  take_blocks :
      (k p : ℕ)
      → k < max_order
      → contains p ((take_block s page order).zone.free_list k) ≡ true
      → IsBlock (take_block s page order) p k
  unfolding take_block
  take_blocks k p ko h =
      let (old, other) = still k p ko h in
      let b = v.blocks k p ko old in
      record {
        marked = rw other b.marked;
        recorded = rw other b.recorded;
        aligned = b.aligned;
        inside = record { lo = b.inside.lo; hi = b.inside.hi };
      }

  take_heads :
      (k p : ℕ)
      → k < max_order
      → bad_range (take_block s page order) p ≡ false
      → page_is_buddy ((take_block s page order).mem p) k ≡ true
      → contains p ((take_block s page order).zone.free_list k) ≡ true
  unfolding take_block page_is_buddy bad_range
  take_heads k p ko r h = elim (==-cases page p) [
    | inl (f, f') ↦ ground arith
    | inr (f, _) ↦
        ground (arith, v.heads k p ko, contains-erase_ne p page (s.zone.free_list order) f)
  ]

  take-Idle : (q : ℕ) → Idle s q → Idle (take_block s page order) q
  unfolding take_block
  take-Idle q d = ground arith

  pub take_cover :
      (q : ℕ)
      → cover (take_block s page order).zone.free_list q + hit page order q
        ≡ cover s.zone.free_list q
  unfolding take_block
  take_cover q = cover-take s.zone.free_list order o page q m

  pub take_total :
      total (take_block s page order).zone.free_list + 2 ^ order ≡ total s.zone.free_list
  unfolding take_block
  take_total = total-take s.zone.free_list order o page m

  pub take_block-Valid : Valid (take_block s page order)
  take_block-Valid = record {
    counts = take_counts;
    blocks = take_blocks;
    heads = take_heads;
    once = λ q. omega (arith, take_cover q, v.once q);
    idle = λ q h. take-Idle q (v.idle q (omega (arith, take_cover q)));
  }

  take_inside : InZone (take_block s page order) page order
  unfolding take_block
  take_inside = record { lo = block.inside.lo; hi = block.inside.hi }

  pub take_block-Loose : Loose (take_block s page order) page order
  take_block-Loose = record {
    aligned = block.aligned;
    inside = take_inside;
    uncovered = λ q h. omega (arith, take_cover q, v.once q);
    idle = λ q h. take-Idle q (v.idle q (omega (arith, take_cover q)));
  }
