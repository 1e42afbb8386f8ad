-- ===== src/Buddy/Free.antt =====
-- `__free_pages_bulk_bs`: a block that goes back is joined with its twin while the twin is free.
use native.Mathlib.Numerals.{add-one}
use native.Mathlib.Nat.{pow-suc}
use biscuit_os_memory.Common.{
  ℕ, zero, suc, ◌+◌, ◌-◌, ◌^◌, ◌%◌, ◌<◌, ◌≡◌, refl, sym, ◌∙◌, ◌⊎◌, inl, inr, arith, ok, Returns,
  returns, Returns-mono, contains, true, false, Bool-cases, bit_and, nonzero,
}
use mathlib.Core.Path.{subst}
use biscuit_os_memory.Page.{page_is_buddy}
use biscuit_os_memory.Buddy.{
  Mm, max_order, word, put_block, take_block, set_free_pages, bad_range, merge_buddies,
  combined_index, page_find_buddy, free_pages_bulk_one,
}
use biscuit_os_memory.Buddy.Cover.{hit, cover, total, hit-suc, hit-le-cover, hit_self}
use biscuit_os_memory.Buddy.Valid.{Valid, Idle, Loose, bad_range-false}
use biscuit_os_memory.Buddy.Valid.Put.{put_cover, put_total, put_block-Valid}
use biscuit_os_memory.Buddy.Valid.Take.{take_cover, take_total, take_block-Valid, take_block-Loose}
use biscuit_os_memory.Buddy.Valid.Split.{join-Loose}
use biscuit_os_memory.Buddy.Index.{Twin, twin, page_idx_lem, unaligned_lem}
use biscuit_os_memory.Buddy.Frame.{
  Frame, Frame-trans, Frame-put_block, Frame-take_block, Frame-set_free_pages, Frame-Loose,
  set_free_pages-Valid,
}

-- The lists have the block's pages besides what they had.
pub record Merged (s : Mm) (page order : ℕ) (t : Mm) : Type 0 where
  pub valid : Valid t
  pub cover : (q : ℕ) → cover t.zone.free_list q ≡ cover s.zone.free_list q + hit page order q
  pub total : total t.zone.free_list ≡ total s.zone.free_list + 2 ^ order
  pub free_pages : t.zone.free_pages ≡ s.zone.free_pages
  pub frame : Frame s t

free_pages-take_block :
    (s : Mm) (page order : ℕ) → (take_block s page order).zone.free_pages ≡ s.zone.free_pages
unfolding take_block
free_pages-take_block s page order = refl

module _ {s : Mm} {page order : ℕ} (o : order < max_order) (v : Valid s)
    (l : Loose s page order) where
  merge_done : Returns (Merged s page order) (ok (put_block s page order))
  unfolding put_block
  merge_done = returns (record {
    valid = put_block-Valid s page o v l;
    cover = put_cover s page o;
    total = put_total s page o;
    free_pages = refl;
    frame = Frame-put_block s page order (l.idle page (hit_self page order));
  })

module _ {s : Mm} {page order : ℕ} (buddy : ℕ) (o : suc order < max_order) (v : Valid s)
    (l : Loose s page order) (m : contains buddy (s.zone.free_list order) ≡ true) where
  lower : order < max_order
  lower = omega arith

  buddy_idle : Idle s buddy
  buddy_idle =
      v.idle buddy (
        omega
          (arith, hit-le-cover s.zone.free_list order lower buddy buddy m, hit_self buddy order))

  without-Valid : Valid (take_block s buddy order)
  without-Valid = take_block-Valid buddy lower v m

  without-Loose : Loose (take_block s buddy order) page order
  without-Loose =
      Frame-Loose (Frame-take_block s buddy order buddy_idle) l
        λ q h. omega (arith, take_cover buddy lower v m q, l.uncovered q h)

  -- The two twins together are a loose block of the next order.
  joined-Loose :
      (c : ℕ)
      → c % 2 ^ suc order ≡ 0
      → ((buddy ≡ page + 2 ^ order) × (c ≡ page)) ⊎ ((buddy + 2 ^ order ≡ page) × (c ≡ buddy))
      → Loose (take_block s buddy order) c (suc order)
  joined-Loose c e (inl (b, same)) = rw same (
      join-Loose (rw same at e) without-Loose (
        subst (λ x. Loose (take_block s buddy order) x order) b (take_block-Loose buddy lower v m)))
  joined-Loose c e (inr (b, same)) =
      rw same
        (join-Loose (rw same at e) (take_block-Loose buddy lower v m) (rw (← b) at without-Loose))

  twin_hits :
      (c q : ℕ)
      → ((buddy ≡ page + 2 ^ order) × (c ≡ page)) ⊎ ((buddy + 2 ^ order ≡ page) × (c ≡ buddy))
      → hit c (suc order) q ≡ hit page order q + hit buddy order q
  twin_hits c q (inl (b, same)) = rw (same, b) (hit-suc page order q)
  twin_hits c q (inr (b, same)) = rw (same, ← b) (omega (arith, hit-suc buddy order q))

  merge_step :
      (c : ℕ) {t : Mm}
      → ((buddy ≡ page + 2 ^ order) × (c ≡ page)) ⊎ ((buddy + 2 ^ order ≡ page) × (c ≡ buddy))
      → Merged (take_block s buddy order) c (suc order) t
      → Merged s page order t
  merge_step c sides g = record {
    valid = g.valid;
    cover = λ q. omega (arith, g.cover q, twin_hits c q sides, take_cover buddy lower v m q);
    total = omega (arith, g.total, take_total buddy lower v m, pow-suc 2 order);
    free_pages = g.free_pages ∙ free_pages-take_block s buddy order;
    frame = Frame-trans (Frame-take_block s buddy order buddy_idle) g.frame;
  }

merge_buddies-Merged :
    (rounds : ℕ) (s : Mm) (page page_idx order : ℕ)
    → order + rounds ≡ max_order - 1
    → page_idx ≡ page % 2048
    → Valid s
    → Loose s page order
    → Returns (Merged s page order) (merge_buddies rounds s page page_idx order)
unfolding merge_buddies
merge_buddies-Merged zero s page page_idx order r i v l = merge_done (omega arith) v l
merge_buddies-Merged (suc rounds) s page page_idx order r i v l =
    rw i (elim (Bool-cases (bad_range s buddy)) [
      | inl out ↦ rw out (merge_done (omega arith) v l)
      | inr in_range ↦ elim (Bool-cases (page_is_buddy (s.mem buddy) order)) [
        | inl free ↦
            rw (in_range, free)
              (let m = v.heads order buddy (omega arith) in_range free in
                Returns-mono
                  (merge_buddies-Merged rounds (take_block s buddy order) first
                    (combined_index (page % 2048) order) (order + 1) (omega arith) (sym pair.index)
                    (without-Valid buddy (omega arith) v l m)
                    (rw add-one (
                      joined-Loose buddy (omega arith) v l m first (rw add-one at pair.aligned)
                        pair.sides)))
                  (λ t g. merge_step buddy (omega arith) v l m first pair.sides (rw add-one at g)))
        | inr used ↦ rw (in_range, used) (merge_done (omega arith) v l)
      ]
    ])
  where
    buddy : ℕ
    buddy = page_find_buddy page (page % 2048) order

    first : ℕ
    first = page + combined_index (page % 2048) order - page % 2048

    pair : Twin page order
    pair = twin page order (omega arith) l.aligned

-- What `__free_pages_bulk_bs` leaves: the lists have gained exactly the block's pages.
pub record Freed (s : Mm) (page order : ℕ) (t : Mm) : Type 0 where
  pub valid : Valid t
  pub cover : (q : ℕ) → cover t.zone.free_list q ≡ cover s.zone.free_list q + hit page order q
  pub total : total t.zone.free_list ≡ total s.zone.free_list + 2 ^ order
  pub free_pages : t.zone.free_pages ≡ (s.zone.free_pages + 2 ^ order) % word
  pub frame : Frame s t

-- Freeing a block that no list holds, of pages without users, in a valid zone returns and keeps
-- the zone valid; the lists hold the pages of the block besides those that they held, whatever
-- twins were joined, and free_pages grows by the block's size modulo 2^32.
pub free_pages_bulk_one-Freed :
    (s : Mm) (page order : ℕ)
    → order < max_order
    → Valid s
    → Loose s page order
    → Returns (Freed s page order) (free_pages_bulk_one s page order)
unfolding free_pages_bulk_one
free_pages_bulk_one-Freed s page order o v l = rw (aligned, in_range) (Returns-mono merged freed)
  where
    aligned : nonzero (bit_and (bit_and page (2 ^ 11 - 1)) (2 ^ order - 1)) ≡ false
    aligned = rw (unaligned_lem page order (omega arith), l.aligned)

    in_range : bad_range s page ≡ false
    in_range = bad_range-false l.inside (l.idle page (hit_self page order))

    counted : Mm
    counted = set_free_pages s ((s.zone.free_pages + 2 ^ order) % word)

    merged :
        Returns
          (Merged counted page order)
          (merge_buddies (max_order - 1 - order) counted page (bit_and page (2 ^ 11 - 1)) order)
    merged =
        merge_buddies-Merged (max_order - 1 - order) counted page _ order (omega arith)
          (page_idx_lem page) (set_free_pages-Valid _ v)
          (Frame-Loose (Frame-set_free_pages s _) l l.uncovered)

    freed : (t : Mm) → Merged counted page order t → Freed s page order t
    freed t g = record {
      valid = g.valid;
      cover = g.cover;
      total = g.total;
      free_pages = g.free_pages;
      frame = Frame-trans (Frame-set_free_pages s _) g.frame;
    }
