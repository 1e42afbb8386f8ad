-- ===== src/Watermark/Supply.antt =====
-- A zone above its mark has a block of the order asked for.
use native.Mathlib.Nat.{pow-le-pow_right, le-mul_of_pos_right}
use biscuit_os_memory.Common.{
  ℕ, zero, suc, ◌+◌, ◌-◌, ◌*◌, ◌/◌, ◌^◌, ◌<◌, ◌≤◌, ◌≡◌, refl, sym, ◌∙◌, inl, inr, arith, Bool, true,
  leb-cases, [], length, sum_below, sum_below-ext, sum_below-ge, Option, some, Returns,
  Returns-mono, ==-cases,
}
use biscuit_os_memory.Common.Bits.{pow-pos}
use biscuit_os_memory.Buddy.{Mm, max_order, rmqueue}
use biscuit_os_memory.Buddy.Cover.{total}
use biscuit_os_memory.Buddy.Valid.{Valid}
use biscuit_os_memory.Buddy.Account.{total-le-spanned}
use biscuit_os_memory.Buddy.Alloc.{Rmqueue, found, exhausted, Allocated, rmqueue-Rmqueue}
use biscuit_os_memory.Pcp.Bulk.{Counted}
use biscuit_os_memory.Watermark.{zone_watermark_ok}
use biscuit_os_memory.Watermark.Enough.{
  enough, enough_loop, spared_mark, pages_from, zone_watermark_ok-enough,
}

pages_from-suc :
    (n : ℕ) (nr : ℕ → ℕ) (o : ℕ)
    → pages_from (suc n) nr o ≡ pages_from n nr o + nr (o + n) * 2 ^ (o + n)
unfolding pages_from
pages_from-suc zero nr o = let same : o + 0 ≡ o = omega arith in rw same (omega arith)
pages_from-suc (suc n) nr o =
    let rest : pages_from (suc n) nr (o + 1)
        ≡ pages_from n nr (o + 1) + nr (o + suc n) * 2 ^ (o + suc n) =
      rw shift at (pages_from-suc n nr (o + 1)) in
    omega (arith, rest)
  where
    shift : o + 1 + n ≡ o + suc n
    shift = omega arith

pages_from-sum : (n : ℕ) (nr : ℕ → ℕ) → pages_from n nr 0 ≡ sum_below n (λ k. nr k * 2 ^ k)
unfolding pages_from
pages_from-sum zero nr = refl
pages_from-sum (suc n) nr =
    let same : 0 + n ≡ n = omega arith in
    let last : pages_from (suc n) nr 0 ≡ pages_from n nr 0 + nr n * 2 ^ n =
      rw same at (pages_from-suc n nr 0) in
    omega (arith, last, pages_from-sum n nr)

-- Terms that are 0 from a place on do not count.
sum_below-prefix :
    (n m : ℕ) (f : ℕ → ℕ)
    → m ≤ n
    → ((k : ℕ) → m ≤ k → k < n → f k ≡ 0)
    → sum_below n f ≡ sum_below m f
sum_below-prefix zero m f l h = let same : m ≡ 0 = omega arith in rw same refl
sum_below-prefix (suc n) m f l h = elim (==-cases m (suc n)) [
  | inl (_, e) ↦ rw e refl
  | inr (_, ne) ↦ omega (
    arith,
    h n (omega arith) (omega arith),
    sum_below-prefix n m f (omega arith) (λ k a b. h k a (omega arith)),
  )
]

sum_below-le-more : (n m : ℕ) (f : ℕ → ℕ) → m ≤ n → sum_below m f ≤ sum_below n f
sum_below-le-more zero m f l = let same : m ≡ 0 = omega arith in rw same (omega arith)
sum_below-le-more (suc n) m f l = elim (==-cases m (suc n)) [
  | inl (_, e) ↦ rw e (omega arith)
  | inr (_, ne) ↦ omega (arith, sum_below-le-more n m f (omega arith))
]

block-lt : (order : ℕ) → order < max_order → 2 ^ order < 2 ^ 30
block-lt order o =
    omega (arith, pow-le-pow_right {n = 2} (omega arith) {i = order} {j = 10} (omega arith))

enough_loop-true :
    (rounds : ℕ) (nr : ℕ → ℕ) (o min needed free : ℕ)
    → needed ≤ free
    → enough_loop rounds nr o min needed free ≡ true
    → needed + pages_from rounds nr o ≤ free
unfolding enough_loop pages_from
enough_loop-true zero nr o min needed free a h = omega arith
enough_loop-true (suc rounds) nr o min needed free a h =
    elim (leb-cases (needed + nr o * 2 ^ o + min / 2) free) [
      | inl (e, l) ↦ omega (
        arith,
        enough_loop-true rounds nr (o + 1) (min / 2) (needed + nr o * 2 ^ o) free (omega arith)
            (rw e at h),
      )
      | inr (e, l) ↦ absurd (ground (arith, rw e at h))
    ]

enough-true :
    (order : ℕ) (nr : ℕ → ℕ) (min reserve free : ℕ)
    → enough order nr min reserve free ≡ true
    → 2 ^ order + pages_from order nr 0 ≤ free
unfolding enough
enough-true order nr min reserve free h = elim (leb-cases (2 ^ order + (min + reserve)) free) [
  | inl (e, l) ↦ enough_loop-true order nr 0 min (2 ^ order) free (omega arith) (rw e at h)
  | inr (e, l) ↦ absurd (ground (arith, rw e at h))
]

module _ {s : Mm} (v : Valid s) (c : Counted s) (small : s.zone.spanned_pages < 2 ^ 30) where
  len : ℕ → ℕ
  len k = length (s.zone.free_list k)

  pages_le : (k : ℕ) → k < max_order → len k * 2 ^ k ≤ total s.zone.free_list
  unfolding total len
  pages_le k o = sum_below-ge max_order k (λ k. length (s.zone.free_list k) * 2 ^ k) o

  length_le : (n k : ℕ) → n ≤ n * 2 ^ k
  length_le n k = le-mul_of_pos_right n (pow-pos k)

  nr_free-length : (k : ℕ) → k < max_order → s.zone.nr_free k ≡ len k
  unfolding len
  nr_free-length k o = omega (
    arith,
    v.counts k o,
    pages_le k o,
    length_le (length (s.zone.free_list k)) k,
    total-le-spanned s v,
  )

  pages_from-total :
      (order : ℕ)
      → order ≤ max_order
      → pages_from order s.zone.nr_free 0 ≡ sum_below order (λ k. len k * 2 ^ k)
  pages_from-total order o =
      pages_from-sum order s.zone.nr_free
      ∙ sum_below-ext order (λ k. s.zone.nr_free k * 2 ^ k) (λ k. len k * 2 ^ k)
          (λ k h. rw (nr_free-length k (omega arith)) refl)

  free_pages-total : s.zone.free_pages ≡ total s.zone.free_list
  free_pages-total = omega (arith, c, total-le-spanned s v)

  -- Were the lists from `order` on empty, the blocks below were all that is free.
  below :
      (order : ℕ)
      → order ≤ max_order
      → ((k : ℕ) → order ≤ k → k < max_order → s.zone.free_list k ≡ [])
      → pages_from order s.zone.nr_free 0 ≡ s.zone.free_pages
  unfolding total len
  below order o none_left =
      pages_from-total order o
      ∙ (sym (
            sum_below-prefix max_order order (λ k. length (s.zone.free_list k) * 2 ^ k) o
              (λ k a b. rw (none_left k a b) (omega arith)))
          ∙ sym free_pages-total)

  pages_bound : (order : ℕ) → order ≤ max_order → pages_from order s.zone.nr_free 0 < 2 ^ 30
  unfolding total len
  pages_bound order o = omega (
    arith,
    pages_from-total order o,
    sum_below-le-more max_order order (λ k. length (s.zone.free_list k) * 2 ^ k) o,
    total-le-spanned s v,
  )

  -- In a valid zone of fewer than 2^30 pages whose free_pages counts its free blocks, where the
  -- mark and the reserve are together below 2^31: when the zone is found to be above the mark for
  -- an order below 11, a request for that order finds a block in the free areas.
  pub zone_watermark_ok-Allocated :
      (order mark classzone_idx : ℕ) (harder high : Bool)
      → order < max_order
      → mark + s.zone.lowmem_reserve classzone_idx < 2 ^ 31
      → zone_watermark_ok s.zone order mark classzone_idx harder high ≡ true
      → Returns
          (λ r. (page : ℕ) × (t : Mm) × (r ≡ (some page, t)) × Allocated s order page t)
          (rmqueue s order)
  zone_watermark_ok-Allocated order mark classzone_idx harder high o b above =
      Returns-mono (rmqueue-Rmqueue s order o v) met
    where
      judged :
          enough order s.zone.nr_free
            (spared_mark mark harder high)
            (s.zone.lowmem_reserve classzone_idx)
            s.zone.free_pages
          ≡ true
      judged =
          sym (
            zone_watermark_ok-enough s.zone order mark classzone_idx harder high
              (omega (arith, free_pages-total, total-le-spanned s v)) b
              (omega (arith, pages_bound order (omega arith), block-lt order o)))
          ∙ above

      met :
          (r : Option ℕ × Mm)
          → Rmqueue s order order (max_order - order) r
          → (page : ℕ) × (t : Mm) × (r ≡ (some page, t)) × Allocated s order page t
      met _ (found {page} {t} a) = (page, t, refl, a)
      met _ (exhausted e) = absurd (
          omega (
            arith,
            enough-true order _ _ _ _ judged,
            below order (omega arith) (λ k a b. e k a (omega arith)),
            pow-pos order,
          ))
