-- ===== src/Buddy/Account.antt =====
-- The free pages of a zone, counted: the blocks on the lists are as many pages as the zone has at
-- most, and `free_pages` is their number.
use biscuit_os_memory.Common.{
  ℕ, zero, suc, ◌+◌, ◌*◌, ◌^◌, ◌<◌, ◌≤◌, ◌≡◌, refl, sym, ◌∙◌, ◌⊎◌, inl, arith, List, [], ◌∷◌,
  length, contains, sum_below, sum_below-ext, true, ==_self,
}
use biscuit_os_memory.Common.Bits.{pow-pos}
use biscuit_os_memory.Buddy.{Mm, max_order}
use biscuit_os_memory.Buddy.Cover.{hit, count_in, cover, total, hit-cases}
use biscuit_os_memory.Buddy.Valid.{Valid}

sum_below-add : (n : ℕ) (f g : ℕ → ℕ) → sum_below n (λ i. f i + g i) ≡ sum_below n f + sum_below n g
sum_below-add zero f g = refl
sum_below-add (suc n) f g = omega (arith, sum_below-add n f g)

sum_below-zero : (n : ℕ) → sum_below n (λ i. 0) ≡ 0
sum_below-zero zero = refl
sum_below-zero (suc n) = omega (arith, sum_below-zero n)

-- The order of two sums does not matter.
sum_below_comm :
    (n m : ℕ) (f : ℕ → ℕ → ℕ)
    → sum_below n (λ i. sum_below m (λ k. f i k)) ≡ sum_below m (λ k. sum_below n (λ i. f i k))
sum_below_comm zero m f = sym (sum_below-zero m)
sum_below_comm (suc n) m f =
    omega
      (arith, sum_below_comm n m f, sum_below-add m (λ k. f n k) (λ k. sum_below n (λ i. f i k)))

sum_below-le : (n : ℕ) (f : ℕ → ℕ) → ((i : ℕ) → f i ≤ 1) → sum_below n f ≤ n
sum_below-le zero f h = omega arith
sum_below-le (suc n) f h = omega (arith, h n, sum_below-le n f h)

-- The pages of a block that are among the `n` from `start` on: what the range leaves of it.
block_in_range :
    (start n page order : ℕ)
    → start ≤ page
    → ((start + n ≤ page) × (sum_below n (λ i. hit page order (start + i)) ≡ 0))
      ⊎ ((page < start + n)
          × (start + n ≤ page + 2 ^ order)
          × (sum_below n (λ i. hit page order (start + i)) + page ≡ start + n))
      ⊎ ((page + 2 ^ order < start + n)
          × (sum_below n (λ i. hit page order (start + i)) ≡ 2 ^ order))
block_in_range start zero page order lo = inl (omega arith, refl)
block_in_range start (suc n) page order lo =
    ground
      (arith, block_in_range start n page order lo, hit-cases page order (start + n), pow-pos order)

block_pages :
    (start n page order : ℕ)
    → start ≤ page
    → page + 2 ^ order ≤ start + n
    → sum_below n (λ i. hit page order (start + i)) ≡ 2 ^ order
block_pages start n page order lo hi =
    ground (arith, block_in_range start n page order lo, pow-pos order)

list_pages :
    (start n order : ℕ) (ps : List ℕ)
    → ((p : ℕ) → contains p ps ≡ true → (start ≤ p) × (p + 2 ^ order ≤ start + n))
    → sum_below n (λ i. count_in order (start + i) ps) ≡ length ps * 2 ^ order
unfolding count_in
list_pages start n order [] h = omega (arith, sum_below-zero n)
list_pages start n order (p ∷ ps) h =
    let here = h p (rw (==_self p) refl) in
    let rest = list_pages start n order ps (λ q m. h q (ground arith)) in
    let first = block_pages start n p order here.0 here.1 in
    sum_below-add n (λ i. hit p order (start + i)) (λ i. count_in order (start + i) ps)
    ∙ grind (arith, first, rest)

-- In a valid zone the pages of all free blocks are no more than the pages that the zone spans.
pub total-le-spanned : (s : Mm) → Valid s → total s.zone.free_list ≤ s.zone.spanned_pages
unfolding total cover
total-le-spanned s v = omega (
  arith,
  sum_below_comm n max_order (λ i order. count_in order (start + i) (s.zone.free_list order)),
  sum_below-ext max_order
      (λ order. sum_below n (λ i. count_in order (start + i) (s.zone.free_list order)))
      (λ order. length (s.zone.free_list order) * 2 ^ order)
      (λ order o. list_pages start n order (s.zone.free_list order) (inside order o)),
  sum_below-le n (λ i. cover s.zone.free_list (start + i)) (λ i. v.once (start + i)),
)
  where
    start : ℕ
    start = s.zone.zone_start_pfn

    n : ℕ
    n = s.zone.spanned_pages

    inside :
        (order : ℕ)
        → order < max_order
        → (p : ℕ) → contains p (s.zone.free_list order) ≡ true
        → (start ≤ p) × (p + 2 ^ order ≤ start + n)
    inside order o p m = let b = v.blocks order p o m in (b.inside.lo, b.inside.hi)
