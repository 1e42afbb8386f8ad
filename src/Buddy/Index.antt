-- ===== src/Buddy/Index.antt =====
-- The index arithmetic of `__page_find_buddy_bs` and `__find_combined_index_bs`: a block and its
-- twin are the two halves of the aligned block that they form.
use native.Mathlib.Nat.{mod-mod_of_dvd, dvd_of_mod-eq-zero}
use biscuit_os_memory.Common.{
  ℕ, ◌+◌, ◌-◌, ◌%◌, ◌^◌, ◌<◌, ◌≡◌, refl, sym, ◌∙◌, ap, ◌⊎◌, Bool, true, ◌&&◌, ◌||◌, arith, ltb,
  ◌==◌, ==→eq, if◌then◌else◌, bit_and,
}
use biscuit_os_memory.Common.Bits.{bit_and-mask, holds_below, holds_below-at}
use biscuit_os_memory.Buddy.{buddy_index, combined_index, page_find_buddy}

divides : ℕ → Bool
divides order = 2048 % 2 ^ order == 0

divides_table : holds_below divides 12 ≡ true
unfolding divides
divides_table = refl

-- The remainder in a map of 2 ^ 11 pages decides the alignment of a page.
pub mod-2048-mod : (a order : ℕ) → order < 12 → a % 2048 % 2 ^ order ≡ a % 2 ^ order
unfolding divides
mod-2048-mod a order h =
    mod-mod_of_dvd (2 ^ order) a
      (dvd_of_mod-eq-zero (2 ^ order) (==→eq _ _ (holds_below-at 12 divides order h divides_table)))

halves : ℕ → ℕ → Bool
unfolding buddy_index combined_index
halves order x =
    if x % 2 ^ order == 0
    then (ltb (combined_index x order) 2048
        && ((combined_index x order % 2 ^ (order + 1) == 0)
            && (((buddy_index x order == x + 2 ^ order) && (combined_index x order == x))
                || ((buddy_index x order + 2 ^ order == x)
                    && (combined_index x order == buddy_index x order)))))
    else true

halves_table : holds_below (λ order. holds_below (halves order) 2048) 10 ≡ true
unfolding halves
halves_table = refl

halves_lem : (order x : ℕ) → order < 10 → x < 2048 → halves order x ≡ true
halves_lem order x ho hx =
    holds_below-at 2048 (halves order) x hx
      (holds_below-at 10 (λ order. holds_below (halves order) 2048) order ho halves_table)

pub record IndexFacts (order x : ℕ) : Type 0 where
  pub small : combined_index x order < 2048
  pub aligned : combined_index x order % 2 ^ (order + 1) ≡ 0
  pub halves :
      ((buddy_index x order ≡ x + 2 ^ order) × (combined_index x order ≡ x))
      ⊎ ((buddy_index x order + 2 ^ order ≡ x) × (combined_index x order ≡ buddy_index x order))

index_facts : (order x : ℕ) → order < 10 → x < 2048 → x % 2 ^ order ≡ 0 → IndexFacts order x
unfolding halves
index_facts order x ho hx e = ground (arith, halves_lem order x ho hx)

-- What `merge_buddies` needs of a block at `page`: its twin is just behind it or just before it,
-- and the first of the two is aligned for the next order.
pub record Twin (page order : ℕ) : Type 0 where
  pub index :
      (page + combined_index (page % 2048) order - page % 2048) % 2048
      ≡ combined_index (page % 2048) order
  pub aligned : (page + combined_index (page % 2048) order - page % 2048) % 2 ^ (order + 1) ≡ 0
  pub sides :
      ((page_find_buddy page (page % 2048) order ≡ page + 2 ^ order)
        × (page + combined_index (page % 2048) order - page % 2048 ≡ page))
      ⊎ ((page_find_buddy page (page % 2048) order + 2 ^ order ≡ page)
          × (page + combined_index (page % 2048) order - page % 2048
              ≡ page_find_buddy page (page % 2048) order))

-- For an aligned block of an order below 10, the index arithmetic on the low 11 bits finds the
-- block just behind or just before it with which it forms an aligned block of the next order, and
-- the combined index is the first of the two.
pub twin : (page order : ℕ) → order < 10 → page % 2 ^ order ≡ 0 → Twin page order
unfolding page_find_buddy
twin page order h e =
    let x = page % 2048 in
    let f = index_facts order x h (omega arith) (mod-2048-mod page order (omega arith) ∙ e) in
    let idx : (page + combined_index x order - x) % 2048 ≡ combined_index x order =
      omega (arith, f.small) in
    record {
      index = idx;
      aligned =
          sym (mod-2048-mod _ (order + 1) (omega arith))
          ∙ (ap (λ n. n % 2 ^ (order + 1)) idx ∙ f.aligned);
      sides = ground (arith, f.halves);
    }

-- The test of `BUG_ON_BS(page_idx & (order_size - 1))`.
pub page_idx_lem : (page : ℕ) → bit_and page (2 ^ 11 - 1) ≡ page % 2048
page_idx_lem page = bit_and-mask 11 page

pub unaligned_lem :
    (page order : ℕ)
    → order < 12
    → bit_and (bit_and page (2 ^ 11 - 1)) (2 ^ order - 1) ≡ page % 2 ^ order
unaligned_lem page order h =
    bit_and-mask order (bit_and page (2 ^ 11 - 1))
    ∙ (ap (λ n. n % 2 ^ order) (page_idx_lem page) ∙ mod-2048-mod page order h)
