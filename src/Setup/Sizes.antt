-- ===== src/Setup/Sizes.antt =====
-- What the sizes and marks of a zone are good for.
use native.Mathlib.Numerals.{add-one}
use native.Mathlib.Nat.{pow-suc, div-mul-le_self, le_of_mul-le-mul_right, mul-le-mul_left}
use biscuit_os_memory.Common.{
  ℕ, zero, suc, ◌+◌, ◌*◌, ◌/◌, ◌%◌, ◌^◌, ◌<◌, ◌≤◌, ◌≡◌, refl, ◌⊎◌, inl, inr, arith, Bool-cases,
  ltb-cases, if◌then◌else◌, min, List, [], ◌∷◌,
}
use biscuit_os_memory.Buddy.{word}
use biscuit_os_memory.Setup.{
  double_up, wait_table_size, Share, lowmem_pages, zone_pages_min, zone_marks,
}

-- A power of two that is enough, and not twice what is needed.
pub record Doubled (pages size : ℕ) : Type 0 where
  pub exponent : ℕ
  pub power : size ≡ 2 ^ exponent
  pub enough : pages ≤ size
  pub least : (size ≡ 1) ⊎ (size < 2 * pages)

double_up-Doubled :
    (rounds e pages : ℕ)
    → e + rounds ≡ 32
    → pages ≤ 2 ^ 24
    → (2 ^ e ≡ 1) ⊎ (2 ^ e < 2 * pages)
    → Doubled pages (double_up rounds (2 ^ e) pages)
unfolding double_up
double_up-Doubled zero e pages r p h =
    let last : e ≡ 32 = omega arith in
    let big : 2 ^ e ≡ 2 ^ 32 = rw last refl in
    record { exponent = e; power = refl; enough = omega arith; least = h }
double_up-Doubled (suc rounds) e pages r p h = elim (ltb-cases (2 ^ e) pages) [
  | inl (t, l) ↦
      let twice : 2 ^ (e + 1) ≡ 2 ^ e * 2 = rw add-one (pow-suc 2 e) in
      let next : 2 ^ e * 2 % word ≡ 2 ^ (e + 1) = omega (arith, twice) in
      let more : 2 ^ (e + 1) < 2 * pages = omega (arith, twice, l) in
      rw (t, next) (double_up-Doubled rounds (e + 1) pages (omega (arith, r)) p (inr more))
  | inr (t, l) ↦ rw t (record { exponent = e; power = refl; enough = l; least = h })
]

-- For every number of pages that is a word, 32 rounds of doubling are enough: the size of the
-- wait table is from 4 to 4096, at least the smaller of 4096 and a 256th of the pages, and less
-- than twice that 256th and 5.
pub wait_table_size-bounds :
    (pages : ℕ)
    → pages < word
    → (4 ≤ wait_table_size pages)
      × (wait_table_size pages ≤ 4096)
      × (min (pages / 256) 4096 ≤ wait_table_size pages)
      × (wait_table_size pages < 2 * (pages / 256) + 4 + 1)
unfolding wait_table_size
wait_table_size-bounds pages h =
    let d = double_up-Doubled 32 0 (pages / 256) refl (omega arith) (inl refl) in
    (omega arith, omega arith, omega (arith, d.enough), ground (arith, d.least))

-- What the zones of low memory keep back together.
unfoldable pub kept_back : ℕ → ℕ → List Share → ℕ
kept_back pages_min lowmem [] = 0
kept_back pages_min lowmem (z ∷ zones) =
    let rest = kept_back pages_min lowmem zones in
    if z.highmem then rest else zone_pages_min pages_min lowmem z + rest

kept_back-mul :
    (pages_min lowmem : ℕ) (zones : List Share)
    → kept_back pages_min lowmem zones * lowmem ≤ pages_min * lowmem_pages zones
unfolding kept_back lowmem_pages zone_pages_min
kept_back-mul pages_min lowmem [] = omega arith
kept_back-mul pages_min lowmem (z ∷ zones) = elim (Bool-cases z.highmem) [
  | inl e ↦ rw e (kept_back-mul pages_min lowmem zones)
  | inr e ↦ rw e (
      grind (
        arith,
        kept_back-mul pages_min lowmem zones,
        div-mul-le_self (pages_min * z.present_pages % word) lowmem,
      ))
]

-- Where the zones of low memory have pages at all, the least numbers of pages that they are told
-- to keep are together no more than the number that is to be kept back.
pub kept_back-le :
    (pages_min : ℕ) (zones : List Share)
    → 1 ≤ lowmem_pages zones
    → kept_back pages_min (lowmem_pages zones) zones ≤ pages_min
kept_back-le pages_min zones h =
    le_of_mul-le-mul_right (kept_back-mul pages_min (lowmem_pages zones) zones) h

zone_pages_min-lt :
    (pages_min lowmem : ℕ) (z : Share)
    → pages_min < 2 ^ 29
    → 1 ≤ lowmem
    → z.present_pages ≤ lowmem
    → zone_pages_min pages_min lowmem z < 2 ^ 29
unfolding zone_pages_min
zone_pages_min-lt pages_min lowmem z a one b = elim (Bool-cases z.highmem) [
  | inl e ↦ rw e (ground arith)
  | inr e ↦
      let share : pages_min * z.present_pages % word / lowmem * lowmem ≤ pages_min * lowmem =
        omega (
          arith,
          div-mul-le_self (pages_min * z.present_pages % word) lowmem,
          mul-le-mul_left pages_min b,
        ) in
      rw e (omega (arith, le_of_mul-le-mul_right share one))
]

-- For a number to be kept back below 2^29 and a zone that has no more pages than there are in low
-- memory, of which there is one at least, the marks of the zone are in order: the least is at
-- most the low one, and the low one at most the high one.
pub zone_marks-order :
    (pages_min lowmem : ℕ) (z : Share)
    → pages_min < 2 ^ 29
    → 1 ≤ lowmem
    → z.present_pages ≤ lowmem
    → let m = zone_marks pages_min lowmem z in
      (m.pages_min ≤ m.pages_low) × (m.pages_low ≤ m.pages_high)
unfolding zone_marks
zone_marks-order pages_min lowmem z a one b =
    let small = zone_pages_min-lt pages_min lowmem z a one b in
    (omega (arith, small), omega (arith, small))
