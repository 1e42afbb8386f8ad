-- ===== src/Buddy/Cover.antt =====
-- Which pages the free lists hold, counted: `cover` is the number of free blocks over a page, and
-- `total` the pages of all free blocks.
use biscuit_os_memory.Common.{
  ℕ, suc, ◌+◌, ◌*◌, ◌^◌, ◌<◌, ◌≤◌, ◌≡◌, ap, ◌⊎◌, inl, inr, true, ◌&&◌, List, [], ◌∷◌, ◌++◌, arith,
  ltb, leb, ==_self, if◌then◌else◌, update, length, contains, erase, length-erase, sum_below,
  sum_below-change, sum_below-ge, ==-cases,
}
use native.Mathlib.Nat.{pow-suc}
use biscuit_os_memory.Common.Bits.{pow-pos}
use biscuit_os_memory.Buddy.{max_order}

-- 1 if the block of 2 ^ order pages at `page` has the page `q`, else 0.
unfoldable pub hit : ℕ → ℕ → ℕ → ℕ
hit page order q = if leb page q && ltb q (page + 2 ^ order) then 1 else 0

unfoldable pub count_in : ℕ → ℕ → List ℕ → ℕ
count_in order q [] = 0
count_in order q (p ∷ ps) = hit p order q + count_in order q ps

unfoldable pub cover : (ℕ → List ℕ) → ℕ → ℕ
cover lists q = sum_below max_order (λ order. count_in order q (lists order))

unfoldable pub total : (ℕ → List ℕ) → ℕ
total lists = sum_below max_order (λ order. length (lists order) * 2 ^ order)

pub hit_self : (page order : ℕ) → hit page order page ≡ 1
unfolding hit
hit_self page order = ground (arith, pow-pos order)

pub hit-cases :
    (page order q : ℕ)
    → ((hit page order q ≡ 1) × (page ≤ q) × (q < page + 2 ^ order))
      ⊎ ((hit page order q ≡ 0) × (page ≤ q → page + 2 ^ order ≤ q))
unfolding hit
hit-cases page order q = ground arith

pub hit-le : (page order q : ℕ) → hit page order q ≤ 1
unfolding hit
hit-le page order q = ground arith

pub hit_of_mem : (page order q : ℕ) → page ≤ q → q < page + 2 ^ order → hit page order q ≡ 1
unfolding hit
hit_of_mem page order q lo hi = ground arith

-- A block is its two halves.
pub hit-suc :
    (page order q : ℕ) → hit page (suc order) q ≡ hit page order q + hit (page + 2 ^ order) order q
unfolding hit
hit-suc page order q = ground (arith, pow-suc 2 order, pow-pos order)

pub count_in-append :
    (order q : ℕ) (ps rs : List ℕ)
    → count_in order q (ps ++ rs) ≡ count_in order q ps + count_in order q rs
unfolding count_in
count_in-append order q [] rs = omega arith
count_in-append order q (x ∷ ps) rs = omega (arith, count_in-append order q ps rs)

pub count_in-erase :
    (order p q : ℕ) (ps : List ℕ)
    → contains p ps ≡ true
    → count_in order q (erase p ps) + hit p order q ≡ count_in order q ps
unfolding count_in
count_in-erase order p q [] h = ground arith
count_in-erase order p q (x ∷ ps) h = elim (==-cases x p) [
  | inl (e, e') ↦ rw (e, e') (omega arith)
  | inr (e, _) ↦ rw e (omega (arith, count_in-erase order p q ps (rw e at h)))
]

pub hit-le-count_in :
    (order p q : ℕ) (ps : List ℕ) → contains p ps ≡ true → hit p order q ≤ count_in order q ps
hit-le-count_in order p q ps h = omega (arith, count_in-erase order p q ps h)

module _ (lists : ℕ → List ℕ) (order : ℕ) (o : order < max_order) where
  cover-update :
      (xs : List ℕ) (q : ℕ)
      → cover (update lists order xs) q + count_in order q (lists order)
        ≡ cover lists q + count_in order q xs
  unfolding cover
  cover-update xs q =
      let changed =
        sum_below-change max_order order (λ k. count_in k q (update lists order xs k))
          (λ k. count_in k q (lists k)) o (λ j e. rw e) in
      rw (==_self order) at changed

  total-update :
      (xs : List ℕ)
      → total (update lists order xs) + length (lists order) * 2 ^ order
        ≡ total lists + length xs * 2 ^ order
  unfolding total
  total-update xs =
      let changed =
        sum_below-change max_order order (λ k. length (update lists order xs k) * 2 ^ k)
          (λ k. length (lists k) * 2 ^ k) o (λ j e. rw e) in
      rw (==_self order) at changed

  pub cover-put :
      (p q : ℕ) → cover (update lists order (p ∷ lists order)) q ≡ cover lists q + hit p order q
  unfolding count_in
  cover-put p q = omega (arith, cover-update (p ∷ lists order) q)

  pub cover-take :
      (p q : ℕ)
      → contains p (lists order) ≡ true
      → cover (update lists order (erase p (lists order))) q + hit p order q ≡ cover lists q
  cover-take p q h =
      omega
        (arith, cover-update (erase p (lists order)) q, count_in-erase order p q (lists order) h)

  pub total-put : (p : ℕ) → total (update lists order (p ∷ lists order)) ≡ total lists + 2 ^ order
  total-put p = grind (arith, total-update (p ∷ lists order))

  pub total-take :
      (p : ℕ)
      → contains p (lists order) ≡ true
      → total (update lists order (erase p (lists order))) + 2 ^ order ≡ total lists
  total-take p h =
      let fewer = length-erase p (lists order) h in
      omega (arith, total-update (erase p (lists order)), ap (λ (n : ℕ). n * 2 ^ order) fewer)

  pub count_in-le-cover : (q : ℕ) → count_in order q (lists order) ≤ cover lists q
  unfolding cover
  count_in-le-cover q = sum_below-ge max_order order (λ k. count_in k q (lists k)) o

  pub hit-le-cover : (p q : ℕ) → contains p (lists order) ≡ true → hit p order q ≤ cover lists q
  hit-le-cover p q h = omega (arith, count_in-le-cover q, hit-le-count_in order p q (lists order) h)
