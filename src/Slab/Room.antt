-- ===== src/Slab/Room.antt =====
-- A slab of mm/slab.c that lacks an object on its chain is in use.
use biscuit_os_memory.Common.{
  ℕ, zero, suc, ◌≤◌, ◌<◌, ◌≡◌, refl, false, if◌then◌else◌, ==_self, List, [], ◌∷◌, length, contains,
  sum_below, sum_below-change, sum_below-lt, Bool-cases, inl, inr, arith,
}
use biscuit_os_memory.Slab.Chain.{Links}

mark : List ℕ → ℕ → ℕ
mark xs j = if contains j xs then 1 else 0

sum_mark-zero : (n : ℕ) → sum_below n (mark []) ≡ 0
unfolding mark
sum_mark-zero zero = refl
sum_mark-zero (suc n) = omega (arith, sum_mark-zero n)

-- The objects of a chain, counted one by one.
sum_mark :
    (num : ℕ) (bufctl : ℕ → ℕ) (free : ℕ) (xs : List ℕ)
    → Links num bufctl free xs
    → sum_below num (mark xs) ≡ length xs
unfolding mark
sum_mark num bufctl free [] links = sum_mark-zero num
sum_mark num bufctl free (x ∷ xs) (e, (lt, (new, rest))) = ground (
  arith,
  sum_below-change num x (mark (x ∷ xs)) (mark xs) lt (λ j differ. ground arith),
  sum_mark num bufctl (bufctl x) xs rest,
  ==_self x,
)

pub length-Links :
    (num : ℕ) (bufctl : ℕ → ℕ) (free k : ℕ) (xs : List ℕ)
    → Links num bufctl free xs
    → k < num
    → contains k xs ≡ false
    → length xs < num
unfolding mark
length-Links num bufctl free k xs links lt missing = omega (
  arith,
  sum_mark num bufctl free xs links,
  sum_below-lt num k (mark xs) (λ j. at_most j) lt (ground arith),
)
  where
    at_most : (j : ℕ) → mark xs j ≤ 1
    at_most j = elim (Bool-cases (contains j xs)) [
      | inl e ↦ rw e (omega arith)
      | inr e ↦ rw e (omega arith)
    ]
