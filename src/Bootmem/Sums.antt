-- ===== src/Bootmem/Sums.antt =====
-- Sums over the free pages of a map of mm/bootmem.c.
use biscuit_os_memory.Common.{
  ℕ, zero, suc, ◌+◌, ◌-◌, ◌<◌, ◌≤◌, ◌≡◌, sym, ap, refl, ◌∙◌, inl, inr, arith, Bool, true, false,
  leb, ltb, not, ◌&&◌, ==-cases, Bool-cases, if◌then◌else◌,
}
use biscuit_os_memory.Buddy.Cover.{hit}
use biscuit_os_memory.Bootmem.Handover.{all_free, any_free}

-- What the free pages among `rounds` pages from `i` on come to
unfoldable pub free_sum : (ℕ → Bool) → (ℕ → ℕ) → ℕ → ℕ → ℕ
free_sum map f zero i = 0
free_sum map f (suc rounds) i = (if map i then 0 else f i) + free_sum map f rounds (i + 1)

pub free_sum-add :
    (map : ℕ → Bool) (f : ℕ → ℕ) (a b i n k : ℕ)
    → n ≡ a + b
    → k ≡ i + a
    → free_sum map f n i ≡ free_sum map f a i + free_sum map f b k
unfolding free_sum
free_sum-add map f zero b i n k en ek =
    let same : n ≡ b = omega (arith, en) in
    let there : k ≡ i = omega (arith, ek) in rw (same, there) (omega arith)
free_sum-add map f (suc a) b i n k en ek =
    let more : n ≡ suc (a + b) = omega (arith, en) in
    rw more (omega (arith, free_sum-add map f a b (i + 1) (a + b) k refl (omega (arith, ek))))

pub free_sum-zero :
    (map : ℕ → Bool) (f : ℕ → ℕ) (rounds i : ℕ)
    → ((j : ℕ) → i ≤ j → j < i + rounds → map j ≡ false → f j ≡ 0)
    → free_sum map f rounds i ≡ 0
unfolding free_sum
free_sum-zero map f zero i h = refl
free_sum-zero map f (suc rounds) i h =
    let rest = free_sum-zero map f rounds (i + 1) (λ j lo hi. h j (omega arith) (omega arith)) in
    elim (Bool-cases (map i)) [
      | inl e ↦ rw e (omega (arith, rest))
      | inr e ↦ rw e (omega (arith, rest, h i (omega arith) (omega arith) e))
    ]

-- How often a page is among them
pub free_sum-hit :
    (map : ℕ → Bool) (base rounds i q : ℕ)
    → free_sum map (λ j. hit (base + j) 0 q) rounds i
      ≡ (if leb (base + i) q && ltb q (base + i + rounds) && not (map (q - base)) then 1 else 0)
unfolding free_sum hit
free_sum-hit map base zero i q = ground arith
free_sum-hit map base (suc rounds) i q = elim (==-cases (base + i) q) [
  | inl (_, e) ↦
      let index : q - base ≡ i = omega (arith, e) in
      rw index (ground (arith, e, free_sum-hit map base rounds (i + 1) q))
  | inr (_, differ) ↦ ground (arith, free_sum-hit map base rounds (i + 1) q, differ)
]

pub all_free-false :
    (rounds : ℕ) (map : ℕ → Bool) (i j : ℕ)
    → all_free rounds map i ≡ true
    → i ≤ j
    → j < i + rounds
    → map j ≡ false
unfolding all_free
all_free-false zero map i j e lo hi = absurd (omega arith)
all_free-false (suc rounds) map i j e lo hi = elim (==-cases i j) [
  | inl (_, same) ↦ ap map (sym same) ∙ ground (arith, e)
  | inr (_, differ) ↦
      all_free-false rounds map (i + 1) j (ground (arith, e)) (omega arith) (omega arith)
]

pub any_free-true :
    (rounds : ℕ) (map : ℕ → Bool) (i j : ℕ)
    → any_free rounds map i ≡ false
    → i ≤ j
    → j < i + rounds
    → map j ≡ true
unfolding any_free
any_free-true zero map i j e lo hi = absurd (omega arith)
any_free-true (suc rounds) map i j e lo hi = elim (==-cases i j) [
  | inl (_, same) ↦ ap map (sym same) ∙ ground (arith, e)
  | inr (_, differ) ↦
      any_free-true rounds map (i + 1) j (ground (arith, e)) (omega arith) (omega arith)
]

pub free_sum-ones :
    (map : ℕ → Bool) (rounds i : ℕ)
    → ((j : ℕ) → i ≤ j → j < i + rounds → map j ≡ false)
    → free_sum map (λ _. 1) rounds i ≡ rounds
unfolding free_sum
free_sum-ones map zero i h = refl
free_sum-ones map (suc rounds) i h =
    rw (h i (omega arith) (omega arith))
      (omega (arith, free_sum-ones map rounds (i + 1) (λ j lo hi. h j (omega arith) (omega arith))))
