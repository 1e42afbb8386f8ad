-- ===== src/Buddy/Valid/Split.antt =====
-- Loose blocks: cutting one in halves, joining two, and what the moves of other blocks leave.
use native.Mathlib.Nat.{
  pow-suc, mod-mod_of_dvd, dvd_of_mod-eq-zero, mul-mod_right, add-mod_right, zero-mod,
}
use biscuit_os_memory.Common.{ℕ, suc, ◌+◌, ◌^◌, ◌%◌, ◌≡◌, sym, ◌∙◌, ap, inl, inr, arith}
use biscuit_os_memory.Buddy.{Mm}
use biscuit_os_memory.Buddy.Cover.{hit-cases, hit-suc, hit-le}
use biscuit_os_memory.Buddy.Valid.{Loose}

-- A block is aligned for every smaller size.
aligned_suc : (a order : ℕ) → a % 2 ^ suc order ≡ 0 → a % 2 ^ order ≡ 0
aligned_suc a order h =
    sym (
      mod-mod_of_dvd (2 ^ order) a
        (dvd_of_mod-eq-zero (2 ^ order) (rw pow-suc (mul-mod_right (2 ^ order) 2))))
    ∙ (ap (λ n. n % 2 ^ order) h ∙ zero-mod (2 ^ order))

module _ {s : Mm} {page order : ℕ} (l : Loose s page (suc order)) where
  pub low_half-Loose : Loose s page order
  low_half-Loose = record {
    aligned = aligned_suc page order l.aligned;
    inside = record { lo = l.inside.lo; hi = omega (arith, l.inside.hi, pow-suc 2 order) };
    uncovered =
        λ q h. l.uncovered q (omega (arith, hit-suc page order q, hit-le page (suc order) q));
    idle = λ q h. l.idle q (omega (arith, hit-suc page order q, hit-le page (suc order) q));
  }

  pub high_half-Loose : Loose s (page + 2 ^ order) order
  high_half-Loose = record {
    aligned = add-mod_right page (2 ^ order) ∙ aligned_suc page order l.aligned;
    inside = record {
      lo = omega (arith, l.inside.lo);
      hi = omega (arith, l.inside.hi, pow-suc 2 order);
    };
    uncovered =
        λ q h. l.uncovered q (omega (arith, hit-suc page order q, hit-le page (suc order) q));
    idle = λ q h. l.idle q (omega (arith, hit-suc page order q, hit-le page (suc order) q));
  }

-- The halves of an aligned block, both loose, are a loose block.
pub join-Loose :
    {s : Mm} {page order : ℕ}
    → page % 2 ^ suc order ≡ 0
    → Loose s page order
    → Loose s (page + 2 ^ order) order
    → Loose s page (suc order)
join-Loose {s} {page} {order} e a b = record {
  aligned = e;
  inside = record { lo = a.inside.lo; hi = omega (arith, b.inside.hi, pow-suc 2 order) };
  uncovered = λ q h. elim (hit-cases page order q) [
    | inl (f, _, _) ↦ a.uncovered q f
    | inr (f, _) ↦ b.uncovered q (omega (arith, hit-suc page order q))
  ];
  idle = λ q h. elim (hit-cases page order q) [
    | inl (f, _, _) ↦ a.idle q f
    | inr (f, _) ↦ b.idle q (omega (arith, hit-suc page order q))
  ];
}
