-- ===== src/Common/Bits.antt =====
-- Facts about the bit operations, which compute at numerals only.
use Prim.Native.Nat.{
  ℕ, zero, suc, ◌+◌, ◌-◌, ◌*◌, ◌/◌, ◌%◌, ◌^◌, ◌≤◌, ◌<◌, min, bit_and, digits, bit_and-bitwise,
}
use mathlib.Core.Path.{◌≡◌, refl, sym, ap, ◌∙◌}
use mathlib.Core.Bool.{Bool, true, false}
use biscuit_os_memory.Common.Tests.{if◌then◌else◌}
use native.Mathlib.Omega.{arith}
use native.Mathlib.Nat.{
  zero-mod, pow-suc, one-le-pow, mod-lt, mod-eq_of_lt, div-add-mod', add-mul-mod_self_right,
}

half_mod : (p a : ℕ) → 0 < p → (a / 2 % p) * 2 + a % 2 ≡ a % (p * 2)
half_mod p a h = sym (
    ap (λ n. n % (p * 2)) split
    ∙ add-mul-mod_self_right (a / 2 % p * 2 + a % 2) (a / 2 / p) (p * 2)
    ∙ mod-eq_of_lt small)
  where
    whole : a / 2 / p * p + a / 2 % p ≡ a / 2
    whole = div-add-mod' (a / 2) p

    split : a ≡ a / 2 % p * 2 + a % 2 + a / 2 / p * (p * 2)
    split = omega (arith, whole, ap (λ (t : ℕ). t * 2) whole)

    small : a / 2 % p * 2 + a % 2 < p * 2
    small = omega (arith, mod-lt (a / 2) h)

pub pow-pos : (k : ℕ) → 0 < 2 ^ k
pow-pos k = one-le-pow k 2 (omega arith)

-- The digits of a number under a mask of `k` ones are those of its remainder by `2 ^ k`.
mask-digits : (count k a : ℕ) → a ≤ count → digits (λ _. zero) min count a (2 ^ k - 1) ≡ a % 2 ^ k
mask-digits zero k zero h = sym (zero-mod (2 ^ k))
mask-digits zero k (suc a) h = absurd (omega arith)
mask-digits (suc count) k zero h = sym (zero-mod (2 ^ k))
mask-digits (suc count) zero (suc a) h =
    omega (arith, mask-digits count zero (suc a / 2) (omega arith))
mask-digits (suc count) (suc k) (suc a) h =
    rw (pow-suc 2 k, shifted)
      (omega (
        arith,
        mask-digits count k (suc a / 2) (omega arith),
        half_mod (2 ^ k) (suc a) (pow-pos k),
        pow-pos k,
      ))
  where
    shifted : (2 ^ k * 2 - 1) / 2 ≡ 2 ^ k - 1
    shifted = omega (arith, pow-pos k)

pub bit_and-mask : (k a : ℕ) → bit_and a (2 ^ k - 1) ≡ a % 2 ^ k
bit_and-mask k a = bit_and-bitwise a (2 ^ k - 1) ∙ mask-digits a k a (omega arith)

-- A test that holds of every number below a bound, found by evaluation.
abbrev pub holds_below : (ℕ → Bool) → ℕ → Bool
holds_below test zero = true
holds_below test (suc bound) = if test bound then holds_below test bound else false

pub holds_below-at :
    (bound : ℕ) (test : ℕ → Bool) (x : ℕ)
    → x < bound
    → holds_below test bound ≡ true
    → test x ≡ true
holds_below-at zero test x lt h = absurd (omega arith)
holds_below-at (suc bound) test x lt h = ground (arith, holds_below-at bound test x)

-- The digits of a number under a mask, and under the mask of the other `k` digits, make it up.
split-digits :
    (count k a m : ℕ)
    → a ≤ count
    → a < 2 ^ k
    → m < 2 ^ k
    → digits (λ _. zero) min count a m + digits (λ _. zero) min count a (2 ^ k - 1 - m) ≡ a
split-digits zero k zero m h la lm = refl
split-digits zero k (suc a) m h la lm = absurd (omega arith)
split-digits (suc count) k zero m h la lm = refl
split-digits (suc count) zero (suc a) m h la lm = absurd (omega arith)
split-digits (suc count) (suc k) (suc a) m h la lm =
    rw (others, last)
      (ground (
        arith,
        split-digits count k (suc a / 2) (m / 2) (omega arith) (omega (arith, power, la))
            (omega (arith, power, lm)),
      ))
  where
    power : 2 ^ suc k ≡ 2 ^ k * 2
    power = pow-suc 2 k

    others : (2 ^ suc k - 1 - m) / 2 ≡ 2 ^ k - 1 - m / 2
    others = omega (arith, power, lm)

    last : (2 ^ suc k - 1 - m) % 2 ≡ 1 - m % 2
    last = omega (arith, power, lm)

pub bit_and-others :
    (k a m : ℕ) → a < 2 ^ k → m < 2 ^ k → bit_and a m + bit_and a (2 ^ k - 1 - m) ≡ a
bit_and-others k a m la lm =
    rw (bit_and-bitwise a m, bit_and-bitwise a (2 ^ k - 1 - m))
      (split-digits a k a m (omega arith) la lm)
