-- ===== src/Params/Equal.antt =====
-- When two names are the same for fs/params.c.
use biscuit_os_memory.Common.{
  ℕ, zero, suc, ◌+◌, ◌<◌, ◌≡◌, ◌≢◌, refl, Bool, true, false, ◌==◌, ◌&&◌, if◌then◌else◌, List, [],
  ◌∷◌, length, arith,
}
use biscuit_os_memory.Params.{dash2underscore, parameq}

-- The memory has the bytes of a string from an address on, with a zero behind them.
abbrev pub Holds : (ℕ → ℕ) → ℕ → List ℕ → Type 0
Holds mem at [] = mem at ≡ 0
Holds mem at (c ∷ cs) = (mem at ≡ c) × ((c ≢ 0) × Holds mem (at + 1) cs)

-- Two names are the same for the comparison: byte by byte, where the second has an underscore for a
-- dash of the first.
abbrev pub same_name : List ℕ → List ℕ → Bool
same_name [] [] = true
same_name [] (_ ∷ _) = false
same_name (_ ∷ _) [] = false
same_name (a ∷ xs) (b ∷ ys) = (if a == 45 then b == 95 else b == a) && same_name xs ys

-- Where the memory holds two strings with a zero behind each and none inside, and there are more
-- rounds than the first has bytes: the comparison finds them equal just when they are as long as
-- each other and the second has an underscore where the first has a dash, and the byte of the
-- first elsewhere. A dash in the second is never matched.
pub parameq_lem :
    (rounds : ℕ) (mem : ℕ → ℕ) (a b : ℕ) (s t : List ℕ)
    → length s < rounds
    → Holds mem a s
    → Holds mem b t
    → parameq rounds mem a b ≡ same_name s t
unfolding parameq dash2underscore
parameq_lem zero mem a b s t enough hs ht = absurd (omega arith)
parameq_lem (suc rounds) mem a b [] [] enough hs ht = rw (hs, ht) refl
parameq_lem (suc rounds) mem a b [] (d ∷ t) enough hs (e, (h, rest)) =
    rw (hs, e) (ground (arith, h))
parameq_lem (suc rounds) mem a b (c ∷ s) [] enough (e, (h, rest)) ht =
    rw (e, ht) (ground (arith, h))
parameq_lem (suc rounds) mem a b (c ∷ s) (d ∷ t) enough (e, (h, rest)) (e', (h', rest')) =
    rw (e, e')
      (ground (arith, h, h', parameq_lem rounds mem (a + 1) (b + 1) s t (omega arith) rest rest'))
