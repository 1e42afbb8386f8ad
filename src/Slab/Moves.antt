-- ===== src/Slab/Moves.antt =====
-- How the objects move between the array of a processor and the shared array of a cache of mm/slab.c.
use biscuit_os_memory.Common.{
  ℕ, zero, suc, ◌∙◌, List, [], ◌∷◌, ◌++◌, append_assoc, min, ◌+◌, ◌-◌, ◌≤◌, ◌<◌, ◌≡◌, refl, ap, ◌⊎◌,
  if◌then◌else◌, Option, none, some, arith,
}
use biscuit_os_memory.Slab.{ArrayCache, Cache}
use biscuit_os_memory.Slab.Alloc.{take_shared}
use biscuit_os_memory.Slab.Release.{entries}

-- The objects in the shared array.
abbrev pub shared_avail : Option ArrayCache → ℕ
shared_avail none = 0
shared_avail (some array) = array.avail

-- A shared array has no more objects than fit.
abbrev pub SharedFits : Option ArrayCache → Type 0
SharedFits none = Unit
SharedFits (some array) = array.avail ≤ array.limit

-- No shared array has room.
abbrev pub SharedFull : Option ArrayCache → Type 0
SharedFull none = Unit
SharedFull (some array) = array.avail ≡ array.limit

-- What a refill takes from the shared array: the last objects of it, in their order.
pub record TakenFrom (wanted : ℕ) (a : ArrayCache) (ac' a' : ArrayCache) : Type 0 where
  pub number : ac'.avail ≡ min a.avail wanted
  pub rest : a'.avail + ac'.avail ≡ a.avail
  pub taken : (j : ℕ) → j < ac'.avail → ac'.entry j ≡ a.entry (a'.avail + j)
  pub left : (j : ℕ) → j < a'.avail → a'.entry j ≡ a.entry j

pub take_shared-TakenFrom :
    (wanted : ℕ) (ac a : ArrayCache)
    → TakenFrom wanted a ((take_shared wanted ac a).0) ((take_shared wanted ac a).1)
unfolding take_shared
take_shared-TakenFrom wanted ac a = record {
  number = ground arith;
  rest = ground arith;
  taken = λ j lt. ground (arith, lt);
  left = λ j lt. refl;
}

-- Where the objects of a refill come from: the shared array, when it has any, else the slabs.
pub data Source (wanted : ℕ) (c c' : Cache) : Type 0 where
  from_shared :
      {a a' : ArrayCache}
      → c.lists.shared ≡ some a
      → c'.lists.shared ≡ some a'
      → TakenFrom wanted a c'.ac a'
      → c'.lists.free_objects ≡ c.lists.free_objects
      → Source wanted c c'
  from_slabs :
      shared_avail c.lists.shared ≡ 0
      → c'.lists.shared ≡ c.lists.shared
      → c'.ac.avail ≤ wanted
      → (c'.ac.avail ≡ wanted) ⊎ (c'.lists.free_objects ≡ 0)
      → Source wanted c c'

-- The batch of an array, 16 at most for one that has not been used lately
abbrev pub batch_wanted : ArrayCache → ℕ
batch_wanted ac = if ac.touched then ac.batchcount else min ac.batchcount 16

-- Where the first `count` objects of the array went: into the shared array behind those it had, as many
-- as it had room for, or back to the slabs when there is none with room.
pub data Went (count : ℕ) (c : Cache) (shared : Option ArrayCache) : Type 0 where
  nowhere : count ≡ 0 → shared ≡ c.lists.shared → Went count c shared
  to_shared :
      {a a' : ArrayCache}
      → c.lists.shared ≡ some a
      → shared ≡ some a'
      → count ≡ min (a.limit - a.avail) c.ac.batchcount
      → (a'.avail ≡ a.avail + count) × (a'.limit ≡ a.limit)
      → ((j : ℕ) → j < a.avail → a'.entry j ≡ a.entry j)
      → ((j : ℕ) → j < count → a'.entry (a.avail + j) ≡ c.ac.entry j)
      → Went count c shared
  to_slabs :
      SharedFull c.lists.shared
      → count ≡ c.ac.batchcount
      → shared ≡ c.lists.shared
      → Went count c shared

pub Went-fits :
    {count : ℕ} {c : Cache} {shared : Option ArrayCache}
    → SharedFits c.lists.shared
    → Went count c shared
    → SharedFits shared
Went-fits fits (nowhere _ e) = rw e fits
Went-fits fits (to_slabs _ _ e) = rw e fits
Went-fits fits (to_shared e e' n a _ _) = rw e' (ground (arith, rw e at fits, n, a.0, a.1))

-- The entries of an array, in two parts
pub entries-add :
    (m n from : ℕ) (entry : ℕ → ℕ)
    → entries (m + n) from entry ≡ entries m from entry ++ entries n (from + m) entry
unfolding entries
entries-add zero n from entry =
    let same : 0 + n ≡ n = omega arith in
    let there : from + 0 ≡ from = omega arith in rw (same, there) refl
entries-add (suc m) n from entry =
    let shift : suc m + n ≡ suc (m + n) = omega arith in
    let there : from + 1 + m ≡ from + suc m = omega arith in
    rw shift (ap (λ es. entry from ∷ es) (entries-add m n (from + 1) entry ∙ rw there refl))

-- Entries that have moved
pub entries-moved :
    (n from to : ℕ) (entry entry' : ℕ → ℕ)
    → ((j : ℕ) → j < n → entry' (to + j) ≡ entry (from + j))
    → entries n to entry' ≡ entries n from entry
unfolding entries
entries-moved zero from to entry entry' same = refl
entries-moved (suc n) from to entry entry' same =
    let to0 : to + 0 ≡ to = omega arith in
    let from0 : from + 0 ≡ from = omega arith in
    let first : entry' to ≡ entry from = rw (to0, from0) at (same 0 (omega arith)) in
    rw first (
      ap (λ es. entry from ∷ es)
        (entries-moved n (from + 1) (to + 1) entry entry' (λ j lt.
          let a : to + 1 + j ≡ to + (j + 1) = omega arith in
          let b : from + 1 + j ≡ from + (j + 1) = omega arith in
          rw (a, b) (same (j + 1) (omega (arith, lt))))))

-- The entries with one more at the end
pub entries-snoc :
    (n from objp : ℕ) (entry entry' : ℕ → ℕ)
    → ((j : ℕ) → j < n → entry' j ≡ entry (from + j))
    → entry' n ≡ objp
    → entries (n + 1) 0 entry' ≡ entries n from entry ++ (objp ∷ [])
unfolding entries
entries-snoc n from objp entry entry' same last =
    let at_n : 0 + n ≡ n = omega arith in
    entries-add n 1 0 entry'
    ∙ rw (at_n, last)
        (ap (λ es. es ++ (objp ∷ []))
          (entries-moved n from 0 entry entry'
            (λ j lt. let z : 0 + j ≡ j = omega arith in rw z (same j lt))))

-- The first `k` of `n` entries, and the others with what comes behind them
pub entries-parts :
    (k n : ℕ) (entry : ℕ → ℕ) (tail : List ℕ)
    → k ≤ n
    → entries n 0 entry ++ tail ≡ entries k 0 entry ++ (entries (n - k) k entry ++ tail)
entries-parts k n entry tail le =
    let whole : n ≡ k + (n - k) = omega (arith, le) in
    let start : 0 + k ≡ k = omega arith in
    ap (λ i. entries i 0 entry ++ tail) whole
    ∙ ap (λ es. es ++ tail) (entries-add k (n - k) 0 entry)
    ∙ append_assoc (entries k 0 entry) (entries (n - k) (0 + k) entry) tail
    ∙ ap (λ i. entries k 0 entry ++ (entries (n - k) i entry ++ tail)) start
