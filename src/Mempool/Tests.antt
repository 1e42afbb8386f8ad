-- ===== src/Mempool/Tests.antt =====
-- The theorems on pools, applied to a pool of numbers whose allocator has only so many to give.
use biscuit_os_memory.Common.{ℕ, zero, suc, ◌+◌, ◌-◌, ◌≡◌, refl, arith, Option, none, some, Returns}
use biscuit_os_memory.Mempool.{Pool, Attempt, taken, mempool_alloc, alloc_mask}
use biscuit_os_memory.Mempool.Wait.{mempool_alloc-taken}

-- How many are out, and how many are left.
abbrev Store : Type 0
Store = ℕ × ℕ

abbrev give : ℕ → Store → Option ℕ × Store
give gfp (out, zero) = (none, (out, zero))
give gfp (out, suc left) = (some out, (out + 1, left))

abbrev take_back : ℕ → Store → Store
take_back e (out, left) = (out - 1, left + 1)

abbrev out_of : Store → ℕ
out_of (out, left) = out

abbrev kept : Pool ℕ
kept = record { min_nr = 3; curr_nr = 2; elements = λ i. i + 40 }

abbrev filled : Pool ℕ
filled = record { min_nr = 2; curr_nr = 2; elements = λ i. i + 40 }

-- While the caller sleeps someone gives an element back.
abbrev returned : Pool ℕ × Store → Pool ℕ × Store
returned (pool, s) = (record pool { curr_nr = 1 }, s)

mempool_alloc-taken_example :
    Returns
      (λ (r : Attempt ℕ × (Pool ℕ × Store)). (e : ℕ) × (r.0 ≡ taken e))
      (mempool_alloc give take_back returned 2 (record kept { curr_nr = 0 }) (5, 0) 0x10)
unfolding alloc_mask
mempool_alloc-taken_example =
    mempool_alloc-taken give take_back returned (record kept { curr_nr = 0 }) (5, 0) 0x10 refl
      (λ p t. omega arith)
