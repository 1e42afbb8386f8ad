-- ===== src/Mempool.antt =====
-- The pools of mm/mempool.c, which keep elements back for when the allocation fails. The functions of
-- the pool's user, `pool->alloc` and `pool->free`, are parameters that pass on a state of their own.
pub mod Account
pub mod Wait
mod Tests
use biscuit_os_memory.Common.{
  ℕ, zero, suc, ◌+◌, ◌-◌, Bool, true, false, leb, ltb, ◌==◌, not, if◌then◌else◌, nonzero, bit_and,
  bit_or, update, Option, none, some, Run, ok, bug, bug_on, ◌>>=◌,
}
use biscuit_os_memory.Buddy.{word}

-- `mempool_t_bs`: the elements are those below `curr_nr`.
pub record Pool {ℓ} (E : Type ℓ) : Type ℓ where
  pub min_nr : ℕ
  pub curr_nr : ℕ
  pub elements : ℕ → E

-- `add_element_bs`
unfoldable pub add_element {ℓ} : {E : Type ℓ} → Pool E → E → Run (Pool E)
add_element pool element = bug_on (leb pool.min_nr pool.curr_nr) (
    ok (record pool {
      elements = update pool.elements pool.curr_nr element;
      curr_nr = pool.curr_nr + 1;
    }))

-- `remove_element_bs`
unfoldable pub remove_element {ℓ} : {E : Type ℓ} → Pool E → Run (E × Pool E)
remove_element pool =
    bug_on (pool.curr_nr == 0)
      (ok (pool.elements (pool.curr_nr - 1), record pool { curr_nr = pool.curr_nr - 1 }))

abbrev pub gfp_wait : ℕ
gfp_wait = 0x10

abbrev pub gfp_kernel : ℕ
gfp_kernel = 0xd0

-- What a call of `mempool_alloc_bs` comes to: an element, a failure, or sleep.
pub data Attempt {ℓ} (E : Type ℓ) : Type ℓ where
  taken : E → Attempt E
  failed : Attempt E
  asleep : Attempt E

module _ {ℓ κ} {E : Type ℓ} {S : Type κ} (alloc : ℕ → S → Option E × S) (free : E → S → S) where
  -- The loop of `free_pool_bs`, one round for each element.
  unfoldable pub drain : ℕ → Pool E → S → Run S
  drain zero pool s = ok s
  drain (suc rounds) pool s = remove_element pool >>= λ r. drain rounds (r.1) (free (r.0) s)

  -- `free_pool_bs`
  unfoldable pub free_pool : Pool E → S → Run S
  free_pool pool s = drain pool.curr_nr pool s

  -- The loop of `mempool_create_bs`, one round for each element that is still to come.
  unfoldable pub fill : ℕ → Pool E → S → Run (Option (Pool E) × S)
  fill zero pool s = ok (some pool, s)
  fill (suc rounds) pool s =
      let r = alloc gfp_kernel s in
      elim (r.0) [
        | none ↦ free_pool pool (r.1) >>= λ t. ok (none, t)
        | some element ↦ add_element pool element >>= λ p. fill rounds p (r.1)
      ]

  -- `mempool_create_bs`. `have_pool` and `have_elements` say whether `kmalloc_bs` has memory for the
  -- pool and for its array, `blank` is what the array holds at first.
  unfoldable pub mempool_create : Bool → Bool → (ℕ → E) → ℕ → S → Run (Option (Pool E) × S)
  mempool_create have_pool have_elements blank min_nr s =
      if not have_pool
      then ok (none, s)
      else if not have_elements
      then ok (none, s)
      else fill min_nr (record { min_nr = min_nr; curr_nr = 0; elements = blank }) s

  -- `mempool_destroy_bs`
  unfoldable pub mempool_destroy : Pool E → S → Run S
  mempool_destroy pool s = bug_on (not (pool.curr_nr == pool.min_nr)) (free_pool pool s)

  -- One round of `mempool_alloc_bs`, after which it starts again when it has slept. The first round asks
  -- with `gfp_temp`, which neither waits nor starts I/O.
  unfoldable pub mempool_try : Pool E → S → ℕ → ℕ → Run (Attempt E × (Pool E × S))
  mempool_try pool s gfp_mask gfp_temp =
      let r = alloc gfp_temp s in
      elim (r.0) [
        | some element ↦ ok (taken element, (pool, r.1))
        | none ↦
            if nonzero pool.curr_nr
            then (remove_element pool >>= λ q. ok (taken (q.0), (q.1, r.1)))
            else if nonzero (bit_and gfp_mask gfp_wait)
            then ok (asleep, (pool, r.1))
            else ok (failed, (pool, r.1))
      ]

  -- `mempool_free_bs`, where nothing comes between its two looks at `curr_nr`
  unfoldable pub mempool_free : Pool E → S → E → Run (Pool E × S)
  mempool_free pool s element =
      if ltb pool.curr_nr pool.min_nr
      then (add_element pool element >>= λ p. ok (p, s))
      else ok (pool, free element s)

-- `__GFP_NOMEMALLOC_BS`, `__GFP_NORETRY_BS` and `__GFP_NOWARN_BS`, which each call adds to its mask.
unfoldable pub alloc_mask : ℕ → ℕ
alloc_mask gfp_mask = bit_or (bit_or (bit_or gfp_mask 0x10000) 0x1000) 0x200

-- The rounds of `mempool_alloc_bs`. `others` is what happens to the pool while the caller sleeps; a
-- caller that has used up its rounds is asleep.
module _ {ℓ κ} {E : Type ℓ} {S : Type κ} (alloc : ℕ → S → Option E × S) (free : E → S → S)
    (others : Pool E × S → Pool E × S) where
  unfoldable pub alloc_loop : ℕ → Pool E → S → ℕ → ℕ → Run (Attempt E × (Pool E × S))
  alloc_loop zero pool s gfp_mask gfp_temp = ok (asleep, (pool, s))
  alloc_loop (suc rounds) pool s gfp_mask gfp_temp =
      mempool_try alloc free pool s gfp_mask gfp_temp >>= λ r. elim (r.0) [
        | taken _ ↦ ok r
        | failed ↦ ok r
        | asleep ↦ alloc_loop rounds ((others (r.1)).0) ((others (r.1)).1) gfp_mask gfp_mask
      ]

  -- `mempool_alloc_bs`
  unfoldable pub mempool_alloc : ℕ → Pool E → S → ℕ → Run (Attempt E × (Pool E × S))
  mempool_alloc rounds pool s gfp_mask =
      alloc_loop rounds pool s (alloc_mask gfp_mask)
        (bit_and (alloc_mask gfp_mask) (word - 1 - 0x50))
