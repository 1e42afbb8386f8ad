-- ===== src/Mempool/Wait.antt =====
-- `mempool_alloc_bs` as a whole: who may wait gets an element.
use biscuit_os_memory.Common.{
  ℕ, suc, ◌≤◌, ◌≡◌, refl, arith, ◌⊎◌, inl, inr, true, false, ◌==◌, nonzero, bit_and, Option,
  Option-cases, Bool-cases, ok, Returns, returns, Returns-bind,
}
use biscuit_os_memory.Mempool.{
  Pool, remove_element, gfp_wait, Attempt, taken, failed, asleep, mempool_try, alloc_mask,
  alloc_loop, mempool_alloc,
}

module _ {ℓ κ} {E : Type ℓ} {S : Type κ} (alloc : ℕ → S → Option E × S) (free : E → S → S) where
  -- With an element in the pool a round ends with an element.
  try-stocked :
      (pool : Pool E) (s : S) (gfp_mask gfp_temp : ℕ)
      → 1 ≤ pool.curr_nr
      → Returns (λ r. (e : E) × (r.0 ≡ taken e)) (mempool_try alloc free pool s gfp_mask gfp_temp)
  unfolding mempool_try remove_element
  try-stocked pool s gfp_mask gfp_temp h = elim (Option-cases ((alloc gfp_temp s).0)) [
    | inr (a, e) ↦ rw (e, mempool_try) (returns (a, refl))
    | inl e ↦
        let left : nonzero pool.curr_nr ≡ true = ground arith in
        let some_left : (pool.curr_nr == 0) ≡ false = ground arith in
        rw (e, mempool_try, left, some_left) (returns (_, refl))
  ]

  try-waits :
      (pool : Pool E) (s : S) (gfp_mask gfp_temp : ℕ)
      → nonzero (bit_and gfp_mask gfp_wait) ≡ true
      → Returns
          (λ r. ((e : E) × (r.0 ≡ taken e)) ⊎ (r.0 ≡ asleep))
          (mempool_try alloc free pool s gfp_mask gfp_temp)
  unfolding mempool_try remove_element
  try-waits pool s gfp_mask gfp_temp w = elim (Option-cases ((alloc gfp_temp s).0)) [
    | inr (a, e) ↦ rw (e, mempool_try) (returns (inl (a, refl)))
    | inl e ↦ elim (Bool-cases (nonzero pool.curr_nr)) [
      | inl left ↦
          let some_left : (pool.curr_nr == 0) ≡ false = ground (arith, left) in
          rw (e, mempool_try, left, some_left) (returns (inl (_, refl)))
      | inr left ↦ rw (e, mempool_try, left, w) (returns (inr refl))
    ]
  ]

  module _ (others : Pool E × S → Pool E × S) where
    loop-stocked :
        (rounds : ℕ) (pool : Pool E) (s : S) (gfp_mask gfp_temp : ℕ)
        → 1 ≤ pool.curr_nr
        → Returns
            (λ r. (e : E) × (r.0 ≡ taken e))
            (alloc_loop alloc free others (suc rounds) pool s gfp_mask gfp_temp)
    unfolding alloc_loop
    loop-stocked rounds pool s gfp_mask gfp_temp h =
        Returns-bind (try-stocked pool s gfp_mask gfp_temp h) (λ r p. rw (p.1) (returns (p.0, p.1)))

    -- A caller that may wait, where others leave an element in the pool whenever it sleeps, gets
    -- an element after at most one sleep, whatever the pool holds and whatever the allocation
    -- answers.
    pub mempool_alloc-taken :
        (pool : Pool E) (s : S) (gfp_mask : ℕ)
        → nonzero (bit_and (alloc_mask gfp_mask) gfp_wait) ≡ true
        → ((p : Pool E) (t : S) → 1 ≤ ((others (p, t)).0).curr_nr)
        → Returns
            (λ r. (e : E) × (r.0 ≡ taken e))
            (mempool_alloc alloc free others 2 pool s gfp_mask)
    unfolding mempool_alloc alloc_loop
    mempool_alloc-taken pool s gfp_mask w refill =
        Returns-bind (try-waits pool s (alloc_mask gfp_mask) _ w) after
      where
        after :
            (r : Attempt E × (Pool E × S))
            → ((e : E) × (r.0 ≡ taken e)) ⊎ (r.0 ≡ asleep)
            → Returns
                (λ r. (e : E) × (r.0 ≡ taken e))
                (elim (r.0) [
                  | taken _ ↦ ok r
                  | failed ↦ ok r
                  | asleep ↦
                      alloc_loop alloc free others 1
                        ((others (r.1)).0)
                        ((others (r.1)).1)
                        (alloc_mask gfp_mask)
                        (alloc_mask gfp_mask)
                ])
        after r (inl p) = rw (p.1) (returns (p.0, p.1))
        after r (inr p) = rw p (
            loop-stocked 0 ((others (r.1)).0) ((others (r.1)).1) (alloc_mask gfp_mask)
              (alloc_mask gfp_mask) (refill ((r.1).0) ((r.1).1)))
