-- ===== src/Mempool/Account.antt =====
-- Where the elements of a pool are: none is lost, and what a pool keeps is there when it is needed.
use biscuit_os_memory.Common.{
  ℕ, zero, suc, ◌+◌, ◌-◌, ◌<◌, ◌≤◌, ◌≡◌, refl, inl, inr, arith, true, false, leb, ltb, leb-cases,
  ltb-cases, Bool-cases, ◌==◌, ==_self, nonzero, bit_and, update, Option, none, some, Option-cases,
  ok, ◌>>=◌, Returns, returns, Returns-mono,
}
use biscuit_os_memory.Mempool.{
  Pool, add_element, remove_element, gfp_wait, Attempt, taken, failed, asleep, drain, free_pool,
  mempool_destroy, mempool_try, mempool_free,
}

-- The user's functions hand out elements and take them back: `given` counts what they have given out.
pub record Counts {ℓ κ} {E : Type ℓ} {S : Type κ} (alloc : ℕ → S → Option E × S) (free : E → S → S)
    (given : S → ℕ) : Type (ℓ ⊔ κ) where
  pub gives :
      (gfp : ℕ) (s : S) (e : E) → (alloc gfp s).0 ≡ some e → given ((alloc gfp s).1) ≡ given s + 1
  pub denies : (gfp : ℕ) (s : S) → (alloc gfp s).0 ≡ none → given ((alloc gfp s).1) ≡ given s
  pub takes : (e : E) (s : S) → 1 ≤ given s → given (free e s) + 1 ≡ given s

-- What is left of a pool's making: a full pool, or none and every element given back.
pub data Created {ℓ κ} {E : Type ℓ} {S : Type κ} (given : S → ℕ) (before min_nr : ℕ)
    : Option (Pool E) × S → Type (ℓ ⊔ κ) where
  made :
      {pool : Pool E} {t : S}
      → pool.min_nr ≡ min_nr
      → pool.curr_nr ≡ min_nr
      → given t ≡ before + min_nr
      → Created given before min_nr (some pool, t)
  unmade : {t : S} → given t ≡ before → Created given before min_nr (none, t)

-- A user's call: it has an element more, or the pool was empty and nothing has changed.
pub data Tried {ℓ κ} {E : Type ℓ} {S : Type κ} (given : S → ℕ) (pool : Pool E) (s : S)
    : Attempt E × (Pool E × S) → Type (ℓ ⊔ κ) where
  got :
      {e : E} {pool' : Pool E} {t : S}
      → pool'.min_nr ≡ pool.min_nr
      → pool'.curr_nr ≤ pool.curr_nr
      → given t + pool.curr_nr ≡ given s + pool'.curr_nr + 1
      → Tried given pool s (taken e, (pool', t))
  denied : {t : S} → pool.curr_nr ≡ 0 → given t ≡ given s → Tried given pool s (failed, (pool, t))
  waits : {t : S} → pool.curr_nr ≡ 0 → given t ≡ given s → Tried given pool s (asleep, (pool, t))

abbrev pub grown {ℓ} : {E : Type ℓ} → Pool E → E → Pool E
grown pool e = record pool {
  elements = update pool.elements pool.curr_nr e;
  curr_nr = pool.curr_nr + 1;
}

abbrev pub shrunk {ℓ} : {E : Type ℓ} → Pool E → Pool E
shrunk pool = record pool { curr_nr = pool.curr_nr - 1 }

add_element_lem {ℓ} :
    {E : Type ℓ} (pool : Pool E) (e : E)
    → pool.curr_nr < pool.min_nr
    → add_element pool e ≡ ok (grown pool e)
unfolding add_element
add_element_lem pool e h =
    let room : leb pool.min_nr pool.curr_nr ≡ false = ground arith in rw room refl

remove_element_lem {ℓ} :
    {E : Type ℓ} (pool : Pool E)
    → 1 ≤ pool.curr_nr
    → remove_element pool ≡ ok (pool.elements (pool.curr_nr - 1), shrunk pool)
unfolding remove_element
remove_element_lem pool h =
    let some_left : (pool.curr_nr == 0) ≡ false = ground arith in rw some_left refl

module _ {ℓ κ} {E : Type ℓ} {S : Type κ} {alloc : ℕ → S → Option E × S} {free : E → S → S}
    {given : S → ℕ} (c : Counts alloc free given) where
  drain-given :
      (rounds : ℕ) (pool : Pool E) (s : S)
      → pool.curr_nr ≡ rounds
      → rounds ≤ given s
      → Returns (λ t. given t + rounds ≡ given s) (drain alloc free rounds pool s)
  unfolding drain
  drain-given zero pool s h k = returns (omega arith)
  drain-given (suc rounds) pool s h k =
      let e = pool.elements (pool.curr_nr - 1) in
      let rest =
        drain-given rounds (shrunk pool) (free e s) (omega arith) (omega (arith, c.takes e s)) in
      rw (remove_element_lem pool (omega arith))
        (Returns-mono rest (λ t g. omega (arith, g, c.takes e s)))

  -- Where the user's functions count what they have given out, destroying a pool that holds all
  -- the elements that it guarantees returns, and gives back exactly these.
  pub mempool_destroy-given :
      (pool : Pool E) (s : S)
      → pool.curr_nr ≡ pool.min_nr
      → pool.min_nr ≤ given s
      → Returns (λ t. given t + pool.min_nr ≡ given s) (mempool_destroy alloc free pool s)
  unfolding mempool_destroy free_pool
  mempool_destroy-given pool s e h =
      let full : (pool.curr_nr == pool.min_nr) ≡ true = ground arith in
      rw full (
        Returns-mono (drain-given pool.curr_nr pool s refl (omega arith)) (λ t g. omega (arith, g)))

  -- Where the user's functions count what they have given out, a round of an allocation returns:
  -- the caller has one more of the elements that are out and not in the pool; or it fails or
  -- sleeps, and then the pool was empty and nothing has changed.
  pub mempool_try-Tried :
      (pool : Pool E) (s : S) (gfp_mask gfp_temp : ℕ)
      → Returns (Tried given pool s) (mempool_try alloc free pool s gfp_mask gfp_temp)
  unfolding mempool_try
  mempool_try-Tried pool s gfp_mask gfp_temp = elim (Option-cases ((alloc gfp_temp s).0)) [
    | inr (a, e) ↦
        rw (e, mempool_try)
          (returns (got refl (omega arith) (omega (arith, c.gives gfp_temp s a e))))
    | inl e ↦ elim (leb-cases pool.curr_nr 0) [
      | inl (_, l) ↦
          let empty : nonzero pool.curr_nr ≡ false = ground arith in
          elim (Bool-cases (nonzero (bit_and gfp_mask gfp_wait))) [
            | inl w ↦
                rw (e, mempool_try, empty, w)
                  (returns (waits (omega arith) (c.denies gfp_temp s e)))
            | inr w ↦
                rw (e, mempool_try, empty, w)
                  (returns (denied (omega arith) (c.denies gfp_temp s e)))
          ]
      | inr (_, l) ↦
          let left : nonzero pool.curr_nr ≡ true = ground arith in
          rw (e, mempool_try, left, remove_element_lem pool l)
            (returns (got refl (omega arith) (omega (arith, c.denies gfp_temp s e))))
    ]
  ]

  -- Where the user's functions count what they have given out and the pool has no more elements
  -- than it guarantees and fewer than are out: freeing an element returns, the pool still has no
  -- more than it guarantees, and one less of the elements that are out is outside the pool.
  pub mempool_free-given :
      (pool : Pool E) (s : S) (e : E)
      → pool.curr_nr ≤ pool.min_nr
      → pool.curr_nr + 1 ≤ given s
      → Returns
          (λ r.
            ((r.0).min_nr ≡ pool.min_nr)
            × ((r.0).curr_nr ≤ pool.min_nr)
            × (given (r.1) + pool.curr_nr + 1 ≡ given s + (r.0).curr_nr))
          (mempool_free alloc free pool s e)
  unfolding mempool_free
  mempool_free-given pool s e h k = elim (ltb-cases pool.curr_nr pool.min_nr) [
    | inl (t, l) ↦ rw (t, add_element_lem pool e l) (returns (refl, omega arith, omega arith))
    | inr (t, l) ↦ rw t (returns (refl, h, omega (arith, c.takes e s)))
  ]

-- An element that is freed while the pool has room is the one that the next round of an
-- allocation takes when the user's function has none, and the pool is as full as it was.
pub free_try {ℓ κ} :
    {E : Type ℓ} {S : Type κ} (alloc : ℕ → S → Option E × S) (free : E → S → S) (pool : Pool E)
    (s : S) (e : E) (gfp_mask gfp_temp : ℕ)
    → pool.curr_nr < pool.min_nr
    → (alloc gfp_temp s).0 ≡ none
    → (mempool_free alloc free pool s e >>= λ r.
        mempool_try alloc free (r.0) (r.1) gfp_mask gfp_temp)
      ≡ ok (taken e, (record (grown pool e) { curr_nr = pool.curr_nr }, (alloc gfp_temp s).1))
unfolding mempool_free mempool_try
free_try alloc free pool s e gfp_mask gfp_temp l none_there =
    rw
      (
        room,
        add_element_lem pool e l,
        none_there,
        mempool_try,
        left,
        remove_element_lem (grown pool e) (omega arith),
        back,
        ==_self pool.curr_nr,
      )
      refl
  where
    room : ltb pool.curr_nr pool.min_nr ≡ true
    room = ground arith

    left : nonzero (pool.curr_nr + 1) ≡ true
    left = ground arith

    back : pool.curr_nr + 1 - 1 ≡ pool.curr_nr
    back = omega arith
