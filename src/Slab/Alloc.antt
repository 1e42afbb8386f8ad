-- ===== src/Slab/Alloc.antt =====
-- The allocation of an object from a cache of mm/slab.c. Nothing interrupts a call here.
use biscuit_os_memory.Common.{
  ℕ, zero, suc, ◌-◌, true, false, ltb, ◌==◌, not, ◌&&◌, if◌then◌else◌, nonzero, update, Option,
  none, some, List, [], ◌∷◌, Run, ok, bug_on, ◌>>=◌,
}
use biscuit_os_memory.Slab.{
  Slab, ArrayCache, Lists, Cache, Memory, World, bufctl_end, minus, copy, unlink,
}
use biscuit_os_memory.Slab.Object.{take_objects}
use biscuit_os_memory.Slab.Grow.{cache_grow}

-- `batchcount` at the start of `cache_alloc_refill_bs`
unfoldable pub refill_count : ArrayCache → ℕ
refill_count ac = if not ac.touched && ltb 16 ac.batchcount then 16 else ac.batchcount

-- What `cache_alloc_refill_bs` takes from the shared array, which has objects.
unfoldable pub take_shared : ℕ → ArrayCache → ArrayCache → ArrayCache × ArrayCache
take_shared batchcount ac shared_array =
    let count = if ltb shared_array.avail batchcount then shared_array.avail else batchcount in
    let rest = shared_array.avail - count in
    (
      record ac { avail = count; entry = copy count shared_array.entry rest ac.entry 0 },
      record shared_array { avail = rest; touched = true },
    )

-- The slab that the outer loop of `cache_alloc_refill_bs` takes from: the first partial one, else the
-- first free one, for which `free_touched` is set.
unfoldable pub first_slab : List ℕ → List ℕ → Lists → Option ℕ × Lists
first_slab (slabp ∷ _) free l3 = (some slabp, l3)
first_slab [] (slabp ∷ _) l3 = (some slabp, record l3 { free_touched = true })
first_slab [] [] l3 = (none, record l3 { free_touched = true })

unfoldable pub next_slab : Lists → Option ℕ × Lists
next_slab l3 = first_slab l3.slabs_partial l3.slabs_free l3

-- The move of a slab to its list at the end of a round of `cache_alloc_refill_bs`.
unfoldable pub refile : ℕ → Slab → Lists → Lists
refile slabp slab l3 =
    let l3' = unlink slabp l3 in
    if slab.free == bufctl_end
    then record l3' { slabs_full = slabp ∷ l3'.slabs_full }
    else record l3' { slabs_partial = slabp ∷ l3'.slabs_partial }

-- What the outer loop changes.
pub record Refill : Type 0 where
  pub ac : ArrayCache
  pub lists : Lists
  pub slabs : ℕ → Slab

-- A round of the outer loop of `cache_alloc_refill_bs` with the slab it has got: the objects still
-- wanted, and what it changed.
unfoldable pub refill_round : ℕ → ℕ → ℕ → ℕ → Refill → ℕ × Refill
refill_round batchcount num size slabp st =
    let r = take_objects batchcount num size (st.slabs slabp) st.ac in
    (
      r.0,
      record {
        ac = (r.1).1;
        lists = refile slabp ((r.1).0) st.lists;
        slabs = update st.slabs slabp ((r.1).0);
      },
    )

-- A round with what there is to take from; `again` is the loop after it.
unfoldable pub refill_next :
    (ℕ → Refill → ℕ × Refill) → Option ℕ × Lists → ℕ → ℕ → ℕ → Refill → ℕ × Refill
refill_next again (none, l3) batchcount num size st = (batchcount, record st { lists = l3 })
refill_next again (some slabp, l3) batchcount num size st =
    let r = refill_round batchcount num size slabp (record st { lists = l3 }) in again (r.0) (r.1)

-- The outer loop of `cache_alloc_refill_bs`, for as many rounds as objects are wanted.
unfoldable pub refill_loop : ℕ → ℕ → ℕ → ℕ → Refill → ℕ × Refill
refill_loop zero batchcount num size st = (batchcount, st)
refill_loop (suc rounds) batchcount num size st =
    let next =
      refill_next (λ b st'. refill_loop rounds b num size st') (next_slab st.lists) batchcount num
        size st in
    if ltb 0 batchcount then next else (batchcount, st)

-- The last object of the array.
unfoldable pub pop_entry : Cache → ℕ × Cache
pop_entry cachep = (
  cachep.ac.entry (cachep.ac.avail - 1),
  record cachep { ac = record cachep.ac { avail = cachep.ac.avail - 1; touched = true } },
)

module _ {ℓ} {S : Type ℓ} where
  -- The loop and what follows at `must_grow`
  unfoldable pub refill_from_slabs : ℕ → Cache → Memory S → Cache × Memory S
  refill_from_slabs batchcount cachep m =
      let r =
        refill_loop batchcount batchcount cachep.num cachep.objsize
          (record { ac = cachep.ac; lists = cachep.lists; slabs = m.slabs }) in
      settle (r.1)
    where
      settle : Refill → Cache × Memory S
      settle st = (
        record cachep {
          ac = st.ac;
          lists = record st.lists { free_objects = minus st.lists.free_objects st.ac.avail };
        },
        record m { slabs = st.slabs },
      )

  -- From the shared array, when there is one with objects, else from the slabs.
  unfoldable pub refill_with : Option ArrayCache → ℕ → Cache → Memory S → Cache × Memory S
  refill_with none batchcount cachep m = refill_from_slabs batchcount cachep m
  refill_with (some shared_array) batchcount cachep m =
      let r = take_shared batchcount cachep.ac shared_array in
      if nonzero shared_array.avail
      then (record cachep { ac = r.0; lists = record cachep.lists { shared = some (r.1) } }, m)
      else refill_from_slabs batchcount cachep m

  -- `cache_alloc_refill_bs` from the label `retry` to `alloc_done`
  unfoldable pub refill_array : Cache → Memory S → Run (Cache × Memory S)
  refill_array cachep m =
      bug_on (ltb 0 cachep.ac.avail)
        (ok (refill_with cachep.lists.shared (refill_count cachep.ac) cachep m))

module _ {ℓ} {S : Type ℓ} (w : World S) where
  -- `cache_alloc_refill_bs`, with at most `tries` passes from `retry`. It returns null also when they
  -- are used up.
  unfoldable pub cache_alloc_refill : ℕ → Cache → ℕ → Memory S → Run (Option ℕ × (Cache × Memory S))
  cache_alloc_refill zero cachep flags m = ok (none, (cachep, m))
  cache_alloc_refill (suc tries) cachep flags m = refill_array cachep m >>= λ r.
      if nonzero (r.0).ac.avail
      then ok (some ((pop_entry (r.0)).0), ((pop_entry (r.0)).1, r.1))
      else (cache_grow w (r.0) flags (r.1) >>= λ g. elim (g.0) [
        | false ↦ ok (none, g.1)
        | true ↦ cache_alloc_refill tries ((g.1).0) flags ((g.1).1)
      ])

  -- `__cache_alloc_bs`, where a second pass of the refill finds the slab that the first has brought
  unfoldable pub cache_alloc : Cache → ℕ → Memory S → Run (Option ℕ × (Cache × Memory S))
  cache_alloc cachep flags m =
      if nonzero cachep.ac.avail
      then ok (some ((pop_entry cachep).0), ((pop_entry cachep).1, m))
      else cache_alloc_refill 2 cachep flags m
