-- ===== src/Slab/Reap.antt =====
-- How the caches of mm/slab.c give memory back: `cache_reap_bs`, the shrinking of a cache and its end.
use biscuit_os_memory.Common.{
  ℕ, zero, suc, ◌+◌, ◌-◌, ◌*◌, ◌/◌, Bool, true, false, ltb, ◌||◌, if◌then◌else◌, nonzero, Option,
  none, some, List, [], ◌∷◌, length, max, Run, ok, bug_on, ◌>>=◌,
}
use biscuit_os_memory.Slab.{ArrayCache, Cache, Memory, World, slab_no_reap, has, minus, unlink}
use biscuit_os_memory.Slab.Release.{drop_entries, free_block}
use biscuit_os_memory.Slab.Grow.{slab_destroy}

-- The number of objects that `drain_array_locked_bs` frees of an array that it drains.
unfoldable pub drain_count : ArrayCache → Bool → ℕ
drain_count ac force =
    let tofree = if force then ac.avail else (ac.limit + 4) / 5 in
    if ltb ac.avail tofree then (ac.avail + 1) / 2 else tofree

-- The number of slabs that `cache_reap_bs` takes, for a cache with objects in its slabs.
unfoldable pub reap_count : Cache → ℕ
reap_count searchp = (searchp.free_limit + 5 * searchp.num - 1) / (5 * searchp.num)

-- `list.prev` of the head of a list
unfoldable pub last : List ℕ → Option ℕ
last [] = none
last (x ∷ xs) = elim (last xs) [ none ↦ some x | some y ↦ some y ]

unfoldable pub nonempty : List ℕ → Bool
nonempty [] = false
nonempty (_ ∷ _) = true

module _ {ℓ} {S : Type ℓ} (w : World S) where
  -- `drain_array_locked_bs`: the array, and the cache of which it is one.
  unfoldable pub drain_array_locked :
      Cache → ArrayCache → Bool → Memory S → Run (ArrayCache × (Cache × Memory S))
  drain_array_locked cachep ac force m =
      if ac.touched
      then (if force then drained else ok (record ac { touched = false }, (cachep, m)))
      else drained
    where
      drained : Run (ArrayCache × (Cache × Memory S))
      drained =
          if nonzero ac.avail
          then (free_block w cachep ac.entry (drain_count ac force) m >>= λ r.
              ok (drop_entries (drain_count ac force) ac, r))
          else ok (ac, (cachep, m))

  unfoldable pub drain_own : Cache → Memory S → Run (Cache × Memory S)
  drain_own cachep m = drain_array_locked cachep cachep.ac false m >>= λ r.
      ok (record ((r.1).0) { ac = r.0 }, (r.1).1)

  unfoldable pub drain_shared : Cache → Bool → Memory S → Run (Cache × Memory S)
  drain_shared cachep force m = elim cachep.lists.shared [
    | none ↦ ok (cachep, m)
    | some shared_array ↦ drain_array_locked cachep shared_array force m >>= λ r.
        ok (record ((r.1).0) { lists = record ((r.1).0).lists { shared = some (r.0) } }, (r.1).1)
  ]

  -- A slab leaves the cache, in the loops of `cache_reap_bs` and `__cache_shrink_bs`.
  unfoldable pub release_slab : ℕ → Cache → Memory S → Run (Cache × Memory S)
  release_slab slabp cachep m =
      let l3 = unlink slabp cachep.lists in
      slab_destroy w cachep slabp m >>= λ m'.
      ok (
        record cachep { lists = record l3 { free_objects = minus l3.free_objects cachep.num } },
        m',
      )

  -- At most `rounds` free slabs from the first on leave the cache.
  unfoldable pub reap_loop : ℕ → Cache → Memory S → Run (Cache × Memory S)
  reap_loop zero cachep m = ok (cachep, m)
  reap_loop (suc rounds) cachep m = elim cachep.lists.slabs_free [
    | [] ↦ ok (cachep, m)
    | slabp ∷ _ ↦
        bug_on (nonzero (m.slabs slabp).inuse)
          (release_slab slabp cachep m >>= λ r. reap_loop rounds (r.0) (r.1))
  ]

  -- The loop of `cache_reap_bs`, which runs at least once
  unfoldable pub reap_slabs : ℕ → Cache → Memory S → Run (Cache × Memory S)
  reap_slabs tofree cachep m = reap_loop (max 1 tofree) cachep m

  -- What `cache_reap_bs` does to a cache after its own array is drained. `due` says that `next_reap` is
  -- not after `jiffies`, `next` is `jiffies + REAPTIMEOUT_LIST3_BS`.
  unfoldable pub reap_lists : Bool → ℕ → Cache → Memory S → Run (Cache × Memory S)
  reap_lists due next searchp m =
      if due
      then (drain_shared (record searchp { lists = record searchp.lists { next_reap = next } })
            false m
          >>= λ r. untouched (r.0) (r.1))
      else ok (searchp, m)
    where
      untouched : Cache → Memory S → Run (Cache × Memory S)
      untouched c m' =
          if c.lists.free_touched
          then ok (record c { lists = record c.lists { free_touched = false } }, m')
          else reap_slabs (reap_count c) c m'

  -- The body of the loop of `cache_reap_bs` for one cache
  unfoldable pub cache_reap_one : Bool → ℕ → Cache → Memory S → Run (Cache × Memory S)
  cache_reap_one due next searchp m =
      if has searchp.flags slab_no_reap
      then ok (searchp, m)
      else (drain_own searchp m >>= λ r. reap_lists due next (r.0) (r.1))

  -- `do_drain_bs`
  unfoldable pub do_drain : Cache → Memory S → Run (Cache × Memory S)
  do_drain cachep m = free_block w cachep cachep.ac.entry cachep.ac.avail m >>= λ r.
      ok (record (r.0) { ac = record (r.0).ac { avail = 0 } }, r.1)

  -- `drain_cpu_caches_bs`
  unfoldable pub drain_cpu_caches : Cache → Memory S → Run (Cache × Memory S)
  drain_cpu_caches cachep m = do_drain cachep m >>= λ r. drain_shared (r.0) true (r.1)

  -- The loop of `__cache_shrink_bs` over the free slabs from the last on.
  unfoldable pub shrink_loop : ℕ → Cache → Memory S → Run (Cache × Memory S)
  shrink_loop zero cachep m = ok (cachep, m)
  shrink_loop (suc rounds) cachep m = elim (last cachep.lists.slabs_free) [
    | none ↦ ok (cachep, m)
    | some slabp ↦ release_slab slabp cachep m >>= λ r. shrink_loop rounds (r.0) (r.1)
  ]

  -- `__cache_shrink_bs`: whether the cache still has slabs.
  unfoldable pub cache_shrink : Cache → Memory S → Run (Bool × (Cache × Memory S))
  cache_shrink cachep m = drain_cpu_caches cachep m >>= λ r.
      shrink_loop (length (r.0).lists.slabs_free) (r.0) (r.1) >>= λ q.
      ok (nonempty (q.0).lists.slabs_full || nonempty (q.0).lists.slabs_partial, q)
