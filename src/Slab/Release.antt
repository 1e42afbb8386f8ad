-- ===== src/Slab/Release.antt =====
-- The return of objects to a cache of mm/slab.c.
use biscuit_os_memory.Common.{
  ℕ, zero, suc, ◌+◌, ◌-◌, ltb, ◌==◌, if◌then◌else◌, nonzero, update, Option, none, some, List, [],
  ◌∷◌, ◌++◌, Run, ok, ◌>>=◌,
}
use biscuit_os_memory.Slab.{ArrayCache, Cache, Memory, World, minus, virt_to_page, copy, unlink}
use biscuit_os_memory.Slab.Object.{push_entry, object_number, put_object}
use biscuit_os_memory.Slab.Grow.{slab_destroy}

-- The first `count` entries of an array from `from` on.
unfoldable pub entries : ℕ → ℕ → (ℕ → ℕ) → List ℕ
entries zero from entry = []
entries (suc count) from entry = entry from ∷ entries count (from + 1) entry

-- The objects from `count` on move to the start of the array.
unfoldable pub drop_entries : ℕ → ArrayCache → ArrayCache
drop_entries count ac = record ac {
  avail = ac.avail - count;
  entry = copy (ac.avail - count) ac.entry count ac.entry 0;
}

module _ {ℓ} {S : Type ℓ} (w : World S) where
  -- A slab goes back to its list after an object of it was freed: to the free slabs, or away when the
  -- cache has too many free objects, or to the end of the partial ones.
  unfoldable pub fixup : ℕ → Cache → Memory S → Run (Cache × Memory S)
  fixup slabp cachep m =
      let l3 = unlink slabp cachep.lists in
      if (m.slabs slabp).inuse == 0
      then (if ltb cachep.free_limit l3.free_objects
          then (slab_destroy w cachep slabp m >>= λ m'. ok (
            record cachep { lists = record l3 { free_objects = minus l3.free_objects cachep.num } },
            m',
          ))
          else ok (record cachep { lists = record l3 { slabs_free = slabp ∷ l3.slabs_free } }, m))
      else ok (
        record cachep { lists = record l3 { slabs_partial = l3.slabs_partial ++ (slabp ∷ []) } },
        m,
      )

  -- A round of the loop of `free_block_bs`
  unfoldable pub free_object : Cache → ℕ → Memory S → Run (Cache × Memory S)
  free_object cachep objp m =
      let slabp = m.page_slab (virt_to_page objp) in
      let slab = m.slabs slabp in
      fixup slabp cachep (record m {
        slabs = update m.slabs slabp (put_object slab (object_number cachep.objsize slab objp));
      })

  unfoldable pub free_objects_loop : List ℕ → Cache → Memory S → Run (Cache × Memory S)
  free_objects_loop [] cachep m = ok (cachep, m)
  free_objects_loop (objp ∷ objps) cachep m =
      free_object cachep objp m >>= λ r. free_objects_loop objps (r.0) (r.1)

  -- `free_block_bs`, for the `nr_objects` entries of an array from its start
  unfoldable pub free_block : Cache → (ℕ → ℕ) → ℕ → Memory S → Run (Cache × Memory S)
  free_block cachep objpp nr_objects m =
      free_objects_loop (entries nr_objects 0 objpp)
        (record cachep {
          lists = record cachep.lists { free_objects = cachep.lists.free_objects + nr_objects };
        })
        m

  unfoldable pub flush_to_slabs : ℕ → Cache → Memory S → Run (ℕ × (Cache × Memory S))
  flush_to_slabs batchcount cachep m =
      free_block cachep cachep.ac.entry batchcount m >>= λ r. ok (batchcount, r)

  unfoldable pub flush_to_shared : ℕ → ArrayCache → Cache → Memory S → Run (ℕ × (Cache × Memory S))
  flush_to_shared batchcount shared_array cachep m =
      let max = minus shared_array.limit shared_array.avail in
      let count = if ltb max batchcount then max else batchcount in
      if nonzero max
      then ok (
        count,
        (
          record cachep {
            lists = record cachep.lists {
              shared = some (record shared_array {
                entry = copy count cachep.ac.entry 0 shared_array.entry shared_array.avail;
                avail = shared_array.avail + count;
              });
            };
          },
          m,
        ),
      )
      else flush_to_slabs batchcount cachep m

  -- To the shared array, when there is one with room, else to the slabs: how many objects went.
  unfoldable pub flush_with :
      Option ArrayCache → ℕ → Cache → Memory S → Run (ℕ × (Cache × Memory S))
  flush_with none batchcount cachep m = flush_to_slabs batchcount cachep m
  flush_with (some shared_array) batchcount cachep m =
      flush_to_shared batchcount shared_array cachep m

  -- `cache_flusharray_bs`
  unfoldable pub cache_flusharray : Cache → Memory S → Run (Cache × Memory S)
  cache_flusharray cachep m = flush_with cachep.lists.shared cachep.ac.batchcount cachep m >>= λ r.
      ok (record ((r.1).0) { ac = drop_entries (r.0) ((r.1).0).ac }, (r.1).1)

  -- `__cache_free_bs`
  unfoldable pub cache_free : Cache → ℕ → Memory S → Run (Cache × Memory S)
  cache_free cachep objp m =
      if ltb cachep.ac.avail cachep.ac.limit
      then ok (add objp cachep, m)
      else (cache_flusharray cachep m >>= λ r. ok (add objp (r.0), r.1))
    where
      add : ℕ → Cache → Cache
      add objp cachep = record cachep { ac = push_entry cachep.ac objp }
