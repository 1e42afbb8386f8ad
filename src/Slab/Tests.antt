-- ===== src/Slab/Tests.antt =====
-- Runs of the definitions of mm/slab.c, and the witnesses of the theorems about it.
use biscuit_os_memory.Common.{
  ℕ, ◌+◌, ◌-◌, ◌*◌, ◌/◌, ◌^◌, ◌≡◌, refl, true, false, Option, none, some, List, [], ◌∷◌, Run, ok,
  ◌>>=◌, Returns, ◌<◌, if◌then◌else◌, ◌==◌, occurs, arith,
}
use biscuit_os_memory.Slab.{Slab, ArrayCache, Lists, Cache, Memory, World, off_slab, unlink}
use biscuit_os_memory.Slab.Object.{
  init_chain, init_objs, visit_objs, object_at, take_object, push_entry, take_objects,
  object_number,
}
use biscuit_os_memory.Slab.Grow.{
  mark_pages, set_slabs, set_slab_attr, kmem_flagcheck, kmem_getpages, alloc_slabmgmt, next_colour,
  cache_init_objs, make_active, cache_grow_slab, cache_grow,
}
use biscuit_os_memory.Slab.Alloc.{
  refill_count, first_slab, next_slab, refile, refill_round, refill_next, refill_loop,
  refill_from_slabs, refill_with, refill_array, pop_entry, cache_alloc_refill, cache_alloc,
}
use biscuit_os_memory.Slab.Release.{entries, free_block, cache_free}
use biscuit_os_memory.Slab.Chain.{IsFree}
use biscuit_os_memory.Slab.Refine.{Takes, take_objects-Takes}
use biscuit_os_memory.Slab.Balance.{Sound}
use biscuit_os_memory.Slab.Refill.{Refilled, refill_loop-Refilled}
use biscuit_os_memory.Slab.PutBack.{Kept}
use biscuit_os_memory.Slab.FreeBlock.{AllOut, Settled, free_block-Settled}
use biscuit_os_memory.Slab.Moves.{batch_wanted}
use biscuit_os_memory.Slab.Arrays.{cache_alloc-cache_free, Gives, refill_array-Gives}
use biscuit_os_memory.Slab.Estimate.{Settles, order_loop-Settles}
use biscuit_os_memory.Slab.Sizing.{
  slab_base, object_extra, slab_need, count_fits, estimate_with, cache_estimate, order_loop,
}

-- A page allocator that hands out the addresses from a number of pages on, one block after the other.
abbrev pages_in_order : World ℕ
pages_in_order = record {
  alloc_pages = λ flags order s. (some (s * 4096), s + 2 ^ order);
  free_pages = λ addr order s. s;
  slabp_alloc = λ flags s. (none, s);
  slabp_free = λ slabp s. s;
  ctor = λ objp flags s. s;
  dtor = λ objp flags s. s;
}

abbrev empty_array : ArrayCache
empty_array = record { avail = 0; limit = 4; batchcount = 2; touched = false; entry = λ _. 0 }

abbrev new_cache : Cache
new_cache = record {
  ac = empty_array;
  batchcount = 2;
  limit = 4;
  lists = record {
    slabs_partial = [];
    slabs_full = [];
    slabs_free = [];
    free_objects = 0;
    free_touched = false;
    next_reap = 0;
    shared = none;
  };
  objsize = 1024;
  flags = 0;
  num = 3;
  free_limit = 7;
  gfporder = 0;
  gfpflags = 0;
  colour = 1;
  colour_off = 32;
  colour_next = 0;
  slab_size = 64;
}

abbrev new_memory : Memory ℕ
new_memory = record {
  slabs = λ _. record { colouroff = 0; s_mem = 0; inuse = 0; free = 0; bufctl = λ _. 0 };
  page_slab = λ _. 0;
  slab_page = λ _. false;
  nr_slab = 0;
  reclaim_pages = 0;
  rcu = [];
  rest = 16;
}

abbrev align_by : ℕ → ℕ → ℕ
align_by x a = (x + a - 1) / a * a

-- A cache of 1024-byte objects with its descriptors in the slabs.
first_object : Run (Option ℕ)
first_object = cache_alloc pages_in_order new_cache 0xd0 new_memory >>= λ r. ok (r.0)

first_object_is : first_object ≡ ok (some 66624)
unfolding first_object off_slab unlink init_chain init_objs visit_objs object_at take_object
    push_entry take_objects mark_pages set_slabs set_slab_attr kmem_flagcheck kmem_getpages
    alloc_slabmgmt next_colour cache_init_objs make_active cache_grow_slab cache_grow refill_count
    first_slab next_slab refile refill_round refill_next refill_loop refill_from_slabs refill_with
    refill_array pop_entry cache_alloc_refill cache_alloc
first_object_is = refl

estimate_128 : cache_estimate align_by 0 128 32 0 ≡ record { num = 30; left_over = 96 }
unfolding cache_estimate estimate_with count_fits slab_need slab_base object_extra
estimate_128 = refl

-- A slab of three objects that are all out, the only one of its cache.
abbrev full_slab : Slab
full_slab = record { colouroff = 64; s_mem = 65600; inuse = 3; free = 4294967295; bufctl = λ _. 0 }

abbrev no_chain : ℕ → List ℕ
no_chain p = []

abbrev used_memory : Memory ℕ
used_memory = record {
  slabs = λ _. full_slab;
  page_slab = λ _. 65536;
  slab_page = λ _. true;
  nr_slab = 1;
  reclaim_pages = 0;
  rcu = [];
  rest = 17;
}

abbrev used_lists : Lists
used_lists = record {
  slabs_partial = [];
  slabs_full = 65536 ∷ [];
  slabs_free = [];
  free_objects = 0;
  free_touched = false;
  next_reap = 0;
  shared = none;
}

-- Its array has the first and the third object.
abbrev two_objects : ℕ → ℕ
two_objects k = if k == 0 then 65600 else 67648

abbrev used_cache : Cache
used_cache = record new_cache {
  ac = record { avail = 2; limit = 2; batchcount = 2; touched = false; entry = two_objects };
  lists = used_lists;
}

only_slab : (p : ℕ) → 0 < occurs p (65536 ∷ []) → 65536 ≡ p
only_slab p on = ground arith

used_Sound : Sound 3 no_chain used_memory.slabs used_lists
used_Sound = record {
  some_objects = omega arith;
  few_objects = omega arith;
  lists = record {
    once = λ p. ground arith;
    partial_some = λ p on. absurd (omega arith);
    partial_most = λ p on. absurd (omega arith);
    full_none = λ p on. refl;
    free_all = λ p on. absurd (omega arith);
  };
  stacks = λ p on. record { links = refl; count = refl };
}

used_Kept : Kept 0 no_chain used_cache used_memory
used_Kept = record {
  sound = used_Sound;
  pages =
      λ p on. record { flagged = λ k lt. refl; named = λ k lt. only_slab p (omega (arith, on)) };
  counted = refl;
}

used_AllOut : AllOut used_cache used_memory no_chain (entries 2 0 two_objects)
unfolding entries object_number
used_AllOut = (
  record { on_list = omega arith; object = omega arith; missing = refl },
  (
    ((λ same e. absurd (ground (arith, e))), tt),
    (record { on_list = omega arith; object = omega arith; missing = refl }, (tt, tt)),
  ),
)

free_block-Settled_example :
    Returns (Settled 0 used_cache) (free_block pages_in_order used_cache two_objects 2 used_memory)
free_block-Settled_example =
    free_block-Settled pages_in_order two_objects 2 no_chain used_cache used_memory used_Kept
      used_AllOut

cache_alloc-cache_free_example :
    (cache_free pages_in_order used_cache 66624 used_memory >>= λ r.
    cache_alloc pages_in_order (r.0) 0xd0 (r.1) >>= λ q. ok (q.0))
    ≡ ok (some 66624)
cache_alloc-cache_free_example =
    cache_alloc-cache_free pages_in_order 66624 0xd0 no_chain used_cache used_memory (omega arith)
      (omega arith) (omega arith) tt used_Kept used_AllOut

-- A slab whose objects 1 and 2 are free.
abbrev half_slab : Slab
half_slab = record {
  colouroff = 64;
  s_mem = 65600;
  inuse = 1;
  free = 1;
  bufctl = λ k. if k == 1 then 2 else 4294967295;
}

half_IsFree : IsFree 3 half_slab (1 ∷ 2 ∷ [])
half_IsFree = record {
  links = (refl, (omega arith, (refl, (refl, (omega arith, (refl, refl))))));
  count = refl;
}

take_objects-Takes_example :
    Takes 3 1024 2 half_slab empty_array
      (1 ∷ 2 ∷ [])
      []
      (take_objects 2 3 1024 half_slab empty_array)
take_objects-Takes_example =
    take_objects-Takes 2 3 1024 half_slab empty_array (1 ∷ 2 ∷ []) half_IsFree

abbrev half_memory : Memory ℕ
half_memory = record used_memory { slabs = λ _. half_slab }

abbrev half_chain : ℕ → List ℕ
half_chain p = 1 ∷ 2 ∷ []

abbrev half_cache : Cache
half_cache = record new_cache {
  lists = record used_lists { slabs_partial = 65536 ∷ []; slabs_full = []; free_objects = 2 };
}

half_Kept : Kept 0 half_chain half_cache half_memory
half_Kept = record {
  sound = record {
    some_objects = omega arith;
    few_objects = omega arith;
    lists = record {
      once = λ p. ground arith;
      partial_some = λ p on. omega arith;
      partial_most = λ p on. omega arith;
      full_none = λ p on. absurd (omega arith);
      free_all = λ p on. absurd (omega arith);
    };
    stacks = λ p on. half_IsFree;
  };
  pages =
      λ p on. record { flagged = λ k lt. refl; named = λ k lt. only_slab p (omega (arith, on)) };
  counted = refl;
}

refill_array-Gives_example :
    Returns (Gives (batch_wanted empty_array) half_cache) (refill_array half_cache half_memory)
refill_array-Gives_example =
    refill_array-Gives half_chain half_cache half_memory refl (omega arith) half_Kept

refill_loop-Refilled_example :
    Refilled 3 2 half_chain
      (record { ac = empty_array; lists = half_cache.lists; slabs = half_memory.slabs })
      (refill_loop 2 2 3 1024
        (record { ac = empty_array; lists = half_cache.lists; slabs = half_memory.slabs }))
refill_loop-Refilled_example =
    refill_loop-Refilled 2 2 3 1024 half_chain
      (record { ac = empty_array; lists = half_cache.lists; slabs = half_memory.slabs })
      (omega arith) half_Kept.sound

order_loop-Settles_example : Settles align_by 128 32 0 1 0 (order_loop align_by 6 0 128 32 0 126 1)
order_loop-Settles_example =
    order_loop-Settles align_by 128 32 0 6 0 126 1 (omega arith) (omega arith) refl
