-- ===== src/Slab.antt =====
-- The slab allocator of mm/slab.c, built without debugging and without statistics. A cache is seen from
-- one processor: `ac` is its `array[smp_processor_id()]`. An address stands for itself, and the
-- descriptor of a page for the number of the page. The page allocator, the cache that off-slab
-- descriptors come from and the functions of the cache's user are the operations of `World`.
use biscuit_os_memory.Common.{
  ℕ, zero, suc, ◌+◌, ◌-◌, ◌*◌, ◌/◌, ◌^◌, Bool, true, false, leb, ltb, ◌==◌, if◌then◌else◌, nonzero,
  bit_and, bit_or, update, Option, none, some, List, erase,
}
use biscuit_os_memory.Buddy.{word}
use biscuit_os_memory.Vmalloc.{page_size}
pub mod Object
pub mod Grow
pub mod Alloc
pub mod Release
pub mod Reap
pub mod Sizing
pub mod Chain
pub mod Refine
pub mod Estimate
pub mod Listed
pub mod Balance
pub mod Pages
pub mod Room
pub mod PutBack
pub mod FreeBlock
pub mod Refill
pub mod Arrays
pub mod Moves
mod Tests

-- `struct slab_bs` with the `kmem_bufctl_t_bs` array behind it
pub record Slab : Type 0 where
  pub colouroff : ℕ
  pub s_mem : ℕ
  pub inuse : ℕ
  pub free : ℕ
  pub bufctl : ℕ → ℕ

-- `struct array_cache_bs` with its entries
pub record ArrayCache : Type 0 where
  pub avail : ℕ
  pub limit : ℕ
  pub batchcount : ℕ
  pub touched : Bool
  pub entry : ℕ → ℕ

-- `struct kmem_list3_bs`
pub record Lists : Type 0 where
  pub slabs_partial : List ℕ
  pub slabs_full : List ℕ
  pub slabs_free : List ℕ
  pub free_objects : ℕ
  pub free_touched : Bool
  pub next_reap : ℕ
  pub shared : Option ArrayCache

-- `struct kmem_cache_s_bs`
pub record Cache : Type 0 where
  pub ac : ArrayCache
  pub batchcount : ℕ
  pub limit : ℕ
  pub lists : Lists
  pub objsize : ℕ
  pub flags : ℕ
  pub num : ℕ
  pub free_limit : ℕ
  pub gfporder : ℕ
  pub gfpflags : ℕ
  pub colour : ℕ
  pub colour_off : ℕ
  pub colour_next : ℕ
  pub slab_size : ℕ

-- What a cache works on: the slab descriptors by their address, for each page the slab that its
-- descriptor names and its `PG_slab` flag, the counters `nr_slab` and `slab_reclaim_pages_bs`, the
-- descriptors that wait for `call_rcu` with the address of their memory, and the state of all else.
pub record Memory {ℓ} (S : Type ℓ) : Type ℓ where
  pub slabs : ℕ → Slab
  pub page_slab : ℕ → ℕ
  pub slab_page : ℕ → Bool
  pub nr_slab : ℕ
  pub reclaim_pages : ℕ
  pub rcu : List (ℕ × ℕ)
  pub rest : S

-- What slab.c calls: `alloc_pages_bs` and `free_pages_bs` of the page allocator, `kmem_cache_alloc_bs`
-- and `kmem_cache_free_bs` of `slabp_cache`, and the cache's `ctor` and `dtor`, which do nothing where
-- the pointer is null.
pub record World {ℓ} (S : Type ℓ) : Type ℓ where
  pub alloc_pages : ℕ → ℕ → S → Option ℕ × S
  pub free_pages : ℕ → ℕ → S → S
  pub slabp_alloc : ℕ → S → Option ℕ × S
  pub slabp_free : ℕ → S → S
  pub ctor : ℕ → ℕ → S → S
  pub dtor : ℕ → ℕ → S → S

-- `BUFCTL_END_BS` and `SLAB_LIMIT_BS`
abbrev pub bufctl_end : ℕ
bufctl_end = word - 1

abbrev pub slab_limit : ℕ
slab_limit = word - 3

abbrev pub slab_no_reap : ℕ
slab_no_reap = 0x1000

abbrev pub slab_hwcache_align : ℕ
slab_hwcache_align = 0x2000

abbrev pub slab_cache_dma : ℕ
slab_cache_dma = 0x4000

abbrev pub slab_reclaim_account : ℕ
slab_reclaim_account = 0x20000

abbrev pub slab_destroy_by_rcu : ℕ
slab_destroy_by_rcu = 0x80000

abbrev pub cflgs_off_slab : ℕ
cflgs_off_slab = 0x80000000

-- A test of a flag of a word.
abbrev pub has : ℕ → ℕ → Bool
has flags flag = nonzero (bit_and flags flag)

-- `OFF_SLAB_BS`
unfoldable pub off_slab : Cache → Bool
off_slab cachep = has cachep.flags cflgs_off_slab

-- A subtraction of words, which wraps around.
abbrev pub minus : ℕ → ℕ → ℕ
minus a b = if ltb a b then a + word - b else a - b

-- `virt_to_page_bs`
abbrev pub virt_to_page : ℕ → ℕ
virt_to_page addr = addr / page_size

-- `memcpy` between arrays: `count` entries of `src` from `from` on go to `dst` from `to` on.
abbrev pub copy : ℕ → (ℕ → ℕ) → ℕ → (ℕ → ℕ) → ℕ → ℕ → ℕ
copy count src from dst to j =
    if leb to j then (if ltb j (to + count) then src (from + (j - to)) else dst j) else dst j

-- `list_del` of a slab, from whichever list of the cache it is on.
unfoldable pub unlink : ℕ → Lists → Lists
unlink slabp l3 = record l3 {
  slabs_partial = erase slabp l3.slabs_partial;
  slabs_full = erase slabp l3.slabs_full;
  slabs_free = erase slabp l3.slabs_free;
}
