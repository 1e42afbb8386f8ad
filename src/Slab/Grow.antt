-- ===== src/Slab/Grow.antt =====
-- How a cache of mm/slab.c gets the memory of a slab and gives it back.
use biscuit_os_memory.Common.{
  ℕ, zero, suc, ◌+◌, ◌-◌, ◌*◌, ◌^◌, Bool, true, false, leb, not, if◌then◌else◌, nonzero, bit_and,
  bit_or, update, Option, none, some, [], ◌∷◌, ◌++◌, Run, ok, bug_on, ◌>>=◌,
}
use biscuit_os_memory.Buddy.{word}
use biscuit_os_memory.Mempool.{gfp_wait}
use biscuit_os_memory.Slab.{
  Slab, Cache, Memory, World, slab_reclaim_account, slab_destroy_by_rcu, has, off_slab, minus,
  virt_to_page,
}
use biscuit_os_memory.Slab.Object.{init_objs, visit_objs}

-- A loop over the `count` pages from `page` on that sets their `PG_slab` flag.
unfoldable pub mark_pages : ℕ → ℕ → (ℕ → Bool) → ℕ → Bool
mark_pages zero page slab_page = slab_page
mark_pages (suc count) page slab_page = mark_pages count (page + 1) (update slab_page page true)

-- The loop of `kmem_freepages_bs`, with `TestClearPageSlab_bs`.
unfoldable pub clear_pages : ℕ → ℕ → (ℕ → Bool) → Run (ℕ → Bool)
clear_pages zero page slab_page = ok slab_page
clear_pages (suc count) page slab_page =
    bug_on (not (slab_page page)) (clear_pages count (page + 1) (update slab_page page false))

-- The loop of `set_slab_attr_bs`
unfoldable pub set_slabs : ℕ → ℕ → ℕ → (ℕ → ℕ) → ℕ → ℕ
set_slabs zero page slabp page_slab = page_slab
set_slabs (suc count) page slabp page_slab =
    set_slabs count (page + 1) slabp (update page_slab page slabp)

-- `set_slab_attr_bs`, for the slab; the cache of a page is not kept.
unfoldable pub set_slab_attr {ℓ} : {S : Type ℓ} → Cache → ℕ → ℕ → Memory S → Memory S
set_slab_attr cachep slabp objp m = record m {
  page_slab = set_slabs (2 ^ cachep.gfporder) (virt_to_page objp) slabp m.page_slab;
}

-- `GFP_LEVEL_MASK_BS`, `__GFP_NO_GROW_BS` and `GFP_DMA_BS`
abbrev pub level_mask : ℕ
level_mask = 0x17ff0

abbrev pub gfp_no_grow : ℕ
gfp_no_grow = 0x2000

abbrev pub gfp_dma : ℕ
gfp_dma = 1

-- `kmem_flagcheck_bs`: whether it finds that the flags and the cache agree.
unfoldable pub kmem_flagcheck : Cache → ℕ → Bool
kmem_flagcheck cachep flags =
    if has flags gfp_dma then has cachep.gfpflags gfp_dma else not (has cachep.gfpflags gfp_dma)

module _ {ℓ} {S : Type ℓ} (w : World S) where
  -- `kmem_getpages_bs`, without a node: the address of the pages. What `add_page_state_bs` does to
  -- `nr_slab` is in include/biscuitos/page-flags.h: it adds `0UL - 1`.
  unfoldable pub kmem_getpages : Cache → ℕ → Memory S → Option ℕ × Memory S
  kmem_getpages cachep flags m =
      let r = w.alloc_pages (bit_or flags cachep.gfpflags) cachep.gfporder m.rest in
      elim (r.0) [
        | none ↦ (none, record m { rest = r.1 })
        | some addr ↦
            let i = 2 ^ cachep.gfporder in
            (
              some addr,
              record m {
                rest = r.1;
                reclaim_pages =
                    if has cachep.flags slab_reclaim_account
                    then m.reclaim_pages + i
                    else m.reclaim_pages;
                nr_slab = minus m.nr_slab 1;
                slab_page = mark_pages i (virt_to_page addr) m.slab_page;
              },
            )
      ]

  -- `kmem_freepages_bs`
  unfoldable pub kmem_freepages : Cache → ℕ → Memory S → Run (Memory S)
  kmem_freepages cachep addr m =
      let i = 2 ^ cachep.gfporder in
      clear_pages i (virt_to_page addr) m.slab_page >>= λ slab_page. ok (record m {
        slab_page = slab_page;
        nr_slab = minus m.nr_slab i;
        rest = w.free_pages addr cachep.gfporder m.rest;
        reclaim_pages =
            if has cachep.flags slab_reclaim_account
            then minus m.reclaim_pages i
            else m.reclaim_pages;
      })

  -- `alloc_slabmgmt_bs`: the descriptor, which stands in the slab or comes from `slabp_cache`.
  unfoldable pub alloc_slabmgmt : Cache → ℕ → ℕ → ℕ → Memory S → Option ℕ × Memory S
  alloc_slabmgmt cachep objp colour_off local_flags m =
      if off_slab cachep
      then (let r = w.slabp_alloc local_flags m.rest in
          elim (r.0) [
            | none ↦ (none, record m { rest = r.1 })
            | some slabp ↦ (
              some slabp,
              record m { rest = r.1; slabs = update m.slabs slabp (fresh slabp colour_off) },
            )
          ])
      else (
        some (objp + colour_off),
        record m {
          slabs =
              update m.slabs (objp + colour_off)
                (fresh (objp + colour_off) (colour_off + cachep.slab_size));
        },
      )
    where
      fresh : ℕ → ℕ → Slab
      fresh slabp off = record (m.slabs slabp) { inuse = 0; colouroff = off; s_mem = objp + off }

  -- The offset of the next slab of `cache_grow_bs`, and the next value of `colour_next`.
  unfoldable pub next_colour : Cache → Cache
  next_colour cachep = record cachep {
    colour_next = if leb cachep.colour (cachep.colour_next + 1) then 0 else cachep.colour_next + 1;
  }

  -- `cache_init_objs_bs`
  unfoldable pub cache_init_objs : Cache → ℕ → ℕ → Memory S → Memory S
  cache_init_objs cachep slabp ctor_flags m = record m {
    slabs = update m.slabs slabp (init_objs cachep.num (m.slabs slabp));
    rest =
        visit_objs cachep.num 0 (m.slabs slabp).s_mem cachep.objsize
          (λ objp. w.ctor objp ctor_flags) m.rest;
  }

  -- The slab becomes one of the cache, at the end of `cache_grow_bs`.
  unfoldable pub make_active : Cache → ℕ → Cache
  make_active cachep slabp = record cachep {
    lists = record cachep.lists {
      slabs_free = cachep.lists.slabs_free ++ (slabp ∷ []);
      free_objects = cachep.lists.free_objects + cachep.num;
    };
  }

  -- `cache_grow_bs` from the call of `kmem_getpages_bs` on, with the offset of the new slab
  unfoldable pub cache_grow_slab : Cache → ℕ → ℕ → Memory S → Run (Bool × (Cache × Memory S))
  cache_grow_slab cachep flags offset m =
      let local_flags = bit_and flags level_mask in
      let ctor_flags = if has local_flags gfp_wait then 1 else 3 in
      let r = kmem_getpages cachep flags m in
      elim (r.0) [
        | none ↦ ok (false, (cachep, r.1))
        | some objp ↦
            let q = alloc_slabmgmt cachep objp offset local_flags (r.1) in
            elim (q.0) [
              | none ↦ kmem_freepages cachep objp (q.1) >>= λ m'. ok (false, (cachep, m'))
              | some slabp ↦ ok (
                true,
                (
                  make_active cachep slabp,
                  cache_init_objs cachep slabp ctor_flags (set_slab_attr cachep slabp objp (q.1)),
                ),
              )
            ]
      ]

  -- `cache_grow_bs`, without a node
  unfoldable pub cache_grow : Cache → ℕ → Memory S → Run (Bool × (Cache × Memory S))
  cache_grow cachep flags m =
      bug_on (nonzero (bit_and flags (word - 1 - bit_or gfp_dma (bit_or level_mask gfp_no_grow)))) (
        if has flags gfp_no_grow
        then ok (false, (cachep, m))
        else bug_on (not (kmem_flagcheck cachep flags))
            (cache_grow_slab (next_colour cachep) flags (cachep.colour_next * cachep.colour_off) m))

  -- An off-slab descriptor goes back to `slabp_cache`.
  unfoldable pub free_slabp : Cache → ℕ → Memory S → Memory S
  free_slabp cachep slabp m =
      if off_slab cachep then record m { rest = w.slabp_free slabp m.rest } else m

  -- `slab_destroy_bs`
  unfoldable pub slab_destroy : Cache → ℕ → Memory S → Run (Memory S)
  slab_destroy cachep slabp m =
      let slab = m.slabs slabp in
      let addr = minus slab.s_mem slab.colouroff in
      let m' = record m {
        rest = visit_objs cachep.num 0 slab.s_mem cachep.objsize (λ objp. w.dtor objp 0) m.rest;
      } in
      if has cachep.flags slab_destroy_by_rcu
      then ok (record m' { rcu = m.rcu ++ (slabp, addr) ∷ [] })
      else (kmem_freepages cachep addr m' >>= λ m''. ok (free_slabp cachep slabp m''))

  -- `kmem_rcu_free_bs`
  unfoldable pub kmem_rcu_free : Cache → ℕ × ℕ → Memory S → Run (Memory S)
  kmem_rcu_free cachep head m =
      kmem_freepages cachep (head.1) m >>= λ m'. ok (free_slabp cachep (head.0) m')
