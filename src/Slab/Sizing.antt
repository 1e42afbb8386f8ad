-- ===== src/Slab/Sizing.antt =====
-- How mm/slab.c lays a cache out (`kmem_cache_create_bs`, `cache_estimate_bs`), and how large it makes
-- the arrays of a cache. `ALIGN` of the kernel's headers is a parameter, as are the general caches.
use biscuit_os_memory.Common.{
  ℕ, zero, suc, ◌+◌, ◌-◌, ◌*◌, ◌/◌, ◌^◌, max, Bool, true, false, leb, ltb, ◌==◌, ◌&&◌, ◌||◌,
  if◌then◌else◌, nonzero, bit_and, bit_or, Option, none, some, List, [], ◌∷◌, Run, ok, bug_on,
  ◌>>=◌,
}
use biscuit_os_memory.Buddy.{word}
use biscuit_os_memory.Vmalloc.{page_size}
use biscuit_os_memory.Slab.{
  ArrayCache, Cache, Memory, World, slab_limit, slab_hwcache_align, slab_cache_dma,
  slab_reclaim_account, slab_destroy_by_rcu, cflgs_off_slab, has, minus,
}
use biscuit_os_memory.Slab.Release.{free_block}

-- `sizeof(struct slab_bs)` and `sizeof(kmem_bufctl_t_bs)`
abbrev pub slab_bytes : ℕ
slab_bytes = 24

abbrev pub bufctl_bytes : ℕ
bufctl_bytes = 4

abbrev pub bytes_per_word : ℕ
bytes_per_word = 4

-- `cache_line_size_bs`
abbrev pub cache_line_size : ℕ
cache_line_size = 32

-- `MAX_GFP_ORDER_BS` and `MAX_OBJ_ORDER_BS`
abbrev pub max_gfp_order : ℕ
max_gfp_order = 5

-- What a layout comes to: the objects of a slab and the bytes that are left over.
pub record Estimate : Type 0 where
  pub num : ℕ
  pub left_over : ℕ

-- The bytes of a slab that its descriptor takes when it stands in the slab.
unfoldable pub slab_base : ℕ → ℕ
slab_base flags = if has flags cflgs_off_slab then 0 else slab_bytes

unfoldable pub object_extra : ℕ → ℕ
object_extra flags = if has flags cflgs_off_slab then 0 else bufctl_bytes

module _ (align_up : ℕ → ℕ → ℕ) where
  -- The bytes that `i` objects take with what the slab keeps of them.
  unfoldable pub slab_need : ℕ → ℕ → ℕ → ℕ → ℕ
  slab_need size align flags i =
      i * size + align_up (slab_base flags + i * object_extra flags) align

  -- The loop of `cache_estimate_bs` from `i` on, in at most `rounds` rounds.
  unfoldable pub count_fits : ℕ → ℕ → ℕ → ℕ → ℕ → ℕ → ℕ
  count_fits zero wastage size align flags i = i
  count_fits (suc rounds) wastage size align flags i =
      let rest = count_fits rounds wastage size align flags (i + 1) in
      if leb (slab_need size align flags i) wastage then rest else i

  -- The end of `cache_estimate_bs`: the estimate for a number of objects.
  unfoldable pub estimate_with : ℕ → ℕ → ℕ → ℕ → ℕ → Estimate
  estimate_with wastage size align flags num = record {
    num = num;
    left_over =
        minus (minus wastage (num * size))
          (align_up (slab_base flags + num * object_extra flags) align);
  }

  -- `cache_estimate_bs`
  unfoldable pub cache_estimate : ℕ → ℕ → ℕ → ℕ → Estimate
  cache_estimate gfporder size align flags =
      let wastage = page_size * 2 ^ gfporder in
      let i = count_fits (wastage + 1) wastage size align flags 0 in
      estimate_with wastage size align flags (if ltb slab_limit (i - 1) then slab_limit else i - 1)

  -- The loop of `kmem_cache_create_bs` over the orders, in at most `rounds` rounds: the order and the
  -- estimate for it. `break_order` is `slab_break_gfp_order_bs`.
  unfoldable pub order_loop : ℕ → ℕ → ℕ → ℕ → ℕ → ℕ → ℕ → ℕ × Estimate
  order_loop zero gfporder size align flags offslab_limit break_order =
      (gfporder, cache_estimate gfporder size align flags)
  order_loop (suc rounds) gfporder size align flags offslab_limit break_order =
      let e = cache_estimate gfporder size align flags in
      let next = order_loop rounds (gfporder + 1) size align flags offslab_limit break_order in
      if leb max_gfp_order gfporder
      then (gfporder, e)
      else if e.num == 0
      then next
      else if has flags cflgs_off_slab && ltb offslab_limit e.num
      then (minus gfporder 1, cache_estimate (minus gfporder 1) size align flags)
      else if leb break_order gfporder || leb (e.left_over * 8) (page_size * 2 ^ gfporder)
      then (gfporder, e)
      else next

-- The first part of `kmem_cache_create_bs` rounds the size up to words.
unfoldable pub word_size : ℕ → ℕ
word_size size =
    if nonzero (bit_and size (bytes_per_word - 1))
    then bit_and (size + (bytes_per_word - 1)) (word - bytes_per_word)
    else size

-- The loop `while (size <= ralign/2) ralign /= 2`, in at most `rounds` rounds.
unfoldable pub halve_align : ℕ → ℕ → ℕ → ℕ
halve_align zero size ralign = ralign
halve_align (suc rounds) size ralign =
    let rest = halve_align rounds size (ralign / 2) in
    if leb size (ralign / 2) then rest else ralign

-- The alignment of `kmem_cache_create_bs`, where `ARCH_SLAB_MINALIGN_BS` is 0. The debug flags that it
-- clears are not legal here.
unfoldable pub final_align : ℕ → ℕ → ℕ → ℕ
final_align size align flags =
    let ralign =
      if has flags slab_hwcache_align
      then halve_align cache_line_size size cache_line_size
      else bytes_per_word in
    if ltb ralign align then align else ralign

-- The fields of a new cache that its layout decides.
pub record Layout : Type 0 where
  pub objsize : ℕ
  pub flags : ℕ
  pub gfporder : ℕ
  pub num : ℕ
  pub slab_size : ℕ
  pub colour : ℕ
  pub colour_off : ℕ
  pub gfpflags : ℕ

module _ (align_up : ℕ → ℕ → ℕ) where
  -- The end of the layout in `kmem_cache_create_bs`, once the order is known.
  unfoldable pub place_slab : ℕ → ℕ → ℕ → ℕ × Estimate → Layout
  place_slab size align flags r =
      let e = r.1 in
      let bytes = e.num * bufctl_bytes + slab_bytes in
      let slab_size = align_up bytes align in
      let moves = has flags cflgs_off_slab && leb slab_size e.left_over in
      let flags' = if moves then flags - cflgs_off_slab else flags in
      let left_over = if moves then e.left_over - slab_size else e.left_over in
      let colour_off = max cache_line_size align in
      record {
        objsize = size;
        flags = flags';
        gfporder = r.0;
        num = e.num;
        slab_size = if has flags' cflgs_off_slab then bytes else slab_size;
        colour = left_over / colour_off;
        colour_off = colour_off;
        gfpflags = if has flags slab_cache_dma then 1 else 0;
      }

  -- The order of the slabs of a cache of `kmem_cache_create_bs`, and the estimate for it.
  unfoldable pub choose_order : ℕ → ℕ → ℕ → ℕ → ℕ → ℕ × Estimate
  choose_order size align flags offslab_limit break_order =
      if has flags slab_reclaim_account && leb size page_size
      then (0, cache_estimate align_up 0 size align flags)
      else order_loop align_up (max_gfp_order + 1) 0 size align flags offslab_limit break_order

  -- The layout of `kmem_cache_create_bs` for a size in whole words and the final alignment; none
  -- when no object fits.
  unfoldable pub lay_out : ℕ → ℕ → ℕ → ℕ → ℕ → Option Layout
  lay_out size align flags offslab_limit break_order =
      let flags' = if leb (page_size / 8) size then bit_or flags cflgs_off_slab else flags in
      let size' = align_up size align in
      let r = choose_order size' align flags' offslab_limit break_order in
      if (r.1).num == 0 then none else some (place_slab size' align flags' r)

  -- `kmem_cache_create_bs` up to the layout: the usage errors, the legal flags, the size and the
  -- alignment. `misuse` says that there is no name, that it is in an interrupt, or that there is a
  -- destructor without a constructor; `dtor` that there is a destructor.
  unfoldable pub create_layout : Bool → Bool → ℕ → ℕ → ℕ → ℕ → ℕ → Run (Option Layout)
  create_layout misuse dtor size align flags offslab_limit break_order =
      bug_on (misuse || ltb size bytes_per_word || ltb (2 ^ max_gfp_order * page_size) size) (
        bug_on (has flags slab_destroy_by_rcu && dtor) (
          bug_on (has flags (word - 1 - create_mask)) (
            ok (
              lay_out (word_size size) (final_align (word_size size) align flags) flags
                offslab_limit break_order))))
    where
      create_mask : ℕ
      create_mask = 0xef000

-- The length of the array of `enable_cpucache_bs`
unfoldable pub cpucache_limit : ℕ → ℕ
cpucache_limit objsize =
    if ltb 131072 objsize
    then 1
    else if ltb page_size objsize
    then 8
    else if ltb 1024 objsize
    then 24
    else if ltb 256 objsize
    then 54
    else 120

-- `alloc_arraycache_bs`. `kmalloc` has memory for so many bytes or not, `blank` is what it holds.
unfoldable pub alloc_arraycache {ℓ} :
    {S : Type ℓ} → (ℕ → S → Bool × S) → (ℕ → ℕ) → ℕ → ℕ → S → Option ArrayCache × S
alloc_arraycache kmalloc blank count batchcount s =
    let r = kmalloc (4 * count + 16) s in
    if r.0
    then (
      some (record {
        avail = 0;
        limit = count;
        batchcount = batchcount;
        touched = false;
        entry = blank;
      }),
      r.1,
    )
    else (none, r.1)

module _ {ℓ} {S : Type ℓ} (w : World S) (kmalloc : ℕ → S → Bool × S) (kfree : S → S)
    (blank : ℕ → ℕ) where
  -- The end of `do_tune_cpucache_bs`: a new shared array, when there is memory for it.
  unfoldable pub tune_shared : ℕ → Cache → Memory S → Run (Cache × Memory S)
  tune_shared count cachep m =
      let r = alloc_arraycache kmalloc blank count 0xbaadf00d m.rest in
      elim (r.0) [
        | none ↦ ok (cachep, record m { rest = r.1 })
        | some new_shared ↦ elim cachep.lists.shared [
          | none ↦ ok (with_shared new_shared cachep, record m { rest = r.1 })
          | some old ↦
              free_block w (with_shared new_shared cachep) old.entry old.avail
                (record m { rest = r.1 })
              >>= λ q. ok (q.0, record (q.1) { rest = kfree (q.1).rest })
        ]
      ]
    where
      with_shared : ArrayCache → Cache → Cache
      with_shared array c = record c { lists = record c.lists { shared = some array } }

  -- `do_tune_cpucache_bs` with one processor, and whether it had memory for the array.
  unfoldable pub do_tune_cpucache : Cache → ℕ → ℕ → ℕ → Memory S → Run (Bool × (Cache × Memory S))
  do_tune_cpucache cachep limit batchcount shared m =
      let r = alloc_arraycache kmalloc blank limit batchcount m.rest in
      elim (r.0) [
        | none ↦ ok (false, (cachep, record m { rest = r.1 }))
        | some new ↦
            free_block w (tuned new) cachep.ac.entry cachep.ac.avail (record m { rest = r.1 })
            >>= λ q.
                tune_shared (batchcount * shared) (q.0) (record (q.1) { rest = kfree (q.1).rest })
                >>= λ t. ok (true, t)
      ]
    where
      tuned : ArrayCache → Cache
      tuned new = record cachep {
        ac = new;
        batchcount = batchcount;
        limit = limit;
        free_limit = 2 * batchcount + cachep.num;
      }

  -- `enable_cpucache_bs`. `smp` says that the kernel is built for several processors.
  unfoldable pub enable_cpucache : Bool → Cache → Memory S → Run (Bool × (Cache × Memory S))
  enable_cpucache smp cachep m =
      let limit = cpucache_limit cachep.objsize in
      let shared = if smp && leb cachep.objsize page_size then 8 else 0 in
      do_tune_cpucache cachep limit ((limit + 1) / 2) shared m

-- The first entry of the general caches, with its sizes and its two caches, for a size; the last
-- entry, with the size `ULONG_MAX`, has no caches.
unfoldable pub find_general_cachep : List (ℕ × (Option ℕ × Option ℕ)) → ℕ → ℕ → Option ℕ
find_general_cachep [] size gfpflags = none
find_general_cachep (csizep ∷ rest) size gfpflags =
    let later = find_general_cachep rest size gfpflags in
    if ltb (csizep.0) size then later else if has gfpflags 1 then (csizep.1).1 else (csizep.1).0
