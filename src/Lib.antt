-- ===== src/Lib.antt =====
-- The page allocator, the boot memory, the slab caches, the memory pools, the mappings of high
-- memory, the virtual areas and the boot parameters of BiscuitOS memory, a kernel memory manager
-- in C for 32-bit ARM.
--
-- The program. Physical memory is a row of page frames, each described by a `struct page_bs`
-- (include/biscuitos/mm.h, flags in include/biscuitos/page-flags.h). A zone
-- (include/biscuitos/mmzone.h) keeps its free frames in blocks of 2^0 to 2^10 pages, one list for
-- each order, and in front of them two lists of single pages for each processor. mm/page_alloc.c
-- hands out and takes back blocks of a zone: `buffered_rmqueue_bs` asks the processor's list for
-- one page and the free areas (`__rmqueue_bs`) for a larger block, `__free_pages_bs` gives a page
-- to a list and a larger block to the free areas (`__free_pages_bulk_bs`), where it is joined with
-- its twin as long as the twin is free.
--
-- The model. A frame number stands for a pointer to its page, a function of the frame number for
-- the array of all pages, and a list of frame numbers, head first, for a list of pages.
--   Common and its children: the panic of `BUG_BS` as a result (Common/Panic), decisions, lists,
--   and the arithmetic of masks (Common/Bits).
--   Page: `struct page_bs`, its flags, and what is done to one page when it is handed out, freed
--   or found bad.
--   Buddy: a zone, `bad_range_bs`, `__page_find_buddy_bs`, `__free_pages_bulk_bs`, `expand_bs` and
--   `__rmqueue_bs`. Buddy/Index is the arithmetic of twins, Buddy/Cover counts which pages the
--   lists hold, Buddy/Valid is the invariant and the two moves of a block that keep it,
--   Buddy/Frame says what the moves leave alone, Buddy/Account bounds the free pages, Buddy/Free
--   and Buddy/Alloc are the two directions.
--   Pcp: the lists of single pages, `free_pages_bulk_bs`, `rmqueue_bulk_bs`,
--   `free_hot_cold_page_bs`, `__free_pages_ok_bs`, `__free_pages_bs` and `buffered_rmqueue_bs`.
--   Pcp/Bulk moves lists of blocks, Pcp/Held is the invariant of a whole zone, Pcp/Restock puts a
--   list back, Pcp/Alloc and Pcp/Grant hand out, Pcp/Back and Pcp/Release take back, Pcp/Pressure
--   is about the marks of a zone that has been freed to, Pcp/Users is all users together.
--   Fallback: `__alloc_pages_bs`. The record `State` is what it works on, the zones and the task's
--   leave to use the reserves, and the record `Task` what is fixed for the call and what it calls.
--   Fallback/First follows a request that the first zone serves, Fallback/Unset one for which no
--   zone is asked, Fallback/Retry one that is not given up; Pcp/Above is what a zone above its
--   mark has to give. The number of reclaims is a parameter.
--   Setup: the wait table's size and the marks of a zone (`wait_table_size_bs`,
--   `setup_per_zone_pages_min_bs`); the loop of the size has a round for each bit of a word, and
--   Setup/Sizes is about both. Setup/Core is `free_area_init_core_bs` with `fls` as a parameter,
--   Setup/Fresh is about one zone, Setup/Node about all zones of a node, and Setup/Boot about a
--   zone when Bootmem has handed its pages over. Setup/Zonelists is `build_zonelists_bs` and
--   `setup_per_zone_lowmem_reserve_bs`, with Setup/Zonelists/Reach about the lists and
--   Setup/Zonelists/Reserve about the reserves; their loops are bounded by the number of nodes and
--   zones.
--   Watermark: `zone_watermark_ok_bs`. Watermark/Enough compares its words with unbounded numbers,
--   Watermark/Supply says what it promises of the free areas.
--   Bootmem: the map of reserved pages of mm/bootmem.c; Bootmem/Marks says which pages reserving
--   and freeing mark. Bootmem/Search is `__alloc_bootmem_core_bs` and the loop over the nodes,
--   with `ALIGN` and `find_next_zero_bit` of the host kernel as parameters, Bootmem/Found is about
--   its search, Bootmem/Placed about where the buffer lies in what was found, Bootmem/Alloc and
--   Bootmem/Nodes about the whole. Each round of the search starts behind the last one, so one
--   more than the node has pages are enough. Bootmem/Init is the start of a node. Bootmem/Handover
--   is `free_all_bootmem_core_bs` over the page allocator of Pcp, with `ffs` as a parameter;
--   Bootmem/Handed is about one page and one word of the map, Bootmem/Sums and Bootmem/Handing
--   about the loops, Bootmem/Total about the whole. Pointers are physical addresses.
--   Mempool: the pools of mm/mempool.c, with the user's functions as parameters. Mempool/Account
--   says where the elements are, Mempool/Wait that a waiting caller gets one; two rounds of its
--   loop are enough when the pool is refilled while it sleeps.
--   Vmalloc: the list of virtual areas of mm/vmalloc.c, `__get_vm_area_bs` and
--   `__remove_vm_area_bs`, with `ALIGN` and `fls` of the host kernel as parameters; Vmalloc/Areas
--   shows that areas stay apart.
--   Slab: one cache of mm/slab.c, seen from one processor. Slab/Object is a slab with the chain of
--   its free objects, Slab/Grow gets and gives back the memory of a slab, Slab/Alloc, Slab/Release
--   and Slab/Reap are `__cache_alloc_bs`, `__cache_free_bs` and the ways back to the page
--   allocator, Slab/Sizing is the layout of a new cache. Slab/Chain and Slab/Refine see a slab as
--   a stack, Slab/Listed and Slab/Balance say when the lists are in order, Slab/Room, Slab/Pages,
--   Slab/PutBack and Slab/FreeBlock follow objects back into their slabs, Slab/Refill and
--   Slab/Moves and Slab/Arrays are about the arrays, Slab/Estimate is about the layout. The page
--   allocator, the cache of off-slab descriptors and the user's constructor and destructor are the
--   record `World`. The refill has a round for each object wanted, and two passes of
--   `cache_alloc_refill_bs` because the second finds the slab that the first has brought.
--   Params: the command line of fs/params.c, with a memory of bytes and strings that end at a
--   zero. What a parameter does with its value, also to the memory, is a parameter of the model.
--   Params/Equal is about names, Params/Ends says that the parsing ends inside the string; a loop
--   over bytes needs one round more than the string has bytes.
--   Highmem: the kmap slots of mm/highmem.c. Highmem/Table is about the lists of page addresses,
--   Highmem/Mapped says when the slots and the table agree, Highmem/Flush and Highmem/Slots that
--   the search for a slot keeps it so, Highmem/Rounds is about the rounds of that search,
--   Highmem/Kmap is kmap and kunmap. The search has 1024 rounds, since its own count ends it after
--   at most 511 slots before the start of the slots and 512 from there on; the number of sleeps is
--   a parameter.
--   Samples and the modules named Tests: a concrete zone, and the theorems applied to it.
--
-- A call is a function from the state to the state, or to a panic. Each call of the allocator runs
-- under `zone->lock` or with interrupts off on a list of its own processor, so calls of several
-- processors are a sequence of calls, each with its processor's number. Loops over the orders are
-- recursions with as many rounds as there are orders left, so they never run out; loops over a
-- block's pages or a list are recursions on the count. `nr_free` and `free_pages` wrap around at
-- 2^32. The constants are those of the build: CONFIG_MMU and CONFIG_HIGHMEM_BS on,
-- CONFIG_HOLES_IN_ZONE off, 11 orders, 8 processors.
--
-- Not modelled: the other parts of the repository, page tables, printing, statistics
-- (`mod_page_state_bs`), the contents of a page (`clear_highpage_bs`), kernel_map_pages_bs, which
-- is empty, and the list links themselves. The theorems are about one zone at a time, but for
-- those of Fallback and Setup; that a page is freed to the zone that it belongs to is in the
-- theorems' conditions.
pub mod Bootmem
pub mod Common
pub mod Fallback
pub mod Highmem
pub mod Mempool
pub mod Page
pub mod Params
pub mod Buddy
pub mod Pcp
pub mod Samples
pub mod Setup
pub mod Slab
pub mod Vmalloc
pub mod Watermark
