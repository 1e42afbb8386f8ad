-- ===== src/Page.antt =====
-- struct page_bs of include/biscuitos/mm.h, its flags (include/biscuitos/page-flags.h), and what
-- mm/page_alloc.c does to a single page. A page is named by its frame number, the index of its
-- struct in the map of all pages.
use biscuit_os_memory.Common.{
  ℕ, ◌-◌, ◌%◌, Bool, true, false, ◌&&◌, ◌||◌, not, ◌==◌, if◌then◌else◌, nonzero, Run, ok, bug_on,
}

-- The bits of `flags` that the allocator reads or writes, and the zone in its top bits.
pub record Flags : Type 0 where
  pub locked : Bool
  pub error : Bool
  pub referenced : Bool
  pub uptodate : Bool
  pub dirty : Bool
  pub lru : Bool
  pub active : Bool
  pub slab : Bool
  pub highmem : Bool
  pub checked : Bool
  pub arch_1 : Bool
  pub reserved : Bool
  pub has_private : Bool
  pub writeback : Bool
  pub swapcache : Bool
  pub mappedtodisk : Bool
  pub reclaim : Bool
  pub zone : ℕ

-- `count` and `mapcount` are what `page_count_bs` and `page_mapcount_bs` return, one more than the
-- fields. `mapping` is a pointer, 0 for NULL.
pub record Page : Type 0 where
  pub flags : Flags
  pub count : ℕ
  pub mapcount : ℕ
  pub order : ℕ
  pub mapping : ℕ

abbrev pub Memory : Type 0
Memory = ℕ → Page

unfoldable pub set_page_count : Page → ℕ → Page
set_page_count page v = record page { count = v }

unfoldable pub reset_page_mapcount : Page → Page
reset_page_mapcount page = record page { mapcount = 0 }

-- On an MMU only the first page of a block is referenced.
unfoldable pub set_page_refs : Page → Page
unfolding set_page_count
set_page_refs page = set_page_count page 1

unfoldable pub page_anon : Page → Bool
page_anon page = page.mapping % 2 == 1

-- The order of a free block is kept in `private` of its first page.
unfoldable pub set_page_order : Page → ℕ → Page
set_page_order page order = record page {
  order = order;
  flags = record (page.flags) { has_private = true };
}

unfoldable pub rmv_page_order : Page → Page
rmv_page_order page = record page { flags = record (page.flags) { has_private = false }; order = 0 }

unfoldable pub page_is_buddy : Page → ℕ → Bool
page_is_buddy page order =
    page.flags.has_private && (page.order == order && (not page.flags.reserved && page.count == 0))

unfoldable pub bad_page : Page → Page
unfolding set_page_count reset_page_mapcount
bad_page page =
    let cleared : Page = record page {
      flags = record (page.flags) {
        has_private = false;
        locked = false;
        lru = false;
        active = false;
        dirty = false;
        swapcache = false;
        writeback = false;
      };
    } in
    record (reset_page_mapcount (set_page_count cleared 0)) { mapping = 0 }

-- The flags that no page may have when it is freed.
unfoldable pub flags_at_free : Flags → Bool
flags_at_free f =
    f.lru
    || (f.has_private
        || (f.locked || (f.active || (f.reclaim || (f.slab || (f.swapcache || f.writeback))))))

unfoldable pub free_pages_check : Page → Page
unfolding bad_page flags_at_free
free_pages_check page =
    let checked : Page =
      if nonzero page.mapcount
        || (nonzero page.mapping || (nonzero page.count || flags_at_free page.flags))
      then bad_page page
      else page in
    record checked { flags = record (checked.flags) { dirty = false } }

-- The flags that no page may have when it is handed out.
unfoldable pub flags_at_prep : Flags → Bool
flags_at_prep f =
    f.has_private
    || (f.locked
        || (f.lru || (f.active || (f.dirty || (f.reclaim || (f.swapcache || f.writeback))))))

-- `kernel_map_pages_bs` is empty here.
unfoldable pub prep_new_page : Page → Page
unfolding bad_page flags_at_prep set_page_refs
prep_new_page page =
    let checked : Page =
      if nonzero page.mapping || (nonzero page.mapcount || flags_at_prep page.flags)
      then bad_page page
      else page in
    set_page_refs (record checked {
      flags = record (checked.flags) {
        uptodate = false;
        error = false;
        referenced = false;
        arch_1 = false;
        checked = false;
        mappedtodisk = false;
      };
      order = 0;
    })

-- `put_page_testzero_bs`: the page with a reference less, and whether that was the last one.
unfoldable pub put_page_testzero : Page → Run (Page × Bool)
put_page_testzero page =
    bug_on (page.count == 0) (ok (record page { count = page.count - 1 }, page.count - 1 == 0))
