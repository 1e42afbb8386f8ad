-- ===== src/Setup/Core.antt =====
-- The set-up of a node's zones in mm/page_alloc.c: `free_area_init_core_bs` and what it calls. `fls` of
-- the host kernel is a parameter.
use biscuit_os_memory.Common.{
  ℕ, zero, suc, ◌+◌, ◌*◌, ◌/◌, ◌%◌, ◌^◌, true, ltb, ◌==◌, if◌then◌else◌, update, [],
}
use biscuit_os_memory.Page.{Page, Memory, set_page_count, reset_page_mapcount}
use biscuit_os_memory.Buddy.{Mm, Zone, Pcp, max_order, word, sub_word, add_word}
use biscuit_os_memory.Fallback.{Zones, max_nr_zones}

-- `NODEZONE_BS`; ZONES_SHIFT_BS is 2.
unfoldable pub nodezone : ℕ → ℕ → ℕ
nodezone node zone = node * 4 + zone

-- A page of `memmap_init_zone_bs`: `set_page_zone_bs` and `SetPageReserved_bs` besides the counts
unfoldable pub init_page : ℕ → Page → Page
unfolding set_page_count reset_page_mapcount
init_page index page =
    let p : Page = reset_page_mapcount (set_page_count page 0) in
    record p { flags = record (p.flags) { zone = index; reserved = true } }

-- `memmap_init_zone_bs`
unfoldable pub memmap_init : ℕ → ℕ → Memory → ℕ → Memory
memmap_init zero index mem page = mem
memmap_init (suc size) index mem page =
    memmap_init size index (update mem page (init_page index (mem page))) (page + 1)

-- The size of the batches of the page lists
unfoldable pub pcp_batch : (ℕ → ℕ) → ℕ → ℕ
pcp_batch fls present_pages =
    let thousandth = present_pages / 1024 in
    let most = if ltb (256 * 1024) (thousandth * 4096 % word) then 64 else thousandth in
    let quarter = most / 4 in
    let batch = if ltb quarter 1 then 1 else quarter in sub_word (2 ^ fls (batch + batch / 2)) 1

-- The hot and the cold list of a processor, at `2 * cpu` and `2 * cpu + 1`
unfoldable pub init_pcp : ℕ → ℕ → Pcp
init_pcp batch k =
    if k % 2 == 0
    then record { count = 0; low = 2 * batch; high = 6 * batch; batch = batch; list = [] }
    else record { count = 0; low = 0; high = 2 * batch; batch = batch; list = [] }

-- `zone_init_free_lists_bs`
unfoldable pub zone_init_free_lists : Zone → Zone
zone_init_free_lists z = record z {
  free_list = λ order. if ltb order max_order then [] else z.free_list order;
  nr_free = λ order. if ltb order max_order then 0 else z.nr_free order;
}

-- What each zone gets, and what a zone with pages gets besides
unfoldable pub init_counts : (ℕ → ℕ) → Zone → ℕ → ℕ → ℕ → Zone
unfolding init_pcp pcp_batch
init_counts fls z zone_number size realsize = record z {
  spanned_pages = size;
  present_pages = realsize;
  named_highmem = zone_number == 2;
  free_pages = 0;
  pcp = init_pcp (pcp_batch fls realsize);
}

unfoldable pub init_area : Mm → ℕ → ℕ → ℕ → Mm
unfolding memmap_init zone_init_free_lists
init_area s index size start_pfn =
    let z : Zone = s.zone in
    record {
      mem = memmap_init size index s.mem start_pfn;
      zone = zone_init_free_lists (record z { zone_start_pfn = start_pfn; index = index });
    }

-- One zone of a node. The wait table is left out, and so are the lists and counts of the reclaim.
unfoldable pub init_zone : (ℕ → ℕ) → Mm → ℕ → ℕ → ℕ → ℕ → ℕ → Mm
unfolding init_counts init_area nodezone
init_zone fls s node zone_number size hole start_pfn =
    let counted : Mm = record s {
      zone = init_counts fls s.zone zone_number size (sub_word size hole);
    } in
    if size == 0 then counted else init_area counted (nodezone node zone_number) size start_pfn

-- `free_area_init_core_bs` from zone `j` on: the zones of a node follow one another.
unfoldable pub init_zones : (ℕ → ℕ) → ℕ → (ℕ → ℕ) → (ℕ → ℕ) → ℕ → ℕ → ℕ → Zones → Zones
unfolding init_zone
init_zones fls node sizes holes zero j start_pfn w = w
init_zones fls node sizes holes (suc rounds) j start_pfn w =
    let z = node * max_nr_zones + j in
    let s =
      init_zone fls (record { mem = w.mem; zone = w.zone z }) node j (sizes j) (holes j)
        start_pfn in
    init_zones fls node sizes holes rounds (j + 1) (start_pfn + sizes j)
      (record { mem = s.mem; zone = update w.zone z s.zone })

unfoldable pub free_area_init_core : (ℕ → ℕ) → ℕ → (ℕ → ℕ) → (ℕ → ℕ) → ℕ → Zones → Zones
unfolding init_zones
free_area_init_core fls node sizes holes node_start_pfn w =
    init_zones fls node sizes holes max_nr_zones 0 node_start_pfn w

-- `calculate_zone_totalpages_bs`: the pages that a node spans, and those without the holes
unfoldable pub sum_zones : ℕ → (ℕ → ℕ) → ℕ → ℕ
sum_zones zero sizes i = 0
sum_zones (suc rounds) sizes i = add_word (sizes i) (sum_zones rounds sizes (i + 1))

unfoldable pub calculate_zone_totalpages : (ℕ → ℕ) → (ℕ → ℕ) → ℕ × ℕ
unfolding sum_zones
calculate_zone_totalpages sizes holes =
    let total = sum_zones max_nr_zones sizes 0 in
    (total, sub_word total (sum_zones max_nr_zones holes 0))
