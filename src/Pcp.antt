-- ===== src/Pcp.antt =====
-- The lists of single pages in front of the buddy allocator, and the calls that hand out and take
-- back pages of one zone (mm/page_alloc.c).
pub mod Pressure
pub mod Back
pub mod Bulk
pub mod Above
pub mod Alloc
pub mod Grant
pub mod Held
pub mod Release
pub mod Restock
mod Tests
pub mod Users
use biscuit_os_memory.Common.{
  ℕ, zero, suc, ◌+◌, ◌-◌, ◌*◌, ◌^◌, ◌≤◌, ◌<◌, Bool, true, false, ◌&&◌, not, ltb, leb, ◌==◌,
  if◌then◌else◌, nonzero, update, Run, ok, bug, bug_on, ◌>>=◌, List, [], ◌∷◌, ◌++◌, Option, none,
  some, bit_and,
}
use biscuit_os_memory.Page.{Page, free_pages_check, prep_new_page, page_anon, put_page_testzero}
use biscuit_os_memory.Buddy.{Mm, Zone, Pcp, bad_range, free_pages_bulk_one, rmqueue}

-- `CONFIG_NR_CPUS_BS` (Makefile)
abbrev pub nr_cpus : ℕ
nr_cpus = 8

abbrev pub slot : ℕ → Bool → ℕ
slot cpu cold = cpu * 2 + (if cold then 1 else 0)

-- The last entry of a list, `list->prev`, and what is before it.
pub split_last : List ℕ → Option (List ℕ × ℕ)
split_last [] = none
split_last (x ∷ xs) = elim (split_last xs) [ none ↦ some ([], x) | some (ys, y) ↦ some (x ∷ ys, y) ]

-- What the calls below return: how many pages, the list, and the state.
pub record Batch : Type 0 where
  pub moved : ℕ
  pub rest : List ℕ
  pub state : Mm

-- The loop of `free_pages_bulk_bs`: from the tail of the list, at most `count` pages.
pub free_bulk_loop : ℕ → Mm → List ℕ → ℕ → ℕ → Run Batch
free_bulk_loop zero s list order ret = ok (record { moved = ret; rest = list; state = s })
free_bulk_loop (suc count) s list order ret = elim (split_last list) [
  | none ↦ ok (record { moved = ret; rest = list; state = s })
  | some (front, page) ↦
      free_pages_bulk_one s page order >>= λ t. free_bulk_loop count t front order (ret + 1)
]

pub clear_pressure : Mm → Mm
clear_pressure s = record s {
  zone = record (s.zone) { all_unreclaimable = false; pages_scanned = 0 };
}

-- `free_pages_bulk_bs`
pub free_pages_bulk : Mm → ℕ → List ℕ → ℕ → Run Batch
unfolding clear_pressure
free_pages_bulk s count list order = free_bulk_loop count (clear_pressure s) list order 0

-- The loop of `rmqueue_bulk_bs`: at most `count` pages, to the tail of the list.
pub rmqueue_bulk_loop : ℕ → Mm → ℕ → List ℕ → ℕ → Run Batch
rmqueue_bulk_loop zero s order list allocated =
    ok (record { moved = allocated; rest = list; state = s })
rmqueue_bulk_loop (suc count) s order list allocated = rmqueue s order >>= λ r. elim (r.0) [
  | none ↦ ok (record { moved = allocated; rest = list; state = r.1 })
  | some page ↦ rmqueue_bulk_loop count (r.1) order (list ++ (page ∷ [])) (allocated + 1)
]

-- `rmqueue_bulk_bs`
pub rmqueue_bulk : Mm → ℕ → ℕ → List ℕ → Run Batch
rmqueue_bulk s order count list = rmqueue_bulk_loop count s order list 0

unfoldable pub set_page : Mm → ℕ → Page → Mm
set_page s page p = record s { mem = update s.mem page p }

pub set_pcp : Mm → ℕ → Pcp → Mm
set_pcp s k p = record s { zone = record (s.zone) { pcp = update s.zone.pcp k p } }

-- `for (idx = 0; idx < (1 << order); idx++) SetPageHighMem_bs(page + idx)`
pub set_highmem : ℕ → Mm → ℕ → Mm
unfolding set_page
set_highmem zero s page = s
set_highmem (suc n) s page =
    let p : Page = s.mem page in
    set_highmem n (set_page s page (record p { flags = record (p.flags) { highmem = true } }))
      (page + 1)

-- `arch_free_page_bs` of arch/arm/mm-armv.c, with CONFIG_HIGHMEM_BS
pub arch_free_page : Mm → ℕ → ℕ → Mm
unfolding set_highmem
arch_free_page s page order = if s.zone.named_highmem then set_highmem (2 ^ order) s page else s

-- `free_hot_cold_page_bs`, on processor `cpu`. The zone is that of the page. Statistics are not
-- modelled; `kernel_map_pages_bs` is empty.
pub free_hot_cold_page : Mm → ℕ → ℕ → Bool → Run Mm
unfolding set_page set_pcp
free_hot_cold_page given cpu page cold =
    let s = arch_free_page given page 0 in
    let p : Page = s.mem page in
    let unmapped : Page = if page_anon p then record p { mapping = 0 } else p in
    let s' = set_page s page (free_pages_check unmapped) in
    let k = slot cpu cold in
    let pcp : Pcp = s'.zone.pcp k in
    let drained : Run Batch =
      if leb pcp.high pcp.count
      then free_pages_bulk s' pcp.batch pcp.list 0
      else ok (record { moved = 0; rest = pcp.list; state = s' }) in
    drained >>= λ b.
    ok (set_pcp b.state k (record pcp { count = pcp.count - b.moved + 1; list = page ∷ b.rest }))

-- `for (i = 0; i < (1 << order); ++i) free_pages_check_bs(page + i)`
pub check_pages : ℕ → Mm → ℕ → Mm
unfolding set_page
check_pages zero s page = s
check_pages (suc n) s page =
    check_pages n (set_page s page (free_pages_check (s.mem page))) (page + 1)

-- `__free_pages_ok_bs`
pub free_pages_ok : Mm → ℕ → ℕ → Run Mm
unfolding check_pages
free_pages_ok s page order =
    free_pages_bulk (check_pages (2 ^ order) (arch_free_page s page order) page) 1 (page ∷ []) order
    >>= λ b. ok (b.state)

-- `__free_pages_bs`
pub free_pages : Mm → ℕ → ℕ → ℕ → Run Mm
unfolding set_page
free_pages s cpu page order =
    if (s.mem page).flags.reserved
    then ok s
    else (put_page_testzero (s.mem page) >>= λ r.
        let s' = set_page s page (r.0) in
        if r.1
        then if order == 0
          then free_hot_cold_page s' cpu page false
          else free_pages_ok s' page order
        else ok s')

-- `__GFP_COLD_BS`, `__GFP_ZERO_BS`, `__GFP_WAIT_BS | __GFP_HIGHMEM_BS`, `__GFP_HIGHMEM_BS`
abbrev pub gfp_cold : ℕ
gfp_cold = 0x100

abbrev pub gfp_zero : ℕ
gfp_zero = 0x8000

abbrev pub gfp_wait_highmem : ℕ
gfp_wait_highmem = 0x12

abbrev pub gfp_highmem : ℕ
gfp_highmem = 0x02

-- `list_entry(pcp->list.next)`, `list_del` and `pcp->count--`. On an empty list the first entry would
-- be the list's own head, taken for a page.
pub unlist : Mm → ℕ → Pcp → List ℕ → Run (Option ℕ × Mm)
unfolding set_pcp
unlist s k pcp [] = bug
unlist s k pcp (page ∷ list) =
    ok (some page, set_pcp s k (record pcp { count = pcp.count - 1; list = list }))

-- The part of `buffered_rmqueue_bs` under `order == 0`: the page list first.
pub pcp_alloc : Mm → ℕ → Run (Option ℕ × Mm)
unfolding set_pcp unlist
pcp_alloc s k =
    let pcp : Pcp = s.zone.pcp k in
    let refilled : Run Batch =
      if leb pcp.low pcp.count
      then rmqueue_bulk s 0 pcp.batch pcp.list
      else ok (record { moved = 0; rest = pcp.list; state = s }) in
    refilled >>= λ b.
    let counted : Pcp = record pcp { count = pcp.count + b.moved; list = b.rest } in
    if nonzero counted.count
    then unlist b.state k counted b.rest
    else ok (none, set_pcp b.state k counted)

-- The end of `buffered_rmqueue_bs`: the page as its user gets it. That `prep_zero_page_bs` clears the
-- contents is not modelled, its check is.
pub prepare : Mm → ℕ → ℕ → Run (Option ℕ × Mm)
unfolding set_page
prepare s page gfp_flags =
    let done : Run (Option ℕ × Mm) = ok (some page, set_page s page (prep_new_page (s.mem page))) in
    bug_on (bad_range s page) (
      if nonzero (bit_and gfp_flags gfp_zero)
      then bug_on (bit_and gfp_flags gfp_wait_highmem == gfp_highmem) done
      else done)

-- `buffered_rmqueue_bs`, on processor `cpu`
pub buffered_rmqueue : Mm → ℕ → ℕ → ℕ → Run (Option ℕ × Mm)
buffered_rmqueue s cpu order gfp_flags =
    let from_list : Run (Option ℕ × Mm) =
      if order == 0
      then pcp_alloc s (slot cpu (nonzero (bit_and gfp_flags gfp_cold)))
      else ok (none, s) in
    from_list >>= λ r. elim (r.0) [
      | some page ↦ prepare (r.1) page gfp_flags
      | none ↦ rmqueue (r.1) order >>= λ q. elim (q.0) [
        | none ↦ ok (none, q.1)
        | some page ↦ prepare (q.1) page gfp_flags
      ]
    ]
