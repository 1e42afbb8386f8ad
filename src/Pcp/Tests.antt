-- ===== src/Pcp/Tests.antt =====
-- Runs of the zone of Samples.antt, and the theorems applied to them.
use biscuit_os_memory.Common.{
  ℕ, ◌+◌, ◌≡◌, refl, arith, [], ◌∷◌, Run, ok, bug, ◌>>=◌, Returns, Returns-result, none, some,
  length,
}
use biscuit_os_memory.Page.{page_is_buddy, put_page_testzero, free_pages_check}
use biscuit_os_memory.Buddy.{
  Mm, free_pages_bulk_one, merge_buddies, set_free_pages, page_find_buddy, put_block, bad_range,
}
use biscuit_os_memory.Buddy.Cover.{hit-le, hit-cases, count_in}
use biscuit_os_memory.Pcp.{
  free_bulk_loop, split_last, clear_pressure, set_page, free_pages, buffered_rmqueue,
  free_pages_bulk, free_pages_ok, check_pages, arch_free_page,
}
use biscuit_os_memory.Pcp.Held.{Inv, held}
use biscuit_os_memory.Pcp.Bulk.{Listed, Moved}
use biscuit_os_memory.Pcp.Pressure.{Relieved, free_pages_bulk-Relieved}
use biscuit_os_memory.Pcp.Grant.{Grant, buffered_rmqueue-Grant}
use biscuit_os_memory.Pcp.Release.{Released, free_pages-Released}
use biscuit_os_memory.Pcp.Users.{
  World, Safe, Steps-Safe, alloc_free, done, next, here, free, all_none, all_more, Conserved, used,
}
use biscuit_os_memory.Samples.{
  full, full-Inv, full-Owned, full-held, full-cover, full-Valid, full-Counted,
}

-- What a call leaves; the state before it where it stops.
after : Mm → Run Mm → Mm
after s (ok t) = t
after s bug = s

-- The user frees its block of 8.
abbrev freed : Mm
unfolding after free_pages
freed = after full (free_pages full 0 8 3)

freed_ok : free_pages full 0 8 3 ≡ ok freed
unfolding after free_pages free_pages_ok free_pages_bulk free_bulk_loop split_last clear_pressure
    check_pages arch_free_page set_page free_pages_bulk_one merge_buddies put_block set_free_pages
    page_find_buddy bad_range page_is_buddy put_page_testzero free_pages_check
freed_ok = refl

test-freed_lists : freed.zone.free_list 3 ≡ 8 ∷ []
unfolding after free_pages free_pages_ok free_pages_bulk free_bulk_loop split_last clear_pressure
    check_pages arch_free_page set_page free_pages_bulk_one merge_buddies put_block set_free_pages
    page_find_buddy bad_range page_is_buddy put_page_testzero free_pages_check
test-freed_lists = refl

test-freed_count : freed.zone.free_pages ≡ 8
unfolding after free_pages free_pages_ok free_pages_bulk free_bulk_loop split_last clear_pressure
    check_pages arch_free_page set_page free_pages_bulk_one merge_buddies put_block set_free_pages
    page_find_buddy bad_range page_is_buddy put_page_testzero free_pages_check
test-freed_count = refl

freed-Inv : Inv freed
freed-Inv =
    (Returns-result (free_pages-Released full 0 8 3 (omega arith) (omega arith) full-Inv full-Owned)
      freed_ok).inv

free_pages-Released_example : Returns (Released full 8 3) (free_pages full 0 8 3)
free_pages-Released_example =
    free_pages-Released full 0 8 3 (omega arith) (omega arith) full-Inv full-Owned

-- A cleared page from the cold list of processor 1, which waits.
buffered_rmqueue-Grant_example : Returns (Grant freed 0) (buffered_rmqueue freed 1 0 0x8110)
buffered_rmqueue-Grant_example =
    buffered_rmqueue-Grant freed 1 0 0x8110 (omega arith) (omega arith) (λ _. refl) freed-Inv

alloc_free_example :
    Returns
      (λ u. Inv u × ((q : ℕ) → held u q ≡ held freed q))
      (buffered_rmqueue freed 1 2 0x10 >>= λ r. elim (r.0) [
        | none ↦ ok (r.1)
        | some page ↦ free_pages (r.1) 0 page 2
      ])
alloc_free_example =
    alloc_free freed 1 2 0x10 0 (omega arith) (omega arith) (λ e. absurd (ground (arith, e)))
      (omega arith) freed-Inv

-- The zone and the user of the block of 8.
abbrev in_use : World
in_use = record { mm = full; blocks = record { page = 8; order = 3 } ∷ [] }

abbrev given_back : World
given_back = record { mm = freed; blocks = [] }

in_use-Safe : Safe in_use
unfolding used
in_use-Safe = record {
  inv = full-Inv;
  mine = all_more (record { order = omega arith; owned = full-Owned }) all_none;
  once = λ q. omega (arith, full-held q, hit-le 8 3 q);
}

Steps-Safe_example : Safe given_back × Conserved in_use given_back
Steps-Safe_example = Steps-Safe (next (free 0 (omega arith) here freed_ok) done) in_use-Safe

-- Pages 0 and 2, to be given to the free areas.
pair-Listed : Listed full 0 (0 ∷ 2 ∷ [])
unfolding count_in
pair-Listed = record {
  placed = λ p m. record {
    aligned = omega arith;
    inside = record { lo = omega arith; hi = ground (arith, m) };
    idle = λ q h. record { unused = ground (arith, m, hit-cases p 0 q); free = refl; home = refl };
  };
  apart = λ q. omega (arith, full-cover q, hit-cases 0 0 q, hit-cases 2 0 q);
}

free_pages_bulk-Relieved_example :
    Returns
      (λ b.
        (Moved full 0 (0 ∷ 2 ∷ []) b × (b.moved + length b.rest ≡ 2) × (b.moved ≡ 1))
        × Relieved b.state.zone)
      (free_pages_bulk full 1 (0 ∷ 2 ∷ []) 0)
free_pages_bulk-Relieved_example =
    free_pages_bulk-Relieved full 1 (0 ∷ 2 ∷ []) 0 (omega arith) full-Valid full-Counted pair-Listed
