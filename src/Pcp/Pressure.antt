-- ===== src/Pcp/Pressure.antt =====
-- What `free_pages_bulk_bs` of mm/page_alloc.c says of how hard it is to reclaim from the zone.
use biscuit_os_memory.Common.{
  ℕ, zero, suc, min, length, ◌<◌, ◌+◌, ◌≡◌, refl, inl, inr, Bool, true, false, Bool-cases, Option,
  none, some, List, Run, ok, bug, bug_on, ◌>>=◌, Returns, returns,
}
use biscuit_os_memory.Page.{page_is_buddy}
use biscuit_os_memory.Buddy.{
  Mm, max_order, Zone, bad_range, put_block, take_block, set_free_pages, page_find_buddy,
  merge_buddies, free_pages_bulk_one,
}
use biscuit_os_memory.Buddy.Valid.{Valid}
use biscuit_os_memory.Pcp.Bulk.{Counted, Listed, Moved, free_pages_bulk-Moved}
use biscuit_os_memory.Pcp.{Batch, split_last, free_bulk_loop, clear_pressure, free_pages_bulk}

-- A zone that has just been freed to
pub record Relieved (z : Zone) : Type 0 where
  pub reclaimable : z.all_unreclaimable ≡ false
  pub unscanned : z.pages_scanned ≡ 0

-- A call leaves such a zone, if it returns.
pub data Relieves {A : Type 0} (zone_of : A → Zone) : Run A → Type 0 where
  relieves : {a : A} → Relieved (zone_of a) → Relieves zone_of (ok a)
  panics : Relieves zone_of bug

pub Returns-Relieves :
    {A : Type 0} {P : A → Type 0} {zone_of : A → Zone} {m : Run A}
    → Returns P m
    → Relieves zone_of m
    → Returns (λ a. P a × Relieved (zone_of a)) m
Returns-Relieves (returns p) (relieves r) = returns (p, r)

put_block-Relieved :
    (s : Mm) (page order : ℕ) → Relieved s.zone → Relieved (put_block s page order).zone
unfolding put_block
put_block-Relieved s page order r = record { reclaimable = r.reclaimable; unscanned = r.unscanned }

take_block-Relieved :
    (s : Mm) (page order : ℕ) → Relieved s.zone → Relieved (take_block s page order).zone
unfolding take_block
take_block-Relieved s page order r = record { reclaimable = r.reclaimable; unscanned = r.unscanned }

merge_buddies-Relieves :
    (rounds : ℕ) (s : Mm) (page page_idx order : ℕ)
    → Relieved s.zone
    → Relieves (λ t. t.zone) (merge_buddies rounds s page page_idx order)
unfolding merge_buddies
merge_buddies-Relieves zero s page page_idx order r = relieves (put_block-Relieved s page order r)
merge_buddies-Relieves (suc rounds) s page page_idx order r =
    elim (Bool-cases (bad_range s buddy)) [
      | inl e ↦ rw e (relieves (put_block-Relieved s page order r))
      | inr e ↦ rw e (elim (Bool-cases (page_is_buddy (s.mem buddy) order)) [
        | inl e' ↦
            rw e' (
              merge_buddies-Relieves rounds _ _ _ (order + 1) (take_block-Relieved s buddy order r))
        | inr e' ↦ rw e' (relieves (put_block-Relieved s page order r))
      ])
    ]
  where
    buddy : ℕ
    buddy = page_find_buddy page page_idx order

bug_on-Relieves :
    {A : Type 0} {zone_of : A → Zone} {m : Run A} (b : Bool)
    → Relieves zone_of m
    → Relieves zone_of (bug_on b m)
bug_on-Relieves true r = panics
bug_on-Relieves false r = r

free_pages_bulk_one-Relieves :
    (s : Mm) (page order : ℕ)
    → Relieved s.zone
    → Relieves (λ t. t.zone) (free_pages_bulk_one s page order)
unfolding free_pages_bulk_one set_free_pages
free_pages_bulk_one-Relieves s page order r = bug_on-Relieves _ (
    bug_on-Relieves _ (
      merge_buddies-Relieves _ _ page _ order
        (record { reclaimable = r.reclaimable; unscanned = r.unscanned })))

after_one :
    {next : Mm → Run Batch} {m : Run Mm}
    → Relieves (λ t. t.zone) m
    → ((t : Mm) → Relieved t.zone → Relieves (λ (b : Batch). b.state.zone) (next t))
    → Relieves (λ (b : Batch). b.state.zone) (m >>= next)
after_one (relieves r) h = h _ r
after_one panics h = panics

free_bulk_loop-Relieves :
    (count : ℕ) (s : Mm) (list : List ℕ) (order ret : ℕ)
    → Relieved s.zone
    → Relieves (λ (b : Batch). b.state.zone) (free_bulk_loop count s list order ret)
unfolding free_bulk_loop
free_bulk_loop-Relieves zero s list order ret r = relieves r
free_bulk_loop-Relieves (suc count) s list order ret r =
    split (split_last list) (λ t front r'. free_bulk_loop-Relieves count t front order (ret + 1) r')
  where
    split :
        (l : Option (List ℕ × ℕ))
        → ((t : Mm) (front : List ℕ)
            → Relieved t.zone
            → Relieves (λ (b : Batch). b.state.zone) (free_bulk_loop count t front order (ret + 1)))
        → Relieves
            (λ (b : Batch). b.state.zone)
            (elim l [
              | none ↦ ok (record { moved = ret; rest = list; state = s })
              | some (front, page) ↦ free_pages_bulk_one s page order >>= λ t.
                  free_bulk_loop count t front order (ret + 1)
            ])
    split none later = relieves r
    split (some (front, page)) later =
        after_one (free_pages_bulk_one-Relieves s page order r) (λ t r'. later t front r')

pub free_pages_bulk-Relieves :
    (s : Mm) (count : ℕ) (list : List ℕ) (order : ℕ)
    → Relieves (λ (b : Batch). b.state.zone) (free_pages_bulk s count list order)
unfolding free_pages_bulk clear_pressure
free_pages_bulk-Relieves s count list order =
    free_bulk_loop-Relieves count _ list order 0 (record { reclaimable = refl; unscanned = refl })

-- Giving at most count blocks of a list, none for a count of 0, of one order below 11, back to a
-- valid zone returns, where free_pages counts the free blocks and the blocks of the list are
-- aligned, inside the zone, without users and apart from each other and from the free blocks: it
-- moves as many as the count and the list allow, says how many, each page is as often on the free
-- lists or on the rest of the list as before, and the zone is not marked as unreclaimable and has
-- no scanned pages.
pub free_pages_bulk-Relieved :
    (s : Mm) (count : ℕ) (list : List ℕ) (order : ℕ)
    → order < max_order
    → Valid s
    → Counted s
    → Listed s order list
    → Returns
        (λ b.
          (Moved s order list b
            × (b.moved + length b.rest ≡ length list)
            × (b.moved ≡ min count (length list)))
          × Relieved b.state.zone)
        (free_pages_bulk s count list order)
free_pages_bulk-Relieved s count list order o v c l =
    Returns-Relieves (free_pages_bulk-Moved s count list order o v c l)
      (free_pages_bulk-Relieves s count list order)
