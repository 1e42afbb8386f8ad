-- ===== src/Fallback.antt =====
-- The walk over the zones in `__alloc_pages_bs` of mm/page_alloc.c, with the page allocator of one zone
-- for each of them. What the rest of the kernel does is the record `Task`.
pub mod First
pub mod Unset
pub mod Retry
mod Tests
use biscuit_os_memory.Common.{
  ℕ, zero, suc, ◌+◌, ◌%◌, Bool, true, false, ◌&&◌, ◌||◌, not, leb, if◌then◌else◌, nonzero, bit_and,
  update, Option, none, some, List, [], ◌∷◌, Run, ok, bug, ◌>>=◌,
}
use biscuit_os_memory.Page.{Memory}
use biscuit_os_memory.Buddy.{Mm, Zone}
use biscuit_os_memory.Pcp.{buffered_rmqueue}
use biscuit_os_memory.Watermark.{zone_watermark_ok}

-- All zones and the map of all pages. A zone is a number, `MAX_NR_ZONES_BS` to a node.
pub record Zones : Type 0 where
  pub mem : Memory
  pub zone : ℕ → Zone

abbrev pub max_nr_zones : ℕ
max_nr_zones = 3

-- `zone_idx_bs`
abbrev pub zone_idx : ℕ → ℕ
zone_idx z = z % max_nr_zones

-- `__GFP_WAIT_BS`, `__GFP_HIGH_BS`, `__GFP_FS_BS`, `__GFP_REPEAT_BS`, `__GFP_NOFAIL_BS`,
-- `__GFP_NORETRY_BS`, `__GFP_NOMEMALLOC_BS`
abbrev pub gfp_wait : ℕ
gfp_wait = 0x10

abbrev pub gfp_high : ℕ
gfp_high = 0x20

abbrev pub gfp_fs : ℕ
gfp_fs = 0x80

abbrev pub gfp_repeat : ℕ
gfp_repeat = 0x400

abbrev pub gfp_nofail : ℕ
gfp_nofail = 0x800

abbrev pub gfp_noretry : ℕ
gfp_noretry = 0x1000

abbrev pub gfp_nomemalloc : ℕ
gfp_nomemalloc = 0x10000

-- What the call works on: the zones, and the flags of the task that asks, `PF_MEMALLOC_BS` and
-- `TIF_MEMDIE`, which give it leave to use the reserves.
pub record State : Type 0 where
  pub mem : Memory
  pub zone : ℕ → Zone
  pub memalloc : Bool
  pub memdie : Bool

-- The task that asks, and what it calls: `rt_task_bs`, `in_interrupt`, `cpuset_zone_allowed_bs`,
-- `try_to_free_pages_bs` with what it says of its progress, and `out_of_memory_bs`, which may set flags
-- of the task. `host_high` is the host kernel's `__GFP_HIGH`.
pub record Task : Type 0 where
  pub cpu : ℕ
  pub rt : Bool
  pub interrupt : Bool
  pub allowed : ℕ → Bool
  pub try_to_free : State → Bool × State
  pub out_of_memory : State → State
  pub host_high : ℕ

-- The variable `page`, which has no value at first.
pub data Local : Type 0 where
  unset : Local
  null : Local
  at : ℕ → Local

-- `buffered_rmqueue_bs` on one of the zones
unfoldable pub take_from : ℕ → ℕ → ℕ → State → ℕ → Run (Option ℕ × State)
take_from cpu order gfp_mask w z =
    let s : Mm = record { mem = w.mem; zone = w.zone z } in
    buffered_rmqueue s cpu order gfp_mask >>= λ r.
    ok (r.0, record w { mem = (r.1).mem; zone = update w.zone z (r.1).zone })

-- The zone has had a page, or the walk goes on.
unfoldable pub got_or_next : (State → Run (Local × State)) → Option ℕ × State → Run (Local × State)
got_or_next next (some page, w) = ok (at page, w)
got_or_next next (none, w) = next w

-- `for (i = 0; (z = zones[i]) != NULL; i++)`, over the zones that pass a test
unfoldable pub walk :
    ℕ → ℕ → ℕ → (Zone → Bool) → (ℕ → Bool) → List ℕ → Local → State → Run (Local × State)
unfolding take_from got_or_next
walk cpu order gfp_mask enough allowed [] page w = ok (page, w)
walk cpu order gfp_mask enough allowed (z ∷ zones) page w =
    let next = λ (t : State). walk cpu order gfp_mask enough allowed zones null t in
    let skip = walk cpu order gfp_mask enough allowed zones page w in
    if enough (w.zone z) && allowed z
    then (take_from cpu order gfp_mask w z >>= got_or_next next)
    else skip

-- `goto got_pg`, or what comes after a walk
unfoldable pub got_pg_or :
    (Local → State → Run (Option Local × State)) → Local × State → Run (Option Local × State)
got_pg_or next (at page, w) = ok (some (at page), w)
got_pg_or next (null, w) = next null w
got_pg_or next (unset, w) = next unset w

-- The first zone of a list
unfoldable pub classzone : List ℕ → ℕ
classzone [] = 0
classzone (z ∷ zones) = zone_idx z

-- `do_retry`
unfoldable pub do_retry : ℕ → ℕ → Bool
do_retry gfp_mask order =
    not (nonzero (bit_and gfp_mask gfp_noretry))
    && (leb order 3
        || nonzero (bit_and gfp_mask gfp_repeat)
        || nonzero (bit_and gfp_mask gfp_nofail))

module _ (p : Task) (gfp_mask order : ℕ) (zones : List ℕ) where
  waits : Bool
  waits = nonzero (bit_and gfp_mask gfp_wait)

  unfoldable pub can_try_harder : Bool
  unfolding waits
  can_try_harder = (p.rt && not p.interrupt) || not waits

  -- The walks: above the low mark, above the lowered least mark, any zone, and the two after a reclaim
  unfoldable pub walk_low : Local → State → Run (Local × State)
  unfolding waits classzone
  walk_low =
      walk p.cpu order gfp_mask
        (λ z. zone_watermark_ok z order z.pages_low (classzone zones) false false)
        (λ z. not waits || p.allowed z) zones

  unfoldable pub walk_min : Local → State → Run (Local × State)
  unfolding waits classzone can_try_harder
  walk_min =
      walk p.cpu order gfp_mask
        (λ z.
          zone_watermark_ok z order z.pages_min (classzone zones) can_try_harder
            (nonzero (bit_and gfp_mask gfp_high)))
        (λ z. not waits || p.allowed z) zones

  unfoldable pub walk_any : Local → State → Run (Local × State)
  walk_any = walk p.cpu order gfp_mask (λ _. true) p.allowed zones

  unfoldable pub walk_reclaimed : Local → State → Run (Local × State)
  unfolding classzone can_try_harder
  walk_reclaimed =
      walk p.cpu order gfp_mask
        (λ z.
          zone_watermark_ok z order z.pages_min (classzone zones) can_try_harder
            (nonzero (bit_and gfp_mask p.host_high)))
        p.allowed zones

  unfoldable pub walk_high : Local → State → Run (Local × State)
  unfolding classzone
  walk_high =
      walk p.cpu order gfp_mask
        (λ z. zone_watermark_ok z order z.pages_high (classzone zones) false false) p.allowed zones

  -- From `restart` up to `rebalance`. The wake-up of kswapd changes nothing here.
  unfoldable pub from_restart :
      (Local → State → Run (Option Local × State)) → Local → State → Run (Option Local × State)
  unfolding walk_low walk_min walk_any got_pg_or waits
  from_restart rebalance page w =
      let nopage = λ (page : Local) (w : State). ok (some page, w) in
      walk_low page w
      >>= got_pg_or (λ page w.
        walk_min page w
        >>= got_pg_or (λ page w.
          if (w.memalloc || w.memdie) && not p.interrupt
          then (if nonzero (bit_and gfp_mask gfp_nomemalloc)
              then nopage page w
              else (walk_any page w >>= got_pg_or nopage))
          else if waits
          then rebalance page w
          else nopage page w))

  -- From `rebalance` on; `again` is the start of it, `restart` that of the walks.
  unfoldable pub from_rebalance :
      (Local → State → Run (Option Local × State))
      → (Local → State → Run (Option Local × State))
      → Local
      → State
      → Run (Option Local × State)
  unfolding walk_reclaimed walk_high got_pg_or do_retry
  from_rebalance restart again page w =
      let nopage = λ (page : Local) (w : State). ok (some page, w) in
      let retry = λ (page : Local) (w : State).
        if do_retry gfp_mask order then again page w else nopage page w in
      let r = p.try_to_free (record w { memalloc = true }) in
      let t : State = r.1 in
      let w' : State = record t { memalloc = false } in
      if r.0
      then (walk_reclaimed page w' >>= got_pg_or retry)
      else if nonzero (bit_and gfp_mask gfp_fs) && not (nonzero (bit_and gfp_mask gfp_noretry))
      then (walk_high page w' >>= got_pg_or (λ page w. restart page (p.out_of_memory w)))
      else retry page w'

  -- The reclaims, of which there are at most `tries`; none when it still reclaims after them.
  unfoldable pub rebalance : ℕ → Local → State → Run (Option Local × State)
  unfolding from_rebalance from_restart
  rebalance zero page w = ok (none, w)
  rebalance (suc tries) page w =
      let again = λ (page : Local) (w : State). rebalance tries page w in
      from_rebalance (from_restart again) again page w

  -- `__alloc_pages_bs`. Without a zone it returns no page; where it gets to `nopage`, it returns what
  -- `page` is.
  unfoldable pub alloc_pages : ℕ → State → Run (Option Local × State)
  unfolding rebalance from_restart
  alloc_pages tries w = elim zones [
    | [] ↦ ok (some null, w)
    | z ∷ rest ↦ from_restart (λ page w. rebalance tries page w) unset w
  ]
