-- ===== src/Fallback/Retry.antt =====
-- A request that `__alloc_pages_bs` of mm/page_alloc.c does not give up.
use biscuit_os_memory.Common.{
  ℕ, zero, suc, ◌≡◌, refl, Bool, true, false, ◌&&◌, ◌||◌, not, update, [], if◌then◌else◌, nonzero,
  bit_and, Bool-cases, inl, inr, Option, none, some, List, ◌∷◌, Run, ok, bug, ◌>>=◌,
}
use biscuit_os_memory.Buddy.{Mm, Zone}
use biscuit_os_memory.Pcp.{buffered_rmqueue}
use biscuit_os_memory.Fallback.First.{zone_at}
use biscuit_os_memory.Fallback.{
  State, take_from, got_or_next, walk, walk_any, gfp_nomemalloc, gfp_wait, gfp_fs, gfp_noretry,
  Task, Local, unset, null, at, walk_low, walk_min, walk_reclaimed, walk_high, got_pg_or, do_retry,
  from_restart, from_rebalance, rebalance, alloc_pages,
}

-- A call has a page, is still at it, or has met a panic, or the task may use the reserves at its end.
pub data Persists (p : Task) : Run (Option Local × State) → Type 0 where
  has_page : {page : ℕ} {w : State} → Persists p (ok (some (at page), w))
  still : {w : State} → Persists p (ok (none, w))
  panics : Persists p bug
  given_leave :
      {page : Local} {w : State}
      → ((w.memalloc || w.memdie) && not p.interrupt) ≡ true
      → Persists p (ok (some page, w))

-- A walk leaves the flags of the task alone.
data Keeps (memalloc memdie : Bool) : Run (Local × State) → Type 0 where
  kept :
      {r : Local × State}
      → (r.1).memalloc ≡ memalloc
      → (r.1).memdie ≡ memdie
      → Keeps memalloc memdie (ok r)
  panicked : Keeps memalloc memdie bug

after_zone :
    {next : State → Run (Local × State)} (m : Run (Option ℕ × Mm)) (z : ℕ) (w : State)
    → ((t : State) → Keeps t.memalloc t.memdie (next t))
    → Keeps w.memalloc w.memdie (
        (m >>= λ r. ok (r.0, record w { mem = (r.1).mem; zone = update w.zone z (r.1).zone }))
        >>= got_or_next next)
unfolding got_or_next
after_zone bug z w h = panicked
after_zone (ok (some page, t)) z w h = kept refl refl
after_zone (ok (none, t)) z w h = h (record w { mem = t.mem; zone = update w.zone z t.zone })

walk-Keeps :
    (cpu order gfp_mask : ℕ) (enough : Zone → Bool) (allowed : ℕ → Bool) (zones : List ℕ)
    (page : Local) (w : State)
    → Keeps w.memalloc w.memdie (walk cpu order gfp_mask enough allowed zones page w)
unfolding walk take_from
walk-Keeps cpu order gfp_mask enough allowed [] page w = kept refl refl
walk-Keeps cpu order gfp_mask enough allowed (z ∷ zones) page w =
    elim (Bool-cases (enough (w.zone z) && allowed z)) [
      | inl e ↦ rw e (
          after_zone (buffered_rmqueue (zone_at w z) cpu order gfp_mask) z w
            (λ t. walk-Keeps cpu order gfp_mask enough allowed zones null t))
      | inr e ↦ rw e (walk-Keeps cpu order gfp_mask enough allowed zones page w)
    ]

after_any :
    {p : Task} {memalloc memdie : Bool} {m : Run (Local × State)}
    → ((memalloc || memdie) && not p.interrupt) ≡ true
    → Keeps memalloc memdie m
    → Persists p (m >>= got_pg_or (λ page w. ok (some page, w)))
unfolding got_pg_or
after_any leave panicked = panics
after_any leave (kept {r = (at page, w)} a d) = has_page
after_any leave (kept {r = (null, w)} a d) = given_leave (rw (a, d) leave)
after_any leave (kept {r = (unset, w)} a d) = given_leave (rw (a, d) leave)

after_walk :
    {p : Task} {next : Local → State → Run (Option Local × State)} (m : Run (Local × State))
    → ((page : Local) (w : State) → Persists p (next page w))
    → Persists p (m >>= got_pg_or next)
unfolding got_pg_or
after_walk bug h = panics
after_walk (ok (unset, w)) h = h unset w
after_walk (ok (null, w)) h = h null w
after_walk (ok (at page, w)) h = has_page

module _ (p : Task) (gfp_mask order : ℕ) (zones : List ℕ)
    (sleeps : nonzero (bit_and gfp_mask gfp_wait) ≡ true)
    (retries : do_retry gfp_mask order ≡ true) where
  after_walks :
      (again : Local → State → Run (Option Local × State)) (page : Local) (w : State)
      → ((page : Local) (w : State) → Persists p (again page w))
      → Persists p (
          if (w.memalloc || w.memdie) && not p.interrupt
          then (if nonzero (bit_and gfp_mask gfp_nomemalloc)
              then ok (some page, w)
              else (walk_any p gfp_mask order zones page w
                  >>= got_pg_or (λ page w. ok (some page, w))))
          else if nonzero (bit_and gfp_mask gfp_wait)
          then again page w
          else ok (some page, w))
  unfolding walk_any
  after_walks again page w h = elim (Bool-cases ((w.memalloc || w.memdie) && not p.interrupt)) [
    | inr e ↦ rw (e, sleeps) (h page w)
    | inl e ↦ elim (Bool-cases (nonzero (bit_and gfp_mask gfp_nomemalloc))) [
      | inl e' ↦ rw (e, e') (given_leave e)
      | inr e' ↦ rw (e, e') (after_any e (walk-Keeps p.cpu order gfp_mask _ p.allowed zones page w))
    ]
  ]

  from_restart-Persists :
      (again : Local → State → Run (Option Local × State)) (page : Local) (w : State)
      → ((page : Local) (w : State) → Persists p (again page w))
      → Persists p (from_restart p gfp_mask order zones again page w)
  unfolding from_restart
  from_restart-Persists again page w h =
      after_walk (walk_low p gfp_mask order zones page w) (λ page w.
        after_walk (walk_min p gfp_mask order zones page w) (λ page w. after_walks again page w h))

  from_rebalance-Persists :
      (restart again : Local → State → Run (Option Local × State)) (page : Local) (w : State)
      → ((page : Local) (w : State) → Persists p (restart page w))
      → ((page : Local) (w : State) → Persists p (again page w))
      → Persists p (from_rebalance p gfp_mask order zones restart again page w)
  unfolding from_rebalance
  from_rebalance-Persists restart again page w hr ha = rw retries (elim (Bool-cases (r.0)) [
    | inl e ↦ rw e (after_walk (walk_reclaimed p gfp_mask order zones page reclaimed) ha)
    | inr e ↦
        elim (Bool-cases
          (nonzero (bit_and gfp_mask gfp_fs) && not (nonzero (bit_and gfp_mask gfp_noretry)))) [
            | inl e' ↦
                rw (e, e')
                  (after_walk (walk_high p gfp_mask order zones page reclaimed)
                    (λ page w. hr page (p.out_of_memory w)))
            | inr e' ↦ rw (e, e') (ha page reclaimed)
          ]
  ])
    where
      r : Bool × State
      r = p.try_to_free (record w { memalloc = true })

      reclaimed : State
      reclaimed = record (r.1) { memalloc = false }

  rebalance-Persists :
      (tries : ℕ) (page : Local) (w : State)
      → Persists p (rebalance p gfp_mask order zones tries page w)
  unfolding rebalance
  rebalance-Persists zero page w = still
  rebalance-Persists (suc tries) page w =
      from_rebalance-Persists _ _ page w
        (λ page w. from_restart-Persists _ page w (λ page w. rebalance-Persists tries page w))
        (λ page w. rebalance-Persists tries page w)

-- A request that may wait and that do_retry retries, with any number of reclaims, whatever the
-- zones, the flags of the task, the reclaim and the out-of-memory killer are: it has a page, is
-- still reclaiming, has panicked, or returns without a page, and then the task, outside an
-- interrupt, has the leave to use the reserves, PF_MEMALLOC or TIF_MEMDIE, as one that is killed
-- has.
pub alloc_pages-Persists :
    (p : Task) (gfp_mask order tries z : ℕ) (rest : List ℕ) (w : State)
    → nonzero (bit_and gfp_mask gfp_wait) ≡ true
    → do_retry gfp_mask order ≡ true
    → Persists p (alloc_pages p gfp_mask order (z ∷ rest) tries w)
unfolding alloc_pages
alloc_pages-Persists p gfp_mask order tries z rest w sleeps retries =
    from_restart-Persists p gfp_mask order (z ∷ rest) sleeps retries _ unset w
      (λ page w. rebalance-Persists p gfp_mask order (z ∷ rest) sleeps retries tries page w)
