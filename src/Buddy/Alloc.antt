-- ===== src/Buddy/Alloc.antt =====
-- `expand_bs` and `__rmqueue_bs`: a block is taken from the lists, and what is not asked for goes
-- back.
use native.Mathlib.Nat.{pow-suc}
use biscuit_os_memory.Common.{
  ℕ, zero, suc, ◌+◌, ◌-◌, ◌/◌, ◌^◌, ◌%◌, ◌<◌, ◌≤◌, ◌≡◌, refl, ◌∙◌, inl, inr, arith, List, [], ◌∷◌,
  Option, none, some, ok, ◌>>=◌, Returns, returns, Returns-mono, Returns-bind, ltb-cases, ==-cases,
  contains, true, false,
}
use biscuit_os_memory.Buddy.{
  Mm, max_order, word, put_block, take_block, set_free_pages, bad_range, expand, rmqueue_from,
  rmqueue,
}
use biscuit_os_memory.Buddy.Cover.{hit, cover, total, hit-cases, hit-suc, hit-le-cover, hit_self}
use biscuit_os_memory.Buddy.Valid.{Valid, Idle, Loose, bad_range-false}
use biscuit_os_memory.Buddy.Valid.Put.{put_cover, put_total, put_block-Valid}
use biscuit_os_memory.Buddy.Valid.Take.{take_cover, take_total, take_block-Valid, take_block-Loose}
use biscuit_os_memory.Buddy.Valid.Split.{low_half-Loose, high_half-Loose}
use biscuit_os_memory.Buddy.Frame.{
  Frame, Frame-refl, Frame-trans, Frame-put_block, Frame-take_block, Frame-set_free_pages,
  Frame-Loose, set_free_pages-Valid,
}

-- Of the block of order `high` at `page` the first 2 ^ low pages are left, the rest is on the lists.
pub record Expanded (s : Mm) (page low high : ℕ) (t : Mm) : Type 0 where
  pub valid : Valid t
  pub loose : Loose t page low
  pub cover :
      (q : ℕ)
      → cover t.zone.free_list q + hit page low q ≡ cover s.zone.free_list q + hit page high q
  pub total : total t.zone.free_list + 2 ^ low ≡ total s.zone.free_list + 2 ^ high
  pub free_pages : t.zone.free_pages ≡ s.zone.free_pages
  pub frame : Frame s t

expand_done : {s : Mm} {page high : ℕ} → Valid s → Loose s page high → Expanded s page high high s
expand_done {s} v l = record {
  valid = v;
  loose = l;
  cover = λ q. refl;
  total = refl;
  free_pages = refl;
  frame = Frame-refl s;
}

free_pages-put_block :
    (s : Mm) (page order : ℕ) → (put_block s page order).zone.free_pages ≡ s.zone.free_pages
unfolding put_block
free_pages-put_block s page order = refl

module _ {s : Mm} {page high : ℕ} (o : suc high < max_order) (v : Valid s)
    (l : Loose s page (suc high)) where
  upper : Mm
  upper = put_block s (page + 2 ^ high) high

  upper_idle : Idle s (page + 2 ^ high)
  upper_idle = (high_half-Loose l).idle (page + 2 ^ high) (hit_self (page + 2 ^ high) high)

  upper-Valid : Valid upper
  unfolding upper
  upper-Valid = put_block-Valid s (page + 2 ^ high) (omega arith) v (high_half-Loose l)

  upper-Loose : Loose upper page high
  unfolding upper
  upper-Loose =
      Frame-Loose (Frame-put_block s (page + 2 ^ high) high upper_idle) (low_half-Loose l) λ q h.
        omega (
          arith,
          put_cover s (page + 2 ^ high) {order = high} (omega arith) q,
          l.uncovered q,
          hit-suc page high q,
          hit-cases page (suc high) q,
        )

  upper_range : bad_range s (page + 2 ^ high) ≡ false
  upper_range =
      bad_range-false (high_half-Loose l).inside
        ((high_half-Loose l).idle (page + 2 ^ high) (hit_self (page + 2 ^ high) high))

  expand_step :
      {low : ℕ} {t : Mm} → Expanded upper page low high t → Expanded s page low (suc high) t
  unfolding upper
  expand_step e = record {
    valid = e.valid;
    loose = e.loose;
    cover = λ q. omega (
      arith,
      e.cover q,
      put_cover s (page + 2 ^ high) {order = high} (omega arith) q,
      hit-suc page high q,
    );
    total = omega (
      arith,
      e.total,
      put_total s (page + 2 ^ high) {order = high} (omega arith),
      pow-suc 2 high,
    );
    free_pages = e.free_pages ∙ free_pages-put_block s (page + 2 ^ high) high;
    frame = Frame-trans (Frame-put_block s (page + 2 ^ high) high upper_idle) e.frame;
  }

-- Splitting a loose block of one order down to a lower one returns and keeps the zone valid: the
-- first part of the asked-for size is left loose, and the lists gain exactly the pages of the
-- rest.
pub expand-Expanded :
    (high size : ℕ) (s : Mm) (page low : ℕ)
    → low ≤ high
    → high < max_order
    → size ≡ 2 ^ high
    → Valid s
    → Loose s page high
    → Returns (Expanded s page low high) (expand s page low high size)
unfolding expand upper
expand-Expanded zero size s page low lh o e v l =
    let same : low ≡ 0 = omega arith in rw same (returns (expand_done v l))
expand-Expanded (suc high) size s page low lh o e v l = elim (ltb-cases low (suc high)) [
  | inl (t, lt) ↦
      let half : size / 2 ≡ 2 ^ high = omega (arith, pow-suc 2 high) in
      rw (t, half, upper_range o v l)
        (Returns-mono
          (expand-Expanded high (2 ^ high) (put_block s (page + 2 ^ high) high) page low
            (omega arith) (omega arith) refl (upper-Valid o v l) (upper-Loose o v l))
          (λ u x. expand_step o v l x))
  | inr (t, ge) ↦
      rw t (let same : low ≡ suc high = omega arith in rw same (returns (expand_done v l)))
]

-- A call of `__rmqueue_bs` that finds a block: its pages were free, and are the ones that the lists
-- lose.
pub record Allocated (s : Mm) (order page : ℕ) (t : Mm) : Type 0 where
  pub valid : Valid t
  pub block : Loose t page order
  pub cover : (q : ℕ) → cover t.zone.free_list q + hit page order q ≡ cover s.zone.free_list q
  pub total : total t.zone.free_list + 2 ^ order ≡ total s.zone.free_list
  pub free_pages : t.zone.free_pages ≡ (s.zone.free_pages + word - 2 ^ order) % word
  pub frame : Frame s t

-- The two outcomes of `__rmqueue_bs`, searching `rounds` orders from `current` on.
pub data Rmqueue (s : Mm) (order current rounds : ℕ) : Option ℕ × Mm → Type 0 where
  found :
      {page : ℕ} {t : Mm} → Allocated s order page t → Rmqueue s order current rounds (some page, t)
  exhausted :
      ((k : ℕ) → current ≤ k → k < current + rounds → s.zone.free_list k ≡ [])
      → Rmqueue s order current rounds (none, s)

module _ {s : Mm} {order current : ℕ} (page : ℕ) (lo : order ≤ current) (o : current < max_order)
    (v : Valid s) (m : contains page (s.zone.free_list current) ≡ true) where
  taken : Mm
  taken = take_block s page current

  counted : Mm
  counted = set_free_pages taken ((taken.zone.free_pages + word - 2 ^ order) % word)

  page_idle : Idle s page
  page_idle =
      v.idle page
        (omega (arith, hit-le-cover s.zone.free_list current o page page m, hit_self page current))

  counted-Valid : Valid counted
  unfolding counted taken
  counted-Valid = set_free_pages-Valid _ (take_block-Valid page o v m)

  counted-Loose : Loose counted page current
  unfolding counted taken set_free_pages
  counted-Loose =
      Frame-Loose (Frame-set_free_pages taken _) (take_block-Loose page o v m)
        (take_block-Loose page o v m).uncovered

  allocated : {t : Mm} → Expanded counted page order current t → Allocated s order page t
  unfolding counted taken set_free_pages take_block
  allocated e = record {
    valid = e.valid;
    block = e.loose;
    cover = λ q. omega (arith, e.cover q, take_cover page o v m q);
    total = omega (arith, e.total, take_total page o v m);
    free_pages = e.free_pages;
    frame =
        Frame-trans (Frame-take_block s page current page_idle)
          (Frame-trans (Frame-set_free_pages taken _) e.frame);
  }

  pub split_block :
      (rounds : ℕ)
      → Returns (Rmqueue s order current rounds) (
          expand
            (set_free_pages
              (take_block s page current)
              (((take_block s page current).zone.free_pages + word - 2 ^ order) % word))
            page
            order
            current
            (2 ^ current)
          >>= λ u. ok (some page, u))
  unfolding counted taken
  split_block rounds =
      Returns-bind
        (expand-Expanded current (2 ^ current) counted page order lo o refl counted-Valid
          counted-Loose)
        (λ t e. returns (found (allocated e)))

pub rmqueue_from-Rmqueue :
    (rounds : ℕ) (s : Mm) (order current : ℕ)
    → order ≤ current
    → current + rounds ≤ max_order
    → Valid s
    → Returns (Rmqueue s order current rounds) (rmqueue_from rounds s order current)
unfolding rmqueue_from
rmqueue_from-Rmqueue zero s order current lo hi v =
    returns (exhausted λ k a b. absurd (omega arith))
rmqueue_from-Rmqueue (suc rounds) s order current lo hi v =
    go (s.zone.free_list current) refl
      (rmqueue_from-Rmqueue rounds s order (current + 1) (omega arith) (omega arith) v)
  where
    widen :
        s.zone.free_list current ≡ []
        → (r : Option ℕ × Mm) → Rmqueue s order (current + 1) rounds r
        → Rmqueue s order current (suc rounds) r
    widen e _ (found a) = found a
    widen e _ (exhausted h) = exhausted λ k a b. elim (==-cases current k) [
      | inl (_, same) ↦ rw (← same) e
      | inr (_, ne) ↦ h k (omega arith) (omega arith)
    ]

    go :
        (xs : List ℕ)
        → s.zone.free_list current ≡ xs
        → Returns (Rmqueue s order (current + 1) rounds) (rmqueue_from rounds s order (current + 1))
        → Returns (Rmqueue s order current (suc rounds)) (rmqueue_from (suc rounds) s order current)
    go [] e rest = rw (e, rmqueue_from) (Returns-mono rest (widen e))
    go (page ∷ xs) e rest =
        rw (e, rmqueue_from)
          (split_block page lo (omega arith) v (rw e (ground arith)) (suc rounds))

-- In a valid zone a request for an order below 11 returns. It takes a block of that order,
-- aligned and inside the zone, whose pages are the ones that the lists lose, keeps the zone valid
-- and lowers free_pages by the block's size modulo 2^32; or every list of that order or above is
-- empty, and the zone is unchanged.
pub rmqueue-Rmqueue :
    (s : Mm) (order : ℕ)
    → order < max_order
    → Valid s
    → Returns (Rmqueue s order order (max_order - order)) (rmqueue s order)
unfolding rmqueue
rmqueue-Rmqueue s order o v =
    rmqueue_from-Rmqueue (max_order - order) s order order (omega arith) (omega arith) v
