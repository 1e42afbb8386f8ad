-- ===== src/Pcp/Bulk.antt =====
-- `free_pages_bulk_bs` and `rmqueue_bulk_bs`: blocks go from a list to the buddy allocator and back,
-- and none is lost or made up.
use native.Mathlib.Nat.{pow-le-pow_right}
use biscuit_os_memory.Common.{
  ℕ, zero, suc, min, ◌+◌, ◌-◌, ◌^◌, ◌%◌, ◌<◌, ◌≤◌, ◌≡◌, refl, ◌∙◌, ◌⊎◌, inl, inr, arith, List, [],
  ◌∷◌, ◌++◌, Option, none, some, ok, Returns, returns, Returns-mono, Returns-bind, ==_self,
  ==-cases, contains, contains-append, length, length-append, true,
}
use biscuit_os_memory.Buddy.{Mm, bad_range, max_order, word}
use biscuit_os_memory.Buddy.Cover.{hit, count_in, cover, total, count_in-append}
use biscuit_os_memory.Buddy.Valid.{Valid, Loose, Idle, InZone}
use biscuit_os_memory.Buddy.Frame.{Frame, Frame-refl, Frame-trans, Frame-Idle, Frame-InZone}
use biscuit_os_memory.Buddy.Alloc.{Rmqueue, found, exhausted, Allocated, rmqueue-Rmqueue}
use biscuit_os_memory.Buddy.Free.{Freed, free_pages_bulk_one-Freed}
use biscuit_os_memory.Pcp.{
  Batch, split_last, free_bulk_loop, free_pages_bulk, rmqueue_bulk_loop, rmqueue_bulk,
  clear_pressure,
}

-- A block that may be freed, apart from what else holds its pages.
pub record Placed (s : Mm) (page order : ℕ) : Type 0 where
  pub aligned : page % 2 ^ order ≡ 0
  pub inside : InZone s page order
  pub idle : (q : ℕ) → hit page order q ≡ 1 → Idle s q

-- `free_pages` counts the pages on the free lists.
abbrev pub Counted : Mm → Type 0
Counted s = s.zone.free_pages ≡ total s.zone.free_list % word

pub Frame-Placed :
    {s t : Mm} {page order : ℕ} → Frame s t → Placed s page order → Placed t page order
Frame-Placed f p = record {
  aligned = p.aligned;
  inside = Frame-InZone f p.inside;
  idle = λ q h. Frame-Idle f (p.idle q h);
}

-- A list of blocks of one order, which the buddy allocator could take.
pub record Listed (s : Mm) (order : ℕ) (list : List ℕ) : Type 0 where
  pub placed : (p : ℕ) → contains p list ≡ true → Placed s p order
  pub apart : (q : ℕ) → cover s.zone.free_list q + count_in order q list ≤ 1

-- What moving blocks between a list and the free areas keeps.
pub record Moved (s : Mm) (order : ℕ) (list : List ℕ) (b : Batch) : Type 0 where
  pub valid : Valid b.state
  pub counted : Counted b.state
  pub cover :
      (q : ℕ)
      → cover b.state.zone.free_list q + count_in order q b.rest
        ≡ cover s.zone.free_list q + count_in order q list
  pub placed : (p : ℕ) → contains p b.rest ≡ true → Placed b.state p order
  pub frame : Frame s b.state

-- The last entry of a list.
record IsLast (xs ys : List ℕ) (y : ℕ) : Type 0 where
  member : contains y xs ≡ true
  before : (p : ℕ) → contains p ys ≡ true → contains p xs ≡ true
  shorter : suc (length ys) ≡ length xs
  counts : (order q : ℕ) → count_in order q ys + hit y order q ≡ count_in order q xs

abbrev Splits : List ℕ → Option (List ℕ × ℕ) → Type 0
Splits xs r =
    ((xs ≡ []) × (r ≡ none)) ⊎ ((ys : List ℕ) × (y : ℕ) × (r ≡ some (ys, y)) × IsLast xs ys y)

split_last-Splits : (xs : List ℕ) → Splits xs (split_last xs)
unfolding split_last count_in
split_last-Splits [] = inl (refl, refl)
split_last-Splits (x ∷ xs) = inr (go (split_last-Splits xs))
  where
    go :
        Splits xs (split_last xs)
        → (ys : List ℕ) × (y : ℕ) × (split_last (x ∷ xs) ≡ some (ys, y)) × IsLast (x ∷ xs) ys y
    go (inl (e, r)) = (
      [],
      x,
      rw (r, split_last),
      record {
        member = rw (==_self x);
        before = λ p h. ground arith;
        shorter = rw e;
        counts = λ order q. rw e (omega arith);
      },
    )
    go (inr (ys, y, r, l)) = (
      x ∷ ys,
      y,
      rw (r, split_last),
      record {
        member = ground (arith, l.member);
        before = λ p h. ground (arith, l.before p);
        shorter = omega (arith, l.shorter);
        counts = λ order q. omega (arith, l.counts order q);
      },
    )

module _ {s : Mm} {order page : ℕ} {list front : List ℕ} (o : order < max_order)
    (l : Listed s order list) (x : IsLast list front page) where
  last-Loose : Loose s page order
  last-Loose =
      let p = l.placed page x.member in
      record {
        aligned = p.aligned;
        inside = p.inside;
        uncovered = λ q h. omega (arith, l.apart q, x.counts order q);
        idle = p.idle;
      }

  front-Listed : {t : Mm} → Freed s page order t → Listed t order front
  front-Listed f = record {
    placed = λ p m. Frame-Placed f.frame (l.placed p (x.before p m));
    apart = λ q. omega (arith, f.cover q, l.apart q, x.counts order q);
  }

pub Freed-Counted :
    {s : Mm} {page order : ℕ} {t : Mm} → Counted s → Freed s page order t → Counted t
Freed-Counted c f = omega (arith, c, f.total, f.free_pages)

pub block-lt-word : (order : ℕ) → order < max_order → 2 ^ order < word
block-lt-word order o =
    omega (arith, pow-le-pow_right {n = 2} (omega arith) {i = order} {j = 10} (omega arith))

pub Allocated-Counted :
    {s : Mm} {order page : ℕ} {t : Mm}
    → order < max_order
    → Counted s
    → Allocated s order page t
    → Counted t
Allocated-Counted {order} o c a = omega (arith, c, a.total, a.free_pages, block-lt-word order o)

pub Moved-stay :
    {s : Mm} {order : ℕ} {list : List ℕ} (n : ℕ)
    → Valid s
    → Counted s
    → ((p : ℕ) → contains p list ≡ true → Placed s p order)
    → Moved s order list (record { moved = n; rest = list; state = s })
Moved-stay {s} n v c pl = record {
  valid = v;
  counted = c;
  cover = λ q. refl;
  placed = pl;
  frame = Frame-refl s;
}

free_bulk_loop-Moved :
    (count : ℕ) (s : Mm) (list : List ℕ) (order ret : ℕ)
    → order < max_order
    → Valid s
    → Counted s
    → Listed s order list
    → Returns
        (λ b.
          Moved s order list b
          × (b.moved + length b.rest ≡ ret + length list)
          × (b.moved ≡ ret + min count (length list)))
        (free_bulk_loop count s list order ret)
unfolding free_bulk_loop
free_bulk_loop-Moved zero s list order ret o v c l =
    returns (Moved-stay ret v c l.placed, refl, omega arith)
free_bulk_loop-Moved (suc count) s list order ret o v c l = elim (split_last-Splits list) [
  | inl (e, r) ↦
      rw (r, free_bulk_loop) (returns (Moved-stay ret v c l.placed, refl, rw e (omega arith)))
  | inr (front, page, r, x) ↦
      rw (r, free_bulk_loop)
        (Returns-bind (free_pages_bulk_one-Freed s page order o v (last-Loose o l x)) (λ t f.
          Returns-mono
            (free_bulk_loop-Moved count t front order (ret + 1) o f.valid (Freed-Counted c f)
              (front-Listed o l x f))
            (λ b m. (
              onward front page x t f b (m.0),
              omega (arith, m.1, x.shorter),
              omega (arith, m.2, x.shorter),
            ))))
]
  where
    onward :
        (front : List ℕ) (page : ℕ)
        → IsLast list front page
        → (t : Mm) → Freed s page order t
        → (b : Batch) → Moved t order front b
        → Moved s order list b
    onward front page x t f b m = record {
      valid = m.valid;
      counted = m.counted;
      cover = λ q. omega (arith, m.cover q, f.cover q, x.counts order q);
      placed = m.placed;
      frame = Frame-trans f.frame m.frame;
    }

clear_pressure-Valid : {s : Mm} → Valid s → Valid (clear_pressure s)
unfolding clear_pressure bad_range
clear_pressure-Valid v = record {
  counts = v.counts;
  blocks = λ k p o h.
      let b = v.blocks k p o h in
      record {
        marked = b.marked;
        recorded = b.recorded;
        aligned = b.aligned;
        inside = record { lo = b.inside.lo; hi = b.inside.hi };
      };
  heads = v.heads;
  once = v.once;
  idle = λ q h. let d = v.idle q h in record { unused = d.unused; free = d.free; home = d.home };
}

Frame-clear_pressure : (s : Mm) → Frame s (clear_pressure s)
unfolding clear_pressure
Frame-clear_pressure s = record {
  start = refl;
  spanned = refl;
  index = refl;
  pcp = refl;
  pages = λ q. record {
    count = refl;
    mapcount = refl;
    mapping = refl;
    reserved = refl;
    zone = refl;
    mark = λ _. refl;
  };
}

-- Giving at most count blocks of a list, of one order below 11, back to a valid zone returns,
-- where free_pages counts the free blocks and the blocks of the list are aligned, inside the
-- zone, without users and apart from each other and from the free blocks; it moves as many as the
-- count and the list allow, says how many, and each page is as often on the free lists or on the
-- rest of the list as before.
pub free_pages_bulk-Moved :
    (s : Mm) (count : ℕ) (list : List ℕ) (order : ℕ)
    → order < max_order
    → Valid s
    → Counted s
    → Listed s order list
    → Returns
        (λ b.
          Moved s order list b
          × (b.moved + length b.rest ≡ length list)
          × (b.moved ≡ min count (length list)))
        (free_pages_bulk s count list order)
unfolding free_pages_bulk
free_pages_bulk-Moved s count list order o v c l =
    Returns-mono
      (free_bulk_loop-Moved count (clear_pressure s) list order 0 o (clear_pressure-Valid v) c
        (record {
          placed = λ p m. Frame-Placed (Frame-clear_pressure s) (l.placed p m);
          apart = l.apart;
        }))
      (λ b m. (
        record {
          valid = m.0.valid;
          counted = m.0.counted;
          cover = m.0.cover;
          placed = m.0.placed;
          frame = Frame-trans (Frame-clear_pressure s) m.0.frame;
        },
        omega (arith, m.1),
        omega (arith, m.2),
      ))

module _ {s : Mm} {order page : ℕ} {t : Mm} (list : List ℕ) (a : Allocated s order page t)
    (placed : (p : ℕ) → contains p list ≡ true → Placed s p order) where
  appended-Placed : (p : ℕ) → contains p (list ++ (page ∷ [])) ≡ true → Placed t p order
  appended-Placed p m = elim (==-cases page p) [
    | inl (_, e) ↦
        rw (← e)
          (record { aligned = a.block.aligned; inside = a.block.inside; idle = a.block.idle })
    | inr (e, _) ↦
        Frame-Placed a.frame (placed p (ground (arith, contains-append p list (page ∷ []))))
  ]

  appended_count :
      (q : ℕ)
      → cover t.zone.free_list q + count_in order q (list ++ (page ∷ []))
        ≡ cover s.zone.free_list q + count_in order q list
  unfolding count_in
  appended_count q = omega (arith, count_in-append order q list (page ∷ []), a.cover q)

  appended-Moved : {b : Batch} → Moved t order (list ++ (page ∷ [])) b → Moved s order list b
  appended-Moved m = record {
    valid = m.valid;
    counted = m.counted;
    cover = λ q. m.cover q ∙ appended_count q;
    placed = m.placed;
    frame = Frame-trans a.frame m.frame;
  }

rmqueue_bulk_loop-Moved :
    (count : ℕ) (s : Mm) (order : ℕ) (list : List ℕ) (allocated : ℕ)
    → order < max_order
    → Valid s
    → Counted s
    → ((p : ℕ) → contains p list ≡ true → Placed s p order)
    → Returns
        (λ b. Moved s order list b × (b.moved + length list ≡ allocated + length b.rest))
        (rmqueue_bulk_loop count s order list allocated)
unfolding rmqueue_bulk_loop
rmqueue_bulk_loop-Moved zero s order list allocated o v c pl =
    returns (Moved-stay allocated v c pl, refl)
rmqueue_bulk_loop-Moved (suc count) s order list allocated o v c pl =
    Returns-bind (rmqueue-Rmqueue s order o v) λ r x. next r x (λ page t a.
      rmqueue_bulk_loop-Moved count t order (list ++ (page ∷ [])) (allocated + 1) o a.valid
        (Allocated-Counted o c a) (appended-Placed list a pl))
  where
    Goal : Batch → Type 0
    Goal b = Moved s order list b × (b.moved + length list ≡ allocated + length b.rest)

    next :
        (r : Option ℕ × Mm)
        → Rmqueue s order order (max_order - order) r
        → ((page : ℕ) (t : Mm)
            → Allocated s order page t
            → Returns
                (λ b.
                  Moved t order (list ++ (page ∷ [])) b
                  × (b.moved + length (list ++ (page ∷ [])) ≡ allocated + 1 + length b.rest))
                (rmqueue_bulk_loop count t order (list ++ (page ∷ [])) (allocated + 1)))
        → Returns Goal (elim (r.0) [
          | none ↦ ok (record { moved = allocated; rest = list; state = r.1 })
          | some page ↦ rmqueue_bulk_loop count (r.1) order (list ++ (page ∷ [])) (allocated + 1)
        ])
    next _ (found {page} {t} a) rest = Returns-mono (rest page t a) (λ b m.
        (appended-Moved list a pl (m.0), omega (arith, m.1, length-append list (page ∷ []))))
    next _ (exhausted h) rest = returns (Moved-stay allocated v c pl, refl)

-- Filling a list of aligned blocks without users, of one order below 11, from a valid zone whose
-- free_pages counts its free blocks returns and says how many blocks it added; each page is as
-- often on the free lists or on the list as before, and every block on the list is aligned,
-- inside the zone and without users.
pub rmqueue_bulk-Moved :
    (s : Mm) (order count : ℕ) (list : List ℕ)
    → order < max_order
    → Valid s
    → Counted s
    → ((p : ℕ) → contains p list ≡ true → Placed s p order)
    → Returns
        (λ b. Moved s order list b × (b.moved + length list ≡ length b.rest))
        (rmqueue_bulk s order count list)
unfolding rmqueue_bulk
rmqueue_bulk-Moved s order count list o v c pl =
    Returns-mono (rmqueue_bulk_loop-Moved count s order list 0 o v c pl)
      (λ b m. (m.0, omega (arith, m.1)))
