-- ===== src/Slab/Arrays.antt =====
-- The array of a cache of mm/slab.c: its refill, and what a free puts into it.
use biscuit_os_memory.Common.{
  ℕ, sym, [], ◌++◌, append-nil, not, ◌&&◌, if◌then◌else◌, ◌==◌, ◌+◌, ◌-◌, ◌≤◌, ◌<◌, ◌≡◌, refl, ap,
  ◌⊎◌, inl, inr, false, ltb, ltb-cases, lt→ltb, ==_self, Option, none, some, List, ok, ◌>>=◌,
  Returns, returns, Returns-bind, Returns-ok, arith,
}
use biscuit_os_memory.Slab.{ArrayCache, Cache, Memory, World, minus}
use biscuit_os_memory.Slab.Object.{push_entry}
use biscuit_os_memory.Slab.Alloc.{
  refill_count, refill_loop, refill_from_slabs, refill_with, refill_array, pop_entry, cache_alloc,
}
use biscuit_os_memory.Slab.Release.{
  entries, drop_entries, flush_to_slabs, flush_to_shared, flush_with, cache_flusharray, cache_free,
}
use biscuit_os_memory.Slab.Moves.{
  shared_avail, SharedFits, SharedFull, take_shared-TakenFrom, Source, from_shared, from_slabs,
  batch_wanted, Went, nowhere, to_shared, to_slabs, Went-fits, entries-parts,
}
use biscuit_os_memory.Slab.Listed.{Listed-count}
use biscuit_os_memory.Slab.Refill.{Refilled, refill_loop-Refilled}
use biscuit_os_memory.Slab.PutBack.{Kept}
use biscuit_os_memory.Slab.FreeBlock.{AllOut, AllOut-arrays, AllOut-behind, free_block-SettledWith}
use biscuit_os_memory.Slab.Pages.{Owns-base}

module _ {ℓ} {S : Type ℓ} where
  Kept-lists :
      {n : ℕ} {stack : ℕ → List ℕ} {c : Cache} {m : Memory S} (ac : ArrayCache)
      (shared : Option ArrayCache)
      → Kept n stack c m
      → Kept n stack (record c { ac = ac; lists = record c.lists { shared = shared } }) m
  Kept-lists ac shared kept = record {
    sound = record {
      some_objects = kept.sound.some_objects;
      few_objects = kept.sound.few_objects;
      lists = record {
        once = kept.sound.lists.once;
        partial_some = kept.sound.lists.partial_some;
        partial_most = kept.sound.lists.partial_most;
        full_none = kept.sound.lists.full_none;
        free_all = kept.sound.lists.free_all;
      };
      stacks = kept.sound.stacks;
    };
    pages = kept.pages;
    counted = kept.counted;
  }

  -- What a refill of an empty array leaves.
  pub record Filled (wanted : ℕ) (c : Cache) (r : Cache × Memory S) : Type ℓ where
    pub stack_after : ℕ → List ℕ
    pub kept : Kept 0 stack_after (r.0) (r.1)
    pub most : (r.0).ac.avail ≤ wanted
    pub finished : ((r.0).ac.avail ≡ wanted) ⊎ ((r.0).lists.free_objects ≡ 0)
    pub shared : (r.0).lists.shared ≡ c.lists.shared
    pub moved : (r.0).lists.free_objects + (r.0).ac.avail ≡ c.lists.free_objects

  refill_from_slabs-Filled :
      (wanted : ℕ) (stack : ℕ → List ℕ) (c : Cache) (m : Memory S)
      → c.ac.avail ≡ 0
      → Kept 0 stack c m
      → Filled wanted c (refill_from_slabs wanted c m)
  unfolding refill_from_slabs
  refill_from_slabs-Filled wanted stack c m empty kept = record {
    stack_after = f.stack_after;
    kept = record {
      sound = record {
        some_objects = f.keeps.sound.some_objects;
        few_objects = f.keeps.sound.few_objects;
        lists = Listed-count _ f.keeps.sound.lists;
        stacks = f.keeps.sound.stacks;
      };
      pages = λ q on.
          Owns-base c.gfporder q m _ (f.keeps.base q)
            (kept.pages q (omega (arith, on, f.keeps.same q)));
      counted = ground (arith, f.keeps.amount, f.keeps.free_objects, kept.counted, empty);
    };
    most = omega (arith, f.count, empty);
    finished = elim f.finished [
      | inl all ↦ inl (omega (arith, f.count, empty, all))
      | inr none_left ↦
          inr (ground (arith, none_left, f.keeps.amount, f.keeps.free_objects, kept.counted, empty))
    ];
    shared = f.keeps.shared;
    moved = ground (arith, f.keeps.amount, f.keeps.free_objects, kept.counted, empty);
  }
    where
      f :
          Refilled c.num wanted stack
            (record { ac = c.ac; lists = c.lists; slabs = m.slabs })
            (refill_loop wanted wanted c.num c.objsize
              (record { ac = c.ac; lists = c.lists; slabs = m.slabs }))
      f =
          refill_loop-Refilled wanted wanted c.num c.objsize stack
            (record { ac = c.ac; lists = c.lists; slabs = m.slabs }) (omega arith) kept.sound

  -- What `cache_alloc_refill_bs` leaves before it hands out an object: the cache is in order, the objects
  -- of the slabs and the two arrays are as many as before, and the array has one unless there are none.
  pub record Gives (wanted : ℕ) (c : Cache) (r : Cache × Memory S) : Type ℓ where
    pub stack_after : ℕ → List ℕ
    pub kept : Kept 0 stack_after (r.0) (r.1)
    pub source : Source wanted c (r.0)
    pub conserved :
        (r.0).lists.free_objects + (r.0).ac.avail + shared_avail (r.0).lists.shared
        ≡ c.lists.free_objects + shared_avail c.lists.shared
    pub given :
        (0 < (r.0).ac.avail) ⊎ ((r.0).lists.free_objects + shared_avail (r.0).lists.shared ≡ 0)

  Gives-slabs :
      (wanted : ℕ) (c : Cache) (r : Cache × Memory S)
      → 0 < wanted
      → shared_avail c.lists.shared ≡ 0
      → Filled wanted c r
      → Gives wanted c r
  Gives-slabs wanted c r some_wanted unshared f = record {
    stack_after = f.stack_after;
    kept = f.kept;
    source = from_slabs unshared f.shared f.most f.finished;
    conserved = omega (arith, f.moved, ap shared_avail f.shared);
    given = elim f.finished [
      | inl all ↦ inl (omega (arith, all))
      | inr none_left ↦ inr (omega (arith, none_left, ap shared_avail f.shared, unshared))
    ];
  }

  refill_with-Gives :
      (shared : Option ArrayCache) (wanted : ℕ) (stack : ℕ → List ℕ) (c : Cache) (m : Memory S)
      → c.lists.shared ≡ shared
      → c.ac.avail ≡ 0
      → 0 < wanted
      → Kept 0 stack c m
      → Gives wanted c (refill_with shared wanted c m)
  unfolding refill_with
  refill_with-Gives none wanted stack c m e empty pos kept =
      Gives-slabs wanted c _ pos (ap shared_avail e)
        (refill_from_slabs-Filled wanted stack c m empty kept)
  refill_with-Gives (some array) wanted stack c m e empty pos kept =
      let t = take_shared-TakenFrom wanted c.ac array in
      elim (ltb-cases 0 array.avail) [
        | inl (there, some_there) ↦ rw there (record {
          stack_after = stack;
          kept = Kept-lists _ _ kept;
          source = from_shared e refl t refl;
          conserved = omega (arith, t.rest, ap shared_avail e);
          given = inl (ground (arith, t.number, some_there, pos));
        })
        | inr (there, none_there) ↦ rw there (
            Gives-slabs wanted c _ pos (omega (arith, ap shared_avail e, none_there))
              (refill_from_slabs-Filled wanted stack c m empty kept))
      ]

  -- For a cache in order with an empty array and a batch of one object or more, of which 16 at
  -- most are wanted when the array has not been used lately, the refill returns without a panic
  -- and the cache is in order. If the shared array has objects, its last ones, as many as are
  -- wanted or all, are in the array in their order and no longer in the shared one, which keeps
  -- the others; else the array has as many as wanted from the slabs, or the slabs have no more.
  -- The free objects of the slabs and of the two arrays are together as many as before, and the
  -- array has one unless there is none.
  pub refill_array-Gives :
      (stack : ℕ → List ℕ) (c : Cache) (m : Memory S)
      → c.ac.avail ≡ 0
      → 0 < c.ac.batchcount
      → Kept 0 stack c m
      → Returns (Gives (batch_wanted c.ac) c) (refill_array c m)
  unfolding refill_array refill_count
  refill_array-Gives stack c m empty batch kept =
      rw (no_objects, same)
        (returns
          (refill_with-Gives c.lists.shared (batch_wanted c.ac) stack c m refl empty wanted kept))
    where
      no_objects : ltb 0 c.ac.avail ≡ false
      no_objects = ground (arith, empty)

      wanted : 0 < batch_wanted c.ac
      wanted = ground (arith, batch)

      same :
          (if not c.ac.touched && ltb 16 c.ac.batchcount then 16 else c.ac.batchcount)
          ≡ batch_wanted c.ac
      same = ground arith

  -- What a flush of the array comes to.
  pub record Flushed (batchcount n : ℕ) (tail : List ℕ) (c : Cache) (r : ℕ × (Cache × Memory S))
      : Type ℓ where
    pub stack_after : ℕ → List ℕ
    pub kept : Kept 0 stack_after ((r.1).0) ((r.1).1)
    pub some_objects : 0 < r.0
    pub most : r.0 ≤ batchcount
    pub ac : ((r.1).0).ac ≡ c.ac
    pub went : Went (r.0) c ((r.1).0).lists.shared
    -- Those that stay are still out of their slabs, and so are others.
    pub out : AllOut ((r.1).0) ((r.1).1) stack_after (entries (n - r.0) (r.0) c.ac.entry ++ tail)

  -- The array has `n` objects, of which those of the batch are the first.
  module _ (w : World S) (batchcount n : ℕ) (tail : List ℕ) (stack : ℕ → List ℕ) (c : Cache)
      (m : Memory S) (pos : 0 < batchcount) (batch : batchcount ≡ c.ac.batchcount)
      (le : batchcount ≤ n) (kept : Kept 0 stack c m)
      (out : AllOut c m stack (entries n 0 c.ac.entry ++ tail)) where
    flush_to_slabs-Flushed :
        SharedFull c.lists.shared
        → Returns (Flushed batchcount n tail c) (flush_to_slabs w batchcount c m)
    unfolding flush_to_slabs
    flush_to_slabs-Flushed full =
        Returns-bind
          (free_block-SettledWith w c.ac.entry batchcount
            (entries (n - batchcount) batchcount c.ac.entry ++ tail) stack c m kept
            (rw (sym (entries-parts batchcount n c.ac.entry tail le)) out))
          (λ r f. returns (record {
            stack_after = f.settled.stack_after;
            kept = f.settled.kept;
            some_objects = pos;
            most = omega arith;
            ac = f.settled.ac;
            went = to_slabs full batch f.settled.shared;
            out = f.out;
          }))

    still_out : (k : ℕ) → k ≤ n → AllOut c m stack (entries (n - k) k c.ac.entry ++ tail)
    still_out k few =
        AllOut-behind (entries k 0 c.ac.entry) _ stack c m
          (rw (sym (entries-parts k n c.ac.entry tail few)) out)

    flush_with-Flushed :
        (shared : Option ArrayCache)
        → c.lists.shared ≡ shared
        → SharedFits shared
        → Returns (Flushed batchcount n tail c) (flush_with w shared batchcount c m)
    unfolding flush_with flush_to_shared
    flush_with-Flushed none e fits = flush_to_slabs-Flushed (rw e tt)
    flush_with-Flushed (some array) e fits = elim (ltb-cases 0 (minus array.limit array.avail)) [
      | inl (t, room) ↦ rw t (
          returns (record {
            stack_after = stack;
            kept = Kept-lists _ _ kept;
            some_objects = ground arith;
            most = ground arith;
            ac = refl;
            went =
                to_shared e refl (ground (arith, fits, batch)) (refl, refl)
                  (λ j lt. ground (arith, lt)) (λ j lt. ground (arith, lt));
            out = AllOut-arrays _ _ _ stack c m (still_out _ (ground (arith, le)));
          }))
      | inr (t, none_left) ↦ rw t (flush_to_slabs-Flushed (rw e (ground (arith, none_left, fits))))
    ]

  -- The array has room: its first objects are gone, and the others have moved to its start.
  pub record Roomy (n : ℕ) (tail : List ℕ) (c : Cache) (r : Cache × Memory S) : Type ℓ where
    pub stack_after : ℕ → List ℕ
    pub kept : Kept 0 stack_after (r.0) (r.1)
    pub room : (r.0).ac.avail < c.ac.limit
    pub gone : ℕ
    pub count : (r.0).ac.avail + gone ≡ c.ac.avail
    pub moved : (j : ℕ) → j < (r.0).ac.avail → (r.0).ac.entry j ≡ c.ac.entry (gone + j)
    pub limit : (r.0).ac.limit ≡ c.ac.limit
    pub batchcount : (r.0).ac.batchcount ≡ c.ac.batchcount
    pub went : Went gone c (r.0).lists.shared
    pub out : AllOut (r.0) (r.1) stack_after (entries (n - gone) gone c.ac.entry ++ tail)

  -- What a free leaves: the same, with the object behind those of the array.
  pub record Freed (objp : ℕ) (c : Cache) (r : Cache × Memory S) : Type ℓ where
    pub stack_after : ℕ → List ℕ
    pub kept : Kept 0 stack_after (r.0) (r.1)
    pub some_objects : 0 < (r.0).ac.avail
    pub limit : (r.0).ac.limit ≡ c.ac.limit
    pub batchcount : (r.0).ac.batchcount ≡ c.ac.batchcount
    pub bound : (r.0).ac.avail ≤ c.ac.limit
    pub fits : SharedFits (r.0).lists.shared
    pub last : (r.0).ac.entry ((r.0).ac.avail - 1) ≡ objp
    pub gone : ℕ
    pub count : (r.0).ac.avail + gone ≡ c.ac.avail + 1
    pub moved : (j : ℕ) → j + 1 < (r.0).ac.avail → (r.0).ac.entry j ≡ c.ac.entry (gone + j)
    pub went : Went gone c (r.0).lists.shared

  Freed-push :
      (objp n : ℕ) (tail : List ℕ) (c : Cache) (r : Cache × Memory S)
      → SharedFits c.lists.shared
      → Roomy n tail c r
      → Freed objp c (record (r.0) { ac = push_entry (r.0).ac objp }, r.1)
  unfolding push_entry
  Freed-push objp n tail c r fits q = record {
    stack_after = q.stack_after;
    kept = Kept-lists _ _ q.kept;
    some_objects = omega arith;
    limit = q.limit;
    batchcount = q.batchcount;
    bound = omega (arith, q.room);
    fits = Went-fits fits q.went;
    last = ground (arith, ==_self (r.0).ac.avail);
    gone = q.gone;
    count = omega (arith, q.count);
    moved = λ j lt.
        let apart : ((r.0).ac.avail == j) ≡ false = ground (arith, lt) in
        rw apart (q.moved j (omega (arith, lt)));
    went = q.went;
  }

  -- Besides, the objects of the array are out of their slabs and all different.
  pub record FreedOut (objp : ℕ) (c : Cache) (r : Cache × Memory S) : Type ℓ where
    pub freed : Freed objp c r
    pub out : AllOut (r.0) (r.1) freed.stack_after (entries (r.0).ac.avail 0 (r.0).ac.entry)

  module _ (w : World S) (objp : ℕ) (stack : ℕ → List ℕ) (c : Cache) (m : Memory S)
      (within : c.ac.avail ≤ c.ac.limit) (pos : 0 < c.ac.batchcount)
      (batch : c.ac.batchcount ≤ c.ac.limit) (fits : SharedFits c.lists.shared)
      (kept : Kept 0 stack c m) where
    cache_flusharray-Roomy :
        (n : ℕ) (tail : List ℕ)
        → c.ac.avail ≡ c.ac.limit
        → c.ac.batchcount ≤ n
        → AllOut c m stack (entries n 0 c.ac.entry ++ tail)
        → Returns (Roomy n tail c) (cache_flusharray w c m)
    unfolding cache_flusharray drop_entries
    cache_flusharray-Roomy n tail full le out =
        Returns-bind
          (flush_with-Flushed w c.ac.batchcount n tail stack c m pos refl le kept out c.lists.shared
            refl fits)
          (λ r f. returns (
            rw f.ac (record {
              stack_after = f.stack_after;
              kept = Kept-lists _ _ f.kept;
              room = omega (arith, f.some_objects, f.most, full, pos, batch);
              gone = r.0;
              count = omega (arith, f.most, full, batch);
              moved = λ j lt. ground (arith, lt);
              limit = refl;
              batchcount = refl;
              went = f.went;
              out = AllOut-arrays _ _ _ f.stack_after ((r.1).0) ((r.1).1) f.out;
            })))

    -- Nothing to flush
    untouched :
        (n : ℕ) (tail : List ℕ)
        → c.ac.avail < c.ac.limit
        → AllOut c m stack (entries n 0 c.ac.entry ++ tail)
        → Roomy n tail c (c, m)
    untouched n tail room out = record {
      stack_after = stack;
      kept = kept;
      room = room;
      gone = 0;
      count = omega arith;
      moved = λ j lt. let same : 0 + j ≡ j = omega arith in rw same refl;
      limit = refl;
      batchcount = refl;
      went = nowhere refl refl;
      out = let same : n - 0 ≡ n = omega arith in rw same out;
    }

    pub cache_free-Pushed :
        AllOut c m stack (entries c.ac.batchcount 0 c.ac.entry)
        → Returns (Freed objp c) (cache_free w c objp m)
    unfolding cache_free
    cache_free-Pushed out = elim (ltb-cases c.ac.avail c.ac.limit) [
      | inl (t, room) ↦ rw t (
          returns (
            Freed-push objp c.ac.batchcount [] c (c, m) fits
              (untouched c.ac.batchcount [] room alone)))
      | inr (t, full) ↦ rw t (
          Returns-bind (cache_flusharray-Roomy c.ac.batchcount [] (omega arith) (omega arith) alone)
            (λ r f. returns (Freed-push objp c.ac.batchcount [] c r fits f)))
    ]
      where
        alone : AllOut c m stack (entries c.ac.batchcount 0 c.ac.entry ++ [])
        alone = rw (append-nil (entries c.ac.batchcount 0 c.ac.entry)) out

  -- Under the conditions of a free that keeps the cache in order, an object that is freed is the
  -- one that the next allocation hands out, for any flags.
  pub cache_alloc-cache_free :
      (w : World S) (objp flags : ℕ) (stack : ℕ → List ℕ) (c : Cache) (m : Memory S)
      → c.ac.avail ≤ c.ac.limit
      → 0 < c.ac.batchcount
      → c.ac.batchcount ≤ c.ac.limit
      → SharedFits c.lists.shared
      → Kept 0 stack c m
      → AllOut c m stack (entries c.ac.batchcount 0 c.ac.entry)
      → (cache_free w c objp m >>= λ r. cache_alloc w (r.0) flags (r.1) >>= λ q. ok (q.0))
        ≡ ok (some objp)
  unfolding cache_alloc pop_entry
  cache_alloc-cache_free w objp flags stack c m within pos batch fits kept out =
      let f = Returns-ok (cache_free-Pushed w objp stack c m within pos batch fits kept out) in
      rw (f.1, lt→ltb 0 _ (f.2).some_objects) (ap (λ x. ok (some x)) (f.2).last)
