-- ===== src/Slab/Refine.antt =====
-- A slab of mm/slab.c as a stack of object numbers: what the refill of an array takes from it.
use biscuit_os_memory.Common.{
  ℕ, zero, suc, ◌+◌, ◌*◌, ◌<◌, ◌≡◌, refl, ap, ◌∙◌, inl, inr, true, false, ltb, ==-cases, ==_self,
  update, List, [], ◌∷◌, length, map, arith,
}
use native.Mathlib.Nat.{mul-div_cancel}
use biscuit_os_memory.Slab.{Slab, ArrayCache, minus}
use biscuit_os_memory.Slab.Object.{
  object_at, take_object, push_entry, take_objects, object_number, put_object,
}
use biscuit_os_memory.Slab.Release.{entries}
use biscuit_os_memory.Slab.Chain.{IsFree, take_object-IsFree}

-- The abstract view of the inner loop: the top of a stack, at most `count` numbers, and what is left.
abbrev pub pop_upto : ℕ → List ℕ → List ℕ × List ℕ
pop_upto zero xs = ([], xs)
pop_upto (suc count) [] = ([], [])
pop_upto (suc count) (x ∷ xs) = let r = pop_upto count xs in (x ∷ r.0, r.1)

pub length-pop_upto :
    (count : ℕ) (xs : List ℕ)
    → length ((pop_upto count xs).0) + length ((pop_upto count xs).1) ≡ length xs
length-pop_upto zero xs = omega arith
length-pop_upto (suc count) [] = omega arith
length-pop_upto (suc count) (x ∷ xs) = omega (arith, length-pop_upto count xs)

-- What the inner loop leaves of the slab and the array when it takes the objects `taken`.
pub record Takes (num size batchcount : ℕ) (slab : Slab) (ac : ArrayCache) (taken left : List ℕ)
    (r : ℕ × (Slab × ArrayCache)) : Type 0 where
  pub remaining : r.0 + length taken ≡ batchcount
  pub stack : IsFree num ((r.1).0) left
  pub place : ((r.1).0).s_mem ≡ slab.s_mem
  pub colour : ((r.1).0).colouroff ≡ slab.colouroff
  pub avail : ((r.1).1).avail ≡ ac.avail + length taken
  pub objects : entries (length taken) ac.avail ((r.1).1).entry ≡ map (object_at size slab) taken
  pub before : (k : ℕ) → k < ac.avail → ((r.1).1).entry k ≡ ac.entry k

-- One object more at the front.
Takes-step :
    (num size batchcount : ℕ) (slab : Slab) (ac : ArrayCache) (x : ℕ) (taken left : List ℕ)
    (r : ℕ × (Slab × ArrayCache))
    → slab.free ≡ x
    → Takes num size batchcount
        (take_object slab)
        (push_entry ac (object_at size slab slab.free))
        taken
        left
        r
    → Takes num size (suc batchcount) slab ac (x ∷ taken) left r
unfolding take_object push_entry object_at entries
Takes-step num size batchcount slab ac x taken left r head ih = record {
  remaining = omega (arith, ih.remaining);
  stack = ih.stack;
  place = ih.place;
  colour = ih.colour;
  avail = omega (arith, ih.avail);
  objects = cc (head, ih.before ac.avail (omega arith), ==_self ac.avail, ih.objects);
  before = λ k lt. ih.before k (omega arith) ∙ ground arith;
}

-- The inner loop of the refill does to a slab, seen as the stack of its free objects, what taking
-- as many numbers as are wanted off the stack does: the chain is what is left, the array gets the
-- addresses of those taken, in their order and behind what it has, and the count still wanted is
-- lowered by their number.
pub take_objects-Takes :
    (batchcount num size : ℕ) (slab : Slab) (ac : ArrayCache) (xs : List ℕ)
    → IsFree num slab xs
    → Takes num size batchcount slab ac
        ((pop_upto batchcount xs).0)
        ((pop_upto batchcount xs).1)
        (take_objects batchcount num size slab ac)
unfolding take_objects entries
take_objects-Takes zero num size slab ac xs free = record {
  remaining = refl;
  stack = free;
  place = refl;
  colour = refl;
  avail = omega arith;
  objects = refl;
  before = λ k lt. refl;
}
take_objects-Takes (suc batchcount) num size slab ac [] free = rw full (record {
  remaining = omega arith;
  stack = free;
  place = refl;
  colour = refl;
  avail = omega arith;
  objects = refl;
  before = λ k lt. refl;
})
  where
    full : ltb slab.inuse num ≡ false
    full = ground (arith, free.count)
take_objects-Takes (suc batchcount) num size slab ac (x ∷ xs) free = rw room (
    Takes-step num size batchcount slab ac x ((pop_upto batchcount xs).0)
      ((pop_upto batchcount xs).1)
      (take_objects batchcount num size (take_object slab)
        (push_entry ac (object_at size slab slab.free)))
      (free.links.0)
      (take_objects-Takes batchcount num size (take_object slab)
        (push_entry ac (object_at size slab slab.free)) xs (take_object-IsFree num slab x xs free)))
  where
    room : ltb slab.inuse num ≡ true
    room = ground (arith, free.count)

-- The number of the object at the place of an object is its number.
pub object_number-object_at :
    (size : ℕ) (slab : Slab) (i : ℕ)
    → 0 < size
    → object_number size slab (object_at size slab i) ≡ i
unfolding object_number object_at
object_number-object_at size slab i pos =
    rw (difference slab.s_mem (i * size)) (mul-div_cancel i pos)
  where
    difference : (a b : ℕ) → minus (a + b) a ≡ b
    difference a b = ground arith

-- An object that is taken and given back at once leaves the slab as it was.
pub put_object-take_object : (slab : Slab) → put_object (take_object slab) slab.free ≡ slab
unfolding put_object take_object
put_object-take_object slab =
    λ t. record slab { inuse = inuse_back slab.inuse t; bufctl = λ j. link_back j t }
  where
    inuse_back : (n : ℕ) → minus (n + 1) 1 ≡ n
    inuse_back n = ground arith

    link_back : (j : ℕ) → update slab.bufctl slab.free (slab.bufctl slab.free) j ≡ slab.bufctl j
    link_back j = elim (==-cases slab.free j) [
      | inl (e, e') ↦ rw e (ap slab.bufctl e')
      | inr (e, _) ↦ rw e refl
    ]
