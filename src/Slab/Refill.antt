-- ===== src/Slab/Refill.antt =====
-- The refill of an array of mm/slab.c from the slabs, and what it keeps.
use biscuit_os_memory.Common.{
  ℕ, zero, suc, ◌+◌, ◌≤◌, ◌<◌, ◌≡◌, refl, ◌∙◌, ◌⊎◌, inl, inr, Bool, true, ltb, ◌==◌, ==-cases,
  Bool-cases, ==_self, update, none, some, List, [], ◌∷◌, length, occurs, total-zero, arith,
}
use biscuit_os_memory.Slab.{Slab, ArrayCache, Lists, bufctl_end, minus, unlink}
use biscuit_os_memory.Slab.Object.{take_objects}
use biscuit_os_memory.Slab.Alloc.{
  first_slab, next_slab, refile, Refill, refill_round, refill_next, refill_loop,
}
use biscuit_os_memory.Slab.Refine.{pop_upto, length-pop_upto, Takes, take_objects-Takes}
use biscuit_os_memory.Slab.Balance.{Sound, spare_of, refile-Sound, refile-held}
use biscuit_os_memory.Slab.Listed.{listed, held, Listed, listed-unlink, listed-unlink_ne}

-- What the outer loop has got: a slab with a free object, or the news that there is none.
pub first_slab-cases :
    (num : ℕ) (spare : ℕ → ℕ) (xs ys : List ℕ) (l3 : Lists)
    → 0 < num
    → Listed num spare l3
    → l3.slabs_partial ≡ xs
    → l3.slabs_free ≡ ys
    → ((p : ℕ) × (b : Bool) × (first_slab xs ys l3 ≡ (some p, record l3 { free_touched = b }))
        × (0 < spare p)
        × (0 < listed p l3))
      ⊎ ((first_slab xs ys l3 ≡ (none, record l3 { free_touched = true })) × (held spare l3 ≡ 0))
unfolding first_slab
first_slab-cases num spare (x ∷ xs) ys l3 pos l ex ey =
    inl (x, l3.free_touched, refl, l.partial_some x there, omega (arith, there))
  where
    there : 0 < occurs x l3.slabs_partial
    there = rw ex (ground (arith, ==_self x))
first_slab-cases num spare [] (y ∷ ys) l3 pos l ex ey =
    inl (y, true, refl, omega (arith, l.free_all y there, pos), omega (arith, there))
  where
    there : 0 < occurs y l3.slabs_free
    there = rw ey (ground (arith, ==_self y))
first_slab-cases num spare [] [] l3 pos l ex ey =
    inr (refl, rw (ex, ey) (omega (arith, total-zero spare l3.slabs_full l.full_none)))

pop_upto-some :
    (count : ℕ) (xs : List ℕ) → 0 < count → 0 < length xs → 0 < length ((pop_upto count xs).0)
pop_upto-some zero xs wanted some_left = absurd (omega arith)
pop_upto-some (suc count) [] wanted some_left = absurd (omega arith)
pop_upto-some (suc count) (x ∷ xs) wanted some_left = omega arith

-- Where the memory of a slab starts.
abbrev pub base_of : Slab → ℕ
base_of slab = minus slab.s_mem slab.colouroff

refile-listed :
    (p : ℕ) (slab : Slab) (l3 : Lists)
    → listed p l3 ≡ 1
    → (q : ℕ) → listed q (refile p slab l3) ≡ listed q l3
unfolding refile
refile-listed p slab l3 on q = elim (Bool-cases (slab.free == bufctl_end)) [
  | inl e ↦ rw e (ground (arith, back))
  | inr e ↦ rw e (ground (arith, back))
]
  where
    back : listed q (unlink p l3) + occurs q (p ∷ []) ≡ listed q l3
    back = elim (==-cases p q) [
      | inl (t, e) ↦ rw⁻¹ e (ground (arith, listed-unlink p l3, on, ==_self p))
      | inr (t, e) ↦ rw t (omega (arith, listed-unlink_ne p q l3 t))
    ]

-- What the refill changes, and what it does not: the slabs stay in order, and each object that leaves
-- them is one more in the array.
pub record Keeps (num : ℕ) (stack : ℕ → List ℕ) (st : Refill) (stack' : ℕ → List ℕ) (st' : Refill)
    : Type 0 where
  pub sound : Sound num stack' st'.slabs st'.lists
  pub amount :
      held (spare_of stack') st'.lists + st'.ac.avail ≡ held (spare_of stack) st.lists + st.ac.avail
  pub free_objects : st'.lists.free_objects ≡ st.lists.free_objects
  pub shared : st'.lists.shared ≡ st.lists.shared
  pub same : (q : ℕ) → listed q st'.lists ≡ listed q st.lists
  pub base : (q : ℕ) → base_of (st'.slabs q) ≡ base_of (st.slabs q)

refile-rest :
    (p : ℕ) (slab : Slab) (l3 : Lists)
    → ((refile p slab l3).free_objects ≡ l3.free_objects) × ((refile p slab l3).shared ≡ l3.shared)
unfolding refile unlink
refile-rest p slab l3 = elim (Bool-cases (slab.free == bufctl_end)) [
  | inl e ↦ rw e (refl, refl)
  | inr e ↦ rw e (refl, refl)
]

-- A round takes at least one of the objects wanted.
pub refill_round-Keeps :
    (batchcount num size p : ℕ) (stack : ℕ → List ℕ) (st : Refill)
    → 0 < batchcount
    → Sound num stack st.slabs st.lists
    → 0 < listed p st.lists
    → 0 < length (stack p)
    → Keeps num stack st
        (update stack p ((pop_upto batchcount (stack p)).1))
        ((refill_round batchcount num size p st).1)
      × ((refill_round batchcount num size p st).0 < batchcount)
      × ((refill_round batchcount num size p st).0
            + ((refill_round batchcount num size p st).1).ac.avail
          ≡ batchcount + st.ac.avail)
unfolding refill_round
refill_round-Keeps batchcount num size p stack st wanted s on some_left = (
  record {
    sound =
        refile-Sound num stack st.slabs st.lists p ((r.1).0) left s t.stack
          (omega (arith, few, some_taken, part));
    amount = omega (
      arith,
      part,
      t.avail,
      refile-held num stack st.lists p ((r.1).0) left (omega (arith, on, s.lists.once p)),
    );
    free_objects = same.0;
    shared = same.1;
    same = refile-listed p ((r.1).0) st.lists (omega (arith, on, s.lists.once p));
    base = λ q. elim (==-cases p q) [
      | inl (e, e') ↦ rw e (cc (t.place, t.colour, e'))
      | inr (e, _) ↦ rw e refl
    ];
  },
  omega (arith, t.remaining, some_taken),
  omega (arith, t.remaining, t.avail),
)
  where
    r : ℕ × (Slab × ArrayCache)
    r = take_objects batchcount num size (st.slabs p) st.ac

    taken : List ℕ
    taken = (pop_upto batchcount (stack p)).0

    left : List ℕ
    left = (pop_upto batchcount (stack p)).1

    t : Takes num size batchcount (st.slabs p) st.ac taken left r
    t = take_objects-Takes batchcount num size (st.slabs p) st.ac (stack p) (s.stacks p on)

    part : length taken + length left ≡ length (stack p)
    part = length-pop_upto batchcount (stack p)

    some_taken : 0 < length taken
    some_taken = pop_upto-some batchcount (stack p) wanted some_left

    few : length (stack p) ≤ num
    few = omega (arith, (s.stacks p on).count)

    same :
        ((refile p ((r.1).0) st.lists).free_objects ≡ st.lists.free_objects)
        × ((refile p ((r.1).0) st.lists).shared ≡ st.lists.shared)
    same = refile-rest p ((r.1).0) st.lists

Keeps-trans :
    {num : ℕ} {stack stack' stack'' : ℕ → List ℕ} {st st' st'' : Refill}
    → Keeps num stack st stack' st'
    → Keeps num stack' st' stack'' st''
    → Keeps num stack st stack'' st''
Keeps-trans k k' = record {
  sound = k'.sound;
  amount = omega (arith, k.amount, k'.amount);
  free_objects = omega (arith, k.free_objects, k'.free_objects);
  shared = k'.shared ∙ k.shared;
  same = λ q. k'.same q ∙ k.same q;
  base = λ q. k'.base q ∙ k.base q;
}

pub Sound-touch :
    {num : ℕ} {stack : ℕ → List ℕ} {slabs : ℕ → Slab} {l3 : Lists} (b : Bool)
    → Sound num stack slabs l3
    → Sound num stack slabs (record l3 { free_touched = b })
Sound-touch b s = record {
  some_objects = s.some_objects;
  few_objects = s.few_objects;
  lists = record {
    once = s.lists.once;
    partial_some = s.lists.partial_some;
    partial_most = s.lists.partial_most;
    full_none = s.lists.full_none;
    free_all = s.lists.free_all;
  };
  stacks = s.stacks;
}

Keeps-touch :
    {num : ℕ} {stack : ℕ → List ℕ} {st : Refill} (b : Bool)
    → Sound num stack st.slabs st.lists
    → Keeps num stack st stack (record st { lists = record st.lists { free_touched = b } })
Keeps-touch b s = record {
  sound = Sound-touch b s;
  amount = refl;
  free_objects = refl;
  shared = refl;
  same = λ q. refl;
  base = λ q. refl;
}

-- What the refill from the slabs comes to: it has all the objects wanted, or the slabs have no more.
pub record Refilled (num batchcount : ℕ) (stack : ℕ → List ℕ) (st : Refill) (r : ℕ × Refill)
    : Type 0 where
  pub stack_after : ℕ → List ℕ
  pub keeps : Keeps num stack st stack_after (r.1)
  pub count : r.0 + (r.1).ac.avail ≡ batchcount + st.ac.avail
  pub finished : (r.0 ≡ 0) ⊎ (held (spare_of stack_after) (r.1).lists ≡ 0)

-- For slabs in order, as many rounds as objects are wanted are enough for the refill from the
-- slabs: it ends with all the objects wanted, or with no free object left in the slabs, the slabs
-- are in order, and each object that left them is one more in the array.
pub refill_loop-Refilled :
    (rounds batchcount num size : ℕ) (stack : ℕ → List ℕ) (st : Refill)
    → batchcount ≤ rounds
    → Sound num stack st.slabs st.lists
    → Refilled num batchcount stack st (refill_loop rounds batchcount num size st)
unfolding refill_loop refill_next next_slab
refill_loop-Refilled zero batchcount num size stack st le s = record {
  stack_after = stack;
  keeps = Keeps-touch st.lists.free_touched s;
  count = refl;
  finished = inl (omega arith);
}
refill_loop-Refilled (suc rounds) zero num size stack st le s = record {
  stack_after = stack;
  keeps = Keeps-touch st.lists.free_touched s;
  count = refl;
  finished = inl (omega arith);
}
refill_loop-Refilled (suc rounds) (suc batchcount) num size stack st le s =
    elim (first_slab-cases num (spare_of stack) st.lists.slabs_partial st.lists.slabs_free st.lists
      s.some_objects s.lists refl refl) [
        | inl (p, b, e, some_left, on) ↦
            let st' = record st { lists = record st.lists { free_touched = b } } in
            let k =
              refill_round-Keeps (suc batchcount) num size p stack st' (omega arith)
                (Sound-touch b s) on some_left in
            let r = refill_round (suc batchcount) num size p st' in
            let ih =
              refill_loop-Refilled rounds (r.0) num size
                (update stack p ((pop_upto (suc batchcount) (stack p)).1)) (r.1)
                (omega (arith, k.1)) (k.0).sound in
            rw (wanted, e)
              (record {
                stack_after = ih.stack_after;
                keeps = Keeps-trans (Keeps-touch b s) (Keeps-trans (k.0) ih.keeps);
                count = omega (arith, ih.count, k.2);
                finished = ih.finished;
              })
        | inr (e, empty) ↦
            rw (wanted, e)
              (record {
                stack_after = stack;
                keeps = Keeps-touch true s;
                count = refl;
                finished = inr empty;
              })
      ]
  where
    wanted : ltb 0 (suc batchcount) ≡ true
    wanted = ground arith
