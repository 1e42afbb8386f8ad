-- ===== src/Slab/PutBack.antt =====
-- How a slab of mm/slab.c finds its list again after an object of it was freed.
use biscuit_os_memory.Common.{
  ℕ, ◌+◌, ◌≤◌, ◌<◌, ◌≡◌, refl, ap, inl, inr, false, ◌==◌, ltb-cases, ==-cases, ==_self, List, [],
  ◌∷◌, length, contains, occurs, total-append, occurs-append, Returns, returns, Returns-bind, arith,
}
use biscuit_os_memory.Slab.{Lists, Cache, Memory, World, slab_limit, minus, unlink}
use biscuit_os_memory.Slab.Release.{fixup}
use biscuit_os_memory.Slab.Chain.{IsFree}
use biscuit_os_memory.Slab.Room.{length-Links}
use biscuit_os_memory.Slab.Pages.{Owns, Owns-Spares, Spares, slab_destroy-Returns}
use biscuit_os_memory.Slab.Listed.{
  listed, held, Listed, listed-unlink, listed-unlink_ne, Listed-partial, Listed-free, Listed-count,
  unlink-count, unlink-shared, occurs-snoc,
}
use biscuit_os_memory.Slab.Balance.{Sound, spare_of}

module _ {ℓ} {S : Type ℓ} where
  -- A cache with its memory: the slabs are in order and have their pages, and `free_objects` counts the
  -- free objects of the slabs, and `pending` more.
  pub record Kept (pending : ℕ) (stack : ℕ → List ℕ) (cachep : Cache) (m : Memory S) : Type 0 where
    pub sound : Sound cachep.num stack m.slabs cachep.lists
    pub pages : (p : ℕ) → 0 < listed p cachep.lists → Owns cachep.gfporder m p
    pub counted : cachep.lists.free_objects ≡ held (spare_of stack) cachep.lists + pending

  -- A slab `p` whose stack has just grown, before it goes back to a list.
  pub record Loose (p pending : ℕ) (stack : ℕ → List ℕ) (c : Cache) (m : Memory S) : Type 0 where
    pub sound : (q : ℕ) → 0 < listed q c.lists → IsFree c.num (m.slabs q) (stack q)
    pub lists : Listed c.num (spare_of stack) (unlink p c.lists)
    pub some_objects : 0 < c.num
    pub few_objects : c.num ≤ slab_limit
    pub on : listed p c.lists ≡ 1
    pub spare : 0 < length (stack p)
    pub pages : (q : ℕ) → 0 < listed q c.lists → Owns c.gfporder m q
    pub counted :
        c.lists.free_objects ≡ held (spare_of stack) (unlink p c.lists) + length (stack p) + pending

  -- What is so once the slab has its place again.
  pub record Fixed (pending : ℕ) (stack : ℕ → List ℕ) (c : Cache) (m : Memory S)
      (r : Cache × Memory S) : Type ℓ where
    pub kept : Kept pending stack (r.0) (r.1)
    pub num : (r.0).num ≡ c.num
    pub objsize : (r.0).objsize ≡ c.objsize
    pub ac : (r.0).ac ≡ c.ac
    pub shared : (r.0).lists.shared ≡ c.lists.shared
    pub page_slab : (r.1).page_slab ≡ m.page_slab
    pub slabs : (r.1).slabs ≡ m.slabs
    pub still :
        (q k : ℕ)
        → 0 < listed q c.lists
        → k < c.num
        → contains k (stack q) ≡ false
        → 0 < listed q (r.0).lists

  -- The slab goes to a list again.
  Fixed-put :
      (p pending : ℕ) (stack : ℕ → List ℕ) (c : Cache) (m : Memory S) (l3 : Lists)
      → Loose p pending stack c m
      → Listed c.num (spare_of stack) l3
      → held (spare_of stack) l3 ≡ held (spare_of stack) (unlink p c.lists) + length (stack p)
      → l3.free_objects ≡ c.lists.free_objects
      → l3.shared ≡ c.lists.shared
      → ((q : ℕ) → listed q l3 ≡ listed q c.lists)
      → Fixed pending stack c m (record c { lists = l3 }, m)
  Fixed-put p pending stack c m l3 loose lists held_now count shared same = record {
    kept = record {
      sound = record {
        some_objects = loose.some_objects;
        few_objects = loose.few_objects;
        lists = lists;
        stacks = λ q on. loose.sound q (omega (arith, on, same q));
      };
      pages = λ q on. loose.pages q (omega (arith, on, same q));
      counted = omega (arith, count, held_now, loose.counted);
    };
    num = refl;
    objsize = refl;
    ac = refl;
    shared = shared;
    page_slab = refl;
    slabs = refl;
    still = λ q k on lt missing. omega (arith, on, same q);
  }

  -- The slab is gone, with its memory.
  Fixed-gone :
      (p pending : ℕ) (stack : ℕ → List ℕ) (c : Cache) (m m' : Memory S)
      → Loose p pending stack c m
      → length (stack p) ≡ c.num
      → Spares p m m'
      → Fixed pending stack c m (
        record c {
          lists = record (unlink p c.lists) {
            free_objects = minus (unlink p c.lists).free_objects c.num;
          };
        },
        m',
      )
  Fixed-gone p pending stack c m m' loose full spares = record {
    kept = record {
      sound = record {
        some_objects = loose.some_objects;
        few_objects = loose.few_objects;
        lists = Listed-count (minus (unlink p c.lists).free_objects c.num) loose.lists;
        stacks = λ q on. rw spares.slabs (loose.sound q (was q on));
      };
      pages =
          λ q on. Owns-Spares c.gfporder p q m m' spares (other q on) (loose.pages q (was q on));
      counted = ground (arith, full, loose.counted, unlink-count p c.lists);
    };
    num = refl;
    objsize = refl;
    ac = refl;
    shared = unlink-shared p c.lists;
    page_slab = spares.page_slab;
    slabs = spares.slabs;
    still = λ q k on lt missing. elim (==-cases p q) [
      | inl (_, e) ↦ absurd (
          omega (
            arith,
            full,
            ap (λ t. length (stack t)) e,
            length-Links c.num (m.slabs q).bufctl (m.slabs q).free k (stack q)
                (loose.sound q on).links lt missing,
          ))
      | inr (e, _) ↦ omega (arith, on, listed-unlink_ne p q c.lists e)
    ];
  }
    where
      other : (q : ℕ) → 0 < listed q (unlink p c.lists) → (p == q) ≡ false
      other q on = elim (==-cases p q) [
        | inl (_, e) ↦ absurd (
            omega (
              arith,
              ap (λ t. listed t (unlink p c.lists)) e,
              on,
              listed-unlink p c.lists (omega (arith, loose.on)),
            ))
        | inr (e, _) ↦ e
      ]

      was : (q : ℕ) → 0 < listed q (unlink p c.lists) → 0 < listed q c.lists
      was q on = omega (arith, on, listed-unlink_ne p q c.lists (other q on))

  pub fixup-Fixed :
      (w : World S) (p pending : ℕ) (stack : ℕ → List ℕ) (c : Cache) (m : Memory S)
      → Loose p pending stack c m
      → Returns (Fixed pending stack c m) (fixup w p c m)
  unfolding fixup
  fixup-Fixed w p pending stack c m loose = elim (==-cases (m.slabs p).inuse 0) [
    | inr (e, used) ↦ rw e (
        returns (
          Fixed-put p pending stack c m _ loose
            (Listed-partial c.num (spare_of stack) p _ (unlink p c.lists) loose.lists off
              (occurs-snoc p (unlink p c.lists).slabs_partial) loose.spare
              (omega (arith, whole, used)))
            (omega (arith, total-append (spare_of stack) (unlink p c.lists).slabs_partial (p ∷ [])))
            (unlink-count p c.lists) (unlink-shared p c.lists)
            (λ q.
              omega (arith, back q, occurs-append q (unlink p c.lists).slabs_partial (p ∷ [])))))
    | inl (e, idle) ↦ rw e (elim (ltb-cases c.free_limit (unlink p c.lists).free_objects) [
      | inl (t, _) ↦ rw t (
          Returns-bind (slab_destroy-Returns w c p m (loose.pages p (omega (arith, loose.on))))
            (λ m' spares.
              returns
                (Fixed-gone p pending stack c m m' loose (omega (arith, whole, idle)) spares)))
      | inr (t, _) ↦ rw t (
          returns (
            Fixed-put p pending stack c m _ loose
              (Listed-free c.num (spare_of stack) p _ (unlink p c.lists) loose.lists off (λ q. refl)
                (omega (arith, whole, idle)))
              (omega arith) (unlink-count p c.lists) (unlink-shared p c.lists)
              (λ q. ground (arith, back q))))
    ])
  ]
    where
      off : listed p (unlink p c.lists) ≡ 0
      off = listed-unlink p c.lists (omega (arith, loose.on))

      whole : (m.slabs p).inuse + length (stack p) ≡ c.num
      whole = (loose.sound p (omega (arith, loose.on))).count

      back : (q : ℕ) → listed q (unlink p c.lists) + occurs q (p ∷ []) ≡ listed q c.lists
      back q = elim (==-cases p q) [
        | inl (t, e) ↦ rw⁻¹ e (ground (arith, off, loose.on, ==_self p))
        | inr (t, e) ↦ rw t (omega (arith, listed-unlink_ne p q c.lists t))
      ]
