-- ===== src/Slab/FreeBlock.antt =====
-- The return of objects to the slabs of mm/slab.c, and what it keeps.
use biscuit_os_memory.Common.{
  ℕ, zero, suc, ◌+◌, ◌<◌, ◌≡◌, ◌≢◌, refl, ap, ◌∙◌, inl, inr, false, ==-cases, update, List, [], ◌∷◌,
  ◌++◌, append-nil, length, contains, Option, Returns, returns, Returns-bind, Returns-mono, arith,
}
use biscuit_os_memory.Slab.{ArrayCache, Slab, Cache, Memory, World, virt_to_page}
use biscuit_os_memory.Slab.Object.{object_number, put_object}
use biscuit_os_memory.Slab.Release.{entries, free_object, free_objects_loop, free_block}
use biscuit_os_memory.Slab.Chain.{IsFree, put_object-IsFree}
use biscuit_os_memory.Slab.Room.{length-Links}
use biscuit_os_memory.Slab.Pages.{Owns}
use biscuit_os_memory.Slab.Listed.{listed, Listed-count}
use biscuit_os_memory.Slab.PutBack.{Kept, Loose, fixup-Fixed}
use biscuit_os_memory.Slab.Balance.{Listed-gone, held-gone, spare-here, stacks-update}

-- The slab of an object, and the number of the object in it.
abbrev pub slab_of {ℓ} : {S : Type ℓ} → Memory S → ℕ → ℕ
slab_of m objp = m.page_slab (virt_to_page objp)

abbrev pub number_of {ℓ} : {S : Type ℓ} → Cache → Memory S → ℕ → ℕ
number_of c m objp = object_number c.objsize (m.slabs (slab_of m objp)) objp

-- An object that is out of its slab: the slab is on a list, and the object is one of those of the slab
-- that are not on its chain.
pub record Out {ℓ} {S : Type ℓ} (c : Cache) (m : Memory S) (stack : ℕ → List ℕ) (objp : ℕ)
    : Type 0 where
  pub on_list : 0 < listed (slab_of m objp) c.lists
  pub object : number_of c m objp < c.num
  pub missing : contains (number_of c m objp) (stack (slab_of m objp)) ≡ false

-- The object is none of the others.
abbrev pub Apart {ℓ} : {S : Type ℓ} → Cache → Memory S → ℕ → List ℕ → Type 0
Apart c m objp [] = Unit
Apart c m objp (other ∷ others) =
    (slab_of m objp ≡ slab_of m other → number_of c m objp ≢ number_of c m other)
    × Apart c m objp others

-- Objects that are all out, no two of them the same.
abbrev pub AllOut {ℓ} : {S : Type ℓ} → Cache → Memory S → (ℕ → List ℕ) → List ℕ → Type 0
AllOut c m stack [] = Unit
AllOut c m stack (objp ∷ objps) =
    Out c m stack objp × (Apart c m objp objps × AllOut c m stack objps)

place-put :
    (slabs : ℕ → Slab) (p q objnr : ℕ)
    → (update slabs p (put_object (slabs p) objnr) q).s_mem ≡ (slabs q).s_mem
unfolding put_object
place-put slabs p q objnr = elim (==-cases p q) [
  | inl (e, e') ↦ rw e (ap (λ t. (slabs t).s_mem) e')
  | inr (e, _) ↦ rw e refl
]

contains-apart :
    (a k : ℕ) (xs : List ℕ) → a ≢ k → contains k xs ≡ false → contains k (a ∷ xs) ≡ false
contains-apart a k xs apart missing = ground arith

length-entries : (count from : ℕ) (entry : ℕ → ℕ) → length (entries count from entry) ≡ count
unfolding entries
length-entries zero from entry = refl
length-entries (suc count) from entry = omega (arith, length-entries count (from + 1) entry)

module _ {ℓ} {S : Type ℓ} where
  -- What the return of one object leaves as it was, with the object `objnr` of slab `p` put back.
  pub record After (p objnr : ℕ) (stack : ℕ → List ℕ) (c : Cache) (m : Memory S) (pending : ℕ)
      (r : Cache × Memory S) : Type ℓ where
    pub kept : Kept pending (update stack p (objnr ∷ stack p)) (r.0) (r.1)
    pub num : (r.0).num ≡ c.num
    pub objsize : (r.0).objsize ≡ c.objsize
    pub ac : (r.0).ac ≡ c.ac
    pub shared : (r.0).lists.shared ≡ c.lists.shared
    pub page_slab : (r.1).page_slab ≡ m.page_slab
    pub places : (q : ℕ) → ((r.1).slabs q).s_mem ≡ (m.slabs q).s_mem
    pub still :
        (q k : ℕ)
        → 0 < listed q c.lists
        → k < c.num
        → contains k (update stack p (objnr ∷ stack p) q) ≡ false
        → 0 < listed q (r.0).lists

  -- The memory with one slab changed, where its object area stays.
  Kept-pending :
      {n n' : ℕ} {stack : ℕ → List ℕ} {c : Cache} {m : Memory S} (e : n ≡ n')
      → Kept n stack c m
      → Kept n' stack c m
  Kept-pending e kept = record {
    sound = kept.sound;
    pages = kept.pages;
    counted = omega (arith, e, kept.counted);
  }

  Owns-put :
      (order : ℕ) (m : Memory S) (p q objnr : ℕ)
      → Owns order m q
      → Owns order (record m { slabs = update m.slabs p (put_object (m.slabs p) objnr) }) q
  unfolding put_object
  Owns-put order m p q objnr own = elim (==-cases p q) [
    | inl (e, e') ↦ record {
      flagged = λ k lt. rw (e, e') (own.flagged k lt);
      named = λ k lt. rw (e, e') (own.named k lt);
    }
    | inr (e, _) ↦ record {
      flagged = λ k lt. rw e (own.flagged k lt);
      named = λ k lt. rw e (own.named k lt);
    }
  ]

  -- An object that is out goes back to its slab.
  pub free_object-After :
      (w : World S) (pending : ℕ) (stack : ℕ → List ℕ) (c : Cache) (m : Memory S) (objp : ℕ)
      → Kept (suc pending) stack c m
      → Out c m stack objp
      → Returns
          (After
            (m.page_slab (virt_to_page objp))
            (object_number c.objsize (m.slabs (m.page_slab (virt_to_page objp))) objp)
            stack
            c
            m
            pending)
          (free_object w c objp m)
  unfolding free_object
  free_object-After w pending stack c m objp kept out =
      Returns-mono (fixup-Fixed w p pending (update stack p (objnr ∷ stack p)) c m1 loose) (λ r f.
        record {
          kept = f.kept;
          num = f.num;
          objsize = f.objsize;
          ac = f.ac;
          shared = f.shared;
          page_slab = f.page_slab;
          places = λ q. rw f.slabs (same_place q);
          still = f.still;
        })
    where
      p : ℕ
      p = m.page_slab (virt_to_page objp)

      objnr : ℕ
      objnr = object_number c.objsize (m.slabs p) objp

      m1 : Memory S
      m1 = record m { slabs = update m.slabs p (put_object (m.slabs p) objnr) }

      same_place : (q : ℕ) → (m1.slabs q).s_mem ≡ (m.slabs q).s_mem
      same_place q = place-put m.slabs p q objnr

      chain : IsFree c.num (m.slabs p) (stack p)
      chain = kept.sound.stacks p out.on_list

      loose : Loose p pending (update stack p (objnr ∷ stack p)) c m1
      loose = record {
        sound = λ q on.
            stacks-update c.num stack m.slabs p (put_object (m.slabs p) objnr) (objnr ∷ stack p)
              (put_object-IsFree c.num (m.slabs p) objnr (stack p) out.object out.missing
                (omega (
                  arith,
                  chain.count,
                  length-Links c.num (m.slabs p).bufctl (m.slabs p).free objnr (stack p) chain.links
                      out.object out.missing,
                ))
                chain)
              q (λ e. kept.sound.stacks q on);
        lists = Listed-gone c.num stack c.lists p (objnr ∷ stack p) kept.sound.lists;
        some_objects = kept.sound.some_objects;
        few_objects = kept.sound.few_objects;
        on = omega (arith, out.on_list, kept.sound.lists.once p);
        spare = omega (arith, spare-here stack p (objnr ∷ stack p));
        pages = λ q on. Owns-put c.gfporder m p q objnr (kept.pages q on);
        counted = omega (
          arith,
          kept.counted,
          spare-here stack p (objnr ∷ stack p),
          held-gone stack c.lists p (objnr ∷ stack p)
              (omega (arith, out.on_list, kept.sound.lists.once p)),
        );
      }

  number_of-After :
      {p objnr pending : ℕ} {stack : ℕ → List ℕ} {c : Cache} {m : Memory S} {r : Cache × Memory S}
      → After p objnr stack c m pending r
      → (objp : ℕ) → number_of (r.0) (r.1) objp ≡ number_of c m objp
  unfolding object_number
  number_of-After {r} a objp = rw (a.objsize, a.page_slab, a.places _) refl

  Out-After :
      (pending objp other : ℕ) (stack : ℕ → List ℕ) (c : Cache) (m : Memory S)
      (r : Cache × Memory S)
      → After (slab_of m objp) (number_of c m objp) stack c m pending r
      → (slab_of m objp ≡ slab_of m other → number_of c m objp ≢ number_of c m other)
      → Out c m stack other
      → Out
          (r.0)
          (r.1)
          (update stack (slab_of m objp) (number_of c m objp ∷ stack (slab_of m objp)))
          other
  Out-After pending objp other stack c m r a apart out = record {
    on_list =
        rw a.page_slab
          (a.still (slab_of m other) (number_of c m other) out.on_list out.object missing);
    object = rw (number_of-After a other, a.num) out.object;
    missing = rw (number_of-After a other, a.page_slab) missing;
  }
    where
      missing :
          contains (number_of c m other) (
            update stack
              (slab_of m objp)
              (number_of c m objp ∷ stack (slab_of m objp))
              (slab_of m other))
          ≡ false
      missing = elim (==-cases (slab_of m objp) (slab_of m other)) [
        | inl (e, same) ↦ rw e (
            contains-apart (number_of c m objp) (number_of c m other) (stack (slab_of m objp))
              (apart same) (ap (λ t. contains (number_of c m other) (stack t)) same ∙ out.missing))
        | inr (e, _) ↦ rw e out.missing
      ]

  Apart-After :
      (p objnr pending objp : ℕ) (others : List ℕ) (stack : ℕ → List ℕ) (c : Cache) (m : Memory S)
      (r : Cache × Memory S)
      → After p objnr stack c m pending r
      → Apart c m objp others
      → Apart (r.0) (r.1) objp others
  Apart-After p objnr pending objp [] stack c m r a apart = tt
  Apart-After p objnr pending objp (other ∷ others) stack c m r a (this, rest) = (
    (λ same. rw (number_of-After a objp, number_of-After a other) (this (rw⁻¹ a.page_slab same))),
    Apart-After p objnr pending objp others stack c m r a rest,
  )

  AllOut-After :
      (pending objp : ℕ) (others : List ℕ) (stack : ℕ → List ℕ) (c : Cache) (m : Memory S)
      (r : Cache × Memory S)
      → After (slab_of m objp) (number_of c m objp) stack c m pending r
      → Apart c m objp others
      → AllOut c m stack others
      → AllOut
          (r.0)
          (r.1)
          (update stack (slab_of m objp) (number_of c m objp ∷ stack (slab_of m objp)))
          others
  AllOut-After pending objp [] stack c m r a apart out = tt
  AllOut-After pending objp (other ∷ others) stack c m r a (here, apart) (out, (apart', rest)) = (
    Out-After pending objp other stack c m r a here out,
    (
      Apart-After (slab_of m objp) (number_of c m objp) pending other others stack c m r a apart',
      AllOut-After pending objp others stack c m r a apart rest,
    ),
  )

  -- What else is in the cache does not matter.
  pub AllOut-arrays :
      (ac : ArrayCache) (shared : Option ArrayCache) (objps : List ℕ) (stack : ℕ → List ℕ)
      (c : Cache) (m : Memory S)
      → AllOut c m stack objps
      → AllOut (record c { ac = ac; lists = record c.lists { shared = shared } }) m stack objps
  AllOut-arrays ac shared [] stack c m out = tt
  AllOut-arrays ac shared (objp ∷ objps) stack c m (out, (apart, rest)) = (
    record { on_list = out.on_list; object = out.object; missing = out.missing },
    (apart_too objps apart, AllOut-arrays ac shared objps stack c m rest),
  )
    where
      apart_too :
          (others : List ℕ)
          → Apart c m objp others
          → Apart (record c { ac = ac; lists = record c.lists { shared = shared } }) m objp others
      apart_too [] a = tt
      apart_too (other ∷ others) (this, rest) = (this, apart_too others rest)

  pub AllOut-behind :
      (xs ys : List ℕ) (stack : ℕ → List ℕ) (c : Cache) (m : Memory S)
      → AllOut c m stack (xs ++ ys)
      → AllOut c m stack ys
  AllOut-behind [] ys stack c m out = out
  AllOut-behind (x ∷ xs) ys stack c m (out, (apart, rest)) = AllOut-behind xs ys stack c m rest

  -- What the return of objects leaves: a cache that is in order.
  pub record Settled (pending : ℕ) (c : Cache) (r : Cache × Memory S) : Type ℓ where
    pub stack_after : ℕ → List ℕ
    pub kept : Kept pending stack_after (r.0) (r.1)
    pub num : (r.0).num ≡ c.num
    pub objsize : (r.0).objsize ≡ c.objsize
    pub ac : (r.0).ac ≡ c.ac
    pub shared : (r.0).lists.shared ≡ c.lists.shared

  -- Besides, the other objects are still out of their slabs.
  pub record SettledWith (pending : ℕ) (others : List ℕ) (c : Cache) (r : Cache × Memory S)
      : Type ℓ where
    pub settled : Settled pending c r
    pub out : AllOut (r.0) (r.1) settled.stack_after others

  free_objects_loop-SettledWith :
      (w : World S) (pending : ℕ) (objps others : List ℕ) (stack : ℕ → List ℕ) (c : Cache)
      (m : Memory S)
      → Kept (length objps + pending) stack c m
      → AllOut c m stack (objps ++ others)
      → Returns (SettledWith pending others c) (free_objects_loop w objps c m)
  unfolding free_objects_loop
  free_objects_loop-SettledWith w pending [] others stack c m kept out = returns (record {
    settled = record {
      stack_after = stack;
      kept = Kept-pending (omega arith) kept;
      num = refl;
      objsize = refl;
      ac = refl;
      shared = refl;
    };
    out = out;
  })
  free_objects_loop-SettledWith w pending (objp ∷ objps) others stack c m kept
        (out, (apart, rest)) =
      Returns-bind
        (free_object-After w (length objps + pending) stack c m objp
          (Kept-pending (omega arith) kept) out)
        (λ r a.
          Returns-mono
            (free_objects_loop-SettledWith w pending objps others
              (update stack (slab_of m objp) (number_of c m objp ∷ stack (slab_of m objp))) (r.0)
              (r.1) a.kept
              (AllOut-After (length objps + pending) objp (objps ++ others) stack c m r a apart
                rest))
            (λ q f. record {
              settled = record {
                stack_after = f.settled.stack_after;
                kept = f.settled.kept;
                num = f.settled.num ∙ a.num;
                objsize = f.settled.objsize ∙ a.objsize;
                ac = f.settled.ac ∙ a.ac;
                shared = f.settled.shared ∙ a.shared;
              };
              out = f.out;
            }))

  Apart-count :
      (n objp : ℕ) (others : List ℕ) (c : Cache) (m : Memory S)
      → Apart c m objp others
      → Apart (record c { lists = record c.lists { free_objects = n } }) m objp others
  Apart-count n objp [] c m apart = tt
  Apart-count n objp (other ∷ others) c m (this, rest) = (this, Apart-count n objp others c m rest)

  AllOut-count :
      (n : ℕ) (objps : List ℕ) (stack : ℕ → List ℕ) (c : Cache) (m : Memory S)
      → AllOut c m stack objps
      → AllOut (record c { lists = record c.lists { free_objects = n } }) m stack objps
  AllOut-count n [] stack c m out = tt
  AllOut-count n (objp ∷ objps) stack c m (out, (apart, rest)) = (
    record { on_list = out.on_list; object = out.object; missing = out.missing },
    (Apart-count n objp objps c m apart, AllOut-count n objps stack c m rest),
  )

  pub free_block-SettledWith :
      (w : World S) (objpp : ℕ → ℕ) (nr_objects : ℕ) (others : List ℕ) (stack : ℕ → List ℕ)
      (c : Cache) (m : Memory S)
      → Kept 0 stack c m
      → AllOut c m stack (entries nr_objects 0 objpp ++ others)
      → Returns (SettledWith 0 others c) (free_block w c objpp nr_objects m)
  unfolding free_block
  free_block-SettledWith w objpp nr_objects others stack c m kept out =
      Returns-mono
        (free_objects_loop-SettledWith w 0 (entries nr_objects 0 objpp) others stack c' m
          (record {
            sound = record {
              some_objects = kept.sound.some_objects;
              few_objects = kept.sound.few_objects;
              lists = Listed-count (c.lists.free_objects + nr_objects) kept.sound.lists;
              stacks = kept.sound.stacks;
            };
            pages = kept.pages;
            counted = omega (arith, kept.counted, length-entries nr_objects 0 objpp);
          })
          (AllOut-count (c.lists.free_objects + nr_objects) (entries nr_objects 0 objpp ++ others)
            stack c m out))
        (λ r f. record {
          settled = record {
            stack_after = f.settled.stack_after;
            kept = f.settled.kept;
            num = f.settled.num;
            objsize = f.settled.objsize;
            ac = f.settled.ac;
            shared = f.settled.shared;
          };
          out = f.out;
        })
    where
      c' : Cache
      c' = record c { lists = record c.lists { free_objects = c.lists.free_objects + nr_objects } }

  -- For a cache in order, giving back objects that are out of their slabs and all different
  -- returns without a panic, also when slabs become free and are destroyed: every slab that is
  -- left is on one list, the one that fits the number of its free objects, its chain has each of
  -- them once, its pages are its own, and free_objects counts them all.
  pub free_block-Settled :
      (w : World S) (objpp : ℕ → ℕ) (nr_objects : ℕ) (stack : ℕ → List ℕ) (c : Cache) (m : Memory S)
      → Kept 0 stack c m
      → AllOut c m stack (entries nr_objects 0 objpp)
      → Returns (Settled 0 c) (free_block w c objpp nr_objects m)
  free_block-Settled w objpp nr_objects stack c m kept out =
      Returns-mono
        (free_block-SettledWith w objpp nr_objects [] stack c m kept
          (rw (append-nil (entries nr_objects 0 objpp)) out))
        (λ r f. f.settled)
