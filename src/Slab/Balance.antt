-- ===== src/Slab/Balance.antt =====
-- A cache of mm/slab.c in order: its lists, the chains of its slabs, and a slab that changes lists.
use biscuit_os_memory.Common.{
  ℕ, ◌+◌, ◌≤◌, ◌<◌, ◌≡◌, refl, ◌∙◌, ◌⊎◌, inl, inr, true, false, ◌==◌, ==-cases, Bool-cases, ==_self,
  update, List, [], ◌∷◌, length, arith,
}
use biscuit_os_memory.Slab.{Slab, Lists, bufctl_end, slab_limit, unlink}
use biscuit_os_memory.Slab.Alloc.{refile}
use biscuit_os_memory.Slab.Chain.{IsFree}
use biscuit_os_memory.Slab.Listed.{
  listed, held, Listed, listed-unlink, listed-unlink_ne, held-unlink, held-update, Listed-unlink,
  Listed-partial, Listed-full,
}

-- The number of free objects of a slab with the stack `stack p`.
abbrev pub spare_of : (ℕ → List ℕ) → ℕ → ℕ
spare_of stack p = length (stack p)

-- The slabs of a cache in order: `stack p` are the free objects of slab `p`.
pub record Sound (num : ℕ) (stack : ℕ → List ℕ) (slabs : ℕ → Slab) (l3 : Lists) : Type 0 where
  pub some_objects : 0 < num
  pub few_objects : num ≤ slab_limit
  pub lists : Listed num (spare_of stack) l3
  pub stacks : (p : ℕ) → 0 < listed p l3 → IsFree num (slabs p) (stack p)

-- The chain of a slab is at its end just when it has no free object.
pub ends :
    (num : ℕ) (slab : Slab) (xs : List ℕ)
    → num ≤ slab_limit
    → IsFree num slab xs
    → (((slab.free == bufctl_end) ≡ true) × (length xs ≡ 0))
      ⊎ (((slab.free == bufctl_end) ≡ false) × (0 < length xs))
ends num slab [] small free = inl (ground (arith, free.links), refl)
ends num slab (x ∷ xs) small free = inr (ground (arith, free.links.0, free.links.1.0), omega arith)

-- One slab has changed and is off the lists.
pub stacks-update :
    (num : ℕ) (stack : ℕ → List ℕ) (slabs : ℕ → Slab) (p : ℕ) (slab : Slab) (xs : List ℕ)
    → IsFree num slab xs
    → (q : ℕ) → ((p == q) ≡ false → IsFree num (slabs q) (stack q))
    → IsFree num (update slabs p slab q) (update stack p xs q)
stacks-update num stack slabs p slab xs free q others = elim (==-cases p q) [
  | inl (e, _) ↦ rw e free
  | inr (e, _) ↦ rw e (others e)
]

spare-update :
    (stack : ℕ → List ℕ) (p : ℕ) (xs : List ℕ)
    → spare_of (update stack p xs) ≡ update (spare_of stack) p (length xs)
spare-update stack p xs = λ t q. at q t
  where
    at : (q : ℕ) → spare_of (update stack p xs) q ≡ update (spare_of stack) p (length xs) q
    at q = ground arith

-- A slab with new contents, once the lists fit it and have the other slabs as before.
pub Sound-move :
    (num : ℕ) (stack : ℕ → List ℕ) (slabs : ℕ → Slab) (l3 l3' : Lists) (p : ℕ) (slab : Slab)
    (xs : List ℕ)
    → Sound num stack slabs l3
    → IsFree num slab xs
    → Listed num (spare_of (update stack p xs)) l3'
    → ((q : ℕ) → (p == q) ≡ false → listed q l3' ≡ listed q l3)
    → Sound num (update stack p xs) (update slabs p slab) l3'
Sound-move num stack slabs l3 l3' p slab xs s free lists others = record {
  some_objects = s.some_objects;
  few_objects = s.few_objects;
  lists = lists;
  stacks = λ q on.
      stacks-update num stack slabs p slab xs free q
        (λ e. s.stacks q (omega (arith, others q e, on)));
}

pub Listed-gone :
    (num : ℕ) (stack : ℕ → List ℕ) (l3 : Lists) (p : ℕ) (xs : List ℕ)
    → Listed num (spare_of stack) l3
    → Listed num (spare_of (update stack p xs)) (unlink p l3)
Listed-gone num stack l3 p xs l =
    rw (spare-update stack p xs) (Listed-unlink num (spare_of stack) p (length xs) l3 l)

pub spare-here :
    (stack : ℕ → List ℕ) (p : ℕ) (xs : List ℕ) → spare_of (update stack p xs) p ≡ length xs
spare-here stack p xs = ground (arith, ==_self p)

-- A slab from which objects were taken goes to the list that fits it.
pub refile-Sound :
    (num : ℕ) (stack : ℕ → List ℕ) (slabs : ℕ → Slab) (l3 : Lists) (p : ℕ) (slab : Slab)
    (xs : List ℕ)
    → Sound num stack slabs l3
    → IsFree num slab xs
    → length xs < num
    → Sound num (update stack p xs) (update slabs p slab) (refile p slab l3)
unfolding refile
refile-Sound num stack slabs l3 p slab xs s free used =
    let gone = Listed-gone num stack l3 p xs s.lists in
    let off = listed-unlink p l3 (s.lists.once p) in
    let here = spare-here stack p xs in
    elim (ends num slab xs s.few_objects free) [
      | inl (e, empty) ↦ rw e (
          Sound-move num stack slabs l3 _ p slab xs s free
            (Listed-full num (spare_of (update stack p xs)) p (unlink p l3) gone off (here ∙ empty))
            (λ q e'. ground (arith, listed-unlink_ne p q l3 e')))
      | inr (e, some_left) ↦ rw e (
          Sound-move num stack slabs l3 _ p slab xs s free
            (Listed-partial num (spare_of (update stack p xs)) p (p ∷ (unlink p l3).slabs_partial)
              (unlink p l3) gone off (λ q. refl) (omega (arith, here)) (omega (arith, here)))
            (λ q e'. ground (arith, listed-unlink_ne p q l3 e')))
    ]

-- The objects that are left of the slab are the only ones of it that still count.
pub held-gone :
    (stack : ℕ → List ℕ) (l3 : Lists) (p : ℕ) (xs : List ℕ)
    → listed p l3 ≡ 1
    → held (spare_of (update stack p xs)) (unlink p l3) + length (stack p)
      ≡ held (spare_of stack) l3
held-gone stack l3 p xs on = rw (spare-update stack p xs) (
    omega (
      arith,
      held-update (spare_of stack) p (length xs) (unlink p l3)
          (listed-unlink p l3 (omega (arith, on))),
      held-unlink (spare_of stack) p l3 on,
    ))

pub refile-held :
    (num : ℕ) (stack : ℕ → List ℕ) (l3 : Lists) (p : ℕ) (slab : Slab) (xs : List ℕ)
    → listed p l3 ≡ 1
    → held (spare_of (update stack p xs)) (refile p slab l3) + length (stack p)
      ≡ held (spare_of stack) l3 + length xs
unfolding refile
refile-held num stack l3 p slab xs on = elim (Bool-cases (slab.free == bufctl_end)) [
  | inl e ↦ rw e (omega (arith, held-gone stack l3 p xs on, spare-here stack p xs))
  | inr e ↦ rw e (omega (arith, held-gone stack l3 p xs on, spare-here stack p xs))
]
