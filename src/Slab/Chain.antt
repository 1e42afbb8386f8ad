-- ===== src/Slab/Chain.antt =====
-- The chain of free objects of a slab of mm/slab.c as a list.
use biscuit_os_memory.Common.{
  ℕ, zero, suc, ◌+◌, ◌-◌, ◌≤◌, ◌<◌, ◌≡◌, refl, ap, ◌∙◌, inl, inr, false, ==-cases, ==_self, update,
  List, [], ◌∷◌, length, contains, arith,
}
use biscuit_os_memory.Slab.{Slab, bufctl_end, slab_limit, minus}
use biscuit_os_memory.Slab.Object.{init_chain, init_objs, take_object, put_object}

-- The objects that follow one another in `bufctl` from `free` on, each one once.
abbrev pub Links : ℕ → (ℕ → ℕ) → ℕ → List ℕ → Type 0
Links num bufctl free [] = free ≡ bufctl_end
Links num bufctl free (x ∷ xs) =
    (free ≡ x) × ((x < num) × ((contains x xs ≡ false) × Links num bufctl (bufctl x) xs))

-- The free objects of a slab of `num` objects are `xs`, in the order of its chain.
pub record IsFree (num : ℕ) (slab : Slab) (xs : List ℕ) : Type 0 where
  pub links : Links num slab.bufctl slab.free xs
  pub count : slab.inuse + length xs ≡ num

-- A change at an object off the chain leaves the chain.
pub Links-update :
    (num : ℕ) (bufctl : ℕ → ℕ) (free k v : ℕ) (xs : List ℕ)
    → contains k xs ≡ false
    → Links num bufctl free xs
    → Links num (update bufctl k v) free xs
Links-update num bufctl free k v [] h l = l
Links-update num bufctl free k v (x ∷ xs) h (e, (lt, (new, rest))) = (
  e,
  (
    lt,
    (
      new,
      elim (==-cases k x) [
        | inl (_, e') ↦ absurd (ground arith)
        | inr (e', _) ↦ rw e' (Links-update num bufctl (bufctl x) k v xs (ground arith) rest)
      ],
    ),
  ),
)

pub take_object-IsFree :
    (num : ℕ) (slab : Slab) (x : ℕ) (xs : List ℕ)
    → IsFree num slab (x ∷ xs)
    → IsFree num (take_object slab) xs
unfolding take_object
take_object-IsFree num slab x xs free = record {
  links = rw (free.links.0) (free.links.1.1.1);
  count = omega (arith, free.count);
}

pub put_object-IsFree :
    (num : ℕ) (slab : Slab) (objnr : ℕ) (xs : List ℕ)
    → objnr < num
    → contains objnr xs ≡ false
    → 0 < slab.inuse
    → IsFree num slab xs
    → IsFree num (put_object slab objnr) (objnr ∷ xs)
unfolding put_object
put_object-IsFree num slab objnr xs lt new used free = record {
  links = (
    refl,
    (
      lt,
      (
        new,
        rw (==_self objnr)
            (Links-update num slab.bufctl slab.free objnr slab.free xs new free.links),
      ),
    ),
  );
  count = ground (arith, free.count);
}

-- from, from + 1, ..., n numbers in all
abbrev pub count_up : ℕ → ℕ → List ℕ
count_up from zero = []
count_up from (suc n) = from ∷ count_up (from + 1) n

count_up-contains : (k from n : ℕ) → k < from → contains k (count_up from n) ≡ false
count_up-contains k from zero lt = refl
count_up-contains k from (suc n) lt = ground (arith, count_up-contains k (from + 1) n)

length-count_up : (from n : ℕ) → length (count_up from n) ≡ n
length-count_up from zero = refl
length-count_up from (suc n) = omega (arith, length-count_up (from + 1) n)

init_chain-below :
    (rounds i : ℕ) (bufctl : ℕ → ℕ) (k : ℕ) → k < i → init_chain rounds i bufctl k ≡ bufctl k
unfolding init_chain
init_chain-below zero i bufctl k lt = refl
init_chain-below (suc rounds) i bufctl k lt =
    ground (arith, init_chain-below rounds (i + 1) (update bufctl i (i + 1)) k (omega arith))

init_chain-at :
    (rounds i : ℕ) (bufctl : ℕ → ℕ) (k : ℕ)
    → i ≤ k
    → k < i + rounds
    → init_chain rounds i bufctl k ≡ k + 1
unfolding init_chain
init_chain-at zero i bufctl k le lt = absurd (omega arith)
init_chain-at (suc rounds) i bufctl k le lt = elim (==-cases i k) [
  | inl (e, e') ↦
      ground (arith, init_chain-below rounds (i + 1) (update bufctl i (i + 1)) k (omega arith))
  | inr (e, e') ↦
      init_chain-at rounds (i + 1) (update bufctl i (i + 1)) k (omega arith) (omega arith)
]

-- Where each object names the next one and the last none, the chain has them all.
linked_from :
    (num : ℕ) (bufctl : ℕ → ℕ) (n from : ℕ)
    → from + suc n ≡ num
    → ((k : ℕ) → k + 1 < num → bufctl k ≡ k + 1)
    → bufctl (num - 1) ≡ bufctl_end
    → Links num bufctl from (count_up from (suc n))
linked_from num bufctl zero from e next last = (refl, (omega arith, (refl, ap bufctl here ∙ last)))
  where
    here : from ≡ num - 1
    here = omega arith
linked_from num bufctl (suc n) from e next last = (
  refl,
  (
    omega arith,
    (
      count_up-contains from (from + 1) (suc n) (omega arith),
      rw (next from (omega arith)) (linked_from num bufctl n (from + 1) (omega arith) next last),
    ),
  ),
)

pub init_objs-IsFree :
    (num : ℕ) (slab : Slab)
    → 0 < num
    → num ≤ slab_limit
    → slab.inuse ≡ 0
    → IsFree num (init_objs num slab) (count_up 0 num)
unfolding init_objs
init_objs-IsFree zero slab pos le none = absurd (omega arith)
init_objs-IsFree (suc n) slab pos le none = record {
  links =
      linked_from (suc n) (update (init_chain (suc n) 0 slab.bufctl) (minus (suc n) 1) bufctl_end) n
        0 (omega arith)
        (λ k lt. ground (arith, init_chain-at (suc n) 0 slab.bufctl k (omega arith) (omega arith)))
        (ground arith);
  count = omega (arith, none, length-count_up 0 (suc n));
}
