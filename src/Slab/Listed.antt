-- ===== src/Slab/Listed.antt =====
-- The three lists of slabs of a cache of mm/slab.c, with the number of free objects of each slab.
use biscuit_os_memory.Common.{
  ℕ, ◌+◌, ◌≤◌, ◌<◌, ◌≡◌, refl, inl, inr, false, ◌==◌, ==-cases, update, List, [], ◌∷◌, ◌++◌, occurs,
  total, occurs-append, occurs-erase, occurs-erase_ne, total-erase, total-update, arith,
}
use biscuit_os_memory.Slab.{Lists, unlink}

-- How often a slab is on a list of the cache.
abbrev pub listed : ℕ → Lists → ℕ
listed p l3 = occurs p l3.slabs_partial + occurs p l3.slabs_full + occurs p l3.slabs_free

-- The free objects of the slabs on the lists.
abbrev pub held : (ℕ → ℕ) → Lists → ℕ
held spare l3 = total spare l3.slabs_partial + total spare l3.slabs_full + total spare l3.slabs_free

-- Each slab is on one list at most, and on the list that fits the number of its free objects.
pub record Listed (num : ℕ) (spare : ℕ → ℕ) (l3 : Lists) : Type 0 where
  pub once : (p : ℕ) → listed p l3 ≤ 1
  pub partial_some : (p : ℕ) → 0 < occurs p l3.slabs_partial → 0 < spare p
  pub partial_most : (p : ℕ) → 0 < occurs p l3.slabs_partial → spare p < num
  pub full_none : (p : ℕ) → 0 < occurs p l3.slabs_full → spare p ≡ 0
  pub free_all : (p : ℕ) → 0 < occurs p l3.slabs_free → spare p ≡ num

pub listed-unlink : (p : ℕ) (l3 : Lists) → listed p l3 ≤ 1 → listed p (unlink p l3) ≡ 0
unfolding unlink
listed-unlink p l3 once = omega (
  arith,
  occurs-erase p l3.slabs_partial,
  occurs-erase p l3.slabs_full,
  occurs-erase p l3.slabs_free,
)

pub listed-unlink_ne :
    (p q : ℕ) (l3 : Lists) → (p == q) ≡ false → listed q (unlink p l3) ≡ listed q l3
unfolding unlink
listed-unlink_ne p q l3 e = omega (
  arith,
  occurs-erase_ne p q l3.slabs_partial e,
  occurs-erase_ne p q l3.slabs_full e,
  occurs-erase_ne p q l3.slabs_free e,
)

pub held-unlink :
    (spare : ℕ → ℕ) (p : ℕ) (l3 : Lists)
    → listed p l3 ≡ 1
    → held spare l3 ≡ held spare (unlink p l3) + spare p
unfolding unlink
held-unlink spare p l3 one = elim (total-erase spare p l3.slabs_partial) [
  | inl (a, a') ↦ elim (total-erase spare p l3.slabs_full) [
    | inl (b, b') ↦ absurd (omega arith)
    | inr (b, b') ↦ elim (total-erase spare p l3.slabs_free) [
      | inl (c, c') ↦ absurd (omega arith)
      | inr (c, c') ↦ omega arith
    ]
  ]
  | inr (a, a') ↦ elim (total-erase spare p l3.slabs_full) [
    | inl (b, b') ↦ elim (total-erase spare p l3.slabs_free) [
      | inl (c, c') ↦ absurd (omega arith)
      | inr (c, c') ↦ omega arith
    ]
    | inr (b, b') ↦ elim (total-erase spare p l3.slabs_free) [
      | inl (c, c') ↦ omega arith
      | inr (c, c') ↦ absurd (omega arith)
    ]
  ]
]

pub held-update :
    (spare : ℕ → ℕ) (p v : ℕ) (l3 : Lists)
    → listed p l3 ≡ 0
    → held (update spare p v) l3 ≡ held spare l3
held-update spare p v l3 off = omega (
  arith,
  total-update spare p v l3.slabs_partial (omega arith),
  total-update spare p v l3.slabs_full (omega arith),
  total-update spare p v l3.slabs_free (omega arith),
)

-- A slab leaves the lists: the others stay as they were, whatever becomes of it.
pub Listed-unlink :
    (num : ℕ) (spare : ℕ → ℕ) (p v : ℕ) (l3 : Lists)
    → Listed num spare l3
    → Listed num (update spare p v) (unlink p l3)
unfolding unlink
Listed-unlink num spare p v l3 l = record {
  once = λ q. elim (==-cases p q) [
    | inl (_, e) ↦ rw⁻¹ e (omega (arith, gone))
    | inr (e, _) ↦ omega (arith, listed-unlink_ne p q l3 e, l.once q)
  ];
  partial_some = λ q on. elim (==-cases p q) [
    | inl (_, e) ↦ absurd (ground (arith, gone))
    | inr (e, _) ↦ ground (arith, l.partial_some q, occurs-erase_ne p q l3.slabs_partial)
  ];
  partial_most = λ q on. elim (==-cases p q) [
    | inl (_, e) ↦ absurd (ground (arith, gone))
    | inr (e, _) ↦ ground (arith, l.partial_most q, occurs-erase_ne p q l3.slabs_partial)
  ];
  full_none = λ q on. elim (==-cases p q) [
    | inl (_, e) ↦ absurd (ground (arith, gone))
    | inr (e, _) ↦ ground (arith, l.full_none q, occurs-erase_ne p q l3.slabs_full)
  ];
  free_all = λ q on. elim (==-cases p q) [
    | inl (_, e) ↦ absurd (ground (arith, gone))
    | inr (e, _) ↦ ground (arith, l.free_all q, occurs-erase_ne p q l3.slabs_free)
  ];
}
  where
    gone : listed p (unlink p l3) ≡ 0
    gone = listed-unlink p l3 (l.once p)

-- A slab that is on no list goes to the list that fits it, at its start or its end.
pub Listed-partial :
    (num : ℕ) (spare : ℕ → ℕ) (p : ℕ) (xs : List ℕ) (l3 : Lists)
    → Listed num spare l3
    → listed p l3 ≡ 0
    → ((q : ℕ) → occurs q xs ≡ occurs q (p ∷ l3.slabs_partial))
    → 0 < spare p
    → spare p < num
    → Listed num spare (record l3 { slabs_partial = xs })
Listed-partial num spare p xs l3 l off same some most = record {
  once = λ q. elim (==-cases p q) [
    | inl (t, e) ↦ ground (arith, same q, l.once q)
    | inr (t, e) ↦ ground (arith, same q, l.once q)
  ];
  partial_some = λ q on. elim (==-cases p q) [
    | inl (t, e) ↦ rw⁻¹ e some
    | inr (t, e) ↦ l.partial_some q (ground (arith, same q))
  ];
  partial_most = λ q on. elim (==-cases p q) [
    | inl (t, e) ↦ rw⁻¹ e most
    | inr (t, e) ↦ l.partial_most q (ground (arith, same q))
  ];
  full_none = l.full_none;
  free_all = l.free_all;
}

pub Listed-full :
    (num : ℕ) (spare : ℕ → ℕ) (p : ℕ) (l3 : Lists)
    → Listed num spare l3
    → listed p l3 ≡ 0
    → spare p ≡ 0
    → Listed num spare (record l3 { slabs_full = p ∷ l3.slabs_full })
Listed-full num spare p l3 l off none = record {
  once = λ q. elim (==-cases p q) [
    | inl (t, e) ↦ ground (arith, l.once q)
    | inr (t, e) ↦ ground (arith, l.once q)
  ];
  partial_some = l.partial_some;
  partial_most = l.partial_most;
  full_none = λ q on. elim (==-cases p q) [
    | inl (t, e) ↦ rw⁻¹ e none
    | inr (t, e) ↦ l.full_none q (ground arith)
  ];
  free_all = l.free_all;
}

pub Listed-free :
    (num : ℕ) (spare : ℕ → ℕ) (p : ℕ) (xs : List ℕ) (l3 : Lists)
    → Listed num spare l3
    → listed p l3 ≡ 0
    → ((q : ℕ) → occurs q xs ≡ occurs q (p ∷ l3.slabs_free))
    → spare p ≡ num
    → Listed num spare (record l3 { slabs_free = xs })
Listed-free num spare p xs l3 l off same all = record {
  once = λ q. elim (==-cases p q) [
    | inl (t, e) ↦ ground (arith, same q, l.once q)
    | inr (t, e) ↦ ground (arith, same q, l.once q)
  ];
  partial_some = l.partial_some;
  partial_most = l.partial_most;
  full_none = l.full_none;
  free_all = λ q on. elim (==-cases p q) [
    | inl (t, e) ↦ rw⁻¹ e all
    | inr (t, e) ↦ l.free_all q (ground (arith, same q))
  ];
}

-- An end of a list is as good as its start.
pub occurs-snoc : (p : ℕ) (xs : List ℕ) (q : ℕ) → occurs q (xs ++ (p ∷ [])) ≡ occurs q (p ∷ xs)
occurs-snoc p xs q = ground (arith, occurs-append q xs (p ∷ []))

pub Listed-count :
    {num : ℕ} {spare : ℕ → ℕ} {l3 : Lists} (n : ℕ)
    → Listed num spare l3
    → Listed num spare (record l3 { free_objects = n })
Listed-count n l = record {
  once = l.once;
  partial_some = l.partial_some;
  partial_most = l.partial_most;
  full_none = l.full_none;
  free_all = l.free_all;
}

pub unlink-count : (p : ℕ) (l3 : Lists) → (unlink p l3).free_objects ≡ l3.free_objects
unfolding unlink
unlink-count p l3 = refl

pub unlink-shared : (p : ℕ) (l3 : Lists) → (unlink p l3).shared ≡ l3.shared
unfolding unlink
unlink-shared p l3 = refl
