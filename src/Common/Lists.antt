-- ===== src/Common/Lists.antt =====
-- Lists measured and indexed by native numbers, under the library's names.
use Prim.Native.Nat.{ℕ, zero, suc, ◌+◌, ◌-◌, ◌≤◌, ◌<◌}
use mathlib.Core.Path.{◌≡◌, refl, ap}
use mathlib.Core.Logic.{◌⊎◌, inl, inr}
use mathlib.Core.Bool.{Bool, true, false, ◌||◌}
use mathlib.Core.List.{List, [], ◌∷◌, ◌++◌}
use native.Mathlib.Omega.{arith}
use biscuit_os_memory.Common.Tests.{◌==◌, ==-cases, ==_self, if◌then◌else◌, update}

module _ {ℓ} {A : Type ℓ} where
  abbrev pub length : List A → ℕ
  length [] = 0
  length (x ∷ xs) = suc (length xs)

  pub append-nil : (xs : List A) → xs ++ [] ≡ xs
  append-nil [] = refl
  append-nil (x ∷ xs) = ap (λ ys. x ∷ ys) (append-nil xs)

  pub append_assoc : (xs ys zs : List A) → (xs ++ ys) ++ zs ≡ xs ++ (ys ++ zs)
  append_assoc [] ys zs = refl
  append_assoc (x ∷ xs) ys zs = ap (λ ws. x ∷ ws) (append_assoc xs ys zs)

  pub length-append : (xs ys : List A) → length (xs ++ ys) ≡ length xs + length ys
  length-append [] ys = omega arith
  length-append (x ∷ xs) ys = omega (arith, length-append xs ys)

-- Whether a node is on a list.
abbrev pub contains : ℕ → List ℕ → Bool
contains p [] = false
contains p (x ∷ xs) = (x == p) || contains p xs

-- `list_del` of a node from the list that it is on; a node that is not there leaves the list.
abbrev pub erase : ℕ → List ℕ → List ℕ
erase p [] = []
erase p (x ∷ xs) = if x == p then xs else x ∷ erase p xs

pub contains-append :
    (p : ℕ) (xs ys : List ℕ) → contains p (xs ++ ys) ≡ (contains p xs || contains p ys)
contains-append p [] ys = refl
contains-append p (x ∷ xs) ys = ground (arith, contains-append p xs ys)

pub length-erase :
    (p : ℕ) (xs : List ℕ) → contains p xs ≡ true → suc (length (erase p xs)) ≡ length xs
length-erase p [] h = ground arith
length-erase p (x ∷ xs) h = ground (arith, length-erase p xs)

pub contains-erase : (q p : ℕ) (xs : List ℕ) → contains q (erase p xs) ≡ true → contains q xs ≡ true
contains-erase q p [] h = h
contains-erase q p (x ∷ xs) h = ground (arith, contains-erase q p xs)

pub contains-erase_ne :
    (q p : ℕ) (xs : List ℕ)
    → (p == q) ≡ false
    → contains q xs ≡ true
    → contains q (erase p xs) ≡ true
contains-erase_ne q p [] e h = h
contains-erase_ne q p (x ∷ xs) e h = ground (arith, contains-erase_ne q p xs)

-- f 0 + ... + f (n - 1)
abbrev pub sum_below : ℕ → (ℕ → ℕ) → ℕ
sum_below zero f = 0
sum_below (suc n) f = f n + sum_below n f

pub sum_below-ext :
    (n : ℕ) (f g : ℕ → ℕ) → ((k : ℕ) → k < n → f k ≡ g k) → sum_below n f ≡ sum_below n g
sum_below-ext zero f g h = refl
sum_below-ext (suc n) f g h =
    omega (arith, h n (omega arith), sum_below-ext n f g (λ k l. h k (omega arith)))

-- A sum of which one term changes.
pub sum_below-change :
    (n k : ℕ) (f g : ℕ → ℕ)
    → k < n
    → ((j : ℕ) → (k == j) ≡ false → f j ≡ g j)
    → sum_below n f + g k ≡ sum_below n g + f k
sum_below-change zero k f g l h = absurd (omega arith)
sum_below-change (suc n) k f g l h = elim (==-cases n k) [
  | inl (e, e') ↦ rw e' (omega (arith, sum_below-ext k f g (λ j m. h j (ground arith))))
  | inr (e, e') ↦ omega (arith, h n (ground arith), sum_below-change n k f g (omega arith) h)
]

pub sum_below-ge : (n k : ℕ) (f : ℕ → ℕ) → k < n → f k ≤ sum_below n f
sum_below-ge zero k f l = absurd (omega arith)
sum_below-ge (suc n) k f l = elim (==-cases n k) [
  | inl (e, e') ↦ rw e' (omega arith)
  | inr (e, e') ↦ omega (arith, sum_below-ge n k f (omega arith))
]

-- How often a node is on a list.
abbrev pub occurs : ℕ → List ℕ → ℕ
occurs p [] = 0
occurs p (x ∷ xs) = if x == p then suc (occurs p xs) else occurs p xs

pub occurs-append : (p : ℕ) (xs ys : List ℕ) → occurs p (xs ++ ys) ≡ occurs p xs + occurs p ys
occurs-append p [] ys = omega arith
occurs-append p (x ∷ xs) ys = ground (arith, occurs-append p xs ys)

pub occurs-erase : (p : ℕ) (xs : List ℕ) → occurs p (erase p xs) ≡ occurs p xs - 1
occurs-erase p [] = omega arith
occurs-erase p (x ∷ xs) = ground (arith, occurs-erase p xs)

pub occurs-erase_ne :
    (p q : ℕ) (xs : List ℕ) → (p == q) ≡ false → occurs q (erase p xs) ≡ occurs q xs
occurs-erase_ne p q [] e = refl
occurs-erase_ne p q (x ∷ xs) e = ground (arith, occurs-erase_ne p q xs)

-- f x for each x of the list, added up
abbrev pub total : (ℕ → ℕ) → List ℕ → ℕ
total f [] = 0
total f (x ∷ xs) = f x + total f xs

pub total-append : (f : ℕ → ℕ) (xs ys : List ℕ) → total f (xs ++ ys) ≡ total f xs + total f ys
total-append f [] ys = omega arith
total-append f (x ∷ xs) ys = omega (arith, total-append f xs ys)

pub total-erase :
    (f : ℕ → ℕ) (p : ℕ) (xs : List ℕ)
    → ((0 < occurs p xs) × (total f xs ≡ total f (erase p xs) + f p))
      ⊎ ((occurs p xs ≡ 0) × (total f xs ≡ total f (erase p xs)))
total-erase f p [] = inr (refl, refl)
total-erase f p (x ∷ xs) = elim (==-cases x p) [
  | inl (e, same) ↦ rw e (inl (omega arith, omega (arith, ap f same)))
  | inr (e, _) ↦ rw e (elim (total-erase f p xs) [
    | inl (on, sum) ↦ inl (on, omega (arith, sum))
    | inr (off, sum) ↦ inr (off, omega (arith, sum))
  ])
]

pub total-update :
    (f : ℕ → ℕ) (p v : ℕ) (xs : List ℕ) → occurs p xs ≡ 0 → total (update f p v) xs ≡ total f xs
total-update f p v [] off = refl
total-update f p v (x ∷ xs) off = elim (==-cases x p) [
  | inl (e, same) ↦ absurd (ground arith)
  | inr (e, _) ↦ ground (arith, total-update f p v xs)
]

pub total-zero : (f : ℕ → ℕ) (xs : List ℕ) → ((p : ℕ) → 0 < occurs p xs → f p ≡ 0) → total f xs ≡ 0
total-zero f [] h = refl
total-zero f (x ∷ xs) h =
    omega (arith, h x (ground (arith, ==_self x)), total-zero f xs (λ p on. h p (ground arith)))

sum_below-le : (n : ℕ) (f : ℕ → ℕ) → ((j : ℕ) → f j ≤ 1) → sum_below n f ≤ n
sum_below-le zero f most = omega arith
sum_below-le (suc n) f most = omega (arith, most n, sum_below-le n f most)

-- Terms of at most 1, one of them 0, come to less than their number.
pub sum_below-lt : (n k : ℕ) (f : ℕ → ℕ) → ((j : ℕ) → f j ≤ 1) → k < n → f k ≡ 0 → sum_below n f < n
sum_below-lt zero k f most lt none = absurd (omega arith)
sum_below-lt (suc n) k f most lt none = elim (==-cases n k) [
  | inl (_, e) ↦ omega (arith, ap f e, none, sum_below-le n f most)
  | inr (_, e) ↦ omega (arith, most n, sum_below-lt n k f most (omega arith) none)
]
