-- ===== src/Common/Panic.antt =====
-- What a call leaves: a result, or the panic of `BUG_BS` (arch/arm/include/asm-generated/bug.h).
use mathlib.Core.Path.{◌≡◌, refl, ap, subst}
use mathlib.Core.Bool.{Bool, true, false}

pub data Run {ℓ} (A : Type ℓ) : Type ℓ where
  ok : A → Run A
  bug : Run A

infixl 5 ◌>>=◌
abbrev pub ◌>>=◌ {ℓ κ} : {A : Type ℓ} {B : Type κ} → Run A → (A → Run B) → Run B
ok a >>= f = f a
bug >>= f = bug

-- `BUG_ON_BS(condition)`, then the rest.
abbrev pub bug_on {ℓ} : {A : Type ℓ} → Bool → Run A → Run A
bug_on true rest = bug
bug_on false rest = rest

-- A call returns, with a result of which `P` holds.
pub data Returns {ℓ κ} {A : Type ℓ} (P : A → Type κ) : Run A → Type (ℓ ⊔ κ) where
  returns : {a : A} → P a → Returns P (ok a)

pub Returns-ok {ℓ κ} :
    {A : Type ℓ} {P : A → Type κ} {m : Run A} → Returns P m → (a : A) × (m ≡ ok a) × P a
Returns-ok (returns {a} p) = (a, refl, p)

result {ℓ} : {A : Type ℓ} → Run A → A → A
result (ok a) other = a
result bug other = other

-- What a call returns has what is shown of its outcome.
pub Returns-result {ℓ κ} :
    {A : Type ℓ} {P : A → Type κ} {m : Run A} {a : A} → Returns P m → m ≡ ok a → P a
unfolding result
Returns-result {P} {a} (returns p) e = subst P (ap (λ m. result m a) e) p

pub Returns-bind {ℓ κ μ ν} :
    {A : Type ℓ} {B : Type μ} {P : A → Type κ} {Q : B → Type ν} {m : Run A} {f : A → Run B}
    → Returns P m
    → ((a : A) → P a → Returns Q (f a))
    → Returns Q (m >>= f)
Returns-bind (returns p) next = next _ p

pub Returns-mono {ℓ κ ν} :
    {A : Type ℓ} {P : A → Type κ} {Q : A → Type ν} {m : Run A}
    → Returns P m
    → ((a : A) → P a → Q a)
    → Returns Q m
Returns-mono (returns p) weaken = returns (weaken _ p)
