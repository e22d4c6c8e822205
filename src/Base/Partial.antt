-- ===== src/Base/Partial.antt =====
-- Chains of accesses that may be undefined behaviour: `none` is a read or a write out of bounds.
use mathlib.Core.Path.{◌≡◌, refl}
use mathlib.Core.Option.{Option, none, some}

infixl 5 ◌>>=◌
abbrev pub ◌>>=◌ {ℓ κ} : {A : Type ℓ} {B : Type κ} → Option A → (A → Option B) → Option B
none >>= f = none
some a >>= f = f a

-- The access is defined, and its result satisfies `P`.
pub data Defined {ℓ κ} {A : Type ℓ} (P : A → Type κ) : Option A → Type (ℓ ⊔ κ) where
  defined : {a : A} → P a → Defined P (some a)

module _ {ℓ κ} {A : Type ℓ} {P : A → Type κ} where
  pub Defined-bind {ℓ' κ'} :
      {B : Type ℓ'} {Q : B → Type κ'} {m : Option A} {f : A → Option B}
      → Defined P m
      → ((a : A) → P a → Defined Q (f a))
      → Defined Q (m >>= f)
  Defined-bind (defined p) k = k _ p

  pub Defined-mono {κ'} :
      {Q : A → Type κ'} {m : Option A} → Defined P m → ((a : A) → P a → Q a) → Defined Q m
  Defined-mono (defined p) k = defined (k _ p)

  pub Defined-value : {m : Option A} → Defined P m → (a : A) × (m ≡ some a) × P a
  Defined-value (defined p) = (_, refl, p)
