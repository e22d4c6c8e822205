-- ===== src/Base/Lists.antt =====
-- Lists measured and indexed by native numbers, under the library's names.
use Prim.Native.Nat.{ℕ, zero, suc, ◌+◌, ◌<◌, min}
use mathlib.Core.Path.{◌≡◌, refl, ap}
use mathlib.Core.Logic.{◌≢◌}
use mathlib.Core.List.{List, [], ◌∷◌, ◌++◌, map}
use mathlib.Core.Option.{Option, none, some}
use native.Mathlib.Omega.{arith}
use high_performance_linux_s.Base.Tests.{◌==◌, if◌then◌else◌}

module _ {ℓ} {A : Type ℓ} where
  abbrev pub length : List A → ℕ
  length [] = 0
  length (_ ∷ xs) = suc (length xs)

  abbrev pub get_elem? : List A → ℕ → Option A
  get_elem? [] i = none
  get_elem? (x ∷ xs) zero = some x
  get_elem? (x ∷ xs) (suc i) = get_elem? xs i

  -- A write out of bounds changes nothing.
  abbrev pub set : List A → ℕ → A → List A
  set [] i v = []
  set (x ∷ xs) zero v = v ∷ xs
  set (x ∷ xs) (suc i) v = x ∷ set xs i v

  abbrev pub take : ℕ → List A → List A
  take zero xs = []
  take (suc n) [] = []
  take (suc n) (x ∷ xs) = x ∷ take n xs

  abbrev pub drop : ℕ → List A → List A
  drop zero xs = xs
  drop (suc n) [] = []
  drop (suc n) (x ∷ xs) = drop n xs

  abbrev pub replicate : ℕ → A → List A
  replicate zero a = []
  replicate (suc n) a = a ∷ replicate n a

  abbrev pub All {κ} : (A → Type κ) → List A → Type κ
  All P [] = Unit
  All P (x ∷ xs) = P x × All P xs

  pub length-append : (xs ys : List A) → length (xs ++ ys) ≡ length xs + length ys
  length-append [] ys = omega arith
  length-append (x ∷ xs) ys = omega (arith, length-append xs ys)

  pub length-set : (xs : List A) (i : ℕ) (v : A) → length (set xs i v) ≡ length xs
  length-set [] i v = refl
  length-set (x ∷ xs) zero v = refl
  length-set (x ∷ xs) (suc i) v = ap suc (length-set xs i v)

  pub length-replicate : (n : ℕ) (a : A) → length (replicate n a) ≡ n
  length-replicate zero a = refl
  length-replicate (suc n) a = ap suc (length-replicate n a)

  -- Reading after a write.
  pub get_elem?-set :
      (xs : List A) (i j : ℕ) (v : A)
      → i < length xs
      → get_elem? (set xs i v) j ≡ (if i == j then some v else get_elem? xs j)
  get_elem?-set [] i j v h = absurd (omega arith)
  get_elem?-set (x ∷ xs) zero zero v h = refl
  get_elem?-set (x ∷ xs) zero (suc j) v h = ground arith
  get_elem?-set (x ∷ xs) (suc i) zero v h = ground arith
  get_elem?-set (x ∷ xs) (suc i) (suc j) v h = ground (arith, get_elem?-set xs i j v)

  pub All-append {κ} : (P : A → Type κ) (xs ys : List A) → All P xs → All P ys → All P (xs ++ ys)
  All-append P [] ys p q = q
  All-append P (x ∷ xs) ys p q = (p.0, All-append P xs ys p.1 q)

  pub All-left {κ} : (P : A → Type κ) (xs ys : List A) → All P (xs ++ ys) → All P xs
  All-left P [] ys p = tt
  All-left P (x ∷ xs) ys p = (p.0, All-left P xs ys p.1)

  pub All-right {κ} : (P : A → Type κ) (xs ys : List A) → All P (xs ++ ys) → All P ys
  All-right P [] ys p = p
  All-right P (x ∷ xs) ys p = All-right P xs ys p.1

-- A list that is not empty has a last element.
pub snoc_view {ℓ} :
    {A : Type ℓ} (x : A) (xs : List A) → (ys : List A) × (y : A) × (x ∷ xs ≡ ys ++ y ∷ [])
snoc_view x [] = ([], x, refl)
snoc_view x (y ∷ xs) = let (ys, z, e) = snoc_view y xs in (x ∷ ys, z, ap (◌∷◌ x) e)

pub append-ne-nil {ℓ} : {A : Type ℓ} (ys : List A) (x : A) (xs : List A) → ys ++ x ∷ xs ≢ []
append-ne-nil [] x xs e = cc
append-ne-nil (y ∷ ys) x xs e = cc

module _ {ℓ} {A : Type ℓ} where
  pub get_elem?_total : (xs : List A) (i : ℕ) → i < length xs → (v : A) × (get_elem? xs i ≡ some v)
  get_elem?_total [] i h = absurd (omega arith)
  get_elem?_total (x ∷ xs) zero h = (x, refl)
  get_elem?_total (x ∷ xs) (suc i) h = get_elem?_total xs i (omega arith)

  pub get_elem?_bound : (xs : List A) (i : ℕ) (v : A) → get_elem? xs i ≡ some v → i < length xs
  get_elem?_bound [] i v h = cc
  get_elem?_bound (x ∷ xs) zero v h = omega arith
  get_elem?_bound (x ∷ xs) (suc i) v h = omega (arith, get_elem?_bound xs i v h)

  -- Access behind a prefix.
  pub get_elem?-append :
      (ys xs : List A) (i j : ℕ) → length ys + i ≡ j → get_elem? (ys ++ xs) j ≡ get_elem? xs i
  get_elem?-append [] xs i j e = ap (get_elem? xs) (omega arith)
  get_elem?-append (y ∷ ys) xs i zero e = absurd (omega arith)
  get_elem?-append (y ∷ ys) xs i (suc j) e = get_elem?-append ys xs i j (omega arith)

  pub set-append :
      (ys xs : List A) (i j : ℕ) (v : A) → length ys + i ≡ j → set (ys ++ xs) j v ≡ ys ++ set xs i v
  set-append [] xs i j v e = ap (λ n. set xs n v) (omega arith)
  set-append (y ∷ ys) xs i zero v e = absurd (omega arith)
  set-append (y ∷ ys) xs i (suc j) v e = ap (◌∷◌ y) (set-append ys xs i j v (omega arith))

  pub drop-append : (ys xs : List A) (i j : ℕ) → length ys + i ≡ j → drop j (ys ++ xs) ≡ drop i xs
  drop-append [] xs i j e = ap (λ n. drop n xs) (omega arith)
  drop-append (y ∷ ys) xs i zero e = absurd (omega arith)
  drop-append (y ∷ ys) xs i (suc j) e = drop-append ys xs i j (omega arith)

module _ {ℓ} {A : Type ℓ} where
  -- Writing a value keeps its other occurrences.
  pub get_elem?-set_keep :
      (xs : List A) (i j : ℕ) (v : A) → get_elem? xs j ≡ some v → get_elem? (set xs i v) j ≡ some v
  get_elem?-set_keep [] i j v h = h
  get_elem?-set_keep (x ∷ xs) zero zero v h = refl
  get_elem?-set_keep (x ∷ xs) zero (suc j) v h = h
  get_elem?-set_keep (x ∷ xs) (suc i) zero v h = h
  get_elem?-set_keep (x ∷ xs) (suc i) (suc j) v h = get_elem?-set_keep xs i j v h

  pub get_elem?-set_self :
      (xs : List A) (i : ℕ) (v : A) → i < length xs → get_elem? (set xs i v) i ≡ some v
  get_elem?-set_self [] i v h = absurd (omega arith)
  get_elem?-set_self (x ∷ xs) zero v h = refl
  get_elem?-set_self (x ∷ xs) (suc i) v h = get_elem?-set_self xs i v (omega arith)

  pub length-take : (n : ℕ) (xs : List A) → length (take n xs) ≡ min n (length xs)
  length-take zero xs = omega arith
  length-take (suc n) [] = omega arith
  length-take (suc n) (x ∷ xs) = omega (arith, length-take n xs)

  pub length-map {κ} : {B : Type κ} (xs : List A) (f : A → B) → length (map f xs) ≡ length xs
  length-map [] f = refl
  length-map (x ∷ xs) f = ap suc (length-map xs f)

-- `int` where its sign matters: `negsuc n` is `-(n + 1)`.
pub data ℤ : Type 0 where
  pos : ℕ → ℤ
  negsuc : ℕ → ℤ
