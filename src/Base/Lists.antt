-- ===== src/Base/Lists.antt =====
-- Lists measured by native numbers, membership by recursion, and functions updated at one number.
use Prim.Native.Nat.{ℕ, suc, ◌+◌}
use mathlib.Core.Path.{◌≡◌, refl}
use mathlib.Core.List.{List, [], ◌∷◌, ◌++◌}
use mathlib.Core.Logic.{◌⊎◌, ◌≢◌, inl, inr}
use native.Mathlib.Omega.{arith}
use stdiobus_python.Base.Tests.{◌==◌, nat-Eq, if◌then◌else◌}

module _ {ℓ} {A : Type ℓ} where
  abbrev pub length : List A → ℕ
  length [] = 0
  length (x ∷ xs) = suc (length xs)

  pub length-append : (xs ys : List A) → length (xs ++ ys) ≡ length xs + length ys
  length-append [] ys = omega arith
  length-append (x ∷ xs) ys = omega (arith, length-append xs ys)

  -- To split on a computed list and keep the equation.
  pub List-cases : (l : List A) → (l ≡ []) ⊎ ((x : A) × (rest : List A) × (l ≡ x ∷ rest))
  List-cases [] = inl refl
  List-cases (x ∷ rest) = inr (x, rest, refl)

-- Every element satisfies `P`.
abbrev pub All {ℓ κ} : {A : Type ℓ} → (A → Type κ) → List A → Type κ
All P [] = Unit
All P (x ∷ xs) = P x × All P xs

-- `n` stands in the list.
abbrev pub In : ℕ → List ℕ → Type 0
In n [] = ⊥
In n (m ∷ ms) = (n ≡ m) ⊎ In n ms

-- No number stands twice.
abbrev pub Distinct : List ℕ → Type 0
Distinct [] = Unit {0}
Distinct (m ∷ ms) = (¬ In m ms) × Distinct ms

-- A store of objects by address: the object at `p` is replaced.
abbrev pub update {ℓ} : {A : Type ℓ} → (ℕ → A) → ℕ → A → ℕ → A
update h p v q = if q == p then v else h q

pub update_self {ℓ} : {A : Type ℓ} (h : ℕ → A) (p : ℕ) (v : A) → update h p v p ≡ v
update_self h p v = ground arith

pub update_ne {ℓ} : {A : Type ℓ} (h : ℕ → A) (p q : ℕ) (v : A) → q ≢ p → update h p v q ≡ h q
update_ne h p q v ne = ground arith

-- What holds of each element of a list holds of all.
pub each_holds : (P : ℕ → Type 0) (l : List ℕ) → ((p : ℕ) → In p l → P p) → All P l
each_holds P [] f = tt
each_holds P (x ∷ l) f = (f x (inl refl), each_holds P l (λ p i. f p (inr i)))
