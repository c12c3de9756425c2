-- ===== src/Base/Lists.antt =====
-- Lists measured by native numbers, and predicates on lists.
use Prim.Native.Nat.{ℕ, suc, ◌+◌}
use mathlib.Core.Path.{◌≡◌, refl}
use mathlib.Core.Bool.{Bool, true, false, ◌||◌}
use mathlib.Core.List.{List, [], ◌∷◌, ◌++◌}
use native.Mathlib.Omega.{arith}
use opdl.Base.Tests.{Equality, ◌==◌}

module _ {ℓ} {A : Type ℓ} where
  abbrev pub length : List A → ℕ
  length [] = 0
  length (x ∷ xs) = suc (length xs)

  pub length-append : (xs ys : List A) → length (xs ++ ys) ≡ length xs + length ys
  length-append [] ys = omega arith
  length-append (x ∷ xs) ys = omega (arith, length-append xs ys)

  -- Every element satisfies `P`.
  abbrev pub All {κ} : (A → Type κ) → List A → Type κ
  All P [] = Unit
  All P (x ∷ xs) = P x × All P xs

-- `slices.Contains`.
abbrev pub contains {ℓ} : {A : Type ℓ} ⦃e : Equality A⦄ → List A → A → Bool
contains [] a = false
contains (x ∷ xs) a = (x == a) || contains xs a

-- No element comes twice.
abbrev pub IsDistinct {ℓ} : {A : Type ℓ} ⦃e : Equality A⦄ → List A → Type 0
IsDistinct [] = Unit {0}
IsDistinct (x ∷ xs) = (contains xs x ≡ false) × IsDistinct xs

-- Each element is none of the list `before` and none of those ahead of it: what a loop finds that
-- keeps what it has seen.
abbrev pub FreshAfter {ℓ} : {A : Type ℓ} ⦃e : Equality A⦄ → List A → List A → Type 0
FreshAfter before [] = Unit {0}
FreshAfter before (x ∷ xs) = (contains before x ≡ false) × FreshAfter (x ∷ before) xs

module _ {ℓ} {A : Type ℓ} ⦃e : Equality A⦄ where
  FreshAfter-contains :
      (before xs : List A) (x : A)
      → FreshAfter before xs
      → contains before x ≡ true
      → contains xs x ≡ false
  FreshAfter-contains before [] x h m = refl
  FreshAfter-contains before (y ∷ xs) x (new, rest) m =
      ground (arith, e.equal_iff y x, FreshAfter-contains (y ∷ before) xs x rest)

  pub FreshAfter-IsDistinct : (before xs : List A) → FreshAfter before xs → IsDistinct xs
  FreshAfter-IsDistinct before [] h = tt
  FreshAfter-IsDistinct before (x ∷ xs) (new, rest) = (
    FreshAfter-contains (x ∷ before) xs x rest (ground (arith, e.equal_iff x x)),
    FreshAfter-IsDistinct (x ∷ before) xs rest,
  )
