-- ===== src/Base/Checks.antt =====
-- Go's `error` where a function only checks: `none` is nil, and the first failing check's error is
-- the one returned. The wrapped texts of the source are shortened to what they are about.
use Prim.Native.String.{String}
use mathlib.Core.Path.{◌≡◌, refl}
use mathlib.Core.Bool.{Bool, true, false}
use mathlib.Core.Option.{Option, none, some}
use mathlib.Core.List.{List, [], ◌∷◌}
use native.Mathlib.Omega.{arith}
use opdl.Base.Lists.{All}

abbrev pub Error : Type 0
Error = String

-- `if test { return err }`.
abbrev pub fail_if : Bool → Error → Option Error
fail_if true e = some e
fail_if false e = none

-- `if err := first; err != nil { return err }`, and then the rest.
infixr 20 ◌<|>◌
abbrev pub ◌<|>◌ : Option Error → Option Error → Option Error
none <|> rest = rest
some e <|> rest = some e

-- A loop that checks each element by itself.
abbrev pub check_each {ℓ} : {A : Type ℓ} → (A → Option Error) → List A → Option Error
check_each f [] = none
check_each f (x ∷ xs) = f x <|> check_each f xs

-- What passed both checks passed each.
pub both_pass : (a b : Option Error) → (a <|> b) ≡ none → (a ≡ none) × (b ≡ none)
both_pass none b h = (refl, h)
both_pass (some e) b h = absurd (ground arith)

pub pass_both : (a b : Option Error) → a ≡ none → b ≡ none → (a <|> b) ≡ none
pass_both none b h k = k
pass_both (some e) b h k = h

pub fail_if-false : (b : Bool) (e : Error) → fail_if b e ≡ none → b ≡ false
fail_if-false true e h = absurd (ground arith)
fail_if-false false e h = refl

pub check_each-All {ℓ} :
    {A : Type ℓ} (f : A → Option Error) (xs : List A)
    → check_each f xs ≡ none
    → All (λ x. f x ≡ none) xs
check_each-All f [] h = tt
check_each-All f (x ∷ xs) h =
    let (here, rest) = both_pass (f x) (check_each f xs) h in (here, check_each-All f xs rest)
