-- ===== src/Base/Dict.antt =====
-- A Go map as an association list: one entry for a key, a write replaces the entry in place.
use mathlib.Core.Path.{◌≡◌, refl}
use mathlib.Core.Option.{Option, none, some}
use mathlib.Core.List.{List, [], ◌∷◌}
use native.Mathlib.Omega.{arith}
use opdl.Base.Tests.{Equality, ◌==◌, if◌then◌else◌}

module _ {ℓ} {K V : Type ℓ} ⦃e : Equality K⦄ where
  unfoldable pub lookup : K → List (K × V) → Option V
  lookup key [] = none
  lookup key ((held, value) ∷ rest) = if held == key then some value else lookup key rest

  unfoldable pub insert : K → V → List (K × V) → List (K × V)
  insert key new [] = (key, new) ∷ []
  insert key new ((held, value) ∷ rest) =
      if held == key then (held, new) ∷ rest else (held, value) ∷ insert key new rest

  -- A write is seen at its own key and nowhere else.
  pub lookup-insert :
      (written asked : K) (new : V) (entries : List (K × V))
      → lookup asked (insert written new entries)
        ≡ (if written == asked then some new else lookup asked entries)
  unfolding lookup insert
  lookup-insert written asked new [] = refl
  lookup-insert written asked new ((held, value) ∷ rest) = ground (
    arith,
    lookup-insert written asked new rest,
    e.equal_iff written asked,
    e.equal_iff held written,
    e.equal_iff held asked,
  )
