-- ===== src/Base/Sort/Members.antt =====
-- A sorted list has the members of the list.
use mathlib.Core.Path.{◌≡◌, refl}
use mathlib.Core.Logic.{inl, inr}
use mathlib.Core.Bool.{Bool, true, false}
use mathlib.Core.List.{List, [], ◌∷◌}
use expertflow.Base.Tests.{if◌then◌else◌, Bool-cases}
use expertflow.Base.Lists.{any}
use expertflow.Base.Sort.{insert_by, sort_by}

swap :
    (a b c : Bool)
    → (if b then true else if a then true else c) ≡ (if a then true else if b then true else c)
swap true true c = refl
swap true false c = refl
swap false true c = refl
swap false false c = refl

module _ {ℓ} {A : Type ℓ} (before : A → A → Bool) (test : A → Bool) where
  any-insert_by : (a : A) (xs : List A) → any test (insert_by before a xs) ≡ any test (a ∷ xs)
  unfolding insert_by any
  any-insert_by a [] = refl
  any-insert_by a (b ∷ xs) = elim (Bool-cases (before a b)) [
    | inl e ↦ rw e refl
    | inr e ↦ rw e (rw (any-insert_by a xs) (swap (test a) (test b) (any test xs)))
  ]

  pub any-sort_by : (xs : List A) → any test (sort_by before xs) ≡ any test xs
  unfolding sort_by any
  any-sort_by [] = refl
  any-sort_by (a ∷ xs) = rw (any-insert_by a (sort_by before xs)) (rw (any-sort_by xs) refl)
