-- ===== src/Base/Distinct/Occurrences.antt =====
-- How often a number is in a list; the order of the list does not matter.
use Prim.Native.Nat.{ℕ, ◌+◌, ◌≤◌}
use mathlib.Core.Path.{◌≡◌, refl}
use mathlib.Core.Logic.{inl, inr}
use mathlib.Core.Bool.{Bool, true, false}
use mathlib.Core.List.{List, [], ◌∷◌, ◌++◌, map}
use native.Mathlib.Omega.{arith}
use expertflow.Base.Tests.{◌==◌, ==_refl, if◌then◌else◌, Bool-cases}
use expertflow.Base.Lists.{length}
use expertflow.Base.Sort.{insert_by, sort_by}
use expertflow.Base.Distinct.{elem, Distinct}

unfoldable pub occurrences : ℕ → List ℕ → ℕ
occurrences x [] = 0
occurrences x (y ∷ ys) = (if y == x then 1 else 0) + occurrences x ys

pub occurrences-append :
    (x : ℕ) (xs ys : List ℕ) → occurrences x (xs ++ ys) ≡ occurrences x xs + occurrences x ys
unfolding occurrences
occurrences-append x [] ys = omega arith
occurrences-append x (y ∷ xs) ys = omega (arith, occurrences-append x xs ys)

pub occurrences_absent : (x : ℕ) (xs : List ℕ) → elem x xs ≡ false → occurrences x xs ≡ 0
unfolding occurrences elem
occurrences_absent x [] h = refl
occurrences_absent x (y ∷ xs) h = ground (arith, occurrences_absent x xs)

pub occurrences_present : (x : ℕ) (xs : List ℕ) → elem x xs ≡ true → 1 ≤ occurrences x xs
unfolding occurrences elem
occurrences_present x [] h = cc
occurrences_present x (y ∷ xs) h = ground (arith, occurrences_present x xs)

pub elem_of_occurrences : (x : ℕ) (xs : List ℕ) → 1 ≤ occurrences x xs → elem x xs ≡ true
unfolding occurrences elem
elem_of_occurrences x [] h = ground arith
elem_of_occurrences x (y ∷ xs) h = ground (arith, elem_of_occurrences x xs)

pub occurrences-le-Distinct : (x : ℕ) (xs : List ℕ) → Distinct xs → occurrences x xs ≤ 1
unfolding occurrences
occurrences-le-Distinct x [] d = omega arith
occurrences-le-Distinct x (y ∷ xs) d = elim (Bool-cases (y == x)) [
  | inl e ↦ ground (arith, occurrences_absent y xs d.0)
  | inr e ↦ rw e (omega (arith, occurrences-le-Distinct x xs d.1))
]

absent_of_occurrences : (x : ℕ) (xs : List ℕ) → 1 + occurrences x xs ≤ 1 → elem x xs ≡ false
absent_of_occurrences x xs h = elim (Bool-cases (elem x xs)) [
  | inl e ↦ absurd (omega (arith, occurrences_present x xs e))
  | inr e ↦ e
]

pub occurrences-Distinct : (xs : List ℕ) → ((x : ℕ) → occurrences x xs ≤ 1) → Distinct xs
unfolding occurrences
occurrences-Distinct [] h = tt
occurrences-Distinct (x ∷ xs) h = (
  absent_of_occurrences x xs (rw (==_refl x) at (h x)),
  occurrences-Distinct xs (λ y. omega (arith, h y)),
)

module _ {ℓ} {A : Type ℓ} (id : A → ℕ) (before : A → A → Bool) where
  occurrences-insert_by :
      (x : ℕ) (a : A) (xs : List A)
      → occurrences x (map id (insert_by before a xs))
        ≡ (if id a == x then 1 else 0) + occurrences x (map id xs)
  unfolding insert_by occurrences
  occurrences-insert_by x a [] = refl
  occurrences-insert_by x a (b ∷ xs) = elim (Bool-cases (before a b)) [
    | inl e ↦ rw e refl
    | inr e ↦ rw e (omega (arith, occurrences-insert_by x a xs))
  ]

  pub occurrences-sort_by :
      (x : ℕ) (xs : List A) → occurrences x (map id (sort_by before xs)) ≡ occurrences x (map id xs)
  unfolding sort_by occurrences
  occurrences-sort_by x [] = refl
  occurrences-sort_by x (a ∷ xs) =
      omega (arith, occurrences-insert_by x a (sort_by before xs), occurrences-sort_by x xs)

  length-insert_by : (a : A) (xs : List A) → length (insert_by before a xs) ≡ 1 + length xs
  unfolding insert_by
  length-insert_by a [] = omega arith
  length-insert_by a (b ∷ xs) = elim (Bool-cases (before a b)) [
    | inl e ↦ rw e (omega arith)
    | inr e ↦ rw e (omega (arith, length-insert_by a xs))
  ]

  pub length-sort_by : (xs : List A) → length (sort_by before xs) ≡ length xs
  unfolding sort_by
  length-sort_by [] = refl
  length-sort_by (a ∷ xs) = omega (arith, length-insert_by a (sort_by before xs), length-sort_by xs)
