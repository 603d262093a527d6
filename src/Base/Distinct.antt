-- ===== src/Base/Distinct.antt =====
-- Membership of numbers in lists (Python's `in`), and lists without repetition.
pub mod Occurrences
use expertflow.Base.Tests.{◌==◌, if◌then◌else◌}
use expertflow.Base.Lists.{length, keep}
use Prim.Native.Nat.{ℕ, ◌+◌, ◌≤◌}
use mathlib.Core.Path.{◌≡◌, refl}
use mathlib.Core.Bool.{Bool, true, false}
use mathlib.Core.List.{List, [], ◌∷◌, ◌++◌}
use native.Mathlib.Omega.{arith}

-- `x in xs`.
unfoldable pub elem : ℕ → List ℕ → Bool
elem x [] = false
elem x (y ∷ ys) = if y == x then true else elem x ys

-- The list without the element `x`.
unfoldable pub remove : ℕ → List ℕ → List ℕ
remove x [] = []
remove x (y ∷ ys) = let rest = remove x ys in if y == x then rest else y ∷ rest

-- No element occurs twice.
abbrev pub Distinct : List ℕ → Type 0
Distinct [] = Unit
Distinct (x ∷ xs) = (elem x xs ≡ false) × Distinct xs

pub elem-append :
    (x : ℕ) (xs ys : List ℕ) → elem x (xs ++ ys) ≡ (if elem x xs then true else elem x ys)
unfolding elem
elem-append x [] ys = refl
elem-append x (y ∷ xs) ys = ground (arith, elem-append x xs ys)

pub elem-remove :
    (x y : ℕ) (xs : List ℕ) → elem x (remove y xs) ≡ (if y == x then false else elem x xs)
unfolding elem remove
elem-remove x y [] = ground arith
elem-remove x y (z ∷ xs) = ground (arith, elem-remove x y xs)

pub remove_absent : (x : ℕ) (xs : List ℕ) → elem x xs ≡ false → remove x xs ≡ xs
unfolding elem remove
remove_absent x [] h = refl
remove_absent x (y ∷ xs) h = ground (arith, remove_absent x xs)

pub Distinct-remove : (x : ℕ) (xs : List ℕ) → Distinct xs → Distinct (remove x xs)
unfolding remove
Distinct-remove x [] d = tt
Distinct-remove x (y ∷ xs) d = ground (arith, elem-remove y x xs, Distinct-remove x xs d.1)

pub length-remove :
    (x : ℕ) (xs : List ℕ) → Distinct xs → elem x xs ≡ true → length (remove x xs) + 1 ≡ length xs
unfolding elem remove
length-remove x [] d h = ground arith
length-remove x (y ∷ xs) d h = ground (arith, length-remove x xs d.1, remove_absent x xs, d.0)

pub length-remove-le : (x : ℕ) (xs : List ℕ) → length (remove x xs) ≤ length xs
unfolding remove
length-remove-le x [] = omega arith
length-remove-le x (y ∷ xs) = ground (arith, length-remove-le x xs)

pub Distinct-snoc :
    (xs : List ℕ) (x : ℕ) → Distinct xs → elem x xs ≡ false → Distinct (xs ++ x ∷ [])
unfolding elem
Distinct-snoc [] x d h = (refl, tt)
Distinct-snoc (y ∷ xs) x d h = ground (arith, elem-append y xs (x ∷ []), Distinct-snoc xs x d.1)

-- `set(xs)`, as a list without repetition.
unfoldable pub dedup : List ℕ → List ℕ
dedup [] = []
dedup (x ∷ xs) = let rest = dedup xs in if elem x rest then rest else x ∷ rest

pub elem-dedup : (x : ℕ) (xs : List ℕ) → elem x (dedup xs) ≡ elem x xs
unfolding elem dedup
elem-dedup x [] = refl
elem-dedup x (y ∷ xs) = ground (arith, elem-dedup x xs, elem-dedup y xs)

pub length-dedup-le : (xs : List ℕ) → length (dedup xs) ≤ length xs
unfolding dedup
length-dedup-le [] = omega arith
length-dedup-le (x ∷ xs) = ground (arith, length-dedup-le xs)

pub Distinct-dedup : (xs : List ℕ) → Distinct (dedup xs)
unfolding dedup
Distinct-dedup [] = tt
Distinct-dedup (x ∷ xs) = ground (arith, Distinct-dedup xs)

-- `len(set(xs)) == len(xs)` holds of lists without repetition only.
pub length-dedup-Distinct : (xs : List ℕ) → length (dedup xs) ≡ length xs → Distinct xs
unfolding dedup
length-dedup-Distinct [] h = tt
length-dedup-Distinct (x ∷ xs) h =
    ground (arith, length-dedup-le xs, elem-dedup x xs, length-dedup-Distinct xs)

pub dedup_of_Distinct : (xs : List ℕ) → Distinct xs → dedup xs ≡ xs
unfolding dedup
dedup_of_Distinct [] d = refl
dedup_of_Distinct (x ∷ xs) d = ground (arith, elem-dedup x xs, dedup_of_Distinct xs d.1)

pub Distinct-append :
    (xs ys : List ℕ)
    → Distinct xs
    → Distinct ys
    → ((y : ℕ) → elem y ys ≡ true → elem y xs ≡ false)
    → Distinct (xs ++ ys)
unfolding elem
Distinct-append [] ys dx dy h = dy
Distinct-append (x ∷ xs) ys dx dy h = (
  ground (arith, elem-append x xs ys, h x, dx.0),
  Distinct-append xs ys dx.1 dy (λ y m. ground (arith, h y m)),
)

pub elem-keep_of :
    (p : ℕ → Bool) (y : ℕ) (xs : List ℕ)
    → elem y (keep p xs) ≡ true
    → (elem y xs ≡ true) × (p y ≡ true)
unfolding elem keep
elem-keep_of p y [] h = cc
elem-keep_of p y (x ∷ xs) h = ground (arith, elem-keep_of p y xs)

pub elem-keep_mono :
    (p : ℕ → Bool) (y : ℕ) (xs : List ℕ) → elem y xs ≡ false → elem y (keep p xs) ≡ false
unfolding elem keep
elem-keep_mono p y [] h = refl
elem-keep_mono p y (x ∷ xs) h = ground (arith, elem-keep_mono p y xs)

pub Distinct-keep : (p : ℕ → Bool) (xs : List ℕ) → Distinct xs → Distinct (keep p xs)
unfolding keep
Distinct-keep p [] d = tt
Distinct-keep p (x ∷ xs) d = ground (arith, elem-keep_mono p x xs, Distinct-keep p xs d.1)
