-- ===== src/Base/Ordered/Recency.antt =====
-- The loops over an ordered cache in closed form: what stays is the end of the recency order.
use expertflow.Base.Tests.{leb, Bool-cases}
use expertflow.Base.Lists.{length, drop}
use expertflow.Base.Failures.{ok}
use expertflow.Base.Distinct.{elem, remove, Distinct, elem-append, remove_absent}
use expertflow.Base.Ordered.{victim, make_room}
use Prim.Native.Nat.{ℕ, zero, suc, ◌-◌, ◌≤◌, ◌<◌}
use mathlib.Core.Path.{◌≡◌, refl}
use mathlib.Core.Logic.{inl, inr}
use mathlib.Core.Bool.{true, false}
use mathlib.Core.List.{List, [], ◌∷◌, ◌++◌}
use native.Mathlib.Omega.{arith}

-- The last `n` elements.
unfoldable pub keep_last : ℕ → List ℕ → List ℕ
keep_last n xs = drop (length xs - n) xs

pub keep_last_all : (n : ℕ) (xs : List ℕ) → length xs ≤ n → keep_last n xs ≡ xs
unfolding keep_last
keep_last_all n xs h = let e : length xs - n ≡ 0 = omega arith in rw e

pub keep_last-cons : (n x : ℕ) (xs : List ℕ) → n ≤ length xs → keep_last n (x ∷ xs) ≡ keep_last n xs
unfolding keep_last
keep_last-cons n x xs h = let e : suc (length xs) - n ≡ suc (length xs - n) = omega arith in rw e

length-drop : (k : ℕ) (xs : List ℕ) → length (drop k xs) ≡ length xs - k
length-drop zero xs = omega arith
length-drop (suc k) [] = omega arith
length-drop (suc k) (x ∷ xs) = omega (arith, length-drop k xs)

pub length-keep_last-le : (n : ℕ) (xs : List ℕ) → length (keep_last n xs) ≤ n
unfolding keep_last
length-keep_last-le n xs = omega (arith, length-drop (length xs - n) xs)

pub length-keep_last : (n : ℕ) (xs : List ℕ) → n ≤ length xs → length (keep_last n xs) ≡ n
unfolding keep_last
length-keep_last n xs h = omega (arith, length-drop (length xs - n) xs)

elem-drop : (x k : ℕ) (xs : List ℕ) → elem x xs ≡ false → elem x (drop k xs) ≡ false
unfolding elem
elem-drop x zero xs h = h
elem-drop x (suc k) [] h = refl
elem-drop x (suc k) (y ∷ xs) h = elem-drop x k xs (ground arith)

Distinct-drop : (k : ℕ) (xs : List ℕ) → Distinct xs → Distinct (drop k xs)
Distinct-drop zero xs d = d
Distinct-drop (suc k) [] d = tt
Distinct-drop (suc k) (x ∷ xs) d = Distinct-drop k xs d.1

pub Distinct-keep_last : (n : ℕ) (xs : List ℕ) → Distinct xs → Distinct (keep_last n xs)
unfolding keep_last
Distinct-keep_last n xs = Distinct-drop (length xs - n) xs

-- What stands in an end that is short enough stays.
pub elem-keep_last :
    (n x : ℕ) (xs ys : List ℕ)
    → length ys ≤ n
    → elem x ys ≡ true
    → elem x (keep_last n (xs ++ ys)) ≡ true
elem-keep_last n x [] ys h e = rw (keep_last_all n ys h) e
elem-keep_last n x (z ∷ xs) ys h e = elim (Bool-cases (leb n (length (xs ++ ys)))) [
  | inl full ↦ rw (keep_last-cons n z (xs ++ ys) (ground arith)) (elem-keep_last n x xs ys h e)
  | inr free ↦ rw (keep_last_all n (z ∷ (xs ++ ys)) (ground arith)) (kept z xs)
]
  where
    kept : (w : ℕ) (ws : List ℕ) → elem x (w ∷ (ws ++ ys)) ≡ true
    kept w ws = unfold elem in ground (arith, elem-append x ws ys)

-- With room there is no eviction.
pub make_room_free :
    (fuel capacity : ℕ) (required cache : List ℕ)
    → length cache < capacity
    → make_room (suc fuel) capacity required cache ≡ ok cache
unfolding make_room
make_room_free fuel capacity required cache h = ground arith

-- A full cache whose oldest key is not required loses that key.
pub make_room_full :
    (fuel capacity : ℕ) (required : List ℕ) (x : ℕ) (cache : List ℕ)
    → length (x ∷ cache) ≡ capacity
    → elem x required ≡ false
    → elem x cache ≡ false
    → make_room (suc (suc fuel)) capacity required (x ∷ cache) ≡ ok cache
unfolding make_room victim remove
make_room_full fuel capacity required x cache h spare fresh = ground (arith, remove_absent x cache)
