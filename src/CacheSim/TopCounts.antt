-- ===== src/CacheSim/TopCounts.antt =====
-- src/expertflow/analysis/cache_sim.py: `sorted(counts.items(), key=...)[:capacity]` picks the keys
-- with the largest sum of counts.
use expertflow.Base.{
  ℕ, zero, suc, ◌+◌, ◌≤◌, true, false, List, [], ◌∷◌, map, length, take, All, All-mono, sum_by,
  ◌==◌, if◌then◌else◌, ◌≡◌, refl, ◌∙◌, inl, inr, arith, Bool-cases,
}
use expertflow.Base.Dict
use expertflow.Base.Dict.{Dict}
use expertflow.Base.Distinct.{
  elem, remove, Distinct, elem-remove, remove_absent, length-remove, Distinct-remove,
}
use expertflow.Base.Sort.{insert_by, sort_by}
use expertflow.CacheSim.{hotter}

abbrev pub Descending : Dict ℕ → Type 0
Descending [] = Unit
Descending (e ∷ d) = All (λ f. f.1 ≤ e.1) d × Descending d

All-insert_by {κ} :
    (P : ℕ × ℕ → Type κ) (x : ℕ × ℕ) (d : Dict ℕ) → P x → All P d → All P (insert_by hotter x d)
unfolding insert_by
All-insert_by P x [] p h = (p, tt)
All-insert_by P x (y ∷ d) p h = elim (Bool-cases (hotter x y)) [
  | inl e ↦ rw e (p, h)
  | inr e ↦ rw e (h.0, All-insert_by P x d p h.1)
]

hotter-le : (x y : ℕ × ℕ) → hotter x y ≡ true → y.1 ≤ x.1
unfolding hotter
hotter-le x y h = ground arith

not-hotter-le : (x y : ℕ × ℕ) → hotter x y ≡ false → x.1 ≤ y.1
unfolding hotter
not-hotter-le x y h = ground arith

Descending-insert_by : (x : ℕ × ℕ) (d : Dict ℕ) → Descending d → Descending (insert_by hotter x d)
unfolding insert_by
Descending-insert_by x [] h = (tt, tt)
Descending-insert_by x (y ∷ d) h = elim (Bool-cases (hotter x y)) [
  | inl e ↦
      let below = hotter-le x y e in rw e ((below, All-mono _ _ d (λ f k. omega arith) h.0), h)
  | inr e ↦ rw e (All-insert_by _ x d (not-hotter-le x y e) h.0, Descending-insert_by x d h.1)
]

pub Descending-sort_by : (d : Dict ℕ) → Descending (sort_by hotter d)
unfolding sort_by
Descending-sort_by [] = tt
Descending-sort_by (x ∷ d) = Descending-insert_by x (sort_by hotter d) (Descending-sort_by d)

elem-insert_by :
    (k : ℕ) (x : ℕ × ℕ) (d : Dict ℕ)
    → elem k (Dict.keys (insert_by hotter x d)) ≡ (if x.0 == k then true else elem k (Dict.keys d))
unfolding insert_by elem
elem-insert_by k x [] = refl
elem-insert_by k x (y ∷ d) = ground (arith, elem-insert_by k x d)

Distinct-insert_by :
    (x : ℕ × ℕ) (d : Dict ℕ)
    → elem x.0 (Dict.keys d) ≡ false
    → Distinct (Dict.keys d)
    → Distinct (Dict.keys (insert_by hotter x d))
unfolding insert_by elem
Distinct-insert_by x [] h d = (refl, tt)
Distinct-insert_by x (y ∷ d) h k = ground (arith, elem-insert_by y.0 x d, Distinct-insert_by x d)

get_or-insert_by :
    (k : ℕ) (x : ℕ × ℕ) (d : Dict ℕ)
    → elem x.0 (Dict.keys d) ≡ false
    → Dict.get_or 0 k (insert_by hotter x d) ≡ (if x.0 == k then x.1 else Dict.get_or 0 k d)
unfolding insert_by elem Dict.get_or
get_or-insert_by k x [] h = refl
get_or-insert_by k x (y ∷ d) h = ground (arith, get_or-insert_by k x d)

-- Sorting keeps the keys and what they map to.
elem-sort_by : (k : ℕ) (d : Dict ℕ) → elem k (Dict.keys (sort_by hotter d)) ≡ elem k (Dict.keys d)
unfolding sort_by elem
elem-sort_by k [] = refl
elem-sort_by k (x ∷ d) = ground (arith, elem-insert_by k x (sort_by hotter d), elem-sort_by k d)

pub Distinct-sort_by :
    (d : Dict ℕ) → Distinct (Dict.keys d) → Distinct (Dict.keys (sort_by hotter d))
unfolding sort_by
Distinct-sort_by [] h = tt
Distinct-sort_by (x ∷ d) h =
    Distinct-insert_by x (sort_by hotter d) (elem-sort_by x.0 d ∙ h.0) (Distinct-sort_by d h.1)

pub get_or-sort_by :
    (k : ℕ) (d : Dict ℕ)
    → Distinct (Dict.keys d)
    → Dict.get_or 0 k (sort_by hotter d) ≡ Dict.get_or 0 k d
unfolding sort_by Dict.get_or
get_or-sort_by k [] h = refl
get_or-sort_by k (x ∷ d) h =
    ground (arith, get_or-insert_by k x (sort_by hotter d), elem-sort_by x.0 d, get_or-sort_by k d)

get_or-le : (c k : ℕ) (d : Dict ℕ) → All (λ f. f.1 ≤ c) d → Dict.get_or 0 k d ≤ c
unfolding Dict.get_or
get_or-le c k [] h = omega arith
get_or-le c k (e ∷ d) h = ground (arith, get_or-le c k d h.1)

sum_by-remove :
    (f : ℕ → ℕ) (x : ℕ) (xs : List ℕ)
    → Distinct xs
    → elem x xs ≡ true
    → sum_by f xs ≡ f x + sum_by f (remove x xs)
unfolding sum_by elem remove
sum_by-remove f x [] d h = cc
sum_by-remove f x (y ∷ xs) d h = ground (arith, sum_by-remove f x xs d.1, remove_absent x xs, d.0)

-- The head's entry does not count for other keys.
sum_others :
    (i c : ℕ) (d : Dict ℕ) (xs : List ℕ)
    → elem i xs ≡ false
    → sum_by (λ x. Dict.get_or 0 x ((i, c) ∷ d)) xs ≡ sum_by (λ x. Dict.get_or 0 x d) xs
unfolding sum_by elem Dict.get_or
sum_others i c d [] h = refl
sum_others i c d (x ∷ xs) h = ground (arith, sum_others i c d xs)

sum_empty : (xs : List ℕ) → sum_by (λ x. Dict.get_or 0 x []) xs ≡ 0
unfolding sum_by Dict.get_or
sum_empty [] = refl
sum_empty (x ∷ xs) = omega (arith, sum_empty xs)

get_or-head : (i c : ℕ) (d : Dict ℕ) → Dict.get_or 0 i ((i, c) ∷ d) ≡ c
unfolding Dict.get_or
get_or-head i c d = ground arith

pub elem-take :
    (i k : ℕ) (d : Dict ℕ)
    → elem i (Dict.keys d) ≡ false
    → elem i (map (λ e. e.0) (take k d)) ≡ false
unfolding elem
elem-take i zero d h = refl
elem-take i (suc k) [] h = refl
elem-take i (suc k) (e ∷ d) h = ground (arith, elem-take i k d)

-- No choice of at most `k` keys has a larger sum than the first `k` entries.
pub sum-le-take :
    (d : Dict ℕ) (k : ℕ) (xs : List ℕ)
    → Descending d
    → Distinct xs
    → length xs ≤ k
    → sum_by (λ x. Dict.get_or 0 x d) xs ≤ sum_by (λ e. e.1) (take k d)
unfolding sum_by
sum-le-take d k [] s u h = omega arith
sum-le-take d zero (x ∷ xs) s u h = absurd (omega arith)
sum-le-take [] (suc k) (x ∷ xs) s u h = omega (arith, sum_empty (x ∷ xs))
sum-le-take ((i, c) ∷ d) (suc k) (x ∷ xs) s u h = elim (Bool-cases (elem i (x ∷ xs))) [
  | inl there ↦
      let others = remove i (x ∷ xs) in
      let gone : elem i others ≡ false = elem-remove i i (x ∷ xs) ∙ ground arith in
      omega (
        arith,
        sum_by-remove (λ y. Dict.get_or 0 y ((i, c) ∷ d)) i (x ∷ xs) u there,
        get_or-head i c d,
        sum_others i c d others gone,
        sum-le-take d k others s.1 (Distinct-remove i (x ∷ xs) u),
        length-remove i (x ∷ xs) u there,
      )
  | inr absent ↦
      omega
        (arith, sum_others i c d (x ∷ xs) absent, get_or-le c x d s.0, sum-le-take d k xs s.1 u.1)
]

-- The first `k` keys have just that sum.
pub sum-take :
    (d : Dict ℕ) (k : ℕ)
    → Distinct (Dict.keys d)
    → sum_by (λ x. Dict.get_or 0 x d) (map (λ e. e.0) (take k d)) ≡ sum_by (λ e. e.1) (take k d)
unfolding sum_by
sum-take d zero u = refl
sum-take [] (suc k) u = refl
sum-take ((i, c) ∷ d) (suc k) u = omega (
  arith,
  get_or-head i c d,
  sum_others i c d (map (λ e. e.0) (take k d)) (elem-take i k d u.0),
  sum-take d k u.1,
)
