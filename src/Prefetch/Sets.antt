-- ===== src/Prefetch/Sets.antt =====
-- Lists without repetition that lie in another list are not longer than it: of numbers, for the
-- caches, and of pairs, for the issued transfers.
use expertflow.Base.{
  ℕ, suc, ◌≤◌, Bool-cases, true, false, ◌&&◌, List, [], ◌∷◌, ◌++◌, length, All, ◌==◌, if◌then◌else◌,
  ◌≡◌, refl, arith, inl, inr, length-append,
}
use expertflow.Base.Distinct.{length-remove-le, elem, remove, Distinct, elem-remove}
use expertflow.Prefetch.Inputs.{Pairs, pair_elem, pair_store}

length-remove-lt : (x : ℕ) (ys : List ℕ) → elem x ys ≡ true → suc (length (remove x ys)) ≤ length ys
unfolding elem remove
length-remove-lt x [] h = absurd (cc)
length-remove-lt x (y ∷ ys) h = elim (Bool-cases (y == x)) [
  | inl e ↦ rw e (omega (arith, length-remove-le x ys))
  | inr e ↦ rw e (omega (arith, length-remove-lt x ys (ground arith)))
]

-- Every element of the first list is in the second.
abbrev pub Within : List ℕ → List ℕ → Type 0
Within ys xs = All (λ x. elem x ys ≡ true) xs

Within-remove :
    (x : ℕ) (ys xs : List ℕ) → elem x xs ≡ false → Within ys xs → Within (remove x ys) xs
unfolding elem
Within-remove x ys [] fresh h = tt
Within-remove x ys (z ∷ xs) fresh h =
    (ground (arith, elem-remove z x ys), Within-remove x ys xs (ground arith) h.1)

pub length-Within-le : (xs ys : List ℕ) → Distinct xs → Within ys xs → length xs ≤ length ys
length-Within-le [] ys d h = omega arith
length-Within-le (x ∷ xs) ys d h = omega (
  arith,
  length-remove-lt x ys h.0,
  length-Within-le xs (remove x ys) d.1 (Within-remove x ys xs d.0 h.1),
)

-- The same of pairs.
abbrev pub DistinctPairs : Pairs → Type 0
DistinctPairs [] = Unit
DistinctPairs ((l, x) ∷ pairs) = (pair_elem l x pairs ≡ false) × DistinctPairs pairs

abbrev pub WithinPairs : Pairs → Pairs → Type 0
WithinPairs others = All (λ p. pair_elem p.0 p.1 others ≡ true)

remove_pair : ℕ → ℕ → Pairs → Pairs
remove_pair layer x [] = []
remove_pair layer x ((l, y) ∷ pairs) =
    let rest = remove_pair layer x pairs in if l == layer && y == x then rest else (l, y) ∷ rest

length-remove_pair-le : (layer x : ℕ) (ps : Pairs) → length (remove_pair layer x ps) ≤ length ps
unfolding remove_pair
length-remove_pair-le layer x [] = omega arith
length-remove_pair-le layer x ((l, y) ∷ ps) = ground (arith, length-remove_pair-le layer x ps)

length-remove_pair-lt :
    (layer x : ℕ) (ps : Pairs)
    → pair_elem layer x ps ≡ true
    → suc (length (remove_pair layer x ps)) ≤ length ps
unfolding pair_elem remove_pair
length-remove_pair-lt layer x [] h = absurd (cc)
length-remove_pair-lt layer x ((l, y) ∷ ps) h = elim (Bool-cases (l == layer && y == x)) [
  | inl e ↦ rw e (omega (arith, length-remove_pair-le layer x ps))
  | inr e ↦ rw e (omega (arith, length-remove_pair-lt layer x ps (ground arith)))
]

pair_elem-remove_pair :
    (m z layer x : ℕ) (ps : Pairs)
    → (layer == m && x == z) ≡ false
    → pair_elem m z ps ≡ true
    → pair_elem m z (remove_pair layer x ps) ≡ true
unfolding pair_elem remove_pair
pair_elem-remove_pair m z layer x [] other h = cc
pair_elem-remove_pair m z layer x ((l, y) ∷ ps) other h =
    ground (arith, pair_elem-remove_pair m z layer x ps other)

WithinPairs-remove_pair :
    (layer x : ℕ) (others ps : Pairs)
    → pair_elem layer x ps ≡ false
    → WithinPairs others ps
    → WithinPairs (remove_pair layer x others) ps
unfolding pair_elem
WithinPairs-remove_pair layer x others [] fresh h = tt
WithinPairs-remove_pair layer x others ((l, y) ∷ ps) fresh h = (
  pair_elem-remove_pair l y layer x others (ground arith) h.0,
  WithinPairs-remove_pair layer x others ps (ground arith) h.1,
)

pub length-WithinPairs-le :
    (ps others : Pairs) → DistinctPairs ps → WithinPairs others ps → length ps ≤ length others
length-WithinPairs-le [] others d h = omega arith
length-WithinPairs-le ((l, x) ∷ ps) others d h = omega (
  arith,
  length-remove_pair-lt l x others h.0,
  length-WithinPairs-le ps (remove_pair l x others) d.1
      (WithinPairs-remove_pair l x others ps d.0 h.1),
)

pair_elem-append :
    (m z : ℕ) (ps qs : Pairs)
    → pair_elem m z (ps ++ qs) ≡ (if pair_elem m z ps then true else pair_elem m z qs)
unfolding pair_elem
pair_elem-append m z [] qs = refl
pair_elem-append m z ((l, y) ∷ ps) qs = ground (arith, pair_elem-append m z ps qs)

DistinctPairs-snoc :
    (layer x : ℕ) (ps : Pairs)
    → pair_elem layer x ps ≡ false
    → DistinctPairs ps
    → DistinctPairs (ps ++ (layer, x) ∷ [])
unfolding pair_elem
DistinctPairs-snoc layer x [] fresh d = (refl, tt)
DistinctPairs-snoc layer x ((l, y) ∷ ps) fresh d = (
  ground (arith, pair_elem-append l y ps ((layer, x) ∷ [])),
  DistinctPairs-snoc layer x ps (ground arith) d.1,
)

WithinPairs-snoc :
    (others : Pairs) (layer x : ℕ) (ps : Pairs)
    → pair_elem layer x others ≡ true
    → WithinPairs others ps
    → WithinPairs others (ps ++ (layer, x) ∷ [])
WithinPairs-snoc others layer x [] e h = (e, tt)
WithinPairs-snoc others layer x (p ∷ ps) e h = (h.0, WithinPairs-snoc others layer x ps e h.1)

-- A set that grows by one pair of the other set stays a set within it.
pub pair_store-Within :
    (others : Pairs) (layer x : ℕ) (ps : Pairs)
    → pair_elem layer x others ≡ true
    → DistinctPairs ps × WithinPairs others ps
    → DistinctPairs (pair_store layer x ps) × WithinPairs others (pair_store layer x ps)
unfolding pair_store
pair_store-Within others layer x ps e h = elim (Bool-cases (pair_elem layer x ps)) [
  | inl there ↦ rw there h
  | inr fresh ↦
      rw fresh (DistinctPairs-snoc layer x ps fresh h.0, WithinPairs-snoc others layer x ps e h.1)
]

pub length-pair_store-le :
    (layer x : ℕ) (ps : Pairs) → length (pair_store layer x ps) ≤ suc (length ps)
unfolding pair_store
length-pair_store-le layer x ps = ground (arith, length-append ps ((layer, x) ∷ []))
