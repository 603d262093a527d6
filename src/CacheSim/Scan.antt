-- ===== src/CacheSim/Scan.antt =====
-- src/expertflow/analysis/cache_sim.py: the loop of the `lru` policy that tells ready from blocking
-- experts, in closed form.
use expertflow.Base.{
  keep-append, ℕ, true, false, not, List, [], ◌∷◌, ◌++◌, length, keep, ◌≡◌, refl, ap, sym, ◌∙◌, inl,
  inr, arith, length-append, Bool-cases,
}
use expertflow.Base.Distinct.{
  length-remove, Distinct-remove, Distinct-snoc, elem, remove, Distinct, elem-append, elem-remove,
  remove_absent,
}
use expertflow.Base.Ordered.{move_to_end}
use expertflow.CacheSim.{scan}
use mathlib.Core.List.{append_assoc, append-nil}

-- What is not of `ids` stays, and what is of them and was there is used again.
abbrev pub spare : List ℕ → List ℕ → List ℕ
spare ids = keep (λ y. not (elem y ids))

abbrev pub hits : List ℕ → List ℕ → List ℕ
hits cache = keep (λ x. elem x cache)

abbrev pub misses : List ℕ → List ℕ → List ℕ
misses cache = keep (λ x. not (elem x cache))

hits-move_to_end :
    (x : ℕ) (cache xs : List ℕ)
    → elem x xs ≡ false
    → (hits (move_to_end x cache) xs ≡ hits cache xs)
      × (misses (move_to_end x cache) xs ≡ misses cache xs)
unfolding elem keep move_to_end
hits-move_to_end x cache [] h = (refl, refl)
hits-move_to_end x cache (y ∷ xs) h =
    let same : elem y (remove x cache ++ x ∷ []) ≡ elem y cache =
      ground (arith, elem-append y (remove x cache) (x ∷ []), elem-remove y x cache) in
    ground (arith, same, hits-move_to_end x cache xs)

spare-remove : (x : ℕ) (xs cache : List ℕ) → spare xs (remove x cache) ≡ spare (x ∷ xs) cache
unfolding elem keep remove
spare-remove x xs [] = refl
spare-remove x xs (y ∷ cache) = ground (arith, spare-remove x xs cache)

spare-absent :
    (x : ℕ) (xs cache : List ℕ) → elem x cache ≡ false → spare xs cache ≡ spare (x ∷ xs) cache
spare-absent x xs cache h = ap (spare xs) (sym (remove_absent x cache h)) ∙ spare-remove x xs cache

spare-move_to_end :
    (x : ℕ) (xs cache : List ℕ)
    → elem x xs ≡ false
    → spare xs (move_to_end x cache) ≡ spare (x ∷ xs) cache ++ x ∷ []
unfolding move_to_end
spare-move_to_end x xs cache h =
    keep-append _ (remove x cache) (x ∷ []) ∙ (unfold keep in rw (h, spare-remove x xs cache))

split-hit :
    (x : ℕ) (cache xs : List ℕ)
    → elem x cache ≡ true
    → (hits cache (x ∷ xs) ≡ x ∷ hits cache xs) × (misses cache (x ∷ xs) ≡ misses cache xs)
unfolding keep
split-hit x cache xs h = (rw h, rw h)

split-miss :
    (x : ℕ) (cache xs : List ℕ)
    → elem x cache ≡ false
    → (hits cache (x ∷ xs) ≡ hits cache xs) × (misses cache (x ∷ xs) ≡ x ∷ misses cache xs)
unfolding keep
split-miss x cache xs h = (rw h, rw h)

spare-nil : (cache : List ℕ) → spare [] cache ≡ cache
unfolding elem keep
spare-nil [] = refl
spare-nil (x ∷ cache) = ap (◌∷◌ x) (spare-nil cache)

-- The loop over the event's experts in closed form.
pub scan-hits :
    (ids cache : List ℕ)
    → Distinct ids
    → scan cache ids ≡ (spare ids cache ++ hits cache ids, hits cache ids, misses cache ids)
unfolding scan
scan-hits [] cache d = unfold keep in rw (spare-nil cache, append-nil cache)
scan-hits (x ∷ xs) cache d = elim (Bool-cases (elem x cache)) [
  | inl hit ↦
      rw (hit, scan-hits xs (move_to_end x cache) d.1)
        (rw (
          (hits-move_to_end x cache xs d.0).0,
          (hits-move_to_end x cache xs d.0).1,
          spare-move_to_end x xs cache d.0,
          (split-hit x cache xs hit).0,
          (split-hit x cache xs hit).1,
          append_assoc (spare (x ∷ xs) cache) (x ∷ []) (hits cache xs),
        ))
  | inr miss ↦
      rw (miss, scan-hits xs cache d.1)
        (rw (
          (split-miss x cache xs miss).0,
          (split-miss x cache xs miss).1,
          spare-absent x xs cache miss,
        ))
]

-- What the loop leaves: the same keys, each once.
pub record SameKeys (before after : List ℕ) : Type 0 where
  pub distinct : Distinct after
  pub count : length after ≡ length before
  pub same : (y : ℕ) → elem y after ≡ elem y before

SameKeys-move_to_end :
    (x : ℕ) (cache : List ℕ)
    → Distinct cache
    → elem x cache ≡ true
    → SameKeys cache (move_to_end x cache)
unfolding move_to_end
SameKeys-move_to_end x cache d h = record {
  distinct =
      Distinct-snoc (remove x cache) x (Distinct-remove x cache d)
        (rw (elem-remove x x cache) (ground arith));
  count = omega (arith, length-append (remove x cache) (x ∷ []), length-remove x cache d h);
  same = λ y.
      unfold elem in
      ground (arith, elem-append y (remove x cache) (x ∷ []), elem-remove y x cache, h);
}

pub SameKeys-scan : (ids cache : List ℕ) → Distinct cache → SameKeys cache (scan cache ids).0
unfolding scan
SameKeys-scan [] cache d = record { distinct = d; count = refl; same = λ y. refl }
SameKeys-scan (x ∷ xs) cache d = elim (Bool-cases (elem x cache)) [
  | inl hit ↦
      let moved = SameKeys-move_to_end x cache d hit in
      let later = SameKeys-scan xs (move_to_end x cache) moved.distinct in
      rw hit (record {
        distinct = later.distinct;
        count = later.count ∙ moved.count;
        same = λ y. later.same y ∙ moved.same y;
      })
  | inr miss ↦ rw miss (SameKeys-scan xs cache d)
]
