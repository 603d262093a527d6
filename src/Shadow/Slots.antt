-- ===== src/Shadow/Slots.antt =====
-- src/expertflow/predictor/shadow.py: `_demand` keeps a cache of the last experts that were used.
use expertflow.Base.{
  ◌>>=◌, ℕ, suc, ◌≤◌, ◌<◌, Bool-cases, true, false, inl, inr, List, [], ◌∷◌, ◌++◌, length, ltb, leb,
  ◌==◌, ok, ◌≡◌, refl, sym, ◌∙◌, arith, length-append,
}
use expertflow.Base.Distinct.{
  elem, remove, Distinct, remove_absent, length-remove, Distinct-remove, Distinct-snoc, elem-remove,
}
use expertflow.Base.Ordered.{move_to_end, store}
use expertflow.Base.Ordered.Recency.{
  keep_last, keep_last_all, keep_last-cons, length-keep_last-le, Distinct-keep_last,
}
use expertflow.Shadow.{pop_first, demand_slot, demand_all}

length-remove-ge : (x : ℕ) (h : List ℕ) → Distinct h → length h ≤ suc (length (remove x h))
length-remove-ge x h d = elim (Bool-cases (elem x h)) [
  | inl e ↦ omega (arith, length-remove x h d e)
  | inr e ↦ rw (remove_absent x h e) (omega arith)
]

pub length-move_to_end : (x : ℕ) (h : List ℕ) → length (move_to_end x h) ≡ suc (length (remove x h))
unfolding move_to_end
length-move_to_end x h = omega (arith, length-append (remove x h) (x ∷ []))

pub Distinct-move_to_end : (x : ℕ) (h : List ℕ) → Distinct h → Distinct (move_to_end x h)
unfolding move_to_end
Distinct-move_to_end x h d =
    Distinct-snoc (remove x h) x (Distinct-remove x h d) (elem-remove x x h ∙ (ground arith))

-- Of an order of uses the end is all that a further use needs.
keep_last-move_to_end :
    (n x : ℕ) (h : List ℕ)
    → Distinct h
    → keep_last n (move_to_end x (keep_last n h)) ≡ keep_last n (move_to_end x h)
keep_last-move_to_end n x [] d = rw (keep_last_all n [] (omega arith))
keep_last-move_to_end n x (y ∷ h) d = elim (Bool-cases (leb n (length h))) [
  | inl full ↦
      rw (keep_last-cons n y h (ground arith))
        (keep_last-move_to_end n x h d.1 ∙ sym (dropped full))
  | inr free ↦ rw (keep_last_all n (y ∷ h) (ground arith))
]
  where
    dropped :
        leb n (length h) ≡ true
        → keep_last n (move_to_end x (y ∷ h)) ≡ keep_last n (move_to_end x h)
    dropped full = elim (Bool-cases (y == x)) [
      | inl e ↦ unfold move_to_end remove in rw e
      | inr e ↦
          unfold move_to_end remove in
          rw e (
            keep_last-cons n y (remove x h ++ x ∷ [])
              (ground (arith, length-append (remove x h) (x ∷ []), length-remove-ge x h d.1)))
    ]

fresh_end : (x : ℕ) (cache : List ℕ) → elem x cache ≡ false → move_to_end x cache ≡ store x cache
unfolding move_to_end store
fresh_end x cache miss = rw (remove_absent x cache miss, miss) refl

full_cache :
    (capacity x : ℕ) (cache : List ℕ)
    → 0 < capacity
    → length cache ≡ capacity
    → elem x cache ≡ false
    → (pop_first cache >>= λ r. ok (store x r.1)) ≡ ok (keep_last capacity (store x cache))
unfolding pop_first store elem
full_cache capacity x [] p full miss = absurd (omega arith)
full_cache capacity x (y ∷ cache) p full miss =
    let apart : (y == x) ≡ false = ground arith in
    let rest : elem x cache ≡ false = ground arith in
    let long : length (cache ++ x ∷ []) ≡ capacity = omega (arith, length-append cache (x ∷ [])) in
    rw
      (
        apart,
        rest,
        keep_last-cons capacity y (cache ++ x ∷ []) (omega (arith, long)),
        keep_last_all capacity (cache ++ x ∷ []) (omega (arith, long)),
      )
      refl

-- With a capacity that is not 0, a demand does not fail, and moves the expert to the end of the
-- order, of which the cache keeps the last.
pub demand_slot-keep_last :
    (capacity x : ℕ) (cache : List ℕ)
    → 0 < capacity
    → Distinct cache
    → length cache ≤ capacity
    → demand_slot cache x capacity ≡ ok (keep_last capacity (move_to_end x cache))
unfolding demand_slot
demand_slot-keep_last capacity x cache p d bounded = elim (Bool-cases (elem x cache)) [
  | inl hit ↦
      rw
        (
          hit,
          keep_last_all capacity (move_to_end x cache)
              (omega (arith, length-move_to_end x cache, length-remove x cache d hit)),
        )
        refl
  | inr miss ↦ elim (Bool-cases (ltb (length cache) capacity)) [
    | inl free ↦
        rw
          (
            miss,
            free,
            fresh_end x cache miss,
            keep_last_all capacity (store x cache) (roomy miss free),
          )
          refl
    | inr full ↦
        rw (miss, full, fresh_end x cache miss) (full_cache capacity x cache p (ground arith) miss)
  ]
]
  where
    roomy :
        elem x cache ≡ false
        → ltb (length cache) capacity ≡ true
        → length (store x cache) ≤ capacity
    roomy miss free = unfold store in rw miss (ground (arith, length-append cache (x ∷ [])))

-- The order after the experts were used one by one.
unfoldable pub uses : List ℕ → List ℕ → List ℕ
uses history [] = history
uses history (x ∷ xs) = uses (move_to_end x history) xs

-- With a capacity that is not 0, demands on the cache that holds the last `capacity` experts of an
-- order of uses without repetition do not fail, and the cache holds those of the longer order
-- afterwards.
pub demand_all-keep_last :
    (capacity : ℕ) (history xs : List ℕ)
    → 0 < capacity
    → Distinct history
    → demand_all (keep_last capacity history) xs capacity
      ≡ ok (keep_last capacity (uses history xs))
unfolding demand_all uses
demand_all-keep_last capacity history [] p d = refl
demand_all-keep_last capacity history (x ∷ xs) p d =
    rw
      (
        demand_slot-keep_last capacity x (keep_last capacity history) p
            (Distinct-keep_last capacity history d) (length-keep_last-le capacity history),
        keep_last-move_to_end capacity x history d,
      )
      (demand_all-keep_last capacity (move_to_end x history) xs p
        (Distinct-move_to_end x history d))
