-- ===== src/Capacity/Keys.antt =====
-- src/expertflow/analysis/capacity_curve.py: the capacities, the width and the layers of a workload.
use expertflow.Base.{
  ℕ, ◌<◌, false, String, List, [], ◌∷◌, map, length, any_of_All, All, All-mono, ◌==◌, Result, ok,
  ◌≡◌, refl, arith, ap, Bool-cases, inl, inr, ==_refl,
}
use expertflow.Base.Distinct.{elem, remove, dedup, Distinct, elem-remove, Distinct-remove}
use expertflow.Trace.Event.{RouterTraceEvent}
use expertflow.CacheSim.{demand}
use expertflow.Capacity.{first_keys, only, router_top_k, bad_capacities, each}

-- The keys of `dict.fromkeys` are the members of the list, once each.
pub elem-first_keys : (x : ℕ) (xs : List ℕ) → elem x (first_keys xs) ≡ elem x xs
unfolding elem first_keys
elem-first_keys x [] = refl
elem-first_keys x (y ∷ xs) = ground (arith, elem-remove x y (first_keys xs), elem-first_keys x xs)

pub Distinct-first_keys : (xs : List ℕ) → Distinct (first_keys xs)
unfolding first_keys
Distinct-first_keys [] = tt
Distinct-first_keys (x ∷ xs) =
    (ground (arith, elem-remove x x (first_keys xs)), Distinct-remove x _ (Distinct-first_keys xs))

All-remove {ℓ} : (P : ℕ → Type ℓ) (x : ℕ) (xs : List ℕ) → All P xs → All P (remove x xs)
unfolding remove
All-remove P x [] h = tt
All-remove P x (y ∷ xs) h = elim (Bool-cases (y == x)) [
  | inl e ↦ rw e (All-remove P x xs h.1)
  | inr e ↦ rw e (h.0, All-remove P x xs h.1)
]

pub All-first_keys {ℓ} : (P : ℕ → Type ℓ) (xs : List ℕ) → All P xs → All P (first_keys xs)
unfolding first_keys
All-first_keys P [] h = tt
All-first_keys P (x ∷ xs) h = (h.0, All-remove P x _ (All-first_keys P xs h.1))

dedup_constant : (k x : ℕ) (xs : List ℕ) → All (λ y. y ≡ k) (x ∷ xs) → dedup (x ∷ xs) ≡ k ∷ []
unfolding dedup elem
dedup_constant k x [] h = ap (λ n. n ∷ []) h.0
dedup_constant k x (y ∷ xs) h = rw (dedup_constant k y xs h.1, h.0, ==_refl k) refl

map-demand :
    (k : ℕ) (trace : List RouterTraceEvent)
    → All (λ e. demand e ≡ k) trace
    → All (λ y. y ≡ k) (map demand trace)
map-demand k [] h = tt
map-demand k (e ∷ trace) h = (h.0, map-demand k trace h.1)

-- Events that all demand `k` experts have the width `k`.
pub router_top_k_constant :
    (message : String) (k : ℕ) (trace : List RouterTraceEvent)
    → 0 < length trace
    → All (λ e. demand e ≡ k) trace
    → router_top_k message trace ≡ ok k
unfolding router_top_k only
router_top_k_constant message k [] p h = ground arith
router_top_k_constant message k (e ∷ trace) p h =
    rw (dedup_constant k (demand e) (map demand trace) (h.0, map-demand k trace h.1)) refl

pub bad_capacities_none :
    (capacities : List ℕ)
    → 0 < length capacities
    → All (λ c. 0 < c) capacities
    → bad_capacities capacities ≡ false
unfolding bad_capacities
bad_capacities_none capacities p h =
    let positive =
      any_of_All (λ c. c == 0) capacities (All-mono _ _ capacities (λ c q. ground arith) h) in
    rw positive (ground arith)

-- A loop whose rounds succeed gives one value for each round, in order.
pub each_total {ℓ κ ν} :
    {A B : Type ℓ} (round : A → Result B) (key : B → A) (Q : A → Type κ) (P : B → Type ν)
    (xs : List A)
    → ((x : A) → Q x → (y : B) × (round x ≡ ok y) × (key y ≡ x) × P y)
    → All Q xs
    → (ys : List B) × (each round xs ≡ ok ys) × (map key ys ≡ xs) × All P ys
unfolding each
each_total round key Q P [] good h = ([], refl, refl, tt)
each_total round key Q P (x ∷ xs) good h =
    let (y, ran, same, holds) = good x h.0 in
    let (ys, all_ran, all_same, all_hold) = each_total round key Q P xs good h.1 in
    (y ∷ ys, rw (ran, all_ran) refl, rw (same, all_same) refl, (holds, all_hold))
