-- ===== src/CacheSim/Hotset.antt =====
-- src/expertflow/analysis/cache_sim.py: the `static_hotset` policy is the best fixed residency.
use expertflow.Base.{
  ℕ, zero, suc, ◌+◌, ◌≤◌, ◌<◌, true, false, List, [], ◌∷◌, map, length, take, All, keep, sum_by,
  ◌==◌, if◌then◌else◌, ok, ◌≡◌, refl, ap, sym, ◌∙◌, inl, inr, arith, sum_by_split, Bool-cases,
  eq_of_==,
}
use expertflow.Base.Dict
use expertflow.Base.Dict.{Dict}
use expertflow.Base.Distinct.Occurrences.{occurrences}
use expertflow.Base.Distinct.{elem, Distinct}
use expertflow.Trace.Event.{RouterTraceEvent}
use expertflow.Base.Sort.{sort_by}
use expertflow.CacheSim.{
  demand, hotter, hot_experts, count_layers, static_residents, resident_outcome, static_outcomes,
  outcomes_of, policy_outcomes, static_hotset, PolicyEventOutcome,
}
use expertflow.CacheSim.Counts.{
  selections, count_layers-selections, Distinct-count_layers, layers_counted,
}
use expertflow.CacheSim.TopCounts.{
  Descending-sort_by, Distinct-sort_by, get_or-sort_by, elem-take, sum-le-take, sum-take,
}
use mathlib.Core.Path.{fun_ext}
use native.Mathlib.Nat.{zero-add}
use expertflow.CacheSim.History.{validated_trace_lem}

-- How many of a layer's selections meet a fixed set of residents.
unfoldable pub resident_hits : List ℕ → ℕ → List RouterTraceEvent → ℕ
resident_hits residents layer [] = 0
resident_hits residents layer (e ∷ trace) =
    (if e.layer_id == layer then length (keep (λ x. elem x residents) e.selected_expert_ids) else 0)
    + resident_hits residents layer trace

-- How many ready experts the outcomes of a layer have.
unfoldable pub layer_ready : ℕ → List PolicyEventOutcome → ℕ
layer_ready layer [] = 0
layer_ready layer (o ∷ os) =
    (if o.event.layer_id == layer then length o.ready_expert_ids else 0) + layer_ready layer os

keep-cons :
    (x : ℕ) (xs ids : List ℕ)
    → elem x xs ≡ false
    → length (keep (λ y. elem y (x ∷ xs)) ids)
      ≡ occurrences x ids + length (keep (λ y. elem y xs) ids)
unfolding keep occurrences elem
keep-cons x xs [] h = omega arith
keep-cons x xs (y ∷ ids) h = ground (arith, keep-cons x xs ids h)

keep-nil : (ids : List ℕ) → length (keep (λ y. elem y []) ids) ≡ 0
unfolding keep elem
keep-nil [] = refl
keep-nil (y ∷ ids) = keep-nil ids

keep-occurrences :
    (xs ids : List ℕ)
    → Distinct xs
    → length (keep (λ y. elem y xs) ids) ≡ sum_by (λ x. occurrences x ids) xs
unfolding sum_by
keep-occurrences [] ids d = keep-nil ids
keep-occurrences (x ∷ xs) ids d = omega (arith, keep-cons x xs ids d.0, keep-occurrences xs ids d.1)

sum_zero : (xs : List ℕ) → sum_by (λ _. 0) xs ≡ 0
unfolding sum_by
sum_zero [] = refl
sum_zero (x ∷ xs) = omega (arith, sum_zero xs)

-- Counted by events or by experts, the hits are the same.
resident_hits-selections :
    (layer : ℕ) (xs : List ℕ) (trace : List RouterTraceEvent)
    → Distinct xs
    → resident_hits xs layer trace ≡ sum_by (λ x. selections layer x trace) xs
unfolding resident_hits selections
resident_hits-selections layer xs [] d = sym (sum_zero xs)
resident_hits-selections layer xs (e ∷ trace) d = elim (Bool-cases (e.layer_id == layer)) [
  | inl same ↦ rw same (
      omega (
        arith,
        keep-occurrences xs e.selected_expert_ids d,
        resident_hits-selections layer xs trace d,
        sum_by_split (λ x. occurrences x e.selected_expert_ids + selections layer x trace)
            (λ x. occurrences x e.selected_expert_ids) (λ x. selections layer x trace) xs
            (λ x. refl),
      ))
  | inr other ↦ rw other (
      omega (
        arith,
        resident_hits-selections layer xs trace d,
        sum_by_split (λ x. 0 + selections layer x trace) (λ x. 0) (λ x. selections layer x trace) xs
            (λ x. refl),
        sum_zero xs,
      ))
]

hot_experts-nil : (capacity : ℕ) → hot_experts capacity [] ≡ []
unfolding hot_experts sort_by
hot_experts-nil zero = refl
hot_experts-nil (suc n) = refl

Distinct-take : (k : ℕ) (d : Dict ℕ) → Distinct (Dict.keys d) → Distinct (map (λ e. e.0) (take k d))
Distinct-take zero d u = tt
Distinct-take (suc k) [] u = tt
Distinct-take (suc k) (e ∷ d) u = (elem-take e.0 k d u.0, Distinct-take k d u.1)

pub static_residents-get_or :
    (capacity layer : ℕ) (trace : List RouterTraceEvent)
    → Dict.get_or [] layer (static_residents trace capacity)
      ≡ hot_experts capacity (Dict.get_or [] layer (count_layers trace []))
unfolding static_residents
static_residents-get_or capacity layer trace =
    rw (hot_experts-nil capacity) at
      (Dict.get_or-map_values (hot_experts capacity) [] layer (count_layers trace []))

module _ (capacity layer : ℕ) (trace : List RouterTraceEvent) where
  abbrev counts : Dict ℕ
  counts = Dict.get_or [] layer (count_layers trace [])

  counts-Distinct : Distinct (Dict.keys counts)
  counts-Distinct = Distinct-count_layers layer trace [] (λ l. unfold Dict.get_or in tt)

  selections-counts : (x : ℕ) → selections layer x trace ≡ Dict.get_or 0 x (sort_by hotter counts)
  selections-counts x =
      sym (
        count_layers-selections layer x trace []
        ∙ unfold Dict.get_or in zero-add (selections layer x trace))
      ∙ sym (get_or-sort_by x _ (counts-Distinct))

  hot-Distinct : Distinct (hot_experts capacity counts)
  unfolding hot_experts
  hot-Distinct = Distinct-take capacity _ (Distinct-sort_by counts counts-Distinct)

  as_counts :
      (xs : List ℕ)
      → sum_by (λ x. selections layer x trace) xs
        ≡ sum_by (λ x. Dict.get_or 0 x (sort_by hotter counts)) xs
  as_counts xs = ap (λ (f : ℕ → ℕ). sum_by f xs) (fun_ext selections-counts)

  hot_sum :
      sum_by (λ x. Dict.get_or 0 x (sort_by hotter counts)) (hot_experts capacity counts)
      ≡ sum_by (λ e. e.1) (take capacity (sort_by hotter counts))
  unfolding hot_experts
  hot_sum = sum-take (sort_by hotter counts) capacity (Distinct-sort_by counts counts-Distinct)

  -- No set of at most `capacity` residents meets more of the layer's selections.
  pub hot_experts_best :
      (xs : List ℕ)
      → Distinct xs
      → length xs ≤ capacity
      → resident_hits xs layer trace
        ≤ resident_hits (Dict.get_or [] layer (static_residents trace capacity)) layer trace
  hot_experts_best xs d fits = rw static_residents-get_or (
      omega (
        arith,
        resident_hits-selections layer xs trace d,
        resident_hits-selections layer (hot_experts capacity counts) trace hot-Distinct,
        as_counts xs,
        as_counts (hot_experts capacity counts),
        sum-le-take (sort_by hotter counts) capacity xs (Descending-sort_by counts) d fits,
        hot_sum,
      ))

-- The outcomes that the policy gives beside the residents of each layer.
unfoldable pub hotset_outcomes : Dict (List ℕ) → List RouterTraceEvent → List PolicyEventOutcome
hotset_outcomes residents = map (λ e. resident_outcome (Dict.get_or [] e.layer_id residents) e)

pub static_outcomes_total :
    (residents : Dict (List ℕ)) (trace : List RouterTraceEvent)
    → All (λ e. elem e.layer_id (Dict.keys residents) ≡ true) trace
    → static_outcomes residents trace ≡ ok (hotset_outcomes residents trace)
unfolding static_outcomes hotset_outcomes
static_outcomes_total residents [] h = refl
static_outcomes_total residents (e ∷ trace) h = rw (
  Dict.lookup_present [] e.layer_id residents h.0,
  static_outcomes,
  static_outcomes_total residents trace h.1,
)

pub residents_present :
    (capacity : ℕ) (trace : List RouterTraceEvent)
    → All (λ e. elem e.layer_id (Dict.keys (static_residents trace capacity)) ≡ true) trace
unfolding static_residents
residents_present capacity trace =
    rw (Dict.keys-map_values (hot_experts capacity) (count_layers trace []))
      (layers_counted trace [])

layer_ready-hotset :
    (layer : ℕ) (residents : Dict (List ℕ)) (trace : List RouterTraceEvent)
    → layer_ready layer (hotset_outcomes residents trace)
      ≡ resident_hits (Dict.get_or [] layer residents) layer trace
unfolding layer_ready resident_hits hotset_outcomes resident_outcome
layer_ready-hotset layer residents [] = refl
layer_ready-hotset layer residents (e ∷ trace) = elim (Bool-cases (e.layer_id == layer)) [
  | inl same ↦
      ground (arith, eq_of_== e.layer_id layer same, layer_ready-hotset layer residents trace)
  | inr other ↦ rw other (ap (λ (n : ℕ). 0 + n) (layer_ready-hotset layer residents trace))
]

-- On a validated trace the policy raises no exception.
pub policy_outcomes-hotset :
    (capacity : ℕ) (trace : List RouterTraceEvent)
    → 0 < capacity
    → All (λ e. demand e ≤ capacity) trace
    → policy_outcomes trace static_hotset capacity
      ≡ ok (hotset_outcomes (static_residents trace capacity) trace)
unfolding policy_outcomes outcomes_of
policy_outcomes-hotset capacity trace p fits = rw (validated_trace_lem capacity trace p fits) (
    static_outcomes_total (static_residents trace capacity) trace
      (residents_present capacity trace))

-- With a capacity that is not 0 and that no event exceeds, the `static_hotset` policy raises no
-- exception, and for every layer its outcomes have at least as many ready experts as any other
-- fixed set of at most `capacity` experts would have met in that layer's events.
pub hotset_best :
    (capacity layer : ℕ) (trace : List RouterTraceEvent) (xs : List ℕ)
    → 0 < capacity
    → All (λ e. demand e ≤ capacity) trace
    → Distinct xs
    → length xs ≤ capacity
    → (os : List PolicyEventOutcome) × (policy_outcomes trace static_hotset capacity ≡ ok os)
      × (resident_hits xs layer trace ≤ layer_ready layer os)
hotset_best capacity layer trace xs p fits d small = (
  hotset_outcomes (static_residents trace capacity) trace,
  policy_outcomes-hotset capacity trace p fits,
  omega (
    arith,
    hot_experts_best capacity layer trace xs d small,
    layer_ready-hotset layer (static_residents trace capacity) trace,
  ),
)
