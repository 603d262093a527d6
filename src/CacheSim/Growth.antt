-- ===== src/CacheSim/Growth.antt =====
-- src/expertflow/analysis/cache_sim.py: the `static_hotset` policy with a larger capacity.
use expertflow.Base.{
  ℕ, zero, suc, ◌≤◌, ◌<◌, true, Bool, List, [], ◌∷◌, map, length, take, keep, All, All-mono, sum_by,
  ok, ◌≡◌, arith,
}
use expertflow.Base.Dict
use expertflow.Base.Dict.{Dict}
use expertflow.Base.Distinct.{elem}
use expertflow.Base.Sort.{sort_by}
use expertflow.Trace.Event.{RouterTraceEvent}
use expertflow.CacheSim.{
  CacheSimulationReport, ready_total, hotter, hot_experts, count_layers, static_residents,
  resident_outcome, simulate_policies, report_of, result,
}
use expertflow.CacheSim.Hotset.{hotset_outcomes, static_residents-get_or}
use expertflow.CacheSim.Lru.{Fits}
use expertflow.CacheSim.Totals.{simulate_policies-report_of}

length-keep_mono :
    (p q : ℕ → Bool) (xs : List ℕ)
    → ((x : ℕ) → p x ≡ true → q x ≡ true)
    → length (keep p xs) ≤ length (keep q xs)
unfolding keep
length-keep_mono p q [] h = omega arith
length-keep_mono p q (x ∷ xs) h = ground (arith, h x, length-keep_mono p q xs h)

elem-take_mono :
    (a b x : ℕ) (entries : Dict ℕ)
    → a ≤ b
    → elem x (map (λ e. e.0) (take a entries)) ≡ true
    → elem x (map (λ e. e.0) (take b entries)) ≡ true
unfolding elem
elem-take_mono zero b x entries p h = cc
elem-take_mono (suc a) zero x entries p h = ground arith
elem-take_mono (suc a) (suc b) x [] p h = h
elem-take_mono (suc a) (suc b) x (e ∷ entries) p h =
    ground (arith, elem-take_mono a b x entries (omega arith))

length-take_mono :
    (a b : ℕ) (entries : Dict ℕ)
    → a ≤ b
    → length (map (λ e. e.0) (take a entries)) ≤ length (map (λ e. e.0) (take b entries))
length-take_mono zero b entries p = omega arith
length-take_mono (suc a) zero entries p = omega arith
length-take_mono (suc a) (suc b) [] p = omega arith
length-take_mono (suc a) (suc b) (e ∷ entries) p =
    omega (arith, length-take_mono a b entries (omega arith))

module _ (a b : ℕ) (p : a ≤ b) where
  preload_mono :
      (counts : Dict (Dict ℕ))
      → sum_by (λ e. length (e.1)) (Dict.map_values (hot_experts a) counts)
        ≤ sum_by (λ e. length (e.1)) (Dict.map_values (hot_experts b) counts)
  unfolding sum_by hot_experts
  preload_mono [] = omega arith
  preload_mono (e ∷ counts) =
      omega (arith, preload_mono counts, length-take_mono a b (sort_by hotter e.1) p)

  ready_mono :
      (workload trace : List RouterTraceEvent)
      → ready_total (hotset_outcomes (static_residents workload a) trace)
        ≤ ready_total (hotset_outcomes (static_residents workload b) trace)
  unfolding hotset_outcomes resident_outcome sum_by
  ready_mono workload [] = omega arith
  ready_mono workload (e ∷ trace) =
      let counts = sort_by hotter (Dict.get_or [] e.layer_id (count_layers workload [])) in
      rw
        (
          static_residents-get_or a e.layer_id workload,
          static_residents-get_or b e.layer_id workload,
        )
        (omega (
          arith,
          ready_mono workload trace,
          length-keep_mono
              (λ x. elem x (hot_experts a (Dict.get_or [] e.layer_id (count_layers workload []))))
              (λ x. elem x (hot_experts b (Dict.get_or [] e.layer_id (count_layers workload []))))
              e.selected_expert_ids (λ x. unfold hot_experts in elem-take_mono a b x counts p),
        ))

-- On a trace that fits the smaller of two capacities, which is not 0, both simulations return, and
-- with the larger capacity the static policy hits and preloads no less and loads no more on demand.
pub simulate_policies-static_le :
    (a b : ℕ) (trace : List RouterTraceEvent)
    → 0 < a
    → a ≤ b
    → All (Fits a) trace
    → (r : CacheSimulationReport) × (s : CacheSimulationReport) × (simulate_policies trace a ≡ ok r)
      × (simulate_policies trace b ≡ ok s)
      × (r.static_hotset.hit_count ≤ s.static_hotset.hit_count)
      × (r.static_hotset.preload_count ≤ s.static_hotset.preload_count)
      × (s.static_hotset.load_count ≤ r.static_hotset.load_count)
unfolding report_of result
simulate_policies-static_le a b trace positive p fits =
    let wider =
      All-mono (Fits a) (Fits b) trace
        (λ e f. record { distinct = f.distinct; bounded = omega (arith, f.bounded) }) fits in
    let ready = ready_mono a b p trace trace in
    (
      _,
      _,
      simulate_policies-report_of a trace positive fits,
      simulate_policies-report_of b trace (omega arith) wider,
      ready,
      unfold static_residents in preload_mono a b p (count_layers trace []),
      omega (arith, ready),
    )
