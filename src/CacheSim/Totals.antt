-- ===== src/CacheSim/Totals.antt =====
-- src/expertflow/analysis/cache_sim.py: the totals of the outcomes, and `simulate_policies`.
use expertflow.Base.{
  ◌==◌, if◌then◌else◌, ℕ, ◌+◌, ◌*◌, ◌≤◌, ◌<◌, not, List, [], ◌∷◌, map, length, take, All, All-mono,
  sum_by, ok, ◌≡◌, refl, ap, sym, arith, length-keep_split, length-map, length-take-le,
}
use expertflow.Base.Dict
use expertflow.Base.Dict.{Dict}
use expertflow.Base.Distinct.{elem}
use expertflow.Trace.Event.{RouterTraceEvent}
use expertflow.Base.Ordered.Recency.{keep_last}
use expertflow.CacheSim.{
  Policy, PolicyEventOutcome, PolicyResult, CacheSimulationReport, demand, result, ready_total,
  blocking_total, reactive_outcome, resident_outcome, static_residents, outcomes_of,
  policy_outcomes, report_of, hot_experts, hotter, count_layers, simulate_policies,
}
use expertflow.Base.Sort.{sort_by}
use expertflow.CacheSim.Lru.{Fits, hit_outcome}
use expertflow.CacheSim.Recency.{recent, recency_outcomes}
use expertflow.CacheSim.History.{validated_trace_lem, policy_outcomes-recency}
use expertflow.CacheSim.Hotset.{hotset_outcomes, policy_outcomes-hotset}

-- The outcomes are one for each event in order, and each event's experts are its ready and its
-- blocking ones.
pub record Accounts (trace : List RouterTraceEvent) (os : List PolicyEventOutcome) : Type 0 where
  pub events : map (λ o. o.event) os ≡ trace
  pub total : ready_total os + blocking_total os ≡ sum_by demand trace

Accounts-recency :
    (capacity : ℕ) (histories : Dict (List ℕ)) (trace : List RouterTraceEvent)
    → Accounts trace (recency_outcomes capacity histories trace)
unfolding recency_outcomes sum_by hit_outcome
Accounts-recency capacity histories [] = record { events = refl; total = omega arith }
Accounts-recency capacity histories (e ∷ trace) =
    let history = Dict.get_or [] e.layer_id histories in
    let residents = keep_last capacity history in
    let later =
      Accounts-recency capacity
        (Dict.insert e.layer_id (recent capacity history e.selected_expert_ids) histories) trace in
    record {
      events = ap (◌∷◌ e) later.events;
      total = omega (
        arith,
        later.total,
        length-keep_split (λ x. elem x residents) (λ x. not (elem x residents))
            e.selected_expert_ids (λ x. ground arith),
      );
    }

pub Accounts-hotset :
    (residents : Dict (List ℕ)) (trace : List RouterTraceEvent)
    → Accounts trace (hotset_outcomes residents trace)
unfolding hotset_outcomes sum_by resident_outcome
Accounts-hotset residents [] = record { events = refl; total = omega arith }
Accounts-hotset residents (e ∷ trace) =
    let layer = Dict.get_or [] e.layer_id residents in
    let later = Accounts-hotset residents trace in
    record {
      events = ap (◌∷◌ e) later.events;
      total = omega (
        arith,
        later.total,
        length-keep_split (λ x. elem x layer) (λ x. not (elem x layer)) e.selected_expert_ids
            (λ x. ground arith),
      );
    }

Accounts-reactive : (trace : List RouterTraceEvent) → Accounts trace (map reactive_outcome trace)
unfolding reactive_outcome sum_by
Accounts-reactive [] = record { events = refl; total = omega arith }
Accounts-reactive (e ∷ trace) =
    let later = Accounts-reactive trace in
    record { events = ap (◌∷◌ e) later.events; total = omega (arith, later.total) }

reactive_ready : (trace : List RouterTraceEvent) → ready_total (map reactive_outcome trace) ≡ 0
unfolding reactive_outcome sum_by
reactive_ready [] = refl
reactive_ready (e ∷ trace) = omega (arith, reactive_ready trace)

-- With a capacity that is not 0, on a trace that fits, every policy gives outcomes without an
-- exception, one for each event in order, and its ready and blocking experts together are as many as
-- the trace demands.
pub policy_outcomes-Accounts :
    (policy : Policy) (capacity : ℕ) (trace : List RouterTraceEvent)
    → 0 < capacity
    → All (Fits capacity) trace
    → (os : List PolicyEventOutcome) × (policy_outcomes trace policy capacity ≡ ok os)
      × Accounts trace os
policy_outcomes-Accounts Policy.reactive capacity trace p fits = (
  map reactive_outcome trace,
  unfold policy_outcomes outcomes_of in
      rw (
        validated_trace_lem capacity trace p
          (All-mono (Fits capacity) _ trace (λ e f. f.bounded) fits)),
  Accounts-reactive trace,
)
policy_outcomes-Accounts Policy.static_hotset capacity trace p fits = (
  hotset_outcomes (static_residents trace capacity) trace,
  policy_outcomes-hotset capacity trace p
      (All-mono (Fits capacity) _ trace (λ e f. f.bounded) fits),
  Accounts-hotset (static_residents trace capacity) trace,
)
policy_outcomes-Accounts Policy.lru capacity trace p fits = (
  recency_outcomes capacity [] trace,
  policy_outcomes-recency capacity trace p fits,
  Accounts-recency capacity [] trace,
)

-- A result whose hits and misses make up the demand, each miss loaded on demand, and whose hit rate
-- is their share.
pub record IsBalanced (demand_count : ℕ) (r : PolicyResult) : Type 0 where
  pub demanded : r.demand_count ≡ demand_count
  pub balanced : r.hit_count + r.miss_count ≡ demand_count
  pub loads : r.load_count ≡ r.miss_count
  pub rated : r.hit_rate ≡ (if demand_count == 0 then (0, 1) else (r.hit_count, demand_count))

preloads-le :
    (capacity : ℕ) (counts : Dict (Dict ℕ))
    → sum_by (λ e. length (e.1)) (Dict.map_values (hot_experts capacity) counts)
      ≤ capacity * length (Dict.map_values (hot_experts capacity) counts)
unfolding sum_by hot_experts
preloads-le capacity [] = omega arith
preloads-le capacity (e ∷ counts) = omega (
  arith,
  preloads-le capacity counts,
  length-map (λ (f : ℕ × ℕ). f.0) (take capacity (sort_by hotter e.1)),
  length-take-le capacity (sort_by hotter e.1),
)

module _ (capacity : ℕ) (trace : List RouterTraceEvent) (p : 0 < capacity)
    (fits : All (Fits capacity) trace) where
  small : All (λ e. demand e ≤ capacity) trace
  small = All-mono (Fits capacity) _ trace (λ e f. f.bounded) fits

  abbrev fixed : List PolicyEventOutcome
  fixed = hotset_outcomes (static_residents trace capacity) trace

  abbrev recents : List PolicyEventOutcome
  recents = recency_outcomes capacity [] trace

  pub simulate_policies-report_of :
      simulate_policies trace capacity
      ≡ ok (report_of capacity trace (static_residents trace capacity) fixed recents)
  unfolding simulate_policies
  simulate_policies-report_of = rw (validated_trace_lem capacity trace p small) (
      rw (
        policy_outcomes-hotset capacity trace p small,
        policy_outcomes-recency capacity trace p fits,
      ))

  reactive_ran : policy_outcomes trace Policy.reactive capacity ≡ ok (map reactive_outcome trace)
  unfolding policy_outcomes outcomes_of
  reactive_ran = rw (validated_trace_lem capacity trace p small)

  -- The report, with a capacity that is not 0, of a trace that fits: every policy's hits and misses
  -- make up the same demand, and every miss is loaded. The hits of each of the three policies are the
  -- ready experts of its own outcomes, and the loads of the reactive policy are its blocking ones. The
  -- static policy preloads at most `capacity` experts for each layer, the other two preload none.
  pub simulate_policies_lem :
      (report : CacheSimulationReport) × (simulate_policies trace capacity ≡ ok report)
      × IsBalanced (sum_by demand trace) report.reactive
      × IsBalanced (sum_by demand trace) report.static_hotset
      × IsBalanced (sum_by demand trace) report.lru
      × (report.static_hotset.preload_count ≤ capacity * length (static_residents trace capacity))
      × (policy_outcomes trace Policy.static_hotset capacity ≡ ok fixed)
      × (report.static_hotset.hit_count ≡ ready_total fixed)
      × (policy_outcomes trace Policy.lru capacity ≡ ok recents)
      × (report.lru.hit_count ≡ ready_total recents)
      × (policy_outcomes trace Policy.reactive capacity ≡ ok (map reactive_outcome trace))
      × (report.reactive.hit_count ≡ ready_total (map reactive_outcome trace))
      × (report.reactive.load_count ≡ blocking_total (map reactive_outcome trace))
      × (report.reactive.preload_count ≡ 0)
      × (report.lru.preload_count ≡ 0)
  simulate_policies_lem =
      let whole = Accounts-hotset (static_residents trace capacity) trace in
      let last = Accounts-recency capacity [] trace in
      (
        report_of capacity trace (static_residents trace capacity) fixed recents,
        simulate_policies-report_of,
        unfold report_of result in
            record { demanded = refl; balanced = omega arith; loads = omega arith; rated = refl },
        unfold report_of result in
            record {
              demanded = refl;
              balanced = omega (arith, whole.total);
              loads = refl;
              rated = refl;
            },
        unfold report_of result in
            record {
              demanded = refl;
              balanced = omega (arith, last.total);
              loads = omega (arith, last.total);
              rated = refl;
            },
        unfold report_of static_residents result in preloads-le capacity (count_layers trace []),
        policy_outcomes-hotset capacity trace p small,
        unfold report_of result in refl,
        policy_outcomes-recency capacity trace p fits,
        unfold report_of result in refl,
        reactive_ran,
        unfold report_of result in sym (reactive_ready trace),
        unfold report_of result in
            omega (arith, reactive_ready trace, (Accounts-reactive trace).total),
        unfold report_of result in refl,
        unfold report_of result in refl,
      )
