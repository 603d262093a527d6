-- ===== src/Tests/Curves.antt =====
-- The capacity curves of the trace, at the capacities 2 and 3.
use expertflow.Base.{
  ℕ, ◌≤◌, Bool, true, any, keep, sum_by, Option, none, some, List, [], ◌∷◌, map, All, All-mono, ok,
  err, value_error, ◌≡◌, refl, arith,
}
use expertflow.Base.Dict
use expertflow.Base.Distinct.{elem, remove, dedup}
use expertflow.Base.Ordered.{move_to_end, store, victim, make_room}
use expertflow.Base.Sort.{insert_by, sort_by}
use expertflow.Trace.Event.{RouterTraceEvent, Float}
use expertflow.Tests.Traces.{event, trace, trace-Fits}
use expertflow.CacheSim.{
  CacheSimulationReport, demand, count_ids, count_layers, hotter, hot_experts, static_residents,
  resident_outcome, static_outcomes, scan, load, lru_event, lru_outcomes, reactive_outcome,
  outcomes_of, policy_outcomes, report_of, result, simulate_policies, validated_trace,
}
use expertflow.CacheSim.Lru.{Fits}
use expertflow.CacheSim.Growth.{simulate_policies-static_le}
use expertflow.Capacity.{
  policy_point, rate, combined_result, combine_policy_results, first_keys, only, router_top_k,
  layer_ids, curve_point, sample_point, each, CapacityCurve, curve_of, bad_capacities,
  build_capacity_curve,
}
use expertflow.Capacity.HeldOut.{
  ResetScope, HeldOutCurve, same_list, same_phase, same_event, same_trace, flatten, groups_of,
  reset_scope, layers_differ, event_hits, static_hits, scored_result, static_result, held_out_point,
  build_held_out_capacity_curve,
}
use expertflow.Capacity.Points.{IsPoint, IsWorkload, scale_of, build_capacity_curve-IsPoint}
use expertflow.Capacity.Transfer.{AreWorkloads, build_held_out_capacity_curve-IsPoint}
use expertflow.Capacity.Agreement.{build_held_out_capacity_curve-own}

curve_program : Unit {0}
unfolding any keep sum_by elem remove dedup Dict.lookup Dict.get_or Dict.insert move_to_end store
    victim make_room insert_by sort_by count_ids count_layers hotter hot_experts static_residents
    resident_outcome static_outcomes scan load lru_event lru_outcomes reactive_outcome outcomes_of
    policy_outcomes report_of result simulate_policies validated_trace policy_point rate
    combined_result combine_policy_results first_keys only router_top_k layer_ids curve_point
    sample_point each curve_of bad_capacities build_capacity_curve same_list same_phase same_event
    same_trace flatten groups_of reset_scope layers_differ event_hits static_hits scored_result
    static_result held_out_point build_held_out_capacity_curve
curve_program = tt

abbrev capacities : List ℕ
capacities = 2 ∷ 3 ∷ 2 ∷ []

-- Of a comparison of weights, where all of them are None.
abbrev same_weights : Option (List Float) → Option (List Float) → Bool
same_weights a b = true

abbrev evaluation : List RouterTraceEvent
evaluation = event 5 4 (1 ∷ 2 ∷ []) ∷ event 6 3 (5 ∷ 1 ∷ []) ∷ event 7 3 (1 ∷ 3 ∷ []) ∷ []

abbrev groups : List (List RouterTraceEvent)
groups = (event 5 4 (1 ∷ 2 ∷ []) ∷ []) ∷ (event 6 3 (5 ∷ 1 ∷ []) ∷ event 7 3 (1 ∷ 3 ∷ []) ∷ []) ∷ []

sample : (curve : CapacityCurve) × (build_capacity_curve trace capacities 100 7 ≡ ok curve)
unfolding curve_program
sample = (_, refl)

held_out :
    (curve : HeldOutCurve) × (build_held_out_capacity_curve same_weights trace evaluation
        (some groups)
        capacities
        100
        7
      ≡ ok curve)
unfolding curve_program
held_out = (_, refl)

held_out_keys : map (λ p. p.projected_cache_bytes) held_out.0.curve.points ≡ 400 ∷ 600 ∷ []
unfolding held_out
held_out_keys = refl

held_out_hits : map (λ p. p.static_hotset.outcome.hit_count) held_out.0.curve.points ≡ 3 ∷ 4 ∷ []
unfolding held_out
held_out_hits = refl

narrow :
    build_held_out_capacity_curve same_weights trace evaluation none (2 ∷ 1 ∷ []) 100 7
    ≡ err (value_error "capacity cannot be below router top-k")
unfolding curve_program
narrow = refl

no_partition :
    build_held_out_capacity_curve same_weights trace evaluation (some (trace ∷ [])) capacities 100 7
    ≡ err (value_error "evaluation groups must partition evaluation events")
unfolding curve_program
no_partition = refl

wider : All (Fits 3) trace
wider =
    All-mono (Fits 2) (Fits 3) trace
      (λ e f. record { distinct = f.distinct; bounded = omega (arith, f.bounded) }) trace-Fits

workload : IsWorkload 2 capacities trace
workload = record {
  nonempty = omega arith;
  width = (refl, (refl, (refl, (refl, tt))));
  some_width = omega arith;
  some_capacity = omega arith;
  fitting = ((omega arith, trace-Fits), ((omega arith, wider), ((omega arith, trace-Fits), tt)));
}

workloads : AreWorkloads 2 trace evaluation groups
unfolding elem flatten
workloads = record {
  some_training = omega arith;
  some_evaluation = omega arith;
  some_groups = omega arith;
  no_empty = (omega arith, (omega arith, tt));
  partition = refl;
  some_width = omega arith;
  training_width = (refl, (refl, (refl, (refl, tt))));
  evaluation_width = (refl, (refl, (refl, tt)));
  distinct = ((refl, (refl, tt)), ((refl, (refl, tt)), ((refl, (refl, tt)), tt)));
  trained = (refl, (refl, (refl, tt)));
  evaluated = (refl, (refl, (refl, (refl, tt))));
}

workloads_grouped : AreWorkloads 2 trace evaluation (groups_of (some groups) evaluation)
unfolding groups_of
workloads_grouped = workloads

simulate_policies-static_le_example :
    (r : CacheSimulationReport) × (s : CacheSimulationReport) × (simulate_policies trace 2 ≡ ok r)
    × (simulate_policies trace 3 ≡ ok s)
    × (r.static_hotset.hit_count ≤ s.static_hotset.hit_count)
    × (r.static_hotset.preload_count ≤ s.static_hotset.preload_count)
    × (s.static_hotset.load_count ≤ r.static_hotset.load_count)
simulate_policies-static_le_example =
    simulate_policies-static_le 2 3 trace (omega arith) (omega arith) trace-Fits

build_capacity_curve-IsPoint_example :
    (curve : CapacityCurve) × (build_capacity_curve trace capacities 100 7 ≡ ok curve)
    × (curve.expert_demand_count ≡ sum_by demand trace)
    × (curve.router_top_k ≡ 2)
    × (map (λ p. p.capacity_per_layer) curve.points ≡ first_keys capacities)
    × All (IsPoint (scale_of curve) curve.expert_demand_count) curve.points
build_capacity_curve-IsPoint_example =
    build_capacity_curve-IsPoint 2 trace capacities 100 7 workload (omega arith) (omega arith)

build_held_out_capacity_curve-IsPoint_example :
    (h : HeldOutCurve) × (build_held_out_capacity_curve same_weights trace evaluation
        (some groups)
        capacities
        100
        7
      ≡ ok h)
    × (h.curve.expert_demand_count ≡ sum_by demand evaluation)
    × (map (λ p. p.capacity_per_layer) h.curve.points ≡ first_keys capacities)
    × All (IsPoint (scale_of h.curve) h.curve.expert_demand_count) h.curve.points
build_held_out_capacity_curve-IsPoint_example =
    build_held_out_capacity_curve-IsPoint same_weights 2 trace evaluation (some groups) capacities
      100 7 (λ w. refl) workloads_grouped (omega arith) (omega arith) (omega arith) (omega arith)

build_held_out_capacity_curve-own_example :
    (curve : CapacityCurve) × (build_capacity_curve trace capacities 100 7 ≡ ok curve)
    × (build_held_out_capacity_curve same_weights trace trace none capacities 100 7
        ≡ ok (record {
          lru_reset_scope = ResetScope.evaluation_set;
          training_event_count = 4;
          evaluation_event_count = 4;
          curve = curve;
        }))
build_held_out_capacity_curve-own_example =
    build_held_out_capacity_curve-own same_weights 2 trace capacities 100 7 (λ w. refl) workload
      (omega arith) (omega arith)
