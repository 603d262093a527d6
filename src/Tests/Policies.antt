-- ===== src/Tests/Policies.antt =====
-- The residency policies and the replay.
use expertflow.Base.{
  map, ℕ, ◌*◌, ◌≤◌, none, some, List, [], ◌∷◌, length, any, keep, sum_by, ok, err, value_error,
  key_error, ◌≡◌, ◌≢◌, refl, arith,
}
use expertflow.Base.Dict
use expertflow.Base.Dict.{Dict}
use expertflow.Base.Distinct.{elem, remove, Distinct}
use expertflow.Base.Ordered.{move_to_end, store, victim, make_room}
use expertflow.Trace.Event.{RouterTraceEvent}
use expertflow.Tests.Traces.{event, trace, trace-Fits, trace_small}
use expertflow.CacheSim.{
  blocking_total, reactive, static_hotset, lru, PolicyEventOutcome, CacheSimulationReport, demand,
  ready_total, policy_outcomes, simulate_policies, static_residents, validated_trace, outcomes_of,
  count_ids, count_layers, hotter, hot_experts, resident_outcome, static_outcomes, scan, load,
  lru_event, lru_outcomes, reactive_outcome, report_of, result,
}
use expertflow.CacheSim.Recency.{recency_outcomes}
use expertflow.CacheSim.History.{policy_outcomes-recency}
use expertflow.CacheSim.Hotset.{resident_hits, layer_ready, hotset_outcomes, hotset_best}
use expertflow.CacheSim.Totals.{
  Accounts, IsBalanced, policy_outcomes-Accounts, simulate_policies_lem,
}
use expertflow.Base.Sort.{insert_by, sort_by}
use expertflow.Replay.{PolicyReplay, replay_policy, trained_outcomes}
use expertflow.Replay.Agreement.{
  Replays, replay_policy-Replays, replay_policy_trained, trained_outcomes_never_key_error,
}

program : Unit {0}
unfolding any keep sum_by elem remove Dict.lookup Dict.get_or Dict.insert move_to_end store victim
    make_room insert_by sort_by policy_outcomes validated_trace outcomes_of count_ids count_layers
    hotter hot_experts static_residents resident_outcome static_outcomes scan load lru_event
    lru_outcomes reactive_outcome report_of result simulate_policies
program = tt

outcome : RouterTraceEvent → List ℕ → List ℕ → PolicyEventOutcome
outcome e ready blocking = record {
  event = e;
  ready_expert_ids = ready;
  blocking_expert_ids = blocking;
}

-- With two slots, layer 3 has one hit in its second and one in its third event.
lru_run :
    policy_outcomes trace lru 2
    ≡ ok (
        outcome (event 0 3 (1 ∷ 2 ∷ [])) [] (1 ∷ 2 ∷ [])
        ∷ outcome (event 0 4 (1 ∷ 5 ∷ [])) [] (1 ∷ 5 ∷ [])
        ∷ outcome (event 1 3 (2 ∷ 3 ∷ [])) (2 ∷ []) (3 ∷ [])
        ∷ outcome (event 2 3 (1 ∷ 3 ∷ [])) (3 ∷ []) (1 ∷ [])
        ∷ [])
unfolding program outcome
lru_run = refl

-- A capacity below the width of an event is refused.
too_narrow :
    policy_outcomes trace lru 1
    ≡ err (value_error "capacity_per_layer cannot be below router top-k")
unfolding program
too_narrow = refl

hotset : static_residents trace 2 ≡ (3, 1 ∷ 2 ∷ []) ∷ (4, 1 ∷ 5 ∷ []) ∷ []
unfolding program
hotset = refl

policy_outcomes-recency_example : policy_outcomes trace lru 2 ≡ ok (recency_outcomes 2 [] trace)
policy_outcomes-recency_example = policy_outcomes-recency 2 trace (omega arith) trace-Fits

hotset_best_example :
    (os : List PolicyEventOutcome) × (policy_outcomes trace static_hotset 2 ≡ ok os)
    × (resident_hits (2 ∷ 3 ∷ []) 3 trace ≤ layer_ready 3 os)
hotset_best_example =
    hotset_best 2 3 trace (2 ∷ 3 ∷ []) (omega arith) trace_small two_three (omega arith)
  where
    two_three : Distinct (2 ∷ 3 ∷ [])
    two_three = unfold elem in (refl, (refl, tt))

policy_outcomes-Accounts_example :
    (os : List PolicyEventOutcome) × (policy_outcomes trace lru 2 ≡ ok os) × Accounts trace os
policy_outcomes-Accounts_example = policy_outcomes-Accounts lru 2 trace (omega arith) trace-Fits

simulate_policies_lem_example :
    (report : CacheSimulationReport) × (simulate_policies trace 2 ≡ ok report)
    × IsBalanced (sum_by demand trace) report.reactive
    × IsBalanced (sum_by demand trace) report.static_hotset
    × IsBalanced (sum_by demand trace) report.lru
    × (report.static_hotset.preload_count ≤ 2 * length (static_residents trace 2))
    × (policy_outcomes trace static_hotset 2
        ≡ ok (hotset_outcomes (static_residents trace 2) trace))
    × (report.static_hotset.hit_count
        ≡ ready_total (hotset_outcomes (static_residents trace 2) trace))
    × (policy_outcomes trace lru 2 ≡ ok (recency_outcomes 2 [] trace))
    × (report.lru.hit_count ≡ ready_total (recency_outcomes 2 [] trace))
    × (policy_outcomes trace reactive 2 ≡ ok (map reactive_outcome trace))
    × (report.reactive.hit_count ≡ ready_total (map reactive_outcome trace))
    × (report.reactive.load_count ≡ blocking_total (map reactive_outcome trace))
    × (report.reactive.preload_count ≡ 0)
    × (report.lru.preload_count ≡ 0)
simulate_policies_lem_example = simulate_policies_lem 2 trace (omega arith) trace-Fits

replay_policy-Replays_example :
    (os : List PolicyEventOutcome) × (r : PolicyReplay) × (policy_outcomes trace lru 2 ≡ ok os)
    × (replay_policy trace lru 2 none ≡ ok r)
    × Replays trace os r
replay_policy-Replays_example = replay_policy-Replays lru 2 trace (omega arith) trace-Fits

replay_policy_trained_example :
    replay_policy trace static_hotset 2 (some trace) ≡ replay_policy trace static_hotset 2 none
replay_policy_trained_example =
    replay_policy_trained 2 trace (omega arith) (omega arith) trace_small

trained_outcomes_never_key_error_example : trained_outcomes trace static_hotset 2 [] ≢ err key_error
trained_outcomes_never_key_error_example = trained_outcomes_never_key_error static_hotset 2 [] trace
