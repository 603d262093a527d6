-- ===== src/Tests/Prefetches.antt =====
-- The prefetch over two conversations, with room for one transfer in each step.
use expertflow.Base.{any, keep, sum_by, List, [], ◌∷◌, ok, err, value_error, ◌≡◌, refl, arith}
use expertflow.Base.Dict
use expertflow.Base.Distinct.{elem, remove}
use expertflow.Base.Ordered.{move_to_end, store, victim, make_room}
use expertflow.Base.Sort.{insert_by, sort_by}
use expertflow.Trace.Event.{RouterTraceEvent}
use expertflow.Tests.Traces.{event, trace}
use expertflow.CacheSim.{count_ids}
use expertflow.Prefetch.Inputs.{
  PredictionMode, pair_elem, pair_store, earlier, group_events, forward_groups, group_at,
  step_events, sooner, layer_scores, frequency_scores, count_pair, count_layer, step_demand,
  oracle_scores, scored_of,
}
use expertflow.Prefetch.Issue.{is_protected, open_victim, exchange, admit, issue_one, issue}
use expertflow.Prefetch.{
  PrefetchConfig, PrefetchSimulationReport, validated_inputs, count_hit, count_miss, consume_demand,
  update_frequencies, consume_event, consume_events, step_outcome, prefetch_step, prefetch_steps,
  longest, prefetch_report, simulate_concurrent_prefetch,
}
use expertflow.Prefetch.Report.{IsReport, simulate_concurrent_prefetch-IsReport}

prefetch_program : Unit {0}
unfolding any keep sum_by elem remove Dict.get_or Dict.insert move_to_end store victim make_room
    insert_by sort_by count_ids pair_elem pair_store earlier group_events forward_groups group_at
    step_events sooner layer_scores frequency_scores count_pair count_layer step_demand
    oracle_scores scored_of is_protected open_victim exchange admit issue_one issue validated_inputs
    count_hit count_miss consume_demand update_frequencies consume_event consume_events step_outcome
    prefetch_step prefetch_steps longest prefetch_report simulate_concurrent_prefetch
prefetch_program = tt

abbrev conversations : List (List RouterTraceEvent)
conversations = trace ∷ (event 0 3 (1 ∷ 2 ∷ []) ∷ event 5 3 (7 ∷ 8 ∷ []) ∷ []) ∷ []

abbrev config : PredictionMode → PrefetchConfig
config prediction = record {
  prediction = prediction;
  capacity_per_layer = 3;
  max_transfers_per_step = 1;
  expert_transfer_ms = 2;
  slot_bytes = 100;
}

oracle_run :
    (report : PrefetchSimulationReport) × (simulate_concurrent_prefetch conversations
        (config PredictionMode.oracle)
      ≡ ok report)
unfolding prefetch_program
oracle_run = (_, refl)

frequency_run :
    (report : PrefetchSimulationReport) × (simulate_concurrent_prefetch conversations
        (config PredictionMode.frequency)
      ≡ ok report)
unfolding prefetch_program
frequency_run = (_, refl)

oracle_counts : (oracle_run.0.transfers_issued ≡ 3) × (oracle_run.0.ready_useful ≡ 3)
unfolding oracle_run
oracle_counts = (refl, refl)

no_slot :
    simulate_concurrent_prefetch conversations
      (record (config PredictionMode.oracle) { slot_bytes = 0 })
    ≡ err (value_error "slot_bytes must be positive")
unfolding prefetch_program
no_slot = refl

simulate_concurrent_prefetch-IsReport_example :
    (report : PrefetchSimulationReport) × (simulate_concurrent_prefetch conversations
        (config PredictionMode.oracle)
      ≡ ok report)
    × IsReport conversations (config PredictionMode.oracle) report
simulate_concurrent_prefetch-IsReport_example =
    simulate_concurrent_prefetch-IsReport conversations (config PredictionMode.oracle) (omega arith)
      (omega arith, (omega arith, tt)) (omega arith) (omega arith)
