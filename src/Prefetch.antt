-- ===== src/Prefetch.antt =====
-- src/expertflow/analysis/prefetch_sim.py: the concurrent prefetch simulation. A layer that has no
-- cache or no frequencies yet reads as an empty one. `issued_layers` is the list of its pairs of
-- layer and expert, which is `issued_ids`, and so is `counted_ready`. `expert_transfer_ms` is a
-- natural number of any unit of time, and the waste is in bytes, before it is divided and rounded.
pub mod Inputs
pub mod Issue
pub mod Sets
pub mod Budget
pub mod Consume
pub mod Steps
pub mod Coverage
pub mod Report
use expertflow.Base.{
  max, ℕ, zero, suc, ◌+◌, ◌-◌, ◌*◌, Bool, true, false, not, ◌||◌, Option, none, some, List, [], ◌∷◌,
  ◌++◌, map, length, get_elem?, any, keep, sum_by, ltb, leb, ◌==◌, if◌then◌else◌, Result, ok, err,
  value_error, raise_if, ◌>>=◌, ◌>>◌,
}
use expertflow.Base.Dict
use expertflow.Base.Dict.{Dict}
use expertflow.Base.Distinct.{elem}
use expertflow.Base.Ordered.{move_to_end, store, make_room}
use expertflow.Trace.Event.{RouterTraceEvent}
use expertflow.CacheSim.{demand, count_ids}
use expertflow.Prefetch.Inputs.{
  PredictionMode, Score, Pairs, pair_elem, pair_store, scored_of, forward_groups, step_events,
}
use expertflow.Prefetch.Issue.{issue}

-- `PrefetchStepOutcome`
pub record PrefetchStepOutcome : Type 0 where
  pub step_index : ℕ
  pub demand_count : ℕ
  pub hit_count : ℕ
  pub miss_count : ℕ
  pub transfers_issued : ℕ
  pub predicted_candidates : ℕ
  pub ready_useful : ℕ
  pub wasted_transfers : ℕ

-- `PrefetchSimulationReport`; `hit_rate` is `hit_count / demand_count`, or 0 / 1 with no demand
pub record PrefetchSimulationReport : Type 0 where
  pub prediction : PredictionMode
  pub capacity_per_layer : ℕ
  pub max_transfers_per_step : ℕ
  pub expert_transfer_ms : ℕ
  pub slot_bytes : ℕ
  pub conversation_count : ℕ
  pub step_count : ℕ
  pub demand_count : ℕ
  pub hit_count : ℕ
  pub miss_count : ℕ
  pub hit_rate : ℕ × ℕ
  pub transfers_issued : ℕ
  pub ready_useful : ℕ
  pub wasted_transfers : ℕ
  pub wasted_transfer_bytes : ℕ
  pub estimated_saved_blocking_ms : ℕ
  pub steps : List PrefetchStepOutcome

-- `_validated_inputs`
unfoldable pub validated_inputs : List (List RouterTraceEvent) → ℕ → ℕ → Result (Unit {0})
validated_inputs traces capacity slot_bytes = do
  raise_if (length traces == 0 || any (λ trace. length trace == 0) traces)
      (value_error "traces must be a non-empty sequence of non-empty traces")
  raise_if (any (any (λ e. ltb capacity (demand e))) traces)
      (value_error "capacity_per_layer cannot be below router top-k")
  raise_if (slot_bytes == 0) (value_error "slot_bytes must be positive")

-- What `_consume_demand` changes and counts.
pub record Consumed : Type 0 where
  pub cache : List ℕ
  pub counted_ready : Pairs
  pub hits : ℕ
  pub misses : ℕ

-- the branch for an expert that is in the cache
unfoldable pub count_hit : ℕ → Pairs → ℕ → Consumed → Consumed
count_hit layer issued x state = record state {
  hits = state.hits + 1;
  cache = move_to_end x state.cache;
  counted_ready =
      if pair_elem layer x issued
      then pair_store layer x state.counted_ready
      else state.counted_ready;
}

-- the branch for one that is not
unfoldable pub count_miss : ℕ → List ℕ → ℕ → Consumed → Result Consumed
count_miss capacity required x state = do
  room ← make_room (suc (length state.cache)) capacity required state.cache
  ok (record state { misses = state.misses + 1; cache = store x room })

-- the loop of `_consume_demand`
unfoldable pub consume_demand : ℕ → ℕ → Pairs → List ℕ → List ℕ → Consumed → Result Consumed
consume_demand capacity layer issued required [] state = ok state
consume_demand capacity layer issued required (x ∷ xs) state = do
  next ←
      (if elem x state.cache
        then ok (count_hit layer issued x state)
        else count_miss capacity required x state)
  consume_demand capacity layer issued required xs next

-- The variables that the loop over the steps carries on.
pub record PrefetchState : Type 0 where
  pub caches : Dict (List ℕ)
  pub frequencies : Dict (Dict ℕ)

-- The variables of the loop over the events of a step.
pub record EventState : Type 0 where
  pub carried : PrefetchState
  pub counted_ready : Pairs
  pub step_hits : ℕ
  pub step_misses : ℕ

-- `frequencies_for(layer_id).update(ids)`, if the mode is "frequency"
unfoldable pub update_frequencies :
    PredictionMode → RouterTraceEvent → Dict (Dict ℕ) → Dict (Dict ℕ)
update_frequencies PredictionMode.frequency e frequencies =
    Dict.insert e.layer_id (count_ids e.selected_expert_ids (Dict.get_or [] e.layer_id frequencies))
      frequencies
update_frequencies _ e frequencies = frequencies

-- one round of the loop over `step_events`
unfoldable pub consume_event :
    PredictionMode → ℕ → Pairs → RouterTraceEvent → EventState → Result EventState
consume_event prediction capacity issued e state = do
  let caches = state.carried.caches
  consumed ←
      consume_demand capacity e.layer_id issued e.selected_expert_ids e.selected_expert_ids
        (record {
          cache = Dict.get_or [] e.layer_id caches;
          counted_ready = state.counted_ready;
          hits = 0;
          misses = 0;
        })
  ok (record {
    carried = record {
      caches = Dict.insert e.layer_id consumed.cache caches;
      frequencies = update_frequencies prediction e state.carried.frequencies;
    };
    counted_ready = consumed.counted_ready;
    step_hits = state.step_hits + consumed.hits;
    step_misses = state.step_misses + consumed.misses;
  })

-- the loop over `step_events`
unfoldable pub consume_events :
    PredictionMode → ℕ → Pairs → List RouterTraceEvent → EventState → Result EventState
consume_events prediction capacity issued [] state = ok state
consume_events prediction capacity issued (e ∷ events) state = do
  next ← consume_event prediction capacity issued e state
  consume_events prediction capacity issued events next

-- the outcome of a step
unfoldable pub step_outcome :
    ℕ → List RouterTraceEvent → ℕ → Pairs → EventState → PrefetchStepOutcome
step_outcome step_index events candidates issued state = record {
  step_index = step_index;
  demand_count = sum_by demand events;
  hit_count = state.step_hits;
  miss_count = state.step_misses;
  transfers_issued = length issued;
  predicted_candidates = candidates;
  ready_useful = length state.counted_ready;
  wasted_transfers = length issued - length state.counted_ready;
}

-- one round of the loop over the steps
unfoldable pub prefetch_step :
    PredictionMode
    → ℕ
    → ℕ
    → ℕ
    → List RouterTraceEvent
    → PrefetchState
    → Result (PrefetchState × PrefetchStepOutcome)
prefetch_step prediction capacity max_transfers step_index events state = do
  let scored = scored_of prediction events state.caches state.frequencies
  let (caches, issued) = issue capacity events max_transfers scored state.caches []
  done ← consume_events prediction capacity issued events (record {
    carried = record { caches = caches; frequencies = state.frequencies };
    counted_ready = [];
    step_hits = 0;
    step_misses = 0;
  })
  ok (done.carried, step_outcome step_index events (length scored) issued done)

-- the loop over the steps, with the number of steps that are left
unfoldable pub prefetch_steps :
    PredictionMode
    → ℕ
    → ℕ
    → List (List (List RouterTraceEvent))
    → ℕ
    → ℕ
    → PrefetchState
    → Result (List PrefetchStepOutcome)
prefetch_steps prediction capacity max_transfers grouped step_index zero state = ok []
prefetch_steps prediction capacity max_transfers grouped step_index (suc left) state = do
  (next, outcome) ←
      prefetch_step prediction capacity max_transfers step_index (step_events step_index grouped)
        state
  rest ← prefetch_steps prediction capacity max_transfers grouped (suc step_index) left next
  ok (outcome ∷ rest)

-- `max(len(groups) for groups in grouped)`
unfoldable pub longest : List (List (List RouterTraceEvent)) → ℕ
longest [] = 0
longest (groups ∷ grouped) = max (length groups) (longest grouped)

-- The arguments that the report repeats.
pub record PrefetchConfig : Type 0 where
  pub prediction : PredictionMode
  pub capacity_per_layer : ℕ
  pub max_transfers_per_step : ℕ
  pub expert_transfer_ms : ℕ
  pub slot_bytes : ℕ

-- the report; each of the totals is the sum that the loop over the steps makes
unfoldable pub prefetch_report :
    PrefetchConfig → ℕ → ℕ → List PrefetchStepOutcome → PrefetchSimulationReport
prefetch_report config conversation_count step_count steps =
    let demands = sum_by (λ s. s.demand_count) steps in
    let hits = sum_by (λ s. s.hit_count) steps in
    let ready = sum_by (λ s. s.ready_useful) steps in
    let wasted = sum_by (λ s. s.wasted_transfers) steps in
    record {
      prediction = config.prediction;
      capacity_per_layer = config.capacity_per_layer;
      max_transfers_per_step = config.max_transfers_per_step;
      expert_transfer_ms = config.expert_transfer_ms;
      slot_bytes = config.slot_bytes;
      conversation_count = conversation_count;
      step_count = step_count;
      demand_count = demands;
      hit_count = hits;
      miss_count = sum_by (λ s. s.miss_count) steps;
      hit_rate = if demands == 0 then (0, 1) else (hits, demands);
      transfers_issued = sum_by (λ s. s.transfers_issued) steps;
      ready_useful = ready;
      wasted_transfers = wasted;
      wasted_transfer_bytes = wasted * config.slot_bytes;
      estimated_saved_blocking_ms = ready * config.expert_transfer_ms;
      steps = steps;
    }

-- `simulate_concurrent_prefetch`
unfoldable pub simulate_concurrent_prefetch :
    List (List RouterTraceEvent) → PrefetchConfig → Result PrefetchSimulationReport
simulate_concurrent_prefetch traces config = do
  validated_inputs traces config.capacity_per_layer config.slot_bytes
  let grouped = map forward_groups traces
  steps ←
      prefetch_steps config.prediction config.capacity_per_layer config.max_transfers_per_step
        grouped 0 (longest grouped) (record { caches = []; frequencies = [] })
  ok (prefetch_report config (length traces) (longest grouped) steps)
