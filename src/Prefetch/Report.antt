-- ===== src/Prefetch/Report.antt =====
-- src/expertflow/analysis/prefetch_sim.py: a simulation of valid inputs, and its report.
use expertflow.Base.{
  ℕ, zero, suc, ◌+◌, ◌≤◌, ◌<◌, false, List, [], ◌∷◌, map, length, All, All-mono, sum_by, ltb, ◌==◌,
  ok, ◌≡◌, refl, arith, any, any_of_All, ◌∙◌,
}
use expertflow.Base.Dict
use expertflow.Trace.Event.{RouterTraceEvent}
use expertflow.CacheSim.{demand}
use expertflow.Prefetch.Inputs.{PredictionMode, forward_groups, step_events}
use expertflow.Prefetch.Steps.{AreSlots, FitsAll, IsStep, prefetch_step-IsStep}
use expertflow.Prefetch.Coverage.{from_step, from_step-traces, All-step_events}
use expertflow.Prefetch.{
  PrefetchConfig, PrefetchState, PrefetchStepOutcome, PrefetchSimulationReport, validated_inputs,
  prefetch_steps, longest, prefetch_report, simulate_concurrent_prefetch,
}

-- What holds of a report: of its totals what holds of each step, and that the demand is the traces'.
pub record IsReport (traces : List (List RouterTraceEvent)) (config : PrefetchConfig)
    (r : PrefetchSimulationReport) : Type 0 where
  pub steps : All (IsStep config.max_transfers_per_step) r.steps
  pub count : length r.steps ≡ r.step_count
  pub demand : r.demand_count ≡ sum_by (sum_by demand) traces
  pub hits : r.hit_count + r.miss_count ≡ r.demand_count
  pub transfers : r.ready_useful + r.wasted_transfers ≡ r.transfers_issued

module _ (prediction : PredictionMode) (capacity max_transfers : ℕ)
    (traces : List (List RouterTraceEvent)) (fits : All (FitsAll capacity) traces) where
  prefetch_steps-IsStep :
      (step_index left : ℕ) (state : PrefetchState)
      → AreSlots capacity state.caches
      → (steps : List PrefetchStepOutcome) × (prefetch_steps prediction capacity max_transfers
            (map forward_groups traces)
            step_index
            left
            state
          ≡ ok steps)
        × All (IsStep max_transfers) steps
        × (length steps ≡ left)
        × (sum_by (λ s. s.demand_count) steps
            ≡ from_step step_index left (map forward_groups traces))
  unfolding prefetch_steps from_step sum_by
  prefetch_steps-IsStep step_index zero state s = ([], refl, tt, refl, refl)
  prefetch_steps-IsStep step_index (suc left) state s =
      let (next, outcome, ran, good, slots, demands) =
        prefetch_step-IsStep prediction capacity max_transfers step_index
          (step_events step_index (map forward_groups traces)) state
          (All-step_events (λ e. demand e ≤ capacity) step_index traces fits) s in
      let (steps, rest, all_good, count, total) =
        prefetch_steps-IsStep (suc step_index) left next slots in
      (
        outcome ∷ steps,
        rw (ran, rest) refl,
        (good, all_good),
        omega (arith, count),
        omega (arith, demands, total),
      )

sum_by-hits :
    (max_transfers : ℕ) (steps : List PrefetchStepOutcome)
    → All (IsStep max_transfers) steps
    → (sum_by (λ s. s.hit_count) steps + sum_by (λ s. s.miss_count) steps
        ≡ sum_by (λ s. s.demand_count) steps)
      × (sum_by (λ s. s.ready_useful) steps + sum_by (λ s. s.wasted_transfers) steps
          ≡ sum_by (λ s. s.transfers_issued) steps)
unfolding sum_by
sum_by-hits max_transfers [] h = (refl, refl)
sum_by-hits max_transfers (s ∷ steps) h =
    let (hits, transfers) = sum_by-hits max_transfers steps h.1 in
    (omega (arith, h.0.demands, hits), omega (arith, h.0.transfers, transfers))

-- Traces that are not empty, a slot that is not empty, and no event wider than the capacity: the
-- simulation returns, in every mode and with every budget of transfers, and no search for a victim
-- fails. Each step keeps to the budget; demands are hits or misses and transfers useful or wasted, in
-- each step and in the totals; and the steps have the demand of the traces, no more and no less.
pub simulate_concurrent_prefetch-IsReport :
    (traces : List (List RouterTraceEvent)) (config : PrefetchConfig)
    → 0 < length traces
    → All (λ trace. 0 < length trace) traces
    → All (FitsAll config.capacity_per_layer) traces
    → 0 < config.slot_bytes
    → (report : PrefetchSimulationReport) × (simulate_concurrent_prefetch traces config ≡ ok report)
      × IsReport traces config report
unfolding simulate_concurrent_prefetch validated_inputs
simulate_concurrent_prefetch-IsReport traces config some_trace no_empty fits slot =
    let capacity = config.capacity_per_layer in
    let grouped = map forward_groups traces in
    let (steps, ran, good, count, total) =
      prefetch_steps-IsStep config.prediction capacity config.max_transfers_per_step traces fits 0
        (longest grouped) (record { caches = []; frequencies = [] })
        (λ k. unfold Dict.get_or in (tt, omega arith)) in
    let (hits, transfers) = sum_by-hits config.max_transfers_per_step steps good in
    let first : (length traces == 0) ≡ false = ground arith in
    let second =
      any_of_All (λ trace. length trace == 0) traces
        (All-mono _ _ traces (λ t h. ground arith) no_empty) in
    let third = any_of_All (any (λ e. ltb capacity (demand e))) traces (
      All-mono _ _ traces
        (λ t h.
          any_of_All (λ e. ltb capacity (demand e)) t (All-mono _ _ t (λ e k. ground arith) h))
        fits) in
    let fourth : (config.slot_bytes == 0) ≡ false = ground arith in
    (
      prefetch_report config (length traces) (longest grouped) steps,
      rw (first, second, third, fourth, ran) refl,
      unfold prefetch_report in
          record {
            steps = good;
            count = count;
            demand = total ∙ from_step-traces traces;
            hits = hits;
            transfers = transfers;
          },
    )
