-- ===== src/Prefetch/Steps.antt =====
-- src/expertflow/analysis/prefetch_sim.py: the steps of a simulation, and their balance.
use expertflow.Base.{
  ==_refl, ℕ, ◌+◌, ◌≤◌, true, List, [], ◌∷◌, length, All, sum_by, ok, ◌≡◌, refl, arith,
}
use expertflow.Base.Dict
use expertflow.Base.Dict.{Dict}
use expertflow.Base.Distinct.{elem}
use expertflow.Base.Ordered.Slots.{IsSlot, IsSlot-insert}
use expertflow.Trace.Event.{RouterTraceEvent}
use expertflow.CacheSim.{demand}
use expertflow.Prefetch.Inputs.{PredictionMode, Score, Pairs, scored_of}
use expertflow.Prefetch.Issue.{issue}
use expertflow.Prefetch.Budget.{issue-Issues}
use expertflow.Prefetch.Sets.{Within, DistinctPairs, WithinPairs, length-WithinPairs-le}
use expertflow.Prefetch.Consume.{consume_demand-Consumes}
use expertflow.Prefetch.{
  EventState, PrefetchState, PrefetchStepOutcome, update_frequencies, consume_event, consume_events,
  step_outcome, prefetch_step,
}

abbrev pub AreSlots : ℕ → Dict (List ℕ) → Type 0
AreSlots capacity caches = (k : ℕ) → IsSlot capacity (Dict.get_or [] k caches)

abbrev pub FitsAll : ℕ → List RouterTraceEvent → Type 0
FitsAll capacity = All (λ e. demand e ≤ capacity)

-- What holds of the outcome of a step: each demand is a hit or a miss, each transfer is useful or
-- wasted, and there are no more transfers than the budget or the candidates.
pub record IsStep (max_transfers : ℕ) (o : PrefetchStepOutcome) : Type 0 where
  pub demands : o.hit_count + o.miss_count ≡ o.demand_count
  pub transfers : o.ready_useful + o.wasted_transfers ≡ o.transfers_issued
  pub budget : o.transfers_issued ≤ max_transfers
  pub candidates : o.transfers_issued ≤ o.predicted_candidates

Within-self : (xs : List ℕ) → Within xs xs
Within-self xs = all_of xs (λ x h. h)
  where
    all_of : (ys : List ℕ) → ((x : ℕ) → elem x ys ≡ true → elem x xs ≡ true) → Within xs ys
    all_of [] h = tt
    all_of (y ∷ ys) h = (h y (there y ys), all_of ys (λ x m. h x (later x y ys m)))
      where
        there : (y : ℕ) (ys : List ℕ) → elem y (y ∷ ys) ≡ true
        there y ys = unfold elem in rw (==_refl y) refl

        later : (x y : ℕ) (ys : List ℕ) → elem x ys ≡ true → elem x (y ∷ ys) ≡ true
        later x y ys m = unfold elem in ground arith

-- What the loop over some events, with `n` demands, keeps and counts.
record ConsumesAll (capacity : ℕ) (issued : Pairs) (n : ℕ) (before after : EventState)
    : Type 0 where
  slots : AreSlots capacity after.carried.caches
  ready : DistinctPairs after.counted_ready × WithinPairs issued after.counted_ready
  counted : after.step_hits + after.step_misses ≡ before.step_hits + before.step_misses + n

module _ (prediction : PredictionMode) (capacity : ℕ) where
  module _ (issued : Pairs) where
    consume_event-ConsumesAll :
        (e : RouterTraceEvent) (state : EventState)
        → demand e ≤ capacity
        → AreSlots capacity state.carried.caches
        → DistinctPairs state.counted_ready × WithinPairs issued state.counted_ready
        → (next : EventState) × (consume_event prediction capacity issued e state ≡ ok next)
          × ConsumesAll capacity issued (demand e) state next
    unfolding consume_event
    consume_event-ConsumesAll e state fits s r =
        let (last, ran, c) =
          consume_demand-Consumes capacity e.layer_id issued e.selected_expert_ids fits
            e.selected_expert_ids
            (record {
              cache = Dict.get_or [] e.layer_id state.carried.caches;
              counted_ready = state.counted_ready;
              hits = 0;
              misses = 0;
            })
            (Within-self e.selected_expert_ids) (s e.layer_id) r in
        (
          record {
            carried = record {
              caches = Dict.insert e.layer_id last.cache state.carried.caches;
              frequencies = update_frequencies prediction e state.carried.frequencies;
            };
            counted_ready = last.counted_ready;
            step_hits = state.step_hits + last.hits;
            step_misses = state.step_misses + last.misses;
          },
          rw ran refl,
          record {
            slots = IsSlot-insert capacity e.layer_id last.cache state.carried.caches c.slot s;
            ready = c.ready;
            counted = omega (arith, c.counted);
          },
        )

    consume_events-ConsumesAll :
        (events : List RouterTraceEvent) (state : EventState)
        → FitsAll capacity events
        → AreSlots capacity state.carried.caches
        → DistinctPairs state.counted_ready × WithinPairs issued state.counted_ready
        → (last : EventState) × (consume_events prediction capacity issued events state ≡ ok last)
          × ConsumesAll capacity issued (sum_by demand events) state last
    unfolding consume_events sum_by
    consume_events-ConsumesAll [] state fits s r =
        (state, refl, record { slots = s; ready = r; counted = omega arith })
    consume_events-ConsumesAll (e ∷ events) state fits s r =
        let (next, one, c) = consume_event-ConsumesAll e state fits.0 s r in
        let (last, rest, d) = consume_events-ConsumesAll events next fits.1 c.slots c.ready in
        (
          last,
          rw one rest,
          record {
            slots = d.slots;
            ready = d.ready;
            counted = omega (arith, c.counted, d.counted);
          },
        )

  -- A step over events that fit raises no exception.
  pub prefetch_step-IsStep :
      (max_transfers step_index : ℕ) (events : List RouterTraceEvent) (state : PrefetchState)
      → FitsAll capacity events
      → AreSlots capacity state.caches
      → (next : PrefetchState) × (outcome : PrefetchStepOutcome) × (prefetch_step prediction
            capacity max_transfers step_index events state
          ≡ ok (next, outcome))
        × IsStep max_transfers outcome
        × AreSlots capacity next.caches
        × (outcome.demand_count ≡ sum_by demand events)
  unfolding prefetch_step
  prefetch_step-IsStep max_transfers step_index events state fits s =
      let scored = scored_of prediction events state.caches state.frequencies in
      let sent = issue capacity events max_transfers scored state.caches [] in
      let sends = issue-Issues capacity events max_transfers scored state.caches [] s in
      let (done, ran, c) =
        consume_events-ConsumesAll sent.1 events
          (record {
            carried = record { caches = sent.0; frequencies = state.frequencies };
            counted_ready = [];
            step_hits = 0;
            step_misses = 0;
          })
          fits sends.slots (tt, tt) in
      (
        done.carried,
        step_outcome step_index events (length scored) sent.1 done,
        rw ran refl,
        outcome_lem max_transfers step_index events scored sent.1 done c.ready
            (omega (arith, sends.within_budget)) (omega (arith, sends.within_candidates))
            (omega (arith, c.counted)),
        c.slots,
        unfold step_outcome in refl,
      )
    where
      outcome_lem :
          (max_transfers step_index : ℕ) (events : List RouterTraceEvent) (scored : List Score)
          (issued : Pairs) (done : EventState)
          → DistinctPairs done.counted_ready × WithinPairs issued done.counted_ready
          → length issued ≤ max_transfers
          → length issued ≤ length scored
          → done.step_hits + done.step_misses ≡ sum_by demand events
          → IsStep max_transfers (step_outcome step_index events (length scored) issued done)
      outcome_lem max_transfers step_index events scored issued done r b k e =
          unfold step_outcome in
          record {
            demands = e;
            transfers = omega (arith, length-WithinPairs-le done.counted_ready issued r.0 r.1);
            budget = b;
            candidates = k;
          }
