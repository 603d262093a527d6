-- ===== src/Temporal.antt =====
-- src/expertflow/predictor/temporal_shadow.py: one speculative cache over the tokens of a
-- conversation, beside a reactive one. `_demand` is the function of the same text that shadow.py has
-- (`demand_slot` and `demand_all`). A total that the source has not counted yet is 0 here.
pub mod Predictions
pub mod Rounds
pub mod Run
pub mod Dataset
pub mod Pipeline
pub mod Shard
use expertflow.Base.{
  ℕ, zero, suc, ◌+◌, ◌-◌, ◌*◌, Bool, true, false, not, ◌&&◌, ◌||◌, String, str_eq, Option, none,
  some, List, [], ◌∷◌, length, take, keep, ltb, leb, ◌==◌, if◌then◌else◌, Result, ok, err,
  value_error, raise_if, ◌>>=◌, ◌>>◌,
}
use expertflow.Base.Distinct.{elem, dedup}
use expertflow.Base.Ordered.{move_to_end, store}
use expertflow.Trace.Event.{ℤ, Phase}
use expertflow.Shadow.{minus, pop_first, demand_all}

-- `TemporalSample`, of src/expertflow/predictor/temporal_dataset.py; `phase` is always "decode"
pub record TemporalSample : Type 0 where
  pub conversation_id : String
  pub split : String
  pub domain : String
  pub request_id : String
  pub turn_index : ℕ
  pub phase : Phase
  pub layer_id : ℕ
  pub source_forward_id : ℕ
  pub target_forward_id : ℕ
  pub source_token_index : ℕ
  pub target_token_index : ℕ
  pub source_token_id : ℕ
  pub target_token_id : ℕ
  pub source_hook_order : ℕ
  pub target_hook_order : ℕ
  pub source_expert_ids : List ℕ
  pub target_expert_ids : List ℕ

-- `totals`
pub record TemporalTotals : Type 0 where
  pub demand_count : ℕ
  pub reactive_demand_hits : ℕ
  pub additional_speculative_evictions : ℕ
  pub eviction_regret : ℕ
  pub useful_speculative_insertions : ℕ
  pub wasted_speculative_insertions : ℕ
  pub ready_before_demand : ℕ
  pub uncovered_blocking_misses : ℕ

abbrev pub zero_totals : TemporalTotals
zero_totals = record {
  demand_count = 0;
  reactive_demand_hits = 0;
  additional_speculative_evictions = 0;
  eviction_regret = 0;
  useful_speculative_insertions = 0;
  wasted_speculative_insertions = 0;
  ready_before_demand = 0;
  uncovered_blocking_misses = 0;
}

-- the variables of the loop; of `previous` the target experts are read
pub record TemporalState : Type 0 where
  pub current_conversation : Option String
  pub reactive : List ℕ
  pub shadow : List ℕ
  pub previous : Option (List ℕ)
  pub totals : TemporalTotals

-- the eviction where the cache is full
unfoldable pub evict_oldest :
    ℕ → List ℕ → List ℕ → TemporalTotals → Result (List ℕ × TemporalTotals)
evict_oldest capacity target cache totals =
    if ltb (length cache) capacity then ok (cache, totals) else do
      (victim, rest) ← pop_first cache
      ok (
        rest,
        record totals {
          additional_speculative_evictions = totals.additional_speculative_evictions + 1;
          eviction_regret =
              if elem victim target then totals.eviction_regret + 1 else totals.eviction_regret;
        },
      )

-- the count of an insertion
unfoldable pub count_inserted : Bool → TemporalTotals → TemporalTotals
count_inserted true totals = record totals {
  useful_speculative_insertions = totals.useful_speculative_insertions + 1;
}
count_inserted false totals = record totals {
  wasted_speculative_insertions = totals.wasted_speculative_insertions + 1;
}

-- one round of the loop over `ranking[:width]`
unfoldable pub predict_one :
    ℕ → List ℕ → ℕ → List ℕ → TemporalTotals → Result (List ℕ × TemporalTotals)
predict_one capacity target expert cache totals =
    if elem expert cache then ok (move_to_end expert cache, totals) else do
      (room, counted) ← evict_oldest capacity target cache totals
      ok (store expert room, count_inserted (elem expert target) counted)

unfoldable pub predict_all :
    ℕ → List ℕ → List ℕ → List ℕ → TemporalTotals → Result (List ℕ × TemporalTotals)
predict_all capacity target [] cache totals = ok (cache, totals)
predict_all capacity target (expert ∷ experts) cache totals = do
  (next, counted) ← predict_one capacity target expert cache totals
  predict_all capacity target experts next counted

-- the first sample of a conversation
unfoldable pub begin : ℕ → TemporalSample → TemporalState → Result TemporalState
begin capacity sample state = do
  reactive ← demand_all [] sample.source_expert_ids capacity
  shadow ← demand_all [] sample.source_expert_ids capacity
  ok (record state {
    current_conversation = some sample.conversation_id;
    reactive = reactive;
    shadow = shadow;
    previous = none;
  })

-- `tuple == tuple`
unfoldable pub same_experts : List ℕ → List ℕ → Bool
same_experts [] [] = true
same_experts (x ∷ xs) (y ∷ ys) = x == y && same_experts xs ys
same_experts _ _ = false

-- `previous is not None and sample.source_expert_ids != previous.target_expert_ids`
unfoldable pub breaks_off : Option (List ℕ) → TemporalSample → Bool
breaks_off none sample = false
breaks_off (some target) sample = not (same_experts sample.source_expert_ids target)

-- `sample.conversation_id != current_conversation`
unfoldable pub is_new : Option String → TemporalSample → Bool
is_new none sample = true
is_new (some current) sample = not (str_eq sample.conversation_id current)

-- the two branches at the start of a round
unfoldable pub arrive : ℕ → TemporalSample → TemporalState → Result TemporalState
arrive capacity sample state =
    if is_new state.current_conversation sample
    then begin capacity sample state
    else if breaks_off state.previous sample
    then err (value_error "temporal shadow input is not a continuous conversation sequence")
    else ok state

-- the totals before the predictions
unfoldable pub count_demand : List ℕ → List ℕ → TemporalTotals → TemporalTotals
count_demand target reactive totals = record totals {
  demand_count = totals.demand_count + length target;
  reactive_demand_hits = totals.reactive_demand_hits + length (keep (λ x. elem x reactive) target);
}

-- the totals after them
unfoldable pub count_covered : List ℕ → List ℕ → TemporalTotals → TemporalTotals
count_covered target shadow totals =
    let ready = length (keep (λ x. elem x shadow) target) in
    record totals {
      ready_before_demand = totals.ready_before_demand + ready;
      uncovered_blocking_misses = totals.uncovered_blocking_misses + (length target - ready);
    }

-- the rest of a round
unfoldable pub temporal_row : ℕ → ℕ → TemporalSample → List ℕ → TemporalState → Result TemporalState
temporal_row width capacity sample ranking state = do
  let target = dedup sample.target_expert_ids
  (filled, counted) ←
      predict_all capacity target (take width ranking) state.shadow
        (count_demand target state.reactive state.totals)
  next_reactive ← demand_all state.reactive sample.target_expert_ids capacity
  next_shadow ← demand_all filled sample.target_expert_ids capacity
  ok (record state {
    reactive = next_reactive;
    shadow = next_shadow;
    previous = some sample.target_expert_ids;
    totals = count_covered target filled counted;
  })

-- the loop over `zip(rows, rankings, strict=True)`
unfoldable pub temporal_rows :
    ℕ → ℕ → List TemporalSample → List (List ℕ) → TemporalState → Result TemporalState
temporal_rows width capacity (sample ∷ rows) (ranking ∷ rankings) state = do
  entered ← arrive capacity sample state
  next ← temporal_row width capacity sample ranking entered
  temporal_rows width capacity rows rankings next
temporal_rows width capacity _ _ state = ok state

-- the dictionary that is returned, less the constants
pub record TemporalReport : Type 0 where
  pub totals : TemporalTotals
  pub reactive_blocking_misses : ℤ
  pub ready_improvement_over_reactive : ℤ
  pub useful_predicted_bytes : ℕ
  pub wasted_predicted_bytes : ℕ
  pub candidate_width : ℕ
  pub capacity : ℕ
  pub expert_bytes : ℕ

unfoldable pub temporal_report : ℕ → ℕ → ℕ → TemporalTotals → TemporalReport
temporal_report width capacity expert_bytes totals = record {
  totals = totals;
  reactive_blocking_misses = minus totals.demand_count totals.reactive_demand_hits;
  ready_improvement_over_reactive = minus totals.ready_before_demand totals.reactive_demand_hits;
  useful_predicted_bytes = totals.useful_speculative_insertions * expert_bytes;
  wasted_predicted_bytes = totals.wasted_speculative_insertions * expert_bytes;
  candidate_width = width;
  capacity = capacity;
  expert_bytes = expert_bytes;
}

-- `simulate_temporal_shadow`
unfoldable pub simulate_temporal_shadow :
    List TemporalSample → List (List ℕ) → ℕ → ℕ → ℕ → Result TemporalReport
simulate_temporal_shadow rows rankings width capacity expert_bytes = do
  raise_if (not (length rows == length rankings))
      (value_error "samples and rankings must have identical length")
  raise_if (not (leb 1 width && leb width 128) || ltb capacity width)
      (value_error "temporal width and capacity are incompatible")
  state ← temporal_rows width capacity rows rankings (record {
    current_conversation = none;
    reactive = [];
    shadow = [];
    previous = none;
    totals = zero_totals;
  })
  ok (temporal_report width capacity expert_bytes state.totals)
