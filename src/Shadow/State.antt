-- ===== src/Shadow/State.antt =====
-- src/expertflow/predictor/shadow.py: the samples, the state of the loop and the report.
use expertflow.Base.{ℕ, String, Option, none, List, []}
use expertflow.Base.Dict.{Dict}
use expertflow.Trace.Event.{ℤ, Float}

-- `PredictionSample`, of src/expertflow/predictor/dataset.py
pub record PredictionSample : Type 0 where
  pub conversation_id : String
  pub split : String
  pub domain : String
  pub phase : String
  pub forward_id : ℕ
  pub token_index : ℕ
  pub token_id : ℕ
  pub source_layer : ℕ
  pub target_layer : ℕ
  pub source_expert_ids : List ℕ
  pub target_expert_ids : List ℕ
  pub source_expert_weights : Option (List Float)
  pub source_vector : List Float
  pub previous_target_vector : Option (List Float)

-- `totals`; `offered` and `taken` are the two sides of `rejected_predicted_candidates`
pub record Totals : Type 0 where
  pub offered : ℕ
  pub taken : ℕ
  pub demand_count : ℕ
  pub reactive_demand_hits : ℕ
  pub additional_speculative_evictions : ℕ
  pub eviction_regret : ℕ
  pub useful_speculative_insertions : ℕ
  pub wasted_speculative_insertions : ℕ
  pub ready_before_demand : ℕ
  pub predicted_ready_demands : ℕ
  pub uncovered_blocking_misses : ℕ

-- the variables of the loop over the samples
pub record ShadowState : Type 0 where
  pub conversation : Option String
  pub reactive : Dict (List ℕ)
  pub shadow : Dict (List ℕ)
  pub totals : Totals

-- the dictionary that `simulate_shadow` returns
pub record ShadowReport : Type 0 where
  pub totals : Totals
  pub rejected_predicted_candidates : ℤ
  pub late_predictions : ℕ
  pub useful_predicted_bytes : ℕ
  pub wasted_predicted_bytes : ℕ
  pub reactive_blocking_misses : ℤ
  pub ready_improvement_over_reactive : ℤ
  pub candidate_width : ℕ
  pub capacity_per_layer : ℕ
  pub expert_bytes : ℕ

abbrev pub no_totals : Totals
no_totals = record {
  offered = 0;
  taken = 0;
  demand_count = 0;
  reactive_demand_hits = 0;
  additional_speculative_evictions = 0;
  eviction_regret = 0;
  useful_speculative_insertions = 0;
  wasted_speculative_insertions = 0;
  ready_before_demand = 0;
  predicted_ready_demands = 0;
  uncovered_blocking_misses = 0;
}

abbrev pub no_state : ShadowState
no_state = record { conversation = none; reactive = []; shadow = []; totals = no_totals }
