-- ===== src/Capacity/HeldOut.antt =====
-- src/expertflow/analysis/capacity_curve.py: static residents from training events, scored on others.
use expertflow.Base.{
  ℕ, ◌+◌, ◌-◌, Bool, true, false, not, ◌&&◌, ◌||◌, Option, none, some, List, [], ◌∷◌, ◌++◌, map,
  length, any, sum_by, ltb, ◌==◌, str_eq, if◌then◌else◌, Result, ok, err, value_error, key_error,
  raise_if, ◌>>=◌, ◌>>◌,
}
use expertflow.Base.Dict
use expertflow.Base.Dict.{Dict}
use expertflow.Base.Distinct.{elem}
use expertflow.Trace.Event.{RouterTraceEvent, Phase, Float}
use expertflow.CacheSim.{PolicyResult, demand, static_residents, simulate_policies}
use expertflow.Capacity.{
  rate, combine_policy_results, first_keys, router_top_k, layer_ids, CurvePoint, Scale, curve_point,
  each, CapacityCurve, curve_of, bad_capacities,
}

-- `lru_reset_scope`
pub data ResetScope : Type 0 where
  evaluation_set conversation : ResetScope

-- what `build_held_out_capacity_curve` returns: what it has beyond the other curve, and the curve
-- of the evaluation events
pub record HeldOutCurve : Type 0 where
  pub lru_reset_scope : ResetScope
  pub training_event_count : ℕ
  pub evaluation_event_count : ℕ
  pub curve : CapacityCurve

-- `tuple == tuple` for the expert ids
unfoldable pub same_list : List ℕ → List ℕ → Bool
same_list [] [] = true
same_list (x ∷ xs) (y ∷ ys) = x == y && same_list xs ys
same_list _ _ = false

unfoldable pub same_phase : Phase → Phase → Bool
same_phase Phase.prefill Phase.prefill = true
same_phase Phase.decode Phase.decode = true
same_phase _ _ = false

-- The comparison of the weights is a parameter: `==` of two tuples of floats, or of None.
module _ (same_weights : Option (List Float) → Option (List Float) → Bool) where
  -- the `==` of the data class
  unfoldable pub same_event : RouterTraceEvent → RouterTraceEvent → Bool
  same_event a b =
      str_eq a.schema_version b.schema_version
      && str_eq a.request_id b.request_id
      && str_eq a.conversation_id b.conversation_id
      && a.turn_index == b.turn_index
      && same_phase a.phase b.phase
      && a.forward_id == b.forward_id
      && a.hook_order == b.hook_order
      && a.token_index == b.token_index
      && a.token_id == b.token_id
      && a.layer_id == b.layer_id
      && same_list a.selected_expert_ids b.selected_expert_ids
      && same_weights a.selected_expert_weights b.selected_expert_weights
      && a.observed_at_ns == b.observed_at_ns

  unfoldable pub same_trace : List RouterTraceEvent → List RouterTraceEvent → Bool
  same_trace [] [] = true
  same_trace (a ∷ xs) (b ∷ ys) = same_event a b && same_trace xs ys
  same_trace _ _ = false

-- the events of all groups
unfoldable pub flatten : List (List RouterTraceEvent) → List RouterTraceEvent
flatten [] = []
flatten (group ∷ groups) = group ++ flatten groups

-- `groups`
unfoldable pub groups_of :
    Option (List (List RouterTraceEvent)) → List RouterTraceEvent → List (List RouterTraceEvent)
groups_of none evaluation = evaluation ∷ []
groups_of (some groups) evaluation = groups

unfoldable pub reset_scope : Option (List (List RouterTraceEvent)) → ResetScope
reset_scope none = ResetScope.evaluation_set
reset_scope (some groups) = ResetScope.conversation

-- `training_layers != evaluation_layers`, of two sets
unfoldable pub layers_differ : List RouterTraceEvent → List RouterTraceEvent → Bool
layers_differ training evaluation =
    let seen = map (λ e. e.layer_id) in
    any (λ x. not (elem x (seen evaluation))) (seen training)
    || any (λ x. not (elem x (seen training))) (seen evaluation)

-- `sum(expert_id in residents[layer] for expert_id in ids)`
unfoldable pub event_hits : Dict (List ℕ) → ℕ → List ℕ → Result ℕ
event_hits residents layer [] = ok 0
event_hits residents layer (x ∷ xs) = elim (Dict.lookup layer residents) [
  | none ↦ err key_error
  | some ids ↦ do rest ← event_hits residents layer xs; ok ((if elem x ids then 1 else 0) + rest)
]

-- `static_hits`
unfoldable pub static_hits : Dict (List ℕ) → List RouterTraceEvent → Result ℕ
static_hits residents [] = ok 0
static_hits residents (e ∷ events) = do
  hits ← event_hits residents e.layer_id e.selected_expert_ids
  rest ← static_hits residents events
  ok (hits + rest)

-- the `PolicyResult` of the static policy
unfoldable pub scored_result : Dict (List ℕ) → ℕ → ℕ → ℕ × ℕ → PolicyResult
scored_result residents demands hits hit_rate = record {
  demand_count = demands;
  hit_count = hits;
  miss_count = demands - hits;
  load_count = demands - hits;
  preload_count = sum_by (λ e. length (e.1)) residents;
  hit_rate = hit_rate;
}

-- `static`
unfoldable pub static_result : Dict (List ℕ) → List RouterTraceEvent → Result PolicyResult
static_result residents evaluation = do
  let demands = sum_by demand evaluation
  hits ← static_hits residents evaluation
  hit_rate ← rate hits demands
  ok (scored_result residents demands hits hit_rate)

-- one round of the loop over the capacities
unfoldable pub held_out_point :
    List RouterTraceEvent
    → List RouterTraceEvent
    → List (List RouterTraceEvent)
    → Scale
    → ℕ
    → Result CurvePoint
held_out_point training evaluation groups scale capacity = do
  raise_if (ltb capacity scale.top_k) (value_error "capacity cannot be below router top-k")
  fixed ← static_result (static_residents training capacity) evaluation
  simulations ← each (λ group. simulate_policies group capacity) groups
  reactive ← combine_policy_results (map (λ s. s.reactive) simulations)
  lru ← combine_policy_results (map (λ s. s.lru) simulations)
  ok (curve_point scale capacity reactive fixed lru)

-- `build_held_out_capacity_curve`
unfoldable pub build_held_out_capacity_curve :
    (Option (List Float) → Option (List Float) → Bool)
    → List RouterTraceEvent
    → List RouterTraceEvent
    → Option (List (List RouterTraceEvent))
    → List ℕ
    → ℕ
    → ℕ
    → Result HeldOutCurve
build_held_out_capacity_curve same_weights training evaluation evaluation_groups capacities
      slot_bytes transfer_ms =
    do
      raise_if (length training == 0 || length evaluation == 0)
          (value_error "training and evaluation events must not be empty")
      raise_if (bad_capacities capacities) (value_error "capacities must contain positive values")
      raise_if (slot_bytes == 0 || transfer_ms == 0)
          (value_error "slot bytes and transfer time must be positive")
      let groups = groups_of evaluation_groups evaluation
      raise_if (length groups == 0 || any (λ group. length group == 0) groups)
          (value_error "evaluation groups must not be empty")
      raise_if (not (same_trace same_weights (flatten groups) evaluation))
          (value_error "evaluation groups must partition evaluation events")
      top_k ←
          router_top_k "router top-k must be constant across both workloads"
            (training ++ evaluation)
      raise_if (layers_differ training evaluation)
          (value_error "training and evaluation layer sets must match")
      let scale : Scale = record {
        layer_count = length (layer_ids evaluation);
        top_k = top_k;
        slot_bytes = slot_bytes;
        transfer_ms = transfer_ms;
      }
      points ← each (held_out_point training evaluation groups scale) (first_keys capacities)
      ok (record {
        lru_reset_scope = reset_scope evaluation_groups;
        training_event_count = length training;
        evaluation_event_count = length evaluation;
        curve = curve_of evaluation top_k slot_bytes transfer_ms points;
      })
