-- ===== src/Tests/Shadows.antt =====
-- The speculative cache over three samples of two conversations.
use expertflow.Base.{
  ℕ, String, none, some, List, [], ◌∷◌, any, keep, ok, err, value_error, ◌≡◌, refl, arith,
}
use expertflow.Base.Dict
use expertflow.Base.Distinct.{elem, remove, dedup}
use expertflow.Base.Ordered.{move_to_end, store}
use expertflow.Base.Ordered.Recency.{keep_last}
use expertflow.Trace.Event.{pos}
use expertflow.Shadow.{
  PredictionSample, ShadowReport, minus, pop_first, demand_slot, demand_all, evict, count_insertion,
  speculate_one, speculate, count_row, count_ready, reset, enter_from, enter, shadow_row,
  candidates_of, shadow_rows, zip_rows, shadow_report, admitted_differ, simulate_shadow,
}
use expertflow.Shadow.Slots.{uses, demand_all-keep_last}
use expertflow.Shadow.Accounts.{IsBalanced, simulate_shadow-IsBalanced}
use expertflow.Shadow.Total.{simulate_shadow_total}

shadow_program : Unit {0}
unfolding any keep elem remove dedup Dict.get_or Dict.insert move_to_end store minus pop_first
    demand_slot demand_all evict count_insertion speculate_one speculate count_row count_ready reset
    enter_from enter shadow_row candidates_of shadow_rows zip_rows shadow_report admitted_differ
    simulate_shadow
shadow_program = tt

abbrev sample : String → List ℕ → PredictionSample
sample conversation target = record {
  conversation_id = conversation;
  split = "test";
  domain = "code";
  phase = "decode";
  forward_id = 0;
  token_index = 0;
  token_id = 0;
  source_layer = 3;
  target_layer = 4;
  source_expert_ids = [];
  target_expert_ids = target;
  source_expert_weights = none;
  source_vector = [];
  previous_target_vector = none;
}

abbrev samples : List PredictionSample
samples = sample "a" (1 ∷ 2 ∷ []) ∷ sample "a" (2 ∷ 5 ∷ []) ∷ sample "b" (2 ∷ 3 ∷ []) ∷ []

abbrev rankings : List (List ℕ)
rankings = (1 ∷ 7 ∷ 9 ∷ []) ∷ (5 ∷ 2 ∷ []) ∷ (8 ∷ 3 ∷ []) ∷ []

shadow_run : (report : ShadowReport) × (simulate_shadow samples rankings none 2 2 100 ≡ ok report)
unfolding shadow_program
shadow_run = (_, refl)

-- Four of six demands are ready, against one without predictions.
shadow_counts :
    (shadow_run.0.totals.ready_before_demand ≡ 4)
    × (shadow_run.0.totals.demand_count ≡ 6)
    × (shadow_run.0.totals.reactive_demand_hits ≡ 1)
    × (shadow_run.0.ready_improvement_over_reactive ≡ pos 3)
unfolding shadow_run
shadow_counts = (refl, refl, refl, refl)

-- An admitted candidate outside the ranking's prefix is refused.
shadow_refused :
    simulate_shadow samples rankings (some ((9 ∷ []) ∷ [] ∷ [] ∷ [])) 2 2 100
    ≡ err (value_error "admitted candidates must come from the selected ranking prefix")
unfolding shadow_program
shadow_refused = refl

simulate_shadow-IsBalanced_example : IsBalanced shadow_run.0.totals
simulate_shadow-IsBalanced_example =
    simulate_shadow-IsBalanced samples rankings none 2 2 100 shadow_run.1

simulate_shadow_total_example :
    (report : ShadowReport) × (simulate_shadow samples rankings none 2 2 100 ≡ ok report)
simulate_shadow_total_example =
    simulate_shadow_total samples rankings 2 2 100 refl (omega arith) (omega arith) (omega arith)

demand_all-keep_last_example :
    demand_all (keep_last 2 (4 ∷ 5 ∷ 6 ∷ [])) (5 ∷ 7 ∷ []) 2
    ≡ ok (keep_last 2 (uses (4 ∷ 5 ∷ 6 ∷ []) (5 ∷ 7 ∷ [])))
demand_all-keep_last_example =
    demand_all-keep_last 2 (4 ∷ 5 ∷ 6 ∷ []) (5 ∷ 7 ∷ []) (omega arith)
      (unfold elem in (refl, (refl, (refl, tt))))
