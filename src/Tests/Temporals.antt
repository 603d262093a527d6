-- ===== src/Tests/Temporals.antt =====
-- The temporal simulation of a conversation of two tokens and one of another token.
use expertflow.Base.{
  All, ◌<◌, ◌+◌, ℕ, String, length, any, keep, List, [], ◌∷◌, ok, err, value_error, ◌≡◌, refl,
  arith,
}
use expertflow.Base.Distinct.{elem, remove, dedup}
use expertflow.Base.Ordered.{move_to_end, store}
use expertflow.Trace.Event.{RouterTraceEvent, decode}
use expertflow.Shadow.{minus, pop_first, demand_slot, demand_all}
use expertflow.Temporal.{
  TemporalSample, TemporalReport, evict_oldest, count_inserted, predict_one, predict_all, begin,
  same_experts, breaks_off, is_new, arrive, count_demand, count_covered, temporal_row,
  temporal_rows, temporal_report, simulate_temporal_shadow,
}
use expertflow.Temporal.Dataset.{
  validate_router_set, is_decode, paired, check_pair, sample_of, keep_event, collect, ordered,
  samples_from, pair_up, shard_samples,
}
use expertflow.Temporal.Pipeline.{shard_samples-simulate_temporal_shadow}
use expertflow.Base.Dict
use expertflow.Base.Sort.{insert_by, sort_by}
use expertflow.Tests.Traces.{event}
use expertflow.Temporal.Shard.{IsRecord, IsNext, shard_samples-consecutive}
use expertflow.Temporal.Rounds.{IsBalanced}
use expertflow.Temporal.Run.{follows, is_continuous, verdict, simulate_temporal_shadow-IsBalanced}

temporal_program : Unit {0}
unfolding any keep elem remove dedup move_to_end store minus pop_first demand_slot demand_all
    evict_oldest count_inserted predict_one predict_all begin same_experts breaks_off is_new arrive
    count_demand count_covered temporal_row temporal_rows temporal_report simulate_temporal_shadow
    follows is_continuous Dict.insert insert_by sort_by validate_router_set is_decode paired
    check_pair sample_of keep_event collect ordered samples_from pair_up shard_samples
temporal_program = tt

abbrev sample : String → List ℕ → List ℕ → TemporalSample
sample conversation source target = record {
  conversation_id = conversation;
  split = "test";
  domain = "code";
  request_id = "r";
  turn_index = 0;
  phase = decode;
  layer_id = 24;
  source_forward_id = 0;
  target_forward_id = 1;
  source_token_index = 0;
  target_token_index = 1;
  source_token_id = 7;
  target_token_id = 8;
  source_hook_order = 0;
  target_hook_order = 1;
  source_expert_ids = source;
  target_expert_ids = target;
}

abbrev samples : List TemporalSample
samples =
    sample "a" (1 ∷ 2 ∷ []) (2 ∷ 3 ∷ [])
    ∷ sample "a" (2 ∷ 3 ∷ []) (3 ∷ 4 ∷ [])
    ∷ sample "b" (5 ∷ []) (6 ∷ [])
    ∷ []

abbrev broken : List TemporalSample
broken = sample "a" (1 ∷ 2 ∷ []) (2 ∷ 3 ∷ []) ∷ sample "a" (3 ∷ 2 ∷ []) (3 ∷ 4 ∷ []) ∷ []

run :
    (report : TemporalReport) × (simulate_temporal_shadow samples
        ((3 ∷ 9 ∷ []) ∷ (4 ∷ 8 ∷ []) ∷ (7 ∷ 6 ∷ []) ∷ [])
        1
        2
        10
      ≡ ok report)
unfolding temporal_program
run = (_, refl)

counts :
    (run.0.totals.demand_count ≡ 5)
    × (run.0.totals.ready_before_demand ≡ 4)
    × (run.0.useful_predicted_bytes ≡ 20)
unfolding run
counts = (refl, refl, refl)

discontinuous :
    simulate_temporal_shadow broken ([] ∷ [] ∷ []) 1 2 10
    ≡ err (value_error "temporal shadow input is not a continuous conversation sequence")
unfolding temporal_program
discontinuous = refl

abbrev shard : List RouterTraceEvent
shard =
    event 1 24 (1 ∷ 2 ∷ 3 ∷ 4 ∷ 5 ∷ 6 ∷ 7 ∷ 9 ∷ [])
    ∷ event 0 24 (1 ∷ 2 ∷ 3 ∷ 4 ∷ 5 ∷ 6 ∷ 7 ∷ 8 ∷ [])
    ∷ event 0 23 (1 ∷ 2 ∷ [])
    ∷ event 2 24 (10 ∷ 2 ∷ 3 ∷ 4 ∷ 5 ∷ 6 ∷ 7 ∷ 9 ∷ [])
    ∷ []

shard_run :
    (samples : List TemporalSample) × (shard_samples "c" "test" "code" shard ≡ ok samples)
    × (length samples ≡ 2)
unfolding temporal_program
shard_run = (_, refl, refl)

gap :
    shard_samples "c" "test" "code" (
      event 0 24 (1 ∷ 2 ∷ 3 ∷ 4 ∷ 5 ∷ 6 ∷ 7 ∷ 9 ∷ [])
      ∷ event 2 24 (1 ∷ 2 ∷ 3 ∷ 4 ∷ 5 ∷ 6 ∷ 7 ∷ 8 ∷ [])
      ∷ [])
    ≡ err (value_error "decode records do not have consecutive forward IDs")
unfolding temporal_program
gap = refl

shard_samples-simulate_temporal_shadow_example :
    (report : TemporalReport) × (simulate_temporal_shadow shard_run.0
        ((3 ∷ 9 ∷ []) ∷ (4 ∷ 10 ∷ []) ∷ [])
        1
        8
        10
      ≡ ok report)
    × IsBalanced report.totals
shard_samples-simulate_temporal_shadow_example =
    shard_samples-simulate_temporal_shadow "c" "test" "code" shard
      ((3 ∷ 9 ∷ []) ∷ (4 ∷ 10 ∷ []) ∷ []) 1 8 10 shard_run.1 shard_run.2 (omega arith) (omega arith)
      (omega arith)

simulate_temporal_shadow-IsBalanced_example :
    (report : TemporalReport) × (simulate_temporal_shadow samples
        ((3 ∷ 9 ∷ []) ∷ (4 ∷ 8 ∷ []) ∷ (7 ∷ 6 ∷ []) ∷ [])
        1
        2
        10
      ≡ verdict (is_continuous samples) report)
    × IsBalanced report.totals
simulate_temporal_shadow-IsBalanced_example =
    simulate_temporal_shadow-IsBalanced samples ((3 ∷ 9 ∷ []) ∷ (4 ∷ 8 ∷ []) ∷ (7 ∷ 6 ∷ []) ∷ []) 1
      2 10 refl (omega arith) (omega arith) (omega arith)

abbrev first_token : RouterTraceEvent
first_token = event 0 24 (1 ∷ 2 ∷ 3 ∷ 4 ∷ 5 ∷ 6 ∷ 7 ∷ 8 ∷ [])

abbrev later_tokens : List RouterTraceEvent
later_tokens =
    event 1 24 (1 ∷ 2 ∷ 3 ∷ 4 ∷ 5 ∷ 6 ∷ 7 ∷ 9 ∷ [])
    ∷ event 2 24 (10 ∷ 2 ∷ 3 ∷ 4 ∷ 5 ∷ 6 ∷ 7 ∷ 9 ∷ [])
    ∷ []

record_lem :
    (forward : ℕ) (ids : List ℕ)
    → length ids ≡ 8
    → All (λ x. x < 128) ids
    → IsRecord "c" (event forward 24 ids)
unfolding is_decode
record_lem forward ids h k = record {
  own = refl;
  decodes = refl;
  layer = refl;
  width = h;
  experts = k;
}

next : (forward : ℕ) (xs ys : List ℕ) → IsNext (event forward 24 xs) (event (forward + 1) 24 ys)
next forward xs ys = record {
  request = refl;
  turn = refl;
  forward = refl;
  token = refl;
  hook = omega arith;
}

shard_samples-consecutive_example :
    (samples : List TemporalSample) × (shard_samples "c" "test" "code" (first_token ∷ later_tokens)
      ≡ ok samples)
    × (length samples ≡ 2)
shard_samples-consecutive_example =
    shard_samples-consecutive "c" "test" "code" first_token later_tokens (omega arith)
      (
        record_lem 0 (1 ∷ 2 ∷ 3 ∷ 4 ∷ 5 ∷ 6 ∷ 7 ∷ 8 ∷ []) refl (omega arith),
        (
          record_lem 1 (1 ∷ 2 ∷ 3 ∷ 4 ∷ 5 ∷ 6 ∷ 7 ∷ 9 ∷ []) refl (omega arith),
          (record_lem 2 (10 ∷ 2 ∷ 3 ∷ 4 ∷ 5 ∷ 6 ∷ 7 ∷ 9 ∷ []) refl (omega arith), tt),
        ),
      )
      (
        next 0 (1 ∷ 2 ∷ 3 ∷ 4 ∷ 5 ∷ 6 ∷ 7 ∷ 8 ∷ []) (1 ∷ 2 ∷ 3 ∷ 4 ∷ 5 ∷ 6 ∷ 7 ∷ 9 ∷ []),
        (next 1 (1 ∷ 2 ∷ 3 ∷ 4 ∷ 5 ∷ 6 ∷ 7 ∷ 9 ∷ []) (10 ∷ 2 ∷ 3 ∷ 4 ∷ 5 ∷ 6 ∷ 7 ∷ 9 ∷ []), tt),
      )
