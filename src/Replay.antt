-- ===== src/Replay.antt =====
-- src/expertflow/analysis/replay.py: the causal replay of a policy over a trace.
use expertflow.Base.{
  ℕ, ◌+◌, ◌-◌, Bool, true, false, not, Option, none, some, List, [], ◌∷◌, ◌++◌, map, length, any,
  sum_by, ltb, ◌==◌, if◌then◌else◌, Result, ok, err, value_error, raise_if, ◌>>=◌, ◌>>◌, ap, String,
}
use expertflow.Base.Dict
use expertflow.Base.Dict.{Dict}
use expertflow.Base.Distinct.{elem}
use expertflow.Trace.Event.{RouterTraceEvent}
pub mod Agreement
use expertflow.CacheSim.{
  Policy, static_hotset, PolicyEventOutcome, demand, count_layers, hot_experts, static_outcomes,
  policy_outcomes,
}
use expertflow.Trace.Event.{Phase}

-- `ReplayTimelineEvent`; `blocked` is the status "blocking"
pub record ReplayTimelineEvent : Type 0 where
  pub request_id : String
  pub phase : Phase
  pub forward_id : ℕ
  pub token_index : ℕ
  pub token_id : ℕ
  pub layer_id : ℕ
  pub ready_expert_ids : List ℕ
  pub blocking_expert_ids : List ℕ
  pub blocked : Bool

pub record PolicyReplay : Type 0 where
  pub policy : Policy
  pub capacity_per_layer : ℕ
  pub event_count : ℕ
  pub demand_count : ℕ
  pub hit_count : ℕ
  pub miss_count : ℕ
  pub timeline : List ReplayTimelineEvent

-- `policy != "static_hotset"`
unfoldable pub is_static : Policy → Bool
is_static Policy.static_hotset = true
is_static _ = false

unfoldable pub is_empty {ℓ} : {A : Type ℓ} → List A → Bool
is_empty [] = true
is_empty (x ∷ xs) = false

-- the branch with `static_training_events`
unfoldable pub trained_outcomes :
    List RouterTraceEvent → Policy → ℕ → List RouterTraceEvent → Result (List PolicyEventOutcome)
unfolding is_static
trained_outcomes events policy capacity training = do
  raise_if (not (is_static policy))
      (value_error "static_training_events require the static_hotset policy")
  raise_if (is_empty training) (value_error "static_training_events must not be empty")
  raise_if (if capacity == 0 then true else any (λ e. ltb capacity (demand e)) (training ++ events))
      (value_error "capacity cannot be below router top-k")
  let residents = Dict.map_values (hot_experts capacity) (count_layers training [])
  raise_if (any (λ e. not (elem e.layer_id (Dict.keys residents))) events)
      (value_error "training events do not cover every evaluation layer")
  static_outcomes residents events

-- the choice of the outcomes
unfoldable pub replay_outcomes :
    List RouterTraceEvent
    → Policy
    → ℕ
    → Option (List RouterTraceEvent)
    → Result (List PolicyEventOutcome)
replay_outcomes events policy capacity none = policy_outcomes events policy capacity
replay_outcomes events policy capacity (some training) =
    trained_outcomes events policy capacity training

-- one entry of the timeline
unfoldable pub timeline_event : PolicyEventOutcome → ReplayTimelineEvent
unfolding is_empty
timeline_event o = record {
  request_id = o.event.request_id;
  phase = o.event.phase;
  forward_id = o.event.forward_id;
  token_index = o.event.token_index;
  token_id = o.event.token_id;
  layer_id = o.event.layer_id;
  ready_expert_ids = o.ready_expert_ids;
  blocking_expert_ids = o.blocking_expert_ids;
  blocked = not (is_empty o.blocking_expert_ids);
}

-- the replay over the outcomes
unfoldable pub replay_of : Policy → ℕ → List PolicyEventOutcome → PolicyReplay
replay_of policy capacity outcomes =
    let timeline = map timeline_event outcomes in
    let hit_count = sum_by (λ t. length (t.ready_expert_ids)) timeline in
    let miss_count = sum_by (λ t. length (t.blocking_expert_ids)) timeline in
    record {
      policy = policy;
      capacity_per_layer = capacity;
      event_count = length timeline;
      demand_count = hit_count + miss_count;
      hit_count = hit_count;
      miss_count = miss_count;
      timeline = timeline;
    }

-- `replay_policy`
unfoldable pub replay_policy :
    List RouterTraceEvent → Policy → ℕ → Option (List RouterTraceEvent) → Result PolicyReplay
replay_policy events policy capacity training = do
  outcomes ← replay_outcomes events policy capacity training
  ok (replay_of policy capacity outcomes)
