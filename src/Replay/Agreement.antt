-- ===== src/Replay/Agreement.antt =====
-- src/expertflow/analysis/replay.py against cache_sim.py: the two views of a policy agree.

use expertflow.Base.{
  All-append, ℕ, ◌≤◌, ◌<◌, true, false, not, none, some, List, [], ◌∷◌, ◌++◌, length, All, any,
  any_of_All, All-mono, sum_by, ltb, ◌==◌, if◌then◌else◌, ok, err, value_error, key_error, raise_if,
  ◌>>◌, ◌≡◌, ◌≢◌, ◌⊎◌, refl, ap, sym, ◌∙◌, inl, inr, arith, sum_by-map, any-All, length-map,
  Bool-cases,
}
use expertflow.Base.Dict
use expertflow.Base.Dict.{Dict}
use expertflow.Base.Distinct.{elem}
use expertflow.Trace.Event.{RouterTraceEvent}
use expertflow.CacheSim.{
  Policy, PolicyEventOutcome, demand, ready_total, blocking_total, policy_outcomes, count_layers,
  hot_experts, static_residents, static_outcomes,
}
use expertflow.CacheSim.Lru.{Fits}
use expertflow.CacheSim.Hotset.{
  hotset_outcomes, policy_outcomes-hotset, static_outcomes_total, residents_present,
}
use expertflow.CacheSim.Totals.{Accounts, policy_outcomes-Accounts}
use expertflow.Replay.{
  is_static, ReplayTimelineEvent, PolicyReplay, is_empty, trained_outcomes, replay_outcomes,
  timeline_event, replay_of, replay_policy,
}

-- A replay that belongs to the outcomes of a trace.
pub record Replays (trace : List RouterTraceEvent) (os : List PolicyEventOutcome) (r : PolicyReplay)
    : Type 0 where
  pub events : r.event_count ≡ length trace
  pub hits : r.hit_count ≡ ready_total os
  pub misses : r.miss_count ≡ blocking_total os
  pub demands : r.demand_count ≡ sum_by demand trace

replay_of-Replays :
    (policy : Policy) (capacity : ℕ) (trace : List RouterTraceEvent) (os : List PolicyEventOutcome)
    → Accounts trace os
    → Replays trace os (replay_of policy capacity os)
unfolding replay_of timeline_event
replay_of-Replays policy capacity trace os a = record {
  events = length-map timeline_event os ∙ sym (length-map (λ o. o.event) os) ∙ ap length a.events;
  hits = sum_by-map (λ t. length (t.ready_expert_ids)) timeline_event os;
  misses = sum_by-map (λ t. length (t.blocking_expert_ids)) timeline_event os;
  demands = omega (
    arith,
    a.total,
    sum_by-map (λ (t : ReplayTimelineEvent). length (t.ready_expert_ids)) timeline_event os,
    sum_by-map (λ (t : ReplayTimelineEvent). length (t.blocking_expert_ids)) timeline_event os,
  );
}

-- With a capacity that is not 0, on a trace that fits, the replay of every policy without training events raises no exception,
-- and has the events, the demand, the hits and the misses of the policy's outcomes.
pub replay_policy-Replays :
    (policy : Policy) (capacity : ℕ) (trace : List RouterTraceEvent)
    → 0 < capacity
    → All (Fits capacity) trace
    → (os : List PolicyEventOutcome) × (r : PolicyReplay) × (policy_outcomes trace policy capacity
        ≡ ok os)
      × (replay_policy trace policy capacity none ≡ ok r)
      × Replays trace os r
unfolding replay_policy replay_outcomes
replay_policy-Replays policy capacity trace p fits =
    let (os, e, a) = policy_outcomes-Accounts policy capacity trace p fits in
    (os, replay_of policy capacity os, e, rw e, replay_of-Replays policy capacity trace os a)

no_key_missing :
    (residents : Dict (List ℕ)) (events : List RouterTraceEvent)
    → any (λ e. not (elem e.layer_id (Dict.keys residents))) events ≡ false
    → All (λ e. elem e.layer_id (Dict.keys residents) ≡ true) events
no_key_missing residents events h = All-mono _ _ events (λ e k. ground arith) (any-All _ events h)

nonempty_lem : (trace : List RouterTraceEvent) → 0 < length trace → is_empty trace ≡ false
unfolding is_empty
nonempty_lem [] h = absurd (omega arith)
nonempty_lem (e ∷ trace) h = refl

-- With training events that are not none, that cover the layers of the evaluation, and a capacity
-- that is not 0 and that no event of either exceeds, the outcomes are those beside the hottest
-- experts of the training events.
pub trained_outcomes_lem :
    (capacity : ℕ) (training events : List RouterTraceEvent)
    → 0 < capacity
    → 0 < length training
    → All (λ e. demand e ≤ capacity) (training ++ events)
    → All (λ e. elem e.layer_id (Dict.keys (static_residents training capacity)) ≡ true) events
    → trained_outcomes events Policy.static_hotset capacity training
      ≡ ok (hotset_outcomes (static_residents training capacity) events)
unfolding trained_outcomes static_residents
trained_outcomes_lem capacity training events p nonempty fits covered =
    let positive : (capacity == 0) ≡ false = ground arith in
    rw
      (
        nonempty_lem training nonempty,
        positive,
        any_of_All _ (training ++ events) (
            All-mono _ (λ e. ltb capacity (demand e) ≡ false) (training ++ events)
              (λ e h. ground arith) fits),
        any_of_All _ events (
            All-mono _
              (λ e. not (elem e.layer_id (Dict.keys (static_residents training capacity))) ≡ false)
              events (λ e h. ground arith) covered),
      )
      (static_outcomes_total (static_residents training capacity) events covered)

-- Whatever the policy, the capacity and the traces, a layer without residents ends in the
-- `ValueError` of the check before, and never in a `KeyError`.
pub trained_outcomes_never_key_error :
    (policy : Policy) (capacity : ℕ) (training events : List RouterTraceEvent)
    → trained_outcomes events policy capacity training ≢ err key_error
unfolding trained_outcomes
trained_outcomes_never_key_error policy capacity training events =
    elim (Bool-cases (not (is_static policy))) [
      | inl e ↦ rw e (λ h. cc)
      | inr e₁ ↦ rw e₁ (elim (Bool-cases (is_empty training)) [
        | inl e ↦ rw e (λ h. cc)
        | inr e₂ ↦
            rw e₂
              (elim (Bool-cases (
                if capacity == 0
                then true
                else any (λ e. ltb capacity (demand e)) (training ++ events))) [
                  | inl e ↦ rw e (λ h. cc)
                  | inr e₃ ↦ rw e₃ (
                      covered (
                        Bool-cases (any (λ e. not (elem e.layer_id (Dict.keys residents))) events)))
                ])
      ])
    ]
  where
    residents : Dict (List ℕ)
    residents = Dict.map_values (hot_experts capacity) (count_layers training [])

    covered :
        ((any (λ e. not (elem e.layer_id (Dict.keys residents))) events ≡ true)
          ⊎ (any (λ e. not (elem e.layer_id (Dict.keys residents))) events ≡ false))
        → (raise_if
              (any (λ e. not (elem e.layer_id (Dict.keys residents))) events)
              (value_error "training events do not cover every evaluation layer")
            >> static_outcomes residents events)
          ≢ err key_error
    covered (inl e) = rw e (λ h. cc)
    covered (inr e) =
        rw (e, static_outcomes_total residents events (no_key_missing residents events e)) (λ h. cc)

-- Training the static policy on the events that it is evaluated on gives the replay that it has
-- without training events, if there are any events and none exceeds the capacity, which is not 0.
pub replay_policy_trained :
    (capacity : ℕ) (trace : List RouterTraceEvent)
    → 0 < capacity
    → 0 < length trace
    → All (λ e. demand e ≤ capacity) trace
    → replay_policy trace Policy.static_hotset capacity (some trace)
      ≡ replay_policy trace Policy.static_hotset capacity none
unfolding replay_policy replay_outcomes
replay_policy_trained capacity trace p nonempty fits = rw (
  policy_outcomes-hotset capacity trace p fits,
  trained_outcomes_lem capacity trace trace p nonempty (All-append _ trace trace fits fits)
      (residents_present capacity trace),
)
