-- ===== src/CacheSim.antt =====
-- src/expertflow/analysis/cache_sim.py: the residency policies over a routing trace. A cache is the
-- list of its expert ids, least recently used first; a `defaultdict` or `Counter` is a `Dict` read
-- with a default. Capacities are natural numbers: the source refuses 0 and what is below alike.
-- Rates are exact fractions, before they are rounded to a float.
pub mod Scan
pub mod Load
pub mod Lru
pub mod Recency
pub mod History
pub mod Counts
pub mod TopCounts
pub mod Hotset
pub mod Totals
pub mod Growth
use expertflow.Base.{
  ℕ, suc, ◌+◌, ◌-◌, Bool, true, false, not, String, List, [], ◌∷◌, ◌++◌, map, length, take, any,
  keep, sum_by, ltb, leb, ◌==◌, if◌then◌else◌, Result, ok, err, value_error, key_error, raise_if,
  ◌>>=◌, ◌>>◌, Option, none, some,
}
use expertflow.Base.Dict
use expertflow.Base.Dict.{Dict}
use expertflow.Base.Distinct.{elem, remove}
use expertflow.Base.Ordered.{move_to_end, store, make_room}
use expertflow.Base.Sort.{sort_by}
use expertflow.Trace.Event.{RouterTraceEvent}

-- `PolicyResult`; `hit_rate` is `hit_count / demand_count`, or 0 / 1 with no demand
pub record PolicyResult : Type 0 where
  pub demand_count : ℕ
  pub hit_count : ℕ
  pub miss_count : ℕ
  pub load_count : ℕ
  pub preload_count : ℕ
  pub hit_rate : ℕ × ℕ

pub record CacheSimulationReport : Type 0 where
  pub capacity_per_layer : ℕ
  pub reactive : PolicyResult
  pub static_hotset : PolicyResult
  pub lru : PolicyResult

-- `PolicyName`
pub data Policy : Type 0 where
  reactive static_hotset lru : Policy

pub record PolicyEventOutcome : Type 0 where
  pub event : RouterTraceEvent
  pub ready_expert_ids : List ℕ
  pub blocking_expert_ids : List ℕ

-- `_result`
unfoldable pub result : ℕ → ℕ → ℕ → ℕ → PolicyResult
result demand_count hit_count load_count preload_count = record {
  demand_count = demand_count;
  hit_count = hit_count;
  miss_count = demand_count - hit_count;
  load_count = load_count;
  preload_count = preload_count;
  hit_rate = if demand_count == 0 then (0, 1) else (hit_count, demand_count);
}

-- `len(event.selected_expert_ids)`
abbrev pub demand : RouterTraceEvent → ℕ
demand e = length e.selected_expert_ids

-- `_validated_trace`
unfoldable pub validated_trace : List RouterTraceEvent → ℕ → Result (List RouterTraceEvent)
validated_trace events capacity = do
  raise_if (capacity == 0) (value_error "capacity_per_layer must be positive")
  raise_if (any (λ e. ltb capacity (demand e)) events)
      (value_error "capacity_per_layer cannot be below router top-k")
  ok events

-- `Counter.update(ids)`
unfoldable pub count_ids : List ℕ → Dict ℕ → Dict ℕ
count_ids [] counts = counts
count_ids (x ∷ xs) counts = count_ids xs (Dict.insert x (Dict.get_or 0 x counts + 1) counts)

-- the loop that fills `layer_counts`
unfoldable pub count_layers : List RouterTraceEvent → Dict (Dict ℕ) → Dict (Dict ℕ)
count_layers [] counts = counts
count_layers (e ∷ events) counts = count_layers events (
    Dict.insert e.layer_id (count_ids e.selected_expert_ids (Dict.get_or [] e.layer_id counts))
      counts)

-- the key `(-item[1], item[0])`: the larger count first, then the smaller id
unfoldable pub hotter : ℕ × ℕ → ℕ × ℕ → Bool
hotter a b = if ltb b.1 a.1 then true else if a.1 == b.1 then leb a.0 b.0 else false

-- `frozenset(id for id, _ in sorted(counts.items(), ...)[:capacity])`
unfoldable pub hot_experts : ℕ → Dict ℕ → List ℕ
hot_experts capacity counts = map (λ e. e.0) (take capacity (sort_by hotter counts))

-- `_static_residents`
unfoldable pub static_residents : List RouterTraceEvent → ℕ → Dict (List ℕ)
static_residents trace capacity = map (λ e. (e.0, hot_experts capacity e.1)) (count_layers trace [])

-- the outcome of an event beside a fixed set of residents
unfoldable pub resident_outcome : List ℕ → RouterTraceEvent → PolicyEventOutcome
resident_outcome residents e = record {
  event = e;
  ready_expert_ids = keep (λ x. elem x residents) e.selected_expert_ids;
  blocking_expert_ids = keep (λ x. not (elem x residents)) e.selected_expert_ids;
}

-- the outcomes of the `static_hotset` policy; `residents[event.layer_id]` may raise `KeyError`
unfoldable pub static_outcomes :
    Dict (List ℕ) → List RouterTraceEvent → Result (List PolicyEventOutcome)
static_outcomes residents [] = ok []
static_outcomes residents (e ∷ events) = elim (Dict.lookup e.layer_id residents) [
  | none ↦ err key_error
  | some layer ↦ do rest ← static_outcomes residents events; ok (resident_outcome layer e ∷ rest)
]

-- the loop over `event.selected_expert_ids`: the cache, the ready and the blocking experts
unfoldable pub scan : List ℕ → List ℕ → List ℕ × List ℕ × List ℕ
scan cache [] = (cache, [], [])
scan cache (x ∷ xs) =
    let hit = elem x cache in
    let (cache', ready, blocking) = scan (if hit then move_to_end x cache else cache) xs in
    if hit then (cache', x ∷ ready, blocking) else (cache', ready, x ∷ blocking)

-- the loop over `blocking`
unfoldable pub load : ℕ → List ℕ → List ℕ → List ℕ → Result (List ℕ)
load capacity required cache [] = ok cache
load capacity required cache (x ∷ xs) = do
  room ← make_room (suc (length cache)) capacity required cache
  load capacity required (store x room) xs

-- one event under the `lru` policy: the new cache and the outcome
unfoldable pub lru_event : ℕ → List ℕ → RouterTraceEvent → Result (List ℕ × PolicyEventOutcome)
lru_event capacity cache e = do
  let (scanned, ready, blocking) = scan cache e.selected_expert_ids
  cache' ← load capacity e.selected_expert_ids scanned blocking
  ok (cache', record { event = e; ready_expert_ids = ready; blocking_expert_ids = blocking })

-- the loop over the trace under the `lru` policy
unfoldable pub lru_outcomes :
    ℕ → Dict (List ℕ) → List RouterTraceEvent → Result (List PolicyEventOutcome)
lru_outcomes capacity caches [] = ok []
lru_outcomes capacity caches (e ∷ events) = do
  (cache, outcome) ← lru_event capacity (Dict.get_or [] e.layer_id caches) e
  rest ← lru_outcomes capacity (Dict.insert e.layer_id cache caches) events
  ok (outcome ∷ rest)

-- the outcome of the `reactive` policy, which keeps no expert
unfoldable pub reactive_outcome : RouterTraceEvent → PolicyEventOutcome
reactive_outcome e = record {
  event = e;
  ready_expert_ids = [];
  blocking_expert_ids = e.selected_expert_ids;
}

-- the branch on `policy`
unfoldable pub outcomes_of : Policy → ℕ → List RouterTraceEvent → Result (List PolicyEventOutcome)
outcomes_of reactive capacity trace = ok (map reactive_outcome trace)
outcomes_of static_hotset capacity trace = static_outcomes (static_residents trace capacity) trace
outcomes_of lru capacity trace = lru_outcomes capacity [] trace

-- `policy_outcomes`
unfoldable pub policy_outcomes :
    List RouterTraceEvent → Policy → ℕ → Result (List PolicyEventOutcome)
policy_outcomes events policy capacity = do
  trace ← validated_trace events capacity
  outcomes_of policy capacity trace

-- `sum(len(outcome.ready_expert_ids) for outcome in outcomes)`, and of the blocking experts
abbrev pub ready_total : List PolicyEventOutcome → ℕ
ready_total = sum_by (λ o. length o.ready_expert_ids)

abbrev pub blocking_total : List PolicyEventOutcome → ℕ
blocking_total = sum_by (λ o. length o.blocking_expert_ids)

-- the end of `simulate_policies`: the report over the outcomes
unfoldable pub report_of :
    ℕ
    → List RouterTraceEvent
    → Dict (List ℕ)
    → List PolicyEventOutcome
    → List PolicyEventOutcome
    → CacheSimulationReport
report_of capacity trace residents fixed recent =
    let demand_count = sum_by demand trace in
    record {
      capacity_per_layer = capacity;
      reactive = result demand_count 0 demand_count 0;
      static_hotset =
          result demand_count (ready_total fixed) (demand_count - ready_total fixed)
            (sum_by (λ e. length (e.1)) residents);
      lru = result demand_count (ready_total recent) (blocking_total recent) 0;
    }

-- `simulate_policies`
unfoldable pub simulate_policies : List RouterTraceEvent → ℕ → Result CacheSimulationReport
simulate_policies events capacity = do
  trace ← validated_trace events capacity
  fixed ← policy_outcomes trace static_hotset capacity
  recent ← policy_outcomes trace lru capacity
  ok (report_of capacity trace (static_residents trace capacity) fixed recent)
