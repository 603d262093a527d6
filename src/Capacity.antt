-- ===== src/Capacity.antt =====
-- src/expertflow/analysis/capacity_curve.py: the curves of the policies over several capacities.
-- `expert_transfer_ms` is a natural number of any unit of time; a rate and an estimate are exact
-- fractions. The capacities are natural numbers: the source refuses 0 and what is below alike.
pub mod HeldOut
pub mod Keys
pub mod Points
pub mod Scores
pub mod Equality
pub mod Groups
pub mod Transfer
pub mod Agreement
use expertflow.Base.{
  ℕ, ◌+◌, ◌-◌, ◌*◌, Bool, true, false, not, ◌&&◌, ◌||◌, String, Option, none, some, List, [], ◌∷◌,
  ◌++◌, map, length, any, sum_by, ltb, leb, ◌==◌, str_eq, if◌then◌else◌, Result, ok, err,
  value_error, key_error, zero_division, raise_if, ◌>>=◌, ◌>>◌,
}
use expertflow.Base.Dict
use expertflow.Base.Dict.{Dict}
use expertflow.Base.Distinct.{elem, remove, dedup}
use expertflow.Base.Sort.{sort_by}
use expertflow.Trace.Event.{RouterTraceEvent, Phase, Float}
use expertflow.CacheSim.{
  PolicyResult, CacheSimulationReport, demand, static_residents, simulate_policies,
}

-- what `_policy_point` returns: the result, and `estimated_serial_h2d_ms_per_layer_sweep`
pub record PolicyPoint : Type 0 where
  pub outcome : PolicyResult
  pub estimate : ℕ × ℕ

-- `_policy_point`; the estimate is a product with `1.0 - hit_rate`
unfoldable pub policy_point : ℕ → ℕ → ℕ → PolicyResult → PolicyPoint
policy_point layer_count top_k transfer_ms r = record {
  outcome = r;
  estimate = (layer_count * top_k * (r.hit_rate.1 - r.hit_rate.0) * transfer_ms, r.hit_rate.1);
}

-- `hits / demands`
unfoldable pub rate : ℕ → ℕ → Result (ℕ × ℕ)
rate hits demands = if demands == 0 then err zero_division else ok (hits, demands)

-- the `PolicyResult` of several: every count is a sum
unfoldable pub combined_result : List PolicyResult → ℕ × ℕ → PolicyResult
combined_result results hit_rate = record {
  demand_count = sum_by (λ r. r.demand_count) results;
  hit_count = sum_by (λ r. r.hit_count) results;
  miss_count = sum_by (λ r. r.miss_count) results;
  load_count = sum_by (λ r. r.load_count) results;
  preload_count = sum_by (λ r. r.preload_count) results;
  hit_rate = hit_rate;
}

-- `_combine_policy_results`
unfoldable pub combine_policy_results : List PolicyResult → Result PolicyResult
combine_policy_results results = do
  hit_rate ← rate (sum_by (λ r. r.hit_count) results) (sum_by (λ r. r.demand_count) results)
  ok (combined_result results hit_rate)

-- `dict.fromkeys(xs)`: the first occurrence of each
unfoldable pub first_keys : List ℕ → List ℕ
first_keys [] = []
first_keys (x ∷ xs) = x ∷ remove x (first_keys xs)

-- the one element of a set, or the exception where it has another size
unfoldable pub only : String → List ℕ → Result ℕ
only message (x ∷ []) = ok x
only message _ = err (value_error message)

-- `router_top_k`
unfoldable pub router_top_k : String → List RouterTraceEvent → Result ℕ
router_top_k message trace = only message (dedup (map demand trace))

-- `sorted({event.layer_id for event in trace})`
unfoldable pub layer_ids : List RouterTraceEvent → List ℕ
layer_ids trace = sort_by leb (dedup (map (λ e. e.layer_id) trace))

-- one of the `points`
pub record CurvePoint : Type 0 where
  pub capacity_per_layer : ℕ
  pub projected_cache_bytes : ℕ
  pub reactive : PolicyPoint
  pub static_hotset : PolicyPoint
  pub lru : PolicyPoint

-- What the points of a curve share.
pub record Scale : Type 0 where
  pub layer_count : ℕ
  pub top_k : ℕ
  pub slot_bytes : ℕ
  pub transfer_ms : ℕ

-- the arguments of `points.append`
unfoldable pub curve_point : Scale → ℕ → PolicyResult → PolicyResult → PolicyResult → CurvePoint
curve_point scale capacity reactive static_hotset lru =
    let point = policy_point scale.layer_count scale.top_k scale.transfer_ms in
    record {
      capacity_per_layer = capacity;
      projected_cache_bytes = capacity * scale.layer_count * scale.slot_bytes;
      reactive = point reactive;
      static_hotset = point static_hotset;
      lru = point lru;
    }

-- one round of the loop of `build_capacity_curve`
unfoldable pub sample_point : List RouterTraceEvent → Scale → ℕ → Result CurvePoint
sample_point trace scale capacity = do
  simulation ← simulate_policies trace capacity
  ok (curve_point scale capacity simulation.reactive simulation.static_hotset simulation.lru)

-- a loop that appends what each round gives, and stops at the first exception
unfoldable pub each {ℓ} : {A B : Type ℓ} → (A → Result B) → List A → Result (List B)
each round [] = ok []
each round (x ∷ xs) = do y ← round x; ys ← each round xs; ok (y ∷ ys)

-- what `build_capacity_curve` returns, less the constants
pub record CapacityCurve : Type 0 where
  pub event_count : ℕ
  pub expert_demand_count : ℕ
  pub layer_ids : List ℕ
  pub router_top_k : ℕ
  pub slot_bytes : ℕ
  pub expert_transfer_ms : ℕ
  pub points : List CurvePoint

-- the dictionary that is returned
unfoldable pub curve_of : List RouterTraceEvent → ℕ → ℕ → ℕ → List CurvePoint → CapacityCurve
curve_of trace top_k slot_bytes transfer_ms points = record {
  event_count = length trace;
  expert_demand_count = sum_by demand trace;
  layer_ids = layer_ids trace;
  router_top_k = top_k;
  slot_bytes = slot_bytes;
  expert_transfer_ms = transfer_ms;
  points = points;
}

-- `not capacities or any(capacity <= 0 for capacity in capacities)`
unfoldable pub bad_capacities : List ℕ → Bool
bad_capacities capacities = length capacities == 0 || any (λ c. c == 0) capacities

-- `build_capacity_curve`
unfoldable pub build_capacity_curve : List RouterTraceEvent → List ℕ → ℕ → ℕ → Result CapacityCurve
build_capacity_curve trace capacities slot_bytes transfer_ms = do
  raise_if (length trace == 0) (value_error "events must not be empty")
  raise_if (bad_capacities capacities) (value_error "capacities must contain positive values")
  raise_if (slot_bytes == 0) (value_error "slot_bytes must be positive")
  raise_if (transfer_ms == 0) (value_error "expert_transfer_ms must be positive")
  top_k ← router_top_k "router top-k must be constant across the workload" trace
  let scale : Scale = record {
    layer_count = length (layer_ids trace);
    top_k = top_k;
    slot_bytes = slot_bytes;
    transfer_ms = transfer_ms;
  }
  points ← each (sample_point trace scale) (first_keys capacities)
  ok (curve_of trace top_k slot_bytes transfer_ms points)
