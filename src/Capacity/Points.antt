-- ===== src/Capacity/Points.antt =====
-- src/expertflow/analysis/capacity_curve.py: the points of `build_capacity_curve`.
use expertflow.Base.{
  ℕ, ◌-◌, ◌*◌, ◌<◌, false, List, [], ◌∷◌, map, length, All, All-mono, sum_by, ◌==◌, ok, ◌≡◌, refl,
  arith, ap,
}
use expertflow.Trace.Event.{RouterTraceEvent}
use expertflow.CacheSim.{PolicyResult, demand}
use expertflow.CacheSim.Lru.{Fits}
use expertflow.CacheSim.Totals.{IsBalanced, simulate_policies_lem}
use expertflow.Capacity.{
  PolicyPoint, policy_point, first_keys, layer_ids, CurvePoint, Scale, curve_point, sample_point,
  each, CapacityCurve, curve_of, build_capacity_curve,
}
use expertflow.Capacity.Keys.{
  All-first_keys, router_top_k_constant, bad_capacities_none, each_total,
}

-- The point of a policy: a balanced result, and for the estimate the time of its misses, shared out
-- over the demand.
pub record IsPriced (scale : Scale) (demand_count : ℕ) (p : PolicyPoint) : Type 0 where
  pub balanced : IsBalanced demand_count p.outcome
  pub estimated :
      p.estimate
      ≡ (scale.layer_count * scale.top_k * p.outcome.miss_count * scale.transfer_ms, demand_count)

-- The point of a capacity.
pub record IsPoint (scale : Scale) (demand_count : ℕ) (p : CurvePoint) : Type 0 where
  pub bytes : p.projected_cache_bytes ≡ p.capacity_per_layer * scale.layer_count * scale.slot_bytes
  pub reactive : IsPriced scale demand_count p.reactive
  pub static_hotset : IsPriced scale demand_count p.static_hotset
  pub lru : IsPriced scale demand_count p.lru

pub policy_point-IsPriced :
    (scale : Scale) (demand_count : ℕ) (r : PolicyResult)
    → 0 < demand_count
    → IsBalanced demand_count r
    → IsPriced scale demand_count (policy_point scale.layer_count scale.top_k scale.transfer_ms r)
unfolding policy_point
policy_point-IsPriced scale d r p balanced =
    let some_demand : (d == 0) ≡ false = ground arith in
    let rated : r.hit_rate ≡ (r.hit_count, d) = rw some_demand at balanced.rated in
    let misses : d - r.hit_count ≡ r.miss_count = omega (arith, balanced.balanced) in
    record {
      balanced = balanced;
      estimated =
          rw rated (ap (λ m. (scale.layer_count * scale.top_k * m * scale.transfer_ms, d)) misses);
    }

pub curve_point-IsPoint :
    (scale : Scale) (capacity demand_count : ℕ) (reactive static_hotset lru : PolicyResult)
    → 0 < demand_count
    → IsBalanced demand_count reactive
    → IsBalanced demand_count static_hotset
    → IsBalanced demand_count lru
    → IsPoint scale demand_count (curve_point scale capacity reactive static_hotset lru)
unfolding curve_point
curve_point-IsPoint scale capacity d reactive static_hotset lru p b0 b1 b2 = record {
  bytes = refl;
  reactive = policy_point-IsPriced scale d reactive p b0;
  static_hotset = policy_point-IsPriced scale d static_hotset p b1;
  lru = policy_point-IsPriced scale d lru p b2;
}

-- A workload of one width `k`, which is not 0, on which a capacity is not too small.
pub record IsWorkload (k : ℕ) (capacities : List ℕ) (trace : List RouterTraceEvent) : Type 0 where
  pub nonempty : 0 < length trace
  pub width : All (λ e. demand e ≡ k) trace
  pub some_width : 0 < k
  pub some_capacity : 0 < length capacities
  pub fitting : All (λ c. (0 < c) × All (Fits c) trace) capacities

pub demand_positive :
    (k : ℕ) (trace : List RouterTraceEvent)
    → 0 < k
    → 0 < length trace
    → All (λ e. demand e ≡ k) trace
    → 0 < sum_by demand trace
unfolding sum_by
demand_positive k [] p some h = omega (arith, some)
demand_positive k (e ∷ trace) p some h = omega (arith, h.0, p)

module _ (trace : List RouterTraceEvent) (scale : Scale) (p : 0 < sum_by demand trace) where
  sample_point_total :
      (c : ℕ)
      → (0 < c) × All (Fits c) trace
      → (point : CurvePoint) × (sample_point trace scale c ≡ ok point)
        × (point.capacity_per_layer ≡ c)
        × IsPoint scale (sum_by demand trace) point
  unfolding sample_point
  sample_point_total c h =
      let (report, ran, b0, b1, b2, _, _, _, _, _, _, _, _, _, _) =
        simulate_policies_lem c trace h.0 h.1 in
      (
        curve_point scale c report.reactive report.static_hotset report.lru,
        rw ran refl,
        unfold curve_point in refl,
        curve_point-IsPoint scale c (sum_by demand trace) report.reactive report.static_hotset
            report.lru p b0 b1 b2,
      )

-- The scale of a curve.
abbrev pub scale_of : CapacityCurve → Scale
scale_of curve = record {
  layer_count = length curve.layer_ids;
  top_k = curve.router_top_k;
  slot_bytes = curve.slot_bytes;
  transfer_ms = curve.expert_transfer_ms;
}

module _ (k : ℕ) (trace : List RouterTraceEvent) (capacities : List ℕ) (slot_bytes transfer_ms : ℕ)
    (w : IsWorkload k capacities trace) (some_slot : 0 < slot_bytes)
    (some_time : 0 < transfer_ms) where
  -- The scale of the points.
  abbrev pub sample_scale : Scale
  sample_scale = record {
    layer_count = length (layer_ids trace);
    top_k = k;
    slot_bytes = slot_bytes;
    transfer_ms = transfer_ms;
  }

  pub sample_points :
      (points : List CurvePoint) × (each (sample_point trace sample_scale) (first_keys capacities)
        ≡ ok points)
      × (map (λ p. p.capacity_per_layer) points ≡ first_keys capacities)
      × All (IsPoint sample_scale (sum_by demand trace)) points
  sample_points =
      each_total (sample_point trace sample_scale) (λ p. p.capacity_per_layer)
        (λ c. (0 < c) × All (Fits c) trace) (IsPoint sample_scale (sum_by demand trace))
        (first_keys capacities)
        (sample_point_total trace sample_scale
          (demand_positive k trace w.some_width w.nonempty w.width))
        (All-first_keys _ capacities w.fitting)

  pub build_capacity_curve-ok :
      build_capacity_curve trace capacities slot_bytes transfer_ms
      ≡ ok (curve_of trace k slot_bytes transfer_ms sample_points.0)
  unfolding build_capacity_curve
  build_capacity_curve-ok =
      let first : (length trace == 0) ≡ false = ground (arith, w.nonempty) in
      let second =
        bad_capacities_none capacities w.some_capacity
          (All-mono _ _ capacities (λ c h. h.0) w.fitting) in
      let third : (slot_bytes == 0) ≡ false = ground arith in
      let fourth : (transfer_ms == 0) ≡ false = ground arith in
      rw
        (
          first,
          second,
          third,
          fourth,
          router_top_k_constant "router top-k must be constant across the workload" k trace
              w.nonempty w.width,
          sample_points.1,
        )
        refl

-- A workload of one width, positive sizes, and capacities on which the workload fits: the curve is
-- built, with one point for each capacity in the order of its first occurrence. In each point the
-- three policies are balanced against the demand of the workload, the bytes are those of the slots of
-- all layers, and the estimate is the time of the policy's own misses, shared out over the demand.
pub build_capacity_curve-IsPoint :
    (k : ℕ) (trace : List RouterTraceEvent) (capacities : List ℕ) (slot_bytes transfer_ms : ℕ)
    → IsWorkload k capacities trace
    → 0 < slot_bytes
    → 0 < transfer_ms
    → (curve : CapacityCurve) × (build_capacity_curve trace capacities slot_bytes transfer_ms
        ≡ ok curve)
      × (curve.expert_demand_count ≡ sum_by demand trace)
      × (curve.router_top_k ≡ k)
      × (map (λ p. p.capacity_per_layer) curve.points ≡ first_keys capacities)
      × All (IsPoint (scale_of curve) curve.expert_demand_count) curve.points
unfolding curve_of
build_capacity_curve-IsPoint k trace capacities slot_bytes transfer_ms w some_slot some_time =
    let (points, ran, keys, good) =
      sample_points k trace capacities slot_bytes transfer_ms w some_slot some_time in
    (
      curve_of trace k slot_bytes transfer_ms points,
      build_capacity_curve-ok k trace capacities slot_bytes transfer_ms w some_slot some_time,
      refl,
      refl,
      keys,
      good,
    )
