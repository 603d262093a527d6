-- ===== src/Capacity/Transfer.antt =====
-- src/expertflow/analysis/capacity_curve.py: the points of `build_held_out_capacity_curve`.
use expertflow.Base.{
  All-append, length-append, ℕ, ◌≤◌, ◌<◌, Bool, true, false, not, ◌==◌, Option, List, [], ◌∷◌, ◌++◌,
  map, length, any, any_of_All, All, All-mono, All-append, length-append, sum_by, ltb, ok, ◌≡◌,
  refl, arith, ap, ◌∙◌,
}
use expertflow.Base.Distinct.{elem, Distinct}
use expertflow.Trace.Event.{RouterTraceEvent, Float}
use expertflow.CacheSim.{demand, static_residents}
use expertflow.CacheSim.Lru.{Fits}
use expertflow.Capacity.{first_keys, layer_ids, CurvePoint, Scale, curve_point, each, curve_of}
use expertflow.Capacity.HeldOut.{
  HeldOutCurve, flatten, groups_of, reset_scope, layers_differ, held_out_point,
  build_held_out_capacity_curve,
}
use expertflow.Capacity.Keys.{
  All-first_keys, router_top_k_constant, bad_capacities_none, each_total,
}
use expertflow.Capacity.Points.{IsPoint, curve_point-IsPoint, demand_positive, scale_of}
use expertflow.Capacity.Equality.{same_trace_refl}
use expertflow.Capacity.Groups.{simulations-AreScores}
use expertflow.Capacity.Scores.{
  static_residents-Covers, static_result-IsBalanced, combine_policy_results-IsBalanced,
}

-- Two workloads of one width `k`, which is not 0, over the same layers, the second one in groups.
pub record AreWorkloads (k : ℕ) (training evaluation : List RouterTraceEvent)
    (groups : List (List RouterTraceEvent)) : Type 0 where
  pub some_training : 0 < length training
  pub some_evaluation : 0 < length evaluation
  pub some_groups : 0 < length groups
  pub no_empty : All (λ group. 0 < length group) groups
  pub partition : flatten groups ≡ evaluation
  pub some_width : 0 < k
  pub training_width : All (λ e. demand e ≡ k) training
  pub evaluation_width : All (λ e. demand e ≡ k) evaluation
  pub distinct : All (λ e. Distinct e.selected_expert_ids) evaluation
  pub trained : All (λ e. elem e.layer_id (map (λ t. t.layer_id) training) ≡ true) evaluation
  pub evaluated : All (λ e. elem e.layer_id (map (λ t. t.layer_id) evaluation) ≡ true) training

all_in :
    (events : List RouterTraceEvent) (layers : List ℕ)
    → All (λ e. elem e.layer_id layers ≡ true) events
    → any (λ x. not (elem x layers)) (map (λ e. e.layer_id) events) ≡ false
unfolding any
all_in [] layers h = refl
all_in (e ∷ events) layers h = rw h.0 (all_in events layers h.1)

all_fit :
    (k c : ℕ) (events : List RouterTraceEvent)
    → k ≤ c
    → All (λ e. demand e ≡ k) events
    → All (λ e. Distinct e.selected_expert_ids) events
    → All (Fits c) events
all_fit k c [] p h d = tt
all_fit k c (e ∷ events) p h d =
    (record { distinct = d.0; bounded = omega (arith, h.0) }, all_fit k c events p h.1 d.1)

layers_differ_none :
    (training evaluation : List RouterTraceEvent)
    → All (λ e. elem e.layer_id (map (λ t. t.layer_id) training) ≡ true) evaluation
    → All (λ e. elem e.layer_id (map (λ t. t.layer_id) evaluation) ≡ true) training
    → layers_differ training evaluation ≡ false
unfolding layers_differ
layers_differ_none training evaluation h k =
    rw
      (
        all_in training (map (λ t. t.layer_id) evaluation) k,
        all_in evaluation (map (λ t. t.layer_id) training) h,
      )
      refl

module _ (training evaluation : List RouterTraceEvent) (groups : List (List RouterTraceEvent))
    (scale : Scale) (w : AreWorkloads scale.top_k training evaluation groups) where
  Fits-evaluation : (c : ℕ) → scale.top_k ≤ c → All (Fits c) evaluation
  Fits-evaluation c p = all_fit scale.top_k c evaluation p w.evaluation_width w.distinct

  some_demand : 0 < sum_by demand evaluation
  some_demand =
      demand_positive scale.top_k evaluation w.some_width w.some_evaluation w.evaluation_width

  held_out_point_total :
      (c : ℕ)
      → scale.top_k ≤ c
      → (point : CurvePoint) × (held_out_point training evaluation groups scale c ≡ ok point)
        × (point.capacity_per_layer ≡ c)
        × IsPoint scale (sum_by demand evaluation) point
  unfolding held_out_point
  held_out_point_total c p =
      let covers = static_residents-Covers c training evaluation w.trained in
      let (fixed, fixed_ran, b1) =
        static_result-IsBalanced (static_residents training c) evaluation some_demand covers in
      let (ss, ran, scores) =
        simulations-AreScores c groups (omega (arith, w.some_width))
          (rw w.partition (Fits-evaluation c p)) in
      let same : sum_by demand (flatten groups) ≡ sum_by demand evaluation =
        ap (sum_by demand) w.partition in
      let (reactive, reactive_ran, b0) =
        combine_policy_results-IsBalanced (map (λ s. s.reactive) ss)
          (omega (arith, scores.reactive_demand, same, some_demand)) scores.reactive in
      let (recent, recent_ran, b2) =
        combine_policy_results-IsBalanced (map (λ s. s.lru) ss)
          (omega (arith, scores.lru_demand, same, some_demand)) scores.lru in
      let wide : ltb c scale.top_k ≡ false = ground arith in
      (
        curve_point scale c reactive fixed recent,
        rw (wide, fixed_ran, ran, reactive_ran, recent_ran) refl,
        unfold curve_point in refl,
        curve_point-IsPoint scale c (sum_by demand evaluation) reactive fixed recent some_demand
            (rw (scores.reactive_demand ∙ same) at b0) b1 (rw (scores.lru_demand ∙ same) at b2),
      )

module _ (same_weights : Option (List Float) → Option (List Float) → Bool)
    (training evaluation : List RouterTraceEvent)
    (evaluation_groups : Option (List (List RouterTraceEvent))) (capacities : List ℕ)
    (scale : Scale) (reflexive : (w : Option (List Float)) → same_weights w w ≡ true)
    (w : AreWorkloads scale.top_k training evaluation (groups_of evaluation_groups evaluation))
    (layers : length (layer_ids evaluation) ≡ scale.layer_count)
    (some_capacity : 0 < length capacities) (wide : All (λ c. scale.top_k ≤ c) capacities)
    (some_slot : 0 < scale.slot_bytes) (some_time : 0 < scale.transfer_ms) where
  -- The curve over points of the scale.
  abbrev pub held_out_curve : List CurvePoint → HeldOutCurve
  held_out_curve points = record {
    lru_reset_scope = reset_scope evaluation_groups;
    training_event_count = length training;
    evaluation_event_count = length evaluation;
    curve = curve_of evaluation scale.top_k scale.slot_bytes scale.transfer_ms points;
  }

  -- The checks pass, and what is left is the loop over the capacities.
  pub build_held_out_capacity_curve-each :
      (points : List CurvePoint)
      → each
          (held_out_point training evaluation (groups_of evaluation_groups evaluation) scale)
          (first_keys capacities)
        ≡ ok points
      → build_held_out_capacity_curve same_weights training evaluation evaluation_groups capacities
          scale.slot_bytes scale.transfer_ms
        ≡ ok (held_out_curve points)
  unfolding build_held_out_capacity_curve
  build_held_out_capacity_curve-each points ran =
      let groups = groups_of evaluation_groups evaluation in
      let a : (length training == 0) ≡ false = ground (arith, w.some_training) in
      let b : (length evaluation == 0) ≡ false = ground (arith, w.some_evaluation) in
      let c =
        bad_capacities_none capacities some_capacity
          (All-mono _ _ capacities (λ c h. omega (arith, h, w.some_width)) wide) in
      let d : (scale.slot_bytes == 0) ≡ false = ground arith in
      let e : (scale.transfer_ms == 0) ≡ false = ground arith in
      let f : (length groups == 0) ≡ false = ground (arith, w.some_groups) in
      let g =
        any_of_All (λ group. length group == 0) groups
          (All-mono _ _ groups (λ group h. ground arith) w.no_empty) in
      let i =
        router_top_k_constant "router top-k must be constant across both workloads" scale.top_k
          (training ++ evaluation)
          (omega (arith, length-append training evaluation, w.some_training))
          (All-append _ training evaluation w.training_width w.evaluation_width) in
      rw
        (
          a,
          b,
          c,
          d,
          e,
          f,
          g,
          w.partition,
          same_trace_refl same_weights reflexive evaluation,
          i,
          layers_differ_none training evaluation w.trained w.evaluated,
          layers,
          ran,
        )
        refl

-- Workloads of one width over the same layers, the evaluation in groups that make it up, positive
-- sizes, capacities from the width on, and a `==` of weights that is reflexive: the held-out curve is
-- built, with one point for each capacity in the order of its first occurrence. No resident is
-- missing, and in each point the static experts of the training events, and the sums of the groups'
-- own simulations, are balanced against the whole evaluation, with their own misses in the estimate.
pub build_held_out_capacity_curve-IsPoint :
    (same_weights : Option (List Float) → Option (List Float) → Bool) (k : ℕ)
    (training evaluation : List RouterTraceEvent)
    (evaluation_groups : Option (List (List RouterTraceEvent))) (capacities : List ℕ)
    (slot_bytes transfer_ms : ℕ)
    → ((w : Option (List Float)) → same_weights w w ≡ true)
    → AreWorkloads k training evaluation (groups_of evaluation_groups evaluation)
    → 0 < length capacities
    → All (λ c. k ≤ c) capacities
    → 0 < slot_bytes
    → 0 < transfer_ms
    → (held_out : HeldOutCurve) × (build_held_out_capacity_curve same_weights training evaluation
          evaluation_groups capacities slot_bytes transfer_ms
        ≡ ok held_out)
      × (held_out.curve.expert_demand_count ≡ sum_by demand evaluation)
      × (map (λ p. p.capacity_per_layer) held_out.curve.points ≡ first_keys capacities)
      × All
          (IsPoint (scale_of held_out.curve) held_out.curve.expert_demand_count)
          held_out.curve.points
unfolding curve_of
build_held_out_capacity_curve-IsPoint same_weights k training evaluation evaluation_groups
      capacities slot_bytes transfer_ms reflexive w some_capacity wide some_slot some_time =
    let scale : Scale = record {
      layer_count = length (layer_ids evaluation);
      top_k = k;
      slot_bytes = slot_bytes;
      transfer_ms = transfer_ms;
    } in
    let groups = groups_of evaluation_groups evaluation in
    let (points, ran, keys, good) =
      each_total (held_out_point training evaluation groups scale) (λ p. p.capacity_per_layer)
        (λ c. k ≤ c) (IsPoint scale (sum_by demand evaluation)) (first_keys capacities)
        (held_out_point_total training evaluation groups scale w)
        (All-first_keys _ capacities wide) in
    (
      _,
      build_held_out_capacity_curve-each same_weights training evaluation evaluation_groups
          capacities scale reflexive w refl some_capacity wide some_slot some_time points ran,
      refl,
      keys,
      good,
    )
