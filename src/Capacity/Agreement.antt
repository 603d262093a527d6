-- ===== src/Capacity/Agreement.antt =====
-- src/expertflow/analysis/capacity_curve.py: the two curves agree where training and evaluation do.
use expertflow.Base.{
  ok-injective, ℕ, ◌≤◌, ◌<◌, Bool, true, false, ◌==◌, ==_refl, Option, none, List, [], ◌∷◌, map,
  length, All, All-mono, sum_by, ltb, Result, ok, ◌≡◌, refl, arith, ap, ◌∙◌, sym,
}
use expertflow.Base.Distinct.{elem, Distinct}
use mathlib.Core.List.{append-nil}
use expertflow.Trace.Event.{RouterTraceEvent, Float}
use expertflow.CacheSim.{PolicyResult, demand, ready_total, static_residents, report_of, result}
use expertflow.CacheSim.Hotset.{hotset_outcomes}
use expertflow.CacheSim.Recency.{recency_outcomes}
use expertflow.CacheSim.Lru.{Fits}
use expertflow.CacheSim.Totals.{IsBalanced, simulate_policies-report_of, simulate_policies_lem}
use expertflow.Capacity.{
  rate, combined_result, combine_policy_results, first_keys, Scale, sample_point, each,
  CapacityCurve, curve_of, build_capacity_curve,
}
use expertflow.Capacity.HeldOut.{
  ResetScope, flatten, groups_of, reset_scope, scored_result, static_result, held_out_point,
  build_held_out_capacity_curve,
}
use expertflow.Capacity.Keys.{All-first_keys}
use expertflow.Capacity.Points.{
  IsWorkload, demand_positive, sample_scale, sample_points, build_capacity_curve-ok,
}
use expertflow.Capacity.Scores.{static_residents-Covers, static_hits_total}
use expertflow.Capacity.Transfer.{AreWorkloads, build_held_out_capacity_curve-each}

sum_by-one : (f : PolicyResult → ℕ) (r : PolicyResult) → sum_by f (r ∷ []) ≡ f r
unfolding sum_by
sum_by-one f r = omega arith

-- The sums of one balanced result are that result.
combine_policy_results-one :
    (n : ℕ) (r : PolicyResult) → 0 < n → IsBalanced n r → combine_policy_results (r ∷ []) ≡ ok r
unfolding combine_policy_results combined_result rate
combine_policy_results-one n r p b =
    let some_demand : (n == 0) ≡ false = ground arith in
    let own : (r.demand_count == 0) ≡ false = ground (arith, b.demanded) in
    let rated : r.hit_rate ≡ (r.hit_count, r.demand_count) =
      (rw some_demand at b.rated) ∙ ap (λ m. (r.hit_count, m)) (sym b.demanded) in
    rw
      (
        sum_by-one (λ s. s.hit_count) r,
        sum_by-one (λ s. s.demand_count) r,
        sum_by-one (λ s. s.miss_count) r,
        sum_by-one (λ s. s.load_count) r,
        sum_by-one (λ s. s.preload_count) r,
        own,
      )
      (ap (λ h. ok (record r { hit_rate = h })) (sym rated))

each-ext {ℓ} :
    {A B : Type ℓ} (f g : A → Result B) (xs : List A)
    → All (λ x. f x ≡ g x) xs
    → each f xs ≡ each g xs
unfolding each
each-ext f g [] h = refl
each-ext f g (x ∷ xs) h = rw (h.0, each-ext f g xs h.1) refl

module _ (trace : List RouterTraceEvent) (scale : Scale) (p : 0 < sum_by demand trace)
    (own : All (λ e. elem e.layer_id (map (λ t. t.layer_id) trace) ≡ true) trace) where
  held_out_point-own :
      (c : ℕ)
      → (scale.top_k ≤ c) × (0 < c) × All (Fits c) trace
      → held_out_point trace trace (trace ∷ []) scale c ≡ sample_point trace scale c
  unfolding held_out_point sample_point static_result rate each
  held_out_point-own c (wide, positive, fits) =
      let (report, ran, b0, _, b2, _, _, _, _, _, _, _, _, _, _) =
        simulate_policies_lem c trace positive fits in
      let some_demand : (sum_by demand trace == 0) ≡ false = ground arith in
      let narrow : ltb c scale.top_k ≡ false = ground arith in
      let fixed = hotset_outcomes (static_residents trace c) trace in
      let hits =
        static_hits_total (static_residents trace c) trace
          (static_residents-Covers c trace trace own) in
      let same : report_of c trace (static_residents trace c) fixed (recency_outcomes c [] trace)
          ≡ report =
        ok-injective (sym (simulate_policies-report_of c trace positive fits) ∙ ran) in
      let unfolded : scored_result (static_residents trace c) (sum_by demand trace)
            (ready_total fixed) (ready_total fixed, sum_by demand trace)
          ≡ (report_of c trace (static_residents trace c) fixed
              (recency_outcomes c [] trace)).static_hotset =
        unfold scored_result report_of result in rw some_demand refl in
      let score : scored_result (static_residents trace c) (sum_by demand trace) (ready_total fixed)
            (ready_total fixed, sum_by demand trace)
          ≡ report.static_hotset =
        unfolded ∙ ap (λ s. s.static_hotset) same in
      rw
        (
          narrow,
          hits,
          some_demand,
          ran,
          combine_policy_results-one (sum_by demand trace) report.reactive p b0,
          combine_policy_results-one (sum_by demand trace) report.lru p b2,
          score,
        )
        refl

own_layers-within :
    (trace suffix : List RouterTraceEvent)
    → ((x : ℕ)
        → elem x (map (λ t. t.layer_id) suffix) ≡ true
        → elem x (map (λ t. t.layer_id) trace) ≡ true)
    → All (λ e. elem e.layer_id (map (λ t. t.layer_id) trace) ≡ true) suffix
unfolding elem
own_layers-within trace [] h = tt
own_layers-within trace (e ∷ suffix) h = (
  h e.layer_id (rw (==_refl e.layer_id) refl),
  own_layers-within trace suffix (λ x k. h x (ground (arith, k))),
)

own_layers :
    (trace : List RouterTraceEvent)
    → All (λ e. elem e.layer_id (map (λ t. t.layer_id) trace) ≡ true) trace
own_layers trace = own_layers-within trace trace (λ x h. h)

all-Distinct :
    (trace : List RouterTraceEvent) (capacities : List ℕ)
    → 0 < length capacities
    → All (λ c. (0 < c) × All (Fits c) trace) capacities
    → All (λ e. Distinct e.selected_expert_ids) trace
all-Distinct trace [] p h = absurd (omega arith)
all-Distinct trace (c ∷ capacities) p h = All-mono _ _ trace (λ e f. f.distinct) h.0.1

width-le :
    (k c : ℕ) (trace : List RouterTraceEvent)
    → 0 < length trace
    → All (λ e. demand e ≡ k) trace
    → All (Fits c) trace
    → k ≤ c
width-le k c [] p w h = omega arith
width-le k c (e ∷ trace) p w h = omega (arith, w.0, h.0.bounded)

IsWorkload-AreWorkloads :
    (k : ℕ) (trace : List RouterTraceEvent) (capacities : List ℕ)
    → IsWorkload k capacities trace
    → AreWorkloads k trace trace (trace ∷ [])
IsWorkload-AreWorkloads k trace capacities w = record {
  some_training = w.nonempty;
  some_evaluation = w.nonempty;
  some_groups = omega arith;
  no_empty = (w.nonempty, tt);
  partition = unfold flatten in append-nil trace;
  some_width = w.some_width;
  training_width = w.width;
  evaluation_width = w.width;
  distinct = all-Distinct trace capacities w.some_capacity w.fitting;
  trained = own_layers trace;
  evaluated = own_layers trace;
}

-- A workload of one width, positive sizes, capacities on which the workload fits, and a `==` of
-- weights that is reflexive: held out against itself, in one group, the workload gives exactly the
-- curve that `build_capacity_curve` gives of it, with the caches reset for the evaluation set only.
pub build_held_out_capacity_curve-own :
    (same_weights : Option (List Float) → Option (List Float) → Bool) (k : ℕ)
    (trace : List RouterTraceEvent) (capacities : List ℕ) (slot_bytes transfer_ms : ℕ)
    → ((w : Option (List Float)) → same_weights w w ≡ true)
    → IsWorkload k capacities trace
    → 0 < slot_bytes
    → 0 < transfer_ms
    → (curve : CapacityCurve) × (build_capacity_curve trace capacities slot_bytes transfer_ms
        ≡ ok curve)
      × (build_held_out_capacity_curve same_weights trace trace none capacities slot_bytes
            transfer_ms
          ≡ ok (record {
            lru_reset_scope = ResetScope.evaluation_set;
            training_event_count = length trace;
            evaluation_event_count = length trace;
            curve = curve;
          }))
unfolding groups_of reset_scope
build_held_out_capacity_curve-own same_weights k trace capacities slot_bytes transfer_ms reflexive w
      some_slot some_time =
    let scale = sample_scale k trace capacities slot_bytes transfer_ms w some_slot some_time in
    let (points, ran, _, _) =
      sample_points k trace capacities slot_bytes transfer_ms w some_slot some_time in
    let wide =
      All-mono _ _ capacities (λ c h. width-le k c trace w.nonempty w.width h.1) w.fitting in
    let same =
      each-ext (held_out_point trace trace (trace ∷ []) scale) (sample_point trace scale)
        (first_keys capacities)
        (All-mono _ _ (first_keys capacities)
          (λ c h.
            held_out_point-own trace scale (demand_positive k trace w.some_width w.nonempty w.width)
              (own_layers trace) c (width-le k c trace w.nonempty w.width h.1, h.0, h.1))
          (All-first_keys _ capacities w.fitting)) in
    (
      curve_of trace k slot_bytes transfer_ms points,
      build_capacity_curve-ok k trace capacities slot_bytes transfer_ms w some_slot some_time,
      build_held_out_capacity_curve-each same_weights trace trace none capacities scale reflexive
          (IsWorkload-AreWorkloads k trace capacities w) refl w.some_capacity wide some_slot
          some_time points (same ∙ ran),
    )
