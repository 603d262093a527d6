-- ===== src/Capacity/Scores.antt =====
-- src/expertflow/analysis/capacity_curve.py: the scores of a held-out evaluation.
use expertflow.Base.{
  false, ℕ, ◌+◌, ◌<◌, List, [], ◌∷◌, map, length, keep, All, All-mono, sum_by, ◌==◌, ok, ◌≡◌, refl,
  arith, ap, Bool-cases, inl, inr, true, false,
}
use expertflow.Base.Dict
use expertflow.Base.Dict.{Dict}
use expertflow.Base.Distinct.{elem}
use expertflow.Trace.Event.{RouterTraceEvent}
use expertflow.CacheSim.{
  PolicyResult, demand, ready_total, resident_outcome, static_residents, hot_experts, count_layers,
}
use expertflow.CacheSim.Counts.{layer_counted}
use expertflow.CacheSim.Hotset.{hotset_outcomes}
use expertflow.CacheSim.Totals.{IsBalanced, Accounts-hotset}
use expertflow.Capacity.{combined_result, rate, combine_policy_results}
use expertflow.Capacity.HeldOut.{scored_result, event_hits, static_hits, static_result}

-- Every layer of the events has residents.
abbrev pub Covers : Dict (List ℕ) → List RouterTraceEvent → Type 0
Covers residents = All (λ e. elem e.layer_id (Dict.keys residents) ≡ true)

pub static_residents-Covers :
    (capacity : ℕ) (training evaluation : List RouterTraceEvent)
    → All (λ e. elem e.layer_id (map (λ t. t.layer_id) training) ≡ true) evaluation
    → Covers (static_residents training capacity) evaluation
unfolding static_residents
static_residents-Covers capacity training evaluation h =
    rw (Dict.keys-map_values (hot_experts capacity) (count_layers training []))
      (All-mono _ _ evaluation (λ e k. layer_counted e.layer_id training [] k) h)

event_hits_total :
    (residents : Dict (List ℕ)) (layer : ℕ) (ids : List ℕ)
    → elem layer (Dict.keys residents) ≡ true
    → event_hits residents layer ids
      ≡ ok (length (keep (λ x. elem x (Dict.get_or [] layer residents)) ids))
unfolding event_hits keep
event_hits_total residents layer [] h = refl
event_hits_total residents layer (x ∷ ids) h =
    rw
      (Dict.lookup_present [] layer residents h, event_hits, event_hits_total residents layer ids h)
      (elim (Bool-cases (elem x (Dict.get_or [] layer residents))) [
        | inl e ↦ rw e (ap ok (omega arith))
        | inr e ↦ rw e (ap ok (omega arith))
      ])

-- Beside residents for every layer no key is missing, and the hits are the ready experts.
pub static_hits_total :
    (residents : Dict (List ℕ)) (evaluation : List RouterTraceEvent)
    → Covers residents evaluation
    → static_hits residents evaluation ≡ ok (ready_total (hotset_outcomes residents evaluation))
unfolding static_hits hotset_outcomes resident_outcome sum_by
static_hits_total residents [] h = refl
static_hits_total residents (e ∷ evaluation) h =
    rw
      (
        event_hits_total residents e.layer_id e.selected_expert_ids h.0,
        static_hits_total residents evaluation h.1,
      )
      refl

pub static_result-IsBalanced :
    (residents : Dict (List ℕ)) (evaluation : List RouterTraceEvent)
    → 0 < sum_by demand evaluation
    → Covers residents evaluation
    → (r : PolicyResult) × (static_result residents evaluation ≡ ok r)
      × IsBalanced (sum_by demand evaluation) r
unfolding static_result scored_result rate
static_result-IsBalanced residents evaluation p h =
    let accounts = Accounts-hotset residents evaluation in
    let some_demand : (sum_by demand evaluation == 0) ≡ false = ground arith in
    (
      scored_result residents (sum_by demand evaluation)
          (ready_total (hotset_outcomes residents evaluation))
          (ready_total (hotset_outcomes residents evaluation), sum_by demand evaluation),
      rw (static_hits_total residents evaluation h, some_demand) refl,
      record {
        demanded = refl;
        balanced = omega (arith, accounts.total);
        loads = refl;
        rated = rw some_demand refl;
      },
    )

sum_by-IsBalanced :
    (results : List PolicyResult)
    → All (λ r. IsBalanced r.demand_count r) results
    → (sum_by (λ r. r.hit_count) results + sum_by (λ r. r.miss_count) results
        ≡ sum_by (λ r. r.demand_count) results)
      × (sum_by (λ r. r.load_count) results ≡ sum_by (λ r. r.miss_count) results)
unfolding sum_by
sum_by-IsBalanced [] h = (refl, refl)
sum_by-IsBalanced (r ∷ results) h =
    let (hits, loads) = sum_by-IsBalanced results h.1 in
    (omega (arith, hits, h.0.balanced), omega (arith, loads, h.0.loads))

-- Balanced results add up to a balanced one.
pub combine_policy_results-IsBalanced :
    (results : List PolicyResult)
    → 0 < sum_by (λ r. r.demand_count) results
    → All (λ r. IsBalanced r.demand_count r) results
    → (r : PolicyResult) × (combine_policy_results results ≡ ok r)
      × IsBalanced (sum_by (λ r. r.demand_count) results) r
unfolding combine_policy_results combined_result rate
combine_policy_results-IsBalanced results p h =
    let some_demand : (sum_by (λ r. r.demand_count) results == 0) ≡ false = ground arith in
    let (hits, loads) = sum_by-IsBalanced results h in
    (
      combined_result results
          (sum_by (λ r. r.hit_count) results, sum_by (λ r. r.demand_count) results),
      rw some_demand refl,
      record { demanded = refl; balanced = hits; loads = loads; rated = rw some_demand refl },
    )
