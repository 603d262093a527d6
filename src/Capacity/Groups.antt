-- ===== src/Capacity/Groups.antt =====
-- src/expertflow/analysis/capacity_curve.py: the simulations of the evaluation groups.
use expertflow.Base.{
  All-split, ℕ, ◌<◌, List, [], ◌∷◌, map, All, All-split, sum_by, ok, ◌≡◌, refl, arith, sym,
  sum_by-append,
}
use mathlib.Core.Path.{subst}
use expertflow.Trace.Event.{RouterTraceEvent}
use expertflow.CacheSim.{PolicyResult, CacheSimulationReport, demand, simulate_policies}
use expertflow.CacheSim.Lru.{Fits}
use expertflow.CacheSim.Totals.{IsBalanced, simulate_policies_lem}
use expertflow.Capacity.{each}
use expertflow.Capacity.HeldOut.{flatten}

-- What the simulations of the groups give: balanced results, with the demand of the groups.
pub record AreScores (groups : List (List RouterTraceEvent)) (ss : List CacheSimulationReport)
    : Type 0 where
  pub reactive : All (λ r. IsBalanced r.demand_count r) (map (λ s. s.reactive) ss)
  pub reactive_demand :
      sum_by (λ r. r.demand_count) (map (λ s. s.reactive) ss) ≡ sum_by demand (flatten groups)
  pub lru : All (λ r. IsBalanced r.demand_count r) (map (λ s. s.lru) ss)
  pub lru_demand :
      sum_by (λ r. r.demand_count) (map (λ s. s.lru) ss) ≡ sum_by demand (flatten groups)

own_demand : (n : ℕ) (r : PolicyResult) → IsBalanced n r → IsBalanced r.demand_count r
own_demand n r b = subst (λ m. IsBalanced m r) (sym b.demanded) b

pub simulations-AreScores :
    (c : ℕ) (groups : List (List RouterTraceEvent))
    → 0 < c
    → All (Fits c) (flatten groups)
    → (ss : List CacheSimulationReport) × (each (λ group. simulate_policies group c) groups ≡ ok ss)
      × AreScores groups ss
unfolding each flatten sum_by
simulations-AreScores c [] p fits =
    ([], refl, record { reactive = tt; reactive_demand = refl; lru = tt; lru_demand = refl })
simulations-AreScores c (group ∷ groups) p fits =
    let (here, later) = All-split (Fits c) group (flatten groups) fits in
    let (report, ran, b0, _, b2, _, _, _, _, _, _, _, _, _, _) =
      simulate_policies_lem c group p here in
    let (ss, all_ran, scores) = simulations-AreScores c groups p later in
    let total = sum_by-append demand group (flatten groups) in
    (
      report ∷ ss,
      rw (ran, all_ran) refl,
      record {
        reactive = (own_demand (sum_by demand group) report.reactive b0, scores.reactive);
        reactive_demand = omega (arith, b0.demanded, scores.reactive_demand, total);
        lru = (own_demand (sum_by demand group) report.lru b2, scores.lru);
        lru_demand = omega (arith, b2.demanded, scores.lru_demand, total);
      },
    )
