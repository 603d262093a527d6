-- ===== src/Tests/Placements.antt =====
-- The candidates of three layers, of which two fit the budget.
use expertflow.Base.{
  map, true, get_elem?, leb, ◌/◌, ◌*◌, none, some, sum_by, keep, not, ℕ, ◌≤◌, any, List, [], ◌∷◌,
  ◌++◌, take, length, All, ok, err, value_error, ◌≡◌, refl,
}
use expertflow.Base.Dict
use expertflow.Base.Distinct.{elem, dedup}
use expertflow.Base.Sort.{insert_by, sort_by}
use expertflow.Placement.{
  LayerBenefit, Limits, Kind, Rejection, StaticPlacementCandidate, better, by_id_of, sum_over,
  reasons_of, candidate, is_hard, is_rejected, greedy_candidates, same_layers,
  diagnostic_candidates, no_placement, generate_static_candidates,
}
use expertflow.Base.Distinct.Occurrences.{occurrences}
use expertflow.Layout.{align}
use expertflow.Placement.Profile.{
  MoeLayer, ProfileRow, by_layer, no_samples, profiles_differ, add_row, add_rows, benefit_of,
  benefits_of, rank_layer_benefits,
}
use expertflow.Placement.Ranking.{rank_layer_benefits-generate_static_candidates}
use expertflow.Placement.Budget.{IsPlaced}
use expertflow.Placement.Order.{IsRanked}
use expertflow.Placement.Greedy.{layers_of, AreGreedy}
use expertflow.Placement.Diagnostic.{IsDiagnostic}
use expertflow.Placement.Candidates.{generate_static_candidates-IsPlaced}

-- Of a list of odd length, its median.
unfoldable middle : List ℕ → ℕ
middle xs = elim (get_elem? (sort_by leb xs) (length xs / 2)) [ none ↦ 0 | some x ↦ x ]

unfoldable per_mib : ℕ → ℕ → ℕ
per_mib median size = median * 1048576 / size

placement_program : Unit {0}
unfolding any elem dedup Dict.lookup insert_by sort_by better sum_over reasons_of candidate is_hard
    is_rejected greedy_candidates same_layers diagnostic_candidates generate_static_candidates
    middle per_mib Dict.get_or Dict.insert sum_by keep align by_layer no_samples profiles_differ
    add_row add_rows benefit_of benefits_of rank_layer_benefits
placement_program = tt

abbrev benefit : ℕ → ℕ → ℕ → LayerBenefit
benefit layer score bytes = record {
  layer_id = layer;
  median_total_us = 9;
  arena_bytes = bytes;
  score_us_per_mib = score;
  shadow_count = 4;
}

abbrev benefits : List LayerBenefit
benefits = benefit 0 5 30 ∷ benefit 1 9 40 ∷ benefit 2 7 40 ∷ []

candidates :
    generate_static_candidates benefits 120 20 12 48 (2 ∷ 0 ∷ [])
    ≡ ok (
        no_placement
        ∷ record {
          layer_ids = 1 ∷ [];
          arena_bytes = 40;
          shadow_count = 4;
          kind = Kind.greedy;
          rejection_reasons = Rejection.numerical_path_change ∷ [];
        }
        ∷ record {
          layer_ids = 1 ∷ 2 ∷ [];
          arena_bytes = 80;
          shadow_count = 8;
          kind = Kind.greedy;
          rejection_reasons = Rejection.numerical_path_change ∷ [];
        }
        ∷ record {
          layer_ids = 0 ∷ 2 ∷ [];
          arena_bytes = 70;
          shadow_count = 8;
          kind = Kind.historical_diagnostic;
          rejection_reasons = Rejection.numerical_path_change ∷ [];
        }
        ∷ [])
unfolding placement_program
candidates = refl

twice :
    generate_static_candidates (benefit 1 5 30 ∷ benefit 1 9 40 ∷ []) 120 20 12 48 []
    ≡ err (value_error "duplicate layer benefits")
unfolding placement_program
twice = refl

abbrev limits : Limits
limits = record { budget = 100; max_static_layers = 12; max_static_shadows = 48 }

generate_static_candidates-IsPlaced_example :
    (prefixes : List StaticPlacementCandidate) × (diagnostic : List StaticPlacementCandidate)
    × (generate_static_candidates benefits 120 20 12 48 (2 ∷ 0 ∷ [])
        ≡ ok (no_placement ∷ prefixes ++ diagnostic))
    × All
        (IsPlaced (by_id_of (sort_by better benefits)) limits)
        (no_placement ∷ prefixes ++ diagnostic)
    × (length prefixes ≤ 12)
    × AreGreedy
        (by_id_of (sort_by better benefits))
        limits
        0
        (layers_of (take 12 (sort_by better benefits)))
        prefixes
    × IsDiagnostic
        (by_id_of (sort_by better benefits))
        limits
        (2 ∷ 0 ∷ [])
        (no_placement ∷ prefixes)
        diagnostic
    × IsRanked (sort_by better benefits)
generate_static_candidates-IsPlaced_example =
    generate_static_candidates-IsPlaced benefits (unfold elem in (refl, (refl, (refl, tt)))) 120 20
      12 48 (2 ∷ 0 ∷ []) (unfold elem in (refl, (refl, tt)))

abbrev moe_layers : List MoeLayer
moe_layers =
    record { layer_id = 0; component_bank_bytes = 100 ∷ 300 ∷ [] }
    ∷ record { layer_id = 1; component_bank_bytes = 200 ∷ [] }
    ∷ record { layer_id = 2; component_bank_bytes = 10 ∷ [] }
    ∷ []

abbrev row : ℕ → ℕ → ℕ → ProfileRow
row layer profile time = record {
  layer_id = layer;
  profile_id = profile;
  on_cpu = true;
  total_us = time;
}

abbrev rows : List ProfileRow
rows = row 0 7 30 ∷ row 1 7 20 ∷ row 2 7 50 ∷ []

ranking :
    (benefits : List LayerBenefit) × (rank_layer_benefits 1 middle per_mib moe_layers 256 rows 1
        (2 ∷ [])
      ≡ ok benefits)
    × (map (λ b. b.layer_id) benefits ≡ 1 ∷ 0 ∷ [])
    × (map (λ b. b.arena_bytes) benefits ≡ 256 ∷ 768 ∷ [])
unfolding placement_program
ranking = (_, refl, refl, refl)

missing_row :
    rank_layer_benefits 1 middle per_mib moe_layers 256 (row 0 7 30 ∷ row 1 7 20 ∷ []) 1 []
    ≡ err (value_error "missing profile layers/repetitions")
unfolding placement_program
missing_row = refl

rank_layer_benefits-generate_static_candidates_example :
    ((x : ℕ)
      → occurrences x (layers_of ranking.0)
        ≡ occurrences x (keep (λ i. not (elem i (2 ∷ []))) (Dict.keys (by_layer moe_layers []))))
    × ((cs : List StaticPlacementCandidate) × (generate_static_candidates ranking.0 900 100 12 48
            (1 ∷ [])
          ≡ ok (no_placement ∷ cs))
        × All
            (IsPlaced
              (by_id_of (sort_by better ranking.0))
              (record { budget = 800; max_static_layers = 12; max_static_shadows = 48 }))
            (no_placement ∷ cs))
rank_layer_benefits-generate_static_candidates_example =
    rank_layer_benefits-generate_static_candidates 1 middle per_mib moe_layers 256 rows 1 (2 ∷ [])
      900 100 12 48 (1 ∷ []) ranking.1 (unfold elem in (refl, tt))
