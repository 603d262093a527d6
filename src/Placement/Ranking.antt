-- ===== src/Placement/Ranking.antt =====
-- src/expertflow/compiler/static_placement.py: the candidates of a ranking.
use expertflow.Base.{
  ℕ, ◌-◌, not, List, [], ◌∷◌, ◌++◌, map, length, keep, any, All, sum_by, ltb, leb, ◌==◌, ok,
  value_error, zero_division, raise_if, ◌≡◌, arith, ap, sym, ◌∙◌, Bool-cases, inl, inr,
  ok-injective, >>=-eq-ok,
}
use expertflow.Base.Dict
use expertflow.Base.Dict.{Dict}
use expertflow.Base.Distinct.{elem, Distinct, Distinct-keep}
use expertflow.Base.Distinct.Occurrences.{
  occurrences, occurrences-le-Distinct, occurrences-Distinct, occurrences-sort_by,
}
use expertflow.Base.Sort.{sort_by}
use expertflow.Layout.{align}
use expertflow.Placement.{
  LayerBenefit, StaticPlacementCandidate, better, by_id_of, no_placement,
  generate_static_candidates,
}
use expertflow.Placement.Budget.{IsPlaced}
use expertflow.Placement.Greedy.{layers_of}
use expertflow.Placement.Candidates.{generate_static_candidates-IsPlaced}
use expertflow.Placement.Profile.{
  MoeLayer, ProfileRow, by_layer, no_samples, profiles_differ, add_rows, benefit_of, benefits_of,
  rank_layer_benefits,
}

by_layer-Distinct :
    (layers : List MoeLayer) (by_id : Dict MoeLayer)
    → Distinct (Dict.keys by_id)
    → Distinct (Dict.keys (by_layer layers by_id))
unfolding by_layer
by_layer-Distinct [] by_id d = d
by_layer-Distinct (layer ∷ layers) by_id d =
    by_layer-Distinct layers (Dict.insert layer.layer_id layer by_id)
      (Dict.Distinct-keys-insert layer.layer_id layer by_id d)

module _ (least_number : ℕ) (median : List ℕ → ℕ) (score : ℕ → ℕ → ℕ) (alignment : ℕ)
    (samples : Dict (Dict ℕ)) (resident_layers : List ℕ) where
  benefit_of-layer :
      (e : ℕ × MoeLayer) {benefit : LayerBenefit}
      → benefit_of least_number median score alignment samples e ≡ ok benefit
      → e.0 ≡ benefit.layer_id
  unfolding benefit_of
  benefit_of-layer e h =
      let size = sum_by (λ b. align b alignment) e.1.component_bank_bytes in
      let (_, _, made) = >>=-eq-ok (raise_if (size == 0) zero_division) _ h in
      ap (λ (b : LayerBenefit). b.layer_id) (ok-injective made)

  benefits_of-layers :
      (by_id : Dict MoeLayer) {benefits : List LayerBenefit}
      → benefits_of least_number median score alignment samples resident_layers by_id ≡ ok benefits
      → keep (λ x. not (elem x resident_layers)) (Dict.keys by_id) ≡ layers_of benefits
  unfolding benefits_of keep
  benefits_of-layers [] h = ap layers_of (ok-injective h)
  benefits_of-layers (e ∷ by_id) h = elim (Bool-cases (elem e.0 resident_layers)) [
    | inl there ↦ rw there (benefits_of-layers by_id (rw there at h))
    | inr new ↦
        let (benefit, made, h₁) =
          >>=-eq-ok (benefit_of least_number median score alignment samples e) _ (rw new at h) in
        let (rest, found, h₂) =
          >>=-eq-ok (benefits_of least_number median score alignment samples resident_layers by_id)
            _ h₁ in
        let first = benefit_of-layer e made in
        let later = benefits_of-layers by_id found in
        rw (new, first, later) (ap layers_of (ok-injective h₂))
  ]

module _ (least_number : ℕ) (median : List ℕ → ℕ) (score : ℕ → ℕ → ℕ) where
  -- The benefits of a profile, for which the ranking returns, have each layer that is not resident
  -- once. With diagnostic layers without repetition, `generate_static_candidates` then returns
  -- candidates for them, each with its layers once and the sums of their costs, and rejected for more
  -- than its numbers exactly where it exceeds a limit.
  pub rank_layer_benefits-generate_static_candidates :
      (moe_layers : List MoeLayer) (alignment : ℕ) (profile_rows : List ProfileRow)
      (minimum_repetitions : ℕ) (resident_layers : List ℕ)
      (available_bytes reserve_bytes max_static_layers max_static_shadows : ℕ)
      (diagnostic_layers : List ℕ) {benefits : List LayerBenefit}
      → rank_layer_benefits least_number median score moe_layers alignment profile_rows
          minimum_repetitions resident_layers
        ≡ ok benefits
      → Distinct diagnostic_layers
      → ((x : ℕ)
          → occurrences x (layers_of benefits)
            ≡ occurrences x
                (keep (λ i. not (elem i resident_layers)) (Dict.keys (by_layer moe_layers []))))
        × ((cs : List StaticPlacementCandidate) × (generate_static_candidates benefits
                available_bytes reserve_bytes max_static_layers max_static_shadows diagnostic_layers
              ≡ ok (no_placement ∷ cs))
            × All
                (IsPlaced (by_id_of (sort_by better benefits)) (record {
                  budget = available_bytes - reserve_bytes;
                  max_static_layers = max_static_layers;
                  max_static_shadows = max_static_shadows;
                }))
                (no_placement ∷ cs))
  unfolding rank_layer_benefits
  rank_layer_benefits-generate_static_candidates moe_layers alignment profile_rows
        minimum_repetitions resident_layers available_bytes reserve_bytes max_static_layers
        max_static_shadows diagnostic_layers {benefits} h apart =
      let by_id = by_layer moe_layers [] in
      let (_, _, h₁) =
        >>=-eq-ok (raise_if (minimum_repetitions == 0) (value_error "profile repetitions")) _ h in
      let (samples, _, h₂) =
        >>=-eq-ok (add_rows least_number median score profile_rows (no_samples by_id)) _ h₁ in
      let (_, _, h₃) =
        >>=-eq-ok
          (raise_if (any (λ e. ltb (length (e.1)) minimum_repetitions) samples)
            (value_error "missing profile layers/repetitions"))
          _ h₂ in
      let (_, _, h₄) =
        >>=-eq-ok
          (raise_if (profiles_differ (map (λ e. sort_by leb (Dict.keys e.1)) samples))
            (value_error "profile repetition set mismatch"))
          _ h₃ in
      let (plain, made, h₅) =
        >>=-eq-ok (benefits_of least_number median score alignment samples resident_layers by_id) _
          h₄ in
      let layers = keep (λ i. not (elem i resident_layers)) (Dict.keys by_id) in
      let same : layers ≡ layers_of plain =
        benefits_of-layers least_number median score alignment samples resident_layers by_id made in
      let ranked : sort_by better plain ≡ benefits = ok-injective h₅ in
      let counted : (x : ℕ) → occurrences x (layers_of benefits) ≡ occurrences x layers = λ x.
        ap (λ bs. occurrences x (layers_of bs)) (sym ranked)
        ∙ occurrences-sort_by (λ (b : LayerBenefit). b.layer_id) better x plain
        ∙ ap (occurrences x) (sym same) in
      let once =
        Distinct-keep (λ i. not (elem i resident_layers)) (Dict.keys by_id)
          (by_layer-Distinct moe_layers [] tt) in
      let apart_layers =
        occurrences-Distinct (layers_of benefits)
          (λ x. omega (arith, counted x, occurrences-le-Distinct x layers once)) in
      let (prefixes, diagnostic, ran, placed, _, _, _, _) =
        generate_static_candidates-IsPlaced benefits apart_layers available_bytes reserve_bytes
          max_static_layers max_static_shadows diagnostic_layers apart in
      (counted, (prefixes ++ diagnostic, ran, placed))
