-- ===== src/Placement/Candidates.antt =====
-- src/expertflow/compiler/static_placement.py: the candidates of `generate_static_candidates`.
use expertflow.Base.{
  ℕ, zero, suc, ◌-◌, ◌≤◌, min, true, false, not, List, [], ◌∷◌, ◌++◌, length, take, any, All,
  All-append, ◌==◌, ==_refl, ok, ◌≡◌, refl, arith, ap, length-map, length-take-le,
}
use expertflow.Base.Dict
use expertflow.Base.Dict.{Dict}
use expertflow.Base.Distinct.{elem, dedup, Distinct, dedup_of_Distinct}
use expertflow.Base.Distinct.Occurrences.{
  occurrences, occurrences_present, elem_of_occurrences, occurrences-le-Distinct,
  occurrences-Distinct, occurrences-sort_by,
}
use expertflow.Base.Sort.{sort_by}
use expertflow.Placement.{
  LayerBenefit, StaticPlacementCandidate, better, Limits, by_id_of, no_placement,
  generate_static_candidates,
}
use expertflow.Placement.Budget.{IsPlaced}
use expertflow.Placement.Order.{IsRanked, sort_by-IsRanked}
use expertflow.Placement.Greedy.{layers_of, AreGreedy, greedy_candidates-AreGreedy}
use expertflow.Placement.Diagnostic.{
  IsDiagnostic, diagnostic_candidates-IsDiagnostic, no_placement-IsPlaced,
}

take-occurrences :
    (x n : ℕ) (benefits : List LayerBenefit)
    → occurrences x (layers_of (take n benefits)) ≤ occurrences x (layers_of benefits)
unfolding occurrences
take-occurrences x zero benefits = omega arith
take-occurrences x (suc n) [] = omega arith
take-occurrences x (suc n) (b ∷ benefits) = omega (arith, take-occurrences x n benefits)

keys-by_id : (benefits : List LayerBenefit) → Dict.keys (by_id_of benefits) ≡ layers_of benefits
keys-by_id [] = refl
keys-by_id (b ∷ benefits) = ap (◌∷◌ b.layer_id) (keys-by_id benefits)

lacks-within :
    (keys xs : List ℕ)
    → ((x : ℕ) → elem x xs ≡ true → elem x keys ≡ true)
    → any (λ i. not (elem i keys)) xs ≡ false
unfolding any elem
lacks-within keys [] h = refl
lacks-within keys (x ∷ xs) h =
    rw (h x (rw (==_refl x) refl)) (lacks-within keys xs (λ y k. h y (ground (arith, k))))

module _ (benefits : List LayerBenefit) (d : Distinct (layers_of benefits)) where
  abbrev ranked : List LayerBenefit
  ranked = sort_by better benefits

  ranked_once : (x : ℕ) → occurrences x (layers_of ranked) ≤ 1
  ranked_once x = omega (
    arith,
    occurrences-sort_by (λ (b : LayerBenefit). b.layer_id) better x benefits,
    occurrences-le-Distinct x (layers_of benefits) d,
  )

  take-Distinct : (n : ℕ) → Distinct (layers_of (take n ranked))
  take-Distinct n =
      occurrences-Distinct (layers_of (take n ranked))
        (λ x. omega (arith, take-occurrences x n ranked, ranked_once x))

  take-known :
      (n : ℕ)
      → any (λ i. not (elem i (Dict.keys (by_id_of ranked)))) (layers_of (take n ranked)) ≡ false
  take-known n = rw (keys-by_id ranked) (
      lacks-within (layers_of ranked) (layers_of (take n ranked)) (λ x h.
        elem_of_occurrences x (layers_of ranked) (
          omega (
            arith,
            take-occurrences x n ranked,
            occurrences_present x (layers_of (take n ranked)) h,
          ))))

  ids_differ : (length (dedup (Dict.keys (by_id_of ranked))) == length ranked) ≡ true
  ids_differ =
      rw
        (
          keys-by_id ranked,
          dedup_of_Distinct (layers_of ranked)
              (occurrences-Distinct (layers_of ranked) ranked_once),
          length-map (λ (b : LayerBenefit). b.layer_id) ranked,
        )
        (==_refl (length ranked))

  -- With benefits of layers that differ, and diagnostic layers without repetition, candidates are
  -- returned, no layer missing: the empty placement, then greedy candidates, no more than twelve or
  -- than the cap on layers, then at most one diagnostic candidate. The layers are ranked by falling
  -- score, of one score by their ids, and the greedy candidates are the prefixes of the ranking with
  -- one layer, two layers and so on: all accepted, and either as many as the caps on their number and
  -- the ranking allow or up to a prefix that is refused, or only the first prefix, refused. The
  -- diagnostic candidate has the diagnostic layers, and is left out exactly if there are none, one has
  -- no benefit or an earlier candidate has the same. Each candidate has its layers once, costs the
  -- bytes and the shadows of its layers, and is rejected for more than its numbers exactly where it
  -- exceeds the budget that the reserve leaves, the cap on layers or the cap on shadows.
  pub generate_static_candidates-IsPlaced :
      (available_bytes reserve_bytes max_static_layers max_static_shadows : ℕ)
      (diagnostic_layers : List ℕ)
      → Distinct diagnostic_layers
      → (prefixes : List StaticPlacementCandidate) × (diagnostic : List StaticPlacementCandidate)
        × (generate_static_candidates benefits available_bytes reserve_bytes max_static_layers
              max_static_shadows diagnostic_layers
            ≡ ok (no_placement ∷ prefixes ++ diagnostic))
        × All
            (IsPlaced (by_id_of (sort_by better benefits)) (record {
              budget = available_bytes - reserve_bytes;
              max_static_layers = max_static_layers;
              max_static_shadows = max_static_shadows;
            }))
            (no_placement ∷ prefixes ++ diagnostic)
        × (length prefixes ≤ min 12 max_static_layers)
        × AreGreedy
            (by_id_of (sort_by better benefits))
            (record {
              budget = available_bytes - reserve_bytes;
              max_static_layers = max_static_layers;
              max_static_shadows = max_static_shadows;
            })
            0
            (layers_of (take (min 12 max_static_layers) (sort_by better benefits)))
            prefixes
        × IsDiagnostic
            (by_id_of (sort_by better benefits))
            (record {
              budget = available_bytes - reserve_bytes;
              max_static_layers = max_static_layers;
              max_static_shadows = max_static_shadows;
            })
            diagnostic_layers
            (no_placement ∷ prefixes)
            diagnostic
        × IsRanked (sort_by better benefits)
  unfolding generate_static_candidates
  generate_static_candidates-IsPlaced available_bytes reserve_bytes max_static_layers
        max_static_shadows diagnostic_layers apart =
      let limits : Limits = record {
        budget = available_bytes - reserve_bytes;
        max_static_layers = max_static_layers;
        max_static_shadows = max_static_shadows;
      } in
      let n = min 12 max_static_layers in
      let by_id = by_id_of ranked in
      let (prefixes, ran, placed, greedy, count) =
        greedy_candidates-AreGreedy by_id limits (layers_of (take n ranked)) [] (take n ranked) refl
          (unfold any in refl) (take-known n) (take-Distinct n) in
      let (diagnostic, found, later, last) =
        diagnostic_candidates-IsDiagnostic by_id limits diagnostic_layers (no_placement ∷ prefixes)
          apart in
      (
        prefixes,
        diagnostic,
        rw (ids_differ, ran, found) refl,
        (
          no_placement-IsPlaced by_id limits,
          All-append (IsPlaced by_id limits) prefixes diagnostic placed later,
        ),
        omega (arith, count, length-take-le n ranked),
        greedy,
        last,
        sort_by-IsRanked benefits,
      )
