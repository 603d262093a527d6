-- ===== src/Placement/Budget.antt =====
-- src/expertflow/compiler/static_placement.py: what the candidates cost, and what the limits let pass.
use expertflow.Base.{
  ℕ, Bool, true, false, not, ◌||◌, List, [], ◌∷◌, ◌++◌, map, length, any, sum_by, ltb, leb,
  if◌then◌else◌, ok, ◌≡◌, refl, arith, ap, ◌∙◌, Bool-cases, inl, inr,
}
use expertflow.Base.Dict
use expertflow.Base.Dict.{Dict}
use expertflow.Base.Distinct.{elem, Distinct}
use expertflow.Base.Distinct.Occurrences.{
  occurrences-append, occurrences-le-Distinct, occurrences-Distinct, occurrences-sort_by,
}
use expertflow.Base.Sort.{sort_by}
use expertflow.Base.Sort.Members.{any-sort_by}
use expertflow.Placement.{
  LayerBenefit, Kind, Rejection, StaticPlacementCandidate, Limits, sum_over, reasons_of, candidate,
  is_hard, is_rejected,
}

-- What a missing key would read as, where none is missing.
abbrev no_benefit : LayerBenefit
no_benefit = record {
  layer_id = 0;
  median_total_us = 0;
  arena_bytes = 0;
  score_us_per_mib = 0;
  shadow_count = 0;
}

map_same : (xs : List ℕ) → map (λ n. n) xs ≡ xs
map_same [] = refl
map_same (x ∷ xs) = ap (◌∷◌ x) (map_same xs)

Distinct-sort_by : (xs : List ℕ) → Distinct xs → Distinct (sort_by leb xs)
Distinct-sort_by xs d = occurrences-Distinct (sort_by leb xs) (λ x.
    let same =
      rw (map_same (sort_by leb xs), map_same xs) at (occurrences-sort_by (λ n. n) leb x xs) in
    omega (arith, same, occurrences-le-Distinct x xs d))

pub Distinct-initial : (xs ys : List ℕ) → Distinct (xs ++ ys) → Distinct xs
Distinct-initial xs ys d =
    occurrences-Distinct xs
      (λ x. omega (arith, occurrences-append x xs ys, occurrences-le-Distinct x (xs ++ ys) d))

module _ (by_id : Dict LayerBenefit) (limits : Limits) where
  -- The sum of a field over the layers.
  abbrev pub total : (LayerBenefit → ℕ) → List ℕ → ℕ
  total f = sum_by (λ i. f (Dict.get_or no_benefit i by_id))

  -- Some layer is not there.
  abbrev pub lacks : List ℕ → Bool
  lacks = any (λ i. not (elem i (Dict.keys by_id)))

  sum_over_total :
      (f : LayerBenefit → ℕ) (ids : List ℕ)
      → lacks ids ≡ false
      → sum_over by_id f ids ≡ ok (total f ids)
  unfolding sum_over any sum_by
  sum_over_total f [] h = refl
  sum_over_total f (i ∷ ids) h = elim (Bool-cases (elem i (Dict.keys by_id))) [
    | inl e ↦
        rw (Dict.lookup_present no_benefit i by_id e, sum_over, sum_over_total f ids (rw e at h))
          refl
    | inr e ↦ absurd (ground (arith, e, h))
  ]

  -- A candidate with the layers once each, its costs the sums over them, and rejected for more than
  -- its numbers exactly where it exceeds a limit.
  pub record IsPlaced (c : StaticPlacementCandidate) : Type 0 where
    pub distinct : Distinct c.layer_ids
    pub arena : c.arena_bytes ≡ total (λ b. b.arena_bytes) c.layer_ids
    pub shadows : c.shadow_count ≡ total (λ b. b.shadow_count) c.layer_ids
    pub safe : is_rejected c ≡ (
        ltb limits.budget c.arena_bytes
        || ltb limits.max_static_layers (length c.layer_ids)
        || ltb limits.max_static_shadows c.shadow_count)

  is_rejected-reasons :
      (a b c : Bool)
      → any is_hard (
          (if a then Rejection.vram_budget ∷ [] else [])
          ++ (if b then Rejection.runtime_layer_cap ∷ [] else [])
          ++ (if c then Rejection.runtime_shadow_cap ∷ [] else [])
          ++ Rejection.numerical_path_change ∷ [])
        ≡ (a || b || c)
  unfolding any is_hard
  is_rejected-reasons true b c = refl
  is_rejected-reasons false true c = refl
  is_rejected-reasons false false true = refl
  is_rejected-reasons false false false = refl

  pub candidate-IsPlaced :
      (layers : List ℕ) (kind : Kind)
      → lacks layers ≡ false
      → Distinct layers
      → (c : StaticPlacementCandidate) × (candidate by_id limits layers kind ≡ ok c)
        × IsPlaced c
        × (c.layer_ids ≡ sort_by leb layers)
        × (c.kind ≡ kind)
  unfolding candidate
  candidate-IsPlaced layers kind h d =
      let ids = sort_by leb layers in
      let there = any-sort_by leb (λ i. not (elem i (Dict.keys by_id))) layers ∙ h in
      let arena = total (λ b. b.arena_bytes) ids in
      let shadows = total (λ b. b.shadow_count) ids in
      (
        record {
          layer_ids = ids;
          arena_bytes = arena;
          shadow_count = shadows;
          kind = kind;
          rejection_reasons = reasons_of limits arena (length ids) shadows;
        },
        rw
            (
              sum_over_total (λ b. b.arena_bytes) ids there,
              sum_over_total (λ b. b.shadow_count) ids there,
            )
            refl,
        record {
          distinct = Distinct-sort_by layers d;
          arena = refl;
          shadows = refl;
          safe =
              unfold is_rejected reasons_of in
              is_rejected-reasons (ltb limits.budget arena)
                (ltb limits.max_static_layers (length ids)) (ltb limits.max_static_shadows shadows);
        },
        refl,
        refl,
      )
