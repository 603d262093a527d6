-- ===== src/Placement/Profile.antt =====
-- src/expertflow/compiler/static_placement.py: the benefits of the layers, from a profile. A row has
-- its fields, of their types; `statistics.median` and the floating-point score are parameters, and so
-- is the least number that `require_number` lets pass, 0.000001. The alignment is not 0, which the
-- description of a model guarantees.
use expertflow.Base.{
  ℕ, Bool, true, not, none, some, List, [], ◌∷◌, map, length, any, sum_by, ltb, leb, ◌==◌,
  if◌then◌else◌, Result, ok, err, value_error, zero_division, raise_if, ◌>>=◌, ◌>>◌,
}
use expertflow.Base.Dict
use expertflow.Base.Dict.{Dict}
use expertflow.Base.Distinct.{elem}
use expertflow.Base.Sort.{sort_by}
use expertflow.Layout.{align}
use expertflow.Placement.{LayerBenefit, better, same_layers}

-- the fields of a layer that the ranking reads
pub record MoeLayer : Type 0 where
  pub layer_id : ℕ
  pub component_bank_bytes : List ℕ

-- one of the `profile_rows`; `on_cpu` is `row.get('backend') == 'CPU'`
pub record ProfileRow : Type 0 where
  pub layer_id : ℕ
  pub profile_id : ℕ
  pub on_cpu : Bool
  pub total_us : ℕ

-- `{layer.layer_id: layer for layer in model.moe_layers}`
unfoldable pub by_layer : List MoeLayer → Dict MoeLayer → Dict MoeLayer
by_layer [] by_id = by_id
by_layer (layer ∷ layers) by_id = by_layer layers (Dict.insert layer.layer_id layer by_id)

-- `{layer: {} for layer in by_id}`
unfoldable pub no_samples : Dict MoeLayer → Dict (Dict ℕ)
no_samples by_id = map (λ e. (e.0, [])) by_id

-- `len(profile_sets) != 1`
unfoldable pub profiles_differ : List (List ℕ) → Bool
profiles_differ [] = true
profiles_differ (first ∷ rest) = any (λ ids. not (same_layers first ids)) rest

module _ (least_number : ℕ) (median : List ℕ → ℕ) (score : ℕ → ℕ → ℕ) where
  -- one round of the loop over `profile_rows`
  unfoldable pub add_row : ProfileRow → Dict (Dict ℕ) → Result (Dict (Dict ℕ))
  add_row row samples = elim (Dict.lookup row.layer_id samples) [
    | none ↦ err (value_error "profile layer/backend mismatch")
    | some values ↦ do
      raise_if (not row.on_cpu) (value_error "profile layer/backend mismatch")
      raise_if (elem row.profile_id (Dict.keys values)) (value_error "duplicate profile layer")
      raise_if (ltb row.total_us least_number) (value_error "profile timing")
      ok (Dict.insert row.layer_id (Dict.insert row.profile_id row.total_us values) samples)
  ]

  unfoldable pub add_rows : List ProfileRow → Dict (Dict ℕ) → Result (Dict (Dict ℕ))
  add_rows [] samples = ok samples
  add_rows (row ∷ rows) samples = do next ← add_row row samples; add_rows rows next

  -- the benefit of one layer
  unfoldable pub benefit_of : ℕ → Dict (Dict ℕ) → ℕ × MoeLayer → Result LayerBenefit
  benefit_of alignment samples (layer_id, layer) = do
    let size = sum_by (λ b. align b alignment) layer.component_bank_bytes
    let middle = median (map (λ e. e.1) (Dict.get_or [] layer_id samples))
    raise_if (size == 0) zero_division
    ok (record {
      layer_id = layer_id;
      median_total_us = middle;
      arena_bytes = size;
      score_us_per_mib = score middle size;
      shadow_count = 4;
    })

  -- the loop over `by_id.items()`
  unfoldable pub benefits_of :
      ℕ → Dict (Dict ℕ) → List ℕ → Dict MoeLayer → Result (List LayerBenefit)
  benefits_of alignment samples resident_layers [] = ok []
  benefits_of alignment samples resident_layers (e ∷ by_id) =
      let rest = benefits_of alignment samples resident_layers by_id in
      if elem e.0 resident_layers
      then rest
      else (do benefit ← benefit_of alignment samples e; benefits ← rest; ok (benefit ∷ benefits))

  -- `rank_layer_benefits`
  unfoldable pub rank_layer_benefits :
      List MoeLayer → ℕ → List ProfileRow → ℕ → List ℕ → Result (List LayerBenefit)
  rank_layer_benefits moe_layers alignment profile_rows minimum_repetitions resident_layers = do
    raise_if (minimum_repetitions == 0) (value_error "profile repetitions")
    let by_id = by_layer moe_layers []
    samples ← add_rows profile_rows (no_samples by_id)
    raise_if (any (λ e. ltb (length (e.1)) minimum_repetitions) samples)
        (value_error "missing profile layers/repetitions")
    raise_if (profiles_differ (map (λ e. sort_by leb (Dict.keys e.1)) samples))
        (value_error "profile repetition set mismatch")
    benefits ← benefits_of alignment samples resident_layers by_id
    ok (sort_by better benefits)
