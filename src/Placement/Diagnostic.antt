-- ===== src/Placement/Diagnostic.antt =====
-- src/expertflow/compiler/static_placement.py: the diagnostic candidate of `generate_static_candidates`
-- and the empty placement.
use expertflow.Base.{
  ℕ, ◌≤◌, true, ◌||◌, List, [], ◌∷◌, length, any, All, sum_by, ◌==◌, ok, ◌≡◌, refl, sym, ◌∙◌, arith,
  ap, Bool-cases, inl, inr, leb,
}
use expertflow.Base.Dict.{Dict}
use expertflow.Base.Distinct.{Distinct}
use expertflow.Base.Sort.{sort_by}
use expertflow.Placement.{
  LayerBenefit, Kind, StaticPlacementCandidate, Limits, is_rejected, same_layers,
  diagnostic_candidates, no_placement,
}
use expertflow.Placement.Budget.{IsPlaced, candidate-IsPlaced, lacks}

module _ (by_id : Dict LayerBenefit) (limits : Limits) where
  -- At most one candidate, of the diagnostic layers in the order of their ids. There is none exactly
  -- if no layers are given, one of them has no benefit, or an earlier candidate has the same layers.
  pub record IsDiagnostic (layers : List ℕ) (earlier cs : List StaticPlacementCandidate)
      : Type 0 where
    pub single : length cs ≤ 1
    pub layer_ids : All (λ c. c.layer_ids ≡ sort_by leb layers) cs
    pub kinds : All (λ c. c.kind ≡ Kind.historical_diagnostic) cs
    pub absent : (length cs == 0) ≡ (
        length layers == 0
        || lacks by_id limits layers
        || any (λ r. same_layers r.layer_ids (sort_by leb layers)) earlier)

  pub diagnostic_candidates-IsDiagnostic :
      (layers : List ℕ) (earlier : List StaticPlacementCandidate)
      → Distinct layers
      → (cs : List StaticPlacementCandidate) × (diagnostic_candidates by_id limits layers earlier
          ≡ ok cs)
        × All (IsPlaced by_id limits) cs
        × IsDiagnostic layers earlier cs
  unfolding diagnostic_candidates
  diagnostic_candidates-IsDiagnostic layers earlier d = elim (Bool-cases (length layers == 0)) [
    | inl e ↦ ([], rw e refl, tt, nothing (rw e refl))
    | inr e ↦ elim (Bool-cases (lacks by_id limits layers)) [
      | inl missing ↦ ([], rw (missing, e) refl, tt, nothing (rw (e, missing) refl))
      | inr present ↦
          let (c, made, placed, ids, kind) =
            candidate-IsPlaced by_id limits layers Kind.historical_diagnostic present d in
          let same = ap (λ xs. any (λ r. same_layers r.layer_ids xs) earlier) ids in
          elim (Bool-cases (any (λ r. same_layers r.layer_ids c.layer_ids) earlier)) [
            | inl known ↦ (
              [],
              rw (present, e, made, known) refl,
              tt,
              nothing (rw (e, present) (sym known ∙ same)),
            )
            | inr new ↦ (
              c ∷ [],
              rw (present, e, made, new) refl,
              (placed, tt),
              record {
                single = omega arith;
                layer_ids = (ids, tt);
                kinds = (kind, tt);
                absent = rw (e, present) (sym new ∙ same);
              },
            )
          ]
    ]
  ]
    where
      nothing :
          true ≡ (
            length layers == 0
            || lacks by_id limits layers
            || any (λ r. same_layers r.layer_ids (sort_by leb layers)) earlier)
          → IsDiagnostic layers earlier []
      nothing h = record { single = omega arith; layer_ids = tt; kinds = tt; absent = h }

  pub no_placement-IsPlaced : IsPlaced by_id limits no_placement
  unfolding is_rejected any sum_by
  no_placement-IsPlaced = record {
    distinct = tt;
    arena = refl;
    shadows = refl;
    safe = ground arith;
  }
