-- ===== src/Placement.antt =====
-- src/expertflow/compiler/static_placement.py: the layers whose experts stay on the device. A timing
-- or a score is a finite double that is not negative, as a natural number of units of 2 ^ -1074. A
-- profile id is compared only, and a number stands for it.
pub mod Budget
pub mod Greedy
pub mod Diagnostic
pub mod Order
pub mod Candidates
pub mod Profile
pub mod Ranking
use expertflow.Base.{
  ℕ, zero, suc, ◌+◌, ◌-◌, ◌≤◌, min, Bool, true, false, not, ◌&&◌, ◌||◌, Option, none, some, List,
  [], ◌∷◌, ◌++◌, map, length, take, any, keep, sum_by, ltb, leb, ◌==◌, if◌then◌else◌, Result, ok,
  err, value_error, key_error, raise_if, ◌>>=◌, ◌>>◌,
}
use expertflow.Base.Dict
use expertflow.Base.Dict.{Dict}
use expertflow.Base.Distinct.{elem, dedup}
use expertflow.Base.Sort.{sort_by}

pub record LayerBenefit : Type 0 where
  pub layer_id : ℕ
  pub median_total_us : ℕ
  pub arena_bytes : ℕ
  pub score_us_per_mib : ℕ
  pub shadow_count : ℕ

-- `kind`
pub data Kind : Type 0 where
  static_off greedy historical_diagnostic : Kind

-- one of the `rejection_reasons`
pub data Rejection : Type 0 where
  vram_budget runtime_layer_cap runtime_shadow_cap numerical_path_change : Rejection

pub record StaticPlacementCandidate : Type 0 where
  pub layer_ids : List ℕ
  pub arena_bytes : ℕ
  pub shadow_count : ℕ
  pub kind : Kind
  pub rejection_reasons : List Rejection

-- the key `(-b.score_us_per_mib, b.layer_id)`
unfoldable pub better : LayerBenefit → LayerBenefit → Bool
better a b =
    if ltb b.score_us_per_mib a.score_us_per_mib
    then true
    else if a.score_us_per_mib == b.score_us_per_mib
    then leb a.layer_id b.layer_id
    else false

-- The limits of a placement.
pub record Limits : Type 0 where
  pub budget : ℕ
  pub max_static_layers : ℕ
  pub max_static_shadows : ℕ

-- `by_id`, of ids that differ
abbrev pub by_id_of : List LayerBenefit → Dict LayerBenefit
by_id_of = map (λ b. (b.layer_id, b))

-- `sum(f(by_id[i]) for i in ids)`
unfoldable pub sum_over : Dict LayerBenefit → (LayerBenefit → ℕ) → List ℕ → Result ℕ
sum_over by_id f [] = ok 0
sum_over by_id f (i ∷ is) = elim (Dict.lookup i by_id) [
  | none ↦ err key_error
  | some b ↦ do rest ← sum_over by_id f is; ok (f b + rest)
]

-- `reasons`
unfoldable pub reasons_of : Limits → ℕ → ℕ → ℕ → List Rejection
reasons_of limits arena layers shadows =
    (if ltb limits.budget arena then Rejection.vram_budget ∷ [] else [])
    ++ (if ltb limits.max_static_layers layers then Rejection.runtime_layer_cap ∷ [] else [])
    ++ (if ltb limits.max_static_shadows shadows then Rejection.runtime_shadow_cap ∷ [] else [])
    ++ Rejection.numerical_path_change ∷ []

-- `candidate`
unfoldable pub candidate :
    Dict LayerBenefit → Limits → List ℕ → Kind → Result StaticPlacementCandidate
candidate by_id limits layers kind = do
  let ids = sort_by leb layers
  arena ← sum_over by_id (λ b. b.arena_bytes) ids
  shadows ← sum_over by_id (λ b. b.shadow_count) ids
  ok (record {
    layer_ids = ids;
    arena_bytes = arena;
    shadow_count = shadows;
    kind = kind;
    rejection_reasons = reasons_of limits arena (length ids) shadows;
  })

unfoldable pub is_hard : Rejection → Bool
is_hard Rejection.numerical_path_change = false
is_hard _ = true

-- `any(r != 'numerical_path_change' for r in proposed.rejection_reasons)`
unfoldable pub is_rejected : StaticPlacementCandidate → Bool
is_rejected c = any is_hard c.rejection_reasons

-- the loop over the best layers
unfoldable pub greedy_candidates :
    Dict LayerBenefit → Limits → List ℕ → List LayerBenefit → Result (List StaticPlacementCandidate)
greedy_candidates by_id limits prefix [] = ok []
greedy_candidates by_id limits prefix (b ∷ benefits) =
    let longer = prefix ++ b.layer_id ∷ [] in
    let later = greedy_candidates by_id limits longer benefits in
    do
      proposed ← candidate by_id limits longer Kind.greedy
      if is_rejected proposed
          then ok (if length prefix == 0 then proposed ∷ [] else [])
          else (do rest ← later; ok (proposed ∷ rest))

-- `tuple == tuple`
unfoldable pub same_layers : List ℕ → List ℕ → Bool
same_layers [] [] = true
same_layers (x ∷ xs) (y ∷ ys) = x == y && same_layers xs ys
same_layers _ _ = false

-- the diagnostic candidate, if its layers are there and it is a new one
unfoldable pub diagnostic_candidates :
    Dict LayerBenefit
    → Limits
    → List ℕ
    → List StaticPlacementCandidate
    → Result (List StaticPlacementCandidate)
diagnostic_candidates by_id limits diagnostic_layers result =
    if not (length diagnostic_layers == 0)
      && not (any (λ i. not (elem i (Dict.keys by_id))) diagnostic_layers)
    then (do
      diagnostic ← candidate by_id limits diagnostic_layers Kind.historical_diagnostic
      ok (
          if any (λ c. same_layers c.layer_ids diagnostic.layer_ids) result
          then []
          else diagnostic ∷ []))
    else ok []

-- the first candidate
abbrev pub no_placement : StaticPlacementCandidate
no_placement = record {
  layer_ids = [];
  arena_bytes = 0;
  shadow_count = 0;
  kind = Kind.static_off;
  rejection_reasons = [];
}

-- `generate_static_candidates`
unfoldable pub generate_static_candidates :
    List LayerBenefit → ℕ → ℕ → ℕ → ℕ → List ℕ → Result (List StaticPlacementCandidate)
generate_static_candidates benefits available_bytes reserve_bytes max_static_layers
      max_static_shadows diagnostic_layers =
    do
      let ranked = sort_by better benefits
      let by_id = by_id_of ranked
      raise_if (not (length (dedup (Dict.keys by_id)) == length ranked))
          (value_error "duplicate layer benefits")
      let limits : Limits = record {
        budget = available_bytes - reserve_bytes;
        max_static_layers = max_static_layers;
        max_static_shadows = max_static_shadows;
      }
      prefixes ← greedy_candidates by_id limits [] (take (min 12 max_static_layers) ranked)
      diagnostic ← diagnostic_candidates by_id limits diagnostic_layers (no_placement ∷ prefixes)
      ok (no_placement ∷ prefixes ++ diagnostic)
