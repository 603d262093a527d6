-- ===== src/CacheSim/Counts.antt =====
-- src/expertflow/analysis/cache_sim.py: what the counters of `_static_residents` hold.
use expertflow.Base.{
  map, ℕ, ◌+◌, true, List, [], ◌∷◌, All, ◌==◌, if◌then◌else◌, ◌≡◌, inl, inr, arith, Bool-cases,
}
use expertflow.Base.Dict
use expertflow.Base.Dict.{Dict}
use expertflow.Base.Distinct.Occurrences.{occurrences}
use expertflow.Base.Distinct.{elem, Distinct}
use expertflow.Trace.Event.{RouterTraceEvent}
use expertflow.CacheSim.{count_ids, count_layers}

-- How often a layer's events select it.
unfoldable pub selections : ℕ → ℕ → List RouterTraceEvent → ℕ
selections layer x [] = 0
selections layer x (e ∷ trace) =
    (if e.layer_id == layer then occurrences x e.selected_expert_ids else 0)
    + selections layer x trace

get_or-count_ids :
    (x : ℕ) (ids : List ℕ) (counts : Dict ℕ)
    → Dict.get_or 0 x (count_ids ids counts) ≡ Dict.get_or 0 x counts + occurrences x ids
unfolding count_ids occurrences
get_or-count_ids x [] counts = omega arith
get_or-count_ids x (y ∷ ids) counts = ground (
  arith,
  get_or-count_ids x ids (Dict.insert y (Dict.get_or 0 y counts + 1) counts),
  Dict.get_or-insert 0 y x (Dict.get_or 0 y counts + 1) counts,
)

Distinct-count_ids :
    (ids : List ℕ) (counts : Dict ℕ)
    → Distinct (Dict.keys counts)
    → Distinct (Dict.keys (count_ids ids counts))
unfolding count_ids
Distinct-count_ids [] counts d = d
Distinct-count_ids (y ∷ ids) counts d =
    Distinct-count_ids ids (Dict.insert y (Dict.get_or 0 y counts + 1) counts)
      (Dict.Distinct-keys-insert y (Dict.get_or 0 y counts + 1) counts d)

-- A layer's counter holds, for every expert, how often the layer's events select it.
pub count_layers-selections :
    (layer x : ℕ) (trace : List RouterTraceEvent) (counts : Dict (Dict ℕ))
    → Dict.get_or 0 x (Dict.get_or [] layer (count_layers trace counts))
      ≡ Dict.get_or 0 x (Dict.get_or [] layer counts) + selections layer x trace
unfolding count_layers selections
count_layers-selections layer x [] counts = omega arith
count_layers-selections layer x (e ∷ trace) counts =
    let old = Dict.get_or [] e.layer_id counts in
    let new = count_ids e.selected_expert_ids old in
    ground (
      arith,
      count_layers-selections layer x trace (Dict.insert e.layer_id new counts),
      Dict.get_or-insert [] e.layer_id layer new counts,
      get_or-count_ids x e.selected_expert_ids old,
    )

-- Every counter has each expert once.
pub Distinct-count_layers :
    (layer : ℕ) (trace : List RouterTraceEvent) (counts : Dict (Dict ℕ))
    → ((l : ℕ) → Distinct (Dict.keys (Dict.get_or [] l counts)))
    → Distinct (Dict.keys (Dict.get_or [] layer (count_layers trace counts)))
unfolding count_layers
Distinct-count_layers layer [] counts d = d layer
Distinct-count_layers layer (e ∷ trace) counts d =
    Distinct-count_layers layer trace (Dict.insert e.layer_id new counts) kept
  where
    new : Dict ℕ
    new = count_ids e.selected_expert_ids (Dict.get_or [] e.layer_id counts)

    kept : (l : ℕ) → Distinct (Dict.keys (Dict.get_or [] l (Dict.insert e.layer_id new counts)))
    kept l = rw Dict.get_or-insert (elim (Bool-cases (e.layer_id == l)) [
      | inl same ↦ rw same (Distinct-count_ids e.selected_expert_ids _ (d e.layer_id))
      | inr other ↦ rw other (d l)
    ])

-- Every layer of the trace has a counter.
pub elem-count_layers :
    (layer : ℕ) (trace : List RouterTraceEvent) (counts : Dict (Dict ℕ))
    → elem layer (Dict.keys counts) ≡ true
    → elem layer (Dict.keys (count_layers trace counts)) ≡ true
unfolding count_layers
elem-count_layers layer [] counts h = h
elem-count_layers layer (e ∷ trace) counts h =
    let new = count_ids e.selected_expert_ids (Dict.get_or [] e.layer_id counts) in
    elem-count_layers layer trace (Dict.insert e.layer_id new counts)
      (ground (arith, Dict.elem-keys-insert e.layer_id layer new counts, h))

pub layers_counted :
    (trace : List RouterTraceEvent) (counts : Dict (Dict ℕ))
    → All (λ e. elem e.layer_id (Dict.keys (count_layers trace counts)) ≡ true) trace
unfolding count_layers
layers_counted [] counts = tt
layers_counted (e ∷ trace) counts =
    let new = count_ids e.selected_expert_ids (Dict.get_or [] e.layer_id counts) in
    (
      elem-count_layers e.layer_id trace (Dict.insert e.layer_id new counts)
          (ground (arith, Dict.elem-keys-insert e.layer_id e.layer_id new counts)),
      layers_counted trace (Dict.insert e.layer_id new counts),
    )

-- A layer that an event of the trace has is a key of the counts.
pub layer_counted :
    (layer : ℕ) (trace : List RouterTraceEvent) (counts : Dict (Dict ℕ))
    → elem layer (map (λ e. e.layer_id) trace) ≡ true
    → elem layer (Dict.keys (count_layers trace counts)) ≡ true
unfolding count_layers elem
layer_counted layer [] counts h = cc
layer_counted layer (e ∷ trace) counts h =
    let new = count_ids e.selected_expert_ids (Dict.get_or [] e.layer_id counts) in
    elim (Bool-cases (e.layer_id == layer)) [
      | inl same ↦
          elem-count_layers layer trace (Dict.insert e.layer_id new counts)
            (ground (arith, same, Dict.elem-keys-insert e.layer_id layer new counts))
      | inr other ↦ layer_counted layer trace (Dict.insert e.layer_id new counts) (rw other at h)
    ]
