-- ===== src/Layout/Build.antt =====
-- src/expertflow/analysis/expert_layout.py: the inventory that `build_expert_inventory` returns.
use expertflow.Base.{
  ℕ, ◌<◌, not, ◌||◌, String, List, [], map, length, length-map, All, any, leb, ◌==◌, ok,
  value_error, raise_if, >>=-eq-ok, ok-injective, passed_lem, ◌≡◌, refl, ap, sym, ◌∙◌, arith,
}
use expertflow.Base.Dict
use expertflow.Base.Dict.{Dict}
use expertflow.Base.Distinct.{elem, dedup}
use expertflow.Base.Sort.{sort_by}
use mathlib.Core.Path.{subst}
use expertflow.Layout.{ExpertTensor, ExpertObject, component_names, differ, group_layers}
use expertflow.Layout.Inventory.{
  Inventory, maximum, minimum, all_objects, one_count, check_arguments, inventory_of,
  build_expert_inventory, stored_tensors,
}
use expertflow.Layout.Places.{IsPlaced}
use expertflow.Layout.Objects.{
  IsLaidOut, ids, grid, length-grid, maximum-All, minimum-maximum, summaries-slots,
  all_objects-IsPlaced,
}

module _ (source : List ExpertTensor) (alignment matrix_row_padding : ℕ)
    (component_order : List String) (target_layer_ids : List ℕ) (capacity : ℕ) where
  check_arguments_lem :
      {u : Unit {0}}
      → check_arguments source alignment matrix_row_padding component_order target_layer_ids
          capacity
        ≡ ok u
      → 0 < alignment
  unfolding check_arguments
  check_arguments_lem h =
      let (_, _, h₁) =
        >>=-eq-ok (raise_if (length source == 0) (value_error "tensors must not be empty")) _ h in
      let (_, q, _) =
        >>=-eq-ok
          (raise_if (alignment == 0 || matrix_row_padding == 0 || capacity == 0)
            (value_error "alignment, row padding, and capacity must be positive"))
          _ h₁ in
      let e = passed_lem _ _ q in ground arith

  inventory_of-IsLaidOut :
      (layer_ids : List ℕ) (expert_count : ℕ) (objects : List ExpertObject) {inventory : Inventory}
      → All (IsPlaced alignment) objects
      → map ids objects ≡ grid layer_ids expert_count
      → inventory_of source alignment matrix_row_padding component_order target_layer_ids capacity
          layer_ids expert_count objects
        ≡ ok inventory
      → IsLaidOut inventory
  unfolding inventory_of
  inventory_of-IsLaidOut layer_ids expert_count objects placed same h =
      let (_, _, h₁) =
        >>=-eq-ok (minimum (map (λ (o : ExpertObject). o.encoded_packed_bytes) objects)) _ h in
      let (_, smallest, h₂) =
        >>=-eq-ok (minimum (map (λ (o : ExpertObject). o.projected_slot_bytes) objects)) _ h₁ in
      subst IsLaidOut (ok-injective h₂) (record {
        placed = placed;
        complete = same;
        count = sym (length-map ids objects) ∙ ap length same ∙ length-grid layer_ids expert_count;
        slots = maximum-All (λ o. o.projected_slot_bytes) objects;
        largest = minimum-maximum (λ o. o.projected_slot_bytes) objects smallest;
        slot_count = refl;
        summaries =
            summaries-slots (maximum (map (λ o. o.projected_slot_bytes) objects)) expert_count
              objects layer_ids;
        cache = omega arith;
      })

  -- An inventory that is built has an object for every layer and every expert in order; in each
  -- object the components stand one after another, aligned and with less than one alignment of
  -- padding, and the slot holds them all. The projected slot is as large as the largest slot of an
  -- object: no object needs more and one needs as much. Each layer is summarised with that slot, and
  -- the projected cache is one such slot for each target layer and each place of the capacity.
  pub build_expert_inventory-IsLaidOut :
      {inventory : Inventory}
      → build_expert_inventory source alignment matrix_row_padding component_order target_layer_ids
          capacity
        ≡ ok inventory
      → IsLaidOut inventory
  unfolding build_expert_inventory
  build_expert_inventory-IsLaidOut h =
      let (_, checked, h₁) =
        >>=-eq-ok
          (check_arguments source alignment matrix_row_padding component_order target_layer_ids
            capacity)
          _ h in
      let (by_layer, _, h₂) = >>=-eq-ok (group_layers source []) _ h₁ in
      let layer_ids = sort_by leb (Dict.keys by_layer) in
      let (_, _, h₃) =
        >>=-eq-ok
          (raise_if (any (λ t. not (elem t layer_ids)) target_layer_ids)
            (value_error "target layers must exist in the tensor inventory"))
          _ h₂ in
      let (count, _, h₄) =
        >>=-eq-ok
          (one_count (dedup (map (λ (t : ExpertTensor). t.expert_count) (stored_tensors by_layer))))
          _ h₃ in
      let (_, _, h₅) =
        >>=-eq-ok
          (raise_if (any (λ e. differ (component_names e.1) component_order) by_layer)
            (value_error "every layer must contain the declared components"))
          _ h₄ in
      let (objects, built, h₆) =
        >>=-eq-ok
          (all_objects alignment matrix_row_padding component_order by_layer count layer_ids) _
          h₅ in
      let (placed, same) =
        all_objects-IsPlaced alignment matrix_row_padding component_order
          (check_arguments_lem checked) by_layer count layer_ids built in
      inventory_of-IsLaidOut layer_ids count objects placed same h₆
