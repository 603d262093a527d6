-- ===== src/Layout/Inventory.antt =====
-- src/expertflow/analysis/expert_layout.py: `build_expert_inventory` and the mapping of one tensor
-- row of a GGUF file.
use expertflow.Base.{
  ℕ, zero, suc, ◌*◌, max, min, Bool, not, ◌||◌, String, List, [], ◌∷◌, ◌++◌, map, length, any, keep,
  sum_by, leb, ◌==◌, Result, ok, err, value_error, raise_if, ◌>>=◌, ◌>>◌,
}
use expertflow.Base.Dict
use expertflow.Base.Dict.{Dict}
use expertflow.Base.Distinct.{elem, dedup}
use expertflow.Base.Sort.{sort_by}
use expertflow.Layout.{
  ExpertTensor, ExpertObject, Components, component_names, repeats, differ, group_layers,
  expert_object,
}

-- an entry of `layers`
pub record LayerSummary : Type 0 where
  pub layer_id : ℕ
  pub expert_count : ℕ
  pub encoded_bytes : ℕ
  pub projected_slot_bytes : ℕ
  pub projected_all_experts_bytes : ℕ

-- the entry `projection`
pub record Projection : Type 0 where
  pub target_layer_ids : List ℕ
  pub target_layer_count : ℕ
  pub capacity_per_layer : ℕ
  pub slot_count : ℕ
  pub slot_bytes : ℕ

-- the dictionary that `build_expert_inventory` returns
pub record Inventory : Type 0 where
  pub alignment_bytes : ℕ
  pub matrix_row_padding_elements : ℕ
  pub component_order : List String
  pub layer_ids : List ℕ
  pub layer_count : ℕ
  pub expert_count_per_layer : ℕ
  pub object_count : ℕ
  pub all_objects_same_encoded_bytes : Bool
  pub all_objects_same_projected_slot_bytes : Bool
  pub encoded_object_bytes_min : ℕ
  pub encoded_object_bytes_max : ℕ
  pub projected_slot_bytes_min : ℕ
  pub projected_slot_bytes_max : ℕ
  pub projection : Projection
  pub projected_cache_bytes : ℕ
  pub tensor_inventory : List ExpertTensor
  pub layers : List LayerSummary
  pub objects : List ExpertObject

-- `max(xs)` and `min(xs)`, which raise `ValueError` on nothing
unfoldable pub maximum : List ℕ → ℕ
maximum [] = 0
maximum (x ∷ xs) = max x (maximum xs)

unfoldable pub least : ℕ → List ℕ → ℕ
least x [] = x
least x (y ∷ ys) = least (min x y) ys

unfoldable pub minimum : List ℕ → Result ℕ
unfolding least
minimum [] = err (value_error "min() arg is an empty sequence")
minimum (x ∷ xs) = ok (least x xs)

-- the loop over `range(expert_count)`, from `expert_id`
unfoldable pub layer_objects :
    ℕ → ℕ → List String → ℕ → Components → ℕ → ℕ → Result (List ExpertObject)
layer_objects alignment matrix_row_padding component_order layer_id components expert_id zero =
    ok []
layer_objects alignment matrix_row_padding component_order layer_id components expert_id
      (suc count) =
    do
      object ←
          expert_object alignment matrix_row_padding component_order layer_id components expert_id
      rest ←
          layer_objects alignment matrix_row_padding component_order layer_id components
            (suc expert_id) count
      ok (object ∷ rest)

-- the loop over `layer_ids`
unfoldable pub all_objects :
    ℕ → ℕ → List String → Dict Components → ℕ → List ℕ → Result (List ExpertObject)
all_objects alignment matrix_row_padding component_order by_layer expert_count [] = ok []
all_objects alignment matrix_row_padding component_order by_layer expert_count
      (layer_id ∷ layer_ids) =
    do
      objects ←
          layer_objects alignment matrix_row_padding component_order layer_id
            (Dict.get_or [] layer_id by_layer) 0 expert_count
      rest ←
          all_objects alignment matrix_row_padding component_order by_layer expert_count layer_ids
      ok (objects ++ rest)

-- `tensor for components in by_layer.values() for tensor in components.values()`
unfoldable pub stored_tensors : Dict Components → List ExpertTensor
stored_tensors [] = []
stored_tensors ((layer_id, components) ∷ by_layer) =
    map (λ e. e.1) components ++ stored_tensors by_layer

-- `expert_counts`, of which there must be one
unfoldable pub one_count : List ℕ → Result ℕ
one_count (count ∷ []) = ok count
one_count _ = err (value_error "all expert tensors must use one expert count")

-- an entry of `layers`
unfoldable pub layer_summary : ℕ → ℕ → List ExpertObject → ℕ → LayerSummary
layer_summary slot_bytes expert_count objects layer_id = record {
  layer_id = layer_id;
  expert_count = expert_count;
  encoded_bytes = sum_by (λ o. o.encoded_packed_bytes) (keep (λ o. o.layer_id == layer_id) objects);
  projected_slot_bytes = slot_bytes;
  projected_all_experts_bytes = slot_bytes * expert_count;
}

-- the tests on the arguments, before the tensors are read
unfoldable pub check_arguments :
    List ExpertTensor → ℕ → ℕ → List String → List ℕ → ℕ → Result (Unit {0})
check_arguments source alignment matrix_row_padding component_order target_layer_ids capacity = do
  raise_if (length source == 0) (value_error "tensors must not be empty")
  raise_if (alignment == 0 || matrix_row_padding == 0 || capacity == 0)
      (value_error "alignment, row padding, and capacity must be positive")
  raise_if (length component_order == 0 || repeats component_order)
      (value_error "component_order must contain unique values")
  raise_if
      (length target_layer_ids == 0
        || not (length (dedup target_layer_ids) == length target_layer_ids))
      (value_error "target_layer_ids must contain unique values")

-- the dictionary over the finished objects
unfoldable pub inventory_of :
    List ExpertTensor
    → ℕ
    → ℕ
    → List String
    → List ℕ
    → ℕ
    → List ℕ
    → ℕ
    → List ExpertObject
    → Result Inventory
inventory_of source alignment matrix_row_padding component_order target_layer_ids capacity layer_ids
      expert_count objects =
    do
      let encoded_sizes = map (λ o. o.encoded_packed_bytes) objects
      let slot_sizes = map (λ o. o.projected_slot_bytes) objects
      encoded_min ← minimum encoded_sizes
      slot_min ← minimum slot_sizes
      let slot_bytes = maximum slot_sizes
      ok (record {
        alignment_bytes = alignment;
        matrix_row_padding_elements = matrix_row_padding;
        component_order = component_order;
        layer_ids = layer_ids;
        layer_count = length layer_ids;
        expert_count_per_layer = expert_count;
        object_count = length objects;
        all_objects_same_encoded_bytes = length (dedup encoded_sizes) == 1;
        all_objects_same_projected_slot_bytes = length (dedup slot_sizes) == 1;
        encoded_object_bytes_min = encoded_min;
        encoded_object_bytes_max = maximum encoded_sizes;
        projected_slot_bytes_min = slot_min;
        projected_slot_bytes_max = slot_bytes;
        projection = record {
          target_layer_ids = target_layer_ids;
          target_layer_count = length target_layer_ids;
          capacity_per_layer = capacity;
          slot_count = length target_layer_ids * capacity;
          slot_bytes = slot_bytes;
        };
        projected_cache_bytes = slot_bytes * length target_layer_ids * capacity;
        tensor_inventory = source;
        layers = map (layer_summary slot_bytes expert_count objects) layer_ids;
        objects = objects;
      })

-- `build_expert_inventory`
unfoldable pub build_expert_inventory :
    List ExpertTensor → ℕ → ℕ → List String → List ℕ → ℕ → Result Inventory
build_expert_inventory source alignment matrix_row_padding component_order target_layer_ids
      capacity =
    do
      check_arguments source alignment matrix_row_padding component_order target_layer_ids capacity
      by_layer ← group_layers source []
      let layer_ids = sort_by leb (Dict.keys by_layer)
      raise_if (any (λ t. not (elem t layer_ids)) target_layer_ids)
          (value_error "target layers must exist in the tensor inventory")
      expert_count ←
          one_count (dedup (map (λ (t : ExpertTensor). t.expert_count) (stored_tensors by_layer)))
      raise_if (any (λ e. differ (component_names e.1) component_order) by_layer)
          (value_error "every layer must contain the declared components")
      objects ←
          all_objects alignment matrix_row_padding component_order by_layer expert_count layer_ids
      inventory_of source alignment matrix_row_padding component_order target_layer_ids capacity
          layer_ids expert_count objects
