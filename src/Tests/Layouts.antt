-- ===== src/Tests/Layouts.antt =====
-- The layout of two tensors with two experts.
use expertflow.Base.{
  ◌%◌, ◌+◌, ◌<◌, ◌≤◌, ◌*◌, ℕ, Bool, String, str_eq, Option, none, some, List, [], ◌∷◌, any, keep,
  sum_by, ok, err, value_error, ◌≡◌, refl, arith,
}
use expertflow.Base.Dict
use expertflow.Base.Distinct.{elem, dedup}
use expertflow.Base.Sort.{insert_by, sort_by}
use expertflow.Layout.{
  ExpertTensor, ExpertObject, Components, align, block_padding, row_padding, row_padding_bytes,
  named, component_of, repeats, differ, group_layers, component_span, component_spans,
  expert_object,
}
use expertflow.Layout.Align.{align-IsLeast}
use expertflow.Layout.Sources.{Before, expert_object-Before}
use expertflow.Layout.Inventory.{
  Inventory, maximum, least, minimum, layer_objects, all_objects, stored_tensors, one_count,
  layer_summary, check_arguments, inventory_of, build_expert_inventory,
}
use expertflow.Layout.Objects.{IsLaidOut}
use expertflow.Layout.Build.{build_expert_inventory-IsLaidOut}
use expertflow.Layout.Metadata.{
  first_of, last_of, scale_tensor, weight_tensor, matched_tensor, expert_tensor_from_gguf_metadata,
  IsPadded, expert_tensor_from_gguf_metadata-IsPadded,
}

layout_program : Unit {0}
unfolding any keep sum_by elem dedup Dict.get_or Dict.insert insert_by sort_by align block_padding
    row_padding row_padding_bytes named component_of repeats differ group_layers component_span
    component_spans expert_object maximum least minimum layer_objects all_objects stored_tensors
    one_count layer_summary check_arguments inventory_of build_expert_inventory first_of last_of
    scale_tensor weight_tensor matched_tensor expert_tensor_from_gguf_metadata
layout_program = tt

abbrev down : ExpertTensor
down = record {
  layer_id = 3;
  component = "down_weight";
  tensor_name = "blk.3.ffn_down_exps.weight";
  tensor_type = "Q4_0";
  shape = 64 ∷ 1 ∷ 2 ∷ [];
  expert_count = 2;
  encoded_bytes = 72;
  data_offset = 1000;
  ne0 = 64;
  quant_block_elements = some 32;
  quant_block_bytes = some 18;
}

abbrev scale : ExpertTensor
scale = record {
  layer_id = 3;
  component = "down_scale";
  tensor_name = "blk.3.ffn_down_exps.scale";
  tensor_type = "F32";
  shape = 2 ∷ [];
  expert_count = 2;
  encoded_bytes = 8;
  data_offset = 2000;
  ne0 = 1;
  quant_block_elements = none;
  quant_block_bytes = none;
}

abbrev order : List String
order = "down_weight" ∷ "down_scale" ∷ []

abbrev tensors : List ExpertTensor
tensors = down ∷ scale ∷ []

abbrev layer : Components
layer = ("down_weight", down) ∷ ("down_scale", scale) ∷ []

matched : String → Option (ℕ × String)
matched name = if_weight (str_eq name "blk.3.ffn_down_exps.weight")
  where
    if_weight : Bool → Option (ℕ × String)
    if_weight Bool.true = some (3, "ffn_down_exps.weight")
    if_weight Bool.false = none

down_read :
    expert_tensor_from_gguf_metadata matched "blk.3.ffn_down_exps.weight"
      (64 ∷ 1 ∷ 2 ∷ [])
      "Q4_0"
      72
      1000
    ≡ ok (some down)
unfolding layout_program matched
down_read = refl

expert_tensor_from_gguf_metadata-IsPadded_example : IsPadded (32 * 16) down
expert_tensor_from_gguf_metadata-IsPadded_example =
    expert_tensor_from_gguf_metadata-IsPadded matched "blk.3.ffn_down_exps.weight" (64 ∷ 1 ∷ 2 ∷ [])
      "Q4_0" 72 1000 16 (unfold first_of in refl) (omega arith) down_read

align-IsLeast_example :
    (288 ≤ align 288 128) × (align 288 128 < 288 + 128) × (align 288 128 % 128 ≡ 0)
align-IsLeast_example = align-IsLeast 288 128 (omega arith)

padded : row_padding_bytes down 512 ≡ ok 252
unfolding layout_program
padded = refl

-- An unknown target layer is refused.
unknown_layer :
    build_expert_inventory tensors 128 512 order (4 ∷ []) 32
    ≡ err (value_error "target layers must exist in the tensor inventory")
unfolding layout_program
unknown_layer = refl

slot_size :
    (o : ExpertObject) × (expert_object 128 512 order 3 layer 1 ≡ ok o)
    × (o.projected_slot_bytes ≡ 512)
unfolding layout_program
slot_size = (_, refl, refl)

first_object : (o : ExpertObject) × (expert_object 128 512 order 3 layer 0 ≡ ok o)
unfolding layout_program
first_object = (_, refl)

second_object : (o : ExpertObject) × (expert_object 128 512 order 3 layer 1 ≡ ok o)
unfolding layout_program
second_object = (_, refl)

expert_object-Before_example : Before first_object.0.components second_object.0.components
expert_object-Before_example =
    expert_object-Before 128 512 order 3 layer 0 1 (omega arith) first_object.1 second_object.1

inventory : (i : Inventory) × (build_expert_inventory tensors 128 512 order (3 ∷ []) 32 ≡ ok i)
unfolding layout_program
inventory = (_, refl)

build_expert_inventory-IsLaidOut_example : IsLaidOut inventory.0
build_expert_inventory-IsLaidOut_example =
    build_expert_inventory-IsLaidOut tensors 128 512 order (3 ∷ []) 32 inventory.1
