-- ===== src/Layout.antt =====
-- src/expertflow/analysis/expert_layout.py: the spans of every expert in its tensors and in a
-- projected CUDA slot. Sizes, offsets and ids are natural numbers, so that a test for a negative
-- number has no counterpart and `x <= 0` is `x == 0`. The match of a tensor's name against
-- `_EXPERT_TENSOR_NAME` is the argument `fullmatch`: the number of the layer and the group `name`.
pub mod Inventory
pub mod Align
pub mod Places
pub mod Sources
pub mod Objects
pub mod Build
pub mod Metadata
use expertflow.Base.{
  ℕ, zero, suc, ◌+◌, ◌-◌, ◌*◌, ◌/◌, ◌%◌, max, min, Bool, true, false, not, ◌||◌, String, str_eq,
  Option, none, some, List, [], ◌∷◌, ◌++◌, map, length, any, sum_by, ltb, leb, ◌==◌, if◌then◌else◌,
  Result, ok, err, value_error, key_error, raise_if, ◌>>=◌, ◌>>◌,
}
use expertflow.Base.Dict
use expertflow.Base.Dict.{Dict}
use expertflow.Base.Distinct.{elem, dedup}
use expertflow.Base.Sort.{sort_by}

-- `ExpertTensor`
pub record ExpertTensor : Type 0 where
  pub layer_id : ℕ
  pub component : String
  pub tensor_name : String
  pub tensor_type : String
  pub shape : List ℕ
  pub expert_count : ℕ
  pub encoded_bytes : ℕ
  pub data_offset : ℕ
  pub ne0 : ℕ
  pub quant_block_elements : Option ℕ
  pub quant_block_bytes : Option ℕ

-- the entry of `components` for one tensor and one expert
pub record ComponentSpan : Type 0 where
  pub component : String
  pub tensor_name : String
  pub tensor_type : String
  pub shape : List ℕ
  pub source_start : ℕ
  pub source_end : ℕ
  pub encoded_bytes : ℕ
  pub cuda_row_padding_bytes : ℕ
  pub projected_allocation_bytes : ℕ
  pub slot_start : ℕ
  pub slot_start_alignment_padding_bytes : ℕ

-- the entry of `objects` for one expert
pub record ExpertObject : Type 0 where
  pub layer_id : ℕ
  pub expert_id : ℕ
  pub encoded_packed_bytes : ℕ
  pub projected_slot_bytes : ℕ
  pub slot_end_padding_bytes : ℕ
  pub components : List ComponentSpan

-- `_align`
unfoldable pub align : ℕ → ℕ → ℕ
align value alignment = (value + alignment - 1) / alignment * alignment

-- the padding of a row, after the tests on the block metadata
unfoldable pub block_padding : ℕ → ℕ → ℕ → ℕ → Result ℕ
block_padding ne0 elements bytes matrix_row_padding =
    let remainder = ne0 % matrix_row_padding in
    let padding_elements = matrix_row_padding - remainder in
    if remainder == 0 then ok 0 else do
      raise_if (not (padding_elements % elements == 0))
          (value_error "matrix row padding must align to quantization blocks")
      ok (padding_elements / elements * bytes)

-- `_row_padding_bytes`, behind the fields of the tensor
unfoldable pub row_padding : ℕ → Option ℕ → Option ℕ → ℕ → Result ℕ
row_padding ne0 none none matrix_row_padding = ok 0
row_padding ne0 (some elements) (some bytes) matrix_row_padding = do
  raise_if (elements == 0 || bytes == 0)
      (value_error "quantization block metadata must be positive")
  block_padding ne0 elements bytes matrix_row_padding
row_padding ne0 _ _ matrix_row_padding =
    err (value_error "quantization block metadata must be complete")

-- `_row_padding_bytes`
unfoldable pub row_padding_bytes : ExpertTensor → ℕ → Result ℕ
row_padding_bytes tensor matrix_row_padding =
    row_padding tensor.ne0 tensor.quant_block_elements tensor.quant_block_bytes matrix_row_padding

-- The components of a layer, by name, in insertion order.
abbrev pub Components : Type 0
Components = List (String × ExpertTensor)

-- `name in names`
unfoldable pub named : String → List String → Bool
named name [] = false
named name (x ∷ names) = if str_eq x name then true else named name names

abbrev pub component_names : Components → List String
component_names = map (λ e. e.0)

-- `components[name]`
unfoldable pub component_of : String → Components → Result ExpertTensor
component_of name [] = err key_error
component_of name ((x, tensor) ∷ components) =
    if str_eq x name then ok tensor else component_of name components

-- `len(set(names)) != len(names)`
unfoldable pub repeats : List String → Bool
repeats [] = false
repeats (x ∷ names) = if named x names then true else repeats names

-- `set(names) != set(required)`
unfoldable pub differ : List String → List String → Bool
differ names required =
    any (λ x. not (named x required)) names || any (λ x. not (named x names)) required

-- the loop that checks the tensors and fills `by_layer`
unfoldable pub group_layers : List ExpertTensor → Dict Components → Result (Dict Components)
group_layers [] by_layer = ok by_layer
group_layers (tensor ∷ source) by_layer = do
  raise_if (tensor.expert_count == 0) (value_error "layer IDs and expert counts must be valid")
  raise_if (tensor.encoded_bytes == 0 || tensor.ne0 == 0)
      (value_error "tensor byte ranges and ne0 must be valid")
  raise_if (not (tensor.encoded_bytes % tensor.expert_count == 0))
      (value_error "tensor encoded bytes must be divisible by experts")
  let layer = Dict.get_or [] tensor.layer_id by_layer
  raise_if (named tensor.component (component_names layer))
      (value_error "layer component values must be unique")
  group_layers source
      (Dict.insert tensor.layer_id (layer ++ (tensor.component, tensor) ∷ []) by_layer)

-- the entry that the loop over `component_order` appends
unfoldable pub component_span : ℕ → ExpertTensor → ℕ → ℕ → ℕ → String → ComponentSpan
unfolding align
component_span alignment tensor expert_id padding cursor name =
    let encoded = tensor.encoded_bytes / tensor.expert_count in
    let source_start = tensor.data_offset + expert_id * encoded in
    record {
      component = name;
      tensor_name = tensor.tensor_name;
      tensor_type = tensor.tensor_type;
      shape = tensor.shape;
      source_start = source_start;
      source_end = source_start + encoded;
      encoded_bytes = encoded;
      cuda_row_padding_bytes = padding;
      projected_allocation_bytes = encoded + padding;
      slot_start = align cursor alignment;
      slot_start_alignment_padding_bytes = align cursor alignment - cursor;
    }

-- the loop over `component_order`, from `cursor`: the last cursor and the entries
unfoldable pub component_spans :
    ℕ → ℕ → Components → ℕ → List String → ℕ → Result (ℕ × List ComponentSpan)
component_spans alignment matrix_row_padding components expert_id [] cursor = ok (cursor, [])
component_spans alignment matrix_row_padding components expert_id (name ∷ names) cursor = do
  tensor ← component_of name components
  padding ← row_padding_bytes tensor matrix_row_padding
  let span = component_span alignment tensor expert_id padding cursor name
  raise_if (ltb (tensor.data_offset + tensor.encoded_bytes) span.source_end)
      (value_error "expert source span exceeds tensor bounds")
  (last, spans) ←
      component_spans alignment matrix_row_padding components expert_id names
        (span.slot_start + span.projected_allocation_bytes)
  ok (last, span ∷ spans)

-- one round of the loop over the experts of a layer; `encoded_total` sums the entries' bytes
unfoldable pub expert_object : ℕ → ℕ → List String → ℕ → Components → ℕ → Result ExpertObject
expert_object alignment matrix_row_padding component_order layer_id components expert_id = do
  (cursor, spans) ←
      component_spans alignment matrix_row_padding components expert_id component_order 0
  ok (record {
    layer_id = layer_id;
    expert_id = expert_id;
    encoded_packed_bytes = sum_by (λ s. s.encoded_bytes) spans;
    projected_slot_bytes = align cursor alignment;
    slot_end_padding_bytes = align cursor alignment - cursor;
    components = spans;
  })
