-- ===== src/Layout/Metadata.antt =====
-- src/expertflow/analysis/expert_layout.py: one row of the GGUF tensor table as an expert tensor. The
-- match against `_EXPERT_TENSOR_NAME` is the argument `fullmatch`, which gives the number of the
-- layer and the group `name`.
use expertflow.Base.{
  ℕ, suc, ◌+◌, ◌-◌, ◌*◌, ◌%◌, ◌<◌, not, ◌||◌, String, str_eq, Option, none, some, List, [], ◌∷◌,
  length, ◌==◌, if◌then◌else◌, Bool, true, false, Bool-cases, ◌≢◌, eq_of_==, ne_of_==, inl, inr,
  ◌⊎◌, ◌/◌, Result, ok, err, value_error, raise_if, ◌>>=◌, ◌>>◌, ◌≡◌, refl, arith, >>=-eq-ok,
  ok-injective,
}
use mathlib.Core.Path.{subst}
use native.Mathlib.Nat.{add-zero, mod-lt, mod-add-div, mul-mod_right}
use expertflow.Layout.{ExpertTensor, row_padding_bytes, row_padding, block_padding}

-- `shape[0]` and `shape[-1]` of a shape that is not empty
unfoldable pub first_of : List ℕ → ℕ
first_of [] = 0
first_of (x ∷ shape) = x

unfoldable pub last_of : List ℕ → ℕ
last_of [] = 0
last_of (x ∷ []) = x
last_of (x ∷ y ∷ shape) = last_of (y ∷ shape)

-- the branch for a scale tensor
unfoldable pub scale_tensor : ℕ → String → List ℕ → String → ℕ → ℕ → Result ExpertTensor
scale_tensor layer name shape tensor_type encoded_bytes data_offset = do
  raise_if (not (str_eq tensor_type "F32") || not (length shape == 1))
      (value_error "expert scale tensor must be one-dimensional F32")
  ok (record {
    layer_id = layer;
    component = "down_scale";
    tensor_name = name;
    tensor_type = tensor_type;
    shape = shape;
    expert_count = first_of shape;
    encoded_bytes = encoded_bytes;
    data_offset = data_offset;
    ne0 = 1;
    quant_block_elements = none;
    quant_block_bytes = none;
  })

-- the branch for a weight tensor
unfoldable pub weight_tensor : ℕ → String → String → List ℕ → String → ℕ → ℕ → Result ExpertTensor
weight_tensor layer suffix name shape tensor_type encoded_bytes data_offset = do
  raise_if (not (str_eq tensor_type "Q4_0") || not (length shape == 3))
      (value_error "expert weight tensors must be three-dimensional Q4_0")
  ok (record {
    layer_id = layer;
    component = if str_eq suffix "ffn_down_exps.weight" then "down_weight" else "gate_up_weight";
    tensor_name = name;
    tensor_type = tensor_type;
    shape = shape;
    expert_count = last_of shape;
    encoded_bytes = encoded_bytes;
    data_offset = data_offset;
    ne0 = first_of shape;
    quant_block_elements = some 32;
    quant_block_bytes = some 18;
  })

-- `expert_tensor_from_gguf_metadata`, after the match
unfoldable pub matched_tensor :
    Option (ℕ × String) → String → List ℕ → String → ℕ → ℕ → Result (Option ExpertTensor)
matched_tensor none name shape tensor_type encoded_bytes data_offset = ok none
matched_tensor (some (layer, suffix)) name shape tensor_type encoded_bytes data_offset = do
  tensor ←
      (if str_eq suffix "ffn_down_exps.scale"
        then scale_tensor layer name shape tensor_type encoded_bytes data_offset
        else weight_tensor layer suffix name shape tensor_type encoded_bytes data_offset)
  ok (some tensor)

-- `expert_tensor_from_gguf_metadata`
unfoldable pub expert_tensor_from_gguf_metadata :
    (String → Option (ℕ × String)) → String → List ℕ → String → ℕ → ℕ → Result (Option ExpertTensor)
expert_tensor_from_gguf_metadata fullmatch name = matched_tensor (fullmatch name) name

-- The padding of a tensor's rows is defined: it is that of fewer than `m` elements, in blocks of 32
-- elements and 18 bytes, and it fills the rows of a quantized tensor up to a multiple of `m`.
abbrev pub IsPadded : ℕ → ExpertTensor → Type 0
IsPadded m tensor =
    (padding : ℕ) × (elements : ℕ) × (row_padding_bytes tensor m ≡ ok padding)
    × (padding * 32 ≡ elements * 18)
    × (elements < m)
    × ((tensor.quant_block_bytes ≡ none) ⊎ ((tensor.ne0 + elements) % m ≡ 0))

filled_row : (ne0 m : ℕ) → 0 < m → (ne0 + (m - ne0 % m)) % m ≡ 0
filled_row ne0 m p =
    let below = mod-lt ne0 p in
    let whole = mod-add-div ne0 m in
    let e : ne0 + (m - ne0 % m) ≡ m * suc (ne0 / m) = omega (arith, below, whole) in
    rw e (mul-mod_right m (suc (ne0 / m)))

block_padding_lem :
    (ne0 k : ℕ)
    → ne0 % 32 ≡ 0
    → 0 < k
    → (padding : ℕ) × (elements : ℕ) × (block_padding ne0 32 18 (32 * k) ≡ ok padding)
      × (padding * 32 ≡ elements * 18)
      × (elements < 32 * k)
      × ((ne0 + elements) % (32 * k) ≡ 0)
unfolding block_padding
block_padding_lem ne0 k whole p = elim (Bool-cases (ne0 % (32 * k) == 0)) [
  | inl e ↦ (0, 0, rw e refl, refl, omega (arith, p), rw (add-zero) (eq_of_== _ 0 e))
  | inr e ↦
      let elements = 32 * k - ne0 % (32 * k) in
      let wide : 0 < 32 * k = omega (arith, p) in
      let blocks : elements % 32 ≡ 0 =
        omega (arith, whole, mod-add-div ne0 (32 * k), mod-lt ne0 wide) in
      let some_left = ne_of_== _ 0 e in
      (
        elements / 32 * 18,
        elements,
        rw (e, blocks) refl,
        omega (arith, blocks),
        positive_sub (32 * k) (ne0 % (32 * k)) some_left (omega (arith, p)),
        filled_row ne0 (32 * k) (omega (arith, p)),
      )
]
  where
    positive_sub : (m r : ℕ) → r ≢ 0 → 0 < m → m - r < m
    positive_sub m r h p = omega arith

block_padding-IsPadded :
    (tensor : ExpertTensor) (k : ℕ)
    → tensor.quant_block_elements ≡ some 32
    → tensor.quant_block_bytes ≡ some 18
    → tensor.ne0 % 32 ≡ 0
    → 0 < k
    → IsPadded (32 * k) tensor
unfolding row_padding_bytes row_padding
block_padding-IsPadded tensor k blocks bytes whole p =
    let (padding, elements, found, ratio, less, filled) = block_padding_lem tensor.ne0 k whole p in
    rw (blocks, bytes) (padding, elements, found, ratio, less, inr filled)

scale_tensor-IsPadded :
    (layer : ℕ) (name : String) (shape : List ℕ) (tensor_type : String) (encoded_bytes offset k : ℕ)
    {tensor : ExpertTensor}
    → 0 < k
    → scale_tensor layer name shape tensor_type encoded_bytes offset ≡ ok tensor
    → IsPadded (32 * k) tensor
unfolding scale_tensor row_padding_bytes row_padding
scale_tensor-IsPadded layer name shape tensor_type encoded_bytes offset k p h =
    let (_, _, h₁) =
      >>=-eq-ok
        (raise_if (not (str_eq tensor_type "F32") || not (length shape == 1))
          (value_error "expert scale tensor must be one-dimensional F32"))
        _ h in
    subst (IsPadded (32 * k)) (ok-injective h₁) (0, 0, refl, refl, omega (arith, p), inl refl)

weight_tensor-IsPadded :
    (layer : ℕ) (suffix name : String) (shape : List ℕ) (tensor_type : String)
    (encoded_bytes offset k : ℕ) {tensor : ExpertTensor}
    → first_of shape % 32 ≡ 0
    → 0 < k
    → weight_tensor layer suffix name shape tensor_type encoded_bytes offset ≡ ok tensor
    → IsPadded (32 * k) tensor
unfolding weight_tensor
weight_tensor-IsPadded layer suffix name shape tensor_type encoded_bytes offset k whole p h =
    let (_, _, h₁) =
      >>=-eq-ok
        (raise_if (not (str_eq tensor_type "Q4_0") || not (length shape == 3))
          (value_error "expert weight tensors must be three-dimensional Q4_0"))
        _ h in
    subst (IsPadded (32 * k)) (ok-injective h₁) (block_padding-IsPadded _ k refl refl whole p)

either_branch :
    (m : ℕ) (is_scale : Bool) (scale weight : Result ExpertTensor) {tensor : ExpertTensor}
    → ((t : ExpertTensor) → scale ≡ ok t → IsPadded m t)
    → ((t : ExpertTensor) → weight ≡ ok t → IsPadded m t)
    → ((if is_scale then scale else weight) >>= λ t. ok (some t)) ≡ ok (some tensor)
    → IsPadded m tensor
either_branch m true (ok t) weight f g h = subst (IsPadded m) (cc) (f t refl)
either_branch m true (err e) weight f g h = absurd (cc)
either_branch m false scale (ok t) f g h = subst (IsPadded m) (cc) (g t refl)
either_branch m false scale (err e) f g h = absurd (cc)

-- With a padding that is a positive multiple of 32 elements and a first dimension that is a multiple
-- of 32, every tensor that is made from the metadata has a row padding: the tests on its block
-- metadata and on the alignment of the padding do not fail. The padding has 18 bytes for every 32
-- of the elements that are added, which fill the row of a weight tensor up to a multiple.
pub expert_tensor_from_gguf_metadata-IsPadded :
    (fullmatch : String → Option (ℕ × String)) (name : String) (shape : List ℕ)
    (tensor_type : String) (encoded_bytes offset k : ℕ) {tensor : ExpertTensor}
    → first_of shape % 32 ≡ 0
    → 0 < k
    → expert_tensor_from_gguf_metadata fullmatch name shape tensor_type encoded_bytes offset
      ≡ ok (some tensor)
    → IsPadded (32 * k) tensor
unfolding expert_tensor_from_gguf_metadata matched_tensor
expert_tensor_from_gguf_metadata-IsPadded fullmatch name shape tensor_type encoded_bytes offset k
      whole p h =
    of_match (fullmatch name) h
  where
    of_match :
        (m : Option (ℕ × String)) {tensor : ExpertTensor}
        → matched_tensor m name shape tensor_type encoded_bytes offset ≡ ok (some tensor)
        → IsPadded (32 * k) tensor
    of_match (some (layer, suffix)) q =
        either_branch (32 * k) (str_eq suffix "ffn_down_exps.scale")
          (scale_tensor layer name shape tensor_type encoded_bytes offset)
          (weight_tensor layer suffix name shape tensor_type encoded_bytes offset)
          (λ t e. scale_tensor-IsPadded layer name shape tensor_type encoded_bytes offset k p e)
          (λ t e.
            weight_tensor-IsPadded layer suffix name shape tensor_type encoded_bytes offset k whole
              p e)
          q
    of_match none q = cc
