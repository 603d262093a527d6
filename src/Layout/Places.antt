-- ===== src/Layout/Places.antt =====
-- src/expertflow/analysis/expert_layout.py: where the components of an expert stand in its slot.
use expertflow.Base.{
  ℕ, ◌+◌, ◌%◌, ◌/◌, ◌≤◌, ◌<◌, String, List, [], ◌∷◌, sum_by, ltb, ok, value_error, raise_if,
  >>=-eq-ok, ok-injective, ◌≡◌, refl, arith, Result,
}
use mathlib.Core.Path.{subst}
use expertflow.Layout.{
  ExpertTensor, ComponentSpan, ExpertObject, Components, align, component_of, row_padding_bytes,
  component_span, component_spans, expert_object,
}
use expertflow.Layout.Align.{align-IsLeast}

-- The spans stand one after another from `cursor` to `last`, each at the first multiple of the
-- alignment that is free.
abbrev pub Placed : ℕ → ℕ → List ComponentSpan → ℕ → Type 0
Placed alignment cursor [] last = cursor ≡ last
Placed alignment cursor (s ∷ spans) last =
    (cursor + s.slot_start_alignment_padding_bytes ≡ s.slot_start)
    × (s.slot_start_alignment_padding_bytes < alignment)
    × (s.slot_start % alignment ≡ 0)
    × (s.projected_allocation_bytes ≡ s.encoded_bytes + s.cuda_row_padding_bytes)
    × Placed alignment (s.slot_start + s.projected_allocation_bytes) spans last

-- What holds of every object of an inventory.
pub record IsPlaced (alignment : ℕ) (o : ExpertObject) : Type 0 where
  pub last : ℕ
  pub placed : Placed alignment 0 o.components last
  pub slot : last + o.slot_end_padding_bytes ≡ o.projected_slot_bytes
  pub padding : o.slot_end_padding_bytes < alignment
  pub multiple : o.projected_slot_bytes % alignment ≡ 0
  pub packed : o.encoded_packed_bytes ≡ sum_by (λ s. s.encoded_bytes) o.components
  pub fits : o.encoded_packed_bytes ≤ o.projected_slot_bytes

Placed-le :
    (alignment cursor last : ℕ) (spans : List ComponentSpan)
    → Placed alignment cursor spans last
    → cursor + sum_by (λ s. s.encoded_bytes) spans ≤ last
unfolding sum_by
Placed-le alignment cursor last [] h = omega arith
Placed-le alignment cursor last (s ∷ spans) h = omega (
  arith,
  h.0,
  h.3,
  Placed-le alignment (s.slot_start + s.projected_allocation_bytes) last spans h.4,
)

abbrev pub bounds_test : ExpertTensor → ComponentSpan → Result (Unit {0})
bounds_test tensor span =
    raise_if (ltb (tensor.data_offset + tensor.encoded_bytes) span.source_end)
      (value_error "expert source span exceeds tensor bounds")

component_span-Placed :
    (alignment : ℕ) (tensor : ExpertTensor) (expert_id padding cursor : ℕ) (name : String)
    (spans : List ComponentSpan) (last : ℕ)
    → 0 < alignment
    → Placed alignment
        (align cursor alignment + (tensor.encoded_bytes / tensor.expert_count + padding))
        spans
        last
    → Placed alignment cursor
        (component_span alignment tensor expert_id padding cursor name ∷ spans)
        last
unfolding component_span
component_span-Placed alignment tensor expert_id padding cursor name spans last p later =
    let (least, close, multiple) = align-IsLeast cursor alignment p in
    (omega (arith, least), omega (arith, close, least), multiple, refl, later)

module _ (alignment matrix_row_padding : ℕ) (p : 0 < alignment) (components : Components)
    (expert_id : ℕ) where
  component_spans-Placed :
      (names : List String) (cursor : ℕ) {r : ℕ × List ComponentSpan}
      → component_spans alignment matrix_row_padding components expert_id names cursor ≡ ok r
      → Placed alignment cursor r.1 r.0
  unfolding component_spans component_span
  component_spans-Placed [] cursor h =
      subst (λ r. Placed alignment cursor r.1 r.0) (ok-injective h) refl
  component_spans-Placed (name ∷ names) cursor h =
      let (tensor, _, h₁) = >>=-eq-ok (component_of name components) _ h in
      let (padding, _, h₂) = >>=-eq-ok (row_padding_bytes tensor matrix_row_padding) _ h₁ in
      let span = component_span alignment tensor expert_id padding cursor name in
      let (_, _, h₃) = >>=-eq-ok (bounds_test tensor span) _ h₂ in
      let (rest, later, h₄) =
        >>=-eq-ok
          (component_spans alignment matrix_row_padding components expert_id names
            (span.slot_start + span.projected_allocation_bytes))
          _ h₃ in
      subst (λ r. Placed alignment cursor r.1 r.0) (ok-injective h₄)
        (component_span-Placed alignment tensor expert_id padding cursor name rest.1 rest.0 p
          (component_spans-Placed names (span.slot_start + span.projected_allocation_bytes) later))

  pub expert_object-IsPlaced :
      (component_order : List String) (layer_id : ℕ) {o : ExpertObject}
      → expert_object alignment matrix_row_padding component_order layer_id components expert_id
        ≡ ok o
      → IsPlaced alignment o
  unfolding expert_object
  expert_object-IsPlaced component_order layer_id h =
      let ((cursor, spans), found, h₁) =
        >>=-eq-ok
          (component_spans alignment matrix_row_padding components expert_id component_order 0) _
          h in
      let (least, close, multiple) = align-IsLeast cursor alignment p in
      let placed = component_spans-Placed component_order 0 found in
      subst (IsPlaced alignment) (ok-injective h₁) (record {
        last = cursor;
        placed = placed;
        slot = omega (arith, least);
        padding = omega (arith, close, least);
        multiple = multiple;
        packed = refl;
        fits = omega (arith, least, Placed-le alignment 0 cursor spans placed);
      })
