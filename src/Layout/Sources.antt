-- ===== src/Layout/Sources.antt =====
-- src/expertflow/analysis/expert_layout.py: where the bytes of an expert stand in its tensors.
use expertflow.Base.{
  sym, ℕ, suc, ◌+◌, ◌/◌, ◌≤◌, ◌<◌, String, List, [], ◌∷◌, ok, ◌∙◌, sym, >>=-eq-ok, ok-injective,
  ◌≡◌, refl, arith,
}
use mathlib.Core.Path.{subst}
use native.Mathlib.Nat.{mul-le-mul_right}
use expertflow.Layout.{
  ExpertTensor, ComponentSpan, ExpertObject, Components, component_of, row_padding_bytes,
  component_span, component_spans, expert_object,
}
use expertflow.Layout.Places.{bounds_test}

-- The first list's spans end before the second list's spans of the same tensors begin.
abbrev pub Before : List ComponentSpan → List ComponentSpan → Type 0
Before [] [] = Unit
Before (s ∷ spans) (t ∷ others) =
    (s.tensor_name ≡ t.tensor_name) × (s.source_end ≤ t.source_start) × Before spans others
Before _ _ = ⊥

-- An expert's span in a tensor ends where or before the span of a later expert begins.
component_span-Before :
    (alignment : ℕ) (tensor : ExpertTensor) (i j padding other cursor place : ℕ) (name : String)
    → i < j
    → (component_span alignment tensor i padding cursor name).source_end
      ≤ (component_span alignment tensor j other place name).source_start
unfolding component_span
component_span-Before alignment tensor i j padding other cursor place name h =
    omega
      (arith, mul-le-mul_right {m = suc i} {n = j} (tensor.encoded_bytes / tensor.expert_count) h)

Before-cons :
    (alignment i j padding other cursor place : ℕ) (name : String) (tensor same : ExpertTensor)
    (spans others : List ComponentSpan)
    → i < j
    → tensor ≡ same
    → Before spans others
    → Before
        (component_span alignment tensor i padding cursor name ∷ spans)
        (component_span alignment same j other place name ∷ others)
Before-cons alignment i j padding other cursor place name tensor same spans others p e rest =
    subst
      (λ t.
        Before (component_span alignment tensor i padding cursor name ∷ spans)
          (component_span alignment t j other place name ∷ others))
      e
      (
        unfold component_span in refl,
        component_span-Before alignment tensor i j padding other cursor place name p,
        rest,
      )

-- Two experts of one layer: their components, one by one.
component_spans-Before :
    (alignment matrix_row_padding : ℕ) (components : Components) (i j : ℕ)
    → i < j
    → (names : List String) (cursor place : ℕ) {r t : ℕ × List ComponentSpan}
    → component_spans alignment matrix_row_padding components i names cursor ≡ ok r
    → component_spans alignment matrix_row_padding components j names place ≡ ok t
    → Before r.1 t.1
unfolding component_spans
component_spans-Before alignment matrix_row_padding components i j p [] cursor place {r} {t} h k =
    subst (λ r. Before r.1 t.1) (ok-injective h) (subst (λ t. Before [] t.1) (ok-injective k) tt)
component_spans-Before alignment matrix_row_padding components i j p (name ∷ names) cursor place {r}
      {t} h k =
    let (tensor, found, h₁) = >>=-eq-ok (component_of name components) _ h in
    let (padding, _, h₂) = >>=-eq-ok (row_padding_bytes tensor matrix_row_padding) _ h₁ in
    let span = component_span alignment tensor i padding cursor name in
    let (_, _, h₃) = >>=-eq-ok (bounds_test tensor span) _ h₂ in
    let (spans, later, h₄) =
      >>=-eq-ok
        (component_spans alignment matrix_row_padding components i names
          (span.slot_start + span.projected_allocation_bytes))
        _ h₃ in
    let (tensor', found', k₁) = >>=-eq-ok (component_of name components) _ k in
    let (padding', _, k₂) = >>=-eq-ok (row_padding_bytes tensor' matrix_row_padding) _ k₁ in
    let span' = component_span alignment tensor' j padding' place name in
    let (_, _, k₃) = >>=-eq-ok (bounds_test tensor' span') _ k₂ in
    let (spans', later', k₄) =
      >>=-eq-ok
        (component_spans alignment matrix_row_padding components j names
          (span'.slot_start + span'.projected_allocation_bytes))
        _ k₃ in
    let rest =
      component_spans-Before alignment matrix_row_padding components i j p names
        (span.slot_start + span.projected_allocation_bytes)
        (span'.slot_start + span'.projected_allocation_bytes) later later' in
    let same : tensor ≡ tensor' = ok-injective (sym found ∙ found') in
    subst (λ r. Before r.1 t.1) (ok-injective h₄)
      (subst (λ t. Before (span ∷ spans.1) t.1) (ok-injective k₄)
        (Before-cons alignment i j padding padding' cursor place name tensor tensor' spans.1
          spans'.1 p same rest))

-- Whatever the place of the experts in their slots, the bytes that one expert of a layer has in a
-- tensor end where or before those of a later expert begin, for every component in turn.
pub expert_object-Before :
    (alignment matrix_row_padding : ℕ) (component_order : List String) (layer_id : ℕ)
    (components : Components) (i j : ℕ) {o other : ExpertObject}
    → i < j
    → expert_object alignment matrix_row_padding component_order layer_id components i ≡ ok o
    → expert_object alignment matrix_row_padding component_order layer_id components j ≡ ok other
    → Before o.components other.components
unfolding expert_object
expert_object-Before alignment matrix_row_padding component_order layer_id components i j {o}
      {other} p h k =
    let (r, found, h₁) =
      >>=-eq-ok (component_spans alignment matrix_row_padding components i component_order 0) _ h in
    let (t, found', k₁) =
      >>=-eq-ok (component_spans alignment matrix_row_padding components j component_order 0) _ k in
    subst (λ (o : ExpertObject). Before o.components other.components) (ok-injective h₁)
      (subst (λ (other : ExpertObject). Before r.1 other.components) (ok-injective k₁)
        (component_spans-Before alignment matrix_row_padding components i j p component_order 0 0
          found found'))
