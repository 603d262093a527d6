-- ===== src/Layout/Objects.antt =====
-- src/expertflow/analysis/expert_layout.py: the objects of a finished inventory.
use expertflow.Base.{
  upto, length-upto, any, ℕ, suc, zero, ◌*◌, ◌≤◌, ◌<◌, String, List, [], ◌∷◌, ◌++◌, map, length,
  length-append, All-append, length-map, All, All-mono, ok, >>=-eq-ok, ok-injective, ◌≡◌, refl, ap,
  sym, arith, ◌==◌, ==_refl, ltb, Bool-cases, inl, inr, max, any, true,
}
use expertflow.Base.Dict
use expertflow.Base.Dict.{Dict}
use mathlib.Core.Path.{subst}
use mathlib.Core.List.{map-append}
use expertflow.Layout.{ExpertObject, Components, component_spans, expert_object}
use expertflow.Layout.Inventory.{
  Inventory, maximum, minimum, layer_summary, layer_objects, all_objects,
}
use expertflow.Layout.Places.{IsPlaced, expert_object-IsPlaced}

-- Every layer with every expert, in the order of the loops.
unfoldable pub grid : List ℕ → ℕ → List (ℕ × ℕ)
grid [] count = []
grid (layer ∷ layers) count = map (λ i. (layer, i)) (upto 0 count) ++ grid layers count

abbrev pub ids : ExpertObject → ℕ × ℕ
ids o = (o.layer_id, o.expert_id)

-- What holds of every inventory.
pub record IsLaidOut (inventory : Inventory) : Type 0 where
  pub placed : All (IsPlaced inventory.alignment_bytes) inventory.objects
  pub complete :
      map ids inventory.objects ≡ grid inventory.layer_ids inventory.expert_count_per_layer
  pub count : inventory.object_count ≡ inventory.layer_count * inventory.expert_count_per_layer
  pub slots : All (λ o. o.projected_slot_bytes ≤ inventory.projection.slot_bytes) inventory.objects
  pub largest :
      any (λ o. o.projected_slot_bytes == inventory.projection.slot_bytes) inventory.objects ≡ true
  pub slot_count :
      inventory.projection.slot_count
      ≡ length inventory.projection.target_layer_ids * inventory.projection.capacity_per_layer
  pub summaries :
      map (λ l. l.projected_slot_bytes) inventory.layers
      ≡ map (λ i. inventory.projection.slot_bytes) inventory.layer_ids
  pub cache :
      inventory.projected_cache_bytes
      ≡ inventory.projection.slot_bytes * inventory.projection.slot_count

pub length-grid : (layers : List ℕ) (count : ℕ) → length (grid layers count) ≡ length layers * count
unfolding grid
length-grid [] count = omega arith
length-grid (layer ∷ layers) count = omega (
  arith,
  length-append (map (λ i. (layer, i)) (upto 0 count)) (grid layers count),
  length-map {B = ℕ × ℕ} (λ (i : ℕ). (layer, i)) (upto 0 count),
  length-upto 0 count,
  length-grid layers count,
)

pub maximum-All :
    (f : ExpertObject → ℕ) (os : List ExpertObject) → All (λ o. f o ≤ maximum (map f os)) os
unfolding maximum
maximum-All f [] = tt
maximum-All f (o ∷ os) = (omega arith, All-mono _ _ os (λ p h. omega (arith, h)) (maximum-All f os))

-- A test that an object fulfils, fulfilled by the first or a later one.
any-eq-later :
    (f : ExpertObject → ℕ) (o : ExpertObject) (os : List ExpertObject) (m : ℕ)
    → any (λ p. f p == m) os ≡ true
    → any (λ p. f p == m) (o ∷ os) ≡ true
unfolding any
any-eq-later f o os m h = ground (arith, h)

maximum_attained :
    (f : ExpertObject → ℕ) (o : ExpertObject) (os : List ExpertObject)
    → any (λ p. f p == maximum (map f (o ∷ os))) (o ∷ os) ≡ true
unfolding any maximum
maximum_attained f o [] = ground arith
maximum_attained f o (p ∷ os) =
    let later = maximum_attained f p os in
    let m = maximum (map f (p ∷ os)) in
    elim (Bool-cases (ltb (f o) m)) [
      | inl less ↦
          let same : max (f o) m ≡ m = ground (arith, less) in
          subst (λ n. any (λ q. f q == n) (o ∷ p ∷ os) ≡ true) (sym same)
            (any-eq-later f o (p ∷ os) m later)
      | inr more ↦
          let same : max (f o) m ≡ f o = ground (arith, more) in rw (same, ==_refl (f o)) refl
    ]

-- Of objects that have a least size, the greatest is the size of one of them.
pub minimum-maximum :
    (f : ExpertObject → ℕ) (os : List ExpertObject) {m : ℕ}
    → minimum (map f os) ≡ ok m
    → any (λ p. f p == maximum (map f os)) os ≡ true
unfolding minimum
minimum-maximum f [] h = cc
minimum-maximum f (o ∷ os) h = maximum_attained f o os

pub summaries-slots :
    (slot_bytes expert_count : ℕ) (objects : List ExpertObject) (layer_ids : List ℕ)
    → map
        (λ l. l.projected_slot_bytes)
        (map (layer_summary slot_bytes expert_count objects) layer_ids)
      ≡ map (λ i. slot_bytes) layer_ids
unfolding layer_summary
summaries-slots slot_bytes expert_count objects [] = refl
summaries-slots slot_bytes expert_count objects (layer_id ∷ layer_ids) =
    ap (◌∷◌ slot_bytes) (summaries-slots slot_bytes expert_count objects layer_ids)

module _ (alignment matrix_row_padding : ℕ) (component_order : List String) where
  expert_object-ids :
      (layer_id : ℕ) (components : Components) (expert_id : ℕ) {o : ExpertObject}
      → expert_object alignment matrix_row_padding component_order layer_id components expert_id
        ≡ ok o
      → ids o ≡ (layer_id, expert_id)
  unfolding expert_object
  expert_object-ids layer_id components expert_id h =
      let (r, _, h₁) =
        >>=-eq-ok
          (component_spans alignment matrix_row_padding components expert_id component_order 0) _
          h in
      sym (ap ids (ok-injective h₁))

  module _ (p : 0 < alignment) where
    layer_objects-IsPlaced :
        (layer_id : ℕ) (components : Components) (first count : ℕ) {os : List ExpertObject}
        → layer_objects alignment matrix_row_padding component_order layer_id components first count
          ≡ ok os
        → All (IsPlaced alignment) os × (map ids os ≡ map (λ i. (layer_id, i)) (upto first count))
    unfolding layer_objects upto
    layer_objects-IsPlaced layer_id components first zero h =
        subst (λ os. All (IsPlaced alignment) os × (map ids os ≡ [])) (ok-injective h) (tt, refl)
    layer_objects-IsPlaced layer_id components first (suc count) h =
        let (o, made, h₁) =
          >>=-eq-ok
            (expert_object alignment matrix_row_padding component_order layer_id components first) _
            h in
        let (os, rest, h₂) =
          >>=-eq-ok
            (layer_objects alignment matrix_row_padding component_order layer_id components
              (suc first) count)
            _ h₁ in
        let (placed, same) = layer_objects-IsPlaced layer_id components (suc first) count rest in
        subst
          (λ os.
            All (IsPlaced alignment) os
            × (map ids os ≡ (layer_id, first) ∷ map (λ i. (layer_id, i)) (upto (suc first) count)))
          (ok-injective h₂)
          (
            (
              expert_object-IsPlaced alignment matrix_row_padding p components first component_order
                  layer_id made,
              placed,
            ),
            cons_eq (expert_object-ids layer_id components first made) same,
          )
      where
        cons_eq : {x y : ℕ × ℕ} {xs ys : List (ℕ × ℕ)} → x ≡ y → xs ≡ ys → (x ∷ xs) ≡ y ∷ ys
        cons_eq e f = cc

    pub all_objects-IsPlaced :
        (by_layer : Dict Components) (count : ℕ) (layer_ids : List ℕ) {os : List ExpertObject}
        → all_objects alignment matrix_row_padding component_order by_layer count layer_ids ≡ ok os
        → All (IsPlaced alignment) os × (map ids os ≡ grid layer_ids count)
    unfolding all_objects grid
    all_objects-IsPlaced by_layer count [] h =
        subst (λ os. All (IsPlaced alignment) os × (map ids os ≡ [])) (ok-injective h) (tt, refl)
    all_objects-IsPlaced by_layer count (layer ∷ layers) h =
        let components = Dict.get_or [] layer by_layer in
        let (os, made, h₁) =
          >>=-eq-ok
            (layer_objects alignment matrix_row_padding component_order layer components 0 count) _
            h in
        let (later, rest, h₂) =
          >>=-eq-ok (all_objects alignment matrix_row_padding component_order by_layer count layers)
            _ h₁ in
        let (placed, same) = layer_objects-IsPlaced layer components 0 count made in
        let (placed', same') = all_objects-IsPlaced by_layer count layers rest in
        subst
          (λ os.
            All (IsPlaced alignment) os
            × (map ids os ≡ map (λ i. (layer, i)) (upto 0 count) ++ grid layers count))
          (ok-injective h₂)
          (
            All-append (IsPlaced alignment) os later placed placed',
            rw (map-append ids os later, same, same'),
          )
