-- ===== src/Placement/Order.antt =====
-- src/expertflow/compiler/static_placement.py: the order of the ranked layers, by the key
-- `(-b.score_us_per_mib, b.layer_id)`.
use expertflow.Base.{
  ◌≤◌, ◌<◌, true, false, ◌⊎◌, List, [], ◌∷◌, All, All-mono, ltb, ◌==◌, ◌≡◌, arith, Bool-cases, inl,
  inr,
}
use expertflow.Base.Sort.{insert_by, sort_by}
use expertflow.Placement.{LayerBenefit, better}

-- A greater score, or the same one with a lower id or the same.
abbrev pub Precedes : LayerBenefit → LayerBenefit → Type 0
Precedes a b =
    (b.score_us_per_mib < a.score_us_per_mib)
    ⊎ ((b.score_us_per_mib ≡ a.score_us_per_mib) × (a.layer_id ≤ b.layer_id))

-- Each benefit precedes all that come after it.
abbrev pub IsRanked : List LayerBenefit → Type 0
IsRanked [] = Unit
IsRanked (b ∷ benefits) = All (Precedes b) benefits × IsRanked benefits

better_yes : (a b : LayerBenefit) → better a b ≡ true → Precedes a b
unfolding better
better_yes a b h = elim (Bool-cases (ltb b.score_us_per_mib a.score_us_per_mib)) [
  | inl less ↦ inl (ground (arith, less))
  | inr more ↦ inr (ground (arith, h, more), ground (arith, h, more))
]

better_no : (a b : LayerBenefit) → better a b ≡ false → Precedes b a
unfolding better
better_no a b h = elim (Bool-cases (a.score_us_per_mib == b.score_us_per_mib)) [
  | inl same ↦ inr (ground (arith, same), ground (arith, h, same))
  | inr other ↦ inl (ground (arith, h, other))
]

Precedes-through : (a b c : LayerBenefit) → Precedes a b → Precedes b c → Precedes a c
Precedes-through a b c (inl h) (inl k) = inl (omega arith)
Precedes-through a b c (inl h) (inr k) = inl (omega arith)
Precedes-through a b c (inr h) (inl k) = inl (omega arith)
Precedes-through a b c (inr h) (inr k) = inr (omega arith, omega arith)

All-insert_by :
    (P : LayerBenefit → Type 0) (a : LayerBenefit) (benefits : List LayerBenefit)
    → P a
    → All P benefits
    → All P (insert_by better a benefits)
unfolding insert_by
All-insert_by P a [] h k = (h, tt)
All-insert_by P a (b ∷ benefits) h k = elim (Bool-cases (better a b)) [
  | inl e ↦ rw e (h, k)
  | inr e ↦ rw e (k.0, All-insert_by P a benefits h k.1)
]

insert_by-IsRanked :
    (a : LayerBenefit) (benefits : List LayerBenefit)
    → IsRanked benefits
    → IsRanked (insert_by better a benefits)
unfolding insert_by
insert_by-IsRanked a [] h = (tt, tt)
insert_by-IsRanked a (b ∷ benefits) h = elim (Bool-cases (better a b)) [
  | inl e ↦
      let first = better_yes a b e in
      rw e (
        (
          (
            first,
            All-mono (Precedes b) (Precedes a) benefits (λ c k. Precedes-through a b c first k) h.0,
          ),
          h,
        ))
  | inr e ↦ rw e (
      (
        All-insert_by (Precedes b) a benefits (better_no a b e) h.0,
        insert_by-IsRanked a benefits h.1,
      ))
]

pub sort_by-IsRanked : (benefits : List LayerBenefit) → IsRanked (sort_by better benefits)
unfolding sort_by
sort_by-IsRanked [] = tt
sort_by-IsRanked (b ∷ benefits) =
    insert_by-IsRanked b (sort_by better benefits) (sort_by-IsRanked benefits)
