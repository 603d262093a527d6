-- ===== src/Calibration/Take.antt =====
-- src/expertflow/compiler/cost_model.py: one candidate is taken out of the available ones.
use expertflow.Base.{
  ℕ, suc, ◌+◌, ◌≤◌, ◌<◌, min, Bool, true, false, List, [], ◌∷◌, ◌++◌, map, length, ltb, ◌==◌,
  if◌then◌else◌, ◌≡◌, refl, arith, ◌⊎◌, Bool-cases, inl, inr, length-append,
}
use expertflow.Base.Distinct.{elem}
use expertflow.Base.Distinct.Occurrences.{occurrences}
use expertflow.Calibration.{
  CostEstimate, MeasurementSelection, Reason, Batch, least, without, pick, can_take, take_one, ids,
}

-- The ids of the selected candidates.
abbrev pub chosen_ids : List MeasurementSelection → List ℕ
chosen_ids = map (λ s. s.candidate_id)

either_id :
    (b : Bool) (d e : CostEstimate)
    → ((if b then d else e).candidate_id ≡ d.candidate_id)
      ⊎ ((if b then d else e).candidate_id ≡ e.candidate_id)
either_id true d e = inl refl
either_id false d e = inr refl

-- The least is one of the candidates.
pub elem-least :
    (before : CostEstimate → CostEstimate → Bool) (e : CostEstimate) (es : List CostEstimate)
    → elem (least before e es).candidate_id (ids (e ∷ es)) ≡ true
unfolding least elem
elem-least before e [] = ground arith
elem-least before e (d ∷ es) =
    let best = if before d e then d else e in
    let there = elem-least before best es in
    elim (either_id (before d e) d e) [
      | inl same ↦ ground (arith, there, same)
      | inr same ↦ ground (arith, there, same)
    ]

pub occurrences-without :
    (id x : ℕ) (es : List CostEstimate)
    → elem id (ids es) ≡ true
    → (if id == x then 1 else 0) + occurrences x (ids (without id es)) ≡ occurrences x (ids es)
unfolding without occurrences elem
occurrences-without id x [] h = cc
occurrences-without id x (e ∷ es) h = elim (Bool-cases (e.candidate_id == id)) [
  | inl same ↦ rw same (ground arith)
  | inr other ↦ rw other (omega (arith, occurrences-without id x es (rw other at h)))
]

pub length-without :
    (id : ℕ) (es : List CostEstimate)
    → elem id (ids es) ≡ true
    → suc (length (without id es)) ≡ length es
unfolding without elem
length-without id [] h = cc
length-without id (e ∷ es) h = elim (Bool-cases (e.candidate_id == id)) [
  | inl same ↦ rw same refl
  | inr other ↦ rw other (omega (arith, length-without id es (rw other at h)))
]

-- How often an id is selected or still available.
unfoldable pub held : ℕ → Batch → ℕ
held x batch = occurrences x (chosen_ids batch.selected) + occurrences x (ids batch.available)

chosen-snoc :
    (x : ℕ) (s : MeasurementSelection) (selected : List MeasurementSelection)
    → occurrences x (chosen_ids (selected ++ s ∷ []))
      ≡ occurrences x (chosen_ids selected) + (if s.candidate_id == x then 1 else 0)
unfolding occurrences
chosen-snoc x s [] = omega arith
chosen-snoc x s (t ∷ selected) = omega (arith, chosen-snoc x s selected)

-- What a step keeps: each candidate, and the number of all of them.
pub record Keeps (before after : Batch) : Type 0 where
  pub each : (x : ℕ) → held x after ≡ held x before
  pub all :
      length after.selected + length after.available
      ≡ length before.selected + length before.available

pub Keeps-refl : (batch : Batch) → Keeps batch batch
Keeps-refl batch = record { each = λ x. refl; all = refl }

pub Keeps-trans : (a b c : Batch) → Keeps a b → Keeps b c → Keeps a c
Keeps-trans a b c h k = record {
  each = λ x. omega (arith, h.each x, k.each x);
  all = omega (arith, h.all, k.all);
}

module _ (before : CostEstimate → CostEstimate → Bool) (reason : Reason) where
  pick-Keeps :
      (es : List CostEstimate) (selected : List MeasurementSelection)
      → Keeps (record { available = es; selected = selected }) (pick before reason es selected)
  unfolding pick held
  pick-Keeps [] selected = record { each = λ x. refl; all = refl }
  pick-Keeps (e ∷ es) selected =
      let chosen = least before e es in
      let s : MeasurementSelection = record {
        candidate_id = chosen.candidate_id;
        reason = reason;
      } in
      let there = elem-least before e es in
      record {
        each = λ x. omega (
          arith,
          chosen-snoc x s selected,
          occurrences-without chosen.candidate_id x (e ∷ es) there,
        );
        all = omega (
          arith,
          length-append selected (s ∷ []),
          length-without chosen.candidate_id (e ∷ es) there,
        );
      }

  pick-length :
      (es : List CostEstimate) (selected : List MeasurementSelection)
      → (length es == 0) ≡ false
      → length (pick before reason es selected).selected ≡ suc (length selected)
  unfolding pick
  pick-length [] selected h = ground arith
  pick-length (e ∷ es) selected h =
      let chosen = least before e es in
      omega (
        arith,
        length-append selected
            (record { candidate_id = chosen.candidate_id; reason = reason } ∷ []),
      )

module _ (budget : ℕ) (reason : Reason) (before : CostEstimate → CostEstimate → Bool)
    (batch : Batch) where
  pub take_one-Keeps : Keeps batch (take_one budget reason before batch)
  unfolding take_one
  take_one-Keeps = elim (Bool-cases (can_take budget batch)) [
    | inl h ↦ rw h (pick-Keeps before reason batch.available batch.selected)
    | inr h ↦ rw h (Keeps-refl batch)
  ]

  -- With more candidates than the budget, a step takes one until the budget is spent.
  pub take_one-length :
      budget < length batch.selected + length batch.available
      → length batch.selected ≤ budget
      → length (take_one budget reason before batch).selected
        ≡ min (suc (length batch.selected)) budget
  unfolding take_one can_take
  take_one-length more within = elim (Bool-cases (ltb (length batch.selected) budget)) [
    | inl h ↦
        let some_left : (length batch.available == 0) ≡ false = ground arith in
        rw (some_left, h)
          (ground (arith, pick-length before reason batch.available batch.selected some_left))
    | inr h ↦ rw h (elim (Bool-cases (length batch.available == 0)) [
      | inl e ↦ rw e (ground arith)
      | inr e ↦ rw e (ground arith)
    ])
  ]
