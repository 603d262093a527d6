-- ===== src/Calibration/Decision.antt =====
-- src/expertflow/compiler/cost_model.py: the decision of `select_measurement_batch`.
use expertflow.Base.{
  ℕ, ◌%◌, ◌≤◌, ◌<◌, min, Bool, true, false, not, Option, List, [], ◌∷◌, map, length, keep, leb,
  ◌==◌, ==_refl, if◌then◌else◌, ok, ◌≡◌, refl, arith, ap, ◌∙◌, Bool-cases, inl, inr, length-map,
}
use expertflow.Base.Distinct.{elem, Distinct, dedup, dedup_of_Distinct}
use expertflow.Base.Distinct.Occurrences.{
  occurrences, occurrences_present, elem_of_occurrences, occurrences-le-Distinct,
  occurrences-Distinct, occurrences-sort_by, length-sort_by,
}
use expertflow.Calibration.{
  exhaustive_selection, sort_by, CostEstimate, CalibrationState, CalibrationDecision, Batch, ids,
  available_of, rejected_of, keys_differ, calibrated_error, exhaustive_decision, bounded_decision,
  select_measurement_batch,
}
use expertflow.Calibration.Take.{chosen_ids, held}
use expertflow.Calibration.Budgeted.{fill-Fills}

-- What holds of a decision: each selected candidate is feasible and selected once, as many as the
-- budget allows; the rejected ones are those that are not feasible; and nothing is pruned.
pub record IsDecision (estimates : List CostEstimate) (budget : ℕ) (d : CalibrationDecision)
    : Type 0 where
  pub distinct : Distinct (chosen_ids d.selected)
  pub feasible :
      (x : ℕ)
      → elem x (chosen_ids d.selected) ≡ true
      → elem x (ids (keep (λ e. e.feasible) estimates)) ≡ true
  pub count : length d.selected ≡ min (length (keep (λ e. e.feasible) estimates)) budget
  pub rejected :
      (x : ℕ)
      → occurrences x d.rejected ≡ occurrences x (ids (keep (λ e. not e.feasible) estimates))
  pub pruned : d.pruned ≡ []

keep-occurrences-le :
    (test : CostEstimate → Bool) (x : ℕ) (estimates : List CostEstimate)
    → occurrences x (ids (keep test estimates)) ≤ occurrences x (ids estimates)
unfolding keep occurrences
keep-occurrences-le test x [] = omega arith
keep-occurrences-le test x (e ∷ estimates) = elim (Bool-cases (test e)) [
  | inl h ↦ rw h (omega (arith, keep-occurrences-le test x estimates))
  | inr h ↦ rw h (omega (arith, keep-occurrences-le test x estimates))
]

map_same : (xs : List ℕ) → map (λ n. n) xs ≡ xs
map_same [] = refl
map_same (x ∷ xs) = ap (◌∷◌ x) (map_same xs)

rejected_of-occurrences :
    (x : ℕ) (estimates : List CostEstimate)
    → occurrences x (rejected_of estimates)
      ≡ occurrences x (ids (keep (λ e. not e.feasible) estimates))
unfolding rejected_of
rejected_of-occurrences x estimates =
    let infeasible = ids (keep (λ e. not e.feasible) estimates) in
    rw (map_same (sort_by leb infeasible), map_same infeasible) at
      (occurrences-sort_by (λ n. n) leb x infeasible)

module _ (estimates : List CostEstimate) (d : Distinct (ids estimates)) where
  feasible_once : (x : ℕ) → occurrences x (ids (available_of estimates)) ≤ 1
  unfolding available_of
  feasible_once x = omega (
    arith,
    occurrences-sort_by (λ (e : CostEstimate). e.candidate_id)
        (λ a b. leb a.candidate_id b.candidate_id) x (keep (λ e. e.feasible) estimates),
    keep-occurrences-le (λ e. e.feasible) x estimates,
    occurrences-le-Distinct x (ids estimates) d,
  )

  available-occurrences :
      (x : ℕ)
      → occurrences x (ids (available_of estimates))
        ≡ occurrences x (ids (keep (λ e. e.feasible) estimates))
  unfolding available_of
  available-occurrences x =
      occurrences-sort_by (λ (e : CostEstimate). e.candidate_id)
        (λ a b. leb a.candidate_id b.candidate_id) x (keep (λ e. e.feasible) estimates)

  pub available-length : length (available_of estimates) ≡ length (keep (λ e. e.feasible) estimates)
  unfolding available_of
  available-length =
      length-sort_by (λ (e : CostEstimate). e.candidate_id)
        (λ a b. leb a.candidate_id b.candidate_id) (keep (λ e. e.feasible) estimates)

  -- A list of selections, each of an available candidate, no more often than it is there.
  selected-IsDecision :
      (budget : ℕ) (c : CalibrationDecision)
      → ((x : ℕ)
          → occurrences x (chosen_ids c.selected) ≤ occurrences x (ids (available_of estimates)))
      → length c.selected ≡ min (length (available_of estimates)) budget
      → c.rejected ≡ rejected_of estimates
      → c.pruned ≡ []
      → IsDecision estimates budget c
  selected-IsDecision budget c members count rejected pruned = record {
    distinct =
        occurrences-Distinct (chosen_ids c.selected)
          (λ x. omega (arith, members x, feasible_once x));
    feasible = λ x h. elem_of_occurrences x (ids (keep (λ e. e.feasible) estimates)) (
        omega (
          arith,
          members x,
          available-occurrences x,
          occurrences_present x (chosen_ids c.selected) h,
        ));
    count = omega (arith, count, available-length);
    rejected = λ x. ap (occurrences x) rejected ∙ rejected_of-occurrences x estimates;
    pruned = pruned;
  }

-- Checked arguments: ids that differ, one key, a budget and a period that are not 0.
pub record IsRequest (estimates : List CostEstimate) (budget sentinel_period : ℕ)
    (calibration : Option CalibrationState) : Type 0 where
  pub some_budget : 0 < budget
  pub some_period : 0 < sentinel_period
  pub distinct : Distinct (ids estimates)
  pub one_key : keys_differ estimates calibration ≡ false

abbrev start : List CostEstimate → Batch
start estimates = record { available = available_of estimates; selected = [] }

exhaustive-ids : (es : List CostEstimate) → chosen_ids (map exhaustive_selection es) ≡ ids es
exhaustive-ids [] = refl
exhaustive-ids (e ∷ es) = ap (◌∷◌ e.candidate_id) (exhaustive-ids es)

module _ (one : ℕ) (estimates : List CostEstimate) (budget sentinel_period iteration : ℕ)
    (calibration : Option CalibrationState)
    (r : IsRequest estimates budget sentinel_period calibration) where
  abbrev due : Bool
  due = iteration % sentinel_period == 0

  pub checks_pass :
      select_measurement_batch one estimates budget sentinel_period iteration calibration
      ≡ ok (
          if leb (length (available_of estimates)) budget
          then exhaustive_decision estimates
          else bounded_decision one estimates budget due calibration)
  unfolding select_measurement_batch
  checks_pass =
      let first : (budget == 0) ≡ false = ground (arith, r.some_budget) in
      let second : (sentinel_period == 0) ≡ false = ground (arith, r.some_period) in
      let third : (length (dedup (ids estimates)) == length estimates) ≡ true =
        rw
          (
            dedup_of_Distinct (ids estimates) r.distinct,
            length-map (λ (e : CostEstimate). e.candidate_id) estimates,
          )
          (==_refl (length estimates)) in
      rw (first, second, third, r.one_key) refl

  exhaustive-IsDecision :
      length (available_of estimates) ≤ budget
      → IsDecision estimates budget (exhaustive_decision estimates)
  unfolding exhaustive_decision
  exhaustive-IsDecision small =
      selected-IsDecision estimates r.distinct budget (exhaustive_decision estimates)
        (λ x. rw (exhaustive-ids (available_of estimates)) (omega arith))
        (omega (arith, length-map exhaustive_selection (available_of estimates))) refl refl

  bounded-IsDecision :
      budget < length (available_of estimates)
      → IsDecision estimates budget (bounded_decision one estimates budget due calibration)
  unfolding bounded_decision held occurrences
  bounded-IsDecision more =
      let error = calibrated_error calibration in
      let (keeps, count) =
        fill-Fills budget error due (start estimates)
          (record { more = omega arith; within = omega arith }) in
      selected-IsDecision estimates r.distinct budget
        (bounded_decision one estimates budget due calibration) (λ x. omega (arith, keeps.each x))
        (omega (arith, count)) refl refl

  -- With ids that differ, one key, and a budget and a period that are not 0, a decision is returned.
  -- It selects each candidate at most once and only feasible ones, all of them or as many as the
  -- budget; it rejects exactly those that are not feasible, and prunes none.
  pub select_measurement_batch-IsDecision :
      (d : CalibrationDecision) × (select_measurement_batch one estimates budget sentinel_period
          iteration calibration
        ≡ ok d)
      × IsDecision estimates budget d
  select_measurement_batch-IsDecision =
      elim (Bool-cases (leb (length (available_of estimates)) budget)) [
        | inl small ↦ (
          exhaustive_decision estimates,
          rw small at checks_pass,
          exhaustive-IsDecision (ground arith),
        )
        | inr more ↦ (
          bounded_decision one estimates budget due calibration,
          rw more at checks_pass,
          bounded-IsDecision (ground arith),
        )
      ]
