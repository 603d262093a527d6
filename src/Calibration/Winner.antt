-- ===== src/Calibration/Winner.antt =====
-- src/expertflow/compiler/cost_model.py: the predicted winner is measured first.
use expertflow.Base.{
  ℕ, zero, suc, ◌%◌, ◌≤◌, ◌<◌, Bool, true, false, ◌&&◌, Option, some, List, [], ◌∷◌, ◌++◌, length,
  get_elem?, keep, any, any-All, any_of_All, All, All-mono, ltb, leb, ◌==◌, ==_refl, if◌then◌else◌,
  ok, ◌≡◌, refl, arith, sym, ◌∙◌, Bool-cases, inl, inr,
}
use expertflow.Base.Sort.Members.{any-sort_by}
use expertflow.Calibration.{
  CostEstimate, CalibrationState, CalibrationDecision, MeasurementSelection, Reason, Batch, least,
  pick, can_take, take_one, explore, take_sentinel, fill, by_winner, by_boundary, by_uncertainty,
  by_sentinel, available_of, bounded_decision, calibrated_error, select_measurement_batch,
}
use expertflow.Calibration.Decision.{IsRequest, checks_pass, available-length}

-- What the first selection is.
abbrev Starts : MeasurementSelection → Batch → Type 0
Starts s batch = get_elem? batch.selected 0 ≡ some s

get_elem?-append :
    (s t : MeasurementSelection) (xs : List MeasurementSelection)
    → get_elem? xs 0 ≡ some s
    → get_elem? (xs ++ t ∷ []) 0 ≡ some s
get_elem?-append s t [] h = cc
get_elem?-append s t (x ∷ xs) h = h

module _ (s : MeasurementSelection) where
  pick-Starts :
      (before : CostEstimate → CostEstimate → Bool) (reason : Reason) (es : List CostEstimate)
      (selected : List MeasurementSelection)
      → get_elem? selected 0 ≡ some s
      → Starts s (pick before reason es selected)
  unfolding pick
  pick-Starts before reason [] selected h = h
  pick-Starts before reason (e ∷ es) selected h =
      get_elem?-append s
        (record { candidate_id = (least before e es).candidate_id; reason = reason }) selected h

  take_one-Starts :
      (budget : ℕ) (reason : Reason) (before : CostEstimate → CostEstimate → Bool) (batch : Batch)
      → Starts s batch
      → Starts s (take_one budget reason before batch)
  unfolding take_one
  take_one-Starts budget reason before batch h = elim (Bool-cases (can_take budget batch)) [
    | inl e ↦ rw e (pick-Starts before reason batch.available batch.selected h)
    | inr e ↦ rw e h
  ]

  explore-Starts :
      (budget error fuel : ℕ) (batch : Batch)
      → Starts s batch
      → Starts s (explore budget error fuel batch)
  unfolding explore
  explore-Starts budget error zero batch h = h
  explore-Starts budget error (suc fuel) batch h =
      let next = take_one-Starts budget Reason.exploration (by_uncertainty error) batch h in
      elim (Bool-cases (can_take budget batch)) [
        | inl e ↦
            rw (explore, e)
              (explore-Starts budget error fuel
                (take_one budget Reason.exploration (by_uncertainty error) batch) next)
        | inr e ↦ rw (explore, e) h
      ]

  take_sentinel-Starts :
      (budget : ℕ) (due : Bool) (batch : Batch)
      → Starts s batch
      → Starts s (take_sentinel budget due batch)
  unfolding take_sentinel
  take_sentinel-Starts budget true batch h =
      take_one-Starts budget Reason.sentinel by_sentinel batch h
  take_sentinel-Starts budget false batch h = h

  -- The calls after the first one leave it in front.
  fill-Starts :
      (budget error : ℕ) (due : Bool) (batch : Batch)
      → Starts s (take_one budget Reason.predicted_winner by_winner batch)
      → Starts s (fill budget error due batch)
  unfolding fill
  fill-Starts budget error due batch h = explore-Starts budget error budget _ (
      take_sentinel-Starts budget due _ (
        take_one-Starts budget Reason.max_uncertainty (by_uncertainty error) _
          (take_one-Starts budget Reason.constraint_boundary by_boundary _ h)))

by_winner-le : (d e : CostEstimate) → by_winner d e ≡ true → e.decode_tps ≤ d.decode_tps
unfolding by_winner
by_winner-le d e h = ground (arith, h)

by_winner-ge : (d e : CostEstimate) → by_winner d e ≡ false → d.decode_tps ≤ e.decode_tps
unfolding by_winner
by_winner-ge d e h = ground (arith, h)

winner-le :
    (b : Bool) (d e : CostEstimate)
    → by_winner d e ≡ b
    → (d.decode_tps ≤ (if b then d else e).decode_tps)
      × (e.decode_tps ≤ (if b then d else e).decode_tps)
winner-le true d e h = (omega arith, by_winner-le d e h)
winner-le false d e h = (by_winner-ge d e h, omega arith)

-- No candidate is faster than the least of the winners' order.
least-winner :
    (e : CostEstimate) (es : List CostEstimate)
    → All (λ d. d.decode_tps ≤ (least by_winner e es).decode_tps) (e ∷ es)
unfolding least
least-winner e [] = (omega arith, tt)
least-winner e (d ∷ es) =
    let best = if by_winner d e then d else e in
    let (top, rest) = least-winner best es in
    let (over, under) = winner-le (by_winner d e) d e refl in
    (omega (arith, top, under), (omega (arith, top, over), rest))

any-either :
    (test : CostEstimate → Bool) (b : Bool) (d e : CostEstimate) (es : List CostEstimate)
    → any test ((if b then d else e) ∷ es) ≡ true
    → any test (e ∷ d ∷ es) ≡ true
unfolding any
any-either test true d e es h = ground (arith, h)
any-either test false d e es h = ground (arith, h)

any-least :
    (test : CostEstimate → Bool) (before : CostEstimate → CostEstimate → Bool) (e : CostEstimate)
    (es : List CostEstimate)
    → test (least before e es) ≡ true
    → any test (e ∷ es) ≡ true
unfolding least any
any-least test before e [] h = rw h refl
any-least test before e (d ∷ es) h =
    any-either test (before d e) d e es (any-least test before (if before d e then d else e) es h)

-- The estimate is among these, by its id and its rate.
unfoldable pub is_among : CostEstimate → List CostEstimate → Bool
is_among w = any (λ e. e.candidate_id == w.candidate_id && e.decode_tps == w.decode_tps)

first_taken :
    (budget : ℕ) (es : List CostEstimate)
    → 0 < budget
    → 0 < length es
    → (w : CostEstimate) × Starts
        (record { candidate_id = w.candidate_id; reason = Reason.predicted_winner })
        (take_one budget Reason.predicted_winner by_winner
          (record { available = es; selected = [] }))
      × (is_among w es ≡ true)
      × All (λ e. e.decode_tps ≤ w.decode_tps) es
unfolding take_one can_take pick is_among
first_taken budget [] p q = absurd (omega (arith, q))
first_taken budget (e ∷ es) p q =
    let w = least by_winner e es in
    let room : ltb 0 budget ≡ true = ground arith in
    let left : (suc (length es) == 0) ≡ false = ground arith in
    (
      w,
      rw (left, room) refl,
      any-least (λ d. d.candidate_id == w.candidate_id && d.decode_tps == w.decode_tps) by_winner e
          es (rw (==_refl w.candidate_id, ==_refl w.decode_tps) refl),
      least-winner e es,
    )

All-unsorted :
    (n : ℕ) (es : List CostEstimate)
    → any (λ e. ltb n e.decode_tps) es ≡ false
    → All (λ e. e.decode_tps ≤ n) es
All-unsorted n es h =
    All-mono _ _ es (λ e k. ground (arith, k)) (any-All (λ e. ltb n e.decode_tps) es h)

module _ (w : CostEstimate) (estimates : List CostEstimate) where
  abbrev plain : List CostEstimate
  plain = keep (λ e. e.feasible) estimates

  unsorted_among : is_among w (available_of estimates) ≡ true → is_among w plain ≡ true
  unfolding available_of is_among
  unsorted_among h =
      sym (
        any-sort_by (λ a b. leb a.candidate_id b.candidate_id)
          (λ e. e.candidate_id == w.candidate_id && e.decode_tps == w.decode_tps) plain)
      ∙ h

  unsorted_top :
      All (λ e. e.decode_tps ≤ w.decode_tps) (available_of estimates)
      → any (λ e. ltb w.decode_tps e.decode_tps) plain ≡ false
  unfolding available_of
  unsorted_top h =
      sym (
        any-sort_by (λ a b. leb a.candidate_id b.candidate_id) (λ e. ltb w.decode_tps e.decode_tps)
          plain)
      ∙ any_of_All (λ e. ltb w.decode_tps e.decode_tps) (available_of estimates)
          (All-mono _ _ (available_of estimates) (λ e k. ground (arith, k)) h)

module _ (one : ℕ) (estimates : List CostEstimate) (budget sentinel_period iteration : ℕ)
    (calibration : Option CalibrationState) where
  -- With checked arguments, and more feasible candidates than the budget: the first candidate of the
  -- decision is selected as the predicted winner; it is a feasible one of the estimates, and no feasible
  -- one has a higher predicted rate.
  pub select_measurement_batch-winner :
      IsRequest estimates budget sentinel_period calibration
      → budget < length (keep (λ e. e.feasible) estimates)
      → (d : CalibrationDecision) × (w : CostEstimate) × (select_measurement_batch one estimates
            budget sentinel_period iteration calibration
          ≡ ok d)
        × (get_elem? d.selected 0
            ≡ some (record { candidate_id = w.candidate_id; reason = Reason.predicted_winner }))
        × (is_among w (keep (λ e. e.feasible) estimates) ≡ true)
        × All (λ e. e.decode_tps ≤ w.decode_tps) (keep (λ e. e.feasible) estimates)
  unfolding bounded_decision
  select_measurement_batch-winner r more =
      let es = available-length estimates r.distinct in
      let (w, starts, among, top) =
        first_taken budget (available_of estimates) r.some_budget (omega (arith, es, more)) in
      let wide : leb (length (available_of estimates)) budget ≡ false = ground (arith, es, more) in
      let due = iteration % sentinel_period == 0 in
      let feasible = keep (λ e. e.feasible) estimates in
      (
        bounded_decision one estimates budget due calibration,
        w,
        rw wide at (checks_pass one estimates budget sentinel_period iteration calibration r),
        fill-Starts (record { candidate_id = w.candidate_id; reason = Reason.predicted_winner })
            budget (calibrated_error calibration) due
            (record { available = available_of estimates; selected = [] }) starts,
        unsorted_among w estimates among,
        All-unsorted w.decode_tps feasible (unsorted_top w estimates top),
      )
