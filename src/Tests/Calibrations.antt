-- ===== src/Tests/Calibrations.antt =====
-- The choice of two of four candidates, and an update.
use expertflow.Base.{
  ◌/◌, ltb, if◌then◌else◌, ◌⊎◌, ℕ, ◌≤◌, ◌<◌, Bool, true, false, any, keep, Option, none, some, inl,
  List, [], ◌∷◌, length, get_elem?, All, ok, err, value_error, ◌≡◌, refl, arith, ◌-◌,
}
use expertflow.Base.Distinct.{elem, dedup}
use expertflow.Base.Sort.{insert_by, sort_by}
use expertflow.Calibration.Metrics.{
  Metrics, metric, has_metric, names_differ, residual, max_float, exceeds, replace, worst_error,
  update_calibration,
}
use expertflow.Calibration.{
  CostEstimate, CalibrationState, CalibrationDecision, Reason, Status, empty_calibration, least,
  without, pick, can_take, take_one, key_below, by_winner, by_boundary, by_uncertainty, by_sentinel,
  explore, take_sentinel, fill, calibrated_error, threshold_of, is_suspended, keys_differ,
  available_of, rejected_of, exhaustive_decision, bounded_decision, select_measurement_batch,
}
use expertflow.Calibration.Decision.{IsDecision, IsRequest, select_measurement_batch-IsDecision}
use expertflow.Calibration.Winner.{is_among, select_measurement_batch-winner}
use expertflow.Calibration.Residuals.{Overflows}
use expertflow.Calibration.Update.{AreMetrics, IsUpdate, update_calibration-IsUpdate}

-- A rounding downwards, which overflows above a limit.
unfoldable round_below : ℕ → ℕ → ℕ → Option ℕ
round_below limit p q = if ltb limit (p / q) then none else some (p / q)

calibration_program : Unit {0}
unfolding any keep elem dedup insert_by sort_by metric has_metric names_differ worst_error residual
    max_float exceeds replace round_below update_calibration empty_calibration least without pick
    can_take take_one key_below by_winner by_boundary by_uncertainty by_sentinel explore
    take_sentinel fill calibrated_error threshold_of is_suspended keys_differ available_of
    rejected_of exhaustive_decision bounded_decision select_measurement_batch
calibration_program = tt

abbrev estimate : ℕ → ℕ → ℕ → Bool → CostEstimate
estimate id tps uncertainty feasible = record {
  candidate_id = id;
  decode_tps = tps;
  uncertainty_pct = uncertainty;
  constraint_margin = 10 - id;
  key_sha256 = 7;
  feasible = feasible;
}

abbrev estimates : List CostEstimate
estimates =
    estimate 4 30 5 true
    ∷ estimate 2 50 1 true
    ∷ estimate 3 40 9 false
    ∷ estimate 1 50 2 true
    ∷ estimate 5 20 8 true
    ∷ []

abbrev calibration : Option CalibrationState
calibration = some (record {
  key_sha256 = 7;
  error_threshold_pct = 4;
  empirical_error_pct = 3;
  observations = 2;
  pruning_suspended = false;
})

decision :
    select_measurement_batch 1 estimates 3 2 4 calibration
    ≡ ok (record {
      selected =
          record { candidate_id = 1; reason = Reason.predicted_winner }
          ∷ record { candidate_id = 5; reason = Reason.constraint_boundary }
          ∷ record { candidate_id = 4; reason = Reason.max_uncertainty }
          ∷ [];
      pruned = [];
      rejected = 3 ∷ [];
      status = Status.inconclusive;
    })
unfolding calibration_program
decision = refl

twice :
    select_measurement_batch 1 (estimate 4 30 5 true ∷ estimate 4 50 1 true ∷ []) 3 2 4 none
    ≡ err (value_error "duplicate candidate estimates")
unfolding calibration_program
twice = refl

no_calibration :
    select_measurement_batch 1 (estimate 4 30 5 true ∷ []) 3 2 4 (some (empty_calibration 10 6))
    ≡ err (value_error "cross-key candidate calibration")
unfolding calibration_program
no_calibration = refl

request : IsRequest estimates 3 2 calibration
unfolding elem keys_differ dedup any
request = record {
  some_budget = omega arith;
  some_period = omega arith;
  distinct = (refl, (refl, (refl, (refl, (refl, tt)))));
  one_key = refl;
}

more_feasible : 3 < length (keep (λ e. e.feasible) estimates)
unfolding keep
more_feasible = omega arith

abbrev predicted : Metrics
predicted = ("decode_tps", 40) ∷ ("prefill_tps", 90) ∷ []

abbrev measured : Metrics
measured = ("prefill_tps", 100) ∷ ("decode_tps", 30) ∷ []

metrics : AreMetrics 1 predicted measured
unfolding has_metric
metrics = record {
  some = omega arith;
  measured_names = (refl, (refl, tt));
  predicted_names = (refl, (refl, tt));
  predictions = omega arith;
  measurements = omega arith;
}

select_measurement_batch-IsDecision_example :
    (d : CalibrationDecision) × (select_measurement_batch 1 estimates 3 2 4 calibration ≡ ok d)
    × IsDecision estimates 3 d
select_measurement_batch-IsDecision_example =
    select_measurement_batch-IsDecision 1 estimates 3 2 4 calibration request

select_measurement_batch-winner_example :
    (d : CalibrationDecision) × (w : CostEstimate) × (select_measurement_batch 1 estimates 3 2 4
        calibration
      ≡ ok d)
    × (get_elem? d.selected 0
        ≡ some (record { candidate_id = w.candidate_id; reason = Reason.predicted_winner }))
    × (is_among w (keep (λ e. e.feasible) estimates) ≡ true)
    × All (λ e. e.decode_tps ≤ w.decode_tps) (keep (λ e. e.feasible) estimates)
select_measurement_batch-winner_example =
    select_measurement_batch-winner 1 estimates 3 2 4 calibration request more_feasible

updated :
    update_calibration (round_below 5000) 1 1 (empty_calibration 8 7) predicted measured true none
    ≡ ok (record {
      key_sha256 = 7;
      error_threshold_pct = 8;
      empirical_error_pct = 33;
      observations = 1;
      pruning_suspended = true;
    })
unfolding calibration_program
updated = refl

infinite_error :
    update_calibration (round_below 500) 1 1 (empty_calibration 8 7) predicted measured true none
    ≡ err (value_error "empirical error must be finite")
unfolding calibration_program
infinite_error = refl

update_calibration-IsUpdate_example :
    ((update_calibration (round_below 5000) 1 1 (empty_calibration 8 7) predicted measured true none
        ≡ err (value_error "empirical error must be finite"))
      × Overflows (round_below 5000) 1 1 measured predicted)
    ⊎ ((next : CalibrationState) × (update_calibration
            (round_below 5000)
            1
            1
            (empty_calibration 8 7)
            predicted
            measured
            true
            none
          ≡ ok next)
        × IsUpdate (round_below 5000) 1 1 (empty_calibration 8 7) predicted measured true next)
update_calibration-IsUpdate_example =
    update_calibration-IsUpdate (round_below 5000) 1 1 (empty_calibration 8 7) predicted measured
      true none metrics (inl refl) threshold
  where
    threshold : 1 ≤ (empty_calibration 8 7).error_threshold_pct
    threshold = unfold empty_calibration in omega arith
