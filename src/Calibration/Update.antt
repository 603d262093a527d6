-- ===== src/Calibration/Update.antt =====
-- src/expertflow/compiler/cost_model.py: the update of the calibration with measured metrics.
use expertflow.Base.{
  ℕ, ◌+◌, ◌≤◌, ◌<◌, max, Bool, true, false, not, ◌&&◌, ◌||◌, ◌⊎◌, Option, none, some, length,
  any_of_All, All, All-mono, ltb, ◌==◌, ==_refl, ok, err, value_error, ◌≡◌, refl, arith, ap, inl,
  inr,
}
use expertflow.Calibration.Metrics.{
  Metrics, has_metric, names_differ, max_float, exceeds, replace, update_calibration,
}
use expertflow.Calibration.{CalibrationState}
use expertflow.Calibration.Residuals.{Deviates, Attained, Overflows, worst_error_total}

-- The metrics of two dictionaries with the same names, each a number that is not too small.
pub record AreMetrics (least_number : ℕ) (predicted measured : Metrics) : Type 0 where
  pub some : 0 < length predicted
  pub measured_names : All (λ m. has_metric measured m.0 ≡ true) predicted
  pub predicted_names : All (λ m. has_metric predicted m.0 ≡ true) measured
  pub predictions : All (λ m. least_number ≤ m.1) predicted
  pub measurements : All (λ m. least_number ≤ m.1) measured

names_differ_none :
    (least_number : ℕ) (predicted measured : Metrics)
    → AreMetrics least_number predicted measured
    → (names_differ predicted measured || length predicted == 0) ≡ false
unfolding names_differ
names_differ_none least_number predicted measured h =
    let none_empty : (length predicted == 0) ≡ false = ground (arith, h.some) in
    rw
      (
        any_of_All (λ m. not (has_metric measured m.0)) predicted
            (All-mono _ _ predicted (λ m k. ap not k) h.measured_names),
        any_of_All (λ m. not (has_metric predicted m.0)) measured
            (All-mono _ _ measured (λ m k. ap not k) h.predicted_names),
        none_empty,
      )
      refl

module _ (round : ℕ → ℕ → Option ℕ) (one least_number : ℕ) (state : CalibrationState)
    (predicted measured : Metrics) (is_sentinel : Bool) where
  -- What an update changes: the worst error is the greatest of the residuals, each of them within it.
  pub record IsUpdate (next : CalibrationState) : Type 0 where
    pub error : ℕ
    pub bound : All (Deviates round one least_number measured error) predicted
    pub attained : Attained round one least_number measured 0 error predicted
    pub empirical : next.empirical_error_pct ≡ max state.empirical_error_pct error
    pub observations : next.observations ≡ state.observations + 1
    pub suspended :
        next.pruning_suspended
        ≡ (state.pruning_suspended || (is_sentinel && ltb state.error_threshold_pct error))
    pub same_key : next.key_sha256 ≡ state.key_sha256
    pub same_threshold : next.error_threshold_pct ≡ state.error_threshold_pct

  key_passes :
      (key : Option ℕ)
      → (key ≡ none) ⊎ (key ≡ some state.key_sha256)
      → (elim key [ none ↦ false | some k ↦ not (k == state.key_sha256) ]) ≡ false
  key_passes key (inl h) = rw h refl
  key_passes key (inr h) = rw h (ap not (==_refl state.key_sha256))

  -- With the same metrics predicted and measured, at least one, none of them below the least number,
  -- no other key and a threshold that is not below the least number: either the residual of a metric
  -- is infinite, and the update raises the error of the new state's own test, or all of them are
  -- finite, and it returns. Then the new error is the greatest of the old one and of the residuals,
  -- which are all within it and each 100 times the distance from the measurement, by the measurement,
  -- rounded at each step; one observation is added, and pruning is suspended from then on if the
  -- candidate is a sentinel whose greatest residual exceeds the threshold.
  pub update_calibration-IsUpdate :
      (key : Option ℕ)
      → AreMetrics least_number predicted measured
      → (key ≡ none) ⊎ (key ≡ some state.key_sha256)
      → least_number ≤ state.error_threshold_pct
      → ((update_calibration round one least_number state predicted measured is_sentinel key
            ≡ err (value_error "empirical error must be finite"))
          × Overflows round one least_number measured predicted)
        ⊎ ((next : CalibrationState) × (update_calibration round one least_number state predicted
                measured is_sentinel key
              ≡ ok next)
            × IsUpdate next)
  unfolding update_calibration replace max_float exceeds
  update_calibration-IsUpdate key h same high =
      let own : (elim key [ none ↦ false | some k ↦ not (k == state.key_sha256) ]) ≡ false =
        key_passes key same in
      let names = names_differ_none least_number predicted measured h in
      let threshold : ltb state.error_threshold_pct least_number ≡ false = ground (arith, high) in
      elim (worst_error_total round one least_number measured predicted 0 (record {
        names = h.measured_names;
        predictions = h.predictions;
        measurements = h.measurements;
      })) [
        | inl (ran, infinite) ↦ inl (rw (own, names, ran, threshold) refl, infinite)
        | inr (error, ran, above, bound, attained) ↦ inr (
          record state {
            empirical_error_pct = max state.empirical_error_pct error;
            observations = state.observations + 1;
            pruning_suspended =
                state.pruning_suspended || (is_sentinel && ltb state.error_threshold_pct error);
          },
          rw (own, names, ran, threshold) refl,
          record {
            error = error;
            bound = bound;
            attained = attained;
            empirical = refl;
            observations = refl;
            suspended = refl;
            same_key = refl;
            same_threshold = refl;
          },
        )
      ]
