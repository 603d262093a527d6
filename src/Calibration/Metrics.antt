-- ===== src/Calibration/Metrics.antt =====
-- src/expertflow/compiler/cost_model.py: the update of the calibration. Every metric is a double.
use expertflow.Base.{
  ℕ, ◌+◌, ◌-◌, ◌*◌, max, Bool, true, false, not, ◌&&◌, ◌||◌, String, Option, none, some, List, [],
  ◌∷◌, length, any, ltb, ◌==◌, str_eq, if◌then◌else◌, Result, ok, err, value_error, key_error,
  raise_if, ◌>>=◌, ◌>>◌,
}
use expertflow.Calibration.{CalibrationState}

-- A dictionary of metrics.
abbrev pub Metrics : Type 0
Metrics = List (String × ℕ)

-- `metrics[name]`
unfoldable pub metric : String → Metrics → Result ℕ
metric name [] = err key_error
metric name ((n, v) ∷ metrics) = if str_eq n name then ok v else metric name metrics

-- `name in metrics`
unfoldable pub has_metric : Metrics → String → Bool
has_metric [] name = false
has_metric ((n, v) ∷ metrics) name = if str_eq n name then true else has_metric metrics name

-- `predicted.keys() != measured.keys()`
unfoldable pub names_differ : Metrics → Metrics → Bool
names_differ predicted measured =
    any (λ m. not (has_metric measured m.0)) predicted
    || any (λ m. not (has_metric predicted m.0)) measured

-- `a > b`, `max(a, b)` of doubles of which one can be infinite, which is `none`
unfoldable pub exceeds : Option ℕ → ℕ → Bool
exceeds none n = true
exceeds (some m) n = ltb n m

unfoldable pub max_float : Option ℕ → Option ℕ → Option ℕ
max_float none n = none
max_float (some m) none = none
max_float (some m) (some n) = some (max m n)

-- The arithmetic of doubles is a parameter: `round p q` is the double next to the fraction p / q of
-- units, and `none` where that overflows to infinity. `one` is the number of units in 1.
module _ (round : ℕ → ℕ → Option ℕ) (one : ℕ) where
  -- `abs(prediction - actual) * 100 / actual`, where each of the three operations is rounded and an
  -- infinite product stays infinite
  unfoldable pub residual : ℕ → ℕ → Option ℕ
  residual prediction actual = elim (round ((prediction - actual) + (actual - prediction)) 1) [
    | none ↦ none
    | some gap ↦ elim (round (gap * 100) 1) [
      | none ↦ none
      | some scaled ↦ round (scaled * one) actual
    ]
  ]

-- `least_number` is 0.000001, the least metric that `require_number` lets pass.
module _ (round : ℕ → ℕ → Option ℕ) (one least_number : ℕ) where
  -- the loop over the predictions, from the greatest error so far
  unfoldable pub worst_error : Metrics → Option ℕ → Metrics → Result (Option ℕ)
  worst_error measured error [] = ok error
  worst_error measured error ((name, prediction) ∷ predicted) = do
    actual ← metric name measured
    raise_if (ltb prediction least_number) (value_error "prediction must be finite")
    raise_if (ltb actual least_number) (value_error "measurement must be finite")
    worst_error measured (max_float error (residual round one prediction actual)) predicted

  -- `replace(state, ...)`, which makes a new state and runs the tests of `__post_init__` on it
  unfoldable pub replace : CalibrationState → Option ℕ → ℕ → Bool → Result CalibrationState
  replace state empirical_error observations pruning_suspended = do
    raise_if (ltb state.error_threshold_pct least_number)
        (value_error "calibration threshold must be finite")
    elim empirical_error [
      | none ↦ err (value_error "empirical error must be finite")
      | some e ↦ ok (record state {
        empirical_error_pct = e;
        observations = observations;
        pruning_suspended = pruning_suspended;
      })
    ]

  -- `update_calibration`; `is_sentinel` is `candidate_role == 'sentinel'`
  unfoldable pub update_calibration :
      CalibrationState → Metrics → Metrics → Bool → Option ℕ → Result CalibrationState
  update_calibration state predicted measured is_sentinel key = do
    raise_if (elim key [ none ↦ false | some k ↦ not (k == state.key_sha256) ])
        (value_error "cross-key calibration is forbidden")
    raise_if (names_differ predicted measured || length predicted == 0)
        (value_error "calibration metric mismatch")
    error ← worst_error measured (some 0) predicted
    let worst = max_float (some state.empirical_error_pct) error
    replace state worst (state.observations + 1)
        (state.pruning_suspended || (is_sentinel && exceeds error state.error_threshold_pct))
