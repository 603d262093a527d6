-- ===== src/Calibration.antt =====
-- src/expertflow/compiler/cost_model.py: the choice of the candidates to measure, and the update of
-- the calibration. An id and a key are digests of one length in hexadecimal, which are numbers of the
-- same order. A percentage, a rate or a margin is a finite double that is not negative; it is a
-- natural number of units of 2 ^ -1074, and `one` is the number of units in 1.
pub mod Metrics
pub mod Take
pub mod Budgeted
pub mod Decision
pub mod Winner
pub mod Residuals
pub mod Update
use expertflow.Base.{
  ℕ, zero, suc, ◌+◌, ◌*◌, ◌%◌, max, Bool, true, false, not, ◌&&◌, ◌||◌, String, Option, none, some,
  List, [], ◌∷◌, ◌++◌, map, length, any, keep, ltb, leb, ◌==◌, str_eq, if◌then◌else◌, Result, ok,
  err, value_error, key_error, raise_if, ◌>>=◌, ◌>>◌,
}
use expertflow.Base.Distinct.{elem, dedup}
use expertflow.Base.Sort.{sort_by}

-- `CostEstimate`, with the one metric that the choice reads
pub record CostEstimate : Type 0 where
  pub candidate_id : ℕ
  pub decode_tps : ℕ
  pub uncertainty_pct : ℕ
  pub constraint_margin : ℕ
  pub key_sha256 : ℕ
  pub feasible : Bool

pub record CalibrationState : Type 0 where
  pub key_sha256 : ℕ
  pub error_threshold_pct : ℕ
  pub empirical_error_pct : ℕ
  pub observations : ℕ
  pub pruning_suspended : Bool

pub data Reason : Type 0 where
  exhaustive predicted_winner constraint_boundary max_uncertainty sentinel exploration : Reason

pub record MeasurementSelection : Type 0 where
  pub candidate_id : ℕ
  pub reason : Reason

pub data Status : Type 0 where
  ready inconclusive : Status

pub record CalibrationDecision : Type 0 where
  pub selected : List MeasurementSelection
  pub pruned : List ℕ
  pub rejected : List ℕ
  pub status : Status

-- `CalibrationState.empty`
unfoldable pub empty_calibration : ℕ → ℕ → CalibrationState
empty_calibration error_threshold_pct key_sha256 = record {
  key_sha256 = key_sha256;
  error_threshold_pct = error_threshold_pct;
  empirical_error_pct = 0;
  observations = 0;
  pruning_suspended = false;
}

-- The variables `available` and `selected`.
pub record Batch : Type 0 where
  pub available : List CostEstimate
  pub selected : List MeasurementSelection

-- `min(available, key=key)`: the first of the least, by a test that is true of a smaller key
unfoldable pub least :
    (CostEstimate → CostEstimate → Bool) → CostEstimate → List CostEstimate → CostEstimate
least before best [] = best
least before best (e ∷ es) = least before (if before e best then e else best) es

-- `available.remove(chosen)`
unfoldable pub without : ℕ → List CostEstimate → List CostEstimate
without id [] = []
without id (e ∷ es) = let rest = without id es in if e.candidate_id == id then es else e ∷ rest

-- the body of `take`, under its test
unfoldable pub pick :
    (CostEstimate → CostEstimate → Bool)
    → Reason
    → List CostEstimate
    → List MeasurementSelection
    → Batch
pick before reason [] selected = record { available = []; selected = selected }
pick before reason (e ∷ es) selected =
    let chosen = least before e es in
    record {
      available = without chosen.candidate_id (e ∷ es);
      selected = selected ++ record { candidate_id = chosen.candidate_id; reason = reason } ∷ [];
    }

-- `available and len(selected) < budget`
unfoldable pub can_take : ℕ → Batch → Bool
can_take budget batch = not (length batch.available == 0) && ltb (length batch.selected) budget

-- `take`
unfoldable pub take_one : ℕ → Reason → (CostEstimate → CostEstimate → Bool) → Batch → Batch
take_one budget reason before batch =
    if can_take budget batch then pick before reason batch.available batch.selected else batch

-- a tuple of a number and an id, before another one
unfoldable pub key_below : ℕ → ℕ → ℕ → ℕ → Bool
key_below a i b j = if ltb a b then true else if a == b then ltb i j else false

-- the keys of the calls of `take`; a number that the source negates stands on the other side
unfoldable pub by_winner : CostEstimate → CostEstimate → Bool
by_winner a b =
    if ltb b.decode_tps a.decode_tps
    then true
    else if a.decode_tps == b.decode_tps
    then ltb a.candidate_id b.candidate_id
    else false

unfoldable pub by_boundary : CostEstimate → CostEstimate → Bool
by_boundary a b = key_below a.constraint_margin a.candidate_id b.constraint_margin b.candidate_id

unfoldable pub by_uncertainty : ℕ → CostEstimate → CostEstimate → Bool
by_uncertainty error a b =
    let x = max a.uncertainty_pct error in
    let y = max b.uncertainty_pct error in
    if ltb y x then true else if x == y then ltb a.candidate_id b.candidate_id else false

unfoldable pub by_sentinel : CostEstimate → CostEstimate → Bool
by_sentinel a b = key_below a.decode_tps a.candidate_id b.decode_tps b.candidate_id

-- the `while` loop, with a bound on its rounds
unfoldable pub explore : ℕ → ℕ → ℕ → Batch → Batch
explore budget error zero batch = batch
explore budget error (suc fuel) batch =
    let rest =
      explore budget error fuel (take_one budget Reason.exploration (by_uncertainty error) batch) in
    if can_take budget batch then rest else batch

-- `if iteration % sentinel_period == 0: take('sentinel', ...)`
unfoldable pub take_sentinel : ℕ → Bool → Batch → Batch
take_sentinel budget due batch =
    if due then take_one budget Reason.sentinel by_sentinel batch else batch

-- the calls of `take`, in order
unfoldable pub fill : ℕ → ℕ → Bool → Batch → Batch
fill budget error due batch =
    let first = take_one budget Reason.predicted_winner by_winner batch in
    let second = take_one budget Reason.constraint_boundary by_boundary first in
    let third = take_one budget Reason.max_uncertainty (by_uncertainty error) second in
    explore budget error budget (take_sentinel budget due third)

-- `calibration.empirical_error_pct if calibration else 0`, and the other two
unfoldable pub calibrated_error : Option CalibrationState → ℕ
calibrated_error none = 0
calibrated_error (some state) = state.empirical_error_pct

unfoldable pub threshold_of : ℕ → Option CalibrationState → ℕ
threshold_of one none = 10 * one
threshold_of one (some state) = state.error_threshold_pct

unfoldable pub is_suspended : Option CalibrationState → Bool
is_suspended none = false
is_suspended (some state) = state.pruning_suspended

-- the test for a second key
unfoldable pub keys_differ : List CostEstimate → Option CalibrationState → Bool
keys_differ estimates none = ltb 1 (length (dedup (map (λ e. e.key_sha256) estimates)))
keys_differ estimates (some state) =
    ltb 1 (length (dedup (map (λ e. e.key_sha256) estimates)))
    || any (λ e. not (e.key_sha256 == state.key_sha256)) estimates

abbrev pub ids : List CostEstimate → List ℕ
ids = map (λ e. e.candidate_id)

-- `available` before the choice, and `rejected`
unfoldable pub available_of : List CostEstimate → List CostEstimate
available_of estimates =
    sort_by (λ a b. leb a.candidate_id b.candidate_id) (keep (λ e. e.feasible) estimates)

unfoldable pub rejected_of : List CostEstimate → List ℕ
rejected_of estimates = sort_by leb (ids (keep (λ e. not e.feasible) estimates))

-- the selection of a candidate where all are measured
abbrev pub exhaustive_selection : CostEstimate → MeasurementSelection
exhaustive_selection e = record { candidate_id = e.candidate_id; reason = Reason.exhaustive }

-- the decision with every available candidate
unfoldable pub exhaustive_decision : List CostEstimate → CalibrationDecision
exhaustive_decision estimates = record {
  selected = map exhaustive_selection (available_of estimates);
  pruned = [];
  rejected = rejected_of estimates;
  status = Status.ready;
}

-- the decision within the budget
unfoldable pub bounded_decision :
    ℕ → List CostEstimate → ℕ → Bool → Option CalibrationState → CalibrationDecision
bounded_decision one estimates budget due calibration =
    let error = calibrated_error calibration in
    let uncertain =
      any (λ e. ltb (threshold_of one calibration) (max e.uncertainty_pct error))
        (keep (λ e. e.feasible) estimates) in
    record {
      selected =
          (fill budget error due
            (record { available = available_of estimates; selected = [] })).selected;
      pruned = [];
      rejected = rejected_of estimates;
      status =
          if is_suspended calibration || uncertain || ltb budget 4
          then Status.inconclusive
          else Status.ready;
    }

-- `select_measurement_batch`
unfoldable pub select_measurement_batch :
    ℕ → List CostEstimate → ℕ → ℕ → ℕ → Option CalibrationState → Result CalibrationDecision
select_measurement_batch one estimates budget sentinel_period iteration calibration = do
  raise_if (budget == 0) (value_error "measurement budget")
  raise_if (sentinel_period == 0) (value_error "sentinel period")
  raise_if (not (length (dedup (ids estimates)) == length estimates))
      (value_error "duplicate candidate estimates")
  raise_if (keys_differ estimates calibration) (value_error "cross-key candidate calibration")
  ok (
      if leb (length (available_of estimates)) budget
      then exhaustive_decision estimates
      else bounded_decision one estimates budget (iteration % sentinel_period == 0) calibration)
