-- ===== src/Calibration/Budgeted.antt =====
-- src/expertflow/compiler/cost_model.py: the batch that is selected, within the budget.
use expertflow.Base.{
  ℕ, zero, suc, ◌+◌, ◌≤◌, ◌<◌, min, Bool, true, false, length, ◌≡◌, arith, Bool-cases, inl, inr,
}
use expertflow.Calibration.{
  CostEstimate, Reason, Batch, can_take, take_one, explore, take_sentinel, fill, by_winner,
  by_boundary, by_uncertainty, by_sentinel,
}
use expertflow.Calibration.Take.{Keeps, Keeps-refl, Keeps-trans, take_one-Keeps, take_one-length}

-- What a part of the choice does with a batch of more candidates than the budget: it keeps the
-- candidates, and it selects `n` more, or as many as the budget leaves.
pub record Fills (budget n : ℕ) (before after : Batch) : Type 0 where
  pub keeps : Keeps before after
  pub count : length after.selected ≡ min (length before.selected + n) budget

-- A batch of more candidates than the budget, within the budget.
pub record IsOpen (budget : ℕ) (batch : Batch) : Type 0 where
  pub more : budget < length batch.selected + length batch.available
  pub within : length batch.selected ≤ budget

IsOpen-Fills : (budget n : ℕ) (a b : Batch) → IsOpen budget a → Fills budget n a b → IsOpen budget b
IsOpen-Fills budget n a b o f = record {
  more = omega (arith, o.more, f.keeps.all);
  within = omega (arith, f.count);
}

Fills-trans :
    (budget m n k : ℕ) (a b c : Batch)
    → k ≡ m + n
    → Fills budget m a b
    → Fills budget n b c
    → Fills budget k a c
Fills-trans budget m n k a b c sum f g = record {
  keeps = Keeps-trans a b c f.keeps g.keeps;
  count = omega (arith, sum, f.count, g.count);
}

Fills-none : (budget : ℕ) (a : Batch) → IsOpen budget a → Fills budget 0 a a
Fills-none budget a o = record { keeps = Keeps-refl a; count = omega (arith, o.within) }

take_one-Fills :
    (budget : ℕ) (reason : Reason) (before : CostEstimate → CostEstimate → Bool) (batch : Batch)
    → IsOpen budget batch
    → Fills budget 1 batch (take_one budget reason before batch)
take_one-Fills budget reason before batch o = record {
  keeps = take_one-Keeps budget reason before batch;
  count = omega (arith, take_one-length budget reason before batch o.more o.within);
}

spent :
    (budget : ℕ) (batch : Batch)
    → IsOpen budget batch
    → can_take budget batch ≡ false
    → budget ≤ length batch.selected
unfolding can_take
spent budget batch o h = ground (arith, o.more, h)

explore-Fills :
    (budget error fuel : ℕ) (batch : Batch)
    → IsOpen budget batch
    → Fills budget fuel batch (explore budget error fuel batch)
unfolding explore
explore-Fills budget error zero batch o = Fills-none budget batch o
explore-Fills budget error (suc fuel) batch o =
    let next = take_one budget Reason.exploration (by_uncertainty error) batch in
    let first = take_one-Fills budget Reason.exploration (by_uncertainty error) batch o in
    elim (Bool-cases (can_take budget batch)) [
      | inl h ↦
          rw (explore, h)
            (Fills-trans budget 1 fuel (suc fuel) batch next (explore budget error fuel next)
              (omega arith) first
              (explore-Fills budget error fuel next (IsOpen-Fills budget 1 batch next o first)))
      | inr h ↦
          rw (explore, h)
            (record {
              keeps = Keeps-refl batch;
              count = omega (arith, o.within, spent budget batch o h);
            })
    ]

take_sentinel-Fills :
    (budget : ℕ) (due : Bool) (batch : Batch)
    → IsOpen budget batch
    → (n : ℕ) × Fills budget n batch (take_sentinel budget due batch)
unfolding take_sentinel
take_sentinel-Fills budget true batch o =
    (1, take_one-Fills budget Reason.sentinel by_sentinel batch o)
take_sentinel-Fills budget false batch o = (0, Fills-none budget batch o)

-- The calls together spend the budget.
pub fill-Fills :
    (budget error : ℕ) (due : Bool) (batch : Batch)
    → IsOpen budget batch
    → Keeps batch (fill budget error due batch)
      × (length (fill budget error due batch).selected ≡ budget)
unfolding fill
fill-Fills budget error due batch o =
    let first = take_one budget Reason.predicted_winner by_winner batch in
    let second = take_one budget Reason.constraint_boundary by_boundary first in
    let third = take_one budget Reason.max_uncertainty (by_uncertainty error) second in
    let fourth = take_sentinel budget due third in
    let f1 = take_one-Fills budget Reason.predicted_winner by_winner batch o in
    let o1 = IsOpen-Fills budget 1 batch first o f1 in
    let f2 = take_one-Fills budget Reason.constraint_boundary by_boundary first o1 in
    let o2 = IsOpen-Fills budget 1 first second o1 f2 in
    let f3 = take_one-Fills budget Reason.max_uncertainty (by_uncertainty error) second o2 in
    let o3 = IsOpen-Fills budget 1 second third o2 f3 in
    let (n, f4) = take_sentinel-Fills budget due third o3 in
    let o4 = IsOpen-Fills budget n third fourth o3 f4 in
    let f5 = explore-Fills budget error budget fourth o4 in
    let last = explore budget error budget fourth in
    (
      Keeps-trans batch first last f1.keeps (
          Keeps-trans first second last f2.keeps (
            Keeps-trans second third last f3.keeps
              (Keeps-trans third fourth last f4.keeps f5.keeps))),
      omega (arith, f5.count, o4.within),
    )
