-- ===== src/Calibration/Residuals.antt =====
-- src/expertflow/compiler/cost_model.py: the loop of `update_calibration` over the metrics.
use expertflow.Base.{
  ℕ, ◌+◌, ◌≤◌, ◌*◌, ◌-◌, Option-cases, sym, max, true, false, ◌⊎◌, String, Option, none, some, [],
  ◌∷◌, All, ltb, str_eq, ok, ◌≡◌, refl, arith, ◌∙◌, Bool-cases, inl, inr,
}
use expertflow.Calibration.Metrics.{Metrics, metric, has_metric, residual, max_float, worst_error}
use mathlib.Core.Path.{subst}

-- A name that the metrics have has one of their values.
metric_present :
    (least_number : ℕ) (name : String) (metrics : Metrics)
    → has_metric metrics name ≡ true
    → All (λ m. least_number ≤ m.1) metrics
    → (v : ℕ) × (metric name metrics ≡ ok v) × (least_number ≤ v)
unfolding has_metric metric
metric_present least_number name [] h k = cc
metric_present least_number name ((n, v) ∷ metrics) h k = elim (Bool-cases (str_eq n name)) [
  | inl e ↦ (v, rw e refl, k.0)
  | inr e ↦
      let (u, found, big) = metric_present least_number name metrics (rw e at h) k.1 in
      (u, rw (e, found) refl, big)
]

max-either : (m n : ℕ) → (max m n ≡ m) ⊎ (max m n ≡ n)
max-either m n = elim (Bool-cases (ltb m n)) [
  | inl h ↦ inr (ground (arith, h))
  | inr h ↦ inl (ground (arith, h))
]

module _ (round : ℕ → ℕ → Option ℕ) (one : ℕ) where
  -- A finite residual: 100 times the distance of two numbers, by the second, rounded three times.
  pub record IsResidual (prediction actual size : ℕ) : Type 0 where
    pub gap : ℕ
    pub scaled : ℕ
    pub distance : round ((prediction - actual) + (actual - prediction)) 1 ≡ some gap
    pub percent : round (gap * 100) 1 ≡ some scaled
    pub share : round (scaled * one) actual ≡ some size

  residual-IsResidual :
      (prediction actual : ℕ) {size : ℕ}
      → residual round one prediction actual ≡ some size
      → IsResidual prediction actual size
  unfolding residual
  residual-IsResidual prediction actual h =
      elim (Option-cases (round ((prediction - actual) + (actual - prediction)) 1)) [
        | inl e ↦ absurd (cc (rw (residual, e) at h))
        | inr (gap, e) ↦ elim (Option-cases (round (gap * 100) 1)) [
          | inl f ↦ absurd (cc (rw (residual, e, f) at h))
          | inr (scaled, f) ↦ record {
            gap = gap;
            scaled = scaled;
            distance = e;
            percent = f;
            share = rw (residual, e, f) at h;
          }
        ]
      ]

module _ (round : ℕ → ℕ → Option ℕ) (one least_number : ℕ) (measured : Metrics) where
  -- The residual of a metric, where it is measured, is finite and no more than the error.
  pub record Deviates (error : ℕ) (m : String × ℕ) : Type 0 where
    pub actual : ℕ
    pub size : ℕ
    pub found : metric m.0 measured ≡ ok actual
    pub finite : IsResidual round one m.1 actual size
    pub within : size ≤ error

  -- The greatest residual is that of a metric, or the start.
  abbrev pub Attained : ℕ → ℕ → Metrics → Type 0
  Attained start error [] = error ≡ start
  Attained start error (m ∷ predicted) =
      ((actual : ℕ) × (metric m.0 measured ≡ ok actual) × IsResidual round one m.1 actual error)
      ⊎ Attained start error predicted

  -- The residual of some metric is infinite.
  abbrev pub Overflows : Metrics → Type 0
  Overflows [] = ⊥
  Overflows (m ∷ predicted) =
      ((actual : ℕ) × (metric m.0 measured ≡ ok actual) × (residual round one m.1 actual ≡ none))
      ⊎ Overflows predicted

  Attained-start :
      (start error : ℕ) (predicted : Metrics) → error ≡ start → Attained start error predicted
  Attained-start start error [] h = h
  Attained-start start error (m ∷ predicted) h = inr (Attained-start start error predicted h)

  Attained-either :
      (start other error : ℕ) (predicted : Metrics)
      → Attained start error predicted
      → (error ≡ start) ⊎ Attained other error predicted
  Attained-either start other error [] h = inl h
  Attained-either start other error (m ∷ predicted) (inl h) = inr (inl h)
  Attained-either start other error (m ∷ predicted) (inr h) =
      elim (Attained-either start other error predicted h) [
        | inl same ↦ inl same
        | inr later ↦ inr (inr later)
      ]

  Attained-cons :
      (start error prediction actual size : ℕ) (name : String) (predicted : Metrics)
      → metric name measured ≡ ok actual
      → IsResidual round one prediction actual size
      → Attained (max start size) error predicted
      → Attained start error ((name, prediction) ∷ predicted)
  Attained-cons start error prediction actual size name predicted found finite reached =
      elim (Attained-either (max start size) start error predicted reached) [
        | inl same ↦ elim (max-either start size) [
          | inl left ↦ inr (Attained-start start error predicted (same ∙ left))
          | inr right ↦ inl (
            actual,
            found,
            subst (IsResidual round one prediction actual) (sym (same ∙ right)) finite,
          )
        ]
        | inr other ↦ inr other
      ]

  -- Metrics that pass the tests of the loop.
  pub record Pass (predicted : Metrics) : Type 0 where
    pub names : All (λ m. has_metric measured m.0 ≡ true) predicted
    pub predictions : All (λ m. least_number ≤ m.1) predicted
    pub measurements : All (λ m. least_number ≤ m.1) measured

  Pass-first :
      (name : String) (prediction : ℕ) (predicted : Metrics)
      → Pass ((name, prediction) ∷ predicted)
      → (actual : ℕ) × (metric name measured ≡ ok actual)
        × (ltb prediction least_number ≡ false)
        × (ltb actual least_number ≡ false)
        × Pass predicted
  Pass-first name prediction predicted h =
      let (actual, found, big) =
        metric_present least_number name measured h.names.0 h.measurements in
      (
        actual,
        found,
        ground (arith, h.predictions.0),
        ground (arith, big),
        record { names = h.names.1; predictions = h.predictions.1; measurements = h.measurements },
      )

  worst_error_infinite :
      (predicted : Metrics)
      → Pass predicted
      → worst_error round one least_number measured none predicted ≡ ok none
  unfolding worst_error max_float
  worst_error_infinite [] h = refl
  worst_error_infinite ((name, prediction) ∷ predicted) h =
      let (actual, found, first, second, rest) = Pass-first name prediction predicted h in
      rw (found, first, second, worst_error_infinite predicted rest) refl

  pub worst_error_total :
      (predicted : Metrics) (start : ℕ)
      → Pass predicted
      → ((worst_error round one least_number measured (some start) predicted ≡ ok none)
          × Overflows predicted)
        ⊎ ((error : ℕ) × (worst_error round one least_number measured (some start) predicted
              ≡ ok (some error))
            × (start ≤ error)
            × All (Deviates error) predicted
            × Attained start error predicted)
  unfolding worst_error max_float
  worst_error_total [] start h = inr (start, refl, omega arith, tt, refl)
  worst_error_total ((name, prediction) ∷ predicted) start h =
      let (actual, found, first, second, rest) = Pass-first name prediction predicted h in
      elim (Option-cases (residual round one prediction actual)) [
        | inl e ↦ inl (
          rw (found, first, second, e, worst_error_infinite predicted rest) refl,
          inl (actual, found, e),
        )
        | inr (size, e) ↦
            let finite = residual-IsResidual round one prediction actual e in
            elim (worst_error_total predicted (max start size) rest) [
              | inl (ran, later) ↦ inl (rw (found, first, second, e, ran) refl, inr later)
              | inr (error, ran, above, bound, reached) ↦ inr (
                error,
                rw (found, first, second, e, ran) refl,
                omega (arith, above),
                (
                  record {
                    actual = actual;
                    size = size;
                    found = found;
                    finite = finite;
                    within = omega (arith, above);
                  },
                  bound,
                ),
                Attained-cons start error prediction actual size name predicted found finite
                    reached,
              )
            ]
      ]
