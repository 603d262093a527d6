-- ===== src/Shadow/Accounts.antt =====
-- src/expertflow/predictor/shadow.py: how the totals of a run add up.
use expertflow.Base.{
  str_eq, String, ℕ, ◌+◌, ◌≤◌, Bool, Bool-cases, true, false, not, ◌&&◌, inl, inr, List, [], ◌∷◌,
  Option, length, any, take, ltb, leb, ◌==◌, ok, value_error, raise_if, if◌then◌else◌, ◌≡◌, refl,
  sym, arith, >>=-eq-ok, ok-injective, length-keep_split, length-keep-le, some, none,
}
use mathlib.Core.Path.{subst}
use expertflow.Base.Dict
use expertflow.Base.Distinct.{elem, dedup}
use expertflow.Shadow.{
  PredictionSample, Totals, ShadowState, ShadowReport, Row, demand_all, speculate, count_row,
  count_ready, reset, enter_from, enter, shadow_row, candidates_of, shadow_rows, zip_rows,
  no_totals, no_state, shadow_report, admitted_differ, simulate_shadow,
}
use expertflow.Shadow.Speculation.{insertions, Speculates, speculate-Speculates}

-- The balance of the totals.
pub record IsBalanced (t : Totals) : Type 0 where
  pub demand : t.ready_before_demand + t.uncovered_blocking_misses ≡ t.demand_count
  pub hits : t.reactive_demand_hits ≤ t.demand_count
  pub predicted : t.predicted_ready_demands ≤ t.demand_count
  pub regret : t.eviction_regret ≤ t.additional_speculative_evictions
  pub evictions : t.additional_speculative_evictions ≤ insertions t
  pub inserted : insertions t ≤ t.taken

row-IsBalanced :
    (width : ℕ) (candidates target layer_reactive layer_shadow filled : List ℕ) (t u : Totals)
    → IsBalanced t
    → Speculates (length candidates) (count_row width candidates target layer_reactive t) u
    → IsBalanced (count_ready candidates target layer_shadow filled u)
unfolding count_row count_ready
row-IsBalanced width candidates target layer_reactive layer_shadow filled t u b s = record {
  demand = omega (
    arith,
    b.demand,
    s.demand,
    s.ready,
    s.uncovered,
    length-keep_split (λ x. elem x filled) (λ x. not (elem x filled)) target
        (λ x. not_lem (elem x filled)),
  );
  hits =
      omega (arith, b.hits, s.demand, s.hits, length-keep-le (λ x. elem x layer_reactive) target);
  predicted = omega (
    arith,
    b.predicted,
    s.demand,
    s.predicted,
    length-keep-le (λ x. elem x candidates && not (elem x layer_shadow)) target,
  );
  regret = omega (arith, b.regret, s.regret);
  evictions = omega (arith, b.evictions, s.evictions);
  inserted = omega (arith, b.inserted, s.inserted, s.taken);
}
  where
    not_lem : (c : Bool) → not c ≡ (if c then false else true)
    not_lem true = refl
    not_lem false = refl

shadow_row-IsBalanced :
    (width capacity : ℕ) (sample : PredictionSample) (ranking candidates : List ℕ)
    (state : ShadowState) {next : ShadowState}
    → IsBalanced state.totals
    → shadow_row width capacity sample ranking candidates state ≡ ok next
    → IsBalanced next.totals
unfolding shadow_row
shadow_row-IsBalanced width capacity sample ranking candidates state b h =
    let target = dedup sample.target_expert_ids in
    let layer_reactive = Dict.get_or [] sample.target_layer state.reactive in
    let layer_shadow = Dict.get_or [] sample.target_layer state.shadow in
    let counted = count_row width candidates target layer_reactive state.totals in
    let (_, _, h₁) =
      >>=-eq-ok
        (raise_if (any (λ x. not (elem x (take width ranking))) candidates)
          (value_error "admitted candidates must come from the selected ranking prefix"))
        _ h in
    let (filled, speculated, h₂) =
      >>=-eq-ok (speculate capacity target candidates layer_shadow counted) _ h₁ in
    let (_, _, h₃) = >>=-eq-ok (demand_all layer_reactive sample.target_expert_ids capacity) _ h₂ in
    let (_, _, h₄) = >>=-eq-ok (demand_all filled.0 sample.target_expert_ids capacity) _ h₃ in
    subst (λ (s : ShadowState). IsBalanced s.totals) (ok-injective h₄)
      (row-IsBalanced width candidates target layer_reactive layer_shadow filled.0 state.totals
        filled.1 b
        (speculate-Speculates capacity target candidates layer_shadow counted speculated))

enter_from-totals :
    (current : Option String) (conversation : String) (state : ShadowState)
    → (enter_from current conversation state).totals ≡ state.totals
unfolding enter_from reset
enter_from-totals none conversation state = refl
enter_from-totals (some current) conversation state =
    elim (Bool-cases (str_eq current conversation)) [ inl e ↦ rw e refl | inr e ↦ rw e refl ]

enter-totals :
    (conversation : String) (state : ShadowState) → (enter conversation state).totals ≡ state.totals
unfolding enter
enter-totals conversation state = enter_from-totals state.conversation conversation state

shadow_rows-IsBalanced :
    (width capacity : ℕ) (rows : List Row) (state : ShadowState) {last : ShadowState}
    → IsBalanced state.totals
    → shadow_rows width capacity rows state ≡ ok last
    → IsBalanced last.totals
unfolding shadow_rows
shadow_rows-IsBalanced width capacity [] state b h =
    subst (λ (s : ShadowState). IsBalanced s.totals) (ok-injective h) b
shadow_rows-IsBalanced width capacity ((sample, ranking, admitted) ∷ rows) state b h =
    let candidates = candidates_of width ranking admitted in
    let entered = enter sample.conversation_id state in
    let (next, row, rest) =
      >>=-eq-ok (shadow_row width capacity sample ranking candidates entered)
        (shadow_rows width capacity rows) h in
    shadow_rows-IsBalanced width capacity rows next
      (shadow_row-IsBalanced width capacity sample ranking candidates entered
        (subst IsBalanced (sym (enter-totals sample.conversation_id state)) b) row)
      rest

no_totals-IsBalanced : IsBalanced no_totals
no_totals-IsBalanced = record {
  demand = refl;
  hits = omega arith;
  predicted = omega arith;
  regret = omega arith;
  evictions = omega arith;
  inserted = omega arith;
}

-- The totals of every run that returns: each demand is ready or blocking and no hits exceed the
-- demands, no more evictions are regretted than made or made than experts inserted, and no more
-- experts are inserted than candidates were taken.
pub simulate_shadow-IsBalanced :
    (rows : List PredictionSample) (rankings : List (List ℕ)) (admitted : Option (List (List ℕ)))
    (width capacity expert_bytes : ℕ) {report : ShadowReport}
    → simulate_shadow rows rankings admitted width capacity expert_bytes ≡ ok report
    → IsBalanced report.totals
unfolding simulate_shadow shadow_report
simulate_shadow-IsBalanced rows rankings admitted width capacity expert_bytes h =
    let (_, _, h₁) =
      >>=-eq-ok
        (raise_if (not (length rows == length rankings))
          (value_error "samples and rankings must have identical length"))
        _ h in
    let (_, _, h₂) =
      >>=-eq-ok
        (raise_if (admitted_differ (length rows) admitted)
          (value_error "samples and admitted rankings must have identical length"))
        _ h₁ in
    let (_, _, h₃) =
      >>=-eq-ok
        (raise_if (not (elem width (8 ∷ 12 ∷ 16 ∷ [])) && not (leb 1 width && leb width 128))
          (value_error "candidate width is invalid"))
        _ h₂ in
    let (_, _, h₄) =
      >>=-eq-ok
        (raise_if (ltb capacity width)
          (value_error "cache capacity must be at least the candidate width"))
        _ h₃ in
    let (state, ran, h₅) =
      >>=-eq-ok (shadow_rows width capacity (zip_rows rows rankings admitted) no_state) _ h₄ in
    subst (λ (r : ShadowReport). IsBalanced r.totals) (ok-injective h₅)
      (shadow_rows-IsBalanced width capacity (zip_rows rows rankings admitted) no_state
        no_totals-IsBalanced ran)
