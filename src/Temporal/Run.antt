-- ===== src/Temporal/Run.antt =====
-- src/expertflow/predictor/temporal_shadow.py: a whole simulation.
use expertflow.Base.{
  ◌∙◌, ℕ, ◌≤◌, ◌<◌, Bool, true, false, not, ◌&&◌, String, str_eq, Option, none, some, List, [], ◌∷◌,
  length, ltb, leb, ◌==◌, if◌then◌else◌, Result, ok, err, value_error, ◌≡◌, refl, ap, ◌∙◌, arith,
  Bool-cases, inl, inr,
}
use expertflow.Temporal.{
  TemporalSample, TemporalState, TemporalReport, zero_totals, same_experts, breaks_off, is_new,
  arrive, temporal_rows, temporal_report, simulate_temporal_shadow,
}
use expertflow.Temporal.Rounds.{IsBalanced, IsSound, temporal_row-IsSound, begin-IsSound}

-- Within a conversation every sample starts from the experts that the one before it predicted from.
unfoldable pub follows : String → List ℕ → List TemporalSample → Bool
follows current target [] = true
follows current target (sample ∷ rows) =
    if str_eq sample.conversation_id current
    then same_experts sample.source_expert_ids target
      && follows current sample.target_expert_ids rows
    else follows sample.conversation_id sample.target_expert_ids rows

unfoldable pub is_continuous : List TemporalSample → Bool
is_continuous [] = true
is_continuous (sample ∷ rows) = follows sample.conversation_id sample.target_expert_ids rows

-- The exception of a sequence that is not continuous.
abbrev pub verdict {ℓ} : {A : Type ℓ} → Bool → A → Result A
verdict continuous value =
    if continuous
    then ok value
    else err (value_error "temporal shadow input is not a continuous conversation sequence")

is_new-some :
    (o : Option String) (current : String) (sample : TemporalSample)
    → o ≡ some current
    → is_new o sample ≡ not (str_eq sample.conversation_id current)
unfolding is_new
is_new-some o current sample h = ap (λ q. is_new q sample) h

breaks_off-some :
    (o : Option (List ℕ)) (target : List ℕ) (sample : TemporalSample)
    → o ≡ some target
    → breaks_off o sample ≡ not (same_experts sample.source_expert_ids target)
unfolding breaks_off
breaks_off-some o target sample h = ap (λ q. breaks_off q sample) h

module _ (width capacity : ℕ) (p : 0 < capacity) where
  temporal_rows-IsSound :
      (rows : List TemporalSample) (rankings : List (List ℕ)) (current : String) (target : List ℕ)
      (state : TemporalState)
      → state.current_conversation ≡ some current
      → state.previous ≡ some target
      → length rows ≡ length rankings
      → IsSound capacity state
      → (last : TemporalState) × (temporal_rows width capacity rows rankings state
          ≡ verdict (follows current target rows) last)
        × IsSound capacity last
  unfolding temporal_rows follows arrive
  temporal_rows-IsSound [] rankings current target state c t same s = (state, refl, s)
  temporal_rows-IsSound (sample ∷ rows) [] current target state c t same s =
      absurd (omega (arith, same))
  temporal_rows-IsSound (sample ∷ rows) (ranking ∷ rankings) current target state c t same s =
      let n = is_new-some state.current_conversation current sample c in
      let b = breaks_off-some state.previous target sample t in
      elim (Bool-cases (str_eq sample.conversation_id current)) [
        | inl old ↦ elim (Bool-cases (same_experts sample.source_expert_ids target)) [
          | inl on ↦
              let (next, ran, sound, c₁, t₁) =
                temporal_row-IsSound width capacity sample ranking state p s in
              let (last, rest, good) =
                temporal_rows-IsSound rows rankings current sample.target_expert_ids next (c₁ ∙ c)
                  t₁ (omega (arith, same)) sound in
              (last, rw (n, b, old, on, ran) rest, good)
          | inr off ↦ (state, rw (n, b, old, off) refl, s)
        ]
        | inr new ↦
            let (begun, started, fresh, c₀) = begin-IsSound capacity sample state p s.balanced in
            let (next, ran, sound, c₁, t₁) =
              temporal_row-IsSound width capacity sample ranking begun p fresh in
            let (last, rest, good) =
              temporal_rows-IsSound rows rankings sample.conversation_id sample.target_expert_ids
                next (c₁ ∙ c₀) t₁ (omega (arith, same)) sound in
            (last, rw (n, new, started, ran) rest, good)
      ]

abbrev start : TemporalState
start = record {
  current_conversation = none;
  reactive = [];
  shadow = [];
  previous = none;
  totals = zero_totals;
}

all_rows :
    (width capacity : ℕ) (rows : List TemporalSample) (rankings : List (List ℕ))
    → 0 < capacity
    → length rows ≡ length rankings
    → (last : TemporalState) × (temporal_rows width capacity rows rankings start
        ≡ verdict (is_continuous rows) last)
      × IsBalanced last.totals
unfolding temporal_rows is_continuous arrive is_new
all_rows width capacity [] rankings p same = (
  start,
  refl,
  record { demand = refl; hits = omega arith; regret = omega arith; evictions = omega arith },
)
all_rows width capacity (sample ∷ rows) [] p same = absurd (omega (arith, same))
all_rows width capacity (sample ∷ rows) (ranking ∷ rankings) p same =
    let (begun, started, fresh, c₀) = begin-IsSound capacity sample start p (record {
      demand = refl;
      hits = omega arith;
      regret = omega arith;
      evictions = omega arith;
    }) in
    let (next, ran, sound, c₁, t₁) =
      temporal_row-IsSound width capacity sample ranking begun p fresh in
    let (last, rest, good) =
      temporal_rows-IsSound width capacity p rows rankings sample.conversation_id
        sample.target_expert_ids next (c₁ ∙ c₀) t₁ (omega (arith, same)) sound in
    (last, rw (started, ran) rest, good.balanced)

-- With as many rankings as samples, a width from 1 to 128 and a capacity of at least the width: the
-- simulation returns a report if the samples are continuous, and otherwise raises the `ValueError` for
-- that; no eviction meets an empty cache. In the report each demand is ready or blocking, no hits
-- exceed the demands, and regrets, evictions and insertions bound one another in this order.
pub simulate_temporal_shadow-IsBalanced :
    (rows : List TemporalSample) (rankings : List (List ℕ)) (width capacity expert_bytes : ℕ)
    → length rows ≡ length rankings
    → 0 < width
    → width ≤ 128
    → width ≤ capacity
    → (report : TemporalReport) × (simulate_temporal_shadow rows rankings width capacity
          expert_bytes
        ≡ verdict (is_continuous rows) report)
      × IsBalanced report.totals
unfolding simulate_temporal_shadow temporal_report
simulate_temporal_shadow-IsBalanced rows rankings width capacity expert_bytes same positive narrow
      room =
    let (last, ran, balanced) =
      all_rows width capacity rows rankings (omega (arith, positive, room)) same in
    let same_test : (length rows == length rankings) ≡ true = ground arith in
    let low : leb 1 width ≡ true = ground arith in
    let high : leb width 128 ≡ true = ground arith in
    let wide : ltb capacity width ≡ false = ground arith in
    (
      temporal_report width capacity expert_bytes last.totals,
      rw (same_test, low, high, wide, ran)
          (elim (Bool-cases (is_continuous rows)) [ inl e ↦ rw e refl | inr e ↦ rw e refl ]),
      balanced,
    )
