-- ===== src/Shadow/Total.antt =====
-- src/expertflow/predictor/shadow.py: a run over valid arguments returns, and no cache outgrows its
-- capacity.
use expertflow.Base.{
  ℕ, ◌+◌, ◌≤◌, ◌<◌, Bool-cases, true, false, not, inl, inr, List, [], ◌∷◌, Option, length, any,
  take, ltb, leb, ◌==◌, ok, if◌then◌else◌, ◌≡◌, refl, arith, some, none, ==_refl, String, str_eq,
}
use expertflow.Base.Dict
use expertflow.Base.Dict.{Dict, get_or-insert}
use expertflow.Base.Distinct.{elem, dedup}
use expertflow.Base.Ordered.{store, move_to_end}
use expertflow.Base.Ordered.Recency.{keep_last, length-keep_last-le, Distinct-keep_last}
use expertflow.Shadow.{
  PredictionSample, Totals, ShadowState, ShadowReport, pop_first, demand_all, evict,
  count_insertion, speculate_one, speculate, count_row, count_ready, reset, enter_from, enter,
  shadow_row, candidates_of, shadow_rows, zip_rows, no_state, shadow_report, admitted_differ,
  simulate_shadow,
}
use expertflow.Base.Ordered.Slots.{IsSlot, IsSlot-insert, IsSlot-store}
use expertflow.Shadow.Slots.{demand_slot-keep_last, Distinct-move_to_end}

record AreSlots (capacity : ℕ) (state : ShadowState) : Type 0 where
  reactive : (k : ℕ) → IsSlot capacity (Dict.get_or [] k state.reactive)
  shadow : (k : ℕ) → IsSlot capacity (Dict.get_or [] k state.shadow)

module _ (capacity : ℕ) (p : 0 < capacity) where
  pub demand_all-IsSlot :
      (cache xs : List ℕ)
      → IsSlot capacity cache
      → (r : List ℕ) × (demand_all cache xs capacity ≡ ok r) × IsSlot capacity r
  unfolding demand_all
  demand_all-IsSlot cache [] s = (cache, refl, s)
  demand_all-IsSlot cache (x ∷ xs) s =
      let next = keep_last capacity (move_to_end x cache) in
      let (r, found, fits) = demand_all-IsSlot next xs (
        Distinct-keep_last capacity (move_to_end x cache) (Distinct-move_to_end x cache s.0),
        length-keep_last-le capacity (move_to_end x cache),
      ) in
      (r, rw (demand_slot-keep_last capacity x cache p s.0 s.1) found, fits)

  module _ (target : List ℕ) where
    full_round :
        (x : ℕ) (cache : List ℕ) (t : Totals)
        → IsSlot capacity cache
        → elem x cache ≡ false
        → ltb (length cache) capacity ≡ false
        → (r : List ℕ × Totals) × (speculate_one capacity target x cache t ≡ ok r)
          × IsSlot capacity r.0
    unfolding speculate_one evict pop_first
    full_round x [] t s miss full = absurd (ground arith)
    full_round x (y ∷ cache) t s miss full = (
      (
        store x cache,
        count_insertion (elem x target) (record t {
          additional_speculative_evictions = t.additional_speculative_evictions + 1;
          eviction_regret = if elem y target then t.eviction_regret + 1 else t.eviction_regret;
        }),
      ),
      rw (miss, full) refl,
      IsSlot-store capacity x cache s.0.1 (later miss) (omega (arith, s.1)),
    )
      where
        later : elem x (y ∷ cache) ≡ false → elem x cache ≡ false
        later h = unfold elem in ground arith

    speculate_one-IsSlot :
        (x : ℕ) (cache : List ℕ) (t : Totals)
        → IsSlot capacity cache
        → (r : List ℕ × Totals) × (speculate_one capacity target x cache t ≡ ok r)
          × IsSlot capacity r.0
    unfolding speculate_one evict
    speculate_one-IsSlot x cache t s = elim (Bool-cases (elem x cache)) [
      | inl hit ↦ ((cache, t), rw hit refl, s)
      | inr miss ↦ elim (Bool-cases (ltb (length cache) capacity)) [
        | inl free ↦ (
          (store x cache, count_insertion (elem x target) t),
          rw (miss, free) refl,
          IsSlot-store capacity x cache s.0 miss (ground arith),
        )
        | inr full ↦ full_round x cache t s miss full
      ]
    ]

    speculate-IsSlot :
        (xs cache : List ℕ) (t : Totals)
        → IsSlot capacity cache
        → (r : List ℕ × Totals) × (speculate capacity target xs cache t ≡ ok r)
          × IsSlot capacity r.0
    unfolding speculate
    speculate-IsSlot [] cache t s = ((cache, t), refl, s)
    speculate-IsSlot (x ∷ xs) cache t s =
        let (next, one, fits) = speculate_one-IsSlot x cache t s in
        let (r, rest, last) = speculate-IsSlot xs next.0 next.1 fits in (r, rw one rest, last)

any_missing :
    (xs ys : List ℕ)
    → ((x : ℕ) → elem x ys ≡ true → elem x xs ≡ true)
    → any (λ x. not (elem x xs)) ys ≡ false
unfolding any elem
any_missing xs [] h = refl
any_missing xs (y ∷ ys) h =
    rw (h y (rw (==_refl y) refl)) (any_missing xs ys (λ x m. h x (tail_elem x m)))
  where
    tail_elem : (x : ℕ) → elem x ys ≡ true → elem x (y ∷ ys) ≡ true
    tail_elem x m = unfold elem in ground arith

enter_from-AreSlots :
    (capacity : ℕ) (current : Option String) (conversation : String) (state : ShadowState)
    → AreSlots capacity state
    → AreSlots capacity (enter_from current conversation state)
unfolding enter_from reset Dict.get_or
enter_from-AreSlots capacity none conversation state s = record {
  reactive = λ k. (tt, omega arith);
  shadow = λ k. (tt, omega arith);
}
enter_from-AreSlots capacity (some current) conversation state s =
    elim (Bool-cases (str_eq current conversation)) [
      | inl e ↦ rw e s
      | inr e ↦ rw e (record { reactive = λ k. (tt, omega arith); shadow = λ k. (tt, omega arith) })
    ]

shadow_row-AreSlots :
    (width capacity : ℕ) (sample : PredictionSample) (ranking : List ℕ) (state : ShadowState)
    → 0 < capacity
    → AreSlots capacity state
    → (next : ShadowState) × (shadow_row width capacity sample ranking (take width ranking) state
        ≡ ok next)
      × AreSlots capacity next
unfolding shadow_row
shadow_row-AreSlots width capacity sample ranking state p s =
    let target = dedup sample.target_expert_ids in
    let layer = sample.target_layer in
    let layer_reactive = Dict.get_or [] layer state.reactive in
    let layer_shadow = Dict.get_or [] layer state.shadow in
    let (filled, speculated, fits) =
      speculate-IsSlot capacity p target (take width ranking) layer_shadow
        (count_row width (take width ranking) target layer_reactive state.totals)
        (s.shadow layer) in
    let (next_reactive, first, fits₁) =
      demand_all-IsSlot capacity p layer_reactive sample.target_expert_ids (s.reactive layer) in
    let (next_shadow, second, fits₂) =
      demand_all-IsSlot capacity p filled.0 sample.target_expert_ids fits in
    (
      record state {
        reactive = Dict.insert layer next_reactive state.reactive;
        shadow = Dict.insert layer next_shadow state.shadow;
        totals = count_ready (take width ranking) target layer_shadow filled.0 filled.1;
      },
      rw
          (
            any_missing (take width ranking) (take width ranking) (λ x m. m),
            speculated,
            first,
            second,
          )
          refl,
      record {
        reactive = IsSlot-insert capacity layer next_reactive state.reactive fits₁ s.reactive;
        shadow = IsSlot-insert capacity layer next_shadow state.shadow fits₂ s.shadow;
      },
    )

shadow_rows-AreSlots :
    (width capacity : ℕ) (rows : List PredictionSample) (rankings : List (List ℕ))
    (state : ShadowState)
    → 0 < capacity
    → AreSlots capacity state
    → (last : ShadowState) × (shadow_rows width capacity (zip_rows rows rankings none) state
        ≡ ok last)
      × AreSlots capacity last
unfolding shadow_rows zip_rows candidates_of enter
shadow_rows-AreSlots width capacity [] rankings state p s = (state, refl, s)
shadow_rows-AreSlots width capacity (sample ∷ rows) [] state p s = (state, refl, s)
shadow_rows-AreSlots width capacity (sample ∷ rows) (ranking ∷ rankings) state p s =
    let entered = enter_from state.conversation sample.conversation_id state in
    let (next, row, fits) =
      shadow_row-AreSlots width capacity sample ranking entered p
        (enter_from-AreSlots capacity state.conversation sample.conversation_id state s) in
    let (last, rest, all_fit) = shadow_rows-AreSlots width capacity rows rankings next p fits in
    (last, rw row rest, all_fit)

no_state-AreSlots : (capacity : ℕ) → AreSlots capacity no_state
unfolding Dict.get_or
no_state-AreSlots capacity = record {
  reactive = λ k. (tt, omega arith);
  shadow = λ k. (tt, omega arith);
}

-- With as many rankings as samples, a width from 1 to 128 and a capacity of at least the width, the
-- simulation without admitted rankings returns a report: no eviction meets an empty cache.
pub simulate_shadow_total :
    (rows : List PredictionSample) (rankings : List (List ℕ)) (width capacity expert_bytes : ℕ)
    → length rows ≡ length rankings
    → 0 < width
    → width ≤ 128
    → width ≤ capacity
    → (report : ShadowReport) × (simulate_shadow rows rankings none width capacity expert_bytes
        ≡ ok report)
unfolding simulate_shadow admitted_differ
simulate_shadow_total rows rankings width capacity expert_bytes same positive narrow room =
    let (last, ran, _) =
      shadow_rows-AreSlots width capacity rows rankings no_state (omega (arith, positive, room))
        (no_state-AreSlots capacity) in
    let same_test : (length rows == length rankings) ≡ true = ground arith in
    let low : leb 1 width ≡ true = ground arith in
    let high : leb width 128 ≡ true = ground arith in
    let wide : ltb capacity width ≡ false = ground arith in
    (
      shadow_report width capacity expert_bytes last.totals,
      rw (same_test, low, high, wide)
          (elim (Bool-cases (elem width (8 ∷ 12 ∷ 16 ∷ []))) [
            | inl e ↦ rw (e, ran) refl
            | inr e ↦ rw (e, ran) refl
          ]),
    )
