-- ===== src/Temporal/Predictions.antt =====
-- src/expertflow/predictor/temporal_shadow.py: the predictions of a round, and what they count.
use expertflow.Base.{
  ℕ, ◌+◌, ◌≤◌, ◌<◌, Bool, true, false, List, [], ◌∷◌, length, ltb, if◌then◌else◌, ok, ◌≡◌, refl,
  arith, Bool-cases, inl, inr,
}
use expertflow.Base.Distinct.{elem, length-remove}
use expertflow.Base.Ordered.{move_to_end, store}
use expertflow.Base.Ordered.Slots.{IsSlot, IsSlot-store}
use expertflow.Shadow.{pop_first}
use expertflow.Shadow.Slots.{Distinct-move_to_end, length-move_to_end}
use expertflow.Temporal.{TemporalTotals, evict_oldest, count_inserted, predict_one, predict_all}

-- What the predictions leave as it was, and what they count.
pub record Predicts (t u : TemporalTotals) : Type 0 where
  pub demand : u.demand_count ≡ t.demand_count
  pub hits : u.reactive_demand_hits ≡ t.reactive_demand_hits
  pub ready : u.ready_before_demand ≡ t.ready_before_demand
  pub uncovered : u.uncovered_blocking_misses ≡ t.uncovered_blocking_misses
  pub regret :
      u.eviction_regret + t.additional_speculative_evictions
      ≤ u.additional_speculative_evictions + t.eviction_regret
  pub evictions :
      u.additional_speculative_evictions
        + (t.useful_speculative_insertions + t.wasted_speculative_insertions)
      ≤ u.useful_speculative_insertions + u.wasted_speculative_insertions
        + t.additional_speculative_evictions

Predicts-self : (t : TemporalTotals) → Predicts t t
Predicts-self t = record {
  demand = refl;
  hits = refl;
  ready = refl;
  uncovered = refl;
  regret = omega arith;
  evictions = omega arith;
}

Predicts-chain : (t u v : TemporalTotals) → Predicts t u → Predicts u v → Predicts t v
Predicts-chain t u v p q = record {
  demand = omega (arith, p.demand, q.demand);
  hits = omega (arith, p.hits, q.hits);
  ready = omega (arith, p.ready, q.ready);
  uncovered = omega (arith, p.uncovered, q.uncovered);
  regret = omega (arith, p.regret, q.regret);
  evictions = omega (arith, p.evictions, q.evictions);
}

count_inserted-Predicts :
    (useful : Bool) (t : TemporalTotals) → Predicts t (count_inserted useful t)
unfolding count_inserted
count_inserted-Predicts true t = record {
  demand = refl;
  hits = refl;
  ready = refl;
  uncovered = refl;
  regret = omega arith;
  evictions = omega arith;
}
count_inserted-Predicts false t = record {
  demand = refl;
  hits = refl;
  ready = refl;
  uncovered = refl;
  regret = omega arith;
  evictions = omega arith;
}

abbrev evicted : Bool → TemporalTotals → TemporalTotals
evicted regretted t = record t {
  additional_speculative_evictions = t.additional_speculative_evictions + 1;
  eviction_regret = if regretted then t.eviction_regret + 1 else t.eviction_regret;
}

evicted-Predicts :
    (regretted useful : Bool) (t : TemporalTotals)
    → Predicts t (count_inserted useful (evicted regretted t))
unfolding count_inserted
evicted-Predicts true true t = record {
  demand = refl;
  hits = refl;
  ready = refl;
  uncovered = refl;
  regret = omega arith;
  evictions = omega arith;
}
evicted-Predicts true false t = record {
  demand = refl;
  hits = refl;
  ready = refl;
  uncovered = refl;
  regret = omega arith;
  evictions = omega arith;
}
evicted-Predicts false true t = record {
  demand = refl;
  hits = refl;
  ready = refl;
  uncovered = refl;
  regret = omega arith;
  evictions = omega arith;
}
evicted-Predicts false false t = record {
  demand = refl;
  hits = refl;
  ready = refl;
  uncovered = refl;
  regret = omega arith;
  evictions = omega arith;
}

module _ (capacity : ℕ) (p : 0 < capacity) (target : List ℕ) where
  full_round :
      (x : ℕ) (cache : List ℕ) (t : TemporalTotals)
      → IsSlot capacity cache
      → elem x cache ≡ false
      → ltb (length cache) capacity ≡ false
      → (c : List ℕ) × (u : TemporalTotals) × (predict_one capacity target x cache t ≡ ok (c, u))
        × IsSlot capacity c
        × Predicts t u
  unfolding predict_one evict_oldest pop_first
  full_round x [] t s miss full = absurd (ground arith)
  full_round x (y ∷ cache) t s miss full =
      let later : elem x cache ≡ false = unfold elem in ground (arith, miss) in
      (
        store x cache,
        count_inserted (elem x target) (evicted (elem y target) t),
        rw (miss, full) refl,
        IsSlot-store capacity x cache s.0.1 later (omega (arith, s.1)),
        evicted-Predicts (elem y target) (elem x target) t,
      )

  predict_one-Predicts :
      (x : ℕ) (cache : List ℕ) (t : TemporalTotals)
      → IsSlot capacity cache
      → (c : List ℕ) × (u : TemporalTotals) × (predict_one capacity target x cache t ≡ ok (c, u))
        × IsSlot capacity c
        × Predicts t u
  unfolding predict_one evict_oldest
  predict_one-Predicts x cache t s = elim (Bool-cases (elem x cache)) [
    | inl hit ↦ (
      move_to_end x cache,
      t,
      rw hit refl,
      (
        Distinct-move_to_end x cache s.0,
        omega (arith, length-move_to_end x cache, length-remove x cache s.0 hit, s.1),
      ),
      Predicts-self t,
    )
    | inr miss ↦ elim (Bool-cases (ltb (length cache) capacity)) [
      | inl free ↦ (
        store x cache,
        count_inserted (elem x target) t,
        rw (miss, free) refl,
        IsSlot-store capacity x cache s.0 miss (ground arith),
        count_inserted-Predicts (elem x target) t,
      )
      | inr full ↦ full_round x cache t s miss full
    ]
  ]

  pub predict_all-Predicts :
      (xs cache : List ℕ) (t : TemporalTotals)
      → IsSlot capacity cache
      → (c : List ℕ) × (u : TemporalTotals) × (predict_all capacity target xs cache t ≡ ok (c, u))
        × IsSlot capacity c
        × Predicts t u
  unfolding predict_all
  predict_all-Predicts [] cache t s = (cache, t, refl, s, Predicts-self t)
  predict_all-Predicts (x ∷ xs) cache t s =
      let (c, u, one, slot, first) = predict_one-Predicts x cache t s in
      let (d, v, rest, last, later) = predict_all-Predicts xs c u slot in
      (d, v, rw one rest, last, Predicts-chain t u v first later)
