-- ===== src/Shadow/Speculation.antt =====
-- src/expertflow/predictor/shadow.py: what the loop over the candidates does to the totals.
use expertflow.Base.{
  Result, ◌>>=◌, ℕ, suc, ◌+◌, ◌≤◌, Bool, true, false, List, [], ◌∷◌, length, ltb, ok, if◌then◌else◌,
  ◌≡◌, refl, ◌∙◌, arith, >>=-eq-ok, ok-injective,
}
use mathlib.Core.Path.{subst}
use expertflow.Base.Distinct.{elem}
use expertflow.Base.Ordered.{store}
use expertflow.Shadow.{Totals, pop_first, evict, count_insertion, speculate_one, speculate}

abbrev pub insertions : Totals → ℕ
insertions t = t.useful_speculative_insertions + t.wasted_speculative_insertions

-- What a part of the speculation with at most `n` insertions does to the totals.
pub record Speculates (n : ℕ) (t u : Totals) : Type 0 where
  pub demand : u.demand_count ≡ t.demand_count
  pub hits : u.reactive_demand_hits ≡ t.reactive_demand_hits
  pub ready : u.ready_before_demand ≡ t.ready_before_demand
  pub uncovered : u.uncovered_blocking_misses ≡ t.uncovered_blocking_misses
  pub predicted : u.predicted_ready_demands ≡ t.predicted_ready_demands
  pub taken : u.taken ≡ t.taken
  pub regret :
      u.eviction_regret + t.additional_speculative_evictions
      ≤ t.eviction_regret + u.additional_speculative_evictions
  pub evictions :
      u.additional_speculative_evictions + insertions t
      ≤ t.additional_speculative_evictions + insertions u
  pub inserted : insertions u ≤ insertions t + n

Speculates-nothing : (n : ℕ) (t : Totals) → Speculates n t t
Speculates-nothing n t = record {
  demand = refl;
  hits = refl;
  ready = refl;
  uncovered = refl;
  predicted = refl;
  taken = refl;
  regret = omega arith;
  evictions = omega arith;
  inserted = omega arith;
}

Speculates-then :
    (n : ℕ) (t u v : Totals) → Speculates 1 t u → Speculates n u v → Speculates (suc n) t v
Speculates-then n t u v a b = record {
  demand = b.demand ∙ a.demand;
  hits = b.hits ∙ a.hits;
  ready = b.ready ∙ a.ready;
  uncovered = b.uncovered ∙ a.uncovered;
  predicted = b.predicted ∙ a.predicted;
  taken = b.taken ∙ a.taken;
  regret = omega (arith, a.regret, b.regret);
  evictions = omega (arith, a.evictions, b.evictions);
  inserted = omega (arith, a.inserted, b.inserted);
}

-- An insertion in a layer with room.
count_insertion-Speculates : (b : Bool) (t : Totals) → Speculates 1 t (count_insertion b t)
unfolding count_insertion
count_insertion-Speculates true t = record {
  demand = refl;
  hits = refl;
  ready = refl;
  uncovered = refl;
  predicted = refl;
  taken = refl;
  regret = omega arith;
  evictions = omega arith;
  inserted = omega arith;
}
count_insertion-Speculates false t = record {
  demand = refl;
  hits = refl;
  ready = refl;
  uncovered = refl;
  predicted = refl;
  taken = refl;
  regret = omega arith;
  evictions = omega arith;
  inserted = omega arith;
}

-- The totals after an eviction.
abbrev evicted : Bool → Totals → Totals
evicted wanted t = record t {
  additional_speculative_evictions = t.additional_speculative_evictions + 1;
  eviction_regret = if wanted then t.eviction_regret + 1 else t.eviction_regret;
}

-- An eviction and the insertion that it makes room for.
evicted-Speculates :
    (wanted b : Bool) (t : Totals) → Speculates 1 t (count_insertion b (evicted wanted t))
unfolding count_insertion
evicted-Speculates wanted true t = record {
  demand = refl;
  hits = refl;
  ready = refl;
  uncovered = refl;
  predicted = refl;
  taken = refl;
  regret = ground arith;
  evictions = omega arith;
  inserted = omega arith;
}
evicted-Speculates wanted false t = record {
  demand = refl;
  hits = refl;
  ready = refl;
  uncovered = refl;
  predicted = refl;
  taken = refl;
  regret = ground arith;
  evictions = omega arith;
  inserted = omega arith;
}

-- The round of an expert by the answers to its two tests.
abbrev evict_if : Bool → List ℕ → List ℕ → Totals → Result (List ℕ × Totals)
evict_if room target cache t =
    if room
    then ok (cache, t)
    else do (victim, rest) ← pop_first cache; ok (rest, evicted (elem victim target) t)

abbrev round_if : Bool → Bool → List ℕ → ℕ → List ℕ → Totals → Result (List ℕ × Totals)
round_if hit room target expert cache t = if hit then ok (cache, t) else do
  (place, counted) ← evict_if room target cache t
  ok (store expert place, count_insertion (elem expert target) counted)

round_if-Speculates :
    (hit room : Bool) (target : List ℕ) (expert : ℕ) (cache : List ℕ) (t : Totals)
    {r : List ℕ × Totals}
    → round_if hit room target expert cache t ≡ ok r
    → Speculates 1 t r.1
unfolding pop_first
round_if-Speculates true room target expert cache t h =
    subst (λ r. Speculates 1 t r.1) (ok-injective h) (Speculates-nothing 1 t)
round_if-Speculates false true target expert cache t h =
    subst (λ r. Speculates 1 t r.1) (ok-injective h)
      (count_insertion-Speculates (elem expert target) t)
round_if-Speculates false false target expert [] t h = absurd (cc)
round_if-Speculates false false target expert (x ∷ cache) t h =
    subst (λ r. Speculates 1 t r.1) (ok-injective h)
      (evicted-Speculates (elem x target) (elem expert target) t)

pub speculate-Speculates :
    (capacity : ℕ) (target xs cache : List ℕ) (t : Totals) {r : List ℕ × Totals}
    → speculate capacity target xs cache t ≡ ok r
    → Speculates (length xs) t r.1
unfolding speculate speculate_one evict
speculate-Speculates capacity target [] cache t h =
    subst (λ r. Speculates 0 t r.1) (ok-injective h) (Speculates-nothing 0 t)
speculate-Speculates capacity target (x ∷ xs) cache t {r} h =
    let (next, one, rest) =
      >>=-eq-ok (speculate_one capacity target x cache t)
        (λ q. speculate capacity target xs q.0 q.1) h in
    Speculates-then (length xs) t next.1 r.1
      (round_if-Speculates (elem x cache) (ltb (length cache) capacity) target x cache t one)
      (speculate-Speculates capacity target xs next.0 next.1 rest)
