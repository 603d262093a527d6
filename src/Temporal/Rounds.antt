-- ===== src/Temporal/Rounds.antt =====
-- src/expertflow/predictor/temporal_shadow.py: a round does not fail, and what it counts.
use expertflow.Base.{
  ℕ, ◌+◌, ◌≤◌, ◌<◌, none, some, List, [], take, ok, ◌≡◌, refl, arith, length-keep-le,
}
use expertflow.Base.Distinct.{elem, dedup}
use expertflow.Base.Ordered.Slots.{IsSlot}
use expertflow.Shadow.Total.{demand_all-IsSlot}
use expertflow.Temporal.{
  TemporalSample, TemporalTotals, TemporalState, begin, count_demand, count_covered, temporal_row,
}
use expertflow.Temporal.Predictions.{Predicts, predict_all-Predicts}

-- The balance of the totals.
pub record IsBalanced (t : TemporalTotals) : Type 0 where
  pub demand : t.ready_before_demand + t.uncovered_blocking_misses ≡ t.demand_count
  pub hits : t.reactive_demand_hits ≤ t.demand_count
  pub regret : t.eviction_regret ≤ t.additional_speculative_evictions
  pub evictions :
      t.additional_speculative_evictions
      ≤ t.useful_speculative_insertions + t.wasted_speculative_insertions

-- Both caches within the capacity, and balanced totals.
pub record IsSound (capacity : ℕ) (state : TemporalState) : Type 0 where
  pub reactive : IsSlot capacity state.reactive
  pub shadow : IsSlot capacity state.shadow
  pub balanced : IsBalanced state.totals

covered-IsBalanced :
    (target reactive shadow : List ℕ) (t u : TemporalTotals)
    → IsBalanced t
    → Predicts (count_demand target reactive t) u
    → IsBalanced (count_covered target shadow u)
unfolding count_demand count_covered
covered-IsBalanced target reactive shadow t u b q = record {
  demand =
      omega (
        arith,
        b.demand,
        q.demand,
        q.ready,
        q.uncovered,
        length-keep-le (λ x. elem x shadow) target,
      );
  hits = omega (arith, b.hits, q.demand, q.hits, length-keep-le (λ x. elem x reactive) target);
  regret = omega (arith, b.regret, q.regret);
  evictions = omega (arith, b.evictions, q.evictions);
}

-- A round from sound caches returns, and leaves them sound.
pub temporal_row-IsSound :
    (width capacity : ℕ) (sample : TemporalSample) (ranking : List ℕ) (state : TemporalState)
    → 0 < capacity
    → IsSound capacity state
    → (next : TemporalState) × (temporal_row width capacity sample ranking state ≡ ok next)
      × IsSound capacity next
      × (next.current_conversation ≡ state.current_conversation)
      × (next.previous ≡ some sample.target_expert_ids)
unfolding temporal_row
temporal_row-IsSound width capacity sample ranking state p s =
    let target = dedup sample.target_expert_ids in
    let counted = count_demand target state.reactive state.totals in
    let (filled, u, ran, slot, q) =
      predict_all-Predicts capacity p target (take width ranking) state.shadow counted s.shadow in
    let (next_reactive, first, fits₁) =
      demand_all-IsSlot capacity p state.reactive sample.target_expert_ids s.reactive in
    let (next_shadow, second, fits₂) =
      demand_all-IsSlot capacity p filled sample.target_expert_ids slot in
    (
      record state {
        reactive = next_reactive;
        shadow = next_shadow;
        previous = some sample.target_expert_ids;
        totals = count_covered target filled u;
      },
      rw (ran, first, second) refl,
      record {
        reactive = fits₁;
        shadow = fits₂;
        balanced = covered-IsBalanced target state.reactive filled state.totals u s.balanced q;
      },
      refl,
      refl,
    )

-- The start of a conversation, too.
pub begin-IsSound :
    (capacity : ℕ) (sample : TemporalSample) (state : TemporalState)
    → 0 < capacity
    → IsBalanced state.totals
    → (next : TemporalState) × (begin capacity sample state ≡ ok next)
      × IsSound capacity next
      × (next.current_conversation ≡ some sample.conversation_id)
unfolding begin
begin-IsSound capacity sample state p b =
    let (cache, ran, slot) =
      demand_all-IsSlot capacity p [] sample.source_expert_ids (tt, omega arith) in
    (
      record state {
        current_conversation = some sample.conversation_id;
        reactive = cache;
        shadow = cache;
        previous = none;
      },
      rw ran refl,
      record { reactive = slot; shadow = slot; balanced = b },
      refl,
    )
