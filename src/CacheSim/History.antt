-- ===== src/CacheSim/History.antt =====
-- src/expertflow/analysis/cache_sim.py: `policy_outcomes` under the `lru` policy, over whole traces.
use expertflow.Base.{any_of_All, All-mono}
use expertflow.Base.{
  ℕ, ◌≤◌, ◌<◌, true, false, List, [], ◌∷◌, All, ltb, ◌==◌, if◌then◌else◌, ok, ◌≡◌, ◌⊎◌, refl, sym,
  inl, inr, arith, Bool-cases,
}
use expertflow.Base.Dict
use expertflow.Base.Dict.{Dict}
use expertflow.Base.Distinct.{Distinct}
use expertflow.Trace.Event.{RouterTraceEvent}
use expertflow.Base.Ordered.Recency.{keep_last, keep_last_all}
use expertflow.CacheSim.{lru_outcomes, outcomes_of, policy_outcomes, validated_trace, lru, demand}
use expertflow.CacheSim.Lru.{Fits, used, lru_event-keep_last}
use expertflow.CacheSim.Recency.{
  recent, recency_outcomes, keep_last-used, recent-Distinct, window_IsCache,
}

-- Histories without repetition, and the caches that hold their ends.
record Tracks (capacity : ℕ) (caches histories : Dict (List ℕ)) : Type 0 where
  window : (k : ℕ) → Dict.get_or [] k caches ≡ keep_last capacity (Dict.get_or [] k histories)
  distinct : (k : ℕ) → Distinct (Dict.get_or [] k histories)

-- One event keeps the caches at the ends of the histories.
Tracks-insert :
    (capacity : ℕ) (caches histories : Dict (List ℕ)) (e : RouterTraceEvent)
    → Fits capacity e
    → Tracks capacity caches histories
    → Tracks capacity
        (Dict.insert e.layer_id
          (keep_last capacity
            (used (keep_last capacity (Dict.get_or [] e.layer_id histories)) e.selected_expert_ids))
          caches)
        (Dict.insert e.layer_id
          (recent capacity (Dict.get_or [] e.layer_id histories) e.selected_expert_ids)
          histories)
Tracks-insert capacity caches histories e f t = record {
  window = λ k.
      rw (Dict.get_or-insert, Dict.get_or-insert)
        (ground (
          arith,
          t.window k,
          keep_last-used capacity (Dict.get_or [] e.layer_id histories) e (t.distinct e.layer_id) f,
        ));
  distinct = λ k. rw Dict.get_or-insert (kept k (Bool-cases (e.layer_id == k)));
}
  where
    kept :
        (k : ℕ)
        → ((e.layer_id == k) ≡ true) ⊎ ((e.layer_id == k) ≡ false)
        → Distinct (
            if e.layer_id == k
            then recent capacity (Dict.get_or [] e.layer_id histories) e.selected_expert_ids
            else Dict.get_or [] k histories)
    kept k (inl same) =
        rw same (
          recent-Distinct capacity (Dict.get_or [] e.layer_id histories) e (t.distinct e.layer_id)
            f)
    kept k (inr other) = rw other (t.distinct k)

module _ (capacity : ℕ) where
  lru_outcomes-recency :
      (trace : List RouterTraceEvent) (caches histories : Dict (List ℕ))
      → All (Fits capacity) trace
      → Tracks capacity caches histories
      → lru_outcomes capacity caches trace ≡ ok (recency_outcomes capacity histories trace)
  unfolding lru_outcomes recency_outcomes
  lru_outcomes-recency [] caches histories f t = refl
  lru_outcomes-recency (e ∷ trace) caches histories f t =
      let history = Dict.get_or [] e.layer_id histories in
      rw (t.window e.layer_id) (
        rw
          (lru_event-keep_last capacity (keep_last capacity history) e
            (window_IsCache capacity history e (t.distinct e.layer_id) f.0) f.0)
          (rw
            (lru_outcomes-recency trace _ _ f.1 (Tracks-insert capacity caches histories e f.0 t))))

  -- The validation lets a trace pass whose every demand fits a capacity that is not 0.
  pub validated_trace_lem :
      (trace : List RouterTraceEvent)
      → 0 < capacity
      → All (λ e. demand e ≤ capacity) trace
      → validated_trace trace capacity ≡ ok trace
  unfolding validated_trace
  validated_trace_lem trace p fits =
      let positive : (capacity == 0) ≡ false = ground arith in
      rw (
        positive,
        any_of_All _ trace
            (All-mono _ (λ e. ltb capacity (demand e) ≡ false) trace (λ e h. ground arith) fits),
      )

  demands :
      (trace : List RouterTraceEvent)
      → All (Fits capacity) trace
      → All (λ e. demand e ≤ capacity) trace
  demands trace fits = All-mono (Fits capacity) _ trace (λ e f. f.bounded) fits

  start : Tracks capacity [] []
  start =
      unfold Dict.get_or in
      record { window = λ k. sym (keep_last_all capacity [] (omega arith)); distinct = λ k. tt }

  -- With a capacity that is not 0, on a trace whose events have distinct experts, no more than the
  -- capacity, the `lru` policy raises no exception, and its outcomes are those of the recency
  -- orders that forget nothing: an expert is ready exactly if it is among the last `capacity` that
  -- its layer used.
  pub policy_outcomes-recency :
      (trace : List RouterTraceEvent)
      → 0 < capacity
      → All (Fits capacity) trace
      → policy_outcomes trace lru capacity ≡ ok (recency_outcomes capacity [] trace)
  unfolding policy_outcomes outcomes_of
  policy_outcomes-recency trace p fits =
      rw (validated_trace_lem trace p (demands trace fits))
        (lru_outcomes-recency trace [] [] fits start)
