-- ===== src/CacheSim/Lru.antt =====
-- src/expertflow/analysis/cache_sim.py: one event under the `lru` policy against the recency order.
use expertflow.Base.{
  ◌++◌, List, ℕ, ◌+◌, ◌≤◌, false, not, length, ok, ◌≡◌, arith, length-append, length-keep_split,
  All-keep,
}
use expertflow.Base.Distinct.{elem, Distinct, Distinct-append, Distinct-keep, elem-keep_of}
use mathlib.Core.List.{append_assoc}
use mathlib.Core.Path.{subst}
use expertflow.Base.Ordered.Recency.{keep_last}
use expertflow.CacheSim.{demand, lru_event, PolicyEventOutcome}
use expertflow.Trace.Event.{RouterTraceEvent}
use expertflow.CacheSim.Scan.{SameKeys, spare, hits, misses, scan-hits, SameKeys-scan}
use expertflow.CacheSim.Load.{load-keep_last}

-- A cache within its capacity, every key once.
pub record IsCache (capacity : ℕ) (cache : List ℕ) : Type 0 where
  pub distinct : Distinct cache
  pub bounded : length cache ≤ capacity

-- A demand that the validation of the trace lets pass.
pub record Fits (capacity : ℕ) (e : RouterTraceEvent) : Type 0 where
  pub distinct : Distinct e.selected_expert_ids
  pub bounded : demand e ≤ capacity

-- The recency order after an event: what it did not use, its hits, and its misses.
unfoldable pub used : List ℕ → List ℕ → List ℕ
used cache ids = spare ids cache ++ (hits cache ids ++ misses cache ids)

unfoldable pub hit_outcome : List ℕ → RouterTraceEvent → PolicyEventOutcome
hit_outcome cache e = record {
  event = e;
  ready_expert_ids = hits cache e.selected_expert_ids;
  blocking_expert_ids = misses cache e.selected_expert_ids;
}

module _ (capacity : ℕ) (cache : List ℕ) (e : RouterTraceEvent) (c : IsCache capacity cache)
    (f : Fits capacity e) where
  open e use {selected_expert_ids as ids}

  pub scanned_lem : SameKeys cache (spare ids cache ++ hits cache ids)
  scanned_lem =
      subst (λ t. SameKeys cache t.0) (scan-hits ids cache f.distinct)
        (SameKeys-scan ids cache c.distinct)

  used-Distinct : Distinct (spare ids cache ++ (hits cache ids ++ misses cache ids))
  used-Distinct =
      subst Distinct (append_assoc (spare ids cache) (hits cache ids) (misses cache ids)) (
        Distinct-append (spare ids cache ++ hits cache ids) (misses cache ids) scanned_lem.distinct
          (Distinct-keep _ ids f.distinct)
          (λ y m.
            ground (arith, scanned_lem.same y, elem-keep_of (λ x. not (elem x cache)) y ids m)))

  pub hits_misses : length (hits cache ids) + length (misses cache ids) ≡ length ids
  hits_misses = length-keep_split _ _ ids (λ x. ground arith)

  -- One event of a trace that fits: no exception, a cache that holds the last `capacity` of the
  -- recency order, and the outcome that the old cache decides.
  pub lru_event-keep_last :
      lru_event capacity cache e ≡ ok (keep_last capacity (used cache ids), hit_outcome cache e)
  unfolding lru_event used hit_outcome
  lru_event-keep_last = rw (scan-hits ids cache f.distinct) (
      rw (
        load-keep_last capacity ids (misses cache ids) (spare ids cache) (hits cache ids)
          (All-keep _ (λ x. elem x ids ≡ false) cache (λ x h. ground arith)) used-Distinct
          (omega
            (arith, scanned_lem.count, c.bounded, length-append (spare ids cache) (hits cache ids)))
          (omega (arith, hits_misses, f.bounded))))
