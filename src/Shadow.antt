-- ===== src/Shadow.antt =====
-- src/expertflow/predictor/shadow.py: a cache that is filled on prediction beside one that is filled
-- on demand only. A cache is the list of its experts, least recently used first. A total that the
-- source has not counted yet is no key of its dictionary; here it is 0.
mod State
pub mod Slots
pub mod Speculation
pub mod Accounts
pub mod Total
pub use State.*
use expertflow.Base.{
  ℕ, zero, suc, ◌+◌, ◌-◌, ◌*◌, Bool, true, false, not, ◌&&◌, ◌||◌, String, str_eq, Option, none,
  some, List, [], ◌∷◌, ◌++◌, length, take, drop, get_elem?, any, keep, ltb, leb, ◌==◌,
  if◌then◌else◌, Result, ok, err, value_error, key_error, raise_if, ◌>>=◌, ◌>>◌,
}
use expertflow.Base.Dict
use expertflow.Base.Dict.{Dict}
use expertflow.Base.Distinct.{elem, dedup}
use expertflow.Base.Ordered.{move_to_end, store}
use expertflow.Trace.Event.{ℤ, pos, negsuc, Float}

-- `a - b` of Python
unfoldable pub minus : ℕ → ℕ → ℤ
minus a b = if leb b a then pos (a - b) else negsuc (b - a - 1)

-- `cache.popitem(last=False)`: the key and the rest
unfoldable pub pop_first : List ℕ → Result (ℕ × List ℕ)
pop_first [] = err key_error
pop_first (x ∷ cache) = ok (x, cache)

-- `_demand`, without the hit, which no caller reads
unfoldable pub demand_slot : List ℕ → ℕ → ℕ → Result (List ℕ)
demand_slot cache expert capacity =
    if elem expert cache
    then ok (move_to_end expert cache)
    else if ltb (length cache) capacity
    then ok (store expert cache)
    else do (victim, rest) ← pop_first cache; ok (store expert rest)

-- the last loop over `sample.target_expert_ids`, for one of the caches
unfoldable pub demand_all : List ℕ → List ℕ → ℕ → Result (List ℕ)
demand_all cache [] capacity = ok cache
demand_all cache (expert ∷ experts) capacity = do
  next ← demand_slot cache expert capacity
  demand_all next experts capacity

-- the eviction, if the layer is full: the cache and the totals
unfoldable pub evict : ℕ → List ℕ → List ℕ → Totals → Result (List ℕ × Totals)
evict capacity target cache totals = if ltb (length cache) capacity then ok (cache, totals) else do
  (victim, rest) ← pop_first cache
  ok (
    rest,
    record totals {
      additional_speculative_evictions = totals.additional_speculative_evictions + 1;
      eviction_regret =
          if elem victim target then totals.eviction_regret + 1 else totals.eviction_regret;
    },
  )

-- the count of an insertion
unfoldable pub count_insertion : Bool → Totals → Totals
count_insertion true totals = record totals {
  useful_speculative_insertions = totals.useful_speculative_insertions + 1;
}
count_insertion false totals = record totals {
  wasted_speculative_insertions = totals.wasted_speculative_insertions + 1;
}

-- one round of the loop over `candidates`
unfoldable pub speculate_one : ℕ → List ℕ → ℕ → List ℕ → Totals → Result (List ℕ × Totals)
speculate_one capacity target expert cache totals =
    if elem expert cache then ok (cache, totals) else do
      (room, counted) ← evict capacity target cache totals
      ok (store expert room, count_insertion (elem expert target) counted)

-- the loop over `candidates`
unfoldable pub speculate : ℕ → List ℕ → List ℕ → List ℕ → Totals → Result (List ℕ × Totals)
speculate capacity target [] cache totals = ok (cache, totals)
speculate capacity target (expert ∷ experts) cache totals = do
  (next, counted) ← speculate_one capacity target expert cache totals
  speculate capacity target experts next counted

-- the totals before the loop over `candidates`
unfoldable pub count_row : ℕ → List ℕ → List ℕ → List ℕ → Totals → Totals
count_row width candidates target layer_reactive totals = record totals {
  offered = totals.offered + width;
  taken = totals.taken + length candidates;
  demand_count = totals.demand_count + length target;
  reactive_demand_hits =
      totals.reactive_demand_hits + length (keep (λ x. elem x layer_reactive) target);
}

-- the totals after it
unfoldable pub count_ready : List ℕ → List ℕ → List ℕ → List ℕ → Totals → Totals
count_ready candidates target pre_speculation layer_shadow totals = record totals {
  ready_before_demand =
      totals.ready_before_demand + length (keep (λ x. elem x layer_shadow) target);
  predicted_ready_demands =
      totals.predicted_ready_demands
      + length (keep (λ x. elem x candidates && not (elem x pre_speculation)) target);
  uncovered_blocking_misses =
      totals.uncovered_blocking_misses + length (keep (λ x. not (elem x layer_shadow)) target);
}

-- `current_conversation = ...` after `reactive.clear()` and `shadow.clear()`
unfoldable pub reset : String → ShadowState → ShadowState
reset conversation state = record state {
  conversation = some conversation;
  reactive = [];
  shadow = [];
}

-- the test `sample.conversation_id != current_conversation`
unfoldable pub enter_from : Option String → String → ShadowState → ShadowState
enter_from none conversation state = reset conversation state
enter_from (some current) conversation state =
    if str_eq current conversation then state else reset conversation state

unfoldable pub enter : String → ShadowState → ShadowState
enter conversation state = enter_from state.conversation conversation state

-- one round of the loop over the samples, after the reset
unfoldable pub shadow_row :
    ℕ → ℕ → PredictionSample → List ℕ → List ℕ → ShadowState → Result ShadowState
shadow_row width capacity sample ranking candidates state = do
  let target = dedup sample.target_expert_ids
  let layer_reactive = Dict.get_or [] sample.target_layer state.reactive
  let layer_shadow = Dict.get_or [] sample.target_layer state.shadow
  raise_if (any (λ x. not (elem x (take width ranking))) candidates)
      (value_error "admitted candidates must come from the selected ranking prefix")
  (filled, counted) ←
      speculate capacity target candidates layer_shadow
        (count_row width candidates target layer_reactive state.totals)
  next_reactive ← demand_all layer_reactive sample.target_expert_ids capacity
  next_shadow ← demand_all filled sample.target_expert_ids capacity
  ok (record state {
    reactive = Dict.insert sample.target_layer next_reactive state.reactive;
    shadow = Dict.insert sample.target_layer next_shadow state.shadow;
    totals = count_ready candidates target layer_shadow filled counted;
  })

-- `ranking[:width]`, or the admitted ranking of the row
unfoldable pub candidates_of : ℕ → List ℕ → Option (List ℕ) → List ℕ
candidates_of width ranking none = take width ranking
candidates_of width ranking (some admitted) = admitted

-- A sample with its ranking and, if there are any, its admitted ranking: an entry of the `zip`.
abbrev pub Row : Type 0
Row = PredictionSample × List ℕ × Option (List ℕ)

-- the loop over the samples
unfoldable pub shadow_rows : ℕ → ℕ → List Row → ShadowState → Result ShadowState
shadow_rows width capacity [] state = ok state
shadow_rows width capacity ((sample, ranking, admitted) ∷ rows) state = do
  next ←
      shadow_row width capacity sample ranking (candidates_of width ranking admitted)
        (enter sample.conversation_id state)
  shadow_rows width capacity rows next

-- `zip(rows, rankings, strict=True)`, with `admitted_rankings[row_index]`
unfoldable pub zip_rows : List PredictionSample → List (List ℕ) → Option (List (List ℕ)) → List Row
zip_rows (sample ∷ rows) (ranking ∷ rankings) none =
    (sample, ranking, none) ∷ zip_rows rows rankings none
zip_rows (sample ∷ rows) (ranking ∷ rankings) (some (admitted ∷ rest)) =
    (sample, ranking, some admitted) ∷ zip_rows rows rankings (some rest)
zip_rows _ _ _ = []

-- the end of `simulate_shadow`
unfoldable pub shadow_report : ℕ → ℕ → ℕ → Totals → ShadowReport
unfolding minus
shadow_report width capacity expert_bytes totals = record {
  totals = totals;
  rejected_predicted_candidates = minus totals.offered totals.taken;
  late_predictions = 0;
  useful_predicted_bytes = totals.useful_speculative_insertions * expert_bytes;
  wasted_predicted_bytes = totals.wasted_speculative_insertions * expert_bytes;
  reactive_blocking_misses = minus totals.demand_count totals.reactive_demand_hits;
  ready_improvement_over_reactive = minus totals.ready_before_demand totals.reactive_demand_hits;
  candidate_width = width;
  capacity_per_layer = capacity;
  expert_bytes = expert_bytes;
}

-- `admitted_rankings is not None and len(rows) != len(admitted_rankings)`
unfoldable pub admitted_differ : ℕ → Option (List (List ℕ)) → Bool
admitted_differ rows none = false
admitted_differ rows (some admitted) = not (rows == length admitted)

-- `simulate_shadow`
unfoldable pub simulate_shadow :
    List PredictionSample → List (List ℕ) → Option (List (List ℕ)) → ℕ → ℕ → ℕ → Result ShadowReport
simulate_shadow rows rankings admitted_rankings width capacity expert_bytes = do
  raise_if (not (length rows == length rankings))
      (value_error "samples and rankings must have identical length")
  raise_if (admitted_differ (length rows) admitted_rankings)
      (value_error "samples and admitted rankings must have identical length")
  raise_if (not (elem width (8 ∷ 12 ∷ 16 ∷ [])) && not (leb 1 width && leb width 128))
      (value_error "candidate width is invalid")
  raise_if (ltb capacity width) (value_error "cache capacity must be at least the candidate width")
  state ← shadow_rows width capacity (zip_rows rows rankings admitted_rankings) no_state
  ok (shadow_report width capacity expert_bytes state.totals)
