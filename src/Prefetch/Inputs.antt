-- ===== src/Prefetch/Inputs.antt =====
-- src/expertflow/analysis/prefetch_sim.py: the groups of a trace, the events of a step, and the
-- candidates for a transfer.
use expertflow.Base.{
  ℕ, zero, suc, ◌+◌, Bool, true, false, not, ◌&&◌, List, [], ◌∷◌, ◌++◌, map, keep, ltb, leb, ◌==◌,
  if◌then◌else◌,
}
use expertflow.Base.Dict
use expertflow.Base.Dict.{Dict}
use expertflow.Base.Distinct.{elem}
use expertflow.Base.Sort.{sort_by}
use expertflow.Trace.Event.{RouterTraceEvent}

-- `PredictionMode`
pub data PredictionMode : Type 0 where
  none oracle frequency : PredictionMode

-- A set of pairs of a layer and an expert.
abbrev pub Pairs : Type 0
Pairs = List (ℕ × ℕ)

-- `(layer, expert) in pairs`
unfoldable pub pair_elem : ℕ → ℕ → Pairs → Bool
pair_elem layer x [] = false
pair_elem layer x ((l, y) ∷ pairs) = if l == layer && y == x then true else pair_elem layer x pairs

-- `pairs.add((layer, expert))`
unfoldable pub pair_store : ℕ → ℕ → Pairs → Pairs
pair_store layer x pairs = if pair_elem layer x pairs then pairs else pairs ++ (layer, x) ∷ []

-- the key `(layer_id, token_index, hook_order)`
unfoldable pub earlier : RouterTraceEvent → RouterTraceEvent → Bool
earlier a b =
    if ltb a.layer_id b.layer_id
    then true
    else if a.layer_id == b.layer_id
    then (if ltb a.token_index b.token_index
        then true
        else if a.token_index == b.token_index
        then leb a.hook_order b.hook_order
        else false)
    else false

-- the loop that fills `groups`
unfoldable pub group_events :
    List RouterTraceEvent → Dict (List RouterTraceEvent) → Dict (List RouterTraceEvent)
group_events [] groups = groups
group_events (e ∷ trace) groups =
    group_events trace
      (Dict.insert e.forward_id (Dict.get_or [] e.forward_id groups ++ e ∷ []) groups)

-- `_forward_groups`
unfoldable pub forward_groups : List RouterTraceEvent → List (List RouterTraceEvent)
forward_groups trace = map (λ g. sort_by earlier g.1) (group_events trace [])

-- `groups[step_index]` if there is one
unfoldable pub group_at : ℕ → List (List RouterTraceEvent) → List RouterTraceEvent
group_at step_index [] = []
group_at zero (group ∷ groups) = group
group_at (suc step_index) (group ∷ groups) = group_at step_index groups

-- `step_events`
unfoldable pub step_events : ℕ → List (List (List RouterTraceEvent)) → List RouterTraceEvent
step_events step_index [] = []
step_events step_index (groups ∷ grouped) =
    group_at step_index groups ++ step_events step_index grouped

-- A candidate: its count, which the source negates, its layer and its expert.
abbrev pub Score : Type 0
Score = ℕ × ℕ × ℕ

-- the order of `scored.sort()`
unfoldable pub sooner : Score → Score → Bool
sooner a b =
    if ltb b.0 a.0
    then true
    else if a.0 == b.0
    then (if ltb a.1 b.1 then true else if a.1 == b.1 then leb a.2 b.2 else false)
    else false

-- the candidates of one layer in the mode "frequency"
unfoldable pub layer_scores : ℕ → List ℕ → Dict ℕ → List Score
layer_scores layer cache counts =
    map (λ e. (e.1, layer, e.0)) (keep (λ e. ltb 0 e.1 && not (elem e.0 cache)) counts)

unfoldable pub frequency_scores : Dict (List ℕ) → Dict (Dict ℕ) → List Score
frequency_scores [] frequencies = []
frequency_scores ((layer, cache) ∷ caches) frequencies =
    layer_scores layer cache (Dict.get_or [] layer frequencies)
    ++ frequency_scores caches frequencies

-- `step_demand[(layer, expert)] += 1`
unfoldable pub count_pair : ℕ → ℕ → List Score → List Score
count_pair layer x [] = (1, layer, x) ∷ []
count_pair layer x ((n, l, y) ∷ scores) =
    if l == layer && y == x then (n + 1, l, y) ∷ scores else (n, l, y) ∷ count_pair layer x scores

unfoldable pub count_layer : ℕ → List ℕ → List Score → List Score
count_layer layer [] scores = scores
count_layer layer (x ∷ xs) scores = count_layer layer xs (count_pair layer x scores)

-- the loop that fills `step_demand`
unfoldable pub step_demand : List RouterTraceEvent → List Score → List Score
step_demand [] scores = scores
step_demand (e ∷ events) scores =
    step_demand events (count_layer e.layer_id e.selected_expert_ids scores)

-- the candidates in the mode "oracle"
unfoldable pub oracle_scores : List RouterTraceEvent → Dict (List ℕ) → List Score
oracle_scores events caches =
    keep (λ s. not (elem s.2 (Dict.get_or [] s.1 caches))) (step_demand events [])

-- `scored`, after `scored.sort()`
unfoldable pub scored_of :
    PredictionMode → List RouterTraceEvent → Dict (List ℕ) → Dict (Dict ℕ) → List Score
scored_of PredictionMode.none events caches frequencies = []
scored_of PredictionMode.oracle events caches frequencies =
    sort_by sooner (oracle_scores events caches)
scored_of PredictionMode.frequency events caches frequencies =
    sort_by sooner (frequency_scores caches frequencies)
