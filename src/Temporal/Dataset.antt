-- ===== src/Temporal/Dataset.antt =====
-- src/expertflow/predictor/temporal_dataset.py: the samples of one shard of a dataset, from the events
-- of its trace. The reading of the manifest is not modelled.
use expertflow.Base.{
  ℕ, ◌+◌, Bool, true, false, not, ◌||◌, String, str_eq, List, [], ◌∷◌, map, length, any, ltb, leb,
  ◌==◌, if◌then◌else◌, Result, ok, value_error, raise_if, ◌>>=◌, ◌>>◌,
}
use expertflow.Base.Dict
use expertflow.Base.Dict.{Dict}
use expertflow.Base.Distinct.{elem}
use expertflow.Base.Sort.{sort_by}
use expertflow.Trace.Event.{RouterTraceEvent, Phase}
use expertflow.Temporal.{TemporalSample}

-- `TARGET_LAYER`, `EXPERT_COUNT` and `ROUTER_WIDTH`
abbrev pub target_layer : ℕ
target_layer = 24

abbrev pub expert_count : ℕ
expert_count = 128

abbrev pub router_width : ℕ
router_width = 8

-- `_validate_router_set`
unfoldable pub validate_router_set : RouterTraceEvent → Result (Unit {0})
validate_router_set e = do
  raise_if (not (length e.selected_expert_ids == router_width))
      (value_error "layer-24 routing must contain exactly eight experts")
  raise_if (any (λ x. not (ltb x expert_count)) e.selected_expert_ids)
      (value_error "expert ID is outside the canonical range 0..127")

-- `phase == "decode"`
unfoldable pub is_decode : Phase → Bool
is_decode Phase.decode = true
is_decode Phase.prefill = false

-- what `_sample` returns
unfoldable pub paired :
    String → String → String → RouterTraceEvent → RouterTraceEvent → TemporalSample
paired conversation split domain source target = record {
  conversation_id = conversation;
  split = split;
  domain = domain;
  request_id = source.request_id;
  turn_index = source.turn_index;
  phase = Phase.decode;
  layer_id = target_layer;
  source_forward_id = source.forward_id;
  target_forward_id = target.forward_id;
  source_token_index = source.token_index;
  target_token_index = target.token_index;
  source_token_id = source.token_id;
  target_token_id = target.token_id;
  source_hook_order = source.hook_order;
  target_hook_order = target.hook_order;
  source_expert_ids = source.selected_expert_ids;
  target_expert_ids = target.selected_expert_ids;
}

-- the tests of `_sample`
unfoldable pub check_pair : RouterTraceEvent → RouterTraceEvent → Result (Unit {0})
check_pair source target = do
  raise_if (not (str_eq source.request_id target.request_id))
      (value_error "request changed inside decode sequence")
  raise_if (not (source.turn_index == target.turn_index))
      (value_error "turn changed inside decode sequence")
  raise_if (not (target.forward_id == source.forward_id + 1))
      (value_error "decode records do not have consecutive forward IDs")
  raise_if (not (target.token_index == source.token_index + 1))
      (value_error "decode records do not have consecutive token indices")
  raise_if (leb target.hook_order source.hook_order)
      (value_error "decode records do not have causal hook ordering")
  raise_if (not (is_decode source.phase) || not (is_decode target.phase))
      (value_error "temporal samples must remain decode-only")
  raise_if (not (source.layer_id == target_layer) || not (target.layer_id == target_layer))
      (value_error "temporal samples must remain on layer 24")

-- `_sample`
unfoldable pub sample_of :
    String → String → String → RouterTraceEvent → RouterTraceEvent → Result TemporalSample
sample_of conversation split domain source target = do
  check_pair source target
  ok (paired conversation split domain source target)

-- one round of the loop over the events of a shard
unfoldable pub keep_event :
    String → RouterTraceEvent → Dict RouterTraceEvent → Result (Dict RouterTraceEvent)
keep_event conversation e by_forward = do
  raise_if (not (str_eq e.conversation_id conversation)) (value_error "conversation mismatch")
  if not (is_decode e.phase) || not (e.layer_id == target_layer) then ok by_forward else (do
    validate_router_set e
    raise_if (elem e.forward_id (Dict.keys by_forward))
        (value_error "duplicate layer-24 decode record")
    ok (Dict.insert e.forward_id e by_forward))

-- the loop
unfoldable pub collect :
    String → List RouterTraceEvent → Dict RouterTraceEvent → Result (Dict RouterTraceEvent)
collect conversation [] by_forward = ok by_forward
collect conversation (e ∷ events) by_forward = do
  next ← keep_event conversation e by_forward
  collect conversation events next

-- `ordered`
unfoldable pub ordered : Dict RouterTraceEvent → List RouterTraceEvent
ordered by_forward = sort_by (λ a b. leb a.forward_id b.forward_id) (map (λ e. e.1) by_forward)

-- the loop over `zip(ordered, ordered[1:])`, from one event on
unfoldable pub samples_from :
    String
    → String
    → String
    → RouterTraceEvent
    → List RouterTraceEvent
    → Result (List TemporalSample)
samples_from conversation split domain source [] = ok []
samples_from conversation split domain source (target ∷ rest) = do
  sample ← sample_of conversation split domain source target
  samples ← samples_from conversation split domain target rest
  ok (sample ∷ samples)

unfoldable pub pair_up :
    String → String → String → List RouterTraceEvent → Result (List TemporalSample)
pair_up conversation split domain [] = ok []
pair_up conversation split domain (source ∷ rest) =
    samples_from conversation split domain source rest

-- one round of the loop over `shard_rows`
unfoldable pub shard_samples :
    String → String → String → List RouterTraceEvent → Result (List TemporalSample)
shard_samples conversation split domain events = do
  by_forward ← collect conversation events []
  raise_if (ltb (length by_forward) 2) (value_error "fewer than two decode layer-24 records")
  pair_up conversation split domain (ordered by_forward)
