-- ===== src/Trace/Schema.antt =====
-- src/expertflow/trace/schema.py and trace/io.py: the strict parser of one trace record, and the
-- stream of a file's records. `json.loads` is the argument `loads` (`none` where it raises
-- `JSONDecodeError`), and `float` of an integer is the argument `to_float`, which raises
-- `OverflowError` where no double is near. Of a failure's message the model keeps the record
-- number, the field and the fixed part of the text.

pub mod Parts
pub mod Valid
pub mod Load
pub mod RoundTrip
use expertflow.Base.{
  ℕ, suc, ◌+◌, Bool, true, false, not, String, str_eq, Option, none, some, List, [], ◌∷◌, length,
  ltb, leb, ◌==◌, if◌then◌else◌, Result, ok, err, trace_error, raise_if, ◌>>=◌, ◌>>◌,
}
use expertflow.Base.Distinct.{dedup}
use expertflow.Trace.Event.{
  ℤ, pos, negsuc, Float, nan, infinity, finite, Phase, prefill, decode, RouterTraceEvent,
}
use expertflow.Trace.Json.{
  Json, Items, Fields, null, bool, int, float, str, arr, obj, nil, cons, get_field, has_unknown,
  has_missing,
}

abbrev pub current_version : String
current_version = "1.0.0"

-- `_FIELDS`
abbrev pub event_fields : List String
event_fields =
    "schema_version" ∷ "request_id" ∷ "conversation_id" ∷ "turn_index" ∷ "phase" ∷ "forward_id"
    ∷ "hook_order" ∷ "token_index" ∷ "token_id" ∷ "layer_id" ∷ "selected_expert_ids"
    ∷ "selected_expert_weights" ∷ "observed_at_ns" ∷ []

-- `_string`, behind `record.get`
unfoldable pub as_text : String → ℕ → Option Json → Result String
as_text name n (some (str s)) =
    if str_eq s "" then err (trace_error n name "must be a non-empty string") else ok s
as_text name n _ = err (trace_error n name "must be a non-empty string")

-- `_string`
unfoldable pub string_field : Fields → String → ℕ → Result String
unfolding get_field as_text
string_field record_fields name n = as_text name n (get_field name record_fields)

-- the test on `maximum`
unfoldable pub check_maximum : Option ℕ → String → ℕ → ℕ → Result ℕ
check_maximum none name n value = ok value
check_maximum (some maximum) name n value =
    if ltb maximum value then err (trace_error n name "exceeds the maximum") else ok value

-- `_uint`, behind `record.get`
unfoldable pub as_uint : String → ℕ → Option ℕ → Option Json → Result ℕ
unfolding check_maximum
as_uint name n maximum (some (int (pos value))) = check_maximum maximum name n value
as_uint name n maximum _ = err (trace_error n name "must be a non-negative integer")

-- `_uint`
unfoldable pub uint_field : Fields → String → ℕ → Option ℕ → Result ℕ
unfolding get_field as_uint
uint_field record_fields name n maximum = as_uint name n maximum (get_field name record_fields)

abbrev ids_name : String
ids_name = "selected_expert_ids"

abbrev weights_name : String
weights_name = "selected_expert_weights"

-- one round of the loop of `_expert_ids`
unfoldable pub expert_id : ℕ → Json → Result ℕ
expert_id n (int (pos value)) =
    if leb value 65535 then ok value else err (trace_error n ids_name "must fit unsigned 16-bit")
expert_id n (int (negsuc _)) = err (trace_error n ids_name "must fit unsigned 16-bit")
expert_id n _ = err (trace_error n ids_name "must contain integers")

-- the loop of `_expert_ids`
unfoldable pub expert_id_list : ℕ → Items → Result (List ℕ)
unfolding expert_id
expert_id_list n nil = ok []
expert_id_list n (cons value values) = do
  x ← expert_id n value
  rest ← expert_id_list n values
  ok (x ∷ rest)

-- `_expert_ids`, behind `record.get`
unfoldable pub as_experts : ℕ → Option Json → Result (List ℕ)
unfolding expert_id_list dedup
as_experts n (some (arr (cons value values))) = do
  result ← expert_id_list n (cons value values)
  raise_if (not (length (dedup result) == length result)) (trace_error n ids_name "must be unique")
  ok result
as_experts n _ = err (trace_error n ids_name "must be a non-empty array")

-- `_expert_ids`
unfoldable pub expert_ids : Fields → ℕ → Result (List ℕ)
unfolding get_field as_experts
expert_ids record_fields n = as_experts n (get_field ids_name record_fields)

-- `math.isfinite(x) and not x < 0`; -0.0 is not below 0
unfoldable pub is_weight : Float → Bool
is_weight (finite true mantissa exponent) = mantissa == 0
is_weight (finite false mantissa exponent) = true
is_weight _ = false

abbrev item_count : Items → ℕ
item_count nil = 0
item_count (cons value values) = suc (item_count values)

module _ (to_float : ℤ → Result Float) where
  -- `float(value)`, behind the test on its type
  unfoldable pub weight_value : ℕ → Json → Result Float
  weight_value n (int value) = to_float value
  weight_value n (float value) = ok value
  weight_value n _ = err (trace_error n weights_name "must contain numbers")

  -- the loop of `_expert_weights`
  unfoldable pub weight_list : ℕ → Items → Result (List Float)
  unfolding weight_value is_weight
  weight_list n nil = ok []
  weight_list n (cons value values) = do
    converted ← weight_value n value
    raise_if (not (is_weight converted))
        (trace_error n weights_name "must be finite and non-negative")
    rest ← weight_list n values
    ok (converted ∷ rest)

  -- `_expert_weights`, behind `record.get`; an absent key reads as `null`
  unfoldable pub as_weights : ℕ → ℕ → Option Json → Result (Option (List Float))
  unfolding weight_list
  as_weights expert_count n none = ok none
  as_weights expert_count n (some null) = ok none
  as_weights expert_count n (some (arr values)) = do
    raise_if (not (item_count values == expert_count))
        (trace_error n weights_name "must have the same length as selected_expert_ids")
    result ← weight_list n values
    ok (some result)
  as_weights expert_count n _ = err (trace_error n weights_name "must be an array or null")

  -- `_expert_weights`
  unfoldable pub expert_weights : Fields → ℕ → ℕ → Result (Option (List Float))
  unfolding get_field as_weights
  expert_weights record_fields expert_count n =
      as_weights expert_count n (get_field weights_name record_fields)

  -- the test on `phase`
  unfoldable pub phase_of : ℕ → String → Result Phase
  phase_of n s =
      if str_eq s "prefill"
      then ok prefill
      else if str_eq s "decode"
      then ok decode
      else err (trace_error n "phase" "must be 'prefill' or 'decode'")

  -- `parse_router_event`, after `json.loads` and the test for an object
  unfoldable pub parse_fields : Fields → ℕ → Result RouterTraceEvent
  parse_fields fs n = do
    raise_if (has_unknown event_fields fs) (trace_error n "" "unknown fields")
    raise_if (has_missing event_fields fs) (trace_error n "" "missing fields")
    version ← string_field fs "schema_version" n
    raise_if (not (str_eq version current_version)) (trace_error n "schema_version" "unsupported")
    phase_text ← string_field fs "phase" n
    phase ← phase_of n phase_text
    ids ← expert_ids fs n
    weights ← expert_weights fs (length ids) n
    request_id ← string_field fs "request_id" n
    conversation_id ← string_field fs "conversation_id" n
    turn_index ← uint_field fs "turn_index" n (some 65535)
    forward_id ← uint_field fs "forward_id" n none
    hook_order ← uint_field fs "hook_order" n none
    token_index ← uint_field fs "token_index" n none
    token_id ← uint_field fs "token_id" n (some 4294967295)
    layer_id ← uint_field fs "layer_id" n (some 65535)
    observed_at_ns ← uint_field fs "observed_at_ns" n none
    ok (record {
      schema_version = version;
      request_id = request_id;
      conversation_id = conversation_id;
      turn_index = turn_index;
      phase = phase;
      forward_id = forward_id;
      hook_order = hook_order;
      token_index = token_index;
      token_id = token_id;
      layer_id = layer_id;
      selected_expert_ids = ids;
      selected_expert_weights = weights;
      observed_at_ns = observed_at_ns;
    })

  -- `parse_router_event`, after `json.loads`; `none` is a `JSONDecodeError`
  unfoldable pub parse_json : ℕ → Option Json → Result RouterTraceEvent
  unfolding parse_fields
  parse_json n none = err (trace_error n "" "invalid JSON")
  parse_json n (some (obj fs)) = parse_fields fs n
  parse_json n (some _) = err (trace_error n "" "router event must be a JSON object")

  module _ (loads : String → Option Json) where
    -- `parse_router_event`
    unfoldable pub parse_router_event : String → ℕ → Result RouterTraceEvent
    unfolding parse_json
    parse_router_event line n = parse_json n (loads line)

    -- `load_router_events`, read to its end: the lines from record number `n` on
    unfoldable pub load_from : ℕ → List String → Result (List RouterTraceEvent)
    unfolding parse_router_event
    load_from n [] = ok []
    load_from n (line ∷ lines) = do
      event ← parse_router_event line n
      rest ← load_from (n + 1) lines
      ok (event ∷ rest)

    abbrev pub load_router_events : List String → Result (List RouterTraceEvent)
    load_router_events = load_from 1
