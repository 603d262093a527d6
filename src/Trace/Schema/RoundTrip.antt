-- ===== src/Trace/Schema/RoundTrip.antt =====
-- src/expertflow/trace/schema.py: the JSON object of an event, and its way back through the parser.
-- The writer of the traces is the native runtime, so the encoder here is the specification's own:
-- it gives every field of the schema its value.
use expertflow.Base.{
  eq_iff, ℕ, ◌≤◌, ◌<◌, true, false, String, Option, none, some, List, [], ◌∷◌, length, All, Result,
  ok, ◌≡◌, refl, ap, sym, arith,
}
use expertflow.Base.Distinct.{Distinct, dedup_of_Distinct}
use expertflow.Trace.Event.{ℤ, pos, Float, Phase, prefill, decode, RouterTraceEvent}
use expertflow.Trace.Json.{
  Json, Items, Fields, null, int, float, str, arr, obj, nil, cons, end, field, has_unknown,
  has_missing,
}
use expertflow.Trace.Schema.{
  current_version, string_field, as_text, uint_field, expert_id_list, expert_ids, as_experts,
  is_weight, weight_list, as_weights, expert_weights, phase_of, parse_fields, parse_router_event,
  item_count, event_fields,
}
use expertflow.Trace.Schema.Parts.{WeightsValid}
use expertflow.Trace.Schema.Valid.{IsValid}

phase_text : Phase → String
phase_text prefill = "prefill"
phase_text decode = "decode"

expert_items : List ℕ → Items
expert_items [] = nil
expert_items (x ∷ xs) = cons (int (pos x)) (expert_items xs)

weight_items : List Float → Items
weight_items [] = nil
weight_items (w ∷ ws) = cons (float w) (weight_items ws)

weights_json : Option (List Float) → Json
weights_json none = null
weights_json (some ws) = arr (weight_items ws)

-- The JSON object of an event.
pub event_json : RouterTraceEvent → Fields
event_json e = field "schema_version" (str e.schema_version) (
    field "request_id" (str e.request_id) (
      field "conversation_id" (str e.conversation_id) (
        field "turn_index" (int (pos e.turn_index)) (
          field "phase" (str (phase_text e.phase)) (
            field "forward_id" (int (pos e.forward_id)) (
              field "hook_order" (int (pos e.hook_order)) (
                field "token_index" (int (pos e.token_index)) (
                  field "token_id" (int (pos e.token_id)) (
                    field "layer_id" (int (pos e.layer_id)) (
                      field "selected_expert_ids" (arr (expert_items e.selected_expert_ids)) (
                        field "selected_expert_weights" (weights_json e.selected_expert_weights)
                          (field "observed_at_ns" (int (pos e.observed_at_ns)) end))))))))))))

expert_id_list-items :
    (n : ℕ) (xs : List ℕ) → All (λ x. x ≤ 65535) xs → expert_id_list n (expert_items xs) ≡ ok xs
unfolding expert_id_list expert_items
expert_id_list-items n [] h = refl
expert_id_list-items n (x ∷ xs) h = ground (arith, expert_id_list-items n xs h.1)

as_experts-items :
    (n : ℕ) (xs : List ℕ)
    → 0 < length xs
    → All (λ x. x ≤ 65535) xs
    → Distinct xs
    → as_experts n (some (arr (expert_items xs))) ≡ ok xs
unfolding as_experts expert_items
as_experts-items n [] p h d = absurd (omega arith)
as_experts-items n (x ∷ xs) p h d =
    ground (arith, expert_id_list-items n (x ∷ xs) h, ap length (dedup_of_Distinct (x ∷ xs) d))

item_count-items : (ws : List Float) → item_count (weight_items ws) ≡ length ws
unfolding weight_items
item_count-items [] = refl
item_count-items (w ∷ ws) = omega (arith, item_count-items ws)

module _ (to_float : ℤ → Result Float) where
  weight_list-items :
      (n : ℕ) (ws : List Float)
      → All (λ w. is_weight w ≡ true) ws
      → weight_list to_float n (weight_items ws) ≡ ok ws
  unfolding weight_list weight_items
  weight_list-items n [] h = refl
  weight_list-items n (w ∷ ws) h = rw (h.0, weight_list-items n ws h.1)

  as_weights-json :
      (count n : ℕ) (o : Option (List Float))
      → WeightsValid count o
      → as_weights to_float count n (some (weights_json o)) ≡ ok o
  unfolding as_weights weights_json
  as_weights-json count n none h = refl
  as_weights-json count n (some ws) h =
      ground (arith, item_count-items ws, weight_list-items n ws h.1, h.0)

  phase_of-text : (n : ℕ) (p : Phase) → phase_of to_float n (phase_text p) ≡ ok p
  unfolding phase_of phase_text
  phase_of-text n prefill = refl
  phase_of-text n decode = refl

as_text-phase_text :
    (n : ℕ) (p : Phase) → as_text "phase" n (some (str (phase_text p))) ≡ ok (phase_text p)
unfolding as_text phase_text
as_text-phase_text n prefill = refl
as_text-phase_text n decode = refl

module _ (to_float : ℤ → Result Float) (e : RouterTraceEvent) (n : ℕ) (v : IsValid e) where
  known : has_unknown event_fields (event_json e) ≡ false
  unfolding has_unknown event_json
  known = refl

  complete : has_missing event_fields (event_json e) ≡ false
  unfolding has_missing event_json
  complete = refl

  version_text : e.schema_version ≡ current_version
  version_text = (eq_iff e.schema_version current_version).0 v.version

  version_read : string_field (event_json e) "schema_version" n ≡ ok current_version
  unfolding string_field event_json
  version_read = rw version_text

  phase_read : string_field (event_json e) "phase" n ≡ ok (phase_text e.phase)
  unfolding string_field event_json
  phase_read = as_text-phase_text n e.phase

  experts_read : expert_ids (event_json e) n ≡ ok e.selected_expert_ids
  unfolding expert_ids event_json
  experts_read = as_experts-items n e.selected_expert_ids v.experts v.range v.distinct

  weights_read :
      expert_weights to_float (event_json e) (length e.selected_expert_ids) n
      ≡ ok e.selected_expert_weights
  unfolding expert_weights event_json
  weights_read =
      as_weights-json to_float (length e.selected_expert_ids) n e.selected_expert_weights v.weights

  request_read : string_field (event_json e) "request_id" n ≡ ok e.request_id
  unfolding string_field event_json
  request_read = rw v.request

  conversation_read : string_field (event_json e) "conversation_id" n ≡ ok e.conversation_id
  unfolding string_field event_json
  conversation_read = rw v.conversation

  turn_read : uint_field (event_json e) "turn_index" n (some 65535) ≡ ok e.turn_index
  unfolding uint_field event_json
  turn_read = ground (arith, v.turn)

  token_read : uint_field (event_json e) "token_id" n (some 4294967295) ≡ ok e.token_id
  unfolding uint_field event_json
  token_read = ground (arith, v.token)

  layer_read : uint_field (event_json e) "layer_id" n (some 65535) ≡ ok e.layer_id
  unfolding uint_field event_json
  layer_read = ground (arith, v.layer)

  forward_read : uint_field (event_json e) "forward_id" n none ≡ ok e.forward_id
  unfolding uint_field event_json
  forward_read = refl

  hook_read : uint_field (event_json e) "hook_order" n none ≡ ok e.hook_order
  unfolding uint_field event_json
  hook_read = refl

  index_read : uint_field (event_json e) "token_index" n none ≡ ok e.token_index
  unfolding uint_field event_json
  index_read = refl

  observed_read : uint_field (event_json e) "observed_at_ns" n none ≡ ok e.observed_at_ns
  unfolding uint_field event_json
  observed_read = refl

  parse_fields-event_json : parse_fields to_float (event_json e) n ≡ ok e
  unfolding parse_fields
  parse_fields-event_json =
      rw
        (
          known, complete, version_read, phase_read, phase_of-text, experts_read, weights_read,
          request_read, conversation_read, turn_read, forward_read, hook_read, index_read,
          token_read, layer_read, observed_read,
        )
        (ap (λ (s : String). ok (record e { schema_version = s })) (sym version_text))

-- A line that holds the JSON object of a valid event is parsed, with any record number, as that event.
pub parse_router_event-event_json :
    (to_float : ℤ → Result Float) (loads : String → Option Json) (line : String) (n : ℕ)
    (e : RouterTraceEvent)
    → IsValid e
    → loads line ≡ some (obj (event_json e))
    → parse_router_event to_float loads line n ≡ ok e
unfolding parse_router_event
parse_router_event-event_json to_float loads line n e v decoded =
    rw decoded (parse_fields-event_json to_float e n v)
