-- ===== src/Trace/Schema/Valid.antt =====
-- src/expertflow/trace/schema.py: what every accepted record satisfies.
use expertflow.Base.{
  ok-injective, ℕ, ◌≤◌, ◌<◌, true, false, String, str_eq, Option, none, some, length, All, Result,
  ok, trace_error, raise_if, ◌≡◌, >>=-eq-ok, length,
}
use mathlib.Core.Path.{subst}
use expertflow.Base.Distinct.{Distinct}
use expertflow.Trace.Event.{ℤ, Float, RouterTraceEvent}
use expertflow.Trace.Json.{Json, Fields, obj, has_unknown, has_missing}
use expertflow.Trace.Schema.{
  parse_json, current_version, string_field, uint_field, expert_ids, expert_weights, phase_of,
  parse_fields, parse_router_event, event_fields,
}
use expertflow.Trace.Schema.Parts.{
  WeightsValid, string_field_lem, uint_field_lem, expert_ids_lem, expert_weights_lem, version_test,
  version_test_lem,
}

-- What every accepted record satisfies.
pub record IsValid (e : RouterTraceEvent) : Type 0 where
  pub version : str_eq e.schema_version current_version ≡ true
  pub request : str_eq e.request_id "" ≡ false
  pub conversation : str_eq e.conversation_id "" ≡ false
  pub turn : e.turn_index ≤ 65535
  pub token : e.token_id ≤ 4294967295
  pub layer : e.layer_id ≤ 65535
  pub experts : 0 < length e.selected_expert_ids
  pub range : All (λ x. x ≤ 65535) e.selected_expert_ids
  pub distinct : Distinct e.selected_expert_ids
  pub weights : WeightsValid (length e.selected_expert_ids) e.selected_expert_weights

module _ (to_float : ℤ → Result Float) where
  parse_fields-IsValid :
      (fs : Fields) (n : ℕ) {e : RouterTraceEvent} → parse_fields to_float fs n ≡ ok e → IsValid e
  unfolding parse_fields
  parse_fields-IsValid fs n h =
      let (_, _, h₁) =
        >>=-eq-ok (raise_if (has_unknown event_fields fs) (trace_error n "" "unknown fields")) _
          h in
      let (_, _, h₂) =
        >>=-eq-ok (raise_if (has_missing event_fields fs) (trace_error n "" "missing fields")) _
          h₁ in
      let (version, _, h₃) = >>=-eq-ok (string_field fs "schema_version" n) _ h₂ in
      let (_, passed, h₄) = >>=-eq-ok (version_test n version) _ h₃ in
      let (text, _, h₅) = >>=-eq-ok (string_field fs "phase" n) _ h₄ in
      let (phase, _, h₆) = >>=-eq-ok (phase_of to_float n text) _ h₅ in
      let (ids, ids_eq, h₇) = >>=-eq-ok (expert_ids fs n) _ h₆ in
      let (weights, weights_eq, h₈) = >>=-eq-ok (expert_weights to_float fs (length ids) n) _ h₇ in
      let (request, request_eq, h₉) = >>=-eq-ok (string_field fs "request_id" n) _ h₈ in
      let (conversation, conversation_eq, k₁) =
        >>=-eq-ok (string_field fs "conversation_id" n) _ h₉ in
      let (turn, turn_eq, k₂) = >>=-eq-ok (uint_field fs "turn_index" n (some 65535)) _ k₁ in
      let (forward, _, k₃) = >>=-eq-ok (uint_field fs "forward_id" n none) _ k₂ in
      let (hook, _, k₄) = >>=-eq-ok (uint_field fs "hook_order" n none) _ k₃ in
      let (index, _, k₅) = >>=-eq-ok (uint_field fs "token_index" n none) _ k₄ in
      let (token, token_eq, k₆) = >>=-eq-ok (uint_field fs "token_id" n (some 4294967295)) _ k₅ in
      let (layer, layer_eq, k₇) = >>=-eq-ok (uint_field fs "layer_id" n (some 65535)) _ k₆ in
      let (observed, _, k₈) = >>=-eq-ok (uint_field fs "observed_at_ns" n none) _ k₇ in
      let (nonempty, range, distinct) = expert_ids_lem fs n ids_eq in
      subst IsValid (ok-injective k₈) (record {
        version = version_test_lem n version passed;
        request = string_field_lem fs "request_id" n request_eq;
        conversation = string_field_lem fs "conversation_id" n conversation_eq;
        turn = uint_field_lem fs "turn_index" n 65535 turn_eq;
        token = uint_field_lem fs "token_id" n 4294967295 token_eq;
        layer = uint_field_lem fs "layer_id" n 65535 layer_eq;
        experts = nonempty;
        range = range;
        distinct = distinct;
        weights = expert_weights_lem to_float fs (length ids) n weights_eq;
      })

  module _ (loads : String → Option Json) where
    -- Every record that the parser accepts is valid: its texts are not empty, its bounded numbers
    -- are in range, its expert ids are at least one, distinct and of 16 bits, and its weights, if
    -- any, are as many as the experts, finite and not negative.
    pub parse_router_event-IsValid :
        (line : String) (n : ℕ) {e : RouterTraceEvent}
        → parse_router_event to_float loads line n ≡ ok e
        → IsValid e
    unfolding parse_router_event
    parse_router_event-IsValid line n h = accepted (loads line) h
      where
        accepted :
            (o : Option Json) {e : RouterTraceEvent} → parse_json to_float n o ≡ ok e → IsValid e
        accepted (some (obj fs)) p = parse_fields-IsValid fs n p
        accepted _ p = cc
