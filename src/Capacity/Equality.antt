-- ===== src/Capacity/Equality.antt =====
-- src/expertflow/analysis/capacity_curve.py: a trace is equal to itself.
use expertflow.Base.{ℕ, Bool, true, ==_refl, Option, List, [], ◌∷◌, ◌≡◌, refl, eq_refl}
use expertflow.Trace.Event.{RouterTraceEvent, Phase, Float}
use expertflow.Capacity.HeldOut.{same_list, same_phase, same_event, same_trace}

same_list_refl : (xs : List ℕ) → same_list xs xs ≡ true
unfolding same_list
same_list_refl [] = refl
same_list_refl (x ∷ xs) = rw (==_refl x, same_list_refl xs) refl

same_phase_refl : (p : Phase) → same_phase p p ≡ true
unfolding same_phase
same_phase_refl Phase.prefill = refl
same_phase_refl Phase.decode = refl

module _ (same_weights : Option (List Float) → Option (List Float) → Bool)
    (reflexive : (w : Option (List Float)) → same_weights w w ≡ true) where
  same_event_refl : (e : RouterTraceEvent) → same_event same_weights e e ≡ true
  unfolding same_event
  same_event_refl e =
      rw
        (
          eq_refl e.schema_version,
          eq_refl e.request_id,
          eq_refl e.conversation_id,
          ==_refl e.turn_index,
          same_phase_refl e.phase,
          ==_refl e.forward_id,
          ==_refl e.hook_order,
          ==_refl e.token_index,
          ==_refl e.token_id,
          ==_refl e.layer_id,
          same_list_refl e.selected_expert_ids,
          reflexive e.selected_expert_weights,
          ==_refl e.observed_at_ns,
        )
        refl

  pub same_trace_refl : (trace : List RouterTraceEvent) → same_trace same_weights trace trace ≡ true
  unfolding same_trace
  same_trace_refl [] = refl
  same_trace_refl (e ∷ trace) = rw (same_event_refl e, same_trace_refl trace) refl
