-- ===== src/Tests/Traces.antt =====
-- A routing trace of four events on two layers, with two experts each.
use expertflow.Base.{ℕ, ◌≤◌, none, List, [], ◌∷◌, All, ◌≢◌, arith}
use expertflow.Base.Distinct.{elem}
use expertflow.Trace.Event.{RouterTraceEvent, decode}
use expertflow.CacheSim.{demand}
use expertflow.CacheSim.Lru.{Fits}

abbrev pub event : ℕ → ℕ → List ℕ → RouterTraceEvent
event forward layer ids = record {
  schema_version = "1.0.0";
  request_id = "r";
  conversation_id = "c";
  turn_index = 0;
  phase = decode;
  forward_id = forward;
  hook_order = forward;
  token_index = forward;
  token_id = 7;
  layer_id = layer;
  selected_expert_ids = ids;
  selected_expert_weights = none;
  observed_at_ns = forward;
}

abbrev pub trace : List RouterTraceEvent
trace =
    event 0 3 (1 ∷ 2 ∷ [])
    ∷ event 0 4 (1 ∷ 5 ∷ [])
    ∷ event 1 3 (2 ∷ 3 ∷ [])
    ∷ event 2 3 (1 ∷ 3 ∷ [])
    ∷ []

fits : (forward layer x y : ℕ) → x ≢ y → Fits 2 (event forward layer (x ∷ y ∷ []))
unfolding elem
fits forward layer x y h = record { distinct = ground arith; bounded = omega arith }

pub trace-Fits : All (Fits 2) trace
trace-Fits = (
  fits 0 3 1 2 (omega arith),
  (fits 0 4 1 5 (omega arith), (fits 1 3 2 3 (omega arith), (fits 2 3 1 3 (omega arith), tt))),
)

pub trace_small : All (λ e. demand e ≤ 2) trace
trace_small = omega arith
