-- ===== src/Trace/Event.antt =====
-- src/expertflow/trace/schema.py: the record `RouterTraceEvent`.
use expertflow.Base.{ℕ, Bool, String, Option, List}

-- A signed integer of Python; `negsuc n` is -(n + 1).
pub data ℤ : Type 0 where
  pos : ℕ → ℤ
  negsuc : ℕ → ℤ

-- A Python float, by its value: (-1)^negative * mantissa * 2^exponent, or one of the special values.
pub data Float : Type 0 where
  nan : Float
  infinity : Bool → Float
  finite : Bool → ℕ → ℤ → Float

pub data Phase : Type 0 where
  prefill decode : Phase

pub record RouterTraceEvent : Type 0 where
  pub schema_version : String
  pub request_id : String
  pub conversation_id : String
  pub turn_index : ℕ
  pub phase : Phase
  pub forward_id : ℕ
  pub hook_order : ℕ
  pub token_index : ℕ
  pub token_id : ℕ
  pub layer_id : ℕ
  pub selected_expert_ids : List ℕ
  pub selected_expert_weights : Option (List Float)
  pub observed_at_ns : ℕ
