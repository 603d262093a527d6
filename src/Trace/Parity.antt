-- ===== src/Trace/Parity.antt =====
-- src/expertflow/trace/parity.py: token sequences and their comparison. `read` is the text of a file
-- after `json.loads`, or `none` where one of the two fails; `resolve` is `Path.resolve` as a text.
pub mod Verdict
pub mod Compare
use expertflow.Base.{
  ℕ, zero, suc, ◌+◌, max, Bool, true, false, not, String, str_eq, Option, none, some, List, [], ◌∷◌,
  length, get_elem?, leb, ◌==◌, if◌then◌else◌, Result, ok, err, token_error, raise_if, ◌>>=◌, ◌>>◌,
}
use expertflow.Trace.Event.{pos}
use expertflow.Trace.Json.{
  Json, Items, Fields, int, str, arr, obj, nil, cons, get_field, has_unknown, has_missing,
}
use expertflow.Trace.Schema.{current_version}

-- `TokenSequence`
pub record TokenSequence : Type 0 where
  pub prompt_token_ids : List ℕ
  pub generated_token_ids : List ℕ

-- the dictionary of `_first_mismatch`; `none` is Python's `None`
pub record Mismatch : Type 0 where
  pub index : ℕ
  pub baseline_token_id : Option ℕ
  pub instrumented_token_id : Option ℕ

-- the dictionary of `compare_token_sequences`
pub record ParityReport : Type 0 where
  pub baseline_path : String
  pub instrumented_path : String
  pub prompt_matches : Bool
  pub generated_matches : Bool
  pub baseline_generated_count : ℕ
  pub instrumented_generated_count : ℕ
  pub first_generated_mismatch : Option Mismatch

-- `_FIELDS`
abbrev pub sequence_fields : List String
sequence_fields = "schema_version" ∷ "prompt_token_ids" ∷ "generated_token_ids" ∷ []

-- one token of `_token_ids`
unfoldable pub token_id : String → Json → Result ℕ
token_id field (int (pos value)) =
    if leb value 4294967295
    then ok value
    else err (token_error field "must contain unsigned 32-bit integers")
token_id field _ = err (token_error field "must contain unsigned 32-bit integers")

-- the loop of `_token_ids`
unfoldable pub token_list : String → Items → Result (List ℕ)
token_list field nil = ok []
token_list field (cons value values) = do
  token ← token_id field value
  tokens ← token_list field values
  ok (token ∷ tokens)

-- `_token_ids`, behind `record.get`
unfoldable pub as_token_ids : String → Option Json → Result (List ℕ)
as_token_ids field (some (arr values)) = token_list field values
as_token_ids field _ = err (token_error field "must be an array")

-- `_token_ids`
unfoldable pub token_ids : Fields → String → Result (List ℕ)
token_ids fields field = as_token_ids field (get_field field fields)

-- `record["schema_version"] == SCHEMA_VERSION`
unfoldable pub is_current : Option Json → Bool
is_current (some (str version)) = str_eq version current_version
is_current _ = false

-- `load_token_sequence`, after the file was read
unfoldable pub sequence_of : Option Json → Result TokenSequence
sequence_of none = err (token_error "" "cannot read token sequence")
sequence_of (some (obj fields)) = do
  raise_if (has_unknown sequence_fields fields) (token_error "" "unknown fields")
  raise_if (has_missing sequence_fields fields) (token_error "" "missing fields")
  raise_if (not (is_current (get_field "schema_version" fields)))
      (token_error "" "unsupported schema_version")
  prompt ← token_ids fields "prompt_token_ids"
  generated ← token_ids fields "generated_token_ids"
  ok (record { prompt_token_ids = prompt; generated_token_ids = generated })
sequence_of (some _) = err (token_error "" "token sequence must be a JSON object")

-- `baseline_token == instrumented_token`
unfoldable pub same_token : Option ℕ → Option ℕ → Bool
same_token none none = true
same_token (some a) (some b) = a == b
same_token _ _ = false

-- the loop of `_first_mismatch`, with the number of rounds left
unfoldable pub mismatch_from : List ℕ → List ℕ → ℕ → ℕ → Option Mismatch
mismatch_from baseline instrumented index zero = none
mismatch_from baseline instrumented index (suc rounds) =
    let rest = mismatch_from baseline instrumented (suc index) rounds in
    if same_token (get_elem? baseline index) (get_elem? instrumented index)
    then rest
    else some (record {
      index = index;
      baseline_token_id = get_elem? baseline index;
      instrumented_token_id = get_elem? instrumented index;
    })

-- `_first_mismatch`
unfoldable pub first_mismatch : List ℕ → List ℕ → Option Mismatch
first_mismatch baseline instrumented =
    mismatch_from baseline instrumented 0 (max (length baseline) (length instrumented))

-- `==` of two tuples of tokens
unfoldable pub same_ids : List ℕ → List ℕ → Bool
same_ids [] [] = true
same_ids (x ∷ xs) (y ∷ ys) = if x == y then same_ids xs ys else false
same_ids _ _ = false

-- `mismatch is None`
unfoldable pub is_none : Option Mismatch → Bool
is_none none = true
is_none (some mismatch) = false

module _ (read : String → Option Json) where
  -- `load_token_sequence`
  unfoldable pub load_token_sequence : String → Result TokenSequence
  load_token_sequence path = sequence_of (read path)

  module _ (resolve : String → String) where
    -- `compare_token_sequences`
    unfoldable pub compare_token_sequences : String → String → Result ParityReport
    compare_token_sequences baseline_path instrumented_path = do
      baseline ← load_token_sequence baseline_path
      instrumented ← load_token_sequence instrumented_path
      let mismatch = first_mismatch baseline.generated_token_ids instrumented.generated_token_ids
      ok (record {
        baseline_path = resolve baseline_path;
        instrumented_path = resolve instrumented_path;
        prompt_matches = same_ids baseline.prompt_token_ids instrumented.prompt_token_ids;
        generated_matches = is_none mismatch;
        baseline_generated_count = length baseline.generated_token_ids;
        instrumented_generated_count = length instrumented.generated_token_ids;
        first_generated_mismatch = mismatch;
      })
