-- ===== src/Tests/Parities.antt =====
-- The comparison of two token files.
use expertflow.Base.{
  String, str_eq, Option, none, some, List, [], ◌∷◌, ok, err, token_error, ◌≡◌, refl, if◌then◌else◌,
  ℕ,
}
use expertflow.Trace.Event.{pos}
use expertflow.Trace.Json.{
  Json, Items, int, str, arr, obj, nil, cons, field, end, str_elem, get_field, has_unknown,
  has_missing,
}
use expertflow.Trace.Schema.{current_version}
use expertflow.Trace.Parity.{
  TokenSequence, ParityReport, token_id, token_list, as_token_ids, token_ids, is_current,
  sequence_of, same_token, mismatch_from, first_mismatch, same_ids, is_none, load_token_sequence,
  compare_token_sequences,
}
use expertflow.Trace.Parity.Compare.{IsReport, compare_token_sequences-IsReport}

abbrev tokens : List ℕ → Items
tokens [] = nil
tokens (x ∷ xs) = cons (int (pos x)) (tokens xs)

abbrev artifact : List ℕ → Json
artifact generated = obj (
    field "schema_version" (str current_version) (
      field "prompt_token_ids" (arr (tokens (7 ∷ [])))
        (field "generated_token_ids" (arr (tokens generated)) end)))

read : String → Option Json
read path =
    if str_eq path "a"
    then some (artifact (1 ∷ 2 ∷ 3 ∷ []))
    else if str_eq path "b"
    then some (artifact (1 ∷ 4 ∷ []))
    else none

resolve : String → String
resolve path = path

parity_program : Unit {0}
unfolding str_elem get_field has_unknown has_missing token_id token_list as_token_ids token_ids
    is_current sequence_of same_token mismatch_from first_mismatch same_ids is_none
    load_token_sequence compare_token_sequences read resolve
parity_program = tt

unreadable :
    compare_token_sequences read resolve "a" "c" ≡ err (token_error "" "cannot read token sequence")
unfolding parity_program
unreadable = refl

compared : (report : ParityReport) × (compare_token_sequences read resolve "a" "b" ≡ ok report)
unfolding parity_program
compared = (_, refl)

compare_token_sequences-IsReport_example :
    (baseline : TokenSequence) × (instrumented : TokenSequence) × (load_token_sequence read "a"
      ≡ ok baseline)
    × (load_token_sequence read "b" ≡ ok instrumented)
    × IsReport baseline instrumented compared.0
compare_token_sequences-IsReport_example =
    compare_token_sequences-IsReport read resolve "a" "b" compared.1
