-- ===== src/Trace/Schema/Parts.antt =====
-- src/expertflow/trace/schema.py: what the parsers of the single fields accept.
use expertflow.Base.{
  ◌∙◌, suc, ok-injective, ℕ, ◌≤◌, ◌<◌, true, false, not, String, str_eq, Option, none, some, List,
  length, All, ◌==◌, Result, ok, trace_error, raise_if, ◌≡◌, refl, arith, >>=-eq-ok, length,
}
use mathlib.Core.Path.{subst}
use expertflow.Base.Distinct.{dedup, Distinct, length-dedup-Distinct}
use expertflow.Trace.Event.{ℤ, pos, Float}
use expertflow.Trace.Json.{Json, Items, Fields, null, int, str, arr, nil, cons, get_field}
use expertflow.Trace.Schema.{
  as_uint, as_experts, as_weights, as_text, current_version, string_field, uint_field, expert_id,
  expert_id_list, expert_ids, is_weight, weight_value, weight_list, expert_weights, item_count,
}

abbrev pub WeightsValid : ℕ → Option (List Float) → Type 0
WeightsValid n none = Unit
WeightsValid n (some ws) = (length ws ≡ n) × All (λ w. is_weight w ≡ true) ws

abbrev pub IsText : String → Type 0
IsText s = str_eq s "" ≡ false

abbrev pub AreExperts : List ℕ → Type 0
AreExperts xs = (0 < length xs) × All (λ x. x ≤ 65535) xs × Distinct xs

as_text_lem :
    (name : String) (n : ℕ) (o : Option Json) {s : String} → as_text name n o ≡ ok s → IsText s
unfolding as_text
as_text_lem name n (some (str t)) h = ground arith
as_text_lem name n _ h = cc

pub string_field_lem :
    (fs : Fields) (name : String) (n : ℕ) {s : String} → string_field fs name n ≡ ok s → IsText s
unfolding string_field
string_field_lem fs name n = as_text_lem name n (get_field name fs)

as_uint_lem :
    (name : String) (n bound : ℕ) (o : Option Json) {v : ℕ}
    → as_uint name n (some bound) o ≡ ok v
    → v ≤ bound
unfolding as_uint
as_uint_lem name n bound (some (int (pos w))) h = ground arith
as_uint_lem name n bound _ h = cc

pub uint_field_lem :
    (fs : Fields) (name : String) (n bound : ℕ) {v : ℕ}
    → uint_field fs name n (some bound) ≡ ok v
    → v ≤ bound
unfolding uint_field
uint_field_lem fs name n bound = as_uint_lem name n bound (get_field name fs)

expert_id-le : (n : ℕ) (j : Json) {x : ℕ} → expert_id n j ≡ ok x → x ≤ 65535
unfolding expert_id
expert_id-le n (int (pos v)) h = ground arith
expert_id-le n _ h = cc

expert_id_list_lem :
    (n : ℕ) (js : Items) {xs : List ℕ}
    → expert_id_list n js ≡ ok xs
    → (length xs ≡ item_count js) × All (λ x. x ≤ 65535) xs
unfolding expert_id_list
expert_id_list_lem n nil h =
    subst (λ xs. (length xs ≡ 0) × All (λ x. x ≤ 65535) xs) (ok-injective h) (refl, tt)
expert_id_list_lem n (cons j js) {xs} h =
    let (y, first, h₁) = >>=-eq-ok (expert_id n j) _ h in
    let (ys, rest, h₂) = >>=-eq-ok (expert_id_list n js) _ h₁ in
    let (count, range) = expert_id_list_lem n js rest in
    subst (λ zs. (length zs ≡ suc (item_count js)) × All (λ x. x ≤ 65535) zs) (ok-injective h₂)
      (omega arith, (expert_id-le n j first, range))

abbrev unique_test : ℕ → List ℕ → Result (Unit {0})
unique_test n xs =
    raise_if (not (length (dedup xs) == length xs))
      (trace_error n "selected_expert_ids" "must be unique")

unique_test_lem :
    (n : ℕ) (xs : List ℕ) {u : Unit {0}} → unique_test n xs ≡ ok u → length (dedup xs) ≡ length xs
unique_test_lem n xs h = ground arith

abbrev weight_test : ℕ → Float → Result (Unit {0})
weight_test n w =
    raise_if (not (is_weight w))
      (trace_error n "selected_expert_weights" "must be finite and non-negative")

weight_test_lem : (n : ℕ) (w : Float) {u : Unit {0}} → weight_test n w ≡ ok u → is_weight w ≡ true
weight_test_lem n w h = ground arith

abbrev count_test : ℕ → ℕ → Items → Result (Unit {0})
count_test count n js =
    raise_if (not (item_count js == count))
      (trace_error n "selected_expert_weights" "must have the same length as selected_expert_ids")

count_test_lem :
    (count n : ℕ) (js : Items) {u : Unit {0}} → count_test count n js ≡ ok u → item_count js ≡ count
count_test_lem count n js h = ground arith

abbrev pub version_test : ℕ → String → Result (Unit {0})
version_test n v =
    raise_if (not (str_eq v current_version)) (trace_error n "schema_version" "unsupported")

pub version_test_lem :
    (n : ℕ) (v : String) {u : Unit {0}} → version_test n v ≡ ok u → str_eq v current_version ≡ true
version_test_lem n v h = ground arith

as_experts_lem : (n : ℕ) (o : Option Json) {xs : List ℕ} → as_experts n o ≡ ok xs → AreExperts xs
unfolding as_experts
as_experts_lem n (some (arr (cons j js))) h =
    let (ys, parsed, h₁) = >>=-eq-ok (expert_id_list n (cons j js)) _ h in
    let (_, passed, h₂) = >>=-eq-ok (unique_test n ys) _ h₁ in
    let (count, range) = expert_id_list_lem n (cons j js) parsed in
    subst AreExperts (ok-injective h₂)
      (omega arith, range, length-dedup-Distinct ys (unique_test_lem n ys passed))
as_experts_lem n _ h = cc

pub expert_ids_lem : (fs : Fields) (n : ℕ) {xs : List ℕ} → expert_ids fs n ≡ ok xs → AreExperts xs
unfolding expert_ids
expert_ids_lem fs n = as_experts_lem n (get_field "selected_expert_ids" fs)

module _ (to_float : ℤ → Result Float) where
  weight_list_lem :
      (n : ℕ) (js : Items) {ws : List Float}
      → weight_list to_float n js ≡ ok ws
      → (length ws ≡ item_count js) × All (λ w. is_weight w ≡ true) ws
  unfolding weight_list
  weight_list_lem n nil h =
      subst (λ xs. (length xs ≡ 0) × All (λ x. is_weight x ≡ true) xs) (ok-injective h) (refl, tt)
  weight_list_lem n (cons j js) h =
      let (w, first, h₁) = >>=-eq-ok (weight_value to_float n j) _ h in
      let (_, passed, h₂) = >>=-eq-ok (weight_test n w) _ h₁ in
      let (ws, rest, h₃) = >>=-eq-ok (weight_list to_float n js) _ h₂ in
      let (count, all_good) = weight_list_lem n js rest in
      subst (λ xs. (length xs ≡ suc (item_count js)) × All (λ x. is_weight x ≡ true) xs)
        (ok-injective h₃) (omega arith, (weight_test_lem n w passed, all_good))

  as_weights_lem :
      (count n : ℕ) (o : Option Json) {ws : Option (List Float)}
      → as_weights to_float count n o ≡ ok ws
      → WeightsValid count ws
  unfolding as_weights
  as_weights_lem count n (some (arr js)) h =
      let (_, passed, h₁) = >>=-eq-ok (count_test count n js) _ h in
      let (ws, parsed, h₂) = >>=-eq-ok (weight_list to_float n js) _ h₁ in
      let (length_eq, all_good) = weight_list_lem n js parsed in
      subst (WeightsValid count) (ok-injective h₂)
        (length_eq ∙ count_test_lem count n js passed, all_good)
  as_weights_lem count n (some null) h = subst (WeightsValid count) (ok-injective h) tt
  as_weights_lem count n none h = subst (WeightsValid count) (ok-injective h) tt
  as_weights_lem count n _ h = cc

  pub expert_weights_lem :
      (fs : Fields) (count n : ℕ) {ws : Option (List Float)}
      → expert_weights to_float fs count n ≡ ok ws
      → WeightsValid count ws
  unfolding expert_weights
  expert_weights_lem fs count n = as_weights_lem count n (get_field "selected_expert_weights" fs)
