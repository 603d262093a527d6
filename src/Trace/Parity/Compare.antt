-- ===== src/Trace/Parity/Compare.antt =====
-- src/expertflow/trace/parity.py: the report of a comparison.
use expertflow.Base.{
  get_elem?, Bool-cases, true, String, Option, none, some, List, [], ◌∷◌, length, ◌==◌, ==_refl,
  eq_of_==, ok, ◌≡◌, ◌↔◌, refl, ap, sym, ◌∙◌, arith, >>=-eq-ok, ok-injective, ℕ, inl, inr,
}
use mathlib.Core.Path.{subst}
use expertflow.Trace.Json.{Json}
use expertflow.Trace.Parity.{
  TokenSequence, Mismatch, ParityReport, first_mismatch, same_ids, is_none, load_token_sequence,
  compare_token_sequences,
}
use expertflow.Trace.Parity.Verdict.{FirstDifference, first_mismatch_lem}

same_ids-eq : (xs ys : List ℕ) → same_ids xs ys ≡ true → xs ≡ ys
unfolding same_ids
same_ids-eq [] [] h = refl
same_ids-eq [] (y ∷ ys) h = cc
same_ids-eq (x ∷ xs) [] h = cc
same_ids-eq (x ∷ xs) (y ∷ ys) h = elim (Bool-cases (x == y)) [
  | inl e ↦ both (eq_of_== x y e) (same_ids-eq xs ys (ground arith))
  | inr e ↦ absurd (ground arith)
]
  where
    both : x ≡ y → xs ≡ ys → (x ∷ xs) ≡ y ∷ ys
    both e f = cc

same_ids_refl : (xs : List ℕ) → same_ids xs xs ≡ true
unfolding same_ids
same_ids_refl [] = refl
same_ids_refl (x ∷ xs) = rw (==_refl x) (same_ids_refl xs)

-- What a report says of the two sequences.
pub record IsReport (baseline instrumented : TokenSequence) (report : ParityReport) : Type 0 where
  pub prompt :
      (report.prompt_matches ≡ true) ↔ (baseline.prompt_token_ids ≡ instrumented.prompt_token_ids)
  pub generated :
      (report.generated_matches ≡ true)
      ↔ (baseline.generated_token_ids ≡ instrumented.generated_token_ids)
  pub difference :
      FirstDifference baseline.generated_token_ids instrumented.generated_token_ids
        report.first_generated_mismatch
  pub baseline_count : report.baseline_generated_count ≡ length baseline.generated_token_ids
  pub instrumented_count :
      report.instrumented_generated_count ≡ length instrumented.generated_token_ids

is_none-FirstDifference :
    (xs ys : List ℕ) (o : Option Mismatch)
    → FirstDifference xs ys o
    → (is_none o ≡ true) ↔ (xs ≡ ys)
unfolding is_none
is_none-FirstDifference xs ys none e = ((λ h. e), λ h. refl)
is_none-FirstDifference xs ys (some m) (first, second, differ, agree) = (
  (λ h. absurd (cc)),
  λ h. absurd (differ (first ∙ ap (λ zs. get_elem? zs m.index) h ∙ sym second)),
)

module _ (read : String → Option Json) (resolve : String → String) where
  -- A comparison that returns has loaded both files, and its report is true: the prompts match and
  -- the generated tokens match exactly if they are equal, and the mismatch it names is the first
  -- index at which the generated tokens differ, with the token of either side or `None` past its end.
  pub compare_token_sequences-IsReport :
      (baseline_path instrumented_path : String) {report : ParityReport}
      → compare_token_sequences read resolve baseline_path instrumented_path ≡ ok report
      → (baseline : TokenSequence) × (instrumented : TokenSequence) × (load_token_sequence read
            baseline_path
          ≡ ok baseline)
        × (load_token_sequence read instrumented_path ≡ ok instrumented)
        × IsReport baseline instrumented report
  unfolding compare_token_sequences
  compare_token_sequences-IsReport baseline_path instrumented_path h =
      let (b, first, h₁) = >>=-eq-ok (load_token_sequence read baseline_path) _ h in
      let (i, second, h₂) = >>=-eq-ok (load_token_sequence read instrumented_path) _ h₁ in
      let verdict = first_mismatch_lem b.generated_token_ids i.generated_token_ids in
      (
        b,
        i,
        first,
        second,
        subst (IsReport b i) (ok-injective h₂) (record {
          prompt = (
            same_ids-eq b.prompt_token_ids i.prompt_token_ids,
            λ e.
                subst (λ xs. same_ids b.prompt_token_ids xs ≡ true) e
                  (same_ids_refl b.prompt_token_ids),
          );
          generated =
              is_none-FirstDifference b.generated_token_ids i.generated_token_ids
                (first_mismatch b.generated_token_ids i.generated_token_ids) verdict;
          difference = verdict;
          baseline_count = refl;
          instrumented_count = refl;
        }),
      )
