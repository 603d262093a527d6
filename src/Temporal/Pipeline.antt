-- ===== src/Temporal/Pipeline.antt =====
-- src/expertflow/predictor/temporal_dataset.py: the samples of a shard are what the simulation of
-- src/expertflow/predictor/temporal_shadow.py wants.
use expertflow.Base.{
  ℕ, ◌≤◌, ◌<◌, true, String, eq_refl, List, [], ◌∷◌, length, ltb, ==_refl, ok, value_error,
  raise_if, ◌≡◌, refl, ap, ◌∙◌, ok-injective, >>=-eq-ok,
}
use mathlib.Core.Path.{subst}
use expertflow.Trace.Event.{RouterTraceEvent}
use expertflow.Temporal.{TemporalSample, TemporalReport, same_experts, simulate_temporal_shadow}
use expertflow.Temporal.Dataset.{
  check_pair, paired, sample_of, collect, ordered, samples_from, pair_up, shard_samples,
}
use expertflow.Temporal.Rounds.{IsBalanced}
use expertflow.Temporal.Run.{follows, is_continuous, simulate_temporal_shadow-IsBalanced}

same_experts_self : (xs : List ℕ) → same_experts xs xs ≡ true
unfolding same_experts
same_experts_self [] = refl
same_experts_self (x ∷ xs) = rw (==_refl x, same_experts_self xs) refl

module _ (conversation split domain : String) where
  sample_of-paired :
      (source target : RouterTraceEvent) {sample : TemporalSample}
      → sample_of conversation split domain source target ≡ ok sample
      → paired conversation split domain source target ≡ sample
  unfolding sample_of
  sample_of-paired source target h =
      let (_, _, made) = >>=-eq-ok (check_pair source target) _ h in ok-injective made

  samples_from-follows :
      (source : RouterTraceEvent) (rest : List RouterTraceEvent) {samples : List TemporalSample}
      → samples_from conversation split domain source rest ≡ ok samples
      → follows conversation source.selected_expert_ids samples ≡ true
  unfolding samples_from follows paired
  samples_from-follows source [] h =
      subst (λ s. follows conversation source.selected_expert_ids s ≡ true) (ok-injective h) refl
  samples_from-follows source (target ∷ rest) h =
      let (sample, made, h₁) = >>=-eq-ok (sample_of conversation split domain source target) _ h in
      let (samples, found, h₂) =
        >>=-eq-ok (samples_from conversation split domain target rest) _ h₁ in
      let later = samples_from-follows target rest found in
      let here : follows conversation source.selected_expert_ids
            (paired conversation split domain source target ∷ samples)
          ≡ true =
        rw (eq_refl conversation, same_experts_self source.selected_expert_ids) later in
      subst (λ s. follows conversation source.selected_expert_ids s ≡ true)
        (ap (λ x. x ∷ samples) (sample_of-paired source target made) ∙ ok-injective h₂) here

  samples_from-is_continuous :
      (source : RouterTraceEvent) (rest : List RouterTraceEvent) {samples : List TemporalSample}
      → samples_from conversation split domain source rest ≡ ok samples
      → is_continuous samples ≡ true
  unfolding samples_from is_continuous paired
  samples_from-is_continuous source [] h = subst (λ s. is_continuous s ≡ true) (ok-injective h) refl
  samples_from-is_continuous source (target ∷ rest) h =
      let (sample, made, h₁) = >>=-eq-ok (sample_of conversation split domain source target) _ h in
      let (samples, found, h₂) =
        >>=-eq-ok (samples_from conversation split domain target rest) _ h₁ in
      let here : is_continuous (paired conversation split domain source target ∷ samples) ≡ true =
        samples_from-follows target rest found in
      subst (λ s. is_continuous s ≡ true)
        (ap (λ x. x ∷ samples) (sample_of-paired source target made) ∙ ok-injective h₂) here

  pair_up-is_continuous :
      (events : List RouterTraceEvent) {samples : List TemporalSample}
      → pair_up conversation split domain events ≡ ok samples
      → is_continuous samples ≡ true
  unfolding pair_up is_continuous
  pair_up-is_continuous [] h = subst (λ s. is_continuous s ≡ true) (ok-injective h) refl
  pair_up-is_continuous (source ∷ rest) h = samples_from-is_continuous source rest h

  -- The samples that a shard gives pass the test for a continuous sequence: with a ranking for each of
  -- them, a width from 1 to 128 and a capacity of at least the width, the simulation over the samples
  -- returns a report, and its totals balance.
  pub shard_samples-simulate_temporal_shadow :
      (events : List RouterTraceEvent) (rankings : List (List ℕ)) (width capacity expert_bytes : ℕ)
      {samples : List TemporalSample}
      → shard_samples conversation split domain events ≡ ok samples
      → length samples ≡ length rankings
      → 0 < width
      → width ≤ 128
      → width ≤ capacity
      → (report : TemporalReport) × (simulate_temporal_shadow samples rankings width capacity
            expert_bytes
          ≡ ok report)
        × IsBalanced report.totals
  unfolding shard_samples
  shard_samples-simulate_temporal_shadow events rankings width capacity expert_bytes {samples} h
        same positive narrow room =
      let (by_forward, _, h₁) = >>=-eq-ok (collect conversation events []) _ h in
      let (_, _, h₂) =
        >>=-eq-ok
          (raise_if (ltb (length by_forward) 2)
            (value_error "fewer than two decode layer-24 records"))
          _ h₁ in
      let smooth = pair_up-is_continuous (ordered by_forward) h₂ in
      let (report, ran, balanced) =
        simulate_temporal_shadow-IsBalanced samples rankings width capacity expert_bytes same
          positive narrow room in
      (report, rw smooth at ran, balanced)
