-- ===== src/Prefetch/Budget.antt =====
-- src/expertflow/analysis/prefetch_sim.py: the loop over the candidates stays within the budget and
-- the capacity.
use expertflow.Base.{
  ==_refl, ℕ, zero, suc, ◌+◌, ◌≤◌, Bool-cases, true, false, Option, Option-cases, none, some, List,
  [], ◌∷◌, length, ltb, ◌≡◌, refl, arith, inl, inr,
}
use mathlib.Core.Path.{subst}
use expertflow.Base.Dict
use expertflow.Base.Dict.{Dict}
use expertflow.Base.Distinct.{elem, remove, length-remove, Distinct-remove, elem-remove}
use expertflow.Base.Ordered.Slots.{IsSlot, IsSlot-insert, IsSlot-store}
use expertflow.Trace.Event.{RouterTraceEvent}
use expertflow.Prefetch.Inputs.{Score, Pairs, pair_store}
use expertflow.Prefetch.Issue.{exchange, is_protected, open_victim, admit, issue_one, issue}
use expertflow.Prefetch.Sets.{length-pair_store-le}

-- A property of the value, if there is one.
abbrev IfSome {ℓ κ} : {A : Type ℓ} → (A → Type κ) → Option A → Type κ
IfSome P none = Unit
IfSome P (some a) = P a

module _ (capacity : ℕ) (events : List RouterTraceEvent) where
  -- A victim is in the cache.
  open_victim-elem :
      (issued : Pairs) (layer : ℕ) (cache : List ℕ)
      → IfSome (λ y. elem y cache ≡ true) (open_victim events issued layer cache)
  unfolding open_victim elem
  open_victim-elem issued layer [] = tt
  open_victim-elem issued layer (x ∷ cache) =
      elim (Bool-cases (is_protected events issued layer x)) [
        | inl e ↦ rw e (
            further x cache (open_victim events issued layer cache)
              (open_victim-elem issued layer cache))
        | inr e ↦ rw e (rw (==_refl x) refl)
      ]
    where
      further :
          (z : ℕ) (ys : List ℕ) (o : Option ℕ)
          → IfSome (λ y. elem y ys ≡ true) o
          → IfSome (λ y. elem y (z ∷ ys) ≡ true) o
      further z ys none h = tt
      further z ys (some y) h = unfold elem in ground arith

  exchange-IsSlot :
      (x : ℕ) (cache : List ℕ) (o : Option ℕ)
      → IsSlot capacity cache
      → elem x cache ≡ false
      → IfSome (λ y. elem y cache ≡ true) o
      → IfSome (IsSlot capacity) (exchange o x cache)
  unfolding exchange
  exchange-IsSlot x cache none s fresh h = tt
  exchange-IsSlot x cache (some y) s fresh h =
      IsSlot-store capacity x (remove y cache) (Distinct-remove y cache s.0)
        (ground (arith, elem-remove x y cache)) (omega (arith, s.1, length-remove y cache s.0 h))

  issue_one-IsSlot :
      (score : Score) (caches : Dict (List ℕ)) (issued : Pairs)
      → IsSlot capacity (Dict.get_or [] score.1 caches)
      → IfSome (IsSlot capacity) (issue_one capacity events score caches issued)
  unfolding issue_one admit
  issue_one-IsSlot (n, layer, x) caches issued s =
      let cache = Dict.get_or [] layer caches in
      elim (Bool-cases (elem x cache)) [
        | inl e ↦ rw e tt
        | inr fresh ↦ elim (Bool-cases (ltb (length cache) capacity)) [
          | inl free ↦ rw (fresh, free) (IsSlot-store capacity x cache s.0 fresh (ground arith))
          | inr full ↦
              rw (fresh, full)
                (exchange-IsSlot x cache (open_victim events issued layer cache) s fresh
                  (open_victim-elem issued layer cache))
        ]
      ]

  -- What the loop over the candidates keeps.
  pub record Issues (budget candidates : ℕ) (issued : Pairs) (r : Dict (List ℕ) × Pairs)
      : Type 0 where
    pub slots : (k : ℕ) → IsSlot capacity (Dict.get_or [] k r.0)
    pub within_budget : length r.1 ≤ length issued + budget
    pub within_candidates : length r.1 ≤ length issued + candidates

  pub issue-Issues :
      (budget : ℕ) (scored : List Score) (caches : Dict (List ℕ)) (issued : Pairs)
      → ((k : ℕ) → IsSlot capacity (Dict.get_or [] k caches))
      → Issues budget (length scored) issued (issue capacity events budget scored caches issued)
  unfolding issue
  issue-Issues budget [] caches issued s = record {
    slots = s;
    within_budget = omega arith;
    within_candidates = omega arith;
  }
  issue-Issues zero (score ∷ scored) caches issued s = record {
    slots = s;
    within_budget = omega arith;
    within_candidates = omega arith;
  }
  issue-Issues (suc budget) (score ∷ scored) caches issued s =
      elim (Option-cases (issue_one capacity events score caches issued)) [
        | inl skipped ↦
            rw (issue, skipped) (passed (issue-Issues (suc budget) scored caches issued s))
        | inr (cache, sent) ↦
            let fits =
              subst (IfSome (IsSlot capacity)) sent
                (issue_one-IsSlot score caches issued (s score.1)) in
            rw (issue, sent)
              (taken (
                issue-Issues budget scored (Dict.insert score.1 cache caches)
                  (pair_store score.1 score.2 issued)
                  (IsSlot-insert capacity score.1 cache caches fits s)))
      ]
    where
      passed :
          {r : Dict (List ℕ) × Pairs}
          → Issues (suc budget) (length scored) issued r
          → Issues (suc budget) (suc (length scored)) issued r
      passed h = record {
        slots = h.slots;
        within_budget = h.within_budget;
        within_candidates = omega (arith, h.within_candidates);
      }

      taken :
          {r : Dict (List ℕ) × Pairs}
          → Issues budget (length scored) (pair_store score.1 score.2 issued) r
          → Issues (suc budget) (suc (length scored)) issued r
      taken h = record {
        slots = h.slots;
        within_budget = omega (arith, h.within_budget, length-pair_store-le score.1 score.2 issued);
        within_candidates =
            omega (arith, h.within_candidates, length-pair_store-le score.1 score.2 issued);
      }
