-- ===== src/CacheSim/Recency.antt =====
-- src/expertflow/analysis/cache_sim.py: the `lru` policy against recency orders that forget nothing.
use expertflow.Base.{
  ℕ, ◌+◌, ◌≤◌, true, false, not, List, [], ◌∷◌, ◌++◌, length, keep, leb, ◌≡◌, ◌⊎◌, refl, ap, sym,
  ◌∙◌, inl, inr, arith, length-append, keep-append, Bool-cases,
}
use expertflow.Base.Dict
use expertflow.Base.Dict.{Dict}
use expertflow.Base.Distinct.{
  elem, Distinct, elem-append, Distinct-append, Distinct-keep, elem-keep_of,
}
use expertflow.Trace.Event.{RouterTraceEvent}
use mathlib.Core.List.{append_assoc}
use expertflow.Base.Ordered.Recency.{
  keep_last, keep_last_all, keep_last-cons, length-keep_last, length-keep_last-le,
  Distinct-keep_last,
}
use expertflow.CacheSim.{PolicyEventOutcome}
use expertflow.CacheSim.Scan.{spare, hits, misses}
use expertflow.CacheSim.Lru.{IsCache, Fits, used, hit_outcome, scanned_lem}

-- The recency order of a layer after an event, where the resident experts are its last `capacity`.
unfoldable pub recent : ℕ → List ℕ → List ℕ → List ℕ
recent capacity history ids =
    let residents = keep_last capacity history in
    spare ids history ++ (hits residents ids ++ misses residents ids)

-- The specification of the policy: every layer has the order of all its experts by their last use,
-- and an expert is ready if it is among the last `capacity` of them.
unfoldable pub recency_outcomes :
    ℕ → Dict (List ℕ) → List RouterTraceEvent → List PolicyEventOutcome
recency_outcomes capacity histories [] = []
recency_outcomes capacity histories (e ∷ events) =
    let history = Dict.get_or [] e.layer_id histories in
    hit_outcome (keep_last capacity history) e
    ∷ recency_outcomes capacity
        (Dict.insert e.layer_id (recent capacity history e.selected_expert_ids) histories) events

-- Dropping the oldest keys first changes no end of the order that is long enough.
keep_last-prefix :
    (n : ℕ) (xs ys : List ℕ) → n ≤ length ys → keep_last n (xs ++ ys) ≡ keep_last n ys
keep_last-prefix n [] ys h = refl
keep_last-prefix n (x ∷ xs) ys h =
    keep_last-cons n x (xs ++ ys) (omega (arith, length-append xs ys)) ∙ keep_last-prefix n xs ys h

keep_last-tail :
    (n : ℕ) (old new rest : List ℕ)
    → ((old ≡ []) ⊎ (n ≤ length (new ++ rest)))
    → keep_last n (new ++ rest) ≡ keep_last n ((old ++ new) ++ rest)
keep_last-tail n old new rest (inl e) = rw e
keep_last-tail n old new rest (inr h) =
    rw (append_assoc old new rest) (sym (keep_last-prefix n old (new ++ rest) h))

-- The hits and the misses of an event are its experts, each once.
used_ids-elem :
    (cache ids : List ℕ) (y : ℕ)
    → elem y (hits cache ids ++ misses cache ids) ≡ true
    → elem y ids ≡ true
used_ids-elem cache ids y h = ground (
  arith,
  elem-append y (hits cache ids) (misses cache ids),
  elem-keep_of (λ x. elem x cache) y ids,
  elem-keep_of (λ x. not (elem x cache)) y ids,
)

used_ids-Distinct :
    (cache ids : List ℕ) → Distinct ids → Distinct (hits cache ids ++ misses cache ids)
used_ids-Distinct cache ids d =
    Distinct-append (hits cache ids) (misses cache ids) (Distinct-keep _ ids d)
      (Distinct-keep _ ids d) (λ y m. not-hit y (elem-keep_of (λ x. not (elem x cache)) y ids m).1)
  where
    not-hit : (y : ℕ) → not (elem y cache) ≡ true → elem y (hits cache ids) ≡ false
    not-hit y h = ground (arith, elem-keep_of (λ x. elem x cache) y ids)

-- A list is what `keep_last` drops and what it keeps.
keep_last_split :
    (n : ℕ) (xs : List ℕ)
    → (old : List ℕ) × (xs ≡ old ++ keep_last n xs) × ((old ≡ []) ⊎ (length (keep_last n xs) ≡ n))
keep_last_split n [] = ([], sym (keep_last_all n [] (omega arith)), inl refl)
keep_last_split n (x ∷ xs) = elim (Bool-cases (leb n (length xs))) [
  | inl full ↦
      let (old, e, _) = keep_last_split n xs in
      (
        x ∷ old,
        rw (keep_last-cons n x xs (ground arith)) (ap (◌∷◌ x) e),
        inr (length-keep_last n (x ∷ xs) (ground arith)),
      )
  | inr free ↦ ([], sym (keep_last_all n (x ∷ xs) (ground arith)), inl refl)
]

module _ (capacity : ℕ) (history : List ℕ) (e : RouterTraceEvent) (d : Distinct history)
    (f : Fits capacity e) where
  open e use {selected_expert_ids as ids}

  pub window_IsCache : IsCache capacity (keep_last capacity history)
  window_IsCache = record {
    distinct = Distinct-keep_last capacity history d;
    bounded = length-keep_last-le capacity history;
  }

  window_length :
      length (spare ids (keep_last capacity history))
        + length (hits (keep_last capacity history) ids)
      ≡ length (keep_last capacity history)
  window_length = omega (
    arith,
    (scanned_lem capacity (keep_last capacity history) e window_IsCache f).count,
    length-append (spare ids (keep_last capacity history)) (hits (keep_last capacity history) ids),
  )

  spare_split :
      spare ids history
      ≡ spare ids (keep_last_split capacity history).0 ++ spare ids (keep_last capacity history)
  spare_split =
      let (old, e, _) = keep_last_split capacity history in
      ap (spare ids) e ∙ keep-append _ old (keep_last capacity history)

  long_end :
      (spare ids (keep_last_split capacity history).0 ≡ [])
      ⊎ (capacity
          ≤ length (
              spare ids (keep_last capacity history)
              ++ (hits (keep_last capacity history) ids
                  ++ misses (keep_last capacity history) ids)))
  long_end = elim (keep_last_split capacity history).2 [
    | inl none_dropped ↦ inl (unfold keep in rw none_dropped)
    | inr full ↦ inr (
        omega (
          arith,
          full,
          window_length,
          length-append (spare ids (keep_last capacity history))
              (hits (keep_last capacity history) ids ++ misses (keep_last capacity history) ids),
          length-append (hits (keep_last capacity history) ids)
              (misses (keep_last capacity history) ids),
        ))
  ]

  -- To use an event's experts and keep the end, the end is all that matters.
  pub keep_last-used :
      keep_last capacity (used (keep_last capacity history) ids)
      ≡ keep_last capacity (recent capacity history ids)
  unfolding used recent
  keep_last-used = rw spare_split (keep_last-tail capacity _ _ _ long_end)

  spared : (y : ℕ) → elem y ids ≡ true → elem y (spare ids history) ≡ false
  spared y h = ground (arith, elem-keep_of (λ x. not (elem x ids)) y history)

  pub recent-Distinct : Distinct (recent capacity history ids)
  unfolding recent
  recent-Distinct =
      Distinct-append (spare ids history) _ (Distinct-keep _ history d)
        (used_ids-Distinct (keep_last capacity history) ids f.distinct)
        (λ y m. spared y (used_ids-elem (keep_last capacity history) ids y m))
