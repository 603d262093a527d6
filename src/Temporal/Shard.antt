-- ===== src/Temporal/Shard.antt =====
-- src/expertflow/predictor/temporal_dataset.py: the samples of a well-formed shard.
use expertflow.Base.{
  ℕ, ◌+◌, ◌<◌, Bool, true, false, not, String, str_eq, List, [], ◌∷◌, ◌++◌, map, length, any_of_All,
  All, All-mono, ltb, leb, ◌==◌, ok, ◌≡◌, refl, arith, ap, ◌∙◌, length-map,
}
use expertflow.Base.Dict
use expertflow.Base.Dict.{Dict}
use expertflow.Base.Distinct.{elem}
use expertflow.Base.Sort.{insert_by, sort_by}
use expertflow.Trace.Event.{RouterTraceEvent}
use expertflow.Temporal.{TemporalSample}
use expertflow.Temporal.Dataset.{
  target_layer, expert_count, router_width, validate_router_set, is_decode, paired, check_pair,
  sample_of, keep_event, collect, ordered, samples_from, pair_up, shard_samples,
}

-- A decode record of the target layer, with its eight experts.
pub record IsRecord (conversation : String) (e : RouterTraceEvent) : Type 0 where
  pub own : str_eq e.conversation_id conversation ≡ true
  pub decodes : is_decode e.phase ≡ true
  pub layer : e.layer_id ≡ target_layer
  pub width : length e.selected_expert_ids ≡ router_width
  pub experts : All (λ x. x < expert_count) e.selected_expert_ids

-- The next token of the same turn.
pub record IsNext (source target : RouterTraceEvent) : Type 0 where
  pub request : str_eq source.request_id target.request_id ≡ true
  pub turn : source.turn_index ≡ target.turn_index
  pub forward : target.forward_id ≡ source.forward_id + 1
  pub token : target.token_index ≡ source.token_index + 1
  pub hook : source.hook_order < target.hook_order

abbrev pub AreConsecutive : RouterTraceEvent → List RouterTraceEvent → Type 0
AreConsecutive source [] = Unit
AreConsecutive source (target ∷ rest) = IsNext source target × AreConsecutive target rest

insert_absent :
    (k : ℕ) (e : RouterTraceEvent) (d : Dict RouterTraceEvent)
    → elem k (Dict.keys d) ≡ false
    → Dict.insert k e d ≡ d ++ (k, e) ∷ []
unfolding Dict.insert elem
insert_absent k e [] h = refl
insert_absent k e ((j, f) ∷ d) h =
    let other : (j == k) ≡ false = ground (arith, h) in
    rw other (ap (◌∷◌ (j, f)) (insert_absent k e d (rw other at h)))

-- Every key is below a forward id.
Below : ℕ → Dict RouterTraceEvent → Type 0
Below n = All (λ d. d.0 < n)

absent_of_Below : (n : ℕ) (d : Dict RouterTraceEvent) → Below n d → elem n (Dict.keys d) ≡ false
unfolding elem Below
absent_of_Below n [] h = refl
absent_of_Below n ((j, f) ∷ d) h =
    let other : (j == n) ≡ false = ground (arith, h.0) in rw other (absent_of_Below n d h.1)

Below-snoc :
    (n : ℕ) (e : RouterTraceEvent) (d : Dict RouterTraceEvent)
    → Below n d
    → Below (n + 1) (d ++ (n, e) ∷ [])
unfolding Below
Below-snoc n e [] h = (omega arith, tt)
Below-snoc n e (f ∷ d) h = (omega (arith, h.0), Below-snoc n e d h.1)

append-step :
    (d : Dict RouterTraceEvent) (x : ℕ × RouterTraceEvent) (xs : Dict RouterTraceEvent)
    → (d ++ x ∷ []) ++ xs ≡ d ++ x ∷ xs
append-step [] x xs = refl
append-step (y ∷ d) x xs = ap (◌∷◌ y) (append-step d x xs)

abbrev keyed : RouterTraceEvent → ℕ × RouterTraceEvent
keyed e = (e.forward_id, e)

abbrev by_id : List RouterTraceEvent → Dict RouterTraceEvent
by_id = map keyed

module _ (conversation : String) where
  keep_event-record :
      (e : RouterTraceEvent) (d : Dict RouterTraceEvent)
      → IsRecord conversation e
      → Below e.forward_id d
      → keep_event conversation e d ≡ ok (d ++ (e.forward_id, e) ∷ [])
  unfolding keep_event validate_router_set
  keep_event-record e d r b =
      let layer : (e.layer_id == target_layer) ≡ true = ground (arith, r.layer) in
      let width : (length e.selected_expert_ids == router_width) ≡ true = ground (arith, r.width) in
      let experts =
        any_of_All (λ x. not (ltb x expert_count)) e.selected_expert_ids
          (All-mono _ _ e.selected_expert_ids (λ x h. ground (arith, h)) r.experts) in
      rw
        (
          r.own,
          r.decodes,
          layer,
          width,
          experts,
          absent_of_Below e.forward_id d b,
          insert_absent e.forward_id e d (absent_of_Below e.forward_id d b),
        )
        refl

  collect-consecutive :
      (e : RouterTraceEvent) (rest : List RouterTraceEvent) (d : Dict RouterTraceEvent)
      → All (IsRecord conversation) (e ∷ rest)
      → AreConsecutive e rest
      → Below e.forward_id d
      → collect conversation (e ∷ rest) d ≡ ok (d ++ by_id (e ∷ rest))
  unfolding collect
  collect-consecutive e [] d h n b = rw (keep_event-record e d h.0 b) refl
  collect-consecutive e (f ∷ rest) d h n b =
      let kept = keep_event-record e d h.0 b in
      let lower : Below f.forward_id (d ++ (e.forward_id, e) ∷ []) =
        rw n.0.forward (Below-snoc e.forward_id e d b) in
      rw (kept, collect-consecutive f rest (d ++ (e.forward_id, e) ∷ []) h.1 n.1 lower)
        (ap ok (append-step d (e.forward_id, e) (by_id (f ∷ rest))))

map-by_id : (events : List RouterTraceEvent) → map (λ e. e.1) (by_id events) ≡ events
map-by_id [] = refl
map-by_id (e ∷ events) = ap (◌∷◌ e) (map-by_id events)

earlier : RouterTraceEvent → RouterTraceEvent → Bool
earlier a b = leb a.forward_id b.forward_id

insert_by-first :
    (e f : RouterTraceEvent) (rest : List RouterTraceEvent)
    → leb e.forward_id f.forward_id ≡ true
    → insert_by earlier e (f ∷ rest) ≡ e ∷ f ∷ rest
unfolding insert_by earlier
insert_by-first e f rest h = rw h refl

sort_by-consecutive :
    (e : RouterTraceEvent) (rest : List RouterTraceEvent)
    → AreConsecutive e rest
    → sort_by earlier (e ∷ rest) ≡ e ∷ rest
unfolding sort_by insert_by
sort_by-consecutive e [] n = refl
sort_by-consecutive e (f ∷ rest) n =
    let first : leb e.forward_id f.forward_id ≡ true = ground (arith, n.0.forward) in
    let later = sort_by-consecutive f rest n.1 in
    ap (insert_by earlier e) later ∙ insert_by-first e f rest first

ordered-consecutive :
    (e : RouterTraceEvent) (rest : List RouterTraceEvent)
    → AreConsecutive e rest
    → ordered (by_id (e ∷ rest)) ≡ e ∷ rest
unfolding ordered earlier
ordered-consecutive e rest n = rw (map-by_id rest) (sort_by-consecutive e rest n)

module _ (conversation split domain : String) where
  check_pair-record :
      (source target : RouterTraceEvent)
      → IsRecord conversation source
      → IsRecord conversation target
      → IsNext source target
      → sample_of conversation split domain source target
        ≡ ok (paired conversation split domain source target)
  unfolding sample_of check_pair
  check_pair-record source target r s n =
      let turn : (source.turn_index == target.turn_index) ≡ true = ground (arith, n.turn) in
      let forward : (target.forward_id == source.forward_id + 1) ≡ true =
        ground (arith, n.forward) in
      let token : (target.token_index == source.token_index + 1) ≡ true = ground (arith, n.token) in
      let hook : leb target.hook_order source.hook_order ≡ false = ground (arith, n.hook) in
      let one : (source.layer_id == target_layer) ≡ true = ground (arith, r.layer) in
      let other : (target.layer_id == target_layer) ≡ true = ground (arith, s.layer) in
      rw (n.request, turn, forward, token, hook, r.decodes, s.decodes, one, other) refl

  samples_from-consecutive :
      (source : RouterTraceEvent) (rest : List RouterTraceEvent)
      → All (IsRecord conversation) (source ∷ rest)
      → AreConsecutive source rest
      → (samples : List TemporalSample) × (samples_from conversation split domain source rest
          ≡ ok samples)
        × (length samples ≡ length rest)
  unfolding samples_from
  samples_from-consecutive source [] h n = ([], refl, refl)
  samples_from-consecutive source (target ∷ rest) h n =
      let (samples, ran, count) = samples_from-consecutive target rest h.1 n.1 in
      (
        paired conversation split domain source target ∷ samples,
        rw (check_pair-record source target h.0 h.1.0 n.0, ran) refl,
        omega (arith, count),
      )

  -- At least two decode records of the target layer in order, all of one conversation, each with eight
  -- experts below 128, and each but the first the next token of the turn: the shard gives a sample for
  -- each pair of neighbours, and none of its tests fails.
  pub shard_samples-consecutive :
      (source : RouterTraceEvent) (rest : List RouterTraceEvent)
      → 0 < length rest
      → All (IsRecord conversation) (source ∷ rest)
      → AreConsecutive source rest
      → (samples : List TemporalSample) × (shard_samples conversation split domain (source ∷ rest)
          ≡ ok samples)
        × (length samples ≡ length rest)
  unfolding shard_samples pair_up
  shard_samples-consecutive source rest p h n =
      let (samples, ran, count) = samples_from-consecutive source rest h n in
      let enough : ltb (length (by_id (source ∷ rest))) 2 ≡ false =
        ground (arith, p, length-map keyed rest) in
      let collected = collect-consecutive conversation source rest [] h n (unfold Below in tt) in
      let sorted : ordered (by_id (source ∷ rest)) ≡ source ∷ rest =
        ordered-consecutive source rest n in
      (samples, rw (collected, enough, sorted) ran, count)
