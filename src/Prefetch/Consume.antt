-- ===== src/Prefetch/Consume.antt =====
-- src/expertflow/analysis/prefetch_sim.py: the demand of an event is met, and counted.
use expertflow.Base.{
  ℕ, zero, suc, ◌+◌, ◌≤◌, ◌<◌, Bool, Bool-cases, true, false, Option-cases, none, some, List, [],
  ◌∷◌, length, leb, if◌then◌else◌, ok, ◌∙◌, ◌≡◌, refl, arith, inl, inr, length-append, ==_refl,
}
use expertflow.Base.Distinct.{
  elem, remove, Distinct, length-remove, Distinct-remove, elem-remove, Distinct-snoc,
}
use expertflow.Base.Ordered.{move_to_end, store, victim, make_room}
use expertflow.Base.Ordered.Slots.{IsSlot, IsSlot-store}
use expertflow.Base.Ordered.Recency.{make_room_free}
use expertflow.Prefetch.Inputs.{Pairs, pair_elem, pair_store}
use expertflow.Prefetch.Sets.{
  Within, DistinctPairs, WithinPairs, length-Within-le, pair_store-Within,
}
use expertflow.Prefetch.{Consumed, count_hit, count_miss, consume_demand}

-- Where every key is required, the generator finds no victim; so there is one in a cache without
-- repetition that is as large as the required experts and lacks one of them.
no_victim : (required cache : List ℕ) → victim required cache ≡ none → Within required cache
unfolding victim
no_victim required [] h = tt
no_victim required (x ∷ cache) h = elim (Bool-cases (elem x required)) [
  | inl e ↦ (e, no_victim required cache (ground arith))
  | inr e ↦ absurd (ground arith)
]

victim-elem :
    (required : List ℕ) (y : ℕ) (cache : List ℕ)
    → victim required cache ≡ some y
    → elem y cache ≡ true
unfolding victim elem
victim-elem required y [] h = cc
victim-elem required y (x ∷ cache) h = elim (Bool-cases (elem x required)) [
  | inl e ↦ ground (arith, victim-elem required y cache)
  | inr e ↦ let same : x ≡ y = ground arith in rw same (rw (==_refl y) refl)
]

-- The loop that makes room ends with room, and adds nothing.
make_room-IsSlot :
    (capacity x : ℕ) (required cache : List ℕ)
    → IsSlot capacity cache
    → length required ≤ capacity
    → elem x required ≡ true
    → elem x cache ≡ false
    → (room : List ℕ) × (make_room (suc (length cache)) capacity required cache ≡ ok room)
      × Distinct room
      × (elem x room ≡ false)
      × (length room < capacity)
unfolding make_room
make_room-IsSlot capacity x required cache s wide needed fresh =
    elim (Bool-cases (leb capacity (length cache))) [
      | inr free ↦ (
        cache,
        make_room_free (length cache) capacity required cache (ground arith),
        s.0,
        fresh,
        ground arith,
      )
      | inl full ↦ elim (Option-cases (victim required cache)) [
        | inl e ↦ absurd (too_many (no_victim required cache e) (ground arith))
        | inr (y, e) ↦ one_out full y e
      ]
    ]
  where
    too_many : Within required cache → capacity ≤ length cache → ⊥
    too_many within full =
        let all : length (x ∷ cache) ≤ length required =
          length-Within-le (x ∷ cache) required (fresh, s.0) (needed, within) in
        omega (arith, all)

    one_out :
        leb capacity (length cache) ≡ true
        → (y : ℕ) → victim required cache ≡ some y
        → (room : List ℕ) × (make_room (suc (length cache)) capacity required cache ≡ ok room)
          × Distinct room
          × (elem x room ≡ false)
          × (length room < capacity)
    one_out full y e =
        let shorter = length-remove y cache s.0 (victim-elem required y cache e) in
        let room : leb capacity (length (remove y cache)) ≡ false = ground (arith, shorter, s.1) in
        (
          remove y cache,
          rw (make_room, full, e)
              (second (length cache) (remove y cache) room (omega (arith, shorter))),
          Distinct-remove y cache s.0,
          ground (arith, elem-remove x y cache),
          ground arith,
        )
      where
        second :
            (fuel : ℕ) (rest : List ℕ)
            → leb capacity (length rest) ≡ false
            → 0 < fuel
            → make_room fuel capacity required rest ≡ ok rest
        second zero rest h p = absurd (omega arith)
        second (suc fuel) rest h p = make_room_free fuel capacity required rest (ground arith)

-- What a part of the loop over `n` demanded experts keeps and counts.
pub record Consumes (capacity : ℕ) (issued : Pairs) (n : ℕ) (before after : Consumed) : Type 0 where
  pub slot : IsSlot capacity after.cache
  pub ready : DistinctPairs after.counted_ready × WithinPairs issued after.counted_ready
  pub counted : after.hits + after.misses ≡ before.hits + before.misses + n

abbrev pub IsReady : Pairs → Consumed → Type 0
IsReady issued state = DistinctPairs state.counted_ready × WithinPairs issued state.counted_ready

move_to_end-IsSlot :
    (capacity x : ℕ) (cache : List ℕ)
    → IsSlot capacity cache
    → elem x cache ≡ true
    → IsSlot capacity (move_to_end x cache)
unfolding move_to_end
move_to_end-IsSlot capacity x cache s there = (
  Distinct-snoc (remove x cache) x (Distinct-remove x cache s.0)
      (elem-remove x x cache ∙ (ground arith)),
  omega (arith, s.1, length-append (remove x cache) (x ∷ []), length-remove x cache s.0 there),
)

module _ (capacity layer : ℕ) (issued : Pairs) (required : List ℕ)
    (wide : length required ≤ capacity) where
  count_hit-Consumes :
      (x : ℕ) (state : Consumed)
      → IsSlot capacity state.cache
      → IsReady issued state
      → elem x state.cache ≡ true
      → Consumes capacity issued 1 state (count_hit layer issued x state)
  unfolding count_hit
  count_hit-Consumes x state s r there = record {
    slot = move_to_end-IsSlot capacity x state.cache s there;
    ready = kept (pair_elem layer x issued) refl;
    counted = omega arith;
  }
    where
      kept :
          (b : Bool)
          → pair_elem layer x issued ≡ b
          → DistinctPairs
              (if b then pair_store layer x state.counted_ready else state.counted_ready)
            × WithinPairs issued
                (if b then pair_store layer x state.counted_ready else state.counted_ready)
      kept true e = pair_store-Within issued layer x state.counted_ready e r
      kept false e = r

  count_miss-Consumes :
      (x : ℕ) (state : Consumed)
      → IsSlot capacity state.cache
      → IsReady issued state
      → elem x required ≡ true
      → elem x state.cache ≡ false
      → (next : Consumed) × (count_miss capacity required x state ≡ ok next)
        × Consumes capacity issued 1 state next
  unfolding count_miss
  count_miss-Consumes x state s r needed fresh =
      let (room, made, d, absent, free) =
        make_room-IsSlot capacity x required state.cache s wide needed fresh in
      (
        record state { misses = state.misses + 1; cache = store x room },
        rw made refl,
        record {
          slot = IsSlot-store capacity x room d absent free;
          ready = r;
          counted = omega arith;
        },
      )

  -- The loop over demanded experts, all of them required: no exception, the cache within its
  -- capacity, each expert a hit or a miss, and what counts as ready was issued, and counted once.
  pub consume_demand-Consumes :
      (xs : List ℕ) (state : Consumed)
      → Within required xs
      → IsSlot capacity state.cache
      → IsReady issued state
      → (last : Consumed) × (consume_demand capacity layer issued required xs state ≡ ok last)
        × Consumes capacity issued (length xs) state last
  unfolding consume_demand
  consume_demand-Consumes [] state w s r =
      (state, refl, record { slot = s; ready = r; counted = omega arith })
  consume_demand-Consumes (x ∷ xs) state w s r = elim (Bool-cases (elem x state.cache)) [
    | inl there ↦
        let one = count_hit-Consumes x state s r there in
        let (last, ran, rest) =
          consume_demand-Consumes xs (count_hit layer issued x state) w.1 one.slot one.ready in
        (last, rw there ran, then_rest one rest)
    | inr fresh ↦
        let (next, made, one) = count_miss-Consumes x state s r w.0 fresh in
        let (last, ran, rest) = consume_demand-Consumes xs next w.1 one.slot one.ready in
        (last, rw (fresh, made) ran, then_rest one rest)
  ]
    where
      then_rest :
          {next last : Consumed}
          → Consumes capacity issued 1 state next
          → Consumes capacity issued (length xs) next last
          → Consumes capacity issued (suc (length xs)) state last
      then_rest one rest = record {
        slot = rest.slot;
        ready = rest.ready;
        counted = omega (arith, one.counted, rest.counted);
      }
