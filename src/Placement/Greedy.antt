-- ===== src/Placement/Greedy.antt =====
-- src/expertflow/compiler/static_placement.py: the greedy candidates of
-- `generate_static_candidates`.
use expertflow.Base.{
  ℕ, suc, ◌+◌, ◌<◌, ◌≤◌, Bool, true, false, not, ◌⊎◌, List, [], ◌∷◌, ◌++◌, map, length, take, any,
  All, ◌==◌, ok, ◌≡◌, refl, sym, ◌∙◌, arith, ap, Bool-cases, inl, inr, leb, upto, length-append,
}
use mathlib.Core.Path.{subst}
use expertflow.Base.Dict
use expertflow.Base.Dict.{Dict}
use expertflow.Base.Distinct.{elem, Distinct}
use expertflow.Base.Sort.{sort_by}
use expertflow.Placement.{
  LayerBenefit, Kind, StaticPlacementCandidate, Limits, candidate, is_rejected, greedy_candidates,
}
use expertflow.Placement.Budget.{IsPlaced, candidate-IsPlaced, lacks, Distinct-initial}

any-append :
    (test : ℕ → Bool) (xs ys : List ℕ)
    → any test xs ≡ false
    → any test ys ≡ false
    → any test (xs ++ ys) ≡ false
unfolding any
any-append test [] ys h k = k
any-append test (x ∷ xs) ys h k = ground (arith, h, any-append test xs ys)

append-snoc : (xs ys : List ℕ) (y : ℕ) → (xs ++ y ∷ []) ++ ys ≡ xs ++ y ∷ ys
append-snoc [] ys y = refl
append-snoc (x ∷ xs) ys y = ap (◌∷◌ x) (append-snoc xs ys y)

take-append-snoc : (xs ys : List ℕ) (y : ℕ) → take (suc (length xs)) (xs ++ y ∷ ys) ≡ xs ++ y ∷ []
take-append-snoc [] ys y = refl
take-append-snoc (x ∷ xs) ys y = ap (◌∷◌ x) (take-append-snoc xs ys y)

-- The layers of the benefits.
abbrev pub layers_of : List LayerBenefit → List ℕ
layers_of = map (λ b. b.layer_id)

-- The candidates accepted, and those rejected for more than their numbers.
abbrev pub Accepted : List StaticPlacementCandidate → Type 0
Accepted = All (λ c. is_rejected c ≡ false)

abbrev pub Rejected : List StaticPlacementCandidate → Type 0
Rejected = All (λ c. is_rejected c ≡ true)

module _ (by_id : Dict LayerBenefit) (limits : Limits) where
  -- Greedy candidates for the prefixes of `layers` that are longer than `start`, in order and each in
  -- the order of the ids. They are accepted and reach the last layer, or they are accepted and the
  -- next prefix, which is not the first, is refused, or the only one is the first prefix, refused.
  pub record AreGreedy (start : ℕ) (layers : List ℕ) (cs : List StaticPlacementCandidate)
      : Type 0 where
    pub prefixes :
        map (λ c. c.layer_ids) cs
        ≡ map (λ i. sort_by leb (take i layers)) (upto (suc start) (length cs))
    pub kinds : All (λ c. c.kind ≡ Kind.greedy) cs
    pub ends :
        (Accepted cs × (length cs + start ≡ length layers))
        ⊎ ((Accepted cs
              × (0 < length cs + start)
              × ((next : StaticPlacementCandidate) × (candidate by_id limits
                      (take (suc (length cs + start)) layers)
                      Kind.greedy
                    ≡ ok next)
                  × (is_rejected next ≡ true)))
            ⊎ (Rejected cs × (length cs ≡ 1) × (start ≡ 0)))

  AreGreedy-grow :
      (start : ℕ) (layers : List ℕ) (c : StaticPlacementCandidate)
      (cs : List StaticPlacementCandidate)
      → c.layer_ids ≡ sort_by leb (take (suc start) layers)
      → c.kind ≡ Kind.greedy
      → is_rejected c ≡ false
      → AreGreedy (suc start) layers cs
      → AreGreedy start layers (c ∷ cs)
  unfolding upto
  AreGreedy-grow start layers c cs first kind good h =
      let moved : length cs + suc start ≡ length (c ∷ cs) + start = omega arith in
      record {
        prefixes = cons_eq first h.prefixes;
        kinds = (kind, h.kinds);
        ends = elim h.ends [
          | inl (all, whole) ↦ inl ((good, all), omega (arith, whole))
          | inr (inl (all, before, (next, made, bad))) ↦ inr (
              inl (
                (good, all),
                omega arith,
                (
                  next,
                  subst (λ n. candidate by_id limits (take (suc n) layers) Kind.greedy ≡ ok next)
                      moved made,
                  bad,
                ),
              ))
          | inr (inr (_, _, none_before)) ↦ absurd (omega (arith, none_before))
        ];
      }
    where
      cons_eq : {x y : List ℕ} {xs ys : List (List ℕ)} → x ≡ y → xs ≡ ys → (x ∷ xs) ≡ y ∷ ys
      cons_eq e f = cc

  pub greedy_candidates-AreGreedy :
      (layers prefix : List ℕ) (benefits : List LayerBenefit)
      → prefix ++ layers_of benefits ≡ layers
      → lacks by_id limits prefix ≡ false
      → lacks by_id limits (layers_of benefits) ≡ false
      → Distinct layers
      → (cs : List StaticPlacementCandidate) × (greedy_candidates by_id limits prefix benefits
          ≡ ok cs)
        × All (IsPlaced by_id limits) cs
        × AreGreedy (length prefix) layers cs
        × (length cs ≤ length benefits)
  unfolding greedy_candidates any upto
  greedy_candidates-AreGreedy layers prefix [] split h k d = (
    [],
    refl,
    tt,
    record {
      prefixes = refl;
      kinds = tt;
      ends = inl (tt, omega (arith, length-append prefix [], ap length split));
    },
    omega arith,
  )
  greedy_candidates-AreGreedy layers prefix (b ∷ benefits) split h k d =
      let here : not (elem b.layer_id (Dict.keys by_id)) ≡ false = ground (arith, k) in
      let rest : lacks by_id limits (layers_of benefits) ≡ false = ground (arith, k) in
      let longer = prefix ++ b.layer_id ∷ [] in
      let known =
        any-append (λ i. not (elem i (Dict.keys by_id))) prefix (b.layer_id ∷ []) h
          (rw here refl) in
      let split' : longer ++ layers_of benefits ≡ layers =
        append-snoc prefix (layers_of benefits) b.layer_id ∙ split in
      let initial : take (suc (length prefix)) layers ≡ longer =
        ap (take (suc (length prefix))) (sym split)
        ∙ take-append-snoc prefix (layers_of benefits) b.layer_id in
      let no_more : suc (0 + length prefix) ≡ suc (length prefix) = omega arith in
      let refused : take (suc (0 + length prefix)) layers ≡ longer =
        ap (λ n. take n layers) no_more ∙ initial in
      let size : length longer ≡ suc (length prefix) =
        omega (arith, length-append prefix (b.layer_id ∷ [])) in
      let apart : Distinct (longer ++ layers_of benefits) = subst Distinct (sym split') d in
      let (c, made, placed, ids, kind) =
        candidate-IsPlaced by_id limits longer Kind.greedy known
          (Distinct-initial longer (layers_of benefits) apart) in
      let first : c.layer_ids ≡ sort_by leb (take (suc (length prefix)) layers) =
        ids ∙ ap (sort_by leb) (sym initial) in
      let (cs, ran, all_placed, greedy, count) =
        greedy_candidates-AreGreedy layers longer benefits split' known rest d in
      elim (Bool-cases (is_rejected c)) [
        | inl bad ↦ elim (Bool-cases (length prefix == 0)) [
          | inl e ↦ (
            c ∷ [],
            rw (made, bad, e) refl,
            (placed, tt),
            record {
              prefixes = ap (λ x. x ∷ []) first;
              kinds = (kind, tt);
              ends = inr (inr ((bad, tt), refl, ground (arith, e)));
            },
            omega arith,
          )
          | inr e ↦ (
            [],
            rw (made, bad, e) refl,
            tt,
            record {
              prefixes = refl;
              kinds = tt;
              ends = inr (
                  inl (
                    tt,
                    ground (arith, e),
                    (
                      c,
                      subst (λ xs. candidate by_id limits xs Kind.greedy ≡ ok c) (sym refused) made,
                      bad,
                    ),
                  ));
            },
            omega arith,
          )
        ]
        | inr good ↦ (
          c ∷ cs,
          rw (made, good, ran) refl,
          (placed, all_placed),
          AreGreedy-grow (length prefix) layers c cs first kind good
              (subst (λ n. AreGreedy n layers cs) size greedy),
          omega (arith, count),
        )
      ]
