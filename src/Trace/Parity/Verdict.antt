-- ===== src/Trace/Parity/Verdict.antt =====
-- src/expertflow/trace/parity.py: what the comparison of two token sequences says.
use expertflow.Base.{
  ltb, ℕ, zero, suc, ◌+◌, ◌≤◌, ◌<◌, max, Bool-cases, true, false, Option, none, some, List, [], ◌∷◌,
  length, get_elem?, ◌==◌, eq_of_==, ne_of_==, ◌≡◌, ◌≢◌, inl, inr, refl, ap, sym, ◌∙◌, arith,
}
use mathlib.Core.Path.{subst}
use expertflow.Trace.Parity.{Mismatch, same_token, mismatch_from, first_mismatch}

-- The sequences agree at the indices from `first` to before `last`.
abbrev Agree : List ℕ → List ℕ → ℕ → ℕ → Type 0
Agree xs ys first last = (k : ℕ) → first ≤ k → k < last → get_elem? xs k ≡ get_elem? ys k

-- What `_first_mismatch` says of two sequences: that they are equal, or at which index, and with
-- which tokens, they first differ.
abbrev pub FirstDifference : List ℕ → List ℕ → Option Mismatch → Type 0
FirstDifference xs ys none = xs ≡ ys
FirstDifference xs ys (some m) =
    (m.baseline_token_id ≡ get_elem? xs m.index)
    × (m.instrumented_token_id ≡ get_elem? ys m.index)
    × (m.baseline_token_id ≢ m.instrumented_token_id)
    × ((k : ℕ) → k < m.index → get_elem? xs k ≡ get_elem? ys k)

abbrev FromIndex : List ℕ → List ℕ → ℕ → ℕ → Option Mismatch → Type 0
FromIndex xs ys first last none = Agree xs ys first last
FromIndex xs ys first last (some m) =
    (m.baseline_token_id ≡ get_elem? xs m.index)
    × (m.instrumented_token_id ≡ get_elem? ys m.index)
    × (m.baseline_token_id ≢ m.instrumented_token_id)
    × Agree xs ys first m.index

same_token-eq : (a b : Option ℕ) → same_token a b ≡ true → a ≡ b
unfolding same_token
same_token-eq none none h = refl
same_token-eq (some a) (some b) h = ap some (eq_of_== a b h)
same_token-eq none (some b) h = cc
same_token-eq (some a) none h = cc

same_token-ne : (a b : Option ℕ) → same_token a b ≡ false → a ≢ b
unfolding same_token
same_token-ne none none h = cc
same_token-ne (some a) (some b) h = λ e. ne_of_== a b h (some_injective e)
  where
    some_injective : some a ≡ some b → a ≡ b
    some_injective e = cc
same_token-ne none (some b) h = λ e. cc
same_token-ne (some a) none h = λ e. cc

extend :
    (xs ys : List ℕ) (index last : ℕ) (o : Option Mismatch)
    → get_elem? xs index ≡ get_elem? ys index
    → FromIndex xs ys (suc index) last o
    → FromIndex xs ys index last o
extend xs ys index last o e h = of_option o h
  where
    one_more : (to : ℕ) → Agree xs ys (suc index) to → Agree xs ys index to
    one_more to agree k low high = elim (Bool-cases (index == k)) [
      | inl same ↦ subst (λ j. get_elem? xs j ≡ get_elem? ys j) (eq_of_== index k same) e
      | inr apart ↦ agree k (omega (arith, ne_of_== index k apart)) high
    ]

    of_option :
        (o : Option Mismatch) → FromIndex xs ys (suc index) last o → FromIndex xs ys index last o
    of_option none agree = one_more last agree
    of_option (some m) (first, second, differ, agree) =
        (first, second, differ, one_more m.index agree)

mismatch_from_lem :
    (xs ys : List ℕ) (index rounds : ℕ)
    → FromIndex xs ys index (index + rounds) (mismatch_from xs ys index rounds)
unfolding mismatch_from
mismatch_from_lem xs ys index zero = λ k low high. absurd (omega arith)
mismatch_from_lem xs ys index (suc rounds) =
    let later =
      subst (λ n. FromIndex xs ys (suc index) n (mismatch_from xs ys (suc index) rounds))
        (moved index rounds) (mismatch_from_lem xs ys (suc index) rounds) in
    elim (Bool-cases (same_token (get_elem? xs index) (get_elem? ys index))) [
      | inl e ↦ rw e (
          extend xs ys index (index + suc rounds) (mismatch_from xs ys (suc index) rounds)
            (same_token-eq (get_elem? xs index) (get_elem? ys index) e) later)
      | inr e ↦ rw e (
        refl,
        refl,
        same_token-ne (get_elem? xs index) (get_elem? ys index) e,
        λ k low high. absurd (omega arith),
      )
    ]
  where
    moved : (a b : ℕ) → suc a + b ≡ a + suc b
    moved a b = omega arith

beyond : (xs : List ℕ) (k : ℕ) → length xs ≤ k → get_elem? xs k ≡ none
beyond [] k h = refl
beyond (x ∷ xs) zero h = absurd (omega arith)
beyond (x ∷ xs) (suc k) h = beyond xs k (omega arith)

list_ext : (xs ys : List ℕ) → ((k : ℕ) → get_elem? xs k ≡ get_elem? ys k) → xs ≡ ys
list_ext [] [] h = refl
list_ext [] (y ∷ ys) h = let e = h 0 in cc
list_ext (x ∷ xs) [] h = let e = h 0 in cc
list_ext (x ∷ xs) (y ∷ ys) h = let e = h 0 in let rest = list_ext xs ys (λ k. h (suc k)) in cc

pub first_mismatch_lem : (xs ys : List ℕ) → FirstDifference xs ys (first_mismatch xs ys)
unfolding first_mismatch
first_mismatch_lem xs ys =
    of_option (mismatch_from xs ys 0 (max (length xs) (length ys)))
      (mismatch_from_lem xs ys 0 (max (length xs) (length ys)))
  where
    of_option :
        (o : Option Mismatch)
        → FromIndex xs ys 0 (0 + max (length xs) (length ys)) o
        → FirstDifference xs ys o
    of_option none agree = list_ext xs ys (λ k.
        elim (Bool-cases (ltb k (max (length xs) (length ys)))) [
          | inl e ↦ agree k (omega arith) (ground arith)
          | inr e ↦ beyond xs k (ground arith) ∙ sym (beyond ys k (ground arith))
        ])
    of_option (some m) (first, second, differ, agree) =
        (first, second, differ, λ k h. agree k (omega arith) h)
