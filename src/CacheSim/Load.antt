-- ===== src/CacheSim/Load.antt =====
-- src/expertflow/analysis/cache_sim.py: the loop of the `lru` policy that makes the blocking experts
-- resident, in closed form.
use expertflow.Base.{
  ℕ, suc, ◌+◌, ◌≤◌, true, false, List, [], ◌∷◌, ◌++◌, length, All, leb, ok, ◌≡◌, refl, ap, sym, ◌∙◌,
  inl, inr, arith, length-append, Bool-cases,
}
use expertflow.Base.Distinct.{elem, Distinct, elem-append}
use expertflow.Base.Ordered.{store, make_room}
use expertflow.Base.Ordered.Recency.{
  keep_last, keep_last_all, keep_last-cons, make_room_free, make_room_full,
}
use expertflow.CacheSim.{load}
use mathlib.Core.List.{append_assoc, append-nil}
use mathlib.Core.Path.{subst}

-- Every element is in `ys`, and no element is.
abbrev pub Within : List ℕ → List ℕ → Type 0
Within ys = All (λ x. elem x ys ≡ true)

abbrev pub Outside : List ℕ → List ℕ → Type 0
Outside ys = All (λ x. elem x ys ≡ false)

pub elem-middle : (x : ℕ) (xs ys : List ℕ) → Distinct (xs ++ x ∷ ys) → elem x xs ≡ false
unfolding elem
elem-middle x [] ys d = refl
elem-middle x (y ∷ xs) ys d = ground (arith, elem-append y xs (x ∷ ys), elem-middle x xs ys d.1)

Within-snoc : (ys xs : List ℕ) (x : ℕ) → Within ys xs → elem x ys ≡ true → Within ys (xs ++ x ∷ [])
Within-snoc ys [] x h e = (e, tt)
Within-snoc ys (z ∷ xs) x h e = (h.0, Within-snoc ys xs x h.1 e)

store-fresh :
    (x : ℕ) (old new xs : List ℕ)
    → Distinct (old ++ (new ++ x ∷ xs))
    → store x (old ++ new) ≡ old ++ (new ++ x ∷ [])
unfolding store
store-fresh x old new xs d =
    let fresh =
      elem-middle x (old ++ new) xs (subst Distinct (sym (append_assoc old new (x ∷ xs))) d) in
    rw fresh (append_assoc old new (x ∷ []))

Distinct-shift :
    (x : ℕ) (old new xs : List ℕ)
    → Distinct (old ++ (new ++ x ∷ xs))
    → Distinct (old ++ ((new ++ x ∷ []) ++ xs))
Distinct-shift x old new xs d = rw (append_assoc new (x ∷ []) xs) d

head-fresh :
    (o : ℕ) (old new xs : List ℕ)
    → Distinct (o ∷ (old ++ (new ++ xs)))
    → elem o (old ++ new) ≡ false
head-fresh o old new xs d =
    ground (arith, elem-append o old (new ++ xs), elem-append o old new, elem-append o new xs, d.0)

module _ (capacity : ℕ) (required : List ℕ) where
  -- One round, once there is room: the rest of the loop goes on from a cache that ends in `x`.
  load_round :
      (x : ℕ) (xs cache old new : List ℕ)
      → Distinct (old ++ (new ++ x ∷ xs))
      → make_room (suc (length cache)) capacity required cache ≡ ok (old ++ new)
      → load capacity required (old ++ (new ++ x ∷ [])) xs
        ≡ ok (keep_last capacity (old ++ ((new ++ x ∷ []) ++ xs)))
      → load capacity required cache (x ∷ xs) ≡ ok (keep_last capacity (old ++ (new ++ x ∷ xs)))
  unfolding load
  load_round x xs cache old new d room rest =
      rw (room, store-fresh x old new xs d, rest, append_assoc new (x ∷ []) xs)

  -- The loop over the blocking experts, from a cache whose older keys `old` are not required: it
  -- keeps the last `capacity` of the keys and the experts together.
  pub load-keep_last :
      (xs old new : List ℕ)
      → Outside required old
      → Distinct (old ++ (new ++ xs))
      → length old + length new ≤ capacity
      → length new + length xs ≤ capacity
      → load capacity required (old ++ new) xs ≡ ok (keep_last capacity (old ++ (new ++ xs)))
  load-keep_last [] old new spare d fits few =
      unfold load in
      rw
        (append-nil new, keep_last_all capacity (old ++ new) (omega (arith, length-append old new)))
  load-keep_last (x ∷ xs) [] new spare d fits few =
      load_round x xs new [] new d (make_room_free (length new) capacity required new (omega arith))
        (load-keep_last xs [] (new ++ x ∷ []) tt (Distinct-shift x [] new xs d)
          (omega (arith, length-append new (x ∷ []))) (omega (arith, length-append new (x ∷ []))))
  load-keep_last (x ∷ xs) (o ∷ old) new spare d fits few =
      elim (Bool-cases (leb capacity (length ((o ∷ old) ++ new)))) [
        | inl full ↦
            load_round x xs ((o ∷ old) ++ new) old new d.1
              (make_room_full (length (old ++ new)) capacity required o (old ++ new)
                (ground (arith, length-append old new)) spare.0 (head-fresh o old new (x ∷ xs) d))
              (load-keep_last xs old (new ++ x ∷ []) spare.1 (Distinct-shift x old new xs d.1)
                (ground (arith, length-append old new, length-append new (x ∷ [])))
                (omega (arith, length-append new (x ∷ []))))
            ∙ ap ok (
                sym (
                  keep_last-cons capacity o (old ++ (new ++ x ∷ xs)) (
                    ground (
                      arith,
                      length-append old new,
                      length-append old (new ++ x ∷ xs),
                      length-append new (x ∷ xs),
                    ))))
        | inr free ↦
            load_round x xs ((o ∷ old) ++ new) (o ∷ old) new d
              (make_room_free (length ((o ∷ old) ++ new)) capacity required ((o ∷ old) ++ new)
                (ground arith))
              (load-keep_last xs (o ∷ old) (new ++ x ∷ []) spare
                (Distinct-shift x (o ∷ old) new xs d)
                (ground (arith, length-append old new, length-append new (x ∷ [])))
                (omega (arith, length-append new (x ∷ []))))
      ]
