-- ===== src/Base/Ordered/Slots.antt =====
-- Caches within a capacity, in a dictionary of the caches of the layers.
use Prim.Native.Nat.{ℕ, ◌≤◌, ◌<◌}
use mathlib.Core.Path.{◌≡◌}
use mathlib.Core.Logic.{inl, inr}
use mathlib.Core.Bool.{false}
use mathlib.Core.List.{List, [], ◌∷◌}
use native.Mathlib.Omega.{arith}
use expertflow.Base.Tests.{◌==◌, Bool-cases}
use expertflow.Base.Lists.{length, length-append}
use expertflow.Base.Dict
use expertflow.Base.Dict.{Dict, get_or-insert}
use expertflow.Base.Distinct.{elem, Distinct, Distinct-snoc}
use expertflow.Base.Ordered.{store}

-- A cache without repetition and within the capacity.
abbrev pub IsSlot : ℕ → List ℕ → Type 0
IsSlot capacity cache = Distinct cache × (length cache ≤ capacity)

pub IsSlot-insert :
    (capacity layer : ℕ) (cache : List ℕ) (d : Dict (List ℕ))
    → IsSlot capacity cache
    → ((k : ℕ) → IsSlot capacity (Dict.get_or [] k d))
    → (k : ℕ) → IsSlot capacity (Dict.get_or [] k (Dict.insert layer cache d))
IsSlot-insert capacity layer cache d s all k = elim (Bool-cases (layer == k)) [
  | inl e ↦ rw (get_or-insert {V = List ℕ} [] layer k cache d, e) s
  | inr e ↦ rw (get_or-insert {V = List ℕ} [] layer k cache d, e) (all k)
]

pub IsSlot-store :
    (capacity x : ℕ) (cache : List ℕ)
    → Distinct cache
    → elem x cache ≡ false
    → length cache < capacity
    → IsSlot capacity (store x cache)
unfolding store
IsSlot-store capacity x cache d miss free =
    rw miss (Distinct-snoc cache x d miss, omega (arith, length-append cache (x ∷ [])))
