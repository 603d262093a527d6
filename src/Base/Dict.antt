-- ===== src/Base/Dict.antt =====
-- Python's `dict` with number keys: the entries in insertion order.
use expertflow.Base.Tests.{◌==◌, if◌then◌else◌, Bool-cases}
use mathlib.Core.Logic.{inl, inr}
use Prim.Native.Nat.{ℕ}
use mathlib.Core.Path.{◌≡◌, refl, ap}
use mathlib.Core.Option.{Option, none, some}
use mathlib.Core.List.{List, [], ◌∷◌, map}
use mathlib.Core.Bool.{true, false}
use expertflow.Base.Distinct.{elem, Distinct}
use native.Mathlib.Omega.{arith}

abbrev pub Dict {ℓ} : Type ℓ → Type ℓ
Dict V = List (ℕ × V)

module _ {ℓ} {V : Type ℓ} where
  -- `d.get(k)`
  unfoldable pub lookup : ℕ → Dict V → Option V
  lookup k [] = none
  lookup k ((j, v) ∷ d) = if j == k then some v else lookup k d

  -- `d.get(k, default)`, and `d[k]` of a `defaultdict`
  unfoldable pub get_or : V → ℕ → Dict V → V
  get_or v k [] = v
  get_or v k ((j, w) ∷ d) = if j == k then w else get_or v k d

  -- `d[k] = v`: a key that is there keeps its place
  unfoldable pub insert : ℕ → V → Dict V → Dict V
  insert k v [] = (k, v) ∷ []
  insert k v ((j, w) ∷ d) = if j == k then (k, v) ∷ d else (j, w) ∷ insert k v d

  -- The keys in insertion order.
  abbrev pub keys : Dict V → List ℕ
  keys = map (λ e. e.0)

  pub lookup-insert :
      (k j : ℕ) (v : V) (d : Dict V)
      → lookup j (insert k v d) ≡ (if k == j then some v else lookup j d)
  unfolding lookup insert
  lookup-insert k j v [] = refl
  lookup-insert k j v ((i, w) ∷ d) = ground (arith, lookup-insert k j v d)

  pub get_or-insert :
      (z : V) (k j : ℕ) (v : V) (d : Dict V)
      → get_or z j (insert k v d) ≡ (if k == j then v else get_or z j d)
  unfolding get_or insert
  get_or-insert z k j v [] = refl
  get_or-insert z k j v ((i, w) ∷ d) = ground (arith, get_or-insert z k j v d)

  pub elem-keys-insert :
      (k j : ℕ) (v : V) (d : Dict V)
      → elem j (keys (insert k v d)) ≡ (if k == j then true else elem j (keys d))
  unfolding elem insert
  elem-keys-insert k j v [] = refl
  elem-keys-insert k j v ((i, w) ∷ d) = ground (arith, elem-keys-insert k j v d)

  pub Distinct-keys-insert :
      (k : ℕ) (v : V) (d : Dict V) → Distinct (keys d) → Distinct (keys (insert k v d))
  unfolding insert elem
  Distinct-keys-insert k v [] h = (refl, tt)
  Distinct-keys-insert k v ((i, w) ∷ d) h =
      ground (arith, elem-keys-insert k i v d, Distinct-keys-insert k v d h.1)

  pub get_or_absent : (z : V) (k : ℕ) (d : Dict V) → elem k (keys d) ≡ false → get_or z k d ≡ z
  unfolding elem get_or
  get_or_absent z k [] h = refl
  get_or_absent z k ((j, v) ∷ d) h = ground (arith, get_or_absent z k d)

  pub lookup_present :
      (z : V) (k : ℕ) (d : Dict V) → elem k (keys d) ≡ true → lookup k d ≡ some (get_or z k d)
  unfolding elem get_or lookup
  lookup_present z k [] h = cc
  lookup_present z k ((j, v) ∷ d) h = ground (arith, lookup_present z k d)

module _ {ℓ κ} {V : Type ℓ} {W : Type κ} where
  -- `{k: f(v) for k, v in d.items()}`
  abbrev pub map_values : (V → W) → Dict V → Dict W
  map_values f d = map (λ e. (e.0, f e.1)) d

  pub keys-map_values : (f : V → W) (d : Dict V) → keys (map_values f d) ≡ keys d
  keys-map_values f [] = refl
  keys-map_values f ((k, v) ∷ d) = ap (◌∷◌ k) (keys-map_values f d)

  pub get_or-map_values :
      (f : V → W) (z : V) (k : ℕ) (d : Dict V) → get_or (f z) k (map_values f d) ≡ f (get_or z k d)
  unfolding get_or
  get_or-map_values f z k [] = refl
  get_or-map_values f z k ((j, v) ∷ d) = elim (Bool-cases (j == k)) [
    | inl e ↦ rw e
    | inr e ↦ rw e (get_or-map_values f z k d)
  ]
