-- ===== src/Base/Ordered.antt =====
-- Python's `OrderedDict[int, None]`, the residency cache of the simulations: its keys from the
-- least to the most recently used one.
pub mod Recency
pub mod Slots
use expertflow.Base.Tests.{leb, ◌==◌, if◌then◌else◌}
use expertflow.Base.Lists.{length}
use expertflow.Base.Failures.{Result, ok, err, stop_iteration, out_of_fuel, ◌>>=◌}
use expertflow.Base.Distinct.{elem, remove}
use Prim.Native.Nat.{ℕ, zero, suc}
use mathlib.Core.Bool.{true, false}
use mathlib.Core.Option.{Option, none, some}
use mathlib.Core.List.{List, [], ◌∷◌, ◌++◌}

-- `cache.move_to_end(x)`, of a key that is there
unfoldable pub move_to_end : ℕ → List ℕ → List ℕ
move_to_end x cache = remove x cache ++ x ∷ []

-- `cache[x] = None`: a key that is there keeps its place
unfoldable pub store : ℕ → List ℕ → List ℕ
store x cache = if elem x cache then cache else cache ++ x ∷ []

-- `next(cached for cached in cache if cached not in required)`; `none` is `StopIteration`
unfoldable pub victim : List ℕ → List ℕ → Option ℕ
victim required [] = none
victim required (x ∷ cache) = if elem x required then victim required cache else some x

-- `while len(cache) >= capacity: victim = next(...); del cache[victim]`. Every round deletes a key,
-- so more fuel than keys is enough.
unfoldable pub make_room : ℕ → ℕ → List ℕ → List ℕ → Result (List ℕ)
make_room zero capacity required cache = err out_of_fuel
make_room (suc fuel) capacity required cache = elim (leb capacity (length cache)) [
  | false ↦ ok cache
  | true ↦ elim (victim required cache) [
    | none ↦ err stop_iteration
    | some x ↦ make_room fuel capacity required (remove x cache)
  ]
]
