-- ===== src/Prefetch/Issue.antt =====
-- src/expertflow/analysis/prefetch_sim.py: the loop that issues the transfers of a step.
use expertflow.Base.{
  ℕ, zero, suc, Bool, ◌||◌, ◌&&◌, Option, none, some, List, [], ◌∷◌, length, any, ltb, ◌==◌,
  if◌then◌else◌,
}
use expertflow.Base.Dict
use expertflow.Base.Dict.{Dict}
use expertflow.Base.Distinct.{elem, remove}
use expertflow.Base.Ordered.{store}
use expertflow.Trace.Event.{RouterTraceEvent}
use expertflow.Prefetch.Inputs.{Score, Pairs, pair_elem, pair_store}

-- `expert in protected`: it was issued in this step, or an event of the step needs it
unfoldable pub is_protected : List RouterTraceEvent → Pairs → ℕ → ℕ → Bool
is_protected events issued layer x =
    pair_elem layer x issued
    || any (λ e. e.layer_id == layer && elem x e.selected_expert_ids) events

-- `next((cached for cached in cache if cached not in protected), None)`
unfoldable pub open_victim : List RouterTraceEvent → Pairs → ℕ → List ℕ → Option ℕ
open_victim events issued layer [] = none
open_victim events issued layer (x ∷ cache) =
    if is_protected events issued layer x then open_victim events issued layer cache else some x

-- `if victim is None: continue`, and the exchange
unfoldable pub exchange : Option ℕ → ℕ → List ℕ → Option (List ℕ)
exchange none x cache = none
exchange (some victim) x cache = some (store x (remove victim cache))

-- the cache with the expert, or `none` where no slot can be freed
unfoldable pub admit : ℕ → List RouterTraceEvent → Pairs → ℕ → ℕ → List ℕ → Option (List ℕ)
admit capacity events issued layer x cache =
    if ltb (length cache) capacity
    then some (store x cache)
    else exchange (open_victim events issued layer cache) x cache

-- one round: `none` is a `continue`, which leaves the budget
unfoldable pub issue_one :
    ℕ → List RouterTraceEvent → Score → Dict (List ℕ) → Pairs → Option (List ℕ)
issue_one capacity events (n, layer, x) caches issued =
    let cache = Dict.get_or [] layer caches in
    if elem x cache then none else admit capacity events issued layer x cache

-- the loop over `scored`: the caches and the issued pairs
unfoldable pub issue :
    ℕ → List RouterTraceEvent → ℕ → List Score → Dict (List ℕ) → Pairs → Dict (List ℕ) × Pairs
issue capacity events budget [] caches issued = (caches, issued)
issue capacity events zero (s ∷ scored) caches issued = (caches, issued)
issue capacity events (suc budget) (s ∷ scored) caches issued =
    elim (issue_one capacity events s caches issued) [
      | none ↦ issue capacity events (suc budget) scored caches issued
      | some cache ↦
          issue capacity events budget scored (Dict.insert s.1 cache caches)
            (pair_store s.1 s.2 issued)
    ]
