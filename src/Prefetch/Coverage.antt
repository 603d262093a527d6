-- ===== src/Prefetch/Coverage.antt =====
-- src/expertflow/analysis/prefetch_sim.py: the steps take every event of every trace, once.
use expertflow.Base.{
  sym, ℕ, zero, suc, ◌+◌, ◌≤◌, Bool, Bool-cases, List, [], ◌∷◌, ◌++◌, map, length, All, All-append,
  sum_by, sum_by-append, ◌==◌, ◌≡◌, refl, arith, inl, inr, ◌∙◌,
}
use expertflow.Base.Dict
use expertflow.Base.Dict.{Dict}
use expertflow.Base.Sort.{insert_by, sort_by}
use expertflow.Trace.Event.{RouterTraceEvent}
use expertflow.CacheSim.{demand}
use expertflow.Prefetch.Inputs.{earlier, group_events, forward_groups, group_at, step_events}
use expertflow.Prefetch.{longest}

module _ {ℓ} {A : Type ℓ} (before : A → A → Bool) where
  sum_by-insert_by :
      (f : A → ℕ) (x : A) (ys : List A) → sum_by f (insert_by before x ys) ≡ f x + sum_by f ys
  unfolding insert_by sum_by
  sum_by-insert_by f x [] = refl
  sum_by-insert_by f x (y ∷ ys) = ground (arith, sum_by-insert_by f x ys)

  sum_by-sort_by : (f : A → ℕ) (xs : List A) → sum_by f (sort_by before xs) ≡ sum_by f xs
  unfolding sort_by sum_by
  sum_by-sort_by f [] = refl
  sum_by-sort_by f (x ∷ xs) =
      omega (arith, sum_by-insert_by f x (sort_by before xs), sum_by-sort_by f xs)

  All-insert_by {κ} :
      (P : A → Type κ) (x : A) (ys : List A) → P x → All P ys → All P (insert_by before x ys)
  unfolding insert_by
  All-insert_by P x [] p h = (p, tt)
  All-insert_by P x (y ∷ ys) p h = elim (Bool-cases (before x y)) [
    | inl e ↦ rw e (p, h)
    | inr e ↦ rw e (h.0, All-insert_by P x ys p h.1)
  ]

  All-sort_by {κ} : (P : A → Type κ) (xs : List A) → All P xs → All P (sort_by before xs)
  unfolding sort_by
  All-sort_by P [] h = tt
  All-sort_by P (x ∷ xs) h = All-insert_by P x (sort_by before xs) h.0 (All-sort_by P xs h.1)

abbrev Groups : Type 0
Groups = Dict (List RouterTraceEvent)

group_total : Groups → ℕ
group_total = sum_by (λ g. sum_by demand g.1)

group_total-insert :
    (e : RouterTraceEvent) (d : Groups)
    → group_total (Dict.insert e.forward_id (Dict.get_or [] e.forward_id d ++ e ∷ []) d)
      ≡ group_total d + demand e
unfolding group_total Dict.insert Dict.get_or sum_by
group_total-insert e [] = omega arith
group_total-insert e ((k, g) ∷ d) =
    ground (arith, group_total-insert e d, sum_by-append demand g (e ∷ []))

group_total-group_events :
    (trace : List RouterTraceEvent) (d : Groups)
    → group_total (group_events trace d) ≡ group_total d + sum_by demand trace
unfolding group_events sum_by
group_total-group_events [] d = omega arith
group_total-group_events (e ∷ trace) d = omega (
  arith,
  group_total-group_events trace
      (Dict.insert e.forward_id (Dict.get_or [] e.forward_id d ++ e ∷ []) d),
  group_total-insert e d,
)

sum_by-sorted :
    (d : Groups) → sum_by (sum_by demand) (map (λ g. sort_by earlier g.1) d) ≡ group_total d
unfolding group_total sum_by
sum_by-sorted [] = refl
sum_by-sorted ((k, g) ∷ d) = omega (arith, sum_by-sort_by earlier demand g, sum_by-sorted d)

-- The groups of a trace have its demand.
sum_by-forward_groups :
    (trace : List RouterTraceEvent)
    → sum_by (sum_by demand) (forward_groups trace) ≡ sum_by demand trace
unfolding forward_groups
sum_by-forward_groups trace =
    sum_by-sorted (group_events trace [])
    ∙ group_total-group_events trace []
    ∙ (unfold group_total sum_by in omega arith)

module _ (P : RouterTraceEvent → Type 0) where
  AllGroups-get_or : (k : ℕ) (d : Groups) → All (λ g. All P g.1) d → All P (Dict.get_or [] k d)
  unfolding Dict.get_or
  AllGroups-get_or k [] h = tt
  AllGroups-get_or k ((j, g) ∷ d) h = elim (Bool-cases (j == k)) [
    | inl same ↦ rw same h.0
    | inr other ↦ rw other (AllGroups-get_or k d h.1)
  ]

  AllGroups-insert :
      (k : ℕ) (group : List RouterTraceEvent) (d : Groups)
      → All P group
      → All (λ g. All P g.1) d
      → All (λ g. All P g.1) (Dict.insert k group d)
  unfolding Dict.insert
  AllGroups-insert k group [] p h = (p, tt)
  AllGroups-insert k group ((j, g) ∷ d) p h = elim (Bool-cases (j == k)) [
    | inl same ↦ rw same (p, h.1)
    | inr other ↦ rw other (h.0, AllGroups-insert k group d p h.1)
  ]

  AllGroups-group_events :
      (trace : List RouterTraceEvent) (d : Groups)
      → All P trace
      → All (λ g. All P g.1) d
      → All (λ g. All P g.1) (group_events trace d)
  unfolding group_events
  AllGroups-group_events [] d t h = h
  AllGroups-group_events (e ∷ trace) d t h =
      AllGroups-group_events trace
        (Dict.insert e.forward_id (Dict.get_or [] e.forward_id d ++ e ∷ []) d) t.1
        (AllGroups-insert e.forward_id (Dict.get_or [] e.forward_id d ++ e ∷ []) d
          (All-append P (Dict.get_or [] e.forward_id d) (e ∷ []) (AllGroups-get_or e.forward_id d h)
            (t.0, tt))
          h)

  AllGroups-sorted :
      (d : Groups) → All (λ g. All P g.1) d → All (All P) (map (λ g. sort_by earlier g.1) d)
  AllGroups-sorted [] h = tt
  AllGroups-sorted (g ∷ d) h = (All-sort_by earlier P g.1 h.0, AllGroups-sorted d h.1)

  All-forward_groups :
      (trace : List RouterTraceEvent) → All P trace → All (All P) (forward_groups trace)
  unfolding forward_groups
  All-forward_groups trace t =
      AllGroups-sorted (group_events trace []) (AllGroups-group_events trace [] t tt)

  All-group_at :
      (i : ℕ) (groups : List (List RouterTraceEvent))
      → All (All P) groups
      → All P (group_at i groups)
  unfolding group_at
  All-group_at i [] h = tt
  All-group_at zero (g ∷ groups) h = h.0
  All-group_at (suc i) (g ∷ groups) h = All-group_at i groups h.1

  -- The events of a step are those of the traces.
  pub All-step_events :
      (i : ℕ) (traces : List (List RouterTraceEvent))
      → All (All P) traces
      → All P (step_events i (map forward_groups traces))
  unfolding step_events
  All-step_events i [] h = tt
  All-step_events i (trace ∷ traces) h =
      All-append P (group_at i (forward_groups trace)) (step_events i (map forward_groups traces))
        (All-group_at i (forward_groups trace) (All-forward_groups trace h.0))
        (All-step_events i traces h.1)

-- The demand of the groups from the `i`th on, and of the steps from the `i`th, `n` of them.
from_group : ℕ → List (List RouterTraceEvent) → ℕ
from_group i [] = 0
from_group zero (g ∷ groups) = sum_by demand g + from_group zero groups
from_group (suc i) (g ∷ groups) = from_group i groups

unfoldable pub from_step : ℕ → ℕ → List (List (List RouterTraceEvent)) → ℕ
from_step i zero grouped = 0
from_step i (suc n) grouped = sum_by demand (step_events i grouped) + from_step (suc i) n grouped

from_group-suc :
    (i : ℕ) (groups : List (List RouterTraceEvent))
    → from_group i groups ≡ sum_by demand (group_at i groups) + from_group (suc i) groups
unfolding from_group group_at sum_by
from_group-suc i [] = omega arith
from_group-suc zero (g ∷ groups) = refl
from_group-suc (suc i) (g ∷ groups) = from_group-suc i groups

from_group_end :
    (i : ℕ) (groups : List (List RouterTraceEvent)) → length groups ≤ i → from_group i groups ≡ 0
unfolding from_group
from_group_end i [] h = refl
from_group_end zero (g ∷ groups) h = absurd (omega arith)
from_group_end (suc i) (g ∷ groups) h = from_group_end i groups (omega arith)

from_group-zero :
    (groups : List (List RouterTraceEvent)) → from_group zero groups ≡ sum_by (sum_by demand) groups
unfolding from_group sum_by
from_group-zero [] = refl
from_group-zero (g ∷ groups) = omega (arith, from_group-zero groups)

from_groups : ℕ → List (List (List RouterTraceEvent)) → ℕ
from_groups i = sum_by (from_group i)

from_groups-suc :
    (i : ℕ) (grouped : List (List (List RouterTraceEvent)))
    → from_groups i grouped ≡ sum_by demand (step_events i grouped) + from_groups (suc i) grouped
unfolding from_groups sum_by step_events
from_groups-suc i [] = refl
from_groups-suc i (groups ∷ grouped) = omega (
  arith,
  from_group-suc i groups,
  from_groups-suc i grouped,
  sum_by-append demand (group_at i groups) (step_events i grouped),
)

from_groups_end :
    (i : ℕ) (grouped : List (List (List RouterTraceEvent)))
    → longest grouped ≤ i
    → from_groups i grouped ≡ 0
unfolding from_groups sum_by longest
from_groups_end i [] h = refl
from_groups_end i (groups ∷ grouped) h =
    omega (arith, from_group_end i groups (omega arith), from_groups_end i grouped (omega arith))

from_step-from_groups :
    (i n : ℕ) (grouped : List (List (List RouterTraceEvent)))
    → longest grouped ≤ i + n
    → from_step i n grouped ≡ from_groups i grouped
unfolding from_step
from_step-from_groups i zero grouped h = sym (from_groups_end i grouped (omega (arith, h)))
from_step-from_groups i (suc n) grouped h =
    omega
      (arith, from_groups-suc i grouped, from_step-from_groups (suc i) n grouped (omega (arith, h)))

from_groups-forward :
    (traces : List (List RouterTraceEvent))
    → from_groups 0 (map forward_groups traces) ≡ sum_by (sum_by demand) traces
unfolding from_groups sum_by
from_groups-forward [] = refl
from_groups-forward (trace ∷ traces) = omega (
  arith,
  from_group-zero (forward_groups trace),
  sum_by-forward_groups trace,
  from_groups-forward traces,
)

-- All steps together have the demand of all traces.
pub from_step-traces :
    (traces : List (List RouterTraceEvent))
    → from_step 0 (longest (map forward_groups traces)) (map forward_groups traces)
      ≡ sum_by (sum_by demand) traces
from_step-traces traces =
    from_step-from_groups 0 (longest (map forward_groups traces)) (map forward_groups traces)
      (omega arith)
    ∙ from_groups-forward traces
