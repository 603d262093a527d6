-- ===== src/Layout/Align.antt =====
-- src/expertflow/analysis/expert_layout.py: what `_align` computes.
use expertflow.Base.{ℕ, ◌+◌, ◌-◌, ◌%◌, ◌≤◌, ◌<◌, ◌≡◌, arith}
use expertflow.Layout.{align}
use native.Mathlib.Nat.{mod-lt, mul-mod_left, mod-add-div'}

-- The least multiple of a positive alignment from `value` on: a multiple, and less than one
-- alignment away.
pub align-IsLeast :
    (value alignment : ℕ)
    → 0 < alignment
    → (value ≤ align value alignment)
      × (align value alignment < value + alignment)
      × (align value alignment % alignment ≡ 0)
unfolding align
align-IsLeast value alignment p =
    let whole = mod-add-div' (value + alignment - 1) alignment in
    let rest = mod-lt (value + alignment - 1) p in
    (omega (arith, whole, rest), omega (arith, whole, rest), mul-mod_left _ alignment)
