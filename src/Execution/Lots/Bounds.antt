-- ===== src/Execution/Lots/Bounds.antt =====
-- What `_normalize_lots` returns for a report of a known parent order.
use stevehft.Prelude.{ℕ, ◌*◌, ◌≤◌, ◌<◌, ◌≡◌, arith}
use stevehft.Execution.Lots.{normalize_lots}

-- A report of no more than the parent order's shares comes to at most its lots, and to at least one
-- lot unless nothing is reported.
pub normalize_lots_bounds :
    (raw parent : ℕ)
    → 0 < parent
    → raw ≤ parent * 100
    → (normalize_lots raw parent ≤ parent) × (0 < raw → 0 < normalize_lots raw parent)
unfolding normalize_lots
normalize_lots_bounds raw parent p h = (ground arith, λ q. ground arith)

-- Whole lots are read back from a report in lots and, once it is too large to be one in lots, from a
-- report in shares.
pub normalize_lots_roundtrip :
    (lots parent : ℕ)
    → lots ≤ parent
    → (normalize_lots lots parent ≡ lots)
      × (parent < lots * 100 → normalize_lots (lots * 100) parent ≡ lots)
unfolding normalize_lots
normalize_lots_roundtrip lots parent h = (ground arith, λ big. ground arith)
