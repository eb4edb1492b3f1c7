-- ===== src/Execution/Lots.antt =====
-- src/execution/order_state.py, `_normalize_lots`: a size that the broker reports in lots or in
-- shares, as lots. Sizes are quantities, so they are naturals and `<= 0` is a test for 0.
pub mod Bounds
use stevehft.Prelude.{ℕ, ◌+◌, ◌-◌, ◌*◌, ◌/◌, ◌%◌, max, ◌&&◌, ltb, leb, ◌==◌, nat_eq, if◌then◌else◌}

-- LOT_SIZE_SHARES
abbrev pub lot_size_shares : ℕ
lot_size_shares = 100

unfoldable pub normalize_lots : ℕ → ℕ → ℕ
normalize_lots raw_size parent_size_lots =
    if leb raw_size 0
    then 0
    else if ltb 0 parent_size_lots
    then (if leb raw_size parent_size_lots
        then raw_size
        else if raw_size == parent_size_lots * lot_size_shares
        then parent_size_lots
        else if leb raw_size (parent_size_lots * lot_size_shares)
        then max 1 ((raw_size + lot_size_shares - 1) / lot_size_shares)
        else if raw_size % lot_size_shares == 0
        then raw_size / lot_size_shares
        else raw_size)
    else if leb lot_size_shares raw_size && raw_size % lot_size_shares == 0
    then raw_size / lot_size_shares
    else raw_size
