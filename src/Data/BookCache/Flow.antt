-- ===== src/Data/BookCache/Flow.antt =====
-- src/data/book_cache.py: the order flow between two books, and the volume order imbalances.
use stevehft.Prelude.{ℕ, ◌+◌, Bool, ◌&&◌, ◌||◌, List, [], ◌∷◌, take, max, if◌then◌else◌}
use stevehft.Prelude.Int.{ℤ, pos, pos_part, sub_ℕ, ◌+ℤ◌, ◌-ℤ◌}
use stevehft.Prelude.Float.{
  Float, nought, is_pos, not_pos, add, sub, div, lt, le, abs_f, of_ℕ, of_ℤ, decimal, neg, max_f,
  min_f,
}
use stevehft.Execution.Intents.{OrderSide, bid, ask}
use stevehft.Data.State.{BookLevel, BestPriceSnapshot, SymbolState, depth_of}

-- `max(size, 0) - max(previous_size, 0)` and `-max(size, 0)`
abbrev pub size_change : ℤ → ℤ → ℤ
size_change current_size previous_size = sub_ℕ (pos_part current_size) (pos_part previous_size)

abbrev pub size_lost : ℤ → ℤ
size_lost previous_size = sub_ℕ 0 (pos_part previous_size)

-- `max(max_depth, 1)`
abbrev pub at_least_one : ℤ → ℕ
at_least_one max_depth = max (pos_part max_depth) 1

module _ {W : Type 0} ⦃f : Float W⦄ where
  -- What has happened to the best price: it is better, it is the same, or neither.
  abbrev pub is_better : OrderSide → W → W → Bool
  is_better bid previous_px current_px = lt (add previous_px (decimal 1 12)) current_px
  is_better ask previous_px current_px =
      lt current_px (sub previous_px (decimal 1 12)) || not_pos previous_px && is_pos current_px

  abbrev pub is_same : W → W → Bool
  is_same previous_px current_px = le (abs_f (sub current_px previous_px)) (decimal 1 12)

  unfoldable pub l1_side_flow : OrderSide → W → ℤ → W → ℤ → ℤ
  l1_side_flow side previous_px previous_size current_px current_size =
      if not_pos previous_px && not_pos current_px
      then pos 0
      else if is_better side previous_px current_px
      then pos (pos_part current_size)
      else if is_same previous_px current_px
      then size_change current_size previous_size
      else size_lost previous_size

  -- The price and the size of a level, nought where there is none.
  abbrev pub level_price : List (BookLevel W) → W
  level_price [] = nought
  level_price (l ∷ ls) = l.price

  abbrev pub level_size : List (BookLevel W) → ℤ
  level_size [] = pos 0
  level_size (l ∷ ls) = l.size

  abbrev pub level_flow : OrderSide → List (BookLevel W) → List (BookLevel W) → ℤ
  level_flow side previous current =
      l1_side_flow side (level_price previous) (level_size previous) (level_price current)
        (level_size current)

  -- The loop over the deeper levels, of which the shorter book has none.
  unfoldable pub deeper_flow : OrderSide → List (BookLevel W) → List (BookLevel W) → ℤ
  unfolding l1_side_flow
  deeper_flow side [] [] = pos 0
  deeper_flow side [] (c ∷ current) =
      level_flow side [] (c ∷ current) +ℤ deeper_flow side [] current
  deeper_flow side (p ∷ previous) [] =
      level_flow side (p ∷ previous) [] +ℤ deeper_flow side previous []
  deeper_flow side (p ∷ previous) (c ∷ current) =
      level_flow side (p ∷ previous) (c ∷ current) +ℤ deeper_flow side previous current

  abbrev pub tail : List (BookLevel W) → List (BookLevel W)
  tail [] = []
  tail (l ∷ ls) = ls

  unfoldable pub multi_level_side_flow : OrderSide → List (BookLevel W) → List (BookLevel W) → ℤ
  unfolding l1_side_flow deeper_flow
  multi_level_side_flow side previous current =
      level_flow side previous current +ℤ deeper_flow side (tail previous) (tail current)

  -- `max(-1.0, min(flow / scale, 1.0))`
  abbrev pub voi_of : ℤ → W → W
  voi_of flow scale = max_f (neg (decimal 1 0)) (min_f (div (of_ℤ flow) scale) (decimal 1 0))

  unfoldable pub global_l1_flow : BestPriceSnapshot W → BestPriceSnapshot W → ℤ
  unfolding l1_side_flow
  global_l1_flow p c =
      l1_side_flow bid p.global_bid_px p.global_bid_sz c.global_bid_px c.global_bid_sz
      -ℤ l1_side_flow ask p.global_ask_px p.global_ask_sz c.global_ask_px c.global_ask_sz

  -- `max(the sum of the four sizes, 1)`
  unfoldable pub global_l1_scale : BestPriceSnapshot W → BestPriceSnapshot W → ℕ
  global_l1_scale p c =
      max (pos_part (c.global_bid_sz +ℤ c.global_ask_sz +ℤ p.global_bid_sz +ℤ p.global_ask_sz)) 1

  unfoldable pub compute_global_l1_voi : BestPriceSnapshot W → BestPriceSnapshot W → W
  unfolding global_l1_flow global_l1_scale
  compute_global_l1_voi p c = voi_of (global_l1_flow p c) (of_ℕ (global_l1_scale p c))

  unfoldable pub multi_level_flow : ℕ → SymbolState W → SymbolState W → ℤ
  unfolding multi_level_side_flow
  multi_level_flow depth p c =
      multi_level_side_flow bid (take depth p.local_bids) (take depth c.local_bids)
      -ℤ multi_level_side_flow ask (take depth p.local_asks) (take depth c.local_asks)

  unfoldable pub multi_level_scale : ℕ → SymbolState W → SymbolState W → ℕ
  multi_level_scale depth p c =
      max
        (depth_of (take depth p.local_bids)
          + depth_of (take depth p.local_asks)
          + depth_of (take depth c.local_bids)
          + depth_of (take depth c.local_asks))
        1

  -- From the local books before and after.
  unfoldable pub compute_local_multi_level_voi : ℤ → SymbolState W → SymbolState W → W
  unfolding multi_level_flow multi_level_scale
  compute_local_multi_level_voi max_depth p c =
      voi_of (multi_level_flow (at_least_one max_depth) p c)
        (of_ℕ (multi_level_scale (at_least_one max_depth) p c))
