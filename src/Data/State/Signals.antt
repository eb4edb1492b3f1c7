-- ===== src/Data/State/Signals.antt =====
-- src/data/state.py: prices, imbalances and the entropy that a symbol's book gives.
use stevehft.Prelude.{
  ◌+◌, Bool, true, false, not, ◌&&◌, ◌||◌, List, [], ◌∷◌, take, length, ltb, leb, if◌then◌else◌,
  select, map,
}
use stevehft.Prelude.Int.{ℤ, pos, pos_part, ◌+ℤ◌}
use stevehft.Prelude.Float.{
  Float, sum_from, nought, is_pos, not_pos, add, sub, mul, div, lt, of_ℕ, of_ℤ, decimal, neg, log,
  max_f,
}
use stevehft.Execution.Intents.{OrderSide, bid, ask}
use stevehft.Data.State.{
  BookLevel, SymbolState, is_pos_ℤ, middle, imbalance, snapshot_mid_price, snapshot_spread,
  snapshot_book_imbalance, book_side, depth_of, fallback_microprice, fallback_book_px,
}
use stevehft.Data.State.Depth.{depth_imbalance}

module _ {W : Type 0} ⦃f : Float W⦄ where
  -- `sum(max(level.size, 0) * level.price for level in levels)`, behind a first sum.
  abbrev notional_from : W → List (BookLevel W) → W
  notional_from acc [] = acc
  notional_from acc (l ∷ ls) = notional_from (add acc (mul (of_ℕ (pos_part l.size)) l.price)) ls

  abbrev side_vwap : OrderSide → Bool → SymbolState W → List (BookLevel W) → W
  side_vwap side is_local s levels =
      if ltb 0 (depth_of levels)
      then div (notional_from (of_ℕ 0) levels) (of_ℕ (depth_of levels))
      else fallback_book_px side is_local s

  unfoldable pub weighted_microprice : ℤ → Bool → SymbolState W → W
  unfolding book_side fallback_microprice fallback_book_px
  weighted_microprice levels is_local s =
      let bids = take (pos_part levels) (book_side bid is_local s) in
      let asks = take (pos_part levels) (book_side ask is_local s) in
      if ltb 0 (depth_of bids + depth_of asks)
      then div
          (add (mul (side_vwap ask is_local s asks) (of_ℕ (depth_of bids)))
            (mul (side_vwap bid is_local s bids) (of_ℕ (depth_of asks))))
          (of_ℕ (depth_of bids + depth_of asks))
      else fallback_microprice is_local s

  unfoldable pub mid_price : SymbolState W → W
  unfolding snapshot_mid_price
  mid_price s = snapshot_mid_price s.best_price

  unfoldable pub spread : SymbolState W → W
  unfolding snapshot_spread
  spread s = snapshot_spread s.best_price

  unfoldable pub local_microprice : SymbolState W → W
  unfolding weighted_microprice
  local_microprice s = weighted_microprice (pos 3) true s

  unfoldable pub global_microprice : SymbolState W → W
  unfolding weighted_microprice
  global_microprice s = weighted_microprice (pos 3) false s

  unfoldable pub global_l1_imbalance : SymbolState W → W
  unfolding snapshot_book_imbalance
  global_l1_imbalance s =
      if is_pos_ℤ (s.best_price.global_bid_sz +ℤ s.best_price.global_ask_sz)
      then imbalance s.best_price.global_bid_sz s.best_price.global_ask_sz
      else snapshot_book_imbalance s.best_price

  unfoldable pub global_l1_mid : SymbolState W → W
  unfolding mid_price
  global_l1_mid s =
      if is_pos s.best_price.global_bid_px && is_pos s.best_price.global_ask_px
      then middle s.best_price.global_bid_px s.best_price.global_ask_px
      else mid_price s

  unfoldable pub combined_book_imbalance : ℤ → SymbolState W → W
  unfolding global_l1_imbalance depth_imbalance
  combined_book_imbalance levels s =
      add (mul (decimal 6 1) (global_l1_imbalance s))
        (mul (decimal 4 1) (depth_imbalance levels true s))

  -- The sign that a price gives a trade: `rest` where it is within 1e-12 of the midpoint.
  abbrev signed_by : W → W → ℤ → W → W
  signed_by price midpoint volume rest =
      if lt (add midpoint (decimal 1 12)) price
      then of_ℤ volume
      else if lt price (sub midpoint (decimal 1 12))
      then neg (of_ℤ volume)
      else rest

  unfoldable pub trade_signed_volume : SymbolState W → W
  unfolding mid_price local_microprice
  trade_signed_volume s =
      if not (is_pos_ℤ s.last_trade_size) || not_pos s.last_trade_price || not_pos (mid_price s)
      then nought
      else signed_by s.last_trade_price (mid_price s) s.last_trade_size
          (signed_by (local_microprice s) (mid_price s) s.last_trade_size nought)

  abbrev entropy_from : W → W → List W → W
  entropy_from total entropy [] = entropy
  entropy_from total entropy (x ∷ xs) =
      entropy_from total (sub entropy (mul (div x total) (log (div x total)))) xs

  abbrev depth_values : List (BookLevel W) → List W
  depth_values levels =
      map (λ (l : BookLevel W). of_ℕ (pos_part l.size))
        (select (λ (l : BookLevel W). is_pos_ℤ l.size) levels)

  abbrev entropy_of : List W → W
  entropy_of values =
      if leb (length values) 1 || not_pos (sum_from (of_ℕ 0) values)
      then nought
      else div (entropy_from (sum_from (of_ℕ 0) values) nought values)
          (max_f (log (of_ℕ (length values))) (decimal 1 12))

  unfoldable pub side_depth_entropy : OrderSide → ℤ → Bool → SymbolState W → W
  unfolding book_side
  side_depth_entropy side levels is_local s =
      entropy_of (depth_values (take (pos_part levels) (book_side side is_local s)))

  unfoldable pub depth_entropy : ℤ → Bool → SymbolState W → W
  unfolding side_depth_entropy
  depth_entropy levels is_local s =
      middle (side_depth_entropy bid levels is_local s) (side_depth_entropy ask levels is_local s)
