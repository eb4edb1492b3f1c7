-- ===== src/Execution/Audit.antt =====
-- src/execution/order_state.py: the audit record of one order, and the fills that it has seen.
-- A float sum is kept as the chain of additions that the code makes.
use stevehft.Prelude.{ℕ, ◌*◌, String, Bool, ◌&&◌, List, ltb, leb, ◌==◌, if◌then◌else◌}
use stevehft.Prelude.Int.{ℤ}
use stevehft.Prelude.Dict.{Dict}
use stevehft.Prelude.Float.{Float, nought, is_pos, sub, div, mul, add, max_f, of_ℕ, decimal}
use stevehft.Execution.Intents.{OrderSide, OrderLiquidity, limit, market, liquidity_eq}
use stevehft.Execution.Lots.{normalize_lots, lot_size_shares}

-- An `execution_index` below 0 stands for a fill whose place in the broker's list is not known.
pub record FillRecord (W : Type 0) : Type 0 where
  pub order_id : String
  pub symbol : String
  pub side : OrderSide
  pub executed_size : ℕ
  pub executed_price : W
  pub status : String
  pub event_ts_ns : ℕ
  pub broker_timestamp : String
  pub execution_index : ℤ

pub record OrderAuditRecord (W : Type 0) : Type 0 where
  pub order_id : String
  pub symbol : String
  pub side : OrderSide
  pub level_index : ℕ
  pub submitted_ts_ns : ℕ
  pub last_update_ts_ns : ℕ
  pub submit_price : W
  pub submit_size : ℕ
  pub decision_price : W
  pub arrival_bid_px : W
  pub arrival_ask_px : W
  pub liquidity : OrderLiquidity
  pub current_status : String
  pub fills : List (FillRecord W)
  pub seen_execution_keys : List String
  pub seen_execution_lots_by_key : Dict String ℕ
  pub seen_execution_count : ℕ
  pub cancel_requested_ts_ns : ℕ
  pub cancel_ack_ts_ns : ℕ
  pub replace_requested_ts_ns : ℕ
  pub cumulative_fill_lots : ℕ
  pub cumulative_fill_notional : W
  pub cumulative_fill_count : ℕ
  pub cumulative_arrival_shortfall : W
  pub cumulative_decision_shortfall : W
  pub cumulative_arrival_slippage_ticks : W
  pub cumulative_decision_slippage_ticks : W

module _ {W : Type 0} where
  unfoldable pub cumulative_executed_shares : OrderAuditRecord W → ℕ
  cumulative_executed_shares a = a.cumulative_fill_lots * lot_size_shares

  unfoldable pub normalized_fill_lots : OrderAuditRecord W → ℕ → ℕ
  normalized_fill_lots a raw_size = normalize_lots raw_size a.submit_size

  -- A cancellation that was asked for by itself, not as half of a replacement.
  unfoldable pub is_plain_cancel : OrderAuditRecord W → Bool
  is_plain_cancel a = ltb 0 a.cancel_requested_ts_ns && leb a.replace_requested_ts_ns 0

module _ {W : Type 0} ⦃f : Float W⦄ where
  -- LIMIT_REBATE_PER_SHARE and MARKET_FEE_PER_SHARE
  abbrev pub limit_rebate_per_share : W
  limit_rebate_per_share = decimal 2 3

  abbrev pub market_fee_per_share : W
  market_fee_per_share = decimal 3 3

  unfoldable pub volume_weighted_fill_price : OrderAuditRecord W → W
  volume_weighted_fill_price a =
      if leb a.cumulative_fill_lots 0
      then nought
      else div a.cumulative_fill_notional (of_ℕ a.cumulative_fill_lots)

  unfoldable pub estimated_rebate : OrderAuditRecord W → W
  unfolding cumulative_executed_shares
  estimated_rebate a =
      if a.liquidity == limit
      then mul (of_ℕ (cumulative_executed_shares a)) limit_rebate_per_share
      else nought

  unfoldable pub estimated_fee : OrderAuditRecord W → W
  unfolding cumulative_executed_shares
  estimated_fee a =
      if a.liquidity == market
      then mul (of_ℕ (cumulative_executed_shares a)) market_fee_per_share
      else nought

  unfoldable pub estimated_net_fee : OrderAuditRecord W → W
  unfolding estimated_fee estimated_rebate
  estimated_net_fee a = sub (estimated_fee a) (estimated_rebate a)

  unfoldable pub arrival_mid_price : OrderAuditRecord W → W
  arrival_mid_price a =
      if is_pos a.arrival_bid_px && is_pos a.arrival_ask_px
      then mul (decimal 5 1) (add a.arrival_bid_px a.arrival_ask_px)
      else a.submit_price

  unfoldable pub arrival_spread : OrderAuditRecord W → W
  arrival_spread a =
      if is_pos a.arrival_bid_px && is_pos a.arrival_ask_px
      then max_f (sub a.arrival_ask_px a.arrival_bid_px) nought
      else nought

  unfoldable pub realized_arrival_slippage_ticks : OrderAuditRecord W → W
  realized_arrival_slippage_ticks a =
      if leb a.cumulative_fill_count 0
      then nought
      else div a.cumulative_arrival_slippage_ticks (of_ℕ a.cumulative_fill_count)

  unfoldable pub realized_decision_slippage_ticks : OrderAuditRecord W → W
  realized_decision_slippage_ticks a =
      if leb a.cumulative_fill_count 0
      then nought
      else div a.cumulative_decision_slippage_ticks (of_ℕ a.cumulative_fill_count)
