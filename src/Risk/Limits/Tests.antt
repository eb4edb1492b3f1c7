-- ===== src/Risk/Limits/Tests.antt =====
-- A concrete submission that passes the limits, and the theorems at it.
use stevehft.Prelude.{ℕ, ◌+◌, ◌≤◌, ◌<◌, ◌≡◌, ◌⊎◌, refl, true, false, none, some, length}
use stevehft.Prelude.Int.{pos, ◌+ℤ◌, ◌-ℤ◌, abs, ltb_ℤ}
use stevehft.Prelude.Dict.{lookup}
use stevehft.Execution.Intents.{bid, ask}
use stevehft.Execution.Ledger.{empty}
use stevehft.Execution.Ledger.Live.{live_orders, reserved_buying_power}
use stevehft.Execution.Samples.{whole, buy, portfolio, limits}
use stevehft.Risk.Limits.{
  RiskLimits, is_allowed, net_lots, working_order_lots, command_lots, gross_lots,
  projected_symbol_abs_lots, check_flatten_only, check_symbol_position_limit,
  check_gross_position_limit, check_open_order_limit, check_buying_power,
  estimated_existing_short_order_cover_bp, estimated_command_bp,
}
use stevehft.Risk.Inventory.{get_net_lots, net_shares}
use stevehft.Risk.Limits.Exposure.{is_allowed-submit}

abbrev small_limits : RiskLimits ℕ
small_limits = record { config = limits; portfolio_ledger = portfolio; order_ledger = empty 1 }

buy_passes : is_allowed buy small_limits ≡ true
unfolding is_allowed check_flatten_only check_symbol_position_limit projected_symbol_abs_lots ◌+ℤ◌
    net_lots get_net_lots lookup ◌-ℤ◌ working_order_lots live_orders empty
    check_gross_position_limit gross_lots check_open_order_limit check_buying_power
    reserved_buying_power estimated_existing_short_order_cover_bp stevehft.Risk.Inventory.net_lots
    net_shares estimated_command_bp
buy_passes = refl

is_allowed-submit_example :
    ((b a : ℕ)
      → b ≤ working_order_lots "AAPL" bid small_limits + command_lots bid (some buy)
      → a ≤ working_order_lots "AAPL" ask small_limits + command_lots ask (some buy)
      → abs (net_lots "AAPL" small_limits +ℤ pos b -ℤ pos a) ≤ 10)
    × (length (live_orders (some "AAPL") none small_limits.order_ledger) < 4)
    × (false ≡ true
        → ((ltb_ℤ (pos 0) (net_lots "AAPL" small_limits) ≡ true) × (bid ≡ ask))
          ⊎ ((ltb_ℤ (net_lots "AAPL" small_limits) (pos 0) ≡ true) × (bid ≡ bid)))
is_allowed-submit_example = is_allowed-submit buy small_limits refl buy_passes
