-- ===== src/Risk/Limits.antt =====
-- src/risk/limits.py: the checks that a command passes before it is routed. The limits, the
-- portfolio and the order ledger are the three objects that `RiskLimits` holds.
pub mod Exposure
mod Tests
use stevehft.Prelude.{
  ℕ, ◌+◌, ◌-◌, ◌*◌, max, String, Bool, true, false, not, ◌&&◌, ◌||◌, Option, none, some, List, [],
  ◌∷◌, ◌++◌, any, select, length, ltb, leb, string_eq, ◌==◌, if◌then◌else◌,
}
use stevehft.Prelude.Int.{ℤ, pos, ◌+ℤ◌, ◌-ℤ◌, abs, pos_part, ltb_ℤ}
use stevehft.Prelude.Dict.{keys}
use stevehft.Prelude.Float.{Float, nought, is_pos, not_pos, lt, add, sub, mul, max_f, of_ℕ, decimal}
use stevehft.Execution.Intents.{
  OrderSide, bid, ask, side_eq, OrderIntentAction, submit, cancel, flatten, action_eq,
}
use stevehft.Execution.Lots.{lot_size_shares}
use stevehft.Execution.Orders.{WorkingOrder, OrderCommand, remaining_size}
use stevehft.Execution.Ledger.{OrderLedger}
use stevehft.Execution.Ledger.Live.{live_orders, sum_sizes, reserved_buying_power}
use stevehft.Risk.Inventory.{PortfolioLedger, get_net_lots}

pub record RiskLimitsConfig (W : Type 0) : Type 0 where
  pub max_position_lots_per_symbol : ℕ
  pub max_gross_position_lots : ℕ
  pub max_open_orders_per_symbol : ℕ
  pub min_buying_power : W
  pub buying_power_reserve_fraction : W
  pub flatten_only : Bool

pub record RiskDecision : Type 0 where
  pub allowed : Bool
  pub reason : String

pub record RiskLimits (W : Type 0) : Type 0 where
  pub config : RiskLimitsConfig W
  pub portfolio_ledger : PortfolioLedger W
  pub order_ledger : OrderLedger W

-- `RiskDecision(True)`
abbrev pub pass : RiskDecision
pass = record { allowed = true; reason = "" }

abbrev pub reject_if : Bool → String → RiskDecision
reject_if test reason =
    if test
    then record { allowed = false; reason = reason }
    else record { allowed = true; reason = "" }

-- `RiskEvaluation.allowed` and `first_reject_reason`
unfoldable pub all_allowed : List RiskDecision → Bool
all_allowed [] = true
all_allowed (d ∷ ds) = d.allowed && all_allowed ds

unfoldable pub first_reject_reason : List RiskDecision → String
first_reject_reason [] = ""
first_reject_reason (d ∷ ds) = if not d.allowed then d.reason else first_reject_reason ds

module _ {W : Type 0} where
  unfoldable pub set_flatten_only : Bool → RiskLimits W → RiskLimits W
  set_flatten_only flatten_only r = record r {
    config = record r.config { flatten_only = flatten_only };
  }

  unfoldable pub net_lots : String → RiskLimits W → ℤ
  net_lots symbol r = get_net_lots symbol r.portfolio_ledger

  unfoldable pub working_order_lots : String → OrderSide → RiskLimits W → ℕ
  working_order_lots symbol side r =
      sum_sizes (live_orders (some symbol) (some side) r.order_ledger)

  -- The command's lots on a side, if there is a command.
  abbrev pub command_lots : OrderSide → Option (OrderCommand W) → ℕ
  command_lots side none = 0
  command_lots side (some c) = if c.side == side then c.size else 0

  unfoldable pub projected_symbol_abs_lots : String → Option (OrderCommand W) → RiskLimits W → ℕ
  projected_symbol_abs_lots symbol command r =
      let net = net_lots symbol r in
      let bid_lots = working_order_lots symbol bid r + command_lots bid command in
      let ask_lots = working_order_lots symbol ask r + command_lots ask command in
      max (abs (net +ℤ pos bid_lots)) (abs (net -ℤ pos ask_lots))

  unfoldable pub check_flatten_only : OrderCommand W → RiskLimits W → RiskDecision
  check_flatten_only c r =
      let net = net_lots c.symbol r in
      if not r.config.flatten_only
      then pass
      else if c.action == cancel || c.action == flatten
      then pass
      else if ltb_ℤ (pos 0) net && c.side == ask
      then pass
      else if ltb_ℤ net (pos 0) && c.side == bid
      then pass
      else record { allowed = false; reason = "flatten_only_mode" }

  unfoldable pub check_symbol_position_limit : OrderCommand W → RiskLimits W → RiskDecision
  check_symbol_position_limit c r =
      if not (c.action == submit)
      then pass
      else reject_if
          (ltb r.config.max_position_lots_per_symbol
            (projected_symbol_abs_lots c.symbol (some c) r))
          "symbol_position_limit"

  -- `set(positions) | set(by_symbol)`
  unfoldable pub tracked_symbols : RiskLimits W → List String
  tracked_symbols r =
      keys r.portfolio_ledger.positions
      ++ select (λ s. not (any (λ k. k == s) (keys r.portfolio_ledger.positions)))
          (keys r.order_ledger.by_symbol)

  unfoldable pub gross_lots : List String → RiskLimits W → ℕ
  gross_lots [] r = 0
  gross_lots (s ∷ rest) r = projected_symbol_abs_lots s none r + gross_lots rest r

  -- `gross - own + projected > limit`, with the subtraction on the other side.
  unfoldable pub check_gross_position_limit : OrderCommand W → RiskLimits W → RiskDecision
  unfolding tracked_symbols
  check_gross_position_limit c r =
      let limit = r.config.max_gross_position_lots in
      if not (c.action == submit) || leb limit 0
      then pass
      else reject_if
          (ltb (limit + projected_symbol_abs_lots c.symbol none r)
            (gross_lots (tracked_symbols r) r + projected_symbol_abs_lots c.symbol (some c) r))
          "gross_position_limit"

  unfoldable pub check_open_order_limit : OrderCommand W → RiskLimits W → RiskDecision
  check_open_order_limit c r =
      if not (c.action == submit)
      then pass
      else reject_if
          (leb r.config.max_open_orders_per_symbol
            (length (live_orders (some c.symbol) none r.order_ledger)))
          "open_order_limit"

module _ {W : Type 0} ⦃f : Float W⦄ where
  -- The command's price, or its decision price where that is missing.
  abbrev pub price_or : Option W → W → W
  price_or none decision_price = decision_price
  price_or (some price) decision_price = if not_pos price then decision_price else price

  unfoldable pub estimated_command_bp : OrderCommand W → RiskLimits W → W
  estimated_command_bp c r =
      let price = price_or c.price c.decision_price in
      let current_long = pos_part (net_lots c.symbol r) in
      let existing_ask = working_order_lots c.symbol ask r in
      let uncovered_before = existing_ask - current_long in
      let uncovered_after = existing_ask + c.size - current_long in
      let new_short = uncovered_after - uncovered_before in
      let notional = mul (of_ℕ (c.size * lot_size_shares)) price in
      if not_pos price || leb c.size 0
      then nought
      else if c.action == flatten
      then notional
      else if not (c.side == ask)
      then notional
      else mul (mul (mul (decimal 2 0) (of_ℕ new_short)) (of_ℕ lot_size_shares)) price

  -- `max(prices)`: the first of the greatest.
  abbrev pub worst_price : W → List (WorkingOrder W) → W
  worst_price worst [] = worst
  worst_price worst (o ∷ os) = worst_price (max_f worst o.price) os

  unfoldable pub is_pending_ask : WorkingOrder W → Bool
  is_pending_ask o = is_pos o.price && o.status == "pending_new"

  unfoldable pub cover_of : ℕ → W → List (WorkingOrder W) → W
  cover_of current_long reserved [] = reserved
  cover_of current_long reserved (o ∷ os) =
      add reserved (
        mul (of_ℕ ((sum_sizes (o ∷ os) - current_long) * lot_size_shares)) (worst_price o.price os))

  unfoldable pub short_cover_loop : W → List String → RiskLimits W → W
  unfolding cover_of is_pending_ask
  short_cover_loop reserved [] r = reserved
  short_cover_loop reserved (symbol ∷ rest) r =
      short_cover_loop
        (cover_of (pos_part (net_lots symbol r)) reserved
          (select is_pending_ask (live_orders (some symbol) (some ask) r.order_ledger)))
        rest r

  unfoldable pub estimated_existing_short_order_cover_bp : RiskLimits W → W
  unfolding short_cover_loop
  estimated_existing_short_order_cover_bp r =
      short_cover_loop nought (keys r.order_ledger.by_symbol) r

  unfoldable pub check_buying_power : OrderCommand W → RiskLimits W → RiskDecision
  check_buying_power c r =
      let total_bp = r.portfolio_ledger.summary.total_bp in
      let available =
        sub
          (sub (sub total_bp (reserved_buying_power r.order_ledger))
            (estimated_existing_short_order_cover_bp r))
          (estimated_command_bp c r) in
      let buffer =
        max_f r.config.min_buying_power
          (mul total_bp (max_f r.config.buying_power_reserve_fraction nought)) in
      if not (c.action == submit || c.action == flatten)
      then pass
      else if c.action == flatten && not (c.side == bid)
      then pass
      else reject_if (lt available buffer) "buying_power_floor"

  unfoldable pub evaluate : OrderCommand W → RiskLimits W → List RiskDecision
  evaluate c r =
      check_flatten_only c r
      ∷ check_symbol_position_limit c r
      ∷ check_gross_position_limit c r
      ∷ check_open_order_limit c r
      ∷ check_buying_power c r
      ∷ []

  unfoldable pub is_allowed : OrderCommand W → RiskLimits W → Bool
  unfolding all_allowed evaluate
  is_allowed c r = all_allowed (evaluate c r)
