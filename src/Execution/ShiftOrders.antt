-- ===== src/Execution/ShiftOrders.antt =====
-- src/execution/shift_orders.py: the broker's order objects that intents are turned into.
-- `shift.Order` is code of the broker's package: the model has the arguments it is called with, and
-- the id that the constructor draws is the trader's (Execution/Router.antt). The package is taken
-- to be installed.
use stevehft.Prelude.{ℕ, String, Option, none, some, leb, max, string_eq, ◌==◌, if◌then◌else◌}
use stevehft.Prelude.Float.{Float, not_pos}
use stevehft.Execution.Intents.{OrderSide, bid, ask}
use stevehft.Execution.Orders.{WorkingOrder, remaining_size}

-- `shift.Order.Type`
pub data ShiftOrderType : Type 0 where
  limit_buy limit_sell market_buy market_sell cancel_bid cancel_ask : ShiftOrderType

-- The arguments of `shift.Order`; the last two may be left out.
pub record ShiftOrder (W : Type 0) : Type 0 where
  pub order_type : ShiftOrderType
  pub symbol : String
  pub size : ℕ
  pub price : Option W
  pub order_id : Option String

-- What a `build_` method does: it raises a `ValueError` with a message, or returns.
pub data Built (A : Type 0) : Type 0 where
  raised : String → Built A
  built : A → Built A

unfoldable pub limit_type : OrderSide → ShiftOrderType
limit_type bid = limit_buy
limit_type ask = limit_sell

unfoldable pub market_type : OrderSide → ShiftOrderType
market_type bid = market_buy
market_type ask = market_sell

unfoldable pub cancel_type : OrderSide → ShiftOrderType
cancel_type bid = cancel_bid
cancel_type ask = cancel_ask

module _ {W : Type 0} where
  unfoldable pub build_limit_order :
      ⦃f : Float W⦄ → String → OrderSide → ℕ → W → Built (ShiftOrder W)
  unfolding limit_type
  build_limit_order symbol side size price =
      if symbol == ""
      then raised "symbol is required"
      else if leb size 0
      then raised "limit order size must be positive"
      else if not_pos price
      then raised "limit order price must be positive"
      else built (record {
        order_type = limit_type side;
        symbol = symbol;
        size = size;
        price = some price;
        order_id = none;
      })

  unfoldable pub build_market_order : String → OrderSide → ℕ → Built (ShiftOrder W)
  unfolding market_type
  build_market_order symbol side size =
      if symbol == ""
      then raised "symbol is required"
      else if leb size 0
      then raised "market order size must be positive"
      else built (record {
        order_type = market_type side;
        symbol = symbol;
        size = size;
        price = none;
        order_id = none;
      })

  unfoldable pub build_cancel_order : WorkingOrder W → Built (ShiftOrder W)
  unfolding cancel_type
  build_cancel_order o =
      if o.order_id == ""
      then raised "live order must have a broker order id"
      else built (record {
        order_type = cancel_type o.side;
        symbol = o.symbol;
        size = max (remaining_size o) 1;
        price = some o.price;
        order_id = some o.order_id;
      })
