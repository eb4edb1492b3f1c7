-- ===== src/Execution/Reconciler/Sync.antt =====
-- src/execution/reconciler.py: what the reconciler reads from the broker, and how the types of raw
-- orders are read. The broker's calls run on a state of their own; a call that raises answers `none`.
-- A raw record whose attributes cannot be read is `none` too.
pub mod Waiting
pub mod Executions
pub mod Portfolio
use Prim.Native.String.{find, len}
use stevehft.Prelude.{ℕ, String, Bool, ◌||◌, Option, none, some, List, leb, if◌then◌else◌}
use stevehft.Execution.Intents.{OrderSide, bid, ask, OrderLiquidity, limit, market, unknown}

-- A member of `get_waiting_list()`, with `str(raw.type).upper()` and `str(raw.status).lower()`.
pub record RawOrder (W : Type 0) : Type 0 where
  pub id : String
  pub symbol : String
  pub type_name : String
  pub price : W
  pub size : ℕ
  pub executed_size : ℕ
  pub status : String

-- A member of `get_executed_orders(order_id)`.
pub record RawFill (W : Type 0) : Type 0 where
  pub id : String
  pub symbol : String
  pub type_name : String
  pub executed_size : ℕ
  pub executed_price : W
  pub status : String
  pub timestamp : String

-- A value of `get_portfolio_items()`.
pub record RawItem (W : Type 0) : Type 0 where
  pub long_shares : ℕ
  pub short_shares : ℕ
  pub long_price : W
  pub short_price : W
  pub realized_pl : W

-- `get_portfolio_summary()`
pub record RawSummary (W : Type 0) : Type 0 where
  pub total_bp : W
  pub total_shares : ℕ
  pub total_realized_pl : W

pub record Broker (T W : Type 0) : Type 0 where
  pub monotonic_ns : T → ℕ × T
  pub is_connected : T → Option Bool × T
  pub get_waiting_list : T → Option (List (Option (RawOrder W))) × T
  pub get_executed_orders : String → T → Option (List (Option (RawFill W))) × T
  pub get_portfolio_items : T → Option (List (String × RawItem W)) × T
  pub get_portfolio_summary : T → Option (RawSummary W) × T

-- `part in text`
abbrev pub contains : String → String → Bool
contains text part = leb (find text part) (len text)

-- `none` is the ValueError.
unfoldable pub infer_side : String → Option OrderSide
infer_side type_name =
    if contains type_name "BUY" || contains type_name "BID"
    then some bid
    else if contains type_name "SELL" || contains type_name "ASK"
    then some ask
    else none

unfoldable pub infer_liquidity : String → OrderLiquidity
infer_liquidity type_name =
    if contains type_name "MARKET"
    then market
    else if contains type_name "LIMIT"
    then limit
    else unknown
