-- ===== src/Execution/Samples.antt =====
-- Concrete instances and data that the tests run on: whole numbers for prices, and a broker whose
-- state is a clock that ticks with each call and takes every order.
use stevehft.Prelude.{
  ℕ, zero, suc, ◌+◌, ◌-◌, ◌*◌, ◌/◌, ◌^◌, String, true, false, none, some, [], ◌∷◌, ltb, leb,
}
use Prim.Native.String.{◌++◌ as append}
use stevehft.Prelude.Int.{ℤ, pos, negsuc}
use stevehft.Prelude.Float.{Float}
use stevehft.Execution.Intents.{bid, ask, submit, cancel}
use stevehft.Execution.Orders.{OrderCommand}
use stevehft.Execution.Audit.{FillRecord}
use stevehft.Execution.Ledger.Fills.{Formats}
use stevehft.Execution.Router.{Trader}
use stevehft.Risk.Inventory.{Position, PortfolioLedger}
use stevehft.Risk.Limits.{RiskLimitsConfig}

-- A number in strokes.
abbrev pub tally : ℕ → String
tally zero = ""
tally (suc n) = append "I" (tally n)

abbrev pub signed_tally : ℤ → String
signed_tally (pos n) = tally n
signed_tally (negsuc n) = append "-" (tally (suc n))

instance abbrev pub strokes : Formats
strokes = record { format_int = signed_tally }

instance abbrev pub whole : Float ℕ
whole = record {
  lt = ltb;
  le = leb;
  add = λ x y. x + y;
  sub = λ x y. x - y;
  mul = λ x y. x * y;
  div = λ x y. x / y;
  abs = λ x. x;
  neg = λ x. 0;
  sqrt = λ x. x;
  log = λ x. 0;
  exp = λ x. 1;
  to_int = pos;
  to_nearest = pos;
  decimal = λ m k. m / 10 ^ k;
  of_ℕ = λ n. n;
  format_12f = tally;
}

abbrev pub fill : FillRecord ℕ
fill = record {
  order_id = "a1";
  symbol = "AAPL";
  side = bid;
  executed_size = 2;
  executed_price = 100;
  status = "filled";
  event_ts_ns = 50;
  broker_timestamp = "";
  execution_index = pos 0;
}

abbrev pub other_fill : FillRecord ℕ
other_fill = record fill { order_id = "a2"; side = ask; executed_size = 1 }

abbrev pub buy : OrderCommand ℕ
buy = record {
  action = submit;
  symbol = "AAPL";
  side = bid;
  level_index = 1;
  price = some 100;
  size = 2;
  order_id = "";
  reason = "quote";
  decision_price = 100;
  arrival_bid_px = 99;
  arrival_ask_px = 101;
}

-- The same slot at another price.
abbrev pub rebuy : OrderCommand ℕ
rebuy = record buy { price = some 101; size = 5 }

abbrev pub cancel_buy : OrderCommand ℕ
cancel_buy = record buy { action = cancel; price = none; size = 0; order_id = "III" }

abbrev pub clockwork : Trader ℕ ℕ
clockwork = record {
  monotonic_ns = λ t. (t, suc t);
  new_order = λ o t. (tally t, suc t);
  submit_order = λ o id t. (true, suc t);
  submit_cancellation = λ o id t. (true, suc t);
}

abbrev pub position : Position ℕ
position = record {
  symbol = "AAPL";
  long_shares = 300;
  short_shares = 0;
  long_price = 100;
  short_price = 0;
  realized_pl = 0;
  last_update_ts_ns = 40;
}

abbrev pub portfolio : PortfolioLedger ℕ
portfolio = record {
  positions = ("AAPL", position) ∷ [];
  summary = record {
    total_bp = 1_000_000;
    total_shares = 300;
    total_realized_pl = 0;
    last_update_ts_ns = 40;
  };
}

abbrev pub limits : RiskLimitsConfig ℕ
limits = record {
  max_position_lots_per_symbol = 10;
  max_gross_position_lots = 20;
  max_open_orders_per_symbol = 4;
  min_buying_power = 0;
  buying_power_reserve_fraction = 0;
  flatten_only = false;
}
