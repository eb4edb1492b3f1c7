-- ===== src/Data/Samples.antt =====
-- Whole numbers with a sign for prices, and a broker's book with an order of the program's own in it.
use stevehft.Prelude.{ℕ, suc, ◌*◌, ◌/◌, ◌^◌, true, false, not, none, some, List, [], ◌∷◌}
use stevehft.Prelude.Int.{ℤ, pos, negsuc, abs, sub_ℕ, ◌+ℤ◌, ◌-ℤ◌, ltb_ℤ, trunc_div}
use stevehft.Prelude.Float.{Float}
use stevehft.Execution.Intents.{bid, limit}
use stevehft.Execution.Orders.{WorkingOrder}
use stevehft.Execution.Ledger.{OrderLedger, empty}
use stevehft.Execution.Samples.{whole, signed_tally}
use stevehft.Data.State.{BookLevel}
use stevehft.Data.BookCache.{BestPrice, OrderBookEntry}
use stevehft.Data.BookCache.Refresh.{
  OrderBookType, global_bid, global_ask, local_bid, local_ask, no_attribute, MarketTrader,
  BookCache,
}

abbrev negated : ℤ → ℤ
negated z = pos 0 -ℤ z

abbrev times : ℤ → ℤ → ℤ
times (pos m) (pos n) = pos (m * n)
times (pos m) (negsuc n) = sub_ℕ 0 (m * suc n)
times (negsuc m) (pos n) = sub_ℕ 0 (suc m * n)
times (negsuc m) (negsuc n) = pos (suc m * suc n)

abbrev divided : ℤ → ℤ → ℤ
divided a (pos n) = trunc_div a n
divided a (negsuc n) = negated (trunc_div a (suc n))

instance abbrev pub signed : Float ℤ
signed = record {
  lt = ltb_ℤ;
  le = λ x y. not (ltb_ℤ y x);
  add = λ x y. x +ℤ y;
  sub = λ x y. x -ℤ y;
  mul = times;
  div = divided;
  abs = λ x. pos (abs x);
  neg = negated;
  sqrt = λ x. x;
  log = λ x. pos 0;
  exp = λ x. pos 1;
  to_int = λ x. x;
  to_nearest = λ x. x;
  decimal = λ m k. pos (m / 10 ^ k);
  of_ℕ = pos;
  format_12f = signed_tally;
}

abbrev own_order : WorkingOrder ℕ
own_order = record {
  symbol = "CS1";
  side = bid;
  order_id = "a1";
  price = 100;
  size = 3;
  level_index = 0;
  executed_size = 0;
  status = "new";
  liquidity = limit;
  submitted_ts_ns = 1;
  last_update_ts_ns = 1;
  last_replace_request_ts_ns = 0;
  inactive_ts_ns = 0;
  pending_cancel = false;
  pending_replace_price = none;
  pending_replace_size = 0;
  pending_replace_reason = "";
}

abbrev pub ledger : OrderLedger ℕ
ledger = record (empty 1) { heap = own_order ∷ []; orders_by_order_id = ("a1", 0) ∷ [] }

abbrev pub level : ℕ → ℕ → BookLevel ℕ
level price size = record { price = price; size = pos size; destination = ""; book_time = none }

abbrev entry : ℕ → ℕ → OrderBookEntry ℕ
entry price size = record {
  price = some price;
  size = some (pos size);
  destination = none;
  time = none;
}

abbrev best : BestPrice ℕ
best = record {
  get_bid_price = some 100;
  get_bid_size = some (pos 4);
  get_ask_price = some 102;
  get_ask_size = some (pos 5);
  get_global_bid_price = some 100;
  get_global_bid_size = some (pos 4);
  get_global_ask_price = none;
  get_global_ask_size = none;
  get_local_bid_price = some 100;
  get_local_bid_size = some (pos 4);
  get_local_ask_price = some 102;
  get_local_ask_size = some (pos 5);
}

abbrev book : OrderBookType → List (OrderBookEntry ℕ)
book global_bid = []
book global_ask = []
book local_bid = entry 100 4 ∷ entry 99 6 ∷ []
book local_ask = entry 102 5 ∷ []

-- The state counts the calls.
abbrev pub market_trader : MarketTrader ℕ ℕ
market_trader = record {
  get_best_price = λ symbol t. (some best, suc t);
  get_order_book = λ symbol side max_depth t. (some (book side), suc t);
  get_last_price = λ symbol t. (no_attribute, suc t);
  get_last_size = λ symbol t. (no_attribute, suc t);
}

abbrev pub cache : BookCache ℕ
cache = record { market_state = []; has_order_book_type = true; order_ledger = some ledger }
