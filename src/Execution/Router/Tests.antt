-- ===== src/Execution/Router/Tests.antt =====
-- Concrete runs of the router, and the theorems at them.
use stevehft.Prelude.{ℕ, ◌+◌, ◌≤◌, ◌≡◌, ◌⊎◌, refl, false, none, some, get_elem?}
use stevehft.Prelude.Int.{pos, ◌+ℤ◌, ◌-ℤ◌, abs}
use stevehft.Execution.Intents.{bid, ask, limit}
use stevehft.Execution.Orders.{WorkingOrder, remaining_size, executed_lots}
use stevehft.Execution.Lots.{normalize_lots}
use stevehft.Prelude.Dict.{lookup}
use stevehft.Execution.Ledger.{OrderLedger, empty}
use stevehft.Execution.Ledger.Store.{find_by_order_id}
use stevehft.Execution.ShiftOrders.{
  ShiftOrder, built, limit_type, cancel_type, limit_buy, cancel_bid, build_limit_order,
  build_cancel_order,
}
use stevehft.Execution.Router.{OrderRouter, done, limits_of, slot_order}
use stevehft.Execution.Router.Bookings.{register, new_working_order}
use stevehft.Execution.Router.Actions.{
  apply, submit_command, cancel_command, submit_would_duplicate_side_order,
}
use stevehft.Execution.Router.Guards.{apply_kill_switch, apply_submit_within}
use stevehft.Execution.Router.Registered.{register_lem}
use stevehft.Execution.Router.Resubmit.{submit_command_twice}
use stevehft.Execution.Router.Recancel.{cancel_command_twice}
use stevehft.Risk.KillSwitch.{KillSwitchController, kill_switch, normal}
use stevehft.Risk.Limits.{net_lots, working_order_lots, command_lots}
use stevehft.Execution.Samples.{whole, buy, rebuy, cancel_buy, clockwork, portfolio, limits}

abbrev halted : KillSwitchController
halted = record {
  config = record {
    max_waiting_list_staleness_ms = 2000;
    max_portfolio_staleness_ms = 2000;
    max_position_mismatch_lots = 1;
    max_degraded_duration_ms = 10_000;
  };
  mode = kill_switch;
  degraded_entered_ts_ns = 0;
}

abbrev open_router : OrderRouter ℕ ℕ
open_router = record {
  trader = 3;
  order_ledger = empty 1;
  risk_limits = some (record { config = limits; portfolio_ledger = portfolio });
  kill_switch = some (record halted { mode = normal });
}

abbrev halted_router : OrderRouter ℕ ℕ
halted_router = record open_router { kill_switch = some halted }

apply_kill_switch_example : apply clockwork buy halted_router ≡ (done, halted_router)
apply_kill_switch_example =
    apply_kill_switch clockwork buy halted_router halted refl refl (λ e. cc e) (λ e. cc e)

apply_submit_within_example :
    (((apply clockwork buy open_router).1.trader ≡ 3)
      × ((apply clockwork buy open_router).1.order_ledger ≡ empty 1))
    ⊎ ((b a : ℕ)
        → b
          ≤ working_order_lots "AAPL" bid
              (limits_of (record { config = limits; portfolio_ledger = portfolio }) (empty 1))
            + command_lots bid (some buy)
        → a
          ≤ working_order_lots "AAPL" ask
              (limits_of (record { config = limits; portfolio_ledger = portfolio }) (empty 1))
            + command_lots ask (some buy)
        → abs (
            net_lots "AAPL"
              (limits_of (record { config = limits; portfolio_ledger = portfolio }) (empty 1))
            +ℤ pos b
            -ℤ pos a)
          ≤ 10)
apply_submit_within_example =
    apply_submit_within clockwork buy open_router
      (record { config = limits; portfolio_ledger = portfolio }) refl refl

abbrev after_buy : OrderLedger ℕ
after_buy = register buy 100 limit "pending_new" "III" 5 (empty 1)

found : find_by_order_id "III" after_buy ≡ (some 0, after_buy)
unfolding empty
found = (register_lem buy 100 limit "pending_new" "III" 5 (empty 1)).1

first_object :
    get_elem? after_buy.heap 0 ≡ some (new_working_order buy 100 limit "pending_new" "III" 5)
unfolding empty
first_object = (register_lem buy 100 limit "pending_new" "III" 5 (empty 1)).2

abbrev bought : OrderRouter ℕ ℕ
bought = (submit_command clockwork buy open_router).1

abbrev buy_order : ShiftOrder ℕ
buy_order = record {
  order_type = limit_buy;
  symbol = "AAPL";
  size = 2;
  price = some 100;
  order_id = none;
}

not_a_duplicate : submit_would_duplicate_side_order clockwork buy open_router ≡ (false, 3)
unfolding submit_would_duplicate_side_order slot_order empty lookup
not_a_duplicate = refl

buy_order_built : build_limit_order "AAPL" bid 2 100 ≡ built buy_order
unfolding build_limit_order limit_type
buy_order_built = refl

submit_command_twice_example : submit_command clockwork rebuy bought ≡ (done, bought)
submit_command_twice_example =
    submit_command_twice clockwork buy rebuy open_router 100 101 buy_order "III" 3 4 5 refl
      not_a_duplicate buy_order_built refl refl refl refl refl refl

abbrev ordered : OrderRouter ℕ ℕ
ordered = record open_router { trader = 6; order_ledger = after_buy }

abbrev bought_order : WorkingOrder ℕ
bought_order = new_working_order buy 100 limit "pending_new" "III" 5

abbrev cancel_order : ShiftOrder ℕ
cancel_order = record {
  order_type = cancel_bid;
  symbol = "AAPL";
  size = 2;
  price = some 100;
  order_id = some "III";
}

cancel_order_built : build_cancel_order bought_order ≡ built cancel_order
unfolding build_cancel_order cancel_type new_working_order remaining_size executed_lots
    normalize_lots
cancel_order_built = refl

not_pending : bought_order.pending_cancel ≡ false
unfolding new_working_order
not_pending = refl

cancel_command_twice_example :
    cancel_command clockwork cancel_buy (cancel_command clockwork cancel_buy ordered).1
    ≡ (done, (cancel_command clockwork cancel_buy ordered).1)
cancel_command_twice_example =
    cancel_command_twice clockwork cancel_buy ordered 0 after_buy bought_order cancel_order "IIIIII"
      7 8 found first_object not_pending cancel_order_built refl refl
