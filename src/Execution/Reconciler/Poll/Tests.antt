-- ===== src/Execution/Reconciler/Poll/Tests.antt =====
-- Polls of a broker whose waiting list cannot be read, and of one with a working order.
use stevehft.Prelude.{ℕ, suc, refl, arith, true, some, none, [], ◌∷◌}
use stevehft.Execution.Ledger.{empty}
use stevehft.Execution.Reconciler.{ReconciliationConfig}
use stevehft.Execution.Reconciler.Sync.{Broker}
use stevehft.Execution.Reconciler.Poll.{Reconciler, poll_server_state}
use stevehft.Execution.Reconciler.Poll.Stops.{IsStopped, poll_server_state-IsStopped}
use stevehft.Execution.Ledger.Conserved.{IsConserved, empty-IsConserved}
use stevehft.Execution.Reconciler.Poll.Kept.{poll_server_state-IsConserved}
use stevehft.Execution.Samples.{whole, strokes, portfolio}
use stevehft.Risk.KillSwitch.{KillSwitchController, normal}

-- It answers everything but the waiting list; its state is a clock.
abbrev silent : Broker ℕ ℕ
silent = record {
  monotonic_ns = λ t. (t, suc t);
  is_connected = λ t. (some true, suc t);
  get_waiting_list = λ t. (none, suc t);
  get_executed_orders = λ id t. (some [], suc t);
  get_portfolio_items = λ t. (some [], suc t);
  get_portfolio_summary = λ t. (none, suc t);
}

abbrev running : KillSwitchController
running = record {
  config = record {
    max_waiting_list_staleness_ms = 2000;
    max_portfolio_staleness_ms = 2000;
    max_position_mismatch_lots = 1;
    max_degraded_duration_ms = 10_000;
  };
  mode = normal;
  degraded_entered_ts_ns = 0;
}

abbrev settings : ReconciliationConfig ℕ
settings = record {
  stale_order_after_ms = 750;
  min_replace_interval_ms = 150;
  new_order_grace_ms = 250;
  inactive_order_hold_ms = 100;
  max_waiting_list_sync_failures = 1;
  max_execution_sync_failures = 3;
  max_portfolio_sync_failures = 1;
  max_parse_failures = 1;
  max_price_drift_ticks = 1;
  stale_keep_queue_share = 1;
  tick_size = 1;
}

abbrev reconciler : Reconciler ℕ ℕ
reconciler = record {
  trader = 5;
  order_ledger = empty 1;
  portfolio_ledger = portfolio;
  config = settings;
  kill_switch = some running;
  waiting_list_sync_failures = 0;
  execution_sync_failures = 0;
  portfolio_sync_failures = 0;
  parse_failures = 0;
}

poll_server_state-IsStopped_example : IsStopped (poll_server_state silent reconciler)
poll_server_state-IsStopped_example =
    poll_server_state-IsStopped silent reconciler running refl refl (omega arith)

-- It has one order working and two lots of it executed.
abbrev busy : Broker ℕ ℕ
busy = record silent {
  get_waiting_list = λ t. (
    some (
        some (record {
          id = "a1";
          symbol = "AAPL";
          type_name = "LIMIT_BUY";
          price = 100;
          size = 5;
          executed_size = 2;
          status = "partially_filled";
        })
        ∷ []),
    suc t,
  );
  get_executed_orders = λ id t. (
    some (
        some (record {
          id = "a1";
          symbol = "AAPL";
          type_name = "LIMIT_BUY";
          executed_size = 2;
          executed_price = 100;
          status = "partially_filled";
          timestamp = "";
        })
        ∷ []),
    suc t,
  );
}

poll_server_state-IsConserved_example : IsConserved (poll_server_state busy reconciler).order_ledger
poll_server_state-IsConserved_example =
    poll_server_state-IsConserved busy reconciler (empty-IsConserved 1)
