-- ===== src/Execution/Reconciler/Tests.antt =====
-- A concrete target, and the theorems at it.
use stevehft.Prelude.{All, ℕ, true, false, none, some, [], ◌∷◌}
use stevehft.Execution.Intents.{bid, limit}
use stevehft.Execution.Orders.{QuoteTarget, QuoteLevelTarget, WorkingOrder, level_target}
use stevehft.Execution.Reconciler.{ReconciliationConfig}
use stevehft.Execution.Reconciler.Decisions.{reconcile_side}
use stevehft.Execution.Reconciler.Justified.{IsJustified, reconcile_side-IsJustified}
use stevehft.Prelude.Sorting.{AllPairs}
use stevehft.Execution.Ledger.{OrderLedger, empty}
use stevehft.Execution.Ledger.Store.{register_live_order}
use stevehft.Execution.Reconciler.Targets.{reconcile_side_levels}
use stevehft.Execution.Reconciler.Targets.Once.{OtherSlots, IsFor, reconcile_side_levels_lem}
use stevehft.Execution.Samples.{whole}

abbrev config : ReconciliationConfig ℕ
config = record {
  stale_order_after_ms = 750;
  min_replace_interval_ms = 150;
  new_order_grace_ms = 250;
  inactive_order_hold_ms = 100;
  max_waiting_list_sync_failures = 1;
  max_execution_sync_failures = 3;
  max_portfolio_sync_failures = 1;
  max_parse_failures = 1;
  max_price_drift_ticks = 1;
  stale_keep_queue_share = 1;
  tick_size = 1;
}

abbrev level : QuoteLevelTarget ℕ
level = record {
  level_index = 0;
  price = some 100;
  size = 3;
  queue_ahead_lots = 0;
  queue_share = 0;
  enabled = true;
}

abbrev target : QuoteTarget ℕ
target = record {
  symbol = "AAPL";
  bid_px = some 99;
  ask_px = some 101;
  bid_size = 0;
  ask_size = 0;
  bid_queue_ahead_lots = 0;
  ask_queue_ahead_lots = 0;
  bid_queue_share = 0;
  ask_queue_share = 0;
  enable_bid = true;
  enable_ask = true;
  flatten_mode = false;
  reason = "quote";
  bid_levels = level ∷ [];
  ask_levels = [];
}

abbrev working : WorkingOrder ℕ
working = record {
  symbol = "AAPL";
  side = bid;
  order_id = "a1";
  price = 97;
  size = 3;
  level_index = 0;
  executed_size = 0;
  status = "new";
  liquidity = limit;
  submitted_ts_ns = 10;
  last_update_ts_ns = 10;
  last_replace_request_ts_ns = 0;
  inactive_ts_ns = 0;
  pending_cancel = false;
  pending_replace_price = none;
  pending_replace_size = 0;
  pending_replace_reason = "";
}

reconcile_side-IsJustified_example :
    IsJustified target bid 0
      (level_target target bid 0)
      (some working)
      (reconcile_side config target bid 0 (some working) 20).0
reconcile_side-IsJustified_example =
    reconcile_side-IsJustified target bid 0 config (some working) 20

abbrev one_order : OrderLedger ℕ
one_order = register_live_order working (empty 1)

reconcile_side_levels_lem_example :
    AllPairs OtherSlots (reconcile_side_levels config target bid 20 one_order).0
    × All (IsFor target bid) (reconcile_side_levels config target bid 20 one_order).0
reconcile_side_levels_lem_example = reconcile_side_levels_lem config target bid 20 one_order
