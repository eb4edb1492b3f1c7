-- ===== src/Execution/Router/Bookings.antt =====
-- src/execution/order_router.py: what the router writes into the order ledger about the commands that
-- the broker took.
use stevehft.Prelude.{ℕ, String, true, false, none, string_eq}
use stevehft.Prelude.Float.{Float, nought}
use stevehft.Execution.Intents.{cancel, OrderLiquidity}
use stevehft.Execution.Orders.{WorkingOrder, OrderCommand}
use stevehft.Execution.SymbolLedger.{Ref}
use stevehft.Execution.Ledger.{OrderLedger}
use stevehft.Execution.Ledger.Store.{register_live_order, modify_order}
use stevehft.Execution.Ledger.Audits.{AuditRequest, request, ensured, ensure_audit, put_audit}

module _ {W : Type 0} where
  -- The registered object of an order that the broker took.
  unfoldable pub new_working_order :
      OrderCommand W → W → OrderLiquidity → String → String → ℕ → WorkingOrder W
  new_working_order c price liquidity status id now = record {
    symbol = c.symbol;
    side = c.side;
    order_id = id;
    price = price;
    size = c.size;
    level_index = c.level_index;
    executed_size = 0;
    status = status;
    liquidity = liquidity;
    submitted_ts_ns = now;
    last_update_ts_ns = now;
    last_replace_request_ts_ns = 0;
    inactive_ts_ns = 0;
    pending_cancel = false;
    pending_replace_price = none;
    pending_replace_size = 0;
    pending_replace_reason = "";
  }

  unfoldable pub submit_request : OrderCommand W → W → OrderLiquidity → String → ℕ → AuditRequest W
  submit_request c price liquidity id now = record {
    order_id = id;
    symbol = c.symbol;
    side = c.side;
    level_index = c.level_index;
    submitted_ts_ns = now;
    submit_price = price;
    submit_size = c.size;
    decision_price = c.decision_price;
    arrival_bid_px = c.arrival_bid_px;
    arrival_ask_px = c.arrival_ask_px;
    liquidity = liquidity;
  }

module _ {W : Type 0} ⦃f : Float W⦄ where
  -- What `_submit` and `_flatten` do with the ledger once the broker has the order.
  unfoldable pub register :
      OrderCommand W → W → OrderLiquidity → String → String → ℕ → OrderLedger W → OrderLedger W
  unfolding new_working_order submit_request
  register c price liquidity status id now l =
      let l = register_live_order (new_working_order c price liquidity status id now) l in
      let r = submit_request c price liquidity id now in
      put_audit id (record (ensured r l) { current_status = status; last_update_ts_ns = now })
        (ensure_audit r l)

  -- `ensure_audit` with an order's own id, symbol, side and level.
  unfoldable pub order_request : WorkingOrder W → AuditRequest W
  order_request o = record (request o.order_id o.symbol o.side) { level_index = o.level_index }

  unfoldable pub mark_cancelled : Ref → WorkingOrder W → ℕ → OrderLedger W → OrderLedger W
  unfolding order_request
  mark_cancelled r o now l =
      let l = modify_order r (λ o. record o { pending_cancel = true; last_update_ts_ns = now }) l in
      let q = order_request o in
      put_audit o.order_id
        (record (ensured q l) { cancel_requested_ts_ns = now; last_update_ts_ns = now })
        (ensure_audit q l)

  unfoldable pub mark_replaced :
      OrderCommand W → Ref → WorkingOrder W → ℕ → OrderLedger W → OrderLedger W
  unfolding order_request
  mark_replaced c r o now l =
      let l =
        modify_order r
          (λ o. record o {
            last_replace_request_ts_ns = now;
            pending_replace_price = c.price;
            pending_replace_size = c.size;
            pending_replace_reason = c.reason;
          })
          l in
      let q = order_request o in
      put_audit o.order_id (record (ensured q l) { replace_requested_ts_ns = now })
        (ensure_audit q l)

  -- The cancellation that a replacement ends with.
  unfoldable pub cancel_of : OrderCommand W → OrderCommand W
  cancel_of c = record c {
    action = cancel;
    price = none;
    size = 0;
    decision_price = nought;
    arrival_bid_px = nought;
    arrival_ask_px = nought;
  }
