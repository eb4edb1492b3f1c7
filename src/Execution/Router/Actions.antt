-- ===== src/Execution/Router/Actions.antt =====
-- src/execution/order_router.py: what the router sends to the broker, and what it writes down about
-- it in the order ledger.
use stevehft.Prelude.{
  ◌+◌, String, Bool, true, false, ◌&&◌, Option, none, some, leb, ltb, string_eq, ◌==◌,
  if◌then◌else◌,
}
use stevehft.Prelude.Float.{Float, nought}
use stevehft.Execution.Intents.{
  OrderIntentAction, keep, submit, cancel, replace, flatten, OrderLiquidity, limit, market,
}
use stevehft.Execution.Orders.{WorkingOrder, OrderCommand, is_live, has_pending_replace}
use stevehft.Execution.SymbolLedger.{Ref}
use stevehft.Execution.Ledger.Store.{find_by_order_id}
use stevehft.Execution.ShiftOrders.{
  ShiftOrder, Built, raised, built, build_limit_order, build_market_order, build_cancel_order,
}
use stevehft.Execution.Router.Bookings.{register, mark_cancelled, mark_replaced, cancel_of}
use stevehft.Execution.Router.{
  Trader, OrderRouter, Outcome, done, failed, object_at, slot_order, preflight_allows,
}

module _ {T W : Type 0} ⦃f : Float W⦄ where
  -- The clock is read only where all else holds; the difference
  -- stands as a sum.
  abbrev pub would_duplicate : Trader T W → Option (WorkingOrder W) → T → Bool × T
  would_duplicate tr none t = (false, t)
  would_duplicate tr (some o) t =
      let (now, t') = tr.monotonic_ns t in
      if is_live o
      then (true, t)
      else if has_pending_replace o
      then (false, t)
      else if o.status == "inactive" && ltb 0 o.inactive_ts_ns && leb o.last_replace_request_ts_ns 0
      then (ltb now (o.inactive_ts_ns + 2_000_000_000), t')
      else (false, t)

  unfoldable pub submit_would_duplicate_side_order :
      Trader T W → OrderCommand W → OrderRouter T W → Bool × T
  submit_would_duplicate_side_order tr c s =
      would_duplicate tr (slot_order c s.order_ledger) s.trader

  unfoldable pub place :
      Trader T W
      → Built (ShiftOrder W)
      → OrderCommand W
      → W
      → OrderLiquidity
      → String
      → OrderRouter T W
      → Outcome × OrderRouter T W
  place tr (raised message) c price liquidity status s = (failed message, s)
  place tr (built o) c price liquidity status s =
      let (id, t) = tr.new_order o s.trader in
      let (returned, t) = tr.submit_order o id t in
      let (now, t') = tr.monotonic_ns t in
      if returned
      then (
        done,
        record s {
          trader = t';
          order_ledger = register c price liquidity status id now s.order_ledger;
        },
      )
      else (done, record s { trader = t })

  abbrev pub submit_at :
      Trader T W → Option W → OrderCommand W → OrderRouter T W → Outcome × OrderRouter T W
  submit_at tr none c s = (done, s)
  submit_at tr (some price) c s =
      let (duplicate, t) = submit_would_duplicate_side_order tr c s in
      let s = record s { trader = t } in
      if duplicate
      then (done, s)
      else place tr (build_limit_order c.symbol c.side c.size price) c price limit "pending_new" s

  unfoldable pub submit_command :
      Trader T W → OrderCommand W → OrderRouter T W → Outcome × OrderRouter T W
  submit_command tr c s = submit_at tr c.price c s

  unfoldable pub flatten_command :
      Trader T W → OrderCommand W → OrderRouter T W → Outcome × OrderRouter T W
  flatten_command tr c s =
      if leb c.size 0
      then (done, s)
      else place tr (build_market_order c.symbol c.side c.size) c nought market "pending_flatten" s

  unfoldable pub send_cancel :
      Trader T W
      → Built (ShiftOrder W)
      → Ref
      → WorkingOrder W
      → OrderRouter T W
      → Outcome × OrderRouter T W
  send_cancel tr (raised message) r o s = (failed message, s)
  send_cancel tr (built x) r o s =
      let (id, t) = tr.new_order x s.trader in
      let (returned, t) = tr.submit_cancellation x id t in
      let (now, t') = tr.monotonic_ns t in
      if returned
      then (done, record s { trader = t'; order_ledger = mark_cancelled r o now s.order_ledger })
      else (done, record s { trader = t })

  abbrev pub cancel_object :
      Trader T W
      → Option Ref
      → Option (WorkingOrder W)
      → OrderRouter T W
      → Outcome × OrderRouter T W
  cancel_object tr (some r) (some o) s =
      if o.pending_cancel then (done, s) else send_cancel tr (build_cancel_order o) r o s
  cancel_object tr r o s = (done, s)

  unfoldable pub cancel_command :
      Trader T W → OrderCommand W → OrderRouter T W → Outcome × OrderRouter T W
  cancel_command tr c s =
      let (found, l) = find_by_order_id c.order_id s.order_ledger in
      cancel_object tr found (object_at found l) (record s { order_ledger = l })

  abbrev pub request_replace :
      Trader T W
      → OrderCommand W
      → Option Ref
      → Option (WorkingOrder W)
      → OrderRouter T W
      → OrderRouter T W
  request_replace tr c (some r) (some o) s =
      let (now, t) = tr.monotonic_ns s.trader in
      record s { trader = t; order_ledger = mark_replaced c r o now s.order_ledger }
  request_replace tr c r o s = s

  unfoldable pub replace_command :
      Trader T W → OrderCommand W → OrderRouter T W → Outcome × OrderRouter T W
  replace_command tr c s =
      let (found, l) = find_by_order_id c.order_id s.order_ledger in
      cancel_command tr (cancel_of c)
        (request_replace tr c found (object_at found l) (record s { order_ledger = l }))

  abbrev pub route :
      Trader T W → OrderIntentAction → OrderCommand W → OrderRouter T W → Outcome × OrderRouter T W
  route tr submit c s = submit_command tr c s
  route tr cancel c s = cancel_command tr c s
  route tr replace c s = replace_command tr c s
  route tr flatten c s = flatten_command tr c s
  route tr keep c s = (done, s)

  unfoldable pub apply : Trader T W → OrderCommand W → OrderRouter T W → Outcome × OrderRouter T W
  apply tr c s =
      let (allowed, s) = preflight_allows c s in
      if allowed then route tr c.action c s else (done, s)
