-- ===== src/Execution/Reconciler/Live.antt =====
-- src/execution/reconciler.py, `_reconcile_side`: what is commanded for a slot whose order is live.
use stevehft.Prelude.{
  ℕ, ◌+◌, ◌*◌, Bool, not, ◌&&◌, ◌||◌, none, some, ltb, leb, nat_eq, string_eq, ◌==◌, if◌then◌else◌,
}
use stevehft.Prelude.Float.{Float, not_pos, lt, le, of_ℕ}
use stevehft.Execution.Intents.{OrderSide, replace}
use stevehft.Execution.Orders.{
  QuoteTarget, QuoteLevelTarget, WorkingOrder, has_pending_replace, remaining_size,
}
use stevehft.Execution.Reconciler.{
  command, ReconciliationConfig, Decision, ns_per_ms, or_text, less_competitive_price_drift_ticks,
  over_aggressive_price_drift_ticks,
}

module _ {W : Type 0} ⦃f : Float W⦄ where
  -- Whether a live order has to be replaced.
  unfoldable pub is_off_target :
      ReconciliationConfig W → OrderSide → W → QuoteLevelTarget W → WorkingOrder W → ℕ → Bool
  is_off_target c side target_price level o now_ns =
      let freshness_ts_ns =
        if o.last_update_ts_ns == 0 then o.submitted_ts_ns else o.last_update_ts_ns in
      let stale = leb (freshness_ts_ns + c.stale_order_after_ms * ns_per_ms) now_ns in
      let price_drift = less_competitive_price_drift_ticks c side o.price target_price in
      let over_aggressive = over_aggressive_price_drift_ticks c side o.price target_price in
      let size_mismatch =
        ltb level.size (remaining_size o) || ltb (remaining_size o + 1) level.size in
      let queue_position_good =
        le c.stale_keep_queue_share level.queue_share && not_pos price_drift && not size_mismatch in
      stale && not queue_position_good
      || lt (of_ℕ c.max_price_drift_ticks) price_drift
      || lt (of_ℕ c.max_price_drift_ticks) over_aggressive
      || size_mismatch

  -- A live order that is not being changed already.
  unfoldable pub decide_replace :
      ReconciliationConfig W
      → QuoteTarget W
      → OrderSide
      → ℕ
      → W
      → QuoteLevelTarget W
      → WorkingOrder W
      → ℕ
      → Decision W
  decide_replace c target side level_index target_price level o now_ns =
      if is_off_target c side target_price level o now_ns
      then (
        some
            (record (command target side level_index replace "stale_or_off_target"
              (some target_price)) {
                price = some target_price;
                size = level.size;
                order_id = o.order_id;
              }),
        some o,
      )
      else (none, some o)

  -- The branch of a live order.
  unfoldable pub decide_live :
      ReconciliationConfig W
      → QuoteTarget W
      → OrderSide
      → ℕ
      → W
      → QuoteLevelTarget W
      → WorkingOrder W
      → ℕ
      → Decision W
  decide_live c target side level_index target_price level o now_ns =
      if o.pending_cancel
      then (
        none,
        some (
            if has_pending_replace o
            then record o {
              pending_replace_price = some target_price;
              pending_replace_size = level.size;
              pending_replace_reason = or_text target.reason o.pending_replace_reason;
            }
            else o),
      )
      else if ltb 0 o.last_replace_request_ts_ns
          && ltb now_ns (o.last_replace_request_ts_ns + c.min_replace_interval_ms * ns_per_ms)
      then (none, some o)
      else decide_replace c target side level_index target_price level o now_ns
